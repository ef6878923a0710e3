-- ===== src/Challenges/Statements.antt =====
-- `DeviceChallengeRepository` of backend/app/repositories/challenges.py: the SQL statements, read as
-- functions of the tables. `now` is `CURRENT_TIMESTAMP`.
use self_relay.Base.{
  ℕ, ◌+◌, min, Bool, false, ◌&&◌, ◌||◌, not, Option, none, some, [], ◌∷◌, String, ◌==◌, ltb,
  if◌then◌else◌, is_some,
}
use self_relay.Base.Dict.{Dict, lookup, insert}
use self_relay.Records.{AccountRecord, DeviceRecord, DeviceChallengeRecord}
use self_relay.Base.Rows.{update_row}
use self_relay.Transfers.Memory.{is_active_device}

pub record ChallengeDatabase : Type 0 where
  pub accounts : Dict AccountRecord
  pub devices : Dict DeviceRecord
  pub challenges : Dict DeviceChallengeRecord

abbrev pub Answer : Type 0
Answer = Option DeviceChallengeRecord × ChallengeDatabase

-- The device is of the account, which is not deleted.
abbrev pub of_account : (account_id : ℕ) → Option AccountRecord → Option DeviceRecord → Bool
of_account account_id none d = false
of_account account_id (some account) none = false
of_account account_id (some account) (some d) =
    d.user_id == account_id && not (is_some account.deleted_at)

-- Besides, it is active and of the account's epoch.
abbrev pub current_device_of : (account_id : ℕ) → Option AccountRecord → Option DeviceRecord → Bool
current_device_of account_id none d = false
current_device_of account_id (some account) none = false
current_device_of account_id (some account) (some d) =
    d.user_id == account_id
    && not (is_some account.deleted_at)
    && is_active_device d.status
    && d.epoch == account.device_epoch

abbrev pub visible :
    ChallengeDatabase
    → (account_id : ℕ) → Option DeviceChallengeRecord
    → Option DeviceChallengeRecord
visible db account_id none = none
visible db account_id (some c) =
    if of_account account_id (lookup account_id db.accounts) (lookup c.device_id db.devices)
    then some c
    else none

unfoldable pub get_by_id :
    (account_id challenge_id : ℕ) → ChallengeDatabase → Option DeviceChallengeRecord
get_by_id account_id id db = visible db account_id (lookup id db.challenges)

-- The row of a nonce: `nonce_hash` is unique.
unfoldable pub key_of_nonce : (nonce_hash : ℕ) → Dict DeviceChallengeRecord → Option ℕ
key_of_nonce h [] = none
key_of_nonce h ((k, c) ∷ rest) =
    let later = key_of_nonce h rest in if c.nonce_hash == h then some k else later

abbrev pub row_of : ChallengeDatabase → Option ℕ → Option DeviceChallengeRecord
row_of db none = none
row_of db (some k) = lookup k db.challenges

unfoldable pub get_by_nonce_hash :
    (account_id nonce_hash : ℕ) → ChallengeDatabase → Option DeviceChallengeRecord
unfolding key_of_nonce
get_by_nonce_hash account_id h db = visible db account_id (row_of db (key_of_nonce h db.challenges))

abbrev pub new_challenge :
    (now id device_id nonce_hash : ℕ) → String → (expires_at : ℕ) → DeviceChallengeRecord
new_challenge now id device_id h origin expires_at = record {
  id = id;
  device_id = device_id;
  nonce_hash = h;
  origin = origin;
  created_at = now;
  expires_at = expires_at;
  consumed_at = none;
  attempt_count = 0;
}

-- `create`, for the identifier that the database draws: `none` where it raises, on no row or on a
-- key that is taken.
unfoldable pub create :
    (now id account_id device_id nonce_hash : ℕ)
    → String
    → (expires_at : ℕ) → ChallengeDatabase
    → Answer
unfolding key_of_nonce
create now id account_id device_id h origin expires_at db =
    if current_device_of account_id (lookup account_id db.accounts) (lookup device_id db.devices)
      && not (is_some (lookup id db.challenges) || is_some (key_of_nonce h db.challenges))
    then (
      some (new_challenge now id device_id h origin expires_at),
      record db {
        challenges = insert id (new_challenge now id device_id h origin expires_at) db.challenges;
      },
    )
    else (none, db)

-- The `WHERE` clauses that `consume` and `mark_failed` share.
abbrev pub is_pending : (now account_id : ℕ) → ChallengeDatabase → DeviceChallengeRecord → Bool
is_pending now account_id db c =
    not (is_some c.consumed_at)
    && ltb now c.expires_at
    && current_device_of account_id (lookup account_id db.accounts) (lookup c.device_id db.devices)

abbrev pub consumed_now : (now : ℕ) → DeviceChallengeRecord → DeviceChallengeRecord
consumed_now now c = record c { consumed_at = some now }

abbrev pub with_challenges :
    ChallengeDatabase → Option DeviceChallengeRecord × Dict DeviceChallengeRecord → Answer
with_challenges db (c, cs) = (c, record db { challenges = cs })

unfoldable pub consume : (now account_id challenge_id : ℕ) → ChallengeDatabase → Answer
unfolding update_row
consume now account_id id db =
    with_challenges db
      (update_row (λ c. not (is_pending now account_id db c)) (consumed_now now) id db.challenges)

abbrev pub consume_key : (now account_id : ℕ) → Option ℕ → ChallengeDatabase → Answer
consume_key now account_id none db = (none, db)
consume_key now account_id (some id) db = consume now account_id id db

-- The same statement with the nonce in its `WHERE` clause
unfoldable pub consume_by_nonce_hash : (now account_id nonce_hash : ℕ) → ChallengeDatabase → Answer
unfolding consume key_of_nonce
consume_by_nonce_hash now account_id h db =
    consume_key now account_id (key_of_nonce h db.challenges) db

abbrev pub counted_try : DeviceChallengeRecord → DeviceChallengeRecord
counted_try c = record c { attempt_count = min (c.attempt_count + 1) 10 }

unfoldable pub mark_failed : (now account_id challenge_id : ℕ) → ChallengeDatabase → Answer
unfolding update_row
mark_failed now account_id id db = with_challenges db (
    update_row (λ c. not (ltb c.attempt_count 10 && is_pending now account_id db c)) counted_try id
      db.challenges)
