-- ===== src/Identity/Sessions.antt =====
-- `SessionRepository` of backend/app/repositories/sessions.py. `now` is `CURRENT_TIMESTAMP`.
-- A reason for a revocation is one that the table admits: any other makes the statement raise.
use self_relay.Base.{
  ℕ, ◌+◌, min, Bool, ◌&&◌, not, Option, none, some, ◌==◌, ltb, leb, if◌then◌else◌, is_some,
  coalesce,
}
use self_relay.Base.Dict.{Dict, lookup, insert}
use self_relay.Base.Rows.{update_row}
use self_relay.Base.Where.{update_where, count_where, key_where, find_where}
use self_relay.Records.{SessionRecord, RevocationReason}
use self_relay.Identity.Database.{IdentityDatabase, in_good_standing, is_usable}

abbrev pub SessionAnswer : Type 0
SessionAnswer = Option SessionRecord × IdentityDatabase

-- 30 days
abbrev pub session_idle_lifetime : ℕ
session_idle_lifetime = 2592000000000

abbrev pub with_sessions :
    IdentityDatabase → Option SessionRecord × Dict SessionRecord → SessionAnswer
with_sessions db (s, sessions) = (s, record db { sessions = sessions })

abbrev pub of_account : (account_id : ℕ) → Option SessionRecord → Option SessionRecord
of_account account_id none = none
of_account account_id (some s) = if s.user_id == account_id then some s else none

unfoldable pub get_by_id : (account_id session_id : ℕ) → IdentityDatabase → Option SessionRecord
get_by_id account_id session_id db = of_account account_id (lookup session_id db.sessions)

unfoldable pub get_by_token_hash :
    (now account_id token_hash : ℕ) → IdentityDatabase → Option SessionRecord
unfolding find_where
get_by_token_hash now account_id h db =
    find_where (λ s. s.user_id == account_id && s.token_hash == h && is_usable now db s) db.sessions

unfoldable pub find_by_token_hash : (now token_hash : ℕ) → IdentityDatabase → Option SessionRecord
unfolding find_where
find_by_token_hash now h db = find_where (λ s. s.token_hash == h && is_usable now db s) db.sessions

abbrev pub if_usable : (now : ℕ) → IdentityDatabase → Option SessionRecord → Option SessionRecord
if_usable now db none = none
if_usable now db (some s) = if is_usable now db s then some s else none

unfoldable pub find_current_by_id : (now session_id : ℕ) → IdentityDatabase → Option SessionRecord
find_current_by_id now session_id db = if_usable now db (lookup session_id db.sessions)

abbrev pub new_session :
    (now id account_id device_id token_hash csrf_hash epoch idle_expires_at absolute_expires_at : ℕ)
    → SessionRecord
new_session now id account_id device_id h csrf epoch idle absolute = record {
  id = id;
  user_id = account_id;
  device_id = device_id;
  token_hash = h;
  csrf_hash = csrf;
  epoch = epoch;
  created_at = now;
  last_seen_at = now;
  idle_expires_at = idle;
  absolute_expires_at = absolute;
  revoked_at = none;
  revocation_reason = none;
}

-- What the table's keys and checks admit: the identifier and the token are new, and the deadlines stand
-- in order after `created_at`.
abbrev pub admits_session : SessionRecord → IdentityDatabase → Bool
admits_session s db =
    not (is_some (lookup s.id db.sessions))
    && not (is_some (find_where (λ r. r.token_hash == s.token_hash) db.sessions))
    && ltb s.created_at s.idle_expires_at
    && leb s.idle_expires_at s.absolute_expires_at

abbrev pub insert_session : SessionRecord → IdentityDatabase → SessionAnswer
insert_session s db =
    if in_good_standing db s && admits_session s db
    then (some s, record db { sessions = insert s.id s db.sessions })
    else (none, db)

-- `create`, for the identifier that the database draws: `none` where it raises, on no row or where the
-- table does not admit the row.
unfoldable pub create :
    (now id account_id device_id token_hash csrf_hash epoch idle_expires_at absolute_expires_at : ℕ)
    → IdentityDatabase
    → SessionAnswer
unfolding find_where
create now id account_id device_id h csrf epoch idle absolute db =
    insert_session (new_session now id account_id device_id h csrf epoch idle absolute) db

abbrev pub touched : (now : ℕ) → SessionRecord → SessionRecord
touched now s = record s {
  last_seen_at = now;
  idle_expires_at = min (now + session_idle_lifetime) s.absolute_expires_at;
}

unfoldable pub touch_last_seen : (now account_id session_id : ℕ) → IdentityDatabase → SessionAnswer
unfolding update_row
touch_last_seen now account_id session_id db = with_sessions db (
    update_row (λ s. not (s.user_id == account_id && is_usable now db s)) (touched now) session_id
      db.sessions)

unfoldable pub replace_csrf_hash :
    (now account_id session_id csrf_hash : ℕ) → IdentityDatabase → SessionAnswer
unfolding update_row
replace_csrf_hash now account_id session_id csrf db = with_sessions db (
    update_row (λ s. not (s.user_id == account_id && is_usable now db s))
      (λ s. record s { csrf_hash = csrf }) session_id db.sessions)

abbrev pub ended : (now : ℕ) → RevocationReason → SessionRecord → SessionRecord
ended now reason s = record s {
  revoked_at = some (coalesce s.revoked_at now);
  revocation_reason = some reason;
}

unfoldable pub revoke :
    (now account_id session_id : ℕ) → RevocationReason → IdentityDatabase → SessionAnswer
unfolding update_row
revoke now account_id session_id reason db = with_sessions db (
    update_row (λ s. not (s.user_id == account_id && not (is_some s.revoked_at))) (ended now reason)
      session_id db.sessions)

abbrev pub revoke_key :
    (now account_id : ℕ) → Option ℕ → RevocationReason → IdentityDatabase → SessionAnswer
revoke_key now account_id none reason db = (none, db)
revoke_key now account_id (some session_id) reason db = revoke now account_id session_id reason db

-- The row of a token: `token_hash` is unique.
unfoldable pub revoke_by_token_hash :
    (now account_id token_hash : ℕ) → RevocationReason → IdentityDatabase → SessionAnswer
unfolding revoke key_where
revoke_by_token_hash now account_id h reason db =
    revoke_key now account_id (key_where (λ s. s.token_hash == h) db.sessions) reason db

abbrev pub on_device : (account_id device_id : ℕ) → SessionRecord → Bool
on_device account_id device_id s =
    s.user_id == account_id && s.device_id == device_id && not (is_some s.revoked_at)

unfoldable pub revoke_for_device :
    (now account_id device_id : ℕ) → RevocationReason → IdentityDatabase → ℕ × IdentityDatabase
unfolding update_where count_where
revoke_for_device now account_id device_id reason db = (
  count_where (on_device account_id device_id) db.sessions,
  record db {
    sessions = update_where (on_device account_id device_id) (ended now reason) db.sessions;
  },
)

abbrev pub on_account : (account_id : ℕ) → SessionRecord → Bool
on_account account_id s = s.user_id == account_id && not (is_some s.revoked_at)

unfoldable pub revoke_for_account :
    (now account_id : ℕ) → RevocationReason → IdentityDatabase → ℕ × IdentityDatabase
unfolding update_where count_where
revoke_for_account now account_id reason db = (
  count_where (on_account account_id) db.sessions,
  record db { sessions = update_where (on_account account_id) (ended now reason) db.sessions },
)
