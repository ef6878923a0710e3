-- ===== src/Linking/Codes.antt =====
-- `DeviceLinkingOtpRepository` of backend/app/repositories/device_linking_otps.py: the SQL statements,
-- read as functions of the tables. `now` is `CURRENT_TIMESTAMP`, which a transaction keeps.
use self_relay.Base.{
  ℕ, ◌+◌, min, Bool, true, false, ◌&&◌, ◌||◌, not, Option, none, some, [], ◌∷◌, String, ◌==◌, ltb,
  leb, if◌then◌else◌, is_some,
}
use self_relay.Base.Dict.{Dict, lookup, insert}
use self_relay.Records.{
  AccountRecord, DeviceRecord, DeviceStatus, DeviceLinkingOtpRecord, OtpStatus, consumed,
}
use self_relay.Base.Rows.{update_row}
use self_relay.Transfers.Memory.{is_active_device}

pub record LinkingDatabase : Type 0 where
  pub accounts : Dict AccountRecord
  pub devices : Dict DeviceRecord
  pub otps : Dict DeviceLinkingOtpRecord

abbrev pub is_open : OtpStatus → Bool
is_open OtpStatus.active = true
is_open consumed = false
is_open OtpStatus.expired = false

-- `account.deleted_at IS NULL AND account.device_epoch = epoch`
abbrev pub current_account : (epoch : ℕ) → Option AccountRecord → Bool
current_account epoch none = false
current_account epoch (some account) =
    not (is_some account.deleted_at) && account.device_epoch == epoch

-- An active device of the account, of the epoch given.
abbrev pub current_issuer : (account_id epoch : ℕ) → Option DeviceRecord → Bool
current_issuer account_id epoch none = false
current_issuer account_id epoch (some d) =
    d.user_id == account_id && is_active_device d.status && d.epoch == epoch

-- The joins of `create` and of the `EXISTS` in `consume_and_register`.
abbrev pub issuer_of_account :
    LinkingDatabase → (account_id issuing_device_id : ℕ) → Option AccountRecord → Bool
issuer_of_account db account_id issuing none = false
issuer_of_account db account_id issuing (some account) =
    not (is_some account.deleted_at)
    && current_issuer account_id account.device_epoch (lookup issuing db.devices)

unfoldable pub hash_taken : (otp_hash : ℕ) → Dict DeviceLinkingOtpRecord → Bool
hash_taken h [] = false
hash_taken h ((k, o) ∷ rest) = o.otp_hash == h || hash_taken h rest

abbrev pub new_otp :
    (now id account_id issuing_device_id otp_hash expires_at : ℕ) → DeviceLinkingOtpRecord
new_otp now id account_id issuing h expires_at = record {
  id = id;
  user_id = account_id;
  issuing_device_id = issuing;
  otp_hash = h;
  status = OtpStatus.active;
  attempt_count = 0;
  created_at = now;
  expires_at = expires_at;
  consumed_at = none;
}

-- `create`, for the identifier that the database draws: `none` where it raises, on no row or on a
-- key that is taken.
unfoldable pub create :
    (now id account_id issuing_device_id otp_hash expires_at : ℕ)
    → LinkingDatabase
    → Option DeviceLinkingOtpRecord × LinkingDatabase
unfolding hash_taken
create now id account_id issuing h expires_at db =
    if issuer_of_account db account_id issuing (lookup account_id db.accounts)
      && not (is_some (lookup id db.otps) || hash_taken h db.otps)
    then (
      some (new_otp now id account_id issuing h expires_at),
      record db { otps = insert id (new_otp now id account_id issuing h expires_at) db.otps },
    )
    else (none, db)

-- `get_active_by_hash` is not modelled: its list of columns names `id` and `created_at` without a table in
-- a join of two tables that both have them, which PostgreSQL rejects, so that the call always raises.

-- `mark_failed`
abbrev pub may_fail : (now : ℕ) → DeviceLinkingOtpRecord → Bool
may_fail now o = is_open o.status && ltb now o.expires_at && ltb o.attempt_count 10

abbrev pub failed_once : DeviceLinkingOtpRecord → DeviceLinkingOtpRecord
failed_once o = record o {
  attempt_count = min (o.attempt_count + 1) 10;
  status = if leb 10 (o.attempt_count + 1) then OtpStatus.expired else o.status;
}

abbrev pub with_otps :
    LinkingDatabase
    → Option DeviceLinkingOtpRecord × Dict DeviceLinkingOtpRecord
    → Option DeviceLinkingOtpRecord × LinkingDatabase
with_otps db (o, otps) = (o, record db { otps = otps })

unfoldable pub mark_failed :
    (now otp_id : ℕ) → LinkingDatabase → Option DeviceLinkingOtpRecord × LinkingDatabase
unfolding update_row
mark_failed now otp_id db =
    with_otps db (update_row (λ o. not (may_fail now o)) failed_once otp_id db.otps)

-- The arguments of `consume_and_register`.
pub record Redemption : Type 0 where
  pub otp_id : ℕ
  pub account_id : ℕ
  pub issuing_device_id : ℕ
  pub epoch : ℕ
  pub device_id : ℕ
  pub label : String
  pub signing_public_key_spki : ℕ
  pub fingerprint : ℕ

-- `raised` is an exception inside the transaction, which undoes its writes.
pub data Redeemed : Type 0 where
  refused raised : Redeemed
  registered : DeviceRecord → Redeemed

abbrev pub issued_at_epoch : LinkingDatabase → (epoch : ℕ) → DeviceLinkingOtpRecord → Bool
issued_at_epoch db epoch o =
    current_account epoch (lookup o.user_id db.accounts)
    && current_issuer o.user_id epoch (lookup o.issuing_device_id db.devices)

-- The `WHERE` clause of the first statement.
abbrev pub may_consume : (now : ℕ) → LinkingDatabase → Redemption → DeviceLinkingOtpRecord → Bool
may_consume now db q o =
    o.user_id == q.account_id
    && o.issuing_device_id == q.issuing_device_id
    && is_open o.status
    && ltb o.attempt_count 10
    && ltb now o.expires_at
    && issued_at_epoch db q.epoch o

abbrev pub consumed_now : (now : ℕ) → DeviceLinkingOtpRecord → DeviceLinkingOtpRecord
consumed_now now o = record o { status = consumed; consumed_at = some now }

abbrev pub linked_device : (now : ℕ) → Redemption → DeviceRecord
linked_device now q = record {
  id = q.device_id;
  user_id = q.account_id;
  epoch = q.epoch;
  label = q.label;
  signing_public_key_spki = q.signing_public_key_spki;
  fingerprint = q.fingerprint;
  status = DeviceStatus.active;
  created_at = now;
  last_seen_at = now;
  revoked_at = none;
  linked_by_device_id = some q.issuing_device_id;
}

-- `admits` tells whether the constraints of `private.devices` admit one more row.
module _ (admits : DeviceRecord → Dict DeviceRecord → Bool) where
  -- The second statement, and `required_row`, after the first has left the codes as `otps`.
  abbrev pub insert_device :
      (now : ℕ)
      → Redemption
      → LinkingDatabase
      → Dict DeviceLinkingOtpRecord
      → Redeemed × LinkingDatabase
  insert_device now q db otps =
      if current_account q.epoch (lookup q.account_id db.accounts)
        && admits (linked_device now q) db.devices
      then (
        registered (linked_device now q),
        record db { otps = otps; devices = insert q.device_id (linked_device now q) db.devices },
      )
      else (raised, db)

  abbrev pub redeem :
      (now : ℕ)
      → Redemption
      → LinkingDatabase
      → Option DeviceLinkingOtpRecord × Dict DeviceLinkingOtpRecord
      → Redeemed × LinkingDatabase
  redeem now q db (none, otps) = (refused, db)
  redeem now q db (some o, otps) = insert_device now q db otps

  unfoldable pub consume_and_register :
      (now : ℕ) → Redemption → LinkingDatabase → Redeemed × LinkingDatabase
  unfolding update_row
  consume_and_register now q db =
      redeem now q db
        (update_row (λ o. not (may_consume now db q o)) (consumed_now now) q.otp_id db.otps)
