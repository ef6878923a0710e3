-- ===== src/Identity/Devices.antt =====
-- `DeviceRepository` of backend/app/repositories/devices.py. `now` is `CURRENT_TIMESTAMP`.
use self_relay.Base.{
  ℕ, Bool, true, ◌&&◌, ◌||◌, not, Option, none, some, String, ◌==◌, if◌then◌else◌, is_some,
  coalesce,
}
use self_relay.Base.Dict.{Dict, lookup, insert}
use self_relay.Base.Rows.{update_row}
use self_relay.Base.Where.{update_where, count_where, key_where, find_where}
use self_relay.Records.{DeviceRecord, DeviceStatus, RevocationReason}
use self_relay.Identity.Database.{
  IdentityDatabase, is_active, is_revoked, fits_length, account_at_epoch, device_at_epoch,
}
use self_relay.Identity.Sessions.{revoke_for_device, revoke_for_account}

abbrev pub DeviceAnswer : Type 0
DeviceAnswer = Option DeviceRecord × IdentityDatabase

-- What a caller says of a device that is to be registered.
pub record DeviceData : Type 0 where
  pub account_id : ℕ
  pub epoch : ℕ
  pub label : String
  pub signing_public_key_spki : ℕ
  pub fingerprint : ℕ
  pub linked_by_device_id : Option ℕ

abbrev pub of_account : (account_id : ℕ) → Option DeviceRecord → Option DeviceRecord
of_account account_id none = none
of_account account_id (some d) = if d.user_id == account_id then some d else none

unfoldable pub get_by_id : (account_id device_id : ℕ) → IdentityDatabase → Option DeviceRecord
get_by_id account_id device_id db = of_account account_id (lookup device_id db.devices)

abbrev pub has_fingerprint : (account_id fingerprint : ℕ) → DeviceRecord → Bool
has_fingerprint account_id fingerprint d = d.user_id == account_id && d.fingerprint == fingerprint

unfoldable pub get_by_fingerprint :
    (account_id fingerprint : ℕ) → IdentityDatabase → Option DeviceRecord
unfolding find_where
get_by_fingerprint account_id fingerprint db =
    find_where (has_fingerprint account_id fingerprint) db.devices

abbrev pub new_device : (now device_id : ℕ) → DeviceData → DeviceRecord
new_device now device_id x = record {
  id = device_id;
  user_id = x.account_id;
  epoch = x.epoch;
  label = x.label;
  signing_public_key_spki = x.signing_public_key_spki;
  fingerprint = x.fingerprint;
  status = DeviceStatus.active;
  created_at = now;
  last_seen_at = now;
  revoked_at = none;
  linked_by_device_id = x.linked_by_device_id;
}

-- `$7::uuid IS NULL OR EXISTS (...)`, for the account's epoch
abbrev pub approved : IdentityDatabase → DeviceData → Option ℕ → Bool
approved db x none = true
approved db x (some approver) = device_at_epoch x.account_id x.epoch (lookup approver db.devices)

-- The identifier is new, the account has no device with the fingerprint, and the label has 1 to 100
-- characters.
abbrev pub admits_device : (device_id : ℕ) → DeviceData → IdentityDatabase → Bool
admits_device device_id x db =
    not (is_some (lookup device_id db.devices))
    && not (is_some (find_where (has_fingerprint x.account_id x.fingerprint) db.devices))
    && fits_length 100 x.label

abbrev pub insert_device : (now device_id : ℕ) → DeviceData → IdentityDatabase → DeviceAnswer
insert_device now device_id x db = (
  some (new_device now device_id x),
  record db { devices = insert device_id (new_device now device_id x) db.devices },
)

-- `create`, for the identifier that the caller gives or the database draws: `none` where it raises, on
-- no row, on a key that is taken, or on a label that the table does not admit.
unfoldable pub create : (now device_id : ℕ) → DeviceData → IdentityDatabase → DeviceAnswer
unfolding find_where
create now device_id x db =
    if account_at_epoch x.epoch (lookup x.account_id db.accounts)
      && approved db x x.linked_by_device_id
      && admits_device device_id x db
    then insert_device now device_id x db
    else (none, db)

abbrev pub with_devices : IdentityDatabase → Option DeviceRecord × Dict DeviceRecord → DeviceAnswer
with_devices db (d, devices) = (d, record db { devices = devices })

abbrev pub reactivated : (now : ℕ) → String → DeviceRecord → DeviceRecord
reactivated now label d = record d {
  status = DeviceStatus.active;
  label = label;
  last_seen_at = now;
}

-- For an account's row with this key's fingerprint, `none` where it raises: on a revoked device, and
-- where `required_row` finds that the epoch is another; and on a label that the table does not admit.
abbrev pub register_again :
    (now : ℕ) → DeviceData → Option ℕ → (device_id : ℕ) → IdentityDatabase → DeviceAnswer
register_again now x (some key) device_id db = with_devices db (
    update_row
      (λ d. is_revoked d.status || not (d.epoch == x.epoch) || not (fits_length 100 x.label))
      (reactivated now x.label) key db.devices)
register_again now x none device_id db =
    if account_at_epoch x.epoch (lookup x.account_id db.accounts)
      && not (is_some (lookup device_id db.devices))
      && fits_length 100 x.label
    then insert_device now device_id (record x { linked_by_device_id = none }) db
    else (none, db)

-- `register_for_email`
unfoldable pub register_for_email :
    (now device_id : ℕ) → DeviceData → IdentityDatabase → DeviceAnswer
unfolding update_row key_where
register_for_email now device_id x db =
    register_again now x (key_where (has_fingerprint x.account_id x.fingerprint) db.devices)
      device_id db

unfoldable pub touch_last_seen : (now account_id device_id : ℕ) → IdentityDatabase → DeviceAnswer
unfolding update_row
touch_last_seen now account_id device_id db = with_devices db (
    update_row (λ d. not (d.user_id == account_id && is_active d.status))
      (λ d. record d { last_seen_at = now }) device_id db.devices)

-- `none` where no row has the identifiers, and where devices_label_length_check makes it raise
unfoldable pub rename : (account_id device_id : ℕ) → String → IdentityDatabase → DeviceAnswer
unfolding update_row
rename account_id device_id label db = with_devices db (
    update_row (λ d. not (d.user_id == account_id) || not (fits_length 100 label))
      (λ d. record d { label = label }) device_id db.devices)

abbrev pub revoked_device : (now : ℕ) → DeviceRecord → DeviceRecord
revoked_device now d = record d {
  status = DeviceStatus.revoked;
  revoked_at = some (coalesce d.revoked_at now);
}

-- The second statement of a transaction, which runs if the first returned a row.
abbrev pub and_sessions :
    (now account_id device_id : ℕ) → RevocationReason → DeviceAnswer → DeviceAnswer
and_sessions now account_id device_id reason (none, db) = (none, db)
and_sessions now account_id device_id reason (some d, db) =
    (some d, (revoke_for_device now account_id device_id reason db).1)

unfoldable pub revoke_with_sessions :
    (now account_id device_id : ℕ) → RevocationReason → IdentityDatabase → DeviceAnswer
unfolding update_row revoke_for_device
revoke_with_sessions now account_id device_id reason db =
    and_sessions now account_id device_id reason (
      with_devices db
        (update_row (λ d. not (d.user_id == account_id)) (revoked_device now) device_id db.devices))

-- `CASE WHEN status = 'revoked' THEN status ELSE 'inactive' END`
abbrev pub logged_out : DeviceRecord → DeviceRecord
logged_out d = record d { status = if is_revoked d.status then d.status else DeviceStatus.inactive }

unfoldable pub logout_with_sessions :
    (now account_id device_id : ℕ) → RevocationReason → IdentityDatabase → DeviceAnswer
unfolding update_row revoke_for_device
logout_with_sessions now account_id device_id reason db =
    and_sessions now account_id device_id reason (
      with_devices db
        (update_row (λ d. not (d.user_id == account_id)) logged_out device_id db.devices))

abbrev pub is_active_of : (account_id : ℕ) → DeviceRecord → Bool
is_active_of account_id d = d.user_id == account_id && is_active d.status

unfoldable pub revoke_all_for_account :
    (now account_id : ℕ) → RevocationReason → IdentityDatabase → ℕ × IdentityDatabase
unfolding update_where count_where revoke_for_account
revoke_all_for_account now account_id reason db = (
  count_where (is_active_of account_id) db.devices,
  (revoke_for_account now account_id reason (record db {
    devices = update_where (is_active_of account_id) (revoked_device now) db.devices;
  })).1,
)
