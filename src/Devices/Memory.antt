-- ===== src/Devices/Memory.antt =====
-- `InMemoryDeviceRepository` of backend/app/repositories/devices.py, with the in-memory session
-- repository that it is given. `now` is what `datetime.now` gives. The calls that take the lock and then
-- call the session repository run with nothing in between.
use self_relay.Base.{
  ℕ, Bool, true, false, ◌&&◌, ◌||◌, not, Option, none, some, List, [], ◌∷◌, String, ◌==◌,
  if◌then◌else◌, is_some, length,
}
use self_relay.Base.Dict.{Dict, lookup, insert, erase}
use self_relay.Base.Rows.{update_row}
use self_relay.Base.Where.{find_where}
use self_relay.Base.Loops.{rows_where, write_each}
use self_relay.Records.{DeviceRecord, DeviceStatus, RevocationReason}
use self_relay.Identity.Database.{is_active, is_revoked}
use self_relay.Identity.Devices.{DeviceData}
use self_relay.Sessions.Memory
use self_relay.Sessions.Memory.{MemorySessions}

pub record MemoryDevices : Type 0 where
  pub records : Dict DeviceRecord
  pub sessions : MemorySessions

abbrev pub MemoryAnswer : Type 0
MemoryAnswer = Option DeviceRecord × MemoryDevices

abbrev pub of_account : (account_id : ℕ) → Option DeviceRecord → Option DeviceRecord
of_account account_id none = none
of_account account_id (some d) = if d.user_id == account_id then some d else none

unfoldable pub get_by_id : (account_id device_id : ℕ) → MemoryDevices → Option DeviceRecord
get_by_id account_id device_id st = of_account account_id (lookup device_id st.records)

abbrev pub has_fingerprint : (account_id fingerprint : ℕ) → DeviceRecord → Bool
has_fingerprint account_id fingerprint d = d.user_id == account_id && d.fingerprint == fingerprint

-- `next((record for record in self._records.values() if ...), None)`
unfoldable pub get_by_fingerprint :
    (account_id fingerprint : ℕ) → MemoryDevices → Option DeviceRecord
unfolding find_where
get_by_fingerprint account_id fingerprint st =
    find_where (has_fingerprint account_id fingerprint) st.records

abbrev pub new_record : (now device_id : ℕ) → DeviceData → DeviceRecord
new_record now device_id x = record {
  id = device_id;
  user_id = x.account_id;
  epoch = x.epoch;
  label = x.label;
  signing_public_key_spki = x.signing_public_key_spki;
  fingerprint = x.fingerprint;
  status = DeviceStatus.active;
  created_at = now;
  last_seen_at = now;
  revoked_at = none;
  linked_by_device_id = x.linked_by_device_id;
}

-- `none` where it raises
unfoldable pub create : (now device_id : ℕ) → DeviceData → MemoryDevices → MemoryAnswer
unfolding find_where
create now device_id x st =
    if is_some (find_where (has_fingerprint x.account_id x.fingerprint) st.records)
    then (none, st)
    else (
      some (new_record now device_id x),
      record st { records = insert device_id (new_record now device_id x) st.records },
    )

-- `any(record.id == device_id for record in self._records.values())`
abbrev pub id_taken : (device_id : ℕ) → Dict DeviceRecord → Bool
id_taken device_id records = is_some (find_where (λ d. d.id == device_id) records)

abbrev pub reactivated : (now : ℕ) → DeviceData → DeviceRecord → DeviceRecord
reactivated now x d = record d {
  epoch = x.epoch;
  label = x.label;
  status = DeviceStatus.active;
  last_seen_at = now;
}

abbrev pub register_found :
    (now device_id : ℕ) → DeviceData → Option DeviceRecord → MemoryDevices → MemoryAnswer
register_found now device_id x (some d) st = if is_revoked d.status then (none, st) else (
  some (reactivated now x d),
  record st { records = insert d.id (reactivated now x d) st.records },
)
register_found now device_id x none st =
    let r = new_record now device_id (record x { linked_by_device_id = none }) in
    if id_taken device_id st.records
    then (none, st)
    else (some r, record st { records = insert device_id r st.records })

unfoldable pub register_for_email : (now device_id : ℕ) → DeviceData → MemoryDevices → MemoryAnswer
unfolding find_where
register_for_email now device_id x st =
    register_found now device_id x
      (find_where (has_fingerprint x.account_id x.fingerprint) st.records) st

abbrev pub remove_row :
    (account_id device_id : ℕ) → Option DeviceRecord → MemoryDevices → Bool × MemoryDevices
remove_row account_id device_id none st = (false, st)
remove_row account_id device_id (some d) st =
    if d.user_id == account_id
    then (true, record st { records = erase device_id st.records })
    else (false, st)

unfoldable pub remove : (account_id device_id : ℕ) → MemoryDevices → Bool × MemoryDevices
remove account_id device_id st = remove_row account_id device_id (lookup device_id st.records) st

abbrev pub with_records : MemoryDevices → Option DeviceRecord × Dict DeviceRecord → MemoryAnswer
with_records st (d, records) = (d, record st { records = records })

unfoldable pub touch_last_seen : (now account_id device_id : ℕ) → MemoryDevices → MemoryAnswer
unfolding update_row
touch_last_seen now account_id device_id st = with_records st (
    update_row (λ d. not (d.user_id == account_id) || not (is_active d.status))
      (λ d. record d { last_seen_at = now }) device_id st.records)

unfoldable pub rename : (account_id device_id : ℕ) → String → MemoryDevices → MemoryAnswer
unfolding update_row
rename account_id device_id label st = with_records st (
    update_row (λ d. not (d.user_id == account_id)) (λ d. record d { label = label }) device_id
      st.records)

-- The call of `revoke_for_device`, after the record is written
unfoldable pub and_sessions :
    (now account_id device_id : ℕ) → RevocationReason → DeviceRecord → MemoryDevices → MemoryAnswer
unfolding Memory.revoke_for_device
and_sessions now account_id device_id reason d st = (
  some d,
  record st { sessions = (Memory.revoke_for_device now account_id device_id reason st.sessions).1 },
)

abbrev pub written : (device_id : ℕ) → DeviceRecord → MemoryDevices → MemoryDevices
written device_id d st = record st { records = insert device_id d st.records }

abbrev pub revoked_record : (now : ℕ) → DeviceRecord → DeviceRecord
revoked_record now d = record d { status = DeviceStatus.revoked; revoked_at = some now }

-- A device that is revoked already is returned as it is.
abbrev pub revoke_row :
    (now account_id device_id : ℕ)
    → RevocationReason
    → Option DeviceRecord
    → MemoryDevices
    → MemoryAnswer
revoke_row now account_id device_id reason none st = (none, st)
revoke_row now account_id device_id reason (some d) st =
    if not (d.user_id == account_id)
    then (none, st)
    else if is_revoked d.status
    then (some d, st)
    else and_sessions now account_id device_id reason (revoked_record now d)
        (written device_id (revoked_record now d) st)

unfoldable pub revoke_with_sessions :
    (now account_id device_id : ℕ) → RevocationReason → MemoryDevices → MemoryAnswer
unfolding and_sessions
revoke_with_sessions now account_id device_id reason st =
    revoke_row now account_id device_id reason (lookup device_id st.records) st

abbrev pub inactive_record : DeviceRecord → DeviceRecord
inactive_record d = record d { status = DeviceStatus.inactive }

abbrev pub logout_row :
    (now account_id device_id : ℕ)
    → RevocationReason
    → Option DeviceRecord
    → MemoryDevices
    → MemoryAnswer
logout_row now account_id device_id reason none st = (none, st)
logout_row now account_id device_id reason (some d) st =
    if not (d.user_id == account_id)
    then (none, st)
    else if is_revoked d.status
    then and_sessions now account_id device_id reason d st
    else and_sessions now account_id device_id reason (inactive_record d)
        (written device_id (inactive_record d) st)

unfoldable pub logout_with_sessions :
    (now account_id device_id : ℕ) → RevocationReason → MemoryDevices → MemoryAnswer
unfolding and_sessions
logout_with_sessions now account_id device_id reason st =
    logout_row now account_id device_id reason (lookup device_id st.records) st

-- `for record in targets: await revoker(account_id, record.id, reason)`
unfoldable pub revoke_each :
    (now account_id : ℕ) → RevocationReason → List DeviceRecord → MemorySessions → MemorySessions
unfolding Memory.revoke_for_device
revoke_each now account_id reason [] sessions = sessions
revoke_each now account_id reason (d ∷ ds) sessions =
    revoke_each now account_id reason ds
      (Memory.revoke_for_device now account_id d.id reason sessions).1

unfoldable pub revoke_all_for_account :
    (now account_id : ℕ) → RevocationReason → MemoryDevices → ℕ × MemoryDevices
unfolding rows_where write_each revoke_each
revoke_all_for_account now account_id reason st =
    let targets =
      rows_where (λ d. d.id) (λ d. d.user_id == account_id && is_active d.status) st.records in
    (
      length targets,
      record {
        records = write_each (λ d. d.id) (revoked_record now) targets st.records;
        sessions = revoke_each now account_id reason targets st.sessions;
      },
    )
