-- ===== src/Sessions/Memory.antt =====
-- `InMemorySessionRepository` of backend/app/sessions.py. `now` is what `datetime.now` gives, and `id`
-- the identifier that `create` draws.
use self_relay.Base.{
  ℕ, ◌+◌, min, Bool, true, false, ◌&&◌, ◌||◌, not, Option, none, some, List, ◌==◌, ltb,
  if◌then◌else◌, is_some, length,
}
use self_relay.Base.Dict.{Dict, lookup, insert, erase}
use self_relay.Base.Rows.{update_row}
use self_relay.Base.Loops.{rows_where, write_each}
use self_relay.Records.{SessionRecord, RevocationReason}
use self_relay.Sessions.Service.{session_idle_lifetime}

pub record MemorySessions : Type 0 where
  pub records : Dict SessionRecord
  pub by_token_hash : Dict ℕ

abbrev pub MemoryAnswer : Type 0
MemoryAnswer = Option SessionRecord × MemorySessions

-- `_is_usable`
abbrev pub is_usable : SessionRecord → (current : ℕ) → Bool
is_usable s current =
    not (is_some s.revoked_at) && ltb current s.idle_expires_at && ltb current s.absolute_expires_at

abbrev pub created_record :
    (now id account_id device_id token_hash csrf_hash epoch idle_expires_at absolute_expires_at : ℕ)
    → SessionRecord
created_record now id account_id device_id h csrf epoch idle absolute = record {
  id = id;
  user_id = account_id;
  device_id = device_id;
  token_hash = h;
  csrf_hash = csrf;
  epoch = epoch;
  created_at = now;
  last_seen_at = now;
  idle_expires_at = idle;
  absolute_expires_at = absolute;
  revoked_at = none;
  revocation_reason = none;
}

unfoldable pub create :
    (now id account_id device_id token_hash csrf_hash epoch idle_expires_at absolute_expires_at : ℕ)
    → MemorySessions
    → SessionRecord × MemorySessions
create now id account_id device_id h csrf epoch idle absolute st =
    let r = created_record now id account_id device_id h csrf epoch idle absolute in
    (r, record { records = insert id r st.records; by_token_hash = insert h id st.by_token_hash })

abbrev pub remove_row :
    (account_id session_id : ℕ) → Option SessionRecord → MemorySessions → Bool × MemorySessions
remove_row account_id session_id none st = (false, st)
remove_row account_id session_id (some s) st =
    if s.user_id == account_id
    then (
      true,
      record {
        records = erase session_id st.records;
        by_token_hash = erase s.token_hash st.by_token_hash;
      },
    )
    else (false, st)

unfoldable pub remove : (account_id session_id : ℕ) → MemorySessions → Bool × MemorySessions
remove account_id session_id st = remove_row account_id session_id (lookup session_id st.records) st

abbrev pub usable : (now : ℕ) → Option SessionRecord → Option SessionRecord
usable now none = none
usable now (some s) = if is_usable s now then some s else none

-- `None if record_id is None else self._records.get(record_id)`
abbrev pub record_at : Option ℕ → Dict SessionRecord → Option SessionRecord
record_at none records = none
record_at (some id) records = lookup id records

unfoldable pub find_by_token_hash : (now token_hash : ℕ) → MemorySessions → Option SessionRecord
find_by_token_hash now h st = usable now (record_at (lookup h st.by_token_hash) st.records)

unfoldable pub find_current_by_id : (now session_id : ℕ) → MemorySessions → Option SessionRecord
find_current_by_id now session_id st = usable now (lookup session_id st.records)

abbrev pub of_account : (account_id : ℕ) → Option SessionRecord → Option SessionRecord
of_account account_id none = none
of_account account_id (some s) = if s.user_id == account_id then some s else none

unfoldable pub get_by_token_hash :
    (now account_id token_hash : ℕ) → MemorySessions → Option SessionRecord
unfolding find_by_token_hash
get_by_token_hash now account_id h st = of_account account_id (find_by_token_hash now h st)

abbrev pub with_records : MemorySessions → Option SessionRecord × Dict SessionRecord → MemoryAnswer
with_records st (r, records) = (r, record st { records = records })

abbrev pub touched : (now : ℕ) → SessionRecord → SessionRecord
touched now s = record s {
  last_seen_at = now;
  idle_expires_at = min (now + session_idle_lifetime) s.absolute_expires_at;
}

unfoldable pub touch_last_seen : (now account_id session_id : ℕ) → MemorySessions → MemoryAnswer
unfolding update_row
touch_last_seen now account_id session_id st = with_records st (
    update_row (λ s. not (s.user_id == account_id) || not (is_usable s now)) (touched now)
      session_id st.records)

unfoldable pub replace_csrf_hash :
    (now account_id session_id csrf_hash : ℕ) → MemorySessions → MemoryAnswer
unfolding update_row
replace_csrf_hash now account_id session_id csrf st = with_records st (
    update_row (λ s. not (s.user_id == account_id) || not (is_usable s now))
      (λ s. record s { csrf_hash = csrf }) session_id st.records)

abbrev pub revoked : (now : ℕ) → RevocationReason → SessionRecord → SessionRecord
revoked now reason s = record s { revoked_at = some now; revocation_reason = some reason }

unfoldable pub revoke :
    (now account_id session_id : ℕ) → RevocationReason → MemorySessions → MemoryAnswer
unfolding update_row
revoke now account_id session_id reason st = with_records st (
    update_row (λ s. not (s.user_id == account_id) || is_some s.revoked_at) (revoked now reason)
      session_id st.records)

abbrev pub revoke_found :
    (now account_id : ℕ) → Option SessionRecord → RevocationReason → MemorySessions → MemoryAnswer
revoke_found now account_id none reason st = (none, st)
revoke_found now account_id (some s) reason st = revoke now account_id s.id reason st

-- Two lock sections, with nothing in between.
unfoldable pub revoke_by_token_hash :
    (now account_id token_hash : ℕ) → RevocationReason → MemorySessions → MemoryAnswer
unfolding get_by_token_hash revoke
revoke_by_token_hash now account_id h reason st =
    revoke_found now account_id (get_by_token_hash now account_id h st) reason st

abbrev pub revoke_targets :
    (now : ℕ) → RevocationReason → List SessionRecord → MemorySessions → ℕ × MemorySessions
unfolding write_each
revoke_targets now reason targets st = (
  length targets,
  record st { records = write_each (λ s. s.id) (revoked now reason) targets st.records },
)

unfoldable pub revoke_for_device :
    (now account_id device_id : ℕ) → RevocationReason → MemorySessions → ℕ × MemorySessions
unfolding rows_where write_each
revoke_for_device now account_id device_id reason st =
    revoke_targets now reason
      (rows_where (λ s. s.id)
        (λ s. s.user_id == account_id && s.device_id == device_id && not (is_some s.revoked_at))
        st.records)
      st

unfoldable pub revoke_for_account :
    (now account_id : ℕ) → RevocationReason → MemorySessions → ℕ × MemorySessions
unfolding rows_where write_each
revoke_for_account now account_id reason st =
    revoke_targets now reason
      (rows_where (λ s. s.id) (λ s. s.user_id == account_id && not (is_some s.revoked_at))
        st.records)
      st
