-- ===== src/Transfers/Memory.antt =====
-- `InMemoryTransferRequestRepository` of backend/app/repositories/transfers.py. Each operation runs
-- under the repository's lock and has no `await` inside it, so it is a function of the store.
-- `now` is what `self._now()` returned, `wall` what `datetime.now` returned; a clock that gives a
-- time with no zone makes the call raise before anything is read, and is left out.
use self_relay.Base.{
  ℕ, Bool, true, false, ◌&&◌, ◌||◌, not, Option, none, some, List, [], ◌∷◌, String, Timestamp,
  naive, aware, ◌==◌, ltb, leb, if◌then◌else◌, is_some,
}
use self_relay.Base.Dict.{Dict, lookup, insert, values}
use self_relay.Records.{
  DeviceRecord, DeviceStatus, TransferStatus, TransferRequestRecord, offered, accepted, completed,
  cancelled, same_status,
}
use self_relay.Transfers.Status.{status_in, active_statuses, valid_transitions}
use self_relay.Base.Rows.{update_row}

abbrev pub Store : Type 0
Store = Dict TransferRequestRecord

abbrev pub Outcome : Type 0
Outcome = Option TransferRequestRecord × Store

-- The device repository's `get_by_id(account_id, device_id)`, if one is configured.
abbrev pub DeviceLookup : Type 0
DeviceLookup = Option (ℕ → ℕ → Option DeviceRecord)

pub data CreateError : Type 0 where
  same_device naive_expiry devices_unavailable : CreateError

pub data Created : Type 0 where
  created : TransferRequestRecord → Created
  refused : CreateError → Created

abbrev pub is_active_device : DeviceStatus → Bool
is_active_device DeviceStatus.active = true
is_active_device _ = false

-- `owned_by(account_id)` of `get_by_id`
abbrev pub owned : ℕ → Option TransferRequestRecord → Option TransferRequestRecord
owned account_id none = none
owned account_id (some r) = if r.user_id == account_id then some r else none

unfoldable pub get_by_id : ℕ → ℕ → Store → Option TransferRequestRecord
get_by_id account_id transfer_id s = owned account_id (lookup transfer_id s)

unfoldable pub of_account : ℕ → List TransferRequestRecord → List TransferRequestRecord
of_account account_id [] = []
of_account account_id (r ∷ rs) =
    let rest = of_account account_id rs in if r.user_id == account_id then r ∷ rest else rest

-- `sorted(records, key=created_at, reverse=True)`: stable, newest first.
unfoldable pub place :
    TransferRequestRecord → List TransferRequestRecord → List TransferRequestRecord
place r [] = r ∷ []
place r (q ∷ qs) = if leb q.created_at r.created_at then r ∷ q ∷ qs else q ∷ place r qs

unfoldable pub newest_first : List TransferRequestRecord → List TransferRequestRecord
unfolding place
newest_first [] = []
newest_first (r ∷ rs) = place r (newest_first rs)

unfoldable pub list_for_account : ℕ → Store → List TransferRequestRecord
unfolding of_account newest_first values
list_for_account account_id s = newest_first (of_account account_id (values s))

abbrev pub participates : ℕ → TransferRequestRecord → Bool
participates device_id r = r.sender_device_id == device_id || r.recipient_device_id == device_id

unfoldable pub of_device : ℕ → List TransferRequestRecord → List TransferRequestRecord
of_device device_id [] = []
of_device device_id (r ∷ rs) =
    let rest = of_device device_id rs in if participates device_id r then r ∷ rest else rest

unfoldable pub list_for_device : ℕ → ℕ → Store → List TransferRequestRecord
unfolding of_device list_for_account
list_for_device account_id device_id s = of_device device_id (list_for_account account_id s)

-- The test of the two device records in `create`, with no device repository a pass.
abbrev pub pair_available : Option DeviceRecord → Option DeviceRecord → Bool
pair_available none recipient = false
pair_available (some sender) none = false
pair_available (some sender) (some recipient) =
    is_active_device sender.status
    && is_active_device recipient.status
    && sender.epoch == recipient.epoch

abbrev pub devices_available : DeviceLookup → ℕ → ℕ → ℕ → Bool
devices_available none account_id sender recipient = true
devices_available (some get) account_id sender recipient =
    pair_available (get account_id sender) (get account_id recipient)

abbrev pub new_offer : ℕ → ℕ → ℕ → ℕ → ℕ → ℕ → ℕ → TransferRequestRecord
new_offer now id account_id sender recipient protocol_version expires_at = record {
  id = id;
  user_id = account_id;
  sender_device_id = sender;
  recipient_device_id = recipient;
  protocol_version = protocol_version;
  status = offered;
  created_at = now;
  expires_at = expires_at;
  accepted_at = none;
  completed_at = none;
  failure_code = none;
  relay_used = false;
}

-- `id` is what `uuid4()` gave.
unfoldable pub create :
    DeviceLookup
    → (now id account_id sender recipient protocol_version : ℕ) → Timestamp
    → Store
    → Created × Store
create devices now id account_id sender recipient version (naive t) s =
    (refused (if sender == recipient then same_device else naive_expiry), s)
create devices now id account_id sender recipient version (aware t) s =
    if sender == recipient
    then (refused same_device, s)
    else if not (devices_available devices account_id sender recipient)
    then (refused devices_unavailable, s)
    else (
      created (new_offer now id account_id sender recipient version t),
      insert id (new_offer now id account_id sender recipient version t) s,
    )

-- `_updated_record`
abbrev pub marks_acceptance : TransferStatus → Bool
marks_acceptance status = same_status status accepted || same_status status cancelled

abbrev pub updated_record :
    (wall : ℕ) → TransferStatus → Option String → TransferRequestRecord → TransferRequestRecord
updated_record wall status code r = record r {
  status = status;
  accepted_at =
      if is_some r.accepted_at
      then r.accepted_at
      else if marks_acceptance status
      then some wall
      else none;
  completed_at = if same_status status completed then some wall else r.completed_at;
  failure_code = code;
}

-- The early returns of `transition`, under the lock.
abbrev pub transition_rejects :
    ℕ → ℕ → TransferStatus → TransferStatus → TransferRequestRecord → Bool
transition_rejects now account_id from to r =
    not (r.user_id == account_id)
    || not (same_status r.status from)
    || (if same_status to TransferStatus.expired
        then ltb now r.expires_at
        else leb r.expires_at now)

unfoldable pub transition :
    (now wall account_id transfer_id : ℕ)
    → (from_status to_status : TransferStatus) → Store
    → Outcome
unfolding update_row
transition now wall account_id transfer_id from to s =
    if status_in to (valid_transitions from)
    then update_row (transition_rejects now account_id from to) (updated_record wall to none)
        transfer_id s
    else (none, s)

-- `_actor_transition`: `actor is None or actor.status != "active"`, when there is a repository.
abbrev pub active_device : Option DeviceRecord → Bool
active_device none = false
active_device (some d) = is_active_device d.status

abbrev pub actor_allowed : DeviceLookup → ℕ → ℕ → Bool
actor_allowed none account_id actor = true
actor_allowed (some get) account_id actor = active_device (get account_id actor)

abbrev pub actor_rejects : ℕ → ℕ → List TransferStatus → ℕ → Bool → TransferRequestRecord → Bool
actor_rejects now account_id from actor recipient_only r =
    not (r.user_id == account_id)
    || not (status_in r.status from)
    || leb r.expires_at now
    || (if recipient_only then not (r.recipient_device_id == actor) else not (participates actor r))

unfoldable pub actor_transition :
    DeviceLookup
    → (now wall account_id transfer_id : ℕ) → List TransferStatus
    → TransferStatus
    → (actor : ℕ) → (recipient_only : Bool) → Option String
    → Store
    → Outcome
unfolding update_row
actor_transition devices now wall account_id transfer_id from to actor recipient_only code s =
    if actor_allowed devices account_id actor
    then update_row (actor_rejects now account_id from actor recipient_only)
        (updated_record wall to code) transfer_id s
    else (none, s)

abbrev pub expire_rejects : ℕ → ℕ → TransferRequestRecord → Bool
expire_rejects now account_id r =
    not (r.user_id == account_id)
    || not (status_in r.status active_statuses)
    || ltb now r.expires_at

-- `_expire_active`
unfoldable pub expire_active : (now wall account_id transfer_id : ℕ) → Store → Outcome
unfolding update_row
expire_active now wall account_id transfer_id s =
    update_row (expire_rejects now account_id) (updated_record wall TransferStatus.expired none)
      transfer_id s
