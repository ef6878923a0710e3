-- ===== src/Transfers/Service.antt =====
-- `TransferService` of backend/app/transfers.py over any repository. The state is the repository's
-- with a log, newest first, of what the service did outside: socket notifications, released
-- signaling budgets, counters. Notifications are best effort: the service ignores their results.
use self_relay.Base.{
  ℕ, ◌+◌, Bool, true, ◌&&◌, ◌||◌, not, Option, none, some, List, [], ◌∷◌, ◌==◌, leb, if◌then◌else◌,
  length,
}
use self_relay.Records.{
  DeviceRecord, TransferStatus, TransferRequestRecord, offered, accepted, negotiating,
}
use self_relay.Transfers.Status.{status_in, active_statuses}
use self_relay.Transfers.Memory.{DeviceLookup, devices_available, is_active_device, participates}
use self_relay.Transfers.Port.{Readings, TransferPort, is_live}

pub data Message : Type 0 where
  transfer_offer transfer_accepted transfer_rejected : Message
  transfer_cancelled transfer_expired : Message

pub data Effect : Type 0 where
  notified : (account_id device_id : ℕ) → Message → (transfer_id : ℕ) → Effect
  released : (transfer_id : ℕ) → Effect
  counted_capacity_rejected counted_state_released : Effect

-- `TransferError`, its subclass `TransferCapacityError`, and what `create` of the repository raises.
pub data TransferError : Type 0 where
  unsupported_protocol same_device devices_unavailable capacity : TransferError
  offer_unavailable transfer_unavailable not_stale repository_failed : TransferError

pub data Result (A : Type 0) : Type 0 where
  ok : A → Result A
  err : TransferError → Result A

pub record Config : Type 0 where
  pub has_presence : Bool
  pub devices : DeviceLookup
  pub lifetime : ℕ

abbrev pub protocol_version : ℕ
protocol_version = 1

abbrev pub max_active_per_account : ℕ
max_active_per_account = 8

abbrev pub max_active_per_device : ℕ
max_active_per_device = 4

abbrev pub peer_key_statuses : List TransferStatus
peer_key_statuses = offered ∷ accepted ∷ negotiating ∷ []

-- `active` of `_ensure_capacity`
unfoldable pub active_at : ℕ → List TransferRequestRecord → List TransferRequestRecord
active_at now [] = []
active_at now (r ∷ rs) = let rest = active_at now rs in if is_live now r then r ∷ rest else rest

-- `sum(device_id in (sender, recipient) for record in active)`
unfoldable pub device_count : ℕ → List TransferRequestRecord → ℕ
device_count d [] = 0
device_count d (r ∷ rs) = (if participates d r then 1 else 0) + device_count d rs

abbrev pub over_capacity : (sender recipient : ℕ) → List TransferRequestRecord → Bool
over_capacity sender recipient active =
    leb max_active_per_account (length active)
    || leb max_active_per_device (device_count sender active)
    || leb max_active_per_device (device_count recipient active)

-- What `except TransferError` falls back on.
abbrev pub recovered :
    Option TransferRequestRecord → Result TransferRequestRecord → Option TransferRequestRecord
recovered stored (ok r) = some r
recovered stored (err e) = stored

-- A record that is gone when it is read again stays in the list as it was.
abbrev pub refreshed :
    TransferRequestRecord → Result (Option TransferRequestRecord) → Result TransferRequestRecord
refreshed r (ok none) = ok r
refreshed r (ok (some r')) = ok r'
refreshed r (err e) = err e

module _ (port : TransferPort) where
  open port use {State}

  pub record ServiceState : Type 0 where
    pub store : State
    pub log : List Effect

  abbrev pub M : Type 0 → Type 0
  M A = ServiceState → Result A × ServiceState

  unfoldable pub pure : {A : Type 0} → A → M A
  pure a s = (ok a, s)

  unfoldable pub raise : {A : Type 0} → TransferError → M A
  raise e s = (err e, s)

  unfoldable pub raise_if : Bool → TransferError → M (Unit {0})
  raise_if test e s = (if test then err e else ok tt, s)

  unfoldable pub log_effect : Effect → M (Unit {0})
  log_effect e s = (ok tt, record s { log = e ∷ s.log })

  -- `raise` on `None`
  unfoldable pub or_raise : {A : Type 0} → Option A → TransferError → M A
  or_raise none e s = (err e, s)
  or_raise (some a) e s = (ok a, s)

  -- A call of the repository.
  unfoldable pub call : {A : Type 0} → (State → A × State) → M A
  call f s = let (a, store) = f s.store in (ok a, record s { store = store })

  unfoldable pub read : {A : Type 0} → (State → A) → M A
  read f s = (ok (f s.store), s)

  -- What follows a result: the rest, or the exception again.
  abbrev pub continue : {A B : Type 0} → (A → M B) → Result A → M B
  continue f (ok a) s = f a s
  continue f (err e) s = (err e, s)

  infixl 5 ◌>>=◌ ◌>>◌
  unfoldable pub ◌>>=◌ : {A B : Type 0} → M A → (A → M B) → M B
  unfolding pure raise raise_if log_effect or_raise call read
  ◌>>=◌ m f s = let (r, s') = m s in continue f r s'

  abbrev pub ◌>>◌ : {A B : Type 0} → M A → M B → M B
  m >> k = m >>= λ _. k

  module _ (config : Config) (rd : Readings) where
    -- `_notify`, `_notify_participants`, `_release`
    unfoldable pub notify : ℕ → ℕ → Message → ℕ → M (Unit {0})
    notify account_id device_id message transfer_id =
        if config.has_presence
        then log_effect (notified account_id device_id message transfer_id)
        else pure tt

    unfoldable pub notify_participants : ℕ → TransferRequestRecord → Message → M (Unit {0})
    unfolding notify
    notify_participants account_id r message = do
      notify account_id r.sender_device_id message r.id
      (if r.recipient_device_id == r.sender_device_id
          then pure tt
          else notify account_id r.recipient_device_id message r.id)

    unfoldable pub release : ℕ → M (Unit {0})
    release transfer_id =
        if config.has_presence
        then (log_effect (released transfer_id) >> log_effect counted_state_released)
        else pure tt

    -- `_ensure_capacity`
    unfoldable pub ensure_capacity : (account_id sender recipient : ℕ) → M (Unit {0})
    unfolding active_at device_count
    ensure_capacity account_id sender recipient = do
      records ← read (port.list_for_account account_id)
      (if over_capacity sender recipient (active_at rd.now records)
          then (log_effect counted_capacity_rejected >> raise capacity)
          else pure tt)

    unfoldable pub create_offer :
        (account_id sender recipient version : ℕ) → M TransferRequestRecord
    unfolding ensure_capacity notify
    create_offer account_id sender recipient version = do
      raise_if (not (version == protocol_version)) unsupported_protocol
      raise_if (sender == recipient) same_device
      raise_if (not (devices_available config.devices account_id sender recipient))
          devices_unavailable
      ensure_capacity account_id sender recipient
      created ← call (port.create rd account_id sender recipient version (rd.now + config.lifetime))
      r ← or_raise created repository_failed
      notify account_id recipient transfer_offer r.id
      pure r

    unfoldable pub expire : (account_id transfer_id : ℕ) → M TransferRequestRecord
    unfolding release notify_participants
    expire account_id transfer_id = do
      expired ← call (port.expire rd account_id transfer_id)
      r ← or_raise expired not_stale
      release transfer_id
      notify_participants account_id r transfer_expired
      pure r

    -- `try: self.expire(...) except TransferError: self._repository.get_by_id(...)`
    unfoldable pub expire_or_read : (account_id transfer_id : ℕ) → M (Option TransferRequestRecord)
    unfolding expire
    expire_or_read account_id transfer_id s =
        let (r, s') = expire account_id transfer_id s in
        (ok (recovered (port.get_by_id account_id transfer_id s'.store) r), s')

    unfoldable pub expire_if_stale :
        (account_id transfer_id : ℕ)
        → Option TransferRequestRecord
        → M (Option TransferRequestRecord)
    unfolding expire_or_read
    expire_if_stale account_id transfer_id none = pure none
    expire_if_stale account_id transfer_id (some r) =
        if status_in r.status active_statuses && leb r.expires_at rd.now
        then expire_or_read account_id transfer_id
        else pure (some r)

    -- `_current_or_expire`
    unfoldable pub current_or_expire :
        (account_id transfer_id : ℕ) → M (Option TransferRequestRecord)
    unfolding expire_if_stale
    current_or_expire account_id transfer_id = do
      record_found ← read (port.get_by_id account_id transfer_id)
      expire_if_stale account_id transfer_id record_found

    unfoldable pub require_status :
        List TransferStatus → TransferError → Option TransferRequestRecord → M TransferRequestRecord
    require_status statuses e none = raise e
    require_status statuses e (some r) = if status_in r.status statuses then pure r else raise e

    unfoldable pub accept : (account_id transfer_id recipient : ℕ) → M TransferRequestRecord
    unfolding current_or_expire require_status notify
    accept account_id transfer_id recipient = do
      current ← current_or_expire account_id transfer_id
      require_status (offered ∷ []) offer_unavailable current
      result ← call (port.accept rd account_id transfer_id recipient)
      r ← or_raise result offer_unavailable
      notify account_id r.sender_device_id transfer_accepted r.id
      pure r

    unfoldable pub reject : (account_id transfer_id recipient : ℕ) → M TransferRequestRecord
    unfolding current_or_expire require_status release notify
    reject account_id transfer_id recipient = do
      current ← current_or_expire account_id transfer_id
      require_status (offered ∷ []) offer_unavailable current
      result ← call (port.reject rd account_id transfer_id recipient)
      r ← or_raise result offer_unavailable
      release transfer_id
      notify account_id r.sender_device_id transfer_rejected r.id
      pure r

    unfoldable pub cancel : (account_id transfer_id actor : ℕ) → M TransferRequestRecord
    unfolding current_or_expire require_status release notify_participants
    cancel account_id transfer_id actor = do
      current ← current_or_expire account_id transfer_id
      require_status active_statuses transfer_unavailable current
      result ← call (port.cancel rd account_id transfer_id actor)
      r ← or_raise result transfer_unavailable
      release transfer_id
      notify_participants account_id r transfer_cancelled
      pure r

    unfoldable pub get : (account_id transfer_id : ℕ) → M TransferRequestRecord
    unfolding current_or_expire
    get account_id transfer_id = do
      current ← current_or_expire account_id transfer_id
      or_raise current transfer_unavailable

    -- The test of the two devices in `get_peer_device_key`; `epoch` is the caller's session epoch.
    abbrev pub peers_match :
        ℕ → Option ℕ → Option DeviceRecord → Option DeviceRecord → Option DeviceRecord
    peers_match account_id epoch none peer = none
    peers_match account_id epoch (some actor) none = none
    peers_match account_id epoch (some actor) (some peer) =
        if actor.user_id == account_id
          && peer.user_id == account_id
          && is_active_device actor.status
          && is_active_device peer.status
          && actor.epoch == peer.epoch
          && (elim epoch [ none ↦ true | some e ↦ actor.epoch == e && peer.epoch == e ])
        then some peer
        else none

    abbrev pub peer_key :
        ℕ → ℕ → Option ℕ → DeviceLookup → TransferRequestRecord → Option DeviceRecord
    peer_key account_id actor epoch none r = none
    peer_key account_id actor epoch (some get_device) r =
        peers_match account_id epoch (get_device account_id actor) (
          get_device account_id
            (if actor == r.sender_device_id then r.recipient_device_id else r.sender_device_id))

    unfoldable pub get_peer_device_key :
        (account_id transfer_id actor : ℕ) → (epoch : Option ℕ) → M DeviceRecord
    unfolding current_or_expire require_status
    get_peer_device_key account_id transfer_id actor epoch = do
      current ← current_or_expire account_id transfer_id
      r ← require_status peer_key_statuses transfer_unavailable current
      raise_if (not (participates actor r)) transfer_unavailable
      or_raise (peer_key account_id actor epoch config.devices r) devices_unavailable

    -- One record of `list`: an expired one is expired in the store, and read again if that fails.
    unfoldable pub refresh : ℕ → TransferRequestRecord → M TransferRequestRecord
    unfolding expire_or_read
    refresh account_id r s =
        if status_in r.status active_statuses && leb r.expires_at rd.now
        then (let (found, s') = expire_or_read account_id r.id s in (refreshed r found, s'))
        else (ok r, s)

    unfoldable pub refresh_all : ℕ → List TransferRequestRecord → M (List TransferRequestRecord)
    unfolding refresh
    refresh_all account_id [] = pure []
    refresh_all account_id (r ∷ rs) = do
      r' ← refresh account_id r
      rest ← refresh_all account_id rs
      pure (r' ∷ rest)

    -- `list`
    unfoldable pub list_transfers : ℕ → M (List TransferRequestRecord)
    unfolding refresh_all
    list_transfers account_id = do
      records ← read (port.list_for_account account_id)
      refresh_all account_id records
