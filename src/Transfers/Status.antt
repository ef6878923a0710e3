-- ===== src/Transfers/Status.antt =====
-- The status tables at the head of backend/app/repositories/transfers.py.
use self_relay.Base.{Bool, false, ◌||◌, List, [], ◌∷◌}
use self_relay.Records.{
  TransferStatus, offered, accepted, negotiating, connected, transferring, completed, rejected,
  cancelled, failed, same_status,
}

-- `status in statuses`
abbrev pub status_in : TransferStatus → List TransferStatus → Bool
status_in s [] = false
status_in s (t ∷ ts) = same_status s t || status_in s ts

abbrev pub active_statuses : List TransferStatus
active_statuses = offered ∷ accepted ∷ negotiating ∷ connected ∷ transferring ∷ []

abbrev pub failable_statuses : List TransferStatus
failable_statuses = accepted ∷ negotiating ∷ connected ∷ transferring ∷ []

-- `_VALID_TRANSITIONS.get(status)`: a status with no entry has no target.
abbrev pub valid_transitions : TransferStatus → List TransferStatus
valid_transitions offered = accepted ∷ rejected ∷ TransferStatus.expired ∷ cancelled ∷ []
valid_transitions accepted = negotiating ∷ cancelled ∷ failed ∷ TransferStatus.expired ∷ []
valid_transitions negotiating = connected ∷ cancelled ∷ failed ∷ TransferStatus.expired ∷ []
valid_transitions connected = transferring ∷ cancelled ∷ failed ∷ TransferStatus.expired ∷ []
valid_transitions transferring = completed ∷ cancelled ∷ failed ∷ TransferStatus.expired ∷ []
valid_transitions _ = []
