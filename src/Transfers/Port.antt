-- ===== src/Transfers/Port.antt =====
-- `TransferRepositoryPort` of backend/app/transfers.py: what the service needs of a repository, with
-- the laws that its capacity limits rest on. The in-memory repository
-- fills it (MemoryPort).
use self_relay.Base.{
  ℕ, ◌+◌, ◌≤◌, Bool, true, ◌&&◌, ◌||◌, Option, none, some, List, [], ◌∷◌, ◌==◌, ltb, if◌then◌else◌,
}
use self_relay.Records.{TransferRequestRecord}
use self_relay.Transfers.Status.{status_in, active_statuses}
use self_relay.Transfers.Memory.{participates}

-- What the clocks and `uuid4` gave during one operation of the service: the service's clock, the
-- repository's, the system's, and an identifier. A call that reads a clock more than once reads the same
-- time here.
pub record Readings : Type 0 where
  pub now : ℕ
  pub repository_now : ℕ
  pub wall : ℕ
  pub new_id : ℕ

-- `record.status in TRANSFER_ACTIVE_STATUSES and record.expires_at > now`
abbrev pub is_live : ℕ → TransferRequestRecord → Bool
is_live now r = status_in r.status active_statuses && ltb now r.expires_at

-- All transfers, or those of one device.
abbrev pub concerns : Option ℕ → TransferRequestRecord → Bool
concerns none r = true
concerns (some d) r = participates d r

-- The same test on the two devices of a new offer.
abbrev pub concerns_pair : Option ℕ → ℕ → ℕ → Bool
concerns_pair none sender recipient = true
concerns_pair (some d) sender recipient = sender == d || recipient == d

unfoldable pub load : ℕ → Option ℕ → List TransferRequestRecord → ℕ
load now who [] = 0
load now who (r ∷ rs) = (if is_live now r && concerns who r then 1 else 0) + load now who rs

pub record TransferPort : Type 1 where
  pub State : Type 0
  pub IsSound : State → Type 0
  pub get_by_id : (account_id transfer_id : ℕ) → State → Option TransferRequestRecord
  pub list_for_account : ℕ → State → List TransferRequestRecord
  -- `none` is an exception of `create`.
  pub create :
      Readings
      → (account_id sender recipient version expires_at : ℕ) → State
      → Option TransferRequestRecord × State
  pub accept :
      Readings
      → (account_id transfer_id device_id : ℕ) → State
      → Option TransferRequestRecord × State
  pub reject :
      Readings
      → (account_id transfer_id device_id : ℕ) → State
      → Option TransferRequestRecord × State
  pub cancel :
      Readings
      → (account_id transfer_id device_id : ℕ) → State
      → Option TransferRequestRecord × State
  pub expire :
      Readings → (account_id transfer_id : ℕ) → State → Option TransferRequestRecord × State
  pub create_sound :
      (rd : Readings) (a d e v x : ℕ) (s : State) → IsSound s → IsSound (create rd a d e v x s).1
  pub accept_sound :
      (rd : Readings) (a t d : ℕ) (s : State) → IsSound s → IsSound (accept rd a t d s).1
  pub reject_sound :
      (rd : Readings) (a t d : ℕ) (s : State) → IsSound s → IsSound (reject rd a t d s).1
  pub cancel_sound :
      (rd : Readings) (a t d : ℕ) (s : State) → IsSound s → IsSound (cancel rd a t d s).1
  pub expire_sound : (rd : Readings) (a t : ℕ) (s : State) → IsSound s → IsSound (expire rd a t s).1
  -- A creation adds at most its own row to the load.
  pub create_load :
      (rd : Readings) (a d e v x : ℕ) (s : State) (now b : ℕ) (who : Option ℕ)
      → load now who (list_for_account b (create rd a d e v x s).1)
        ≤ load now who (list_for_account b s) + (if b == a && concerns_pair who d e then 1 else 0)
  -- The other operations never add to it.
  pub accept_load :
      (rd : Readings) (a t d : ℕ) (s : State) (now b : ℕ) (who : Option ℕ)
      → IsSound s
      → load now who (list_for_account b (accept rd a t d s).1)
        ≤ load now who (list_for_account b s)
  pub reject_load :
      (rd : Readings) (a t d : ℕ) (s : State) (now b : ℕ) (who : Option ℕ)
      → IsSound s
      → load now who (list_for_account b (reject rd a t d s).1)
        ≤ load now who (list_for_account b s)
  pub cancel_load :
      (rd : Readings) (a t d : ℕ) (s : State) (now b : ℕ) (who : Option ℕ)
      → IsSound s
      → load now who (list_for_account b (cancel rd a t d s).1)
        ≤ load now who (list_for_account b s)
  pub expire_load :
      (rd : Readings) (a t : ℕ) (s : State) (now b : ℕ) (who : Option ℕ)
      → IsSound s
      → load now who (list_for_account b (expire rd a t s).1) ≤ load now who (list_for_account b s)
