-- ===== src/Transfers/Capacity/Counts.antt =====
-- The counts of `_ensure_capacity` as loads, and loads as time passes.
use self_relay.Base.{
  ℕ, ◌+◌, ◌≤◌, ◌≡◌, refl, ap, inl, inr, Bool, true, false, ◌&&◌, Option, none, some, List, [], ◌∷◌,
  arith, if◌then◌else◌, length, Bool-cases,
}
use self_relay.Records.{TransferRequestRecord}
use self_relay.Transfers.Status.{status_in, active_statuses}
use self_relay.Transfers.Port.{is_live, concerns, load}
use self_relay.Transfers.Service.{active_at, device_count}

pub load-account :
    (now : ℕ) (rs : List TransferRequestRecord) → length (active_at now rs) ≡ load now none rs
unfolding load active_at
load-account now [] = refl
load-account now (r ∷ rs) = ground (arith, load-account now rs)

pub load-device :
    (now d : ℕ) (rs : List TransferRequestRecord)
    → device_count d (active_at now rs) ≡ load now (some d) rs
unfolding load active_at device_count
load-device now d [] = refl
load-device now d (r ∷ rs) = elim (Bool-cases (is_live now r)) [
  | inl live ↦ rw live (ap (λ n. (if concerns (some d) r then 1 else 0) + n) (load-device now d rs))
  | inr over ↦ rw over (omega (arith, load-device now d rs))
]

pub is_live-later :
    (now later : ℕ) (r : TransferRequestRecord)
    → now ≤ later
    → is_live now r ≡ false
    → is_live later r ≡ false
is_live-later now later r h over = elim (Bool-cases (status_in r.status active_statuses)) [
  | inl active ↦ rw active (ground (arith, rw active at over))
  | inr final ↦ rw final
]

pub ge_unit :
    (live c : Bool) {m n : ℕ}
    → m ≤ n
    → (if live && c then 1 else 0) + m ≤ (if true && c then 1 else 0) + n
ge_unit live c h = ground arith

-- As time passes, transfers only fall out of the load.
pub load-later :
    (now later : ℕ) (who : Option ℕ) (rs : List TransferRequestRecord)
    → now ≤ later
    → load later who rs ≤ load now who rs
unfolding load
load-later now later who [] h = omega arith
load-later now later who (r ∷ rs) h = elim (Bool-cases (is_live now r)) [
  | inl live ↦ rw live (ge_unit (is_live later r) (concerns who r) (load-later now later who rs h))
  | inr over ↦
      rw (over, is_live-later now later r h over) (omega (arith, load-later now later who rs h))
]
