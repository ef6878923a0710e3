-- ===== src/Transfers/Loads.antt =====
-- The load of an account as a sum over the stored rows, and how a conditional write moves it: the
-- laws of `TransferPort` for a store of rows.
use mathlib.Core.Path.{ap₂}
use self_relay.Base.{
  ℕ, ◌+◌, ◌≤◌, ◌≡◌, refl, ap, ◌∙◌, inl, inr, Bool, true, false, ◌&&◌, ◌||◌, Option, none, some,
  List, [], ◌∷◌, arith, ◌==◌, ltb, leb, if◌then◌else◌, Option-cases, Bool-cases,
}
use self_relay.Base.Dict.{lookup, insert, values}
use self_relay.Base.Counts.{sum_of, sum_of-insert, weight}
use self_relay.Records.{TransferRequestRecord}
use self_relay.Transfers.Status.{status_in, active_statuses}
use self_relay.Base.Rows.{update_row, write_row}
use self_relay.Transfers.Memory.{Store, of_account, newest_first, place, list_for_account}
use self_relay.Transfers.Lifecycle.{Evolves}
use self_relay.Transfers.Port.{is_live, concerns, load}
use self_relay.Transfers.Steps.{Updates}

-- What one row adds to the load of account `b`.
abbrev pub share : ℕ → ℕ → Option ℕ → TransferRequestRecord → ℕ
share now b who r = if r.user_id == b then (if is_live now r && concerns who r then 1 else 0) else 0

load-place :
    (now : ℕ) (who : Option ℕ) (r : TransferRequestRecord) (rs : List TransferRequestRecord)
    → load now who (place r rs) ≡ load now who (r ∷ rs)
unfolding load place
load-place now who r [] = refl
load-place now who r (q ∷ qs) = elim (Bool-cases (leb q.created_at r.created_at)) [
  | inl after ↦ rw after
  | inr before ↦ rw (before) (omega (arith, load-place now who r qs))
]

load-newest_first :
    (now : ℕ) (who : Option ℕ) (rs : List TransferRequestRecord)
    → load now who (newest_first rs) ≡ load now who rs
unfolding load newest_first
load-newest_first now who [] = refl
load-newest_first now who (r ∷ rs) =
    load-place now who r (newest_first rs) ∙ omega (arith, load-newest_first now who rs)

load-of_account :
    (now b : ℕ) (who : Option ℕ) (s : Store)
    → load now who (of_account b (values s)) ≡ sum_of (share now b who) s
unfolding load of_account values sum_of
load-of_account now b who [] = refl
load-of_account now b who ((k, r) ∷ s) = elim (Bool-cases (r.user_id == b)) [
  | inl own ↦ rw own (omega (arith, load-of_account now b who s))
  | inr other ↦ rw other (omega (arith, load-of_account now b who s))
]

-- The load that `list_for_account` shows is a sum over the rows, whatever their order.
pub load-list_for_account :
    (now b : ℕ) (who : Option ℕ) (s : Store)
    → load now who (list_for_account b s) ≡ sum_of (share now b who) s
unfolding list_for_account
load-list_for_account now b who s =
    load-newest_first now who (of_account b (values s)) ∙ load-of_account now b who s

-- A step of a transfer's life never makes it count where it did not.
-- The share by its parts: own account, active, unexpired, concerned.
parts : Bool → Bool → Bool → Bool → ℕ
parts own active unexpired concerned =
    if own then (if (active && unexpired) && concerned then 1 else 0) else 0

parts_le :
    (o o' a' u u' c c' : Bool) → o' ≡ o → u' ≡ u → c' ≡ c → parts o' a' u' c' ≤ parts o true u c
unfolding parts
parts_le o o' a' u u' c c' e f g = ground arith

concerns_same :
    (who : Option ℕ) (r r' : TransferRequestRecord)
    → Evolves r r'
    → concerns who r' ≡ concerns who r
concerns_same none r r' e = refl
concerns_same (some d) r r' e = ap₂ (λ x y. x == d || y == d) e.sender_kept e.recipient_kept

share-Evolves :
    (now b : ℕ) (who : Option ℕ) (r r' : TransferRequestRecord)
    → Evolves r r'
    → share now b who r' ≤ share now b who r
unfolding parts
share-Evolves now b who r r' e = elim (Bool-cases (status_in r.status active_statuses)) [
  | inr over ↦ rw (e.final over) (omega arith)
  | inl live ↦ rw live (
      parts_le (r.user_id == b) (r'.user_id == b) (status_in r'.status active_statuses)
        (ltb now r.expires_at) (ltb now r'.expires_at) (concerns who r) (concerns who r')
        (ap (λ u. u == b) e.user_kept) (ap (λ x. ltb now x) e.expiry_kept)
        (concerns_same who r r' e))
]

pub sum_of-update_row :
    (w : TransferRequestRecord → ℕ) (rejects : TransferRequestRecord → Bool)
    (updated : TransferRequestRecord → TransferRequestRecord) (t : ℕ) (s : Store)
    → ((r : TransferRequestRecord) → rejects r ≡ false → w (updated r) ≤ w r)
    → sum_of w (update_row rejects updated t s).1 ≤ sum_of w s
unfolding update_row
sum_of-update_row w rejects updated t s less = elim (Option-cases (lookup t s)) [
  | inl e ↦ rw (e, write_row) (omega arith)
  | inr (r, e) ↦ elim (Bool-cases (rejects r)) [
    | inl bad ↦ rw (e, write_row) (rw bad (omega arith))
    | inr good ↦
        rw (e, write_row)
          (rw good (omega (arith, less r good, sum_of-insert w t (updated r) s, ap (weight w) e)))
  ]
]

-- So no operation adds to a load.
pub load-Updates :
    (now b : ℕ) (who : Option ℕ) (when t : ℕ) (s : Store) (o : Option TransferRequestRecord × Store)
    → Updates when t s o
    → load now who (list_for_account b o.1) ≤ load now who (list_for_account b s)
load-Updates now b who when t s o u =
    rw (load-list_for_account now b who s, load-list_for_account now b who o.1, u.same)
      (sum_of-update_row (share now b who) u.rejects u.updated t s
        (λ r ok. share-Evolves now b who r (u.updated r) (u.evolves r ok)))

pub load-insert :
    (now b : ℕ) (who : Option ℕ) (id : ℕ) (r : TransferRequestRecord) (s : Store)
    → load now who (list_for_account b (insert id r s))
      ≤ load now who (list_for_account b s) + share now b who r
load-insert now b who id r s = omega (
  arith,
  load-list_for_account now b who s,
  load-list_for_account now b who (insert id r s),
  sum_of-insert (share now b who) id r s,
)
