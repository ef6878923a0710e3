-- ===== src/Presence/Budget/Kept.antt =====
-- Charging and releasing keep the budgets.
use self_relay.Base.{
  ℕ, ap, sym, ◌∙◌, ◌+◌, ◌-◌, ◌≤◌, ◌<◌, ◌≡◌, refl, Bool, true, false, Option, none, some, List, [],
  ◌∷◌, inl, inr, ◌==◌, if◌then◌else◌, Bool-cases, arith,
}
use self_relay.Base.Dict.{
  Dict, lookup, insert, IsUnique, All, All-lookup, All-insert, All-erase, insert-IsUnique,
  erase-IsUnique,
}
use self_relay.Base.Counts.{sum_of, weight, sum_of-insert, sum_of-erase}
use self_relay.Presence.State.{ActiveConnection, Manager, SignalingType, SignalingUsage}
use self_relay.Presence.Signaling.{
  uses_of, add_use, maximum_uses, usage_or_new, total_or_zero, over_budget, account_total, charge,
  record_signaling_use, release_usage, release_signaling, release_each, clear_signaling_state,
  prune_signaling_state, count_cleaned, stale_transfers,
}
use self_relay.Presence.Budget.Usage.{
  IsUsage, one_if, share, total_uses-add_use, add_use-IsWithin, usage_or_new-IsUsage,
  share-usage_or_new, total_or_zero-insert, total_or_zero-less_total, less_total-IsUnique,
}

-- Every entry is within its budgets, and an account's total is what its entries have been charged, at
-- most 512.
abbrev pub IsCharged : (owner : ℕ → ℕ) → Dict SignalingUsage → Dict ℕ → Type 0
IsCharged owner signaling totals =
    All (IsUsage owner) signaling
    × IsUnique totals
    × IsUnique signaling
    × ((a : ℕ)
        → (total_or_zero (lookup a totals) ≡ sum_of (share a) signaling)
          × (sum_of (share a) signaling ≤ 512))

at_hit : (c : Bool) (x y : ℕ) → c ≡ true → (if c then x else y) ≡ x
at_hit c x y e = rw e refl

at_miss : (c : Bool) (x y : ℕ) → c ≡ false → (if c then x else y) ≡ y
at_miss c x y e = rw e refl

-- The entry after a charge.
abbrev charged : (now : ℕ) → ActiveConnection → SignalingType → SignalingUsage → SignalingUsage
charged now c ty u = record u {
  counts = add_use c.device_id ty u.counts;
  total = u.total + 1;
  updated_at = now;
}

share-charged :
    (now a : ℕ) (c : ActiveConnection) (ty : SignalingType) (u : SignalingUsage)
    → share a (charged now c ty u) ≡ share a u + one_if (u.account_id == a)
share-charged now a c ty u = ground arith

-- What a charge adds to an account's total.
total-charge :
    (a b : ℕ) (totals : Dict ℕ)
    → total_or_zero (lookup a (insert b (total_or_zero (lookup b totals) + 1) totals))
      ≡ total_or_zero (lookup a totals) + one_if (b == a)
total-charge a b totals =
    total_or_zero-insert a b (total_or_zero (lookup b totals) + 1) totals
    ∙ (elim (Bool-cases (b == a)) [
      | inl mine ↦
          let key : b ≡ a = ground arith in
          rw mine (ap (λ k. total_or_zero (lookup k totals) + 1) key)
      | inr other ↦ rw other (omega arith)
    ])

charged-IsUsage :
    (owner : ℕ → ℕ) (now t total : ℕ) (c : ActiveConnection) (ty : SignalingType)
    (u : SignalingUsage)
    → over_budget c ty u total ≡ false
    → IsUsage owner t u
    → IsUsage owner t (charged now c ty u)
charged-IsUsage owner now t total c ty u within usage =
    let room : uses_of c.device_id ty u.counts < maximum_uses ty = ground arith in
    let more = total_uses-add_use c.device_id ty u.counts in
    (usage.0, ground arith, omega arith, add_use-IsWithin c.device_id ty u.counts room usage.3)

-- An account that is charged has room for it.
charge-fits :
    (a : ℕ) (c : ActiveConnection) (u : SignalingUsage) (m : Manager)
    → c.account_id ≡ u.account_id
    → account_total c.account_id m < 512
    → total_or_zero (lookup a m.account_totals) ≤ 512
    → total_or_zero (lookup a m.account_totals) + one_if (u.account_id == a) ≤ 512
charge-fits a c u m own room few = elim (Bool-cases (u.account_id == a)) [
  | inl mine ↦
      let key : c.account_id ≡ a = ground arith in
      let its = ap (λ k. total_or_zero (lookup k m.account_totals)) key in rw mine (omega arith)
  | inr other ↦ rw other (omega arith)
]

charge-IsCharged :
    (owner : ℕ → ℕ) (now t : ℕ) (c : ActiveConnection) (ty : SignalingType) (u : SignalingUsage)
    (m : Manager)
    → c.account_id ≡ u.account_id
    → IsUsage owner t u
    → ((a : ℕ) → share a u ≡ weight (share a) (lookup t m.signaling))
    → IsCharged owner m.signaling m.account_totals
    → IsCharged owner (charge now t c ty u m).1.signaling (charge now t c ty u m).1.account_totals
charge-IsCharged owner now t c ty u m own usage same b =
    elim (Bool-cases (over_budget c ty u (account_total c.account_id m))) [
      | inl over ↦ rw over (
        All-insert (IsUsage owner) t u m.signaling usage b.0,
        b.1,
        insert-IsUnique t u m.signaling b.2,
        λ a.
            let written = sum_of-insert (share a) t u m.signaling in
            let old = same a in let before = b.3 a in (omega arith, omega arith),
      )
      | inr within ↦ rw within (
        All-insert (IsUsage owner) t (charged now c ty u) m.signaling
            (charged-IsUsage owner now t (account_total c.account_id m) c ty u within usage) b.0,
        insert-IsUnique c.account_id (account_total c.account_id m + 1) m.account_totals b.1,
        insert-IsUnique t (charged now c ty u) m.signaling b.2,
        λ a.
            let written = sum_of-insert (share a) t (charged now c ty u) m.signaling in
            let old = same a in
            let before = b.3 a in
            let grown = share-charged now a c ty u in
            let total = total-charge a c.account_id m.account_totals in
            let whose : one_if (c.account_id == a) ≡ one_if (u.account_id == a) =
              ap (λ k. one_if (k == a)) own in
            let few : account_total c.account_id m < 512 = ground arith in
            let at_most = charge-fits a c u m own few (omega arith) in (omega arith, omega arith),
      )
    ]

pub record_signaling_use-IsCharged :
    (owner : ℕ → ℕ) (now t : ℕ) (c : ActiveConnection) (ty : SignalingType) (m : Manager)
    → c.account_id ≡ owner t
    → IsCharged owner m.signaling m.account_totals
    → IsCharged owner
        (record_signaling_use now t c ty m).1.signaling
        (record_signaling_use now t c ty m).1.account_totals
unfolding record_signaling_use
record_signaling_use-IsCharged owner now t c ty m own b =
    let usage =
      usage_or_new-IsUsage owner now c.account_id t (lookup t m.signaling) own
        (All-lookup (IsUsage owner) t m.signaling b.0) in
    charge-IsCharged owner now t c ty (usage_or_new now c.account_id (lookup t m.signaling)) m
      (own ∙ sym usage.0) usage (λ a. share-usage_or_new now c.account_id a (lookup t m.signaling))
      b

release_usage-IsCharged :
    (owner : ℕ → ℕ) (t : ℕ) (o : Option SignalingUsage) (m : Manager)
    → lookup t m.signaling ≡ o
    → IsCharged owner m.signaling m.account_totals
    → IsCharged owner (release_usage t o m).1.signaling (release_usage t o m).1.account_totals
release_usage-IsCharged owner t none m e b = b
release_usage-IsCharged owner t (some u) m e b = (
  All-erase (IsUsage owner) t m.signaling b.0,
  less_total-IsUnique u.account_id (account_total u.account_id m - u.total) m.account_totals b.1,
  erase-IsUnique t m.signaling b.2,
  λ a.
      let written = sum_of-erase (share a) t m.signaling in
      let old = ap (weight (share a)) e in
      let before = b.3 a in
      let total =
        total_or_zero-less_total a u.account_id (account_total u.account_id m - u.total)
          m.account_totals b.1 in
      elim (Bool-cases (u.account_id == a)) [
        | inl mine ↦
            let key : u.account_id ≡ a = ground arith in
            let its = ap (λ k. total_or_zero (lookup k m.account_totals)) key in
            let all : share a u ≡ u.total = rw mine refl in
            let total' = total ∙ at_hit (u.account_id == a) _ _ mine in (omega arith, omega arith)
        | inr other ↦
            let nothing : share a u ≡ 0 = rw other refl in
            let total' = total ∙ at_miss (u.account_id == a) _ _ other in (omega arith, omega arith)
      ],
)

pub release_signaling-IsCharged :
    (owner : ℕ → ℕ) (t : ℕ) (m : Manager)
    → IsCharged owner m.signaling m.account_totals
    → IsCharged owner (release_signaling t m).1.signaling (release_signaling t m).1.account_totals
unfolding release_signaling
release_signaling-IsCharged owner t m b =
    release_usage-IsCharged owner t (lookup t m.signaling) m refl b

pub clear_signaling_state-IsCharged :
    (owner : ℕ → ℕ) (t : ℕ) (m : Manager)
    → IsCharged owner m.signaling m.account_totals
    → IsCharged owner
        (clear_signaling_state t m).signaling
        (clear_signaling_state t m).account_totals
unfolding clear_signaling_state
clear_signaling_state-IsCharged owner t m b = elim (Bool-cases (release_signaling t m).0) [
  | inl cleared ↦ rw cleared (release_signaling-IsCharged owner t m b)
  | inr unknown ↦ rw unknown (release_signaling-IsCharged owner t m b)
]

release_each-IsCharged :
    (owner : ℕ → ℕ) (ts : List ℕ) (m : Manager)
    → IsCharged owner m.signaling m.account_totals
    → IsCharged owner (release_each ts m).signaling (release_each ts m).account_totals
unfolding release_each
release_each-IsCharged owner [] m b = b
release_each-IsCharged owner (t ∷ ts) m b =
    release_each-IsCharged owner ts (release_signaling t m).1
      (release_signaling-IsCharged owner t m b)

count_cleaned-IsCharged :
    (owner : ℕ → ℕ) (ts : List ℕ) (m : Manager)
    → IsCharged owner m.signaling m.account_totals
    → IsCharged owner (count_cleaned ts m).signaling (count_cleaned ts m).account_totals
count_cleaned-IsCharged owner [] m b = b
count_cleaned-IsCharged owner (t ∷ ts) m b = b

pub prune_signaling_state-IsCharged :
    (owner : ℕ → ℕ) (now : ℕ) (m : Manager)
    → IsCharged owner m.signaling m.account_totals
    → IsCharged owner
        (prune_signaling_state now m).signaling
        (prune_signaling_state now m).account_totals
unfolding prune_signaling_state
prune_signaling_state-IsCharged owner now m b =
    count_cleaned-IsCharged owner (stale_transfers now m.signaling) _
      (release_each-IsCharged owner (stale_transfers now m.signaling) m b)
