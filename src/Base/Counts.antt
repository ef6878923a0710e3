-- ===== src/Base/Counts.antt =====
-- Sums over the entries of a dictionary, and how an update moves them.
use self_relay.Base.Tests.{length}
use self_relay.Base.Dict.{Dict, lookup, insert, erase}
use Prim.Native.Nat.{ℕ, ◌+◌, ◌≤◌}
use mathlib.Core.Path.{◌≡◌}
use mathlib.Core.Option.{Option, none, some}
use mathlib.Core.List.{[], ◌∷◌}
use native.Mathlib.Omega.{arith}

module _ {ℓ} {V : Type ℓ} (w : V → ℕ) where
  unfoldable pub sum_of : Dict V → ℕ
  sum_of [] = 0
  sum_of ((k, v) ∷ d) = w v + sum_of d

  -- The weight of the value that may stand at a key.
  abbrev pub weight : Option V → ℕ
  weight none = 0
  weight (some v) = w v

  pub sum_of-insert :
      (k : ℕ) (v : V) (d : Dict V) → sum_of (insert k v d) + weight (lookup k d) ≡ sum_of d + w v
  unfolding lookup insert sum_of
  sum_of-insert k v [] = omega arith
  sum_of-insert k v ((j, x) ∷ d) = ground (arith, sum_of-insert k v d)

  pub sum_of-erase : (k : ℕ) (d : Dict V) → sum_of (erase k d) + weight (lookup k d) ≡ sum_of d
  unfolding lookup erase sum_of
  sum_of-erase k [] = omega arith
  sum_of-erase k ((j, x) ∷ d) = ground (arith, sum_of-erase k d)

module _ {ℓ} {V : Type ℓ} where
  pub length-insert :
      (k : ℕ) (v : V) (d : Dict V)
      → length (insert k v d) ≡ (elim (lookup k d) [ none ↦ length d + 1 | some x ↦ length d ])
  unfolding lookup insert
  length-insert k v [] = ground arith
  length-insert k v ((j, x) ∷ d) = ground (arith, length-insert k v d)

  pub length-erase_le : (k : ℕ) (d : Dict V) → length (erase k d) ≤ length d
  unfolding erase
  length-erase_le k [] = omega arith
  length-erase_le k ((j, x) ∷ d) = ground (arith, length-erase_le k d)
