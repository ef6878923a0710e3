-- ===== src/Base/Dict.antt =====
-- A Python dict or a table with a primary key, as a list of entries in insertion order. Keys are
-- identifiers (UUIDs), of which only equality matters, so they are numbers.
use self_relay.Base.Tests.{◌==◌, if◌then◌else◌, Bool-cases, Holds}
use Prim.Native.Nat.{ℕ}
use mathlib.Core.Path.{◌≡◌, refl, ◌∙◌}
use mathlib.Core.Logic.{◌≢◌, inl, inr}
use mathlib.Core.Option.{Option, none, some}
use mathlib.Core.List.{List, [], ◌∷◌}
use native.Mathlib.Omega.{arith}

abbrev pub Dict {ℓ} : Type ℓ → Type ℓ
Dict V = List (ℕ × V)

module _ {ℓ} {V : Type ℓ} where
  -- `d.get(k)`
  unfoldable pub lookup : ℕ → Dict V → Option V
  lookup k [] = none
  lookup k ((j, v) ∷ d) = if j == k then some v else lookup k d

  -- `d[k] = v`: an entry that is there keeps its place.
  unfoldable pub insert : ℕ → V → Dict V → Dict V
  insert k v [] = (k, v) ∷ []
  insert k v ((j, w) ∷ d) = if j == k then (k, v) ∷ d else (j, w) ∷ insert k v d

  -- `del d[k]`, `d.pop(k, None)`
  unfoldable pub erase : ℕ → Dict V → Dict V
  erase k [] = []
  erase k ((j, w) ∷ d) = if j == k then d else (j, w) ∷ erase k d

  -- `d.values()`
  unfoldable pub values : Dict V → List V
  values [] = []
  values ((j, v) ∷ d) = v ∷ values d

  pub lookup-insert :
      (j k : ℕ) (v : V) (d : Dict V)
      → lookup j (insert k v d) ≡ (if k == j then some v else lookup j d)
  unfolding lookup insert
  lookup-insert j k v [] = ground arith
  lookup-insert j k v ((i, w) ∷ d) = ground (arith, lookup-insert j k v d)

  pub lookup-insert_self : (k : ℕ) (v : V) (d : Dict V) → lookup k (insert k v d) ≡ some v
  lookup-insert_self k v d = ground (arith, lookup-insert k k v d)

  -- A second write at one key replaces the first.
  pub insert-insert : (k : ℕ) (v w : V) (d : Dict V) → insert k v (insert k w d) ≡ insert k v d
  unfolding insert
  insert-insert k v w [] = ground arith
  insert-insert k v w ((i, x) ∷ d) = elim (Bool-cases (i == k)) [
    | inl hit ↦ ground arith
    | inr miss ↦ ground (arith, insert-insert k v w d)
  ]

  pub lookup-erase_ne : (j k : ℕ) (d : Dict V) → j ≢ k → lookup j (erase k d) ≡ lookup j d
  unfolding lookup erase
  lookup-erase_ne j k [] h = refl
  lookup-erase_ne j k ((i, w) ∷ d) h = ground (arith, lookup-erase_ne j k d h)

  -- No key stands twice, as in every dict.
  abbrev pub IsUnique : Dict V → Type ℓ
  IsUnique [] = Unit
  IsUnique ((k, v) ∷ d) = (lookup k d ≡ none) × IsUnique d

  pub insert-IsUnique : (k : ℕ) (v : V) (d : Dict V) → IsUnique d → IsUnique (insert k v d)
  unfolding lookup insert
  insert-IsUnique k v [] u = (refl, tt)
  insert-IsUnique k v ((i, w) ∷ d) u =
      ground (arith, insert-IsUnique k v d u.1, lookup-insert i k v d)

  pub erase-IsUnique : (k : ℕ) (d : Dict V) → IsUnique d → IsUnique (erase k d)
  unfolding lookup erase
  erase-IsUnique k [] u = tt
  erase-IsUnique k ((i, w) ∷ d) u = elim (Bool-cases (i == k)) [
    | inl hit ↦ rw hit u.1
    | inr miss ↦ rw miss (lookup-erase_ne i k d (ground arith) ∙ u.0, erase-IsUnique k d u.1)
  ]

  pub lookup-erase_self : (k : ℕ) (d : Dict V) → IsUnique d → lookup k (erase k d) ≡ none
  unfolding lookup erase
  lookup-erase_self k [] u = refl
  lookup-erase_self k ((i, w) ∷ d) u = ground (arith, lookup-erase_self k d u.1)

  -- Every entry satisfies `P`.
  abbrev pub All {κ} : (ℕ → V → Type κ) → Dict V → Type κ
  All P [] = Unit
  All P ((k, v) ∷ d) = P k v × All P d

  pub All-lookup {κ} :
      (P : ℕ → V → Type κ) (k : ℕ) (d : Dict V) → All P d → Holds (P k) (lookup k d)
  unfolding lookup
  All-lookup P k [] h = tt
  All-lookup P k ((i, w) ∷ d) h = ground (arith, h.0, All-lookup P k d h.1)

  pub All-insert {κ} :
      (P : ℕ → V → Type κ) (k : ℕ) (v : V) (d : Dict V) → P k v → All P d → All P (insert k v d)
  unfolding insert
  All-insert P k v [] p h = (p, tt)
  All-insert P k v ((i, w) ∷ d) p h = ground (arith, p, h.0, h.1, All-insert P k v d p h.1)

  pub All-erase {κ} : (P : ℕ → V → Type κ) (k : ℕ) (d : Dict V) → All P d → All P (erase k d)
  unfolding erase
  All-erase P k [] h = tt
  All-erase P k ((i, w) ∷ d) h = ground (arith, h.0, h.1, All-erase P k d h.1)
