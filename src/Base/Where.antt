-- ===== src/Base/Where.antt =====
-- Statements on all rows that satisfy a test: `UPDATE ... WHERE`, and a row found by a unique column.
use self_relay.Base.Tests.{◌==◌, if◌then◌else◌, Bool-cases, Holds, is_some}
use self_relay.Base.Dict.{Dict, lookup, insert, All}
use Prim.Native.Nat.{ℕ, ◌+◌}
use mathlib.Core.Path.{◌≡◌, refl, sym, ◌∙◌}
use mathlib.Core.Logic.{inl, inr}
use mathlib.Core.Bool.{Bool, true, false}
use mathlib.Core.Option.{Option, none, some}
use mathlib.Core.List.{[], ◌∷◌}
use native.Mathlib.Omega.{arith}

module _ {R : Type 0} where
  abbrev pub rewritten : (R → Bool) → (R → R) → R → R
  rewritten test f r = if test r then f r else r

  abbrev pub map_option : (R → R) → Option R → Option R
  map_option f none = none
  map_option f (some r) = some (f r)

  -- `UPDATE ... SET f WHERE test`
  unfoldable pub update_where : (R → Bool) → (R → R) → Dict R → Dict R
  update_where test f [] = []
  update_where test f ((k, r) ∷ d) = (k, rewritten test f r) ∷ update_where test f d

  -- The number of rows that it returns
  unfoldable pub count_where : (R → Bool) → Dict R → ℕ
  count_where test [] = 0
  count_where test ((k, r) ∷ d) = if test r then count_where test d + 1 else count_where test d

  -- The key of the first row that satisfies the test
  unfoldable pub key_where : (R → Bool) → Dict R → Option ℕ
  key_where test [] = none
  key_where test ((k, r) ∷ d) = if test r then some k else key_where test d

  -- `SELECT ... WHERE test`, of which the first row is taken
  unfoldable pub find_where : (R → Bool) → Dict R → Option R
  find_where test [] = none
  find_where test ((k, r) ∷ d) = if test r then some r else find_where test d

  pub lookup-update_where :
      (test : R → Bool) (f : R → R) (j : ℕ) (d : Dict R)
      → lookup j (update_where test f d) ≡ map_option (rewritten test f) (lookup j d)
  unfolding lookup update_where
  lookup-update_where test f j [] = refl
  lookup-update_where test f j ((k, r) ∷ d) = elim (Bool-cases (k == j)) [
    | inl hit ↦ rw hit refl
    | inr miss ↦ rw miss (lookup-update_where test f j d)
  ]

  -- Two updates that write the same wherever the test passes leave the same rows.
  pub lookup-update_where_ext :
      (test : R → Bool) (f g : R → R) (j : ℕ) (d : Dict R)
      → ((r : R) → test r ≡ true → f r ≡ g r)
      → lookup j (update_where test f d) ≡ lookup j (update_where test g d)
  lookup-update_where_ext test f g j d same =
      lookup-update_where test f j d ∙ each (lookup j d) ∙ sym (lookup-update_where test g j d)
    where
      each : (o : Option R) → map_option (rewritten test f) o ≡ map_option (rewritten test g) o
      each none = refl
      each (some r) = elim (Bool-cases (test r)) [
        | inl hit ↦ rw hit (rw (same r hit) refl)
        | inr miss ↦ rw miss refl
      ]

  -- What is found satisfies the test.
  pub find_where-passes :
      (test : R → Bool) (d : Dict R) → Holds (λ r. test r ≡ true) (find_where test d)
  unfolding find_where
  find_where-passes test [] = tt
  find_where-passes test ((k, r) ∷ d) = elim (Bool-cases (test r)) [
    | inl hit ↦ rw hit hit
    | inr miss ↦ rw miss (find_where-passes test d)
  ]

  -- And it is a row of the table, if no key stands twice.
  pub find_where-All {κ} :
      (P : ℕ → R → Type κ) (test : R → Bool) (d : Dict R)
      → All P d
      → Holds (λ r. (k : ℕ) × P k r) (find_where test d)
  unfolding find_where
  find_where-All P test [] all = tt
  find_where-All P test ((k, r) ∷ d) all = elim (Bool-cases (test r)) [
    | inl hit ↦ rw hit (k, all.0)
    | inr miss ↦ rw miss (find_where-All P test d all.1)
  ]

  -- A narrower test finds nothing where a wider one does not.
  pub find_where-none :
      (test narrower : R → Bool) (d : Dict R)
      → ((r : R) → test r ≡ false → narrower r ≡ false)
      → is_some (find_where test d) ≡ false
      → is_some (find_where narrower d) ≡ false
  unfolding find_where
  find_where-none test narrower [] within e = refl
  find_where-none test narrower ((k, r) ∷ d) within e = elim (Bool-cases (test r)) [
    | inl hit ↦ let impossible : true ≡ false = rw hit at e in ground arith
    | inr miss ↦
        let rest : is_some (find_where test d) ≡ false = rw miss at e in
        rw (within r miss) (find_where-none test narrower d within rest)
  ]

  -- A new row that passes the test is found if no other row does.
  pub find_where-insert :
      (test : R → Bool) (k : ℕ) (x : R) (d : Dict R)
      → is_some (find_where test d) ≡ false
      → is_some (lookup k d) ≡ false
      → test x ≡ true
      → find_where test (insert k x d) ≡ some x
  unfolding find_where insert lookup
  find_where-insert test k x [] e fresh hit = rw hit refl
  find_where-insert test k x ((j, r) ∷ d) e fresh hit = elim (Bool-cases (j == k)) [
    | inl taken ↦ let impossible : true ≡ false = rw taken at fresh in ground arith
    | inr other ↦ elim (Bool-cases (test r)) [
      | inl found ↦ let impossible : true ≡ false = rw found at e in ground arith
      | inr miss ↦
          let rest : is_some (find_where test d) ≡ false = rw miss at e in
          let rest' : is_some (lookup k d) ≡ false = rw other at fresh in
          rw other (rw miss (find_where-insert test k x d rest rest' hit))
    ]
  ]
