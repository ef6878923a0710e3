-- ===== src/Base/Loops.antt =====
-- A loop over the rows that satisfy a test, which writes each back under its identifier, as the in-memory
-- repositories have it in place of `UPDATE ... WHERE`.
use self_relay.Base.Tests.{◌==◌, if◌then◌else◌, Bool-cases, length, or_else}
use self_relay.Base.Dict.{Dict, lookup, insert, lookup-insert, IsUnique, All}
use self_relay.Base.Where.{update_where, count_where, rewritten, map_option, lookup-update_where}
use Prim.Native.Nat.{ℕ}
use mathlib.Core.Path.{◌≡◌, refl, sym, ap, ◌∙◌}
use mathlib.Core.Logic.{inl, inr}
use mathlib.Core.Bool.{Bool, true, false}
use mathlib.Core.Option.{Option, none, some}
use mathlib.Core.List.{List, [], ◌∷◌}
use native.Mathlib.Omega.{arith}

module _ {R : Type 0} (id : R → ℕ) where
  -- `[record for record in self._records.values() if test]`
  unfoldable pub rows_where : (R → Bool) → Dict R → List R
  rows_where test [] = []
  rows_where test ((k, r) ∷ d) = let rest = rows_where test d in if test r then r ∷ rest else rest

  -- `for record in targets: self._records[record.id] = f(record)`
  unfoldable pub write_each : (R → R) → List R → Dict R → Dict R
  write_each f [] d = d
  write_each f (r ∷ rs) d = write_each f rs (insert (id r) (f r) d)

  -- Every row stands under its identifier.
  abbrev pub AreKeyed : Dict R → Type 0
  AreKeyed d = All (λ k r. id r ≡ k) d

  abbrev passing : (R → Bool) → (R → R) → Option R → Option R
  passing test f none = none
  passing test f (some r) = if test r then some (f r) else none

  lookup-write_each :
      (test : R → Bool) (f : R → R) (j : ℕ) (e d : Dict R)
      → IsUnique e
      → AreKeyed e
      → lookup j (write_each f (rows_where test e) d)
        ≡ or_else (passing test f (lookup j e)) (lookup j d)
  unfolding rows_where write_each lookup
  lookup-write_each test f j [] d u keyed = refl
  lookup-write_each test f j ((k, r) ∷ e) d u keyed = elim (Bool-cases (test r)) [
    | inl hit ↦
        let rest = lookup-write_each test f j e (insert (id r) (f r) d) u.1 keyed.1 in
        elim (Bool-cases (k == j)) [
          | inl here ↦
              let key : k ≡ j = ground arith in
              let gone : lookup j e ≡ none = ap (λ i. lookup i e) (sym key) ∙ u.0 in
              let same : id r == j ≡ true = rw keyed.0 here in
              let written : lookup j (insert (id r) (f r) d) ≡ some (f r) =
                lookup-insert j (id r) (f r) d ∙ (rw same refl) in
              rw hit (rw here (rest ∙ (rw gone (written ∙ (rw hit refl)))))
          | inr other ↦
              let not_same : id r == j ≡ false = rw keyed.0 other in
              let kept : lookup j (insert (id r) (f r) d) ≡ lookup j d =
                lookup-insert j (id r) (f r) d ∙ (rw not_same refl) in
              rw hit (rw other (rest ∙ ap (or_else (passing test f (lookup j e))) kept))
        ]
    | inr miss ↦
        let rest = lookup-write_each test f j e d u.1 keyed.1 in
        elim (Bool-cases (k == j)) [
          | inl here ↦
              let key : k ≡ j = ground arith in
              let gone : lookup j e ≡ none = ap (λ i. lookup i e) (sym key) ∙ u.0 in
              rw miss (rw here (rest ∙ (rw gone (rw miss refl))))
          | inr other ↦ rw miss (rw other rest)
        ]
  ]

  settled :
      (test : R → Bool) (f : R → R) (o : Option R)
      → or_else (passing test f o) o ≡ map_option (rewritten test f) o
  settled test f none = refl
  settled test f (some r) = elim (Bool-cases (test r)) [
    | inl hit ↦ rw hit refl
    | inr miss ↦ rw miss refl
  ]

  -- The loop leaves the rows that the statement leaves.
  pub write_each-update_where :
      (test : R → Bool) (f : R → R) (d : Dict R)
      → IsUnique d
      → AreKeyed d
      → (j : ℕ) → lookup j (write_each f (rows_where test d) d) ≡ lookup j (update_where test f d)
  write_each-update_where test f d u keyed j =
      lookup-write_each test f j d d u keyed
      ∙ settled test f (lookup j d)
      ∙ sym (lookup-update_where test f j d)

  pub length-rows_where :
      (test : R → Bool) (d : Dict R) → length (rows_where test d) ≡ count_where test d
  unfolding rows_where count_where
  length-rows_where test [] = refl
  length-rows_where test ((k, r) ∷ d) = elim (Bool-cases (test r)) [
    | inl hit ↦ rw hit (let rest = length-rows_where test d in omega arith)
    | inr miss ↦ rw miss (length-rows_where test d)
  ]
