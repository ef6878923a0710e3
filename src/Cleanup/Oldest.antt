-- ===== src/Cleanup/Oldest.antt =====
-- A batch takes the oldest candidates, as many as its limit lets it, and nothing else.
use self_relay.Base.{
  ℕ, ◌+◌, ◌≡◌, refl, ap, sym, ◌∙◌, suc, zero, min, Bool, true, false, ◌||◌, not, Option, none, some,
  [], ◌∷◌, ◌==◌, leb, is_some, inl, inr, Bool-cases, Option-cases, arith,
}
use mathlib.Core.Path.{subst}
use self_relay.Base.Dict.{
  Dict, lookup, erase, IsUnique, All, All-erase, erase-IsUnique, lookup-erase_self, lookup-erase_ne,
}
use self_relay.Base.Where.{count_where}
use self_relay.Cleanup.Batch.{older, oldest, counted, after_first, delete_batch}

module _ {R : Type 0} (test : R → Bool) (age : R → ℕ) where
  -- No candidate is older than `a`.
  abbrev pub AreYounger : (a : ℕ) → Dict R → Type 0
  AreYounger a d = All (λ k r. (not (test r) || leb a (age r)) ≡ true) d

  abbrev IsOldest : Dict R → Option (ℕ × ℕ) → Type 0
  IsOldest d none = count_where test d ≡ 0
  IsOldest d (some (k, a)) =
      (r : R) × (lookup k d ≡ some r) × (test r ≡ true) × (age r ≡ a) × AreYounger a d

  All-imply :
      (P Q : ℕ → R → Type 0) (d : Dict R) → ((k : ℕ) (r : R) → P k r → Q k r) → All P d → All Q d
  All-imply P Q [] f h = tt
  All-imply P Q ((k, r) ∷ d) f h = (f k r h.0, All-imply P Q d f h.1)

  younger_than : (a b : ℕ) (d : Dict R) → leb a b ≡ true → AreYounger b d → AreYounger a d
  younger_than a b d le h =
      All-imply (λ k r. (not (test r) || leb b (age r)) ≡ true)
        (λ k r. (not (test r) || leb a (age r)) ≡ true) d (λ k r e. ground arith) h

  no_candidate : (a : ℕ) (d : Dict R) → count_where test d ≡ 0 → AreYounger a d
  unfolding count_where
  no_candidate a [] e = tt
  no_candidate a ((k, r) ∷ d) e = elim (Bool-cases (test r)) [
    | inl hit ↦ let more : count_where test d + 1 ≡ 0 = rw hit at e in ground arith
    | inr miss ↦
        let rest : count_where test d ≡ 0 = rw miss at e in (rw miss refl, no_candidate a d rest)
  ]

  other_key :
      (k j : ℕ) (r : R) (d : Dict R) → lookup k d ≡ none → lookup j d ≡ some r → k == j ≡ false
  other_key k j r d gone there = elim (Bool-cases (k == j)) [
    | inl hit ↦
        let key : k ≡ j = ground arith in
        let both : is_some (lookup k d) ≡ is_some (lookup j d) =
          ap (λ i. is_some (lookup i d)) key in
        let impossible : false ≡ true = rw (gone, there) at both in ground arith
    | inr miss ↦ miss
  ]

  older-IsOldest :
      (k : ℕ) (r : R) (d : Dict R) (o : Option (ℕ × ℕ))
      → lookup k d ≡ none
      → test r ≡ true
      → IsOldest d o
      → IsOldest ((k, r) ∷ d) (older test age k (age r) o)
  unfolding lookup count_where
  older-IsOldest k r d none gone hit h =
      let here : k == k ≡ true = ground arith in
      (r, (rw here refl), hit, refl, ((rw hit (ground arith)), no_candidate (age r) d h))
  older-IsOldest k r d (some (j, b)) gone hit (x, there, passes, same, young) =
      elim (Bool-cases (leb (age r) b)) [
        | inl first ↦
            let here : k == k ≡ true = ground arith in
            rw first (
              r,
              (rw here refl),
              hit,
              refl,
              ((rw hit (ground arith)), younger_than (age r) b d first young),
            )
        | inr second ↦
            let later : leb b (age r) ≡ true = ground arith in
            rw second
              (x, (rw (other_key k j x d gone there) there), passes, same, ((rw hit later), young))
      ]

  skip-IsOldest :
      (k : ℕ) (r : R) (d : Dict R) (o : Option (ℕ × ℕ))
      → lookup k d ≡ none
      → test r ≡ false
      → IsOldest d o
      → IsOldest ((k, r) ∷ d) o
  unfolding lookup count_where
  skip-IsOldest k r d none gone miss h = rw miss h
  skip-IsOldest k r d (some (j, b)) gone miss (x, there, passes, same, young) =
      (x, (rw (other_key k j x d gone there) there), passes, same, ((rw miss refl), young))

  oldest-IsOldest : (d : Dict R) → IsUnique d → IsOldest d (oldest test age d)
  unfolding oldest count_where
  oldest-IsOldest [] u = refl
  oldest-IsOldest ((k, r) ∷ d) u = elim (Bool-cases (test r)) [
    | inl hit ↦ rw hit (older-IsOldest k r d (oldest test age d) u.0 hit (oldest-IsOldest d u.1))
    | inr miss ↦ rw miss (skip-IsOldest k r d (oldest test age d) u.0 miss (oldest-IsOldest d u.1))
  ]

  count_where-erase :
      (k : ℕ) (r : R) (d : Dict R)
      → lookup k d ≡ some r
      → test r ≡ true
      → count_where test (erase k d) + 1 ≡ count_where test d
  unfolding lookup erase count_where
  count_where-erase k r [] e hit = ground arith
  count_where-erase k r ((j, x) ∷ d) e hit = elim (Bool-cases (j == k)) [
    | inl here ↦
        let found : some x ≡ some r = rw here at e in
        let passes : test x ≡ true = ground arith in rw here (rw passes refl)
    | inr other ↦
        let rest : lookup k d ≡ some r = rw other at e in
        let counts = count_where-erase k r d rest hit in
        rw other (elim (Bool-cases (test x)) [
          | inl more ↦ rw more (omega arith)
          | inr no_more ↦ rw no_more counts
        ])
  ]

  pub delete_batch-none :
      (n : ℕ) (d : Dict R) → oldest test age d ≡ none → delete_batch test age (suc n) d ≡ (0, d)
  unfolding delete_batch
  delete_batch-none n d e =
      ap (λ o. after_first test age o (λ k. delete_batch test age n (erase k d)) d) e

  pub delete_batch-some :
      (n k a : ℕ) (d : Dict R)
      → oldest test age d ≡ some (k, a)
      → delete_batch test age (suc n) d ≡ counted test age (delete_batch test age n (erase k d))
  unfolding delete_batch
  delete_batch-some n k a d e =
      ap (λ o. after_first test age o (λ k. delete_batch test age n (erase k d)) d) e

  AreYounger-delete_batch :
      (a n : ℕ) (d : Dict R) → AreYounger a d → AreYounger a (delete_batch test age n d).1
  unfolding delete_batch
  AreYounger-delete_batch a zero d h = h
  AreYounger-delete_batch a (suc n) d h = elim (Option-cases (oldest test age d)) [
    | inl e ↦ rw (delete_batch-none n d e) h
    | inr ((k, b), e) ↦ rw (delete_batch-some n k b d e) (
        AreYounger-delete_batch a n (erase k d)
          (All-erase (λ k r. (not (test r) || leb a (age r)) ≡ true) k d h))
  ]

  first_is : (d : Dict R) (o : Option (ℕ × ℕ)) → IsUnique d → oldest test age d ≡ o → IsOldest d o
  first_is d o u e = subst (IsOldest d) e (oldest-IsOldest d u)

  -- How many rows go
  abbrev pub Counts : (n : ℕ) → Dict R → ℕ × Dict R → Type 0
  Counts n d (deleted, d') =
      (deleted ≡ min n (count_where test d)) × (count_where test d' + deleted ≡ count_where test d)

  pub delete_batch-Counts :
      (n : ℕ) (d : Dict R) → IsUnique d → Counts n d (delete_batch test age n d)
  unfolding delete_batch
  delete_batch-Counts zero d u = (omega arith, omega arith)
  delete_batch-Counts (suc n) d u = elim (Option-cases (oldest test age d)) [
    | inl e ↦
        let empty : count_where test d ≡ 0 = first_is d none u e in
        rw (delete_batch-none n d e) (omega arith, omega arith)
    | inr ((k, a), e) ↦
        let first : IsOldest d (some (k, a)) = first_is d (some (k, a)) u e in
        let one : count_where test (erase k d) + 1 ≡ count_where test d =
          count_where-erase k first.0 d first.1 first.2 in
        let rest : Counts n (erase k d) (delete_batch test age n (erase k d)) =
          delete_batch-Counts n (erase k d) (erase-IsUnique k d u) in
        let deleted = rest.0 in
        let left = rest.1 in rw (delete_batch-some n k a d e) (omega arith, omega arith)
  ]

  -- A row stays as it is, or it was a candidate than which none that is left is older.
  abbrev pub IsKept : (left : Dict R) → (before after : Option R) → Type 0
  IsKept left none o = o ≡ none
  IsKept left (some r) none = (test r ≡ true) × AreYounger (age r) left
  IsKept left (some r) (some r') = r' ≡ r

  same_row : (left : Dict R) (o : Option R) → IsKept left o o
  same_row left none = refl
  same_row left (some r) = refl

  removed :
      (left : Dict R) (r : R) (o o' : Option R)
      → o ≡ some r
      → o' ≡ none
      → test r ≡ true
      → AreYounger (age r) left
      → IsKept left o o'
  removed left r o o' was gone passes young = rw (was, gone) (passes, young)

  gone_stays : (left : Dict R) (o : Option R) → IsKept left none o → o ≡ none
  gone_stays left o h = h

  pub delete_batch-IsKept :
      (n : ℕ) (d : Dict R) (j : ℕ)
      → IsUnique d
      → IsKept (delete_batch test age n d).1 (lookup j d) (lookup j (delete_batch test age n d).1)
  unfolding delete_batch
  delete_batch-IsKept zero d j u = same_row d (lookup j d)
  delete_batch-IsKept (suc n) d j u = elim (Option-cases (oldest test age d)) [
    | inl e ↦ rw (delete_batch-none n d e) (same_row d (lookup j d))
    | inr ((k, a), e) ↦
        let first : IsOldest d (some (k, a)) = first_is d (some (k, a)) u e in
        let rest : IsKept (delete_batch test age n (erase k d)).1 (lookup j (erase k d))
            (lookup j (delete_batch test age n (erase k d)).1) =
          delete_batch-IsKept n (erase k d) j (erase-IsUnique k d u) in
        rw (delete_batch-some n k a d e) (elim (Bool-cases (k == j)) [
          | inl hit ↦
              let key : k ≡ j = ground arith in
              let gone : lookup j (erase k d) ≡ none =
                ap (λ i. lookup i (erase k d)) (sym key) ∙ lookup-erase_self k d u in
              let young : AreYounger a (delete_batch test age n (erase k d)).1 =
                AreYounger-delete_batch a n (erase k d)
                  (All-erase (λ i r. (not (test r) || leb a (age r)) ≡ true) k d first.4) in
              removed (delete_batch test age n (erase k d)).1 first.0 (lookup j d)
                (lookup j (delete_batch test age n (erase k d)).1)
                (ap (λ i. lookup i d) (sym key) ∙ first.1)
                (gone_stays (delete_batch test age n (erase k d)).1
                  (lookup j (delete_batch test age n (erase k d)).1)
                  (subst
                    (λ o.
                      IsKept (delete_batch test age n (erase k d)).1 o
                        (lookup j (delete_batch test age n (erase k d)).1))
                    gone rest))
                first.2
                (subst (λ b. AreYounger b (delete_batch test age n (erase k d)).1) (sym first.3)
                  young)
          | inr miss ↦
              let kept : lookup j (erase k d) ≡ lookup j d = lookup-erase_ne j k d (ground arith) in
              subst
                (λ o.
                  IsKept (delete_batch test age n (erase k d)).1 o
                    (lookup j (delete_batch test age n (erase k d)).1))
                kept rest
        ])
  ]
