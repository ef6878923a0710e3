-- ===== src/Base/Counted.antt =====
-- A relation on one row that counts the statements which find it.
use self_relay.Base.{
  ℕ, ◌≡◌, ap, ◌∙◌, sym, refl, Bool, true, false, ◌&&◌, Option, none, some, ◌==◌, is_some, inl, inr,
  Bool-cases, Option-cases, arith,
}
use mathlib.Core.Path.{subst}
use self_relay.Base.Dict.{Dict, lookup, insert, lookup-insert}
use self_relay.Base.Rows.{write_row, update_row}

abbrev pub one_if : Bool → ℕ
one_if true = 1
one_if false = 0

module _ {R : Type 0} (P : ℕ → R → R → Type 0) where
  -- The row is there, and related.
  abbrev pub Counted : ℕ → R → Option R → Type 0
  Counted n r none = ⊥
  Counted n r (some r') = P n r r'

  pub Counted-same :
      (b : ℕ) (r : R) (s s' : Dict R)
      → P 0 r r
      → lookup b s ≡ some r
      → lookup b s' ≡ lookup b s
      → Counted 0 r (lookup b s')
  Counted-same b r s s' same e kept = subst (Counted 0 r) (sym (kept ∙ e)) same

  pub Counted-insert :
      (n b k : ℕ) (r x : R) (s : Dict R)
      → k == b ≡ true
      → P n r x
      → Counted n r (lookup b (insert k x s))
  Counted-insert n b k r x s hit related =
      let written : lookup b (insert k x s) ≡ some x = lookup-insert b k x s ∙ (rw hit refl) in
      subst (Counted n r) (sym written) related

  pub Counted-insert_other :
      (b k : ℕ) (r x : R) (s : Dict R)
      → P 0 r r
      → lookup b s ≡ some r
      → k == b ≡ false
      → Counted 0 r (lookup b (insert k x s))
  Counted-insert_other b k r x s same e miss =
      Counted-same b r s (insert k x s) same e (lookup-insert b k x s ∙ (rw miss refl))

  -- An update counts if it is at the row's key and the row passes its test.
  pub Counted-update_row :
      (rejects : R → Bool) (updated : R → R) (b k : ℕ) (r : R) (s : Dict R)
      → P 0 r r
      → (rejects r ≡ false → P 1 r (updated r))
      → lookup b s ≡ some r
      → Counted
          (one_if (k == b && is_some (update_row rejects updated k s).0))
          r
          (lookup b (update_row rejects updated k s).1)
  unfolding update_row
  Counted-update_row rejects updated b k r s same hits e = elim (Bool-cases (k == b)) [
    | inl hit ↦
        let key : k ≡ b = ground arith in
        let here : lookup k s ≡ some r = ap (λ i. lookup i s) key ∙ e in
        elim (Bool-cases (rejects r)) [
          | inl bad ↦ rw (hit, here, write_row) (rw bad (Counted-same b r s s same e refl))
          | inr good ↦
              rw (hit, here, write_row)
                (rw good (Counted-insert 1 b k r (updated r) s hit (hits good)))
        ]
    | inr miss ↦ elim (Option-cases (lookup k s)) [
      | inl gone ↦ rw (miss, gone, write_row) (Counted-same b r s s same e refl)
      | inr (x, there) ↦ elim (Bool-cases (rejects x)) [
        | inl bad ↦ rw (miss, there, write_row) (rw bad (Counted-same b r s s same e refl))
        | inr good ↦
            rw (miss, there, write_row)
              (rw good (Counted-insert_other b k r (updated x) s same e miss))
      ]
    ]
  ]
