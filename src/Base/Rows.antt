-- ===== src/Base/Rows.antt =====
-- What both repositories do to one row: look it up by its identifier, test it, and write it back.
use self_relay.Base.{
  ℕ, ◌≡◌, refl, ◌∙◌, inl, inr, Bool, true, false, Option, none, some, arith, ◌==◌, if◌then◌else◌,
  Option-cases, Bool-cases, Holds,
}
use mathlib.Core.Path.{fun_ext}
use self_relay.Base.Dict.{Dict, lookup, insert, lookup-insert, lookup-insert_self}

-- `UPDATE ... WHERE id = k AND NOT rejects RETURNING *`; or `self._records.get(k)`, a test that
-- returns `None`, and `self._records[k] = updated`.
module _ {R : Type 0} where
  abbrev pub write_row : (R → Bool) → (R → R) → ℕ → Dict R → Option R → Option R × Dict R
  write_row rejects updated k s none = (none, s)
  write_row rejects updated k s (some r) =
      if rejects r then (none, s) else (some (updated r), insert k (updated r) s)

  unfoldable pub update_row : (R → Bool) → (R → R) → ℕ → Dict R → Option R × Dict R
  update_row rejects updated k s = write_row rejects updated k s (lookup k s)

  -- How a row may change: it stays missing, or it changes as `P` says.
  abbrev pub Related : (R → R → Type 0) → Option R → Option R → Type 0
  Related P none none = Unit {0}
  Related P none (some r') = ⊥
  Related P (some r) none = ⊥
  Related P (some r) (some r') = P r r'

  pub Related-refl : (P : R → R → Type 0) → ((r : R) → P r r) → (o : Option R) → Related P o o
  Related-refl P same none = tt
  Related-refl P same (some r) = same r

  -- An update changes at most the row that it names, and that one only if the test lets it.
  pub update_row-Related :
      (P : R → R → Type 0) (rejects : R → Bool) (updated : R → R) (k : ℕ) (s : Dict R)
      → ((r : R) → P r r)
      → ((r : R) → rejects r ≡ false → P r (updated r))
      → (j : ℕ) → Related P (lookup j s) (lookup j (update_row rejects updated k s).1)
  unfolding update_row
  update_row-Related P rejects updated k s same changed j = elim (Option-cases (lookup k s)) [
    | inl e ↦ rw (e, write_row) (Related-refl P same (lookup j s))
    | inr (r, e) ↦ elim (Bool-cases (rejects r)) [
      | inl bad ↦ rw (e, write_row) (rw bad (Related-refl P same (lookup j s)))
      | inr good ↦
          rw (e, write_row) (rw good (rw (lookup-insert j k (updated r) s) (at_key r e good)))
    ]
  ]
    where
      at_key :
          (r : R)
          → lookup k s ≡ some r
          → rejects r ≡ false
          → Related P (lookup j s) (if k == j then some (updated r) else lookup j s)
      at_key r e good = elim (Bool-cases (k == j)) [
        | inl hit ↦
            let same_key : k ≡ j = ground arith in rw hit (rw (← same_key) (rw e (changed r good)))
        | inr miss ↦ rw miss (Related-refl P same (lookup j s))
      ]

  -- A property of all rows survives a related step.
  pub Holds-Related :
      (P : R → R → Type 0) (Q : R → Type 0) (o o' : Option R)
      → ((r r' : R) → P r r' → Q r → Q r')
      → Related P o o'
      → Holds Q o
      → Holds Q o'
  Holds-Related P Q none none keep p h = tt
  Holds-Related P Q none (some r') keep p h = absurd p
  Holds-Related P Q (some r) none keep p h = absurd p
  Holds-Related P Q (some r) (some r') keep p h = keep r r' p h

  pub Related-trans :
      (P : R → R → Type 0) (a b c : Option R)
      → ((x y z : R) → P x y → P y z → P x z)
      → Related P a b
      → Related P b c
      → Related P a c
  Related-trans P none none c trans p q = q
  Related-trans P none (some y) c trans p q = absurd p
  Related-trans P (some x) none c trans p q = absurd p
  Related-trans P (some x) (some y) none trans p q = absurd q
  Related-trans P (some x) (some y) (some z) trans p q = trans x y z p q

  -- Two updates agree when their tests agree and they write the same wherever the test passes.
  pub update_row-ext :
      (rejects rejects' : R → Bool) (updated updated' : R → R) (k : ℕ) (s : Dict R)
      → ((r : R) → rejects r ≡ rejects' r)
      → ((r : R) → updated r ≡ updated' r)
      → update_row rejects updated k s ≡ update_row rejects' updated' k s
  update_row-ext rejects rejects' updated updated' k s same_test same_write =
      rw (fun_ext same_test, fun_ext same_write)

  -- It is enough that they do so on the row.
  pub update_row-agrees :
      (rejects rejects' : R → Bool) (updated updated' : R → R) (k : ℕ) (s : Dict R)
      → ((r : R) → lookup k s ≡ some r → rejects r ≡ rejects' r)
      → ((r : R) → rejects' r ≡ false → updated r ≡ updated' r)
      → update_row rejects updated k s ≡ update_row rejects' updated' k s
  unfolding update_row
  update_row-agrees rejects rejects' updated updated' k s same_test same_write =
      elim (Option-cases (lookup k s)) [
        | inl gone ↦ rw (gone, write_row) refl
        | inr (r, e) ↦ elim (Bool-cases (rejects' r)) [
          | inl bad ↦
              let bad' : rejects r ≡ true = same_test r e ∙ bad in
              rw (e, write_row) (rw (bad, bad') refl)
          | inr good ↦
              let good' : rejects r ≡ false = same_test r e ∙ good in
              rw (e, write_row) (rw (good, good') (rw (same_write r good) refl))
        ]
      ]

  -- What an update returns stands in the table.
  pub update_row-stored :
      (rejects : R → Bool) (updated : R → R) (k : ℕ) (s : Dict R)
      → Holds
          (λ r. lookup k (update_row rejects updated k s).1 ≡ some r)
          (update_row rejects updated k s).0
  unfolding update_row
  update_row-stored rejects updated k s = elim (Option-cases (lookup k s)) [
    | inl e ↦ rw (e, write_row) tt
    | inr (r, e) ↦ elim (Bool-cases (rejects r)) [
      | inl bad ↦ rw (e, write_row) (rw bad tt)
      | inr good ↦ rw (e, write_row) (rw good (lookup-insert_self k (updated r) s))
    ]
  ]

  pub update_row-rejected :
      (rejects : R → Bool) (updated : R → R) (k : ℕ) (s : Dict R)
      → ((r : R) → rejects r ≡ true)
      → update_row rejects updated k s ≡ (none, s)
  unfolding update_row
  update_row-rejected rejects updated k s always = elim (Option-cases (lookup k s)) [
    | inl e ↦ rw (e, write_row)
    | inr (r, e) ↦ rw (e, write_row) (rw (always r))
  ]

  pub update_row-rejected_at :
      (rejects : R → Bool) (updated : R → R) (k : ℕ) (s : Dict R) (r : R)
      → lookup k s ≡ some r
      → rejects r ≡ true
      → update_row rejects updated k s ≡ (none, s)
  unfolding update_row
  update_row-rejected_at rejects updated k s r e bad = rw (e, write_row) (rw bad)

  -- What an update returns is a row that its test let pass.
  pub update_row-holds :
      (Q : R → Type 0) (rejects : R → Bool) (updated : R → R) (k : ℕ) (s : Dict R)
      → ((r : R) → rejects r ≡ false → Q (updated r))
      → Holds Q (update_row rejects updated k s).0
  unfolding update_row
  update_row-holds Q rejects updated k s step = elim (Option-cases (lookup k s)) [
    | inl e ↦ rw (e, write_row) tt
    | inr (r, e) ↦ elim (Bool-cases (rejects r)) [
      | inl bad ↦ rw (e, write_row) (rw bad tt)
      | inr good ↦ rw (e, write_row) (rw good (step r good))
    ]
  ]
