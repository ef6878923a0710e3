-- ===== src/Base/Grows.antt =====
-- A table to which rows are only added: each row follows its earlier self, and all satisfy `Q`.
use self_relay.Base.Tests.{◌==◌, Bool-cases, Holds, is_some}
use self_relay.Base.Dict.{Dict, lookup, insert, lookup-insert}
use self_relay.Base.Rows.{Related, update_row, update_row-Related}
use self_relay.Base.Where.{update_where, rewritten, map_option, lookup-update_where}
use Prim.Native.Nat.{ℕ}
use mathlib.Core.Path.{◌≡◌, refl, sym, subst, ◌∙◌}
use mathlib.Core.Logic.{inl, inr}
use mathlib.Core.Bool.{Bool, true, false}
use mathlib.Core.Option.{Option, none, some}
use native.Mathlib.Omega.{arith}

module _ {R : Type 0} (P : R → R → Type 0) (Q : R → Type 0) where
  abbrev pub Grows : Option R → Option R → Type 0
  Grows none o = Holds Q o
  Grows (some r) none = ⊥
  Grows (some r) (some r') = P r r' × Q r'

  pub Grows-refl : ((r : R) → P r r) → (o : Option R) → Holds Q o → Grows o o
  Grows-refl same none q = tt
  Grows-refl same (some r) q = (same r, q)

  pub Grows-holds : (o o' : Option R) → Grows o o' → Holds Q o'
  Grows-holds none o' g = g
  Grows-holds (some r) none g = tt
  Grows-holds (some r) (some r') g = g.1

  pub Grows-trans :
      ((x y z : R) → P x y → P y z → P x z) → (a b c : Option R) → Grows a b → Grows b c → Grows a c
  Grows-trans trans none b c g h = Grows-holds b c h
  Grows-trans trans (some x) none c g h = absurd g
  Grows-trans trans (some x) (some y) none g h = absurd h
  Grows-trans trans (some x) (some y) (some z) g h = (trans x y z g.0 h.0, h.1)

  Grows-Related :
      (o o' : Option R) → Related (λ r r'. Q r → P r r' × Q r') o o' → Holds Q o → Grows o o'
  Grows-Related none none s q = tt
  Grows-Related none (some r') s q = absurd s
  Grows-Related (some r) none s q = s
  Grows-Related (some r) (some r') s q = s q

  pub Grows-update_row :
      (rejects : R → Bool) (updated : R → R) (k : ℕ) (d : Dict R)
      → ((r : R) → P r r)
      → ((r : R) → rejects r ≡ false → Q r → P r (updated r) × Q (updated r))
      → (j : ℕ) → Holds Q (lookup j d)
      → Grows (lookup j d) (lookup j (update_row rejects updated k d).1)
  Grows-update_row rejects updated k d same step j q =
      Grows-Related (lookup j d) (lookup j (update_row rejects updated k d).1)
        (update_row-Related (λ r r'. Q r → P r r' × Q r') rejects updated k d (λ r q'. (same r, q'))
          step j)
        q

  Grows-map_option :
      (f : R → R)
      → ((r : R) → Q r → P r (f r) × Q (f r))
      → (o : Option R) → Holds Q o
      → Grows o (map_option f o)
  Grows-map_option f step none q = tt
  Grows-map_option f step (some r) q = step r q

  pub Grows-update_where :
      (test : R → Bool) (f : R → R) (d : Dict R)
      → ((r : R) → P r r)
      → ((r : R) → test r ≡ true → Q r → P r (f r) × Q (f r))
      → (j : ℕ) → Holds Q (lookup j d)
      → Grows (lookup j d) (lookup j (update_where test f d))
  Grows-update_where test f d same step j q =
      subst (Grows (lookup j d)) (sym (lookup-update_where test f j d))
        (Grows-map_option (rewritten test f) each (lookup j d) q)
    where
      each : (r : R) → Q r → P r (rewritten test f r) × Q (rewritten test f r)
      each r q' = elim (Bool-cases (test r)) [
        | inl hit ↦ rw hit (step r hit q')
        | inr miss ↦ rw miss (same r, q')
      ]

  pub Grows-insert :
      (k : ℕ) (r : R) (d : Dict R)
      → ((r : R) → P r r)
      → is_some (lookup k d) ≡ false
      → Q r
      → (j : ℕ) → Holds Q (lookup j d)
      → Grows (lookup j d) (lookup j (insert k r d))
  Grows-insert k r d same fresh q j old = elim (Bool-cases (k == j)) [
    | inl hit ↦
        let key : k ≡ j = ground arith in
        let written : lookup j (insert k r d) ≡ some r = lookup-insert j k r d ∙ (rw hit refl) in
        subst (Grows (lookup j d)) (sym written)
          (new (lookup j d) (subst (λ i. is_some (lookup i d) ≡ false) key fresh))
    | inr miss ↦
        let kept : lookup j (insert k r d) ≡ lookup j d = lookup-insert j k r d ∙ (rw miss refl) in
        subst (Grows (lookup j d)) (sym kept) (Grows-refl same (lookup j d) old)
  ]
    where
      new : (o : Option R) → is_some o ≡ false → Grows o (some r)
      new none e = q
      new (some x) e = ground arith
