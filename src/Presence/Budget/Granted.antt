-- ===== src/Presence/Budget/Granted.antt =====
-- How often a device has been let use a transfer's signaling, counted by what `_record_signaling_use`
-- answered.
use self_relay.Base.{
  ℕ, ◌+◌, ◌≡◌, refl, ap, sym, ◌∙◌, Bool, true, false, ◌&&◌, Option, none, some, List, [], ◌∷◌, inl,
  inr, ◌⊎◌, ◌==◌, is_some, if◌then◌else◌, Bool-cases, arith,
}
use mathlib.Core.Path.{subst}
use self_relay.Base.Dict.{
  Dict, lookup, insert, erase, IsUnique, lookup-insert, lookup-erase_self, lookup-erase_ne,
  erase-IsUnique,
}
use self_relay.Presence.State.{ActiveConnection, Manager, SignalingType, SignalingUsage}
use self_relay.Presence.Signaling.{
  add_use, usage_or_new, over_budget, account_total, charge, record_signaling_use, release_usage,
  release_signaling, release_each, clear_signaling_state, prune_signaling_state, count_cleaned,
  stale_transfers,
}
use self_relay.Presence.Sections.{Section, records_use, step}
use self_relay.Presence.Budget.Usage.{used_by, used_by-add_use, one_if, is_same_use}

-- The uses that a transfer's entry has for a device and a type
abbrev pub uses_in_entry : (device : ℕ) → SignalingType → Option SignalingUsage → ℕ
uses_in_entry d ty none = 0
uses_in_entry d ty (some u) = used_by d ty u.counts

abbrev pub uses_in : (transfer device : ℕ) → SignalingType → Dict SignalingUsage → ℕ
uses_in k d ty s = uses_in_entry d ty (lookup k s)

-- The section charges such a use, and the manager lets it pass.
abbrev pub is_granted : (transfer device : ℕ) → SignalingType → Section → Manager → Bool
is_granted k d ty (records_use now t c ty') m =
    t == k && is_same_use c.device_id d ty' ty && (record_signaling_use now t c ty' m).0
is_granted k d ty _ m = false

-- The uses let pass by the sections, after `n` earlier ones, since the transfer last had no entry
unfoldable pub granted :
    (transfer device : ℕ) → SignalingType → List Section → Manager → (n : ℕ) → ℕ
granted k d ty [] m n = n
granted k d ty (s ∷ ss) m n =
    granted k d ty ss (step s m)
      (if is_some (lookup k (step s m).signaling) then n + one_if (is_granted k d ty s m) else 0)

-- The uses of an entry after a section that let `more` of them pass
abbrev pub IsGrown :
    (transfer device : ℕ) → SignalingType → (more : ℕ) → (s s' : Dict SignalingUsage) → Type 0
IsGrown k d ty more s s' =
    uses_in k d ty s' ≡ (if is_some (lookup k s') then uses_in k d ty s + more else 0)

-- An entry that stays, or goes
same-IsGrown :
    (k d : ℕ) (ty : SignalingType) (s s' : Dict SignalingUsage)
    → (lookup k s' ≡ lookup k s) ⊎ (lookup k s' ≡ none)
    → IsGrown k d ty 0 s s'
same-IsGrown k d ty s s' (inl same) = entry (lookup k s) (lookup k s') same
  where
    entry :
        (o o' : Option SignalingUsage)
        → o' ≡ o
        → uses_in_entry d ty o' ≡ (if is_some o' then uses_in_entry d ty o + 0 else 0)
    entry o none e = refl
    entry o (some u) e = ap (uses_in_entry d ty) e ∙ (omega arith)
same-IsGrown k d ty s s' (inr gone) = rw gone refl

pub unchanged-IsGrown :
    (k d : ℕ) (ty : SignalingType) (s s' : Dict SignalingUsage) → s' ≡ s → IsGrown k d ty 0 s s'
unchanged-IsGrown k d ty s s' same = same-IsGrown k d ty s s' (inl (ap (lookup k) same))

abbrev StaysOrGoes : (k : ℕ) (s s' : Dict SignalingUsage) → Type 0
StaysOrGoes k s s' = (lookup k s' ≡ lookup k s) ⊎ (lookup k s' ≡ none)

erase-StaysOrGoes : (k t : ℕ) (s : Dict SignalingUsage) → IsUnique s → StaysOrGoes k s (erase t s)
erase-StaysOrGoes k t s u = elim (Bool-cases (t == k)) [
  | inl hit ↦
      let key : t ≡ k = ground arith in
      inr (ap (λ i. lookup k (erase i s)) key ∙ lookup-erase_self k s u)
  | inr miss ↦ inl (lookup-erase_ne k t s (ground arith))
]

StaysOrGoes-trans :
    (k : ℕ) (s s' s'' : Dict SignalingUsage)
    → StaysOrGoes k s s'
    → StaysOrGoes k s' s''
    → StaysOrGoes k s s''
StaysOrGoes-trans k s s' s'' p (inr gone) = inr gone
StaysOrGoes-trans k s s' s'' (inl e) (inl f) = inl (f ∙ e)
StaysOrGoes-trans k s s' s'' (inr e) (inl f) = inr (f ∙ e)

release_usage-StaysOrGoes :
    (k t : ℕ) (o : Option SignalingUsage) (m : Manager)
    → IsUnique m.signaling
    → StaysOrGoes k m.signaling (release_usage t o m).1.signaling
      × IsUnique (release_usage t o m).1.signaling
release_usage-StaysOrGoes k t none m u = (inl refl, u)
release_usage-StaysOrGoes k t (some x) m u =
    (erase-StaysOrGoes k t m.signaling u, erase-IsUnique t m.signaling u)

release_each-StaysOrGoes :
    (k : ℕ) (ts : List ℕ) (m : Manager)
    → IsUnique m.signaling
    → StaysOrGoes k m.signaling (release_each ts m).signaling
unfolding release_each release_signaling
release_each-StaysOrGoes k [] m u = inl refl
release_each-StaysOrGoes k (t ∷ ts) m u =
    let one = release_usage-StaysOrGoes k t (lookup t m.signaling) m u in
    let m' = (release_usage t (lookup t m.signaling) m).1 in
    StaysOrGoes-trans k m.signaling m'.signaling (release_each ts m').signaling one.0
      (release_each-StaysOrGoes k ts m' one.1)

signaling-count_cleaned : (ts : List ℕ) (m : Manager) → (count_cleaned ts m).signaling ≡ m.signaling
signaling-count_cleaned [] m = refl
signaling-count_cleaned (t ∷ ts) m = refl

pub prune_signaling_state-IsGrown :
    (k d : ℕ) (ty : SignalingType) (now : ℕ) (m : Manager)
    → IsUnique m.signaling
    → IsGrown k d ty 0 m.signaling (prune_signaling_state now m).signaling
unfolding prune_signaling_state
prune_signaling_state-IsGrown k d ty now m u =
    let ts = stale_transfers now m.signaling in
    let same = ap (lookup k) (signaling-count_cleaned ts (release_each ts m)) in
    same-IsGrown k d ty m.signaling (count_cleaned ts (release_each ts m)).signaling (
      StaysOrGoes-trans k m.signaling (release_each ts m).signaling
        (count_cleaned ts (release_each ts m)).signaling (release_each-StaysOrGoes k ts m u)
        (inl same))

pub clear_signaling_state-IsGrown :
    (k d : ℕ) (ty : SignalingType) (t : ℕ) (m : Manager)
    → IsUnique m.signaling
    → IsGrown k d ty 0 m.signaling (clear_signaling_state t m).signaling
unfolding clear_signaling_state release_signaling
clear_signaling_state-IsGrown k d ty t m u =
    let one = release_usage-StaysOrGoes k t (lookup t m.signaling) m u in
    let grown =
      same-IsGrown k d ty m.signaling (release_usage t (lookup t m.signaling) m).1.signaling
        one.0 in
    elim (Bool-cases (release_usage t (lookup t m.signaling) m).0) [
      | inl cleared ↦ rw cleared grown
      | inr unknown ↦ rw unknown grown
    ]

-- An entry is written: at another transfer it stays, at this one it has the uses of what is written.
insert-IsGrown :
    (k d : ℕ) (ty : SignalingType) (t more : ℕ) (u : SignalingUsage) (s : Dict SignalingUsage)
    → used_by d ty u.counts ≡ uses_in t d ty s + more
    → IsGrown k d ty (if t == k then more else 0) s (insert t u s)
insert-IsGrown k d ty t more u s e = elim (Bool-cases (t == k)) [
  | inl hit ↦
      let key : t ≡ k = ground arith in
      let found : lookup k (insert t u s) ≡ some u = lookup-insert k t u s ∙ (rw hit refl) in
      let its : uses_in t d ty s ≡ uses_in k d ty s = ap (λ i. uses_in i d ty s) key in
      rw (found, hit) (omega arith)
  | inr miss ↦
      let same : lookup k (insert t u s) ≡ lookup k s = lookup-insert k t u s ∙ (rw miss refl) in
      rw miss (same-IsGrown k d ty s (insert t u s) (inl same))
]

new_entry :
    (d : ℕ) (ty : SignalingType) (now a : ℕ) (o : Option SignalingUsage)
    → used_by d ty (usage_or_new now a o).counts ≡ uses_in_entry d ty o
unfolding used_by
new_entry d ty now a none = refl
new_entry d ty now a (some u) = refl

pass_or_not : (x y z : Bool) → (if x then one_if (y && z) else 0) ≡ one_if (x && y && z)
pass_or_not true y z = refl
pass_or_not false y z = refl

no_use : (y : Bool) → one_if (y && false) ≡ 0
no_use true = refl
no_use false = refl

and_true : (y : Bool) → (y && true) ≡ y
and_true true = refl
and_true false = refl

charge-IsGrown :
    (k d : ℕ) (ty : SignalingType) (now t : ℕ) (c : ActiveConnection) (ty' : SignalingType)
    (u : SignalingUsage) (m : Manager)
    → used_by d ty u.counts ≡ uses_in t d ty m.signaling
    → IsGrown k d ty
        (one_if (t == k && is_same_use c.device_id d ty' ty && (charge now t c ty' u m).0))
        m.signaling
        (charge now t c ty' u m).1.signaling
charge-IsGrown k d ty now t c ty' u m e =
    elim (Bool-cases (over_budget c ty' u (account_total c.account_id m))) [
      | inl over ↦
          let none_more : one_if (is_same_use c.device_id d ty' ty && false) ≡ 0 =
            no_use (is_same_use c.device_id d ty' ty) in
          rw over (
            subst (λ n. IsGrown k d ty n m.signaling (insert t u m.signaling))
              (pass_or_not (t == k) (is_same_use c.device_id d ty' ty) false)
              (insert-IsGrown k d ty t (one_if (is_same_use c.device_id d ty' ty && false)) u
                m.signaling (e ∙ (omega arith))))
      | inr within ↦
          let written : SignalingUsage = record u {
            counts = add_use c.device_id ty' u.counts;
            total = u.total + 1;
            updated_at = now;
          } in
          let one_more : one_if (is_same_use c.device_id d ty' ty && true)
              ≡ one_if (is_same_use c.device_id d ty' ty) =
            ap one_if (and_true (is_same_use c.device_id d ty' ty)) in
          let uses = used_by-add_use d c.device_id ty ty' u.counts in
          rw within (
            subst
              (λ n. IsGrown k d ty n m.signaling (
                insert t
                  (record u {
                    counts = add_use c.device_id ty' u.counts;
                    total = u.total + 1;
                    updated_at = now;
                  })
                  m.signaling))
              (pass_or_not (t == k) (is_same_use c.device_id d ty' ty) true)
              (insert-IsGrown k d ty t (one_if (is_same_use c.device_id d ty' ty && true)) written
                m.signaling
                (uses
                  ∙ ap (λ n. n + one_if (is_same_use c.device_id d ty' ty)) e
                  ∙ ap (λ n. uses_in t d ty m.signaling + n) (sym one_more))))
    ]

pub record_signaling_use-IsGrown :
    (k d : ℕ) (ty : SignalingType) (now t : ℕ) (c : ActiveConnection) (ty' : SignalingType)
    (m : Manager)
    → IsGrown k d ty
        (one_if (is_granted k d ty (records_use now t c ty') m))
        m.signaling
        (record_signaling_use now t c ty' m).1.signaling
unfolding record_signaling_use
record_signaling_use-IsGrown k d ty now t c ty' m =
    charge-IsGrown k d ty now t c ty' (usage_or_new now c.account_id (lookup t m.signaling)) m
      (new_entry d ty now c.account_id (lookup t m.signaling))
