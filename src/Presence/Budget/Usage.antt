-- ===== src/Presence/Budget/Usage.antt =====
-- What one transfer's entry of the signaling state holds, and how the entries add up.
use self_relay.Base.{
  ℕ, ap, sym, ◌∙◌, ◌+◌, ◌≤◌, ◌<◌, ◌≡◌, refl, Bool, true, false, ◌&&◌, Option, none, some, List, [],
  ◌∷◌, inl, inr, ◌==◌, ltb, if◌then◌else◌, Bool-cases, Holds, arith,
}
use self_relay.Base.Dict.{
  Dict, lookup, insert, erase, IsUnique, lookup-insert, lookup-erase_ne, lookup-erase_self,
  insert-IsUnique, erase-IsUnique,
}
use self_relay.Base.Counts.{weight}
use self_relay.Presence.State.{
  SignalingType, sdp_offer, sdp_answer, ice_candidate, handshake_offer, handshake_answer, UseCount,
  SignalingUsage,
}
use self_relay.Presence.Signaling.{
  type_word, is_for, uses_of, add_use, maximum_uses, usage_or_new, total_or_zero, less_total,
}

-- The types of messages, numbered, and how often a device may use each on one transfer.
unfoldable pub kind_of : SignalingType → ℕ
kind_of sdp_offer = 1
kind_of sdp_answer = 2
kind_of ice_candidate = 3
kind_of handshake_offer = 4
kind_of handshake_answer = 5

abbrev pub allowance : SignalingType → ℕ
allowance ice_candidate = 64
allowance _ = 1

-- All the uses that a list of counts has for a device and a type.
unfoldable pub used_by : (device : ℕ) → SignalingType → List UseCount → ℕ
used_by device t [] = 0
used_by device t (u ∷ us) =
    let rest = used_by device t us in
    if u.device_id == device && kind_of u.message_type == kind_of t then u.uses + rest else rest

-- They stand in one count, and no device has used a type more often than that type allows.
abbrev pub IsWithin : List UseCount → Type 0
IsWithin us =
    (device : ℕ) (t : SignalingType)
    → (used_by device t us ≡ uses_of device t us) × (used_by device t us ≤ allowance t)

unfoldable pub total_uses : List UseCount → ℕ
total_uses [] = 0
total_uses (u ∷ us) = u.uses + total_uses us

pub total_uses-add_use :
    (device : ℕ) (t : SignalingType) (us : List UseCount)
    → total_uses (add_use device t us) ≡ total_uses us + 1
unfolding total_uses add_use
total_uses-add_use device t [] = omega arith
total_uses-add_use device t (u ∷ us) = ground (arith, total_uses-add_use device t us)

kind_of-type_word : (t : SignalingType) → kind_of t ≡ type_word t + 1
unfolding kind_of
kind_of-type_word sdp_offer = refl
kind_of-type_word sdp_answer = refl
kind_of-type_word ice_candidate = refl
kind_of-type_word handshake_offer = refl
kind_of-type_word handshake_answer = refl

maximum_uses-allowance : (t : SignalingType) → maximum_uses t ≡ allowance t
maximum_uses-allowance sdp_offer = refl
maximum_uses-allowance sdp_answer = refl
maximum_uses-allowance ice_candidate = refl
maximum_uses-allowance handshake_offer = refl
maximum_uses-allowance handshake_answer = refl

abbrev allowance_of_kind : ℕ → ℕ
allowance_of_kind w = if w == 3 then 64 else 1

allowance-kind_of : (t : SignalingType) → allowance t ≡ allowance_of_kind (kind_of t)
unfolding kind_of
allowance-kind_of sdp_offer = refl
allowance-kind_of sdp_answer = refl
allowance-kind_of ice_candidate = refl
allowance-kind_of handshake_offer = refl
allowance-kind_of handshake_answer = refl

-- The test of the count's key, by device and kind.
is_for-kind_of :
    (device : ℕ) (t : SignalingType) (u : UseCount)
    → is_for device t u ≡ (u.device_id == device && kind_of u.message_type == kind_of t)
is_for-kind_of device t u =
    let left = kind_of-type_word u.message_type in let right = kind_of-type_word t in ground arith

abbrev pub one_if : Bool → ℕ
one_if true = 1
one_if false = 0

-- Whether a use by `device'` of type `t'` is one by `device` of type `t`.
abbrev pub is_same_use : (device' device : ℕ) (t' t : SignalingType) → Bool
is_same_use device' device t' t = device' == device && kind_of t' == kind_of t

more_or_same :
    (c : Bool) (x y : ℕ) → (if c then x + 1 + y else y) ≡ (if c then x + y else y) + one_if c
more_or_same true x y = omega arith
more_or_same false x y = omega arith

step_of : (c : Bool) (x y : ℕ) → (if c then x + 1 else y) ≡ (if c then x else y) + one_if c
step_of true x y = refl
step_of false x y = omega arith

first_use : (c : Bool) → (if c then 1 else 0) ≡ 0 + one_if c
first_use true = refl
first_use false = refl

of_rest :
    (b c : Bool) (x y z : ℕ)
    → z ≡ y + one_if c
    → (b && c) ≡ false
    → (if b then x else z) ≡ (if b then x else y) + one_if c
of_rest b c x y z e other = ground arith

clash :
    (d e f i j k : ℕ)
    → (d == f && i == k) ≡ false
    → ((d == e && i == j) && (f == e && k == j)) ≡ false
clash d e f i j k other = ground arith

after_rest :
    (c : Bool) (x y z n : ℕ) → z ≡ y + n → (if c then x + z else z) ≡ (if c then x + y else y) + n
after_rest true x y z n e = omega arith
after_rest false x y z n e = e

pub used_by-add_use :
    (device device' : ℕ) (t t' : SignalingType) (us : List UseCount)
    → used_by device t (add_use device' t' us)
      ≡ used_by device t us + one_if (is_same_use device' device t' t)
unfolding used_by add_use
used_by-add_use device device' t t' [] =
    elim (Bool-cases (device' == device && kind_of t' == kind_of t)) [
      | inl same ↦ rw same refl
      | inr other ↦ rw other refl
    ]
used_by-add_use device device' t t' (u ∷ us) =
    let test = is_for-kind_of device' t' u in
    let rest = used_by-add_use device device' t t' us in
    elim (Bool-cases (u.device_id == device' && kind_of u.message_type == kind_of t')) [
      | inl hit ↦
          let whose : u.device_id ≡ device' = ground arith in
          let kind : kind_of u.message_type ≡ kind_of t' = ground arith in
          rw (test, hit)
            (rw (whose, kind)
              (more_or_same (device' == device && kind_of t' == kind_of t) u.uses
                (used_by device t us)))
      | inr miss ↦
          rw (test, miss)
            (after_rest (u.device_id == device && kind_of u.message_type == kind_of t) u.uses
              (used_by device t us) _ _ rest)
    ]

pub uses_of-add_use :
    (device device' : ℕ) (t t' : SignalingType) (us : List UseCount)
    → uses_of device t (add_use device' t' us)
      ≡ uses_of device t us + one_if (is_same_use device' device t' t)
unfolding uses_of add_use
uses_of-add_use device device' t t' [] =
    let test =
      is_for-kind_of device t (record { device_id = device'; message_type = t'; uses = 1 }) in
    rw test (first_use (device' == device && kind_of t' == kind_of t))
uses_of-add_use device device' t t' (u ∷ us) =
    let test = is_for-kind_of device' t' u in
    let rest = uses_of-add_use device device' t t' us in
    elim (Bool-cases (u.device_id == device' && kind_of u.message_type == kind_of t')) [
      | inl hit ↦
          let whose : u.device_id ≡ device' = ground arith in
          let kind : kind_of u.message_type ≡ kind_of t' = ground arith in
          let test' = is_for-kind_of device t u in
          rw (test, hit)
            (rw test' (
              rw (whose, kind)
                (step_of (device' == device && kind_of t' == kind_of t) u.uses
                  (uses_of device t us))))
      | inr miss ↦
          rw (test, miss)
            (let test'' = is_for-kind_of device t u in
              rw test'' (
                of_rest (u.device_id == device && kind_of u.message_type == kind_of t)
                  (is_same_use device' device t' t) u.uses (uses_of device t us) _ rest
                  (clash u.device_id device device' (kind_of u.message_type) (kind_of t)
                    (kind_of t') miss)))
    ]

used_by-kind :
    (device : ℕ) (t t' : SignalingType) (us : List UseCount)
    → kind_of t ≡ kind_of t'
    → used_by device t' us ≡ used_by device t us
unfolding used_by
used_by-kind device t t' [] e = refl
used_by-kind device t t' (u ∷ us) e = let rest = used_by-kind device t t' us e in rw (e, rest) refl

pub add_use-IsWithin :
    (device : ℕ) (t : SignalingType) (us : List UseCount)
    → uses_of device t us < maximum_uses t
    → IsWithin us
    → IsWithin (add_use device t us)
add_use-IsWithin device t us room within d ty =
    let all = used_by-add_use d device ty t us in
    let first = uses_of-add_use d device ty t us in
    let before = within d ty in
    (
      omega arith,
      (elim (Bool-cases (is_same_use device d t ty)) [
        | inl same ↦
            let more : one_if (is_same_use device d t ty) ≡ 1 = ap one_if same in
            let its_device : device ≡ d = ground arith in
            let its_kind : kind_of t ≡ kind_of ty = ground arith in
            let mine = within device t in
            let most = maximum_uses-allowance t in
            let alike : allowance t ≡ allowance ty =
              allowance-kind_of t ∙ ap allowance_of_kind its_kind ∙ sym (allowance-kind_of ty) in
            let uses : used_by d ty us ≡ used_by device t us =
              ap (λ x. used_by x ty us) (sym its_device) ∙ used_by-kind device t ty us its_kind in
            omega arith
        | inr other ↦
            let more : one_if (is_same_use device d t ty) ≡ 0 = ap one_if other in omega arith
      ]),
    )

-- The part of an entry that account `a` has been charged.
abbrev pub share : (a : ℕ) → SignalingUsage → ℕ
share a u = if u.account_id == a then u.total else 0

-- An entry of transfer `t`, which belongs to account `owner t`.
abbrev pub IsUsage : (owner : ℕ → ℕ) → (t : ℕ) → SignalingUsage → Type 0
IsUsage owner t u =
    (u.account_id ≡ owner t) × (u.total ≤ 128) × (total_uses u.counts ≡ u.total) × IsWithin u.counts

pub usage_or_new-IsUsage :
    (owner : ℕ → ℕ) (now a t : ℕ) (o : Option SignalingUsage)
    → a ≡ owner t
    → Holds (IsUsage owner t) o
    → IsUsage owner t (usage_or_new now a o)
unfolding used_by uses_of total_uses
usage_or_new-IsUsage owner now a t none own h =
    (own, ground arith, refl, λ d ty. (refl, ground arith))
usage_or_new-IsUsage owner now a t (some u) own h = h

pub share-usage_or_new :
    (now a b : ℕ) (o : Option SignalingUsage) → share b (usage_or_new now a o) ≡ weight (share b) o
share-usage_or_new now a b none = ground arith
share-usage_or_new now a b (some u) = refl

total_or_zero-if :
    (c : Bool) (r : ℕ) (o : Option ℕ)
    → total_or_zero (if c then some r else o) ≡ (if c then r else total_or_zero o)
total_or_zero-if true r o = refl
total_or_zero-if false r o = refl

pub total_or_zero-insert :
    (a b n : ℕ) (totals : Dict ℕ)
    → total_or_zero (lookup a (insert b n totals))
      ≡ (if b == a then n else total_or_zero (lookup a totals))
total_or_zero-insert a b n totals =
    ap total_or_zero (lookup-insert a b n totals) ∙ total_or_zero-if (b == a) n (lookup a totals)

total_or_zero-erase :
    (a b : ℕ) (totals : Dict ℕ)
    → IsUnique totals
    → total_or_zero (lookup a (erase b totals))
      ≡ (if b == a then 0 else total_or_zero (lookup a totals))
total_or_zero-erase a b totals u = elim (Bool-cases (b == a)) [
  | inl same ↦
      let gone : lookup a (erase a totals) ≡ none = lookup-erase_self a totals u in
      let key : b ≡ a = ground arith in rw (same, key) (ap total_or_zero gone)
  | inr other ↦ rw other (ap total_or_zero (lookup-erase_ne a b totals (ground arith)))
]

-- What an account is left with when another total, or none, takes the place of its own.
pub total_or_zero-less_total :
    (a b remaining : ℕ) (totals : Dict ℕ)
    → IsUnique totals
    → total_or_zero (lookup a (less_total b remaining totals))
      ≡ (if b == a then remaining else total_or_zero (lookup a totals))
total_or_zero-less_total a b remaining totals u = elim (Bool-cases (ltb 0 remaining)) [
  | inl left ↦ rw left (total_or_zero-insert a b remaining totals)
  | inr none_left ↦
      let empty : 0 ≡ remaining = ground arith in
      rw none_left (
        total_or_zero-erase a b totals u
        ∙ ap (λ r. if b == a then r else total_or_zero (lookup a totals)) empty)
]

pub less_total-IsUnique :
    (b remaining : ℕ) (totals : Dict ℕ) → IsUnique totals → IsUnique (less_total b remaining totals)
less_total-IsUnique b remaining totals u = elim (Bool-cases (ltb 0 remaining)) [
  | inl left ↦ rw left (insert-IsUnique b remaining totals u)
  | inr none_left ↦ rw none_left (erase-IsUnique b totals u)
]
