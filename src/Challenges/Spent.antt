-- ===== src/Challenges/Spent.antt =====
-- How a challenge may change, with its consumptions and failed tries counted.
use self_relay.Base.{
  ℕ, ◌+◌, ◌≤◌, ◌<◌, ◌≡◌, ◌∙◌, refl, false, ◌&&◌, not, Option, none, some, ltb, is_some, arith,
}
use mathlib.Core.Path.{subst}
use self_relay.Records.{DeviceChallengeRecord}
use self_relay.Challenges.Statements.{ChallengeDatabase, is_pending, consumed_now, counted_try}
use self_relay.Base.Counted.{one_if}

-- A consumed record is final.
abbrev pub Frozen : Option ℕ → (c c' : DeviceChallengeRecord) → Type 0
Frozen none c c' = Unit
Frozen (some t) c c' = c' ≡ c

abbrev pub unspent : DeviceChallengeRecord → ℕ
unspent c = one_if (not (is_some c.consumed_at))

-- From `c` to `c'` with `n` consumptions and `f` counted tries between them.
abbrev pub IsSpent : (n f : ℕ) → (c c' : DeviceChallengeRecord) → Type 0
IsSpent n f c c' =
    (n + unspent c' ≤ unspent c)
    × (c'.attempt_count ≡ c.attempt_count + f)
    × (c'.attempt_count ≤ 10)
    × (c'.nonce_hash ≡ c.nonce_hash)
    × (c'.device_id ≡ c.device_id)
    × (c'.expires_at ≡ c.expires_at)
    × Frozen c.consumed_at c c'

Frozen-self : (o : Option ℕ) (c : DeviceChallengeRecord) → Frozen o c c
Frozen-self none c = tt
Frozen-self (some t) c = refl

Frozen-pending : (o : Option ℕ) (c c' : DeviceChallengeRecord) → is_some o ≡ false → Frozen o c c'
Frozen-pending none c c' e = tt
Frozen-pending (some t) c c' e = ground arith

Frozen-trans :
    (o : Option ℕ) (c c' c'' : DeviceChallengeRecord)
    → c.consumed_at ≡ o
    → Frozen o c c'
    → Frozen c'.consumed_at c' c''
    → Frozen o c c''
Frozen-trans none c c' c'' e u v = tt
Frozen-trans (some t) c c' c'' e u v =
    subst (λ z. Frozen z c c'') e (subst (λ z. Frozen z.consumed_at z c'') u v)

pub untouched-IsSpent : (c : DeviceChallengeRecord) → c.attempt_count ≤ 10 → IsSpent 0 0 c c
untouched-IsSpent c few =
    (omega arith, omega arith, few, refl, refl, refl, Frozen-self c.consumed_at c)

pub IsSpent-trans :
    (n f m g : ℕ) (c c' c'' : DeviceChallengeRecord)
    → IsSpent n f c c'
    → IsSpent m g c' c''
    → IsSpent (n + m) (f + g) c c''
IsSpent-trans n f m g c c' c'' u v = (
  omega arith,
  omega arith,
  v.2,
  v.3 ∙ u.3,
  v.4 ∙ u.4,
  v.5 ∙ u.5,
  Frozen-trans c.consumed_at c c' c'' refl u.6 v.6,
)

pub consumed_now-IsSpent :
    (now account_id : ℕ) (db : ChallengeDatabase) (c : DeviceChallengeRecord)
    → c.attempt_count ≤ 10
    → not (is_pending now account_id db c) ≡ false
    → IsSpent 1 0 c (consumed_now now c)
consumed_now-IsSpent now account_id db c few pending =
    let fresh : is_some c.consumed_at ≡ false = ground arith in
    let one : unspent c ≡ 1 = rw fresh refl in
    (
      omega arith,
      omega arith,
      few,
      refl,
      refl,
      refl,
      Frozen-pending c.consumed_at c (consumed_now now c) fresh,
    )

pub counted_try-IsSpent :
    (now account_id : ℕ) (db : ChallengeDatabase) (c : DeviceChallengeRecord)
    → not (ltb c.attempt_count 10 && is_pending now account_id db c) ≡ false
    → IsSpent 0 1 c (counted_try c)
counted_try-IsSpent now account_id db c pending =
    let fresh : is_some c.consumed_at ≡ false = ground arith in
    let few : c.attempt_count < 10 = ground arith in
    (
      omega arith,
      omega arith,
      omega arith,
      refl,
      refl,
      refl,
      Frozen-pending c.consumed_at c (counted_try c) fresh,
    )
