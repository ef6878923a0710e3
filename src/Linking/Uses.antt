-- ===== src/Linking/Uses.antt =====
-- How often one linking code can be redeemed and tried.
use self_relay.Base.{
  ℕ, ◌+◌, ◌≤◌, ◌<◌, ◌≡◌, refl, Bool, true, false, ◌&&◌, Option, none, some, List, [], ◌∷◌, ◌==◌,
  ltb, is_some, arith,
}
use self_relay.Base.Dict.{Dict}
use self_relay.Records.{DeviceRecord, DeviceLinkingOtpRecord}
use self_relay.Linking.Codes.{
  LinkingDatabase, is_open, create, may_fail, failed_once, mark_failed, Redemption, Redeemed,
  registered, may_consume, consumed_now, consume_and_register,
}

-- A statement that changes codes.
pub data LinkingStep : Type 0 where
  creates : (now id account_id issuing_device_id otp_hash expires_at : ℕ) → LinkingStep
  fails : (now otp_id : ℕ) → LinkingStep
  redeems : (now : ℕ) (q : Redemption) → LinkingStep

abbrev pub one_if : Bool → ℕ
one_if true = 1
one_if false = 0

abbrev pub is_registered : Redeemed → Bool
is_registered (registered d) = true
is_registered _ = false

module _ (admits : DeviceRecord → Dict DeviceRecord → Bool) where
  abbrev pub step : LinkingStep → LinkingDatabase → LinkingDatabase
  step (creates now id account_id issuing h expires_at) db =
      (create now id account_id issuing h expires_at db).1
  step (fails now otp_id) db = (mark_failed now otp_id db).1
  step (redeems now q) db = (consume_and_register admits now q db).1

  -- Whether a step redeems the code, or counts a failed try of it.
  abbrev pub redeemed_by : (otp_id : ℕ) → LinkingStep → LinkingDatabase → ℕ
  redeemed_by b (redeems now q) db =
      one_if (q.otp_id == b && is_registered (consume_and_register admits now q db).0)
  redeemed_by b _ db = 0

  abbrev pub failed_by : (otp_id : ℕ) → LinkingStep → LinkingDatabase → ℕ
  failed_by b (fails now otp_id) db = one_if (otp_id == b && is_some (mark_failed now otp_id db).0)
  failed_by b _ db = 0

  unfoldable pub steps : List LinkingStep → LinkingDatabase → LinkingDatabase
  steps [] db = db
  steps (s ∷ ss) db = steps ss (step s db)

  unfoldable pub redemptions : (otp_id : ℕ) → List LinkingStep → LinkingDatabase → ℕ
  redemptions b [] db = 0
  redemptions b (s ∷ ss) db = redeemed_by b s db + redemptions b ss (step s db)

  unfoldable pub failures : (otp_id : ℕ) → List LinkingStep → LinkingDatabase → ℕ
  failures b [] db = 0
  failures b (s ∷ ss) db = failed_by b s db + failures b ss (step s db)

-- A code that can still be redeemed, but for its deadline.
abbrev pub live : DeviceLinkingOtpRecord → ℕ
live o = one_if (is_open o.status && ltb o.attempt_count 10)

-- From `o` to `o'` with `n` redemptions and `f` failed tries between them: a redemption takes the code's
-- one life, and each failed try is counted.
abbrev pub IsUsed : (n f : ℕ) → (o o' : DeviceLinkingOtpRecord) → Type 0
IsUsed n f o o' =
    (n + live o' ≤ live o)
    × (o'.attempt_count ≡ o.attempt_count + f)
    × (o'.attempt_count ≤ 10)
    × (o'.otp_hash ≡ o.otp_hash)
    × (o'.user_id ≡ o.user_id)
    × (o'.issuing_device_id ≡ o.issuing_device_id)
    × (o'.expires_at ≡ o.expires_at)

-- The code is there and used in this way.
abbrev pub IsUsedAt : (n f : ℕ) → DeviceLinkingOtpRecord → Option DeviceLinkingOtpRecord → Type 0
IsUsedAt n f o none = ⊥
IsUsedAt n f o (some o') = IsUsed n f o o'

pub unused-IsUsed : (o : DeviceLinkingOtpRecord) → o.attempt_count ≤ 10 → IsUsed 0 0 o o
unused-IsUsed o few = (omega arith, omega arith, few, refl, refl, refl, refl)

one_if_le : (x : Bool) → one_if x ≤ 1
one_if_le true = ground arith
one_if_le false = ground arith

pub failed_once-IsUsed :
    (now : ℕ) (o : DeviceLinkingOtpRecord) → may_fail now o ≡ true → IsUsed 0 1 o (failed_once o)
failed_once-IsUsed now o may =
    let alive : live o ≡ 1 = ground arith in
    let left = one_if_le (is_open (failed_once o).status && ltb (failed_once o).attempt_count 10) in
    let few : o.attempt_count < 10 = ground arith in
    (omega arith, omega arith, omega arith, refl, refl, refl, refl)

pub consumed_now-IsUsed :
    (now : ℕ) (db : LinkingDatabase) (q : Redemption) (o : DeviceLinkingOtpRecord)
    → may_consume now db q o ≡ true
    → o.attempt_count ≤ 10
    → IsUsed 1 0 o (consumed_now now o)
consumed_now-IsUsed now db q o may few =
    let alive : live o ≡ 1 = ground arith in (omega arith, omega arith, few, refl, refl, refl, refl)
