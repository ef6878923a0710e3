-- ===== src/Linking/Single.antt =====
-- A code is redeemed at most once, and tried at most ten times.
use self_relay.Base.{
  ℕ, ◌+◌, ◌≤◌, ◌≡◌, refl, ap, sym, ◌∙◌, Bool, true, false, ◌&&◌, Option, none, some, List, [], ◌∷◌,
  ◌==◌, coalesce, inl, inr, Bool-cases, Option-cases, arith,
}
use mathlib.Core.Path.{subst}
use self_relay.Base.Dict.{Dict, lookup, insert}
use self_relay.Records.{DeviceRecord, DeviceLinkingOtpRecord}
use self_relay.Base.Rows.{write_row, update_row}
use self_relay.Linking.Codes.{
  LinkingDatabase, Redemption, may_consume, consumed_now, linked_device, current_account,
  insert_device, consume_and_register,
}
use self_relay.Linking.Uses.{
  LinkingStep, creates, fails, redeems, one_if, is_registered, step, redeemed_by, failed_by, steps,
  redemptions, failures, IsUsed, IsUsedAt, consumed_now-IsUsed,
}
use self_relay.Linking.Writes.{
  same-IsUsedAt, other-IsUsedAt, own-IsUsedAt, creates-IsUsedAt, fails-IsUsedAt,
}

module _ (admits : DeviceRecord → Dict DeviceRecord → Bool) where
  insert_device-IsUsedAt :
      (b now : ℕ) (o : DeviceLinkingOtpRecord) (q : Redemption) (db : LinkingDatabase)
      (x : DeviceLinkingOtpRecord)
      → lookup b db.otps ≡ some o
      → o.attempt_count ≤ 10
      → IsUsedAt (one_if (q.otp_id == b)) 0 o (lookup b (insert q.otp_id x db.otps))
      → IsUsedAt
          (one_if (
            q.otp_id == b
            && is_registered (insert_device admits now q db (insert q.otp_id x db.otps)).0))
          0
          o
          (lookup b (insert_device admits now q db (insert q.otp_id x db.otps)).1.otps)
  insert_device-IsUsedAt b now o q db x e few used =
      elim (Bool-cases (
        current_account q.epoch (lookup q.account_id db.accounts)
        && admits (linked_device now q) db.devices)) [
          | inl admitted ↦ elim (Bool-cases (q.otp_id == b)) [
            | inl hit ↦ rw (admitted, hit) (rw hit at used)
            | inr miss ↦ rw (admitted, miss) (rw miss at used)
          ]
          | inr barred ↦ elim (Bool-cases (q.otp_id == b)) [
            | inl hit ↦ rw (barred, hit) (same-IsUsedAt b o db.otps db.otps e few refl)
            | inr miss ↦ rw (barred, miss) (same-IsUsedAt b o db.otps db.otps e few refl)
          ]
        ]

  not_redeemed :
      (b k : ℕ) (o : DeviceLinkingOtpRecord) (t : Dict DeviceLinkingOtpRecord)
      → lookup b t ≡ some o
      → o.attempt_count ≤ 10
      → IsUsedAt (one_if (k == b && false)) 0 o (lookup b t)
  not_redeemed b k o t e few = elim (Bool-cases (k == b)) [
    | inl hit ↦ rw hit (same-IsUsedAt b o t t e few refl)
    | inr miss ↦ rw miss (same-IsUsedAt b o t t e few refl)
  ]

  redeems-IsUsedAt :
      (b now : ℕ) (q : Redemption) (o : DeviceLinkingOtpRecord) (db : LinkingDatabase)
      → lookup b db.otps ≡ some o
      → o.attempt_count ≤ 10
      → IsUsedAt
          (one_if (q.otp_id == b && is_registered (consume_and_register admits now q db).0))
          0
          o
          (lookup b (consume_and_register admits now q db).1.otps)
  unfolding consume_and_register update_row
  redeems-IsUsedAt b now q o db e few = elim (Option-cases (lookup q.otp_id db.otps)) [
    | inl gone ↦ rw (gone, write_row) (not_redeemed b q.otp_id o db.otps e few)
    | inr (x, there) ↦ elim (Bool-cases (may_consume now db q x)) [
      | inl may ↦
          rw (there, write_row)
            (rw may (
              insert_device-IsUsedAt b now o q db (consumed_now now x) e few
                (written b now q o x db e few there may)))
      | inr barred ↦ rw (there, write_row) (rw barred (not_redeemed b q.otp_id o db.otps e few))
    ]
  ]
    where
      written :
          (b now : ℕ) (q : Redemption) (o x : DeviceLinkingOtpRecord) (db : LinkingDatabase)
          → lookup b db.otps ≡ some o
          → o.attempt_count ≤ 10
          → lookup q.otp_id db.otps ≡ some x
          → may_consume now db q x ≡ true
          → IsUsedAt
              (one_if (q.otp_id == b))
              0
              o
              (lookup b (insert q.otp_id (consumed_now now x) db.otps))
      written b now q o x db e few there may = elim (Bool-cases (q.otp_id == b)) [
        | inl hit ↦
            let key : q.otp_id ≡ b = ground arith in
            let same : x ≡ o =
              ap (λ z. coalesce z o) (sym there ∙ ap (λ i. lookup i db.otps) key ∙ e) in
            let tries = ap (λ z. z.attempt_count) same in
            let used : IsUsed 1 0 o (consumed_now now x) =
              subst (λ y. IsUsed 1 0 y (consumed_now now x)) same
                (consumed_now-IsUsed now db q x may (omega arith)) in
            rw hit (own-IsUsedAt 1 0 b q.otp_id o (consumed_now now x) db.otps hit used)
        | inr miss ↦ rw miss (other-IsUsedAt b q.otp_id o (consumed_now now x) db.otps miss e few)
      ]

  step-IsUsedAt :
      (b : ℕ) (s : LinkingStep) (o : DeviceLinkingOtpRecord) (db : LinkingDatabase)
      → lookup b db.otps ≡ some o
      → o.attempt_count ≤ 10
      → IsUsedAt
          (redeemed_by admits b s db)
          (failed_by admits b s db)
          o
          (lookup b (step admits s db).otps)
  step-IsUsedAt b (creates now id account_id issuing h expires_at) o db e few =
      creates-IsUsedAt b now id account_id issuing h expires_at o db e few
  step-IsUsedAt b (fails now k) o db e few = fails-IsUsedAt b now k o db e few
  step-IsUsedAt b (redeems now q) o db e few = redeems-IsUsedAt b now q o db e few

  IsUsedAt-trans :
      (n f m g : ℕ) (o o' : DeviceLinkingOtpRecord) (r : Option DeviceLinkingOtpRecord)
      → IsUsed n f o o'
      → IsUsedAt m g o' r
      → IsUsedAt (n + m) (f + g) o r
  IsUsedAt-trans n f m g o o' none u v = v
  IsUsedAt-trans n f m g o o' (some r) u v =
      (omega arith, omega arith, v.2, v.3 ∙ u.3, v.4 ∙ u.4, v.5 ∙ u.5, v.6 ∙ u.6)

  IsUsedAt-then :
      (n f m g : ℕ) (o : DeviceLinkingOtpRecord) (r r' : Option DeviceLinkingOtpRecord)
      → IsUsedAt n f o r
      → ((o' : DeviceLinkingOtpRecord) → r ≡ some o' → o'.attempt_count ≤ 10 → IsUsedAt m g o' r')
      → IsUsedAt (n + m) (f + g) o r'
  IsUsedAt-then n f m g o none r' u next = ground arith
  IsUsedAt-then n f m g o (some o') r' u next = IsUsedAt-trans n f m g o o' r' u (next o' refl u.2)

  -- A code lives through any sequence of statements by any callers, and its record says how it was used:
  -- every failed try is counted, up to 10 in all, a redemption takes away the only life that an open code
  -- with fewer than 10 tries has, and the hash, the owner, the issuer and the deadline never change. So
  -- it registers at most one device, and none once it is consumed, expired or out of tries. Whether the
  -- constraints on devices admit a new one is `admits`, any function.
  pub steps-IsUsedAt :
      (b : ℕ) (ss : List LinkingStep) (o : DeviceLinkingOtpRecord) (db : LinkingDatabase)
      → lookup b db.otps ≡ some o
      → o.attempt_count ≤ 10
      → IsUsedAt
          (redemptions admits b ss db)
          (failures admits b ss db)
          o
          (lookup b (steps admits ss db).otps)
  unfolding steps redemptions failures
  steps-IsUsedAt b [] o db e few = same-IsUsedAt b o db.otps db.otps e few refl
  steps-IsUsedAt b (s ∷ ss) o db e few =
      IsUsedAt-then (redeemed_by admits b s db) (failed_by admits b s db)
        (redemptions admits b ss (step admits s db)) (failures admits b ss (step admits s db)) o
        (lookup b (step admits s db).otps) (lookup b (steps admits ss (step admits s db)).otps)
        (step-IsUsedAt b s o db e few) (λ o' e'. steps-IsUsedAt b ss o' (step admits s db) e')
