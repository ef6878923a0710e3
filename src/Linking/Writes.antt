-- ===== src/Linking/Writes.antt =====
-- What a statement on linking codes does to one of them.
use self_relay.Base.{
  ℕ, ◌≤◌, ◌≡◌, refl, ap, sym, ◌∙◌, Bool, true, false, ◌&&◌, ◌||◌, not, some, ◌==◌, is_some, inl,
  inr, Bool-cases, Option-cases, arith,
}
use mathlib.Core.Path.{subst}
use self_relay.Base.Dict.{Dict, lookup, insert, lookup-insert}
use self_relay.Records.{DeviceLinkingOtpRecord}
use self_relay.Base.Rows.{write_row, update_row}
use self_relay.Linking.Codes.{
  LinkingDatabase, issuer_of_account, hash_taken, new_otp, create, may_fail, failed_once,
  mark_failed,
}
use self_relay.Linking.Uses.{one_if, IsUsed, IsUsedAt, unused-IsUsed, failed_once-IsUsed}

pub same-IsUsedAt :
    (b : ℕ) (o : DeviceLinkingOtpRecord) (t t' : Dict DeviceLinkingOtpRecord)
    → lookup b t ≡ some o
    → o.attempt_count ≤ 10
    → lookup b t' ≡ lookup b t
    → IsUsedAt 0 0 o (lookup b t')
same-IsUsedAt b o t t' e few same = subst (IsUsedAt 0 0 o) (sym (same ∙ e)) (unused-IsUsed o few)

-- A write at another code, or at this one.
pub other-IsUsedAt :
    (b k : ℕ) (o x : DeviceLinkingOtpRecord) (t : Dict DeviceLinkingOtpRecord)
    → k == b ≡ false
    → lookup b t ≡ some o
    → o.attempt_count ≤ 10
    → IsUsedAt 0 0 o (lookup b (insert k x t))
other-IsUsedAt b k o x t miss e few =
    same-IsUsedAt b o t (insert k x t) e few (lookup-insert b k x t ∙ (rw miss refl))

pub own-IsUsedAt :
    (n f b k : ℕ) (o x : DeviceLinkingOtpRecord) (t : Dict DeviceLinkingOtpRecord)
    → k == b ≡ true
    → IsUsed n f o x
    → IsUsedAt n f o (lookup b (insert k x t))
own-IsUsedAt n f b k o x t hit used =
    let written : lookup b (insert k x t) ≡ some x = lookup-insert b k x t ∙ (rw hit refl) in
    subst (IsUsedAt n f o) (sym written) used

and_right : (x y : Bool) → (x && y) ≡ true → y ≡ true
and_right true y e = e
and_right false y e = ground arith

-- A key that is free is another one.
free_key :
    (b k : ℕ) (o : DeviceLinkingOtpRecord) (taken : Bool) (t : Dict DeviceLinkingOtpRecord)
    → lookup b t ≡ some o
    → not (is_some (lookup k t) || taken) ≡ true
    → k == b ≡ false
free_key b k o taken t e free = elim (Bool-cases (k == b)) [
  | inl hit ↦
      let key : k ≡ b = ground arith in
      let here : lookup k t ≡ some o = ap (λ i. lookup i t) key ∙ e in
      let absurd : not (is_some (some o) || taken) ≡ true = rw here at free in ground arith
  | inr miss ↦ miss
]

pub creates-IsUsedAt :
    (b now id account_id issuing h expires_at : ℕ) (o : DeviceLinkingOtpRecord)
    (db : LinkingDatabase)
    → lookup b db.otps ≡ some o
    → o.attempt_count ≤ 10
    → IsUsedAt 0 0 o (lookup b (create now id account_id issuing h expires_at db).1.otps)
unfolding create
creates-IsUsedAt b now id account_id issuing h expires_at o db e few =
    elim (Bool-cases (
      issuer_of_account db account_id issuing (lookup account_id db.accounts)
      && not (is_some (lookup id db.otps) || hash_taken h db.otps))) [
        | inl free ↦ rw free (
            other-IsUsedAt b id o (new_otp now id account_id issuing h expires_at) db.otps
              (free_key b id o (hash_taken h db.otps) db.otps e (
                and_right (issuer_of_account db account_id issuing (lookup account_id db.accounts))
                  (not (is_some (lookup id db.otps) || hash_taken h db.otps)) free))
              e few)
        | inr taken ↦ rw taken (same-IsUsedAt b o db.otps db.otps e few refl)
      ]

pub fails-IsUsedAt :
    (b now k : ℕ) (o : DeviceLinkingOtpRecord) (db : LinkingDatabase)
    → lookup b db.otps ≡ some o
    → o.attempt_count ≤ 10
    → IsUsedAt 0
        (one_if (k == b && is_some (mark_failed now k db).0))
        o
        (lookup b (mark_failed now k db).1.otps)
unfolding mark_failed update_row
fails-IsUsedAt b now k o db e few = elim (Bool-cases (k == b)) [
  | inl hit ↦
      let key : k ≡ b = ground arith in
      let here : lookup k db.otps ≡ some o = ap (λ i. lookup i db.otps) key ∙ e in
      elim (Bool-cases (may_fail now o)) [
        | inl may ↦
            rw (hit, here, write_row)
              (rw may
                (own-IsUsedAt 0 1 b k o (failed_once o) db.otps hit (failed_once-IsUsed now o may)))
        | inr late ↦
            rw (hit, here, write_row) (rw late (same-IsUsedAt b o db.otps db.otps e few refl))
      ]
  | inr miss ↦ elim (Option-cases (lookup k db.otps)) [
    | inl gone ↦ rw (miss, gone, write_row) (same-IsUsedAt b o db.otps db.otps e few refl)
    | inr (x, there) ↦ elim (Bool-cases (may_fail now x)) [
      | inl may ↦
          rw (miss, there, write_row)
            (rw may (other-IsUsedAt b k o (failed_once x) db.otps miss e few))
      | inr late ↦
          rw (miss, there, write_row) (rw late (same-IsUsedAt b o db.otps db.otps e few refl))
    ]
  ]
]
