-- ===== src/Challenges/Once.antt =====
-- A challenge is consumed at most once, and its record is final from then on.
use self_relay.Base.{
  ℕ, ◌+◌, ◌≤◌, ◌≡◌, ap, ◌∙◌, sym, Bool, true, false, ◌&&◌, ◌||◌, not, Option, none, some, List, [],
  ◌∷◌, String, ◌==◌, ltb, is_some, inl, inr, Bool-cases, arith,
}
use mathlib.Core.Path.{subst}
use self_relay.Base.Dict.{Dict, lookup}
use self_relay.Records.{DeviceChallengeRecord}
use self_relay.Challenges.Statements.{
  ChallengeDatabase, current_device_of, key_of_nonce, new_challenge, create, is_pending,
  consumed_now, consume, consume_key, consume_by_nonce_hash, counted_try, mark_failed,
}
use self_relay.Base.Counted.{one_if, Counted, Counted-insert_other, Counted-update_row}
use self_relay.Challenges.Spent.{
  IsSpent, untouched-IsSpent, consumed_now-IsSpent, counted_try-IsSpent,
}

-- A statement that changes challenges.
pub data ChallengeStep : Type 0 where
  creates :
      (now id account_id device_id nonce_hash : ℕ) (origin : String) (expires_at : ℕ)
      → ChallengeStep
  consumes fails : (now account_id challenge_id : ℕ) → ChallengeStep
  consumes_nonce : (now account_id nonce_hash : ℕ) → ChallengeStep

abbrev pub step : ChallengeStep → ChallengeDatabase → ChallengeDatabase
step (creates now id account_id device h origin expires_at) db =
    (create now id account_id device h origin expires_at db).1
step (consumes now account_id id) db = (consume now account_id id db).1
step (fails now account_id id) db = (mark_failed now account_id id db).1
step (consumes_nonce now account_id h) db = (consume_by_nonce_hash now account_id h db).1

abbrev pub is_row : (b : ℕ) → Option ℕ → Bool
is_row b none = false
is_row b (some k) = k == b

-- Whether a step returns the challenge consumed, or counts a failed try of it.
abbrev pub consumed_by : (b : ℕ) → ChallengeStep → ChallengeDatabase → ℕ
consumed_by b (consumes now account_id id) db =
    one_if (id == b && is_some (consume now account_id id db).0)
consumed_by b (consumes_nonce now account_id h) db = one_if (
    is_row b (key_of_nonce h db.challenges)
    && is_some (consume_by_nonce_hash now account_id h db).0)
consumed_by b _ db = 0

abbrev pub failed_by : (b : ℕ) → ChallengeStep → ChallengeDatabase → ℕ
failed_by b (fails now account_id id) db =
    one_if (id == b && is_some (mark_failed now account_id id db).0)
failed_by b _ db = 0

unfoldable pub steps : List ChallengeStep → ChallengeDatabase → ChallengeDatabase
steps [] db = db
steps (s ∷ ss) db = steps ss (step s db)

unfoldable pub consumptions : (b : ℕ) → List ChallengeStep → ChallengeDatabase → ℕ
consumptions b [] db = 0
consumptions b (s ∷ ss) db = consumed_by b s db + consumptions b ss (step s db)

unfoldable pub failures : (b : ℕ) → List ChallengeStep → ChallengeDatabase → ℕ
failures b [] db = 0
failures b (s ∷ ss) db = failed_by b s db + failures b ss (step s db)

and_right : (x y : Bool) → (x && y) ≡ true → y ≡ true
and_right true y e = e
and_right false y e = ground arith

-- A key that is free is another one.
free_key :
    (b k : ℕ) (c : DeviceChallengeRecord) (taken : Bool) (t : Dict DeviceChallengeRecord)
    → lookup b t ≡ some c
    → not (is_some (lookup k t) || taken) ≡ true
    → k == b ≡ false
free_key b k c taken t e free = elim (Bool-cases (k == b)) [
  | inl hit ↦
      let key : k ≡ b = ground arith in
      let here : lookup k t ≡ some c = ap (λ i. lookup i t) key ∙ e in
      let absurd : not (is_some (some c) || taken) ≡ true = rw here at free in ground arith
  | inr miss ↦ miss
]

-- The challenge is there and used in this way.
abbrev pub IsSpentAt : (n f : ℕ) → DeviceChallengeRecord → Option DeviceChallengeRecord → Type 0
IsSpentAt n f c none = ⊥
IsSpentAt n f c (some c') = IsSpent n f c c'

consumptions_at :
    (n : ℕ) (c : DeviceChallengeRecord) (o : Option DeviceChallengeRecord)
    → Counted (λ n. IsSpent n 0) n c o
    → IsSpentAt n 0 c o
consumptions_at n c none u = u
consumptions_at n c (some c') u = u

tries_at :
    (f : ℕ) (c : DeviceChallengeRecord) (o : Option DeviceChallengeRecord)
    → Counted (IsSpent 0) f c o
    → IsSpentAt 0 f c o
tries_at f c none u = u
tries_at f c (some c') u = u

pub consume-IsSpentAt :
    (b now account_id k : ℕ) (c : DeviceChallengeRecord) (db : ChallengeDatabase)
    → lookup b db.challenges ≡ some c
    → c.attempt_count ≤ 10
    → IsSpentAt
        (one_if (k == b && is_some (consume now account_id k db).0))
        0
        c
        (lookup b (consume now account_id k db).1.challenges)
unfolding consume
consume-IsSpentAt b now account_id k c db e few = consumptions_at _ c _ (
    Counted-update_row (λ n. IsSpent n 0) (λ x. not (is_pending now account_id db x))
      (consumed_now now) b k c db.challenges (untouched-IsSpent c few)
      (consumed_now-IsSpent now account_id db c few) e)

pub fails-IsSpentAt :
    (b now account_id k : ℕ) (c : DeviceChallengeRecord) (db : ChallengeDatabase)
    → lookup b db.challenges ≡ some c
    → c.attempt_count ≤ 10
    → IsSpentAt 0
        (one_if (k == b && is_some (mark_failed now account_id k db).0))
        c
        (lookup b (mark_failed now account_id k db).1.challenges)
unfolding mark_failed
fails-IsSpentAt b now account_id k c db e few = tries_at _ c _ (
    Counted-update_row (IsSpent 0)
      (λ x. not (ltb x.attempt_count 10 && is_pending now account_id db x)) counted_try b k c
      db.challenges (untouched-IsSpent c few) (counted_try-IsSpent now account_id db c) e)

pub same-IsSpentAt :
    (b : ℕ) (c : DeviceChallengeRecord) (t : Dict DeviceChallengeRecord)
    → lookup b t ≡ some c
    → c.attempt_count ≤ 10
    → IsSpentAt 0 0 c (lookup b t)
same-IsSpentAt b c t e few = subst (IsSpentAt 0 0 c) (sym e) (untouched-IsSpent c few)

pub consume_key-IsSpentAt :
    (b now account_id : ℕ) (o : Option ℕ) (c : DeviceChallengeRecord) (db : ChallengeDatabase)
    → lookup b db.challenges ≡ some c
    → c.attempt_count ≤ 10
    → IsSpentAt
        (one_if (is_row b o && is_some (consume_key now account_id o db).0))
        0
        c
        (lookup b (consume_key now account_id o db).1.challenges)
consume_key-IsSpentAt b now account_id none c db e few = same-IsSpentAt b c db.challenges e few
consume_key-IsSpentAt b now account_id (some k) c db e few =
    consume-IsSpentAt b now account_id k c db e few

pub creates-IsSpentAt :
    (b now id account_id device h : ℕ) (origin : String) (expires_at : ℕ)
    (c : DeviceChallengeRecord) (db : ChallengeDatabase)
    → lookup b db.challenges ≡ some c
    → c.attempt_count ≤ 10
    → IsSpentAt 0 0 c
        (lookup b (create now id account_id device h origin expires_at db).1.challenges)
unfolding create
creates-IsSpentAt b now id account_id device h origin expires_at c db e few =
    elim (Bool-cases (
      current_device_of account_id (lookup account_id db.accounts) (lookup device db.devices)
      && not (is_some (lookup id db.challenges) || is_some (key_of_nonce h db.challenges)))) [
        | inl free ↦ rw free (
            consumptions_at 0 c _ (
              Counted-insert_other (λ n. IsSpent n 0) b id c
                (new_challenge now id device h origin expires_at) db.challenges
                (untouched-IsSpent c few) e
                (free_key b id c (is_some (key_of_nonce h db.challenges)) db.challenges e (
                  and_right
                    (current_device_of account_id (lookup account_id db.accounts)
                      (lookup device db.devices))
                    (not
                      (is_some (lookup id db.challenges) || is_some (key_of_nonce h db.challenges)))
                    free))))
        | inr taken ↦ rw taken (same-IsSpentAt b c db.challenges e few)
      ]
