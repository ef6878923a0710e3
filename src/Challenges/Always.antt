-- ===== src/Challenges/Always.antt =====
-- The life of a challenge over any sequence of statements.
use self_relay.Base.{ℕ, ◌+◌, ◌≤◌, ◌≡◌, refl, Option, none, some, List, [], ◌∷◌, arith}
use self_relay.Base.Dict.{lookup}
use self_relay.Records.{DeviceChallengeRecord}
use self_relay.Challenges.Statements.{ChallengeDatabase, consume_by_nonce_hash, key_of_nonce}
use self_relay.Challenges.Spent.{IsSpent, IsSpent-trans}
use self_relay.Challenges.Once.{
  ChallengeStep, creates, consumes, fails, consumes_nonce, step, consumed_by, failed_by, steps,
  consumptions, failures, IsSpentAt, consume-IsSpentAt, fails-IsSpentAt, consume_key-IsSpentAt,
  creates-IsSpentAt, same-IsSpentAt,
}

step-IsSpentAt :
    (b : ℕ) (s : ChallengeStep) (c : DeviceChallengeRecord) (db : ChallengeDatabase)
    → lookup b db.challenges ≡ some c
    → c.attempt_count ≤ 10
    → IsSpentAt (consumed_by b s db) (failed_by b s db) c (lookup b (step s db).challenges)
unfolding consume_by_nonce_hash
step-IsSpentAt b (creates now id account_id device h origin expires_at) c db e few =
    creates-IsSpentAt b now id account_id device h origin expires_at c db e few
step-IsSpentAt b (consumes now account_id id) c db e few =
    consume-IsSpentAt b now account_id id c db e few
step-IsSpentAt b (fails now account_id id) c db e few =
    fails-IsSpentAt b now account_id id c db e few
step-IsSpentAt b (consumes_nonce now account_id h) c db e few =
    consume_key-IsSpentAt b now account_id (key_of_nonce h db.challenges) c db e few

extend :
    (n f m g : ℕ) (c c' : DeviceChallengeRecord) (r : Option DeviceChallengeRecord)
    → IsSpent n f c c'
    → IsSpentAt m g c' r
    → IsSpentAt (n + m) (f + g) c r
extend n f m g c c' none u v = v
extend n f m g c c' (some c'') u v = IsSpent-trans n f m g c c' c'' u v

IsSpentAt-then :
    (n f m g : ℕ) (c : DeviceChallengeRecord) (r r' : Option DeviceChallengeRecord)
    → IsSpentAt n f c r
    → ((c' : DeviceChallengeRecord) → r ≡ some c' → c'.attempt_count ≤ 10 → IsSpentAt m g c' r')
    → IsSpentAt (n + m) (f + g) c r'
IsSpentAt-then n f m g c none r' u next = ground arith
IsSpentAt-then n f m g c (some c') r' u next = extend n f m g c c' r' u (next c' refl u.2)

-- A challenge lives through any sequence of statements by any callers, by its identifier or by its
-- nonce: together they return it consumed at most once, and not at all if it is consumed before them,
-- in which case its record stays exactly as it is. Each counted failed try adds one to its count, which
-- stays at most 10, and its nonce, its device and its deadline never change.
pub steps-IsSpentAt :
    (b : ℕ) (ss : List ChallengeStep) (c : DeviceChallengeRecord) (db : ChallengeDatabase)
    → lookup b db.challenges ≡ some c
    → c.attempt_count ≤ 10
    → IsSpentAt (consumptions b ss db) (failures b ss db) c (lookup b (steps ss db).challenges)
unfolding steps consumptions failures
steps-IsSpentAt b [] c db e few = same-IsSpentAt b c db.challenges e few
steps-IsSpentAt b (s ∷ ss) c db e few =
    IsSpentAt-then (consumed_by b s db) (failed_by b s db) (consumptions b ss (step s db))
      (failures b ss (step s db)) c (lookup b (step s db).challenges)
      (lookup b (steps ss (step s db)).challenges) (step-IsSpentAt b s c db e few)
      (λ c' e'. steps-IsSpentAt b ss c' (step s db) e')
