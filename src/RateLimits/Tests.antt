-- ===== src/RateLimits/Tests.antt =====
-- Calls on concrete buckets.
use self_relay.Base.{
  ℕ, ◌+◌, ◌≤◌, ◌≡◌, refl, true, ◌&&◌, some, List, [], ◌∷◌, inl, inr, if◌then◌else◌, aware, arith,
}
use self_relay.Base.Dict.{lookup, insert}
use self_relay.RateLimits.Buckets.{
  RateLimitBucketRecord, Buckets, BucketRequest, answered, all_valid, read_states, write_states,
  consume_many,
}
use self_relay.RateLimits.Charges.{has_room, names, charged, consume_many-AllOrNothing}
use self_relay.RateLimits.Windows.{
  LimitCall, AreCalls, consume_calls, passed, counting, consume_calls-passed,
}

abbrev email : BucketRequest
email = record { bucket = 1; scope_length = 9; key_length = 32; limit = 3; window = 600 }

abbrev network : BucketRequest
network = record { bucket = 2; scope_length = 11; key_length = 32; limit = 10; window = 600 }

abbrev window_six_hundred : ℕ → ℕ
window_six_hundred b = 600

abbrev email_row : RateLimitBucketRecord
email_row = record { window_started_at = 100; window_expires_at = 700; request_count = 2 }

abbrev table : Buckets
table = (1, email_row) ∷ []

valid_requests : all_valid (email ∷ network ∷ []) ≡ true
unfolding all_valid
valid_requests = refl

consume_many-AllOrNothing_example :
    ((consume_many 200 (some (aware 200)) (email ∷ network ∷ []) table).0
      ≡ answered (has_room 200 table (email ∷ network ∷ [])))
    × (lookup 2 (consume_many 200 (some (aware 200)) (email ∷ network ∷ []) table).1 ≡ (
        if has_room 200 table (email ∷ network ∷ []) && names 2 (email ∷ network ∷ [])
        then some (charged 200 600 (lookup 2 table))
        else lookup 2 table))
    × ((consume_many 200 (some (aware 200)) (email ∷ network ∷ []) table).1 ≡ (
        if has_room 200 table (email ∷ network ∷ [])
        then (consume_many 200 (some (aware 200)) (email ∷ network ∷ []) table).1
        else table))
consume_many-AllOrNothing_example =
    consume_many-AllOrNothing 200 200 window_six_hundred email (network ∷ []) table 2 valid_requests
      (refl, (refl, tt))

abbrev try_at : ℕ → LimitCall
try_at n = record { now = n; first = email; others = network ∷ [] }

abbrev three_tries : List LimitCall
three_tries = try_at 200 ∷ try_at 201 ∷ try_at 202 ∷ []

-- One more passes, and the other two are refused.
one_passed : passed 1 three_tries table ≡ 1
unfolding passed has_room names consume_many all_valid read_states write_states lookup insert
one_passed = refl

found : lookup 1 table ≡ some email_row
unfolding lookup
found = refl

tries-AreCalls : AreCalls window_six_hundred 1 3 700 three_tries
tries-AreCalls = (
  (ground arith, valid_requests, (refl, (refl, tt)), (inr refl, (inl refl, tt))),
  (
    (ground arith, valid_requests, (refl, (refl, tt)), (inr refl, (inl refl, tt))),
    ((ground arith, valid_requests, (refl, (refl, tt)), (inr refl, (inl refl, tt))), tt),
  ),
)

consume_calls-passed_example :
    (lookup 1 (consume_calls three_tries table)
      ≡ some (counting (passed 1 three_tries table) email_row))
    × (2 + passed 1 three_tries table ≤ 3)
consume_calls-passed_example =
    consume_calls-passed window_six_hundred 1 3 email_row three_tries table tries-AreCalls found
      (ground arith)
