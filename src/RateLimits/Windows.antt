-- ===== src/RateLimits/Windows.antt =====
-- How many calls one window of a bucket lets pass.
use self_relay.Base.{
  ℕ, ◌+◌, ◌≤◌, ◌<◌, ◌≡◌, refl, ap, sym, ◌∙◌, Bool, true, false, ◌&&◌, Option, some, List, [], ◌∷◌,
  ◌⊎◌, inl, inr, leb, ◌==◌, Bool-cases, aware, arith,
}
use self_relay.Base.Dict.{lookup}
use self_relay.RateLimits.Buckets.{
  RateLimitBucketRecord, Buckets, BucketRequest, Consumed, answered, value_error, all_valid,
  consume_many,
}
use self_relay.RateLimits.Charges.{
  bucket_has_room, has_room, names, charged, HasWindow, consume_many-AllOrNothing,
}

-- A call of `consume_many` at a time.
pub record LimitCall : Type 0 where
  pub now : ℕ
  pub first : BucketRequest
  pub others : List BucketRequest

abbrev pub requests_of : LimitCall → List BucketRequest
requests_of c = c.first ∷ c.others

abbrev pub after : LimitCall → Buckets → Buckets
after c t = (consume_many c.now (some (aware c.now)) (c.first ∷ c.others) t).1

unfoldable pub consume_calls : List LimitCall → Buckets → Buckets
consume_calls [] t = t
consume_calls (c ∷ cs) t = consume_calls cs (after c t)

-- The number of calls on the bucket that `consume_many` answered with `true`.
abbrev pub is_allowed : Consumed → Bool
is_allowed value_error = false
is_allowed (answered allowed) = allowed

abbrev pub is_passed : (bucket : ℕ) → LimitCall → Buckets → Bool
is_passed b c t =
    is_allowed (consume_many c.now (some (aware c.now)) (c.first ∷ c.others) t).0
    && names b (requests_of c)

abbrev pub one_if : Bool → ℕ
one_if true = 1
one_if false = 0

unfoldable pub passed : (bucket : ℕ) → List LimitCall → Buckets → ℕ
passed b [] t = 0
passed b (c ∷ cs) t = one_if (is_passed b c t) + passed b cs (after c t)

-- Every request on the bucket carries its limit.
abbrev pub HasLimit : (bucket limit : ℕ) → List BucketRequest → Type 0
HasLimit b limit [] = Unit
HasLimit b limit (r ∷ rs) = (((r.bucket == b) ≡ false) ⊎ (r.limit ≡ limit)) × HasLimit b limit rs

-- A valid call before `until`, with the windows and the bucket's limit that the program has.
abbrev pub IsCall : (window_of : ℕ → ℕ) → (bucket limit until : ℕ) → LimitCall → Type 0
IsCall window_of b limit until c =
    (c.now < until)
    × (all_valid (requests_of c) ≡ true)
    × HasWindow window_of (requests_of c)
    × HasLimit b limit (requests_of c)

abbrev pub AreCalls : (window_of : ℕ → ℕ) → (bucket limit until : ℕ) → List LimitCall → Type 0
AreCalls window_of b limit until [] = Unit
AreCalls window_of b limit until (c ∷ cs) =
    IsCall window_of b limit until c × AreCalls window_of b limit until cs

and-parts : (x y : Bool) → (x && y) ≡ true → (x ≡ true) × (y ≡ true)
and-parts true y e = (refl, e)
and-parts false y e = ground arith

under_limit :
    (now limit : ℕ) (row : RateLimitBucketRecord) (o : Option RateLimitBucketRecord)
    → o ≡ some row
    → bucket_has_room now limit o ≡ true
    → now < row.window_expires_at
    → row.request_count < limit
under_limit now limit row o e free running =
    let free' : bucket_has_room now limit (some row) ≡ true = rw e at free in ground arith

-- A call on the bucket that has room finds the bucket under its limit.
has_room-under :
    (now b limit : ℕ) (row : RateLimitBucketRecord) (t : Buckets) (rs : List BucketRequest)
    → HasLimit b limit rs
    → lookup b t ≡ some row
    → now < row.window_expires_at
    → (has_room now t rs && names b rs) ≡ true
    → row.request_count < limit
unfolding has_room names
has_room-under now b limit row t [] l e running both = ground arith
has_room-under now b limit row t (r ∷ rs) l e running both =
    let parts = and-parts (has_room now t (r ∷ rs)) (names b (r ∷ rs)) both in
    let rooms =
      and-parts (bucket_has_room now r.limit (lookup r.bucket t)) (has_room now t rs) parts.0 in
    elim (Bool-cases (r.bucket == b)) [
      | inl own ↦ elim l.0 [
        | inl other ↦ ground arith
        | inr same ↦
            let key : r.bucket ≡ b = ground arith in
            let under =
              under_limit now r.limit row (lookup r.bucket t) (ap (λ k. lookup k t) key ∙ e) rooms.0
                running in
            omega arith
      ]
      | inr other ↦
          let named : names b rs ≡ true = rw other at parts.1 in
          has_room-under now b limit row t rs l.1 e running (rw (rooms.1, named) refl)
    ]

-- A running window that is charged.
charged-running :
    (now window : ℕ) (row : RateLimitBucketRecord)
    → now < row.window_expires_at
    → charged now window (some row) ≡ (record row { request_count = row.request_count + 1 })
charged-running now window row running =
    let still : leb row.window_expires_at now ≡ false = ground arith in rw still refl

abbrev pub counting : ℕ → RateLimitBucketRecord → RateLimitBucketRecord
counting n row = record row { request_count = row.request_count + n }

is_passed-has_room :
    (window_of : ℕ → ℕ) (b limit until : ℕ) (c : LimitCall) (t : Buckets)
    → IsCall window_of b limit until c
    → is_passed b c t ≡ (has_room c.now t (requests_of c) && names b (requests_of c))
is_passed-has_room window_of b limit until c t call =
    ap (λ o. is_allowed o && names b (requests_of c))
      (consume_many-AllOrNothing c.now c.now window_of c.first c.others t b call.1 call.2).0

after-lookup :
    (window_of : ℕ → ℕ) (b limit : ℕ) (row : RateLimitBucketRecord) (c : LimitCall) (t : Buckets)
    → IsCall window_of b limit row.window_expires_at c
    → lookup b t ≡ some row
    → row.request_count ≤ limit
    → (lookup b (after c t) ≡ some (counting (one_if (is_passed b c t)) row))
      × (row.request_count + one_if (is_passed b c t) ≤ limit)
after-lookup window_of b limit row c t call e few =
    let decision =
      consume_many-AllOrNothing c.now c.now window_of c.first c.others t b call.1 call.2 in
    let answer = is_passed-has_room window_of b limit row.window_expires_at c t call in
    elim (Bool-cases (has_room c.now t (requests_of c) && names b (requests_of c))) [
      | inl hit ↦
          let its =
            ap (λ o. some (charged c.now (window_of b) o)) e
            ∙ ap some (charged-running c.now (window_of b) row call.0) in
          let under = has_room-under c.now b limit row t (requests_of c) call.3 e call.0 hit in
          let found : lookup b (after c t) ≡ some (charged c.now (window_of b) (lookup b t)) =
            decision.1 ∙ (rw hit refl) in
          let one : one_if (is_passed b c t) ≡ 1 = ap one_if (answer ∙ hit) in
          (found ∙ its ∙ ap (λ n. some (counting n row)) (sym one), omega arith)
      | inr miss ↦
          let same : lookup b (after c t) ≡ lookup b t = decision.1 ∙ (rw miss refl) in
          let zero_more : row.request_count ≡ row.request_count + 0 = omega arith in
          let none_more : one_if (is_passed b c t) ≡ 0 = ap one_if (answer ∙ miss) in
          (
            same
                ∙ e
                ∙ ap (λ n. some (record row { request_count = n })) zero_more
                ∙ ap (λ n. some (counting n row)) (sym none_more),
            omega arith,
          )
    ]

-- While a window of a bucket runs, its limit holds over any sequence of calls: the bucket's count grows
-- by exactly the calls on it that `consume_many` answered with `true`, whatever else those calls charge, and neither the window
-- nor its end moves, so that no more of them are answered so than the limit had left. The calls are valid, fall
-- before the window's end, and carry the bucket's limit and the windows of their buckets.
pub consume_calls-passed :
    (window_of : ℕ → ℕ) (b limit : ℕ) (row : RateLimitBucketRecord) (cs : List LimitCall)
    (t : Buckets)
    → AreCalls window_of b limit row.window_expires_at cs
    → lookup b t ≡ some row
    → row.request_count ≤ limit
    → (lookup b (consume_calls cs t) ≡ some (counting (passed b cs t) row))
      × (row.request_count + passed b cs t ≤ limit)
unfolding consume_calls passed
consume_calls-passed window_of b limit row [] t calls e few =
    let zero_more : row.request_count ≡ row.request_count + 0 = omega arith in
    (e ∙ ap (λ n. some (record row { request_count = n })) zero_more, omega arith)
consume_calls-passed window_of b limit row (c ∷ cs) t calls e few =
    let one = after-lookup window_of b limit row c t calls.0 e few in
    let rest =
      consume_calls-passed window_of b limit (counting (one_if (is_passed b c t)) row) cs
        (after c t) calls.1 one.0 one.1 in
    let sum : row.request_count + one_if (is_passed b c t) + passed b cs (after c t)
        ≡ row.request_count + (one_if (is_passed b c t) + passed b cs (after c t)) =
      omega arith in
    (rest.0 ∙ ap (λ n. some (record row { request_count = n })) sum, omega arith)
