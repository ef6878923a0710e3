-- ===== src/RateLimits/Charges.antt =====
-- What a call of `consume_many` decides and does to each bucket.
use self_relay.Base.{
  ℕ, ◌+◌, ◌≡◌, refl, ap, sym, ◌∙◌, Bool, true, false, ◌&&◌, ◌||◌, not, Option, none, some, List, [],
  ◌∷◌, ◌⊎◌, inl, inr, leb, ◌==◌, ltb, if◌then◌else◌, Bool-cases, aware, arith,
}
use mathlib.Core.Path.{subst}
use self_relay.Base.Dict.{lookup, insert, lookup-insert, lookup-insert_self}
use self_relay.RateLimits.Buckets.{
  RateLimitBucketRecord, Buckets, BucketRequest, BucketState, Consumed, answered, all_valid,
  is_full, read_state, read_states, set_count, write_window, write_states, consume_at, consume_many,
}

-- A bucket has capacity: it has no row, its window is over, or its count is below the limit.
abbrev pub bucket_has_room : (now limit : ℕ) → Option RateLimitBucketRecord → Bool
bucket_has_room now limit none = true
bucket_has_room now limit (some row) = leb row.window_expires_at now || ltb row.request_count limit

bucket_has_room-is_full :
    (now limit : ℕ) (o : Option RateLimitBucketRecord)
    → bucket_has_room now limit o ≡ not (is_full now limit o)
bucket_has_room-is_full now limit none = refl
bucket_has_room-is_full now limit (some row) = ground arith

-- Every requested bucket has capacity.
unfoldable pub has_room : (now : ℕ) → Buckets → List BucketRequest → Bool
has_room now t [] = true
has_room now t (r ∷ rs) = bucket_has_room now r.limit (lookup r.bucket t) && has_room now t rs

unfoldable pub names : (bucket : ℕ) → List BucketRequest → Bool
names b [] = false
names b (r ∷ rs) = r.bucket == b || names b rs

-- A bucket that is charged once: one more request in its window, or the first of a new one.
abbrev pub charged : (now window : ℕ) → Option RateLimitBucketRecord → RateLimitBucketRecord
charged now window none = record {
  window_started_at = now;
  window_expires_at = now + window;
  request_count = 1;
}
charged now window (some row) =
    if leb row.window_expires_at now
    then record { window_started_at = now; window_expires_at = now + window; request_count = 1 }
    else (record row { request_count = row.request_count + 1 })

-- The bucket's requests have one window length, as a scope of the program has.
abbrev pub HasWindow : (window_of : ℕ → ℕ) → List BucketRequest → Type 0
HasWindow window_of [] = Unit
HasWindow window_of (r ∷ rs) = (r.window ≡ window_of r.bucket) × HasWindow window_of rs

unfoldable states_of : Buckets → List BucketRequest → List BucketState
states_of t [] = []
states_of t (r ∷ rs) = read_state r (lookup r.bucket t) ∷ states_of t rs

read_states-has_room :
    (now : ℕ) (t : Buckets) (rs : List BucketRequest)
    → read_states now t rs ≡ (if has_room now t rs then some (states_of t rs) else none)
unfolding read_states has_room states_of
read_states-has_room now t [] = refl
read_states-has_room now t (r ∷ rs) = elim (Bool-cases (is_full now r.limit (lookup r.bucket t))) [
  | inl full ↦
      let none_left : bucket_has_room now r.limit (lookup r.bucket t) ≡ false =
        bucket_has_room-is_full now r.limit (lookup r.bucket t) ∙ (rw full refl) in
      rw (full, none_left) refl
  | inr free ↦
      let its_room : bucket_has_room now r.limit (lookup r.bucket t) ≡ true =
        bucket_has_room-is_full now r.limit (lookup r.bucket t) ∙ (rw free refl) in
      elim (Bool-cases (has_room now t rs)) [
        | inl room ↦
            let rest : read_states now t rs ≡ some (states_of t rs) =
              read_states-has_room now t rs ∙ (rw room refl) in
            rw (free, its_room, room, rest) refl
        | inr no_room ↦
            let rest : read_states now t rs ≡ none =
              read_states-has_room now t rs ∙ (rw no_room refl) in
            rw (free, its_room, no_room, rest) refl
      ]
]

-- A bucket is as it was before the call, or charged by an earlier request of the call.
abbrev IsStep : (now window : ℕ) → (before after : Option RateLimitBucketRecord) → Type 0
IsStep now window before after = (after ≡ before) ⊎ (after ≡ some (charged now window before))

lookup-insert_other :
    (b k : ℕ) (row : RateLimitBucketRecord) (t : Buckets)
    → k == b ≡ false
    → lookup b (insert k row t) ≡ lookup b t
lookup-insert_other b k row t e = lookup-insert b k row t ∙ (rw e refl)

set_count-other :
    (b k count : ℕ) (o : Option RateLimitBucketRecord) (t : Buckets)
    → k == b ≡ false
    → lookup b (set_count k count o t) ≡ lookup b t
set_count-other b k count none t e = refl
set_count-other b k count (some row) t e = lookup-insert_other b k _ t e

write_window-other :
    (now b : ℕ) (s : BucketState) (o : Option ℕ) (t : Buckets)
    → s.bucket == b ≡ false
    → lookup b (write_window now s o t) ≡ lookup b t
write_window-other now b s none t e = lookup-insert_other b s.bucket _ t e
write_window-other now b s (some expires) t e = elim (Bool-cases (leb expires now)) [
  | inl over ↦ rw over (lookup-insert_other b s.bucket _ t e)
  | inr running ↦
      rw running (set_count-other b s.bucket (s.request_count + 1) (lookup s.bucket t) t e)
]

write_window-own :
    (now : ℕ) (r : BucketRequest) (o : Option RateLimitBucketRecord) (t : Buckets)
    → IsStep now r.window o (lookup r.bucket t)
    → lookup r.bucket (write_window now (read_state r o) (read_state r o).window_expires_at t)
      ≡ some (charged now r.window o)
write_window-own now r none t step = lookup-insert_self r.bucket (charged now r.window none) t
write_window-own now r (some row) t step = elim (Bool-cases (leb row.window_expires_at now)) [
  | inl over ↦ rw over (lookup-insert_self r.bucket (charged now r.window none) t)
  | inr running ↦ elim step [
    | inl same ↦
        rw (running, same)
          (lookup-insert_self r.bucket (record row { request_count = row.request_count + 1 }) t)
    | inr again ↦
        let again' : lookup r.bucket t
            ≡ some (record row { request_count = row.request_count + 1 }) =
          rw running at again in
        rw (running, again')
          (lookup-insert_self r.bucket (record row { request_count = row.request_count + 1 }) t)
  ]
]

abbrev written : (now : ℕ) → BucketRequest → Option RateLimitBucketRecord → Buckets → Buckets
written now r o t = write_window now (read_state r o) (read_state r o).window_expires_at t

write_window-charges :
    (now b window : ℕ) (r : BucketRequest) (before t : Buckets)
    → r.bucket ≡ b
    → r.window ≡ window
    → IsStep now window (lookup b before) (lookup b t)
    → lookup b (written now r (lookup r.bucket before) t)
      ≡ some (charged now window (lookup b before))
write_window-charges now b window r before t key same =
    subst
      (λ k.
        IsStep now window (lookup k before) (lookup k t)
        → lookup k (written now r (lookup r.bucket before) t)
          ≡ some (charged now window (lookup k before)))
      key
      (subst
        (λ x.
          IsStep now x (lookup r.bucket before) (lookup r.bucket t)
          → lookup r.bucket (written now r (lookup r.bucket before) t)
            ≡ some (charged now x (lookup r.bucket before)))
        same (write_window-own now r (lookup r.bucket before) t))

bucket_of :
    (r : BucketRequest) (o : Option RateLimitBucketRecord) (b : ℕ)
    → ((read_state r o).bucket == b) ≡ (r.bucket == b)
bucket_of r none b = refl
bucket_of r (some row) b = refl

-- What the second loop makes of a bucket.
write_states-lookup :
    (now : ℕ) (window_of : ℕ → ℕ) (b : ℕ) (before : Buckets) (rs : List BucketRequest) (t : Buckets)
    → HasWindow window_of rs
    → IsStep now (window_of b) (lookup b before) (lookup b t)
    → lookup b (write_states now (states_of before rs) t)
      ≡ (if names b rs then some (charged now (window_of b) (lookup b before)) else lookup b t)
unfolding write_states states_of names
write_states-lookup now window_of b before [] t w step = refl
write_states-lookup now window_of b before (r ∷ rs) t w step = elim (Bool-cases (r.bucket == b)) [
  | inl own ↦
      let key : r.bucket ≡ b = ground arith in
      let mine =
        write_window-charges now b (window_of b) r before t key (w.0 ∙ ap window_of key) step in
      let rest =
        write_states-lookup now window_of b before rs (written now r (lookup r.bucket before) t) w.1
          (inr mine) in
      rw own (elim (Bool-cases (names b rs)) [
        | inl again ↦ rest ∙ (rw again refl)
        | inr last ↦ rest ∙ (rw last mine)
      ])
  | inr other ↦
      let same =
        write_window-other now b (read_state r (lookup r.bucket before))
          (read_state r (lookup r.bucket before)).window_expires_at t
          (bucket_of r (lookup r.bucket before) b ∙ other) in
      let step' = subst (IsStep now (window_of b) (lookup b before)) (sym same) step in
      let rest =
        write_states-lookup now window_of b before rs (written now r (lookup r.bucket before) t) w.1
          step' in
      rw other (
        rest
        ∙ ap (λ o. if names b rs then some (charged now (window_of b) (lookup b before)) else o)
            same)
]

abbrev decided : (now : ℕ) → List BucketRequest → Buckets → Consumed × Buckets
decided now rs t =
    if has_room now t rs
    then (answered true, write_states now (states_of t rs) t)
    else (answered false, t)

consume_at-decided :
    (now : ℕ) (rs : List BucketRequest) (t : Buckets)
    → all_valid rs ≡ true
    → consume_at now rs t ≡ decided now rs t
consume_at-decided now rs t valid = elim (Bool-cases (has_room now t rs)) [
  | inl room ↦
      let states : read_states now t rs ≡ some (states_of t rs) =
        read_states-has_room now t rs ∙ (rw room refl) in
      rw (valid, states, room) refl
  | inr no_room ↦
      let states : read_states now t rs ≡ none =
        read_states-has_room now t rs ∙ (rw no_room refl) in
      rw (valid, states, no_room) refl
]

-- A call with valid requests, whose windows are those of their buckets, decides by the buckets alone,
-- all or none: it is allowed exactly if the window of each requested bucket is over by `now`, or not begun,
-- or has fewer requests than the request's limit. If it is refused, then the table stays as it is. If it is allowed, then each requested bucket
-- is charged once, a bucket whose window is over with the first request of a new window from `now`,
-- and every other bucket stays as it is.
pub consume_many-AllOrNothing :
    (clock now : ℕ) (window_of : ℕ → ℕ) (r : BucketRequest) (rs : List BucketRequest) (t : Buckets)
    (b : ℕ)
    → all_valid (r ∷ rs) ≡ true
    → HasWindow window_of (r ∷ rs)
    → ((consume_many clock (some (aware now)) (r ∷ rs) t).0 ≡ answered (has_room now t (r ∷ rs)))
      × (lookup b (consume_many clock (some (aware now)) (r ∷ rs) t).1 ≡ (
          if has_room now t (r ∷ rs) && names b (r ∷ rs)
          then some (charged now (window_of b) (lookup b t))
          else lookup b t))
      × ((consume_many clock (some (aware now)) (r ∷ rs) t).1 ≡ (
          if has_room now t (r ∷ rs)
          then (consume_many clock (some (aware now)) (r ∷ rs) t).1
          else t))
unfolding consume_many
consume_many-AllOrNothing clock now window_of r rs t b valid w =
    let decision = consume_at-decided now (r ∷ rs) t valid in
    elim (Bool-cases (has_room now t (r ∷ rs))) [
      | inl room ↦
          rw (decision, room)
            (refl, write_states-lookup now window_of b t (r ∷ rs) t w (inl refl), refl)
      | inr no_room ↦ rw (decision, no_room) (refl, refl, refl)
    ]
