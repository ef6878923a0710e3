-- ===== src/RateLimits/Buckets.antt =====
-- `RateLimitBucketRepository` of backend/app/repositories/rate_limits.py, its statements read as
-- functions of the table `private.rate_limit_buckets`.
use self_relay.Base.{
  ℕ, ◌+◌, Bool, true, false, ◌&&◌, ◌||◌, not, Option, none, some, List, [], ◌∷◌, ltb, leb, ◌==◌,
  if◌then◌else◌, is_some, Timestamp, naive, aware,
}
use self_relay.Base.Dict.{Dict, lookup, insert, erase}

pub record RateLimitBucketRecord : Type 0 where
  pub window_started_at : ℕ
  pub window_expires_at : ℕ
  pub request_count : ℕ

-- The primary key, a scope with a bucket key, is one number: the statements only compare it.
abbrev pub Buckets : Type 0
Buckets = Dict RateLimitBucketRecord

-- `bucket` is the pair of the scope and the key, whose lengths are checked.
pub record BucketRequest : Type 0 where
  pub bucket : ℕ
  pub scope_length : ℕ
  pub key_length : ℕ
  pub limit : ℕ
  pub window : ℕ

-- A row of `states`
pub record BucketState : Type 0 where
  pub bucket : ℕ
  pub window : ℕ
  pub window_expires_at : Option ℕ
  pub request_count : ℕ

pub data Consumed : Type 0 where
  value_error : Consumed
  answered : (allowed : Bool) → Consumed

unfoldable pub get : (bucket : ℕ) → Buckets → Option RateLimitBucketRecord
get bucket t = lookup bucket t

abbrev pub while_active : (now : ℕ) → Option RateLimitBucketRecord → Option RateLimitBucketRecord
while_active now none = none
while_active now (some row) = if ltb now row.window_expires_at then some row else none

unfoldable pub get_active : (now bucket : ℕ) → Buckets → Option RateLimitBucketRecord
get_active now bucket t = while_active now (lookup bucket t)

-- The `INSERT ... ON CONFLICT DO UPDATE` of `increment`
abbrev pub upserted :
    (now window_expires_at : ℕ) → Option RateLimitBucketRecord → RateLimitBucketRecord
upserted now expires none = record {
  window_started_at = now;
  window_expires_at = expires;
  request_count = 1;
}
upserted now expires (some row) =
    if leb row.window_expires_at now
    then record { window_started_at = now; window_expires_at = expires; request_count = 1 }
    else (record row { request_count = row.request_count + 1 })

unfoldable pub increment :
    (now bucket window_expires_at : ℕ) → Buckets → RateLimitBucketRecord × Buckets
increment now bucket expires t = (
  upserted now expires (lookup bucket t),
  insert bucket (upserted now expires (lookup bucket t)) t,
)

unfoldable pub delete : (bucket : ℕ) → Buckets → Bool × Buckets
delete bucket t = (is_some (lookup bucket t), erase bucket t)

abbrev pub is_valid : BucketRequest → Bool
is_valid r =
    leb 1 r.scope_length
    && leb r.scope_length 64
    && r.key_length == 32
    && not (leb r.limit 0 || leb r.window 0)

unfoldable pub all_valid : List BucketRequest → Bool
all_valid [] = true
all_valid (r ∷ rs) = is_valid r && all_valid rs

abbrev pub read_state : BucketRequest → Option RateLimitBucketRecord → BucketState
read_state r none = record {
  bucket = r.bucket;
  window = r.window;
  window_expires_at = none;
  request_count = 0;
}
read_state r (some row) = record {
  bucket = r.bucket;
  window = r.window;
  window_expires_at = some row.window_expires_at;
  request_count = row.request_count;
}

-- `window_expires_at is not None and window_expires_at > current and request_count >= limit`
abbrev pub is_full : (current limit : ℕ) → Option RateLimitBucketRecord → Bool
is_full current limit none = false
is_full current limit (some row) = ltb current row.window_expires_at && leb limit row.request_count

-- The first loop of the transaction: `none` where it returns `False`.
unfoldable pub read_states :
    (current : ℕ) → Buckets → List BucketRequest → Option (List BucketState)
read_states current t [] = some []
read_states current t (r ∷ rs) =
    let rest = read_states current t rs in
    if is_full current r.limit (lookup r.bucket t)
    then none
    else elim rest [ none ↦ none | some ss ↦ some (read_state r (lookup r.bucket t) ∷ ss) ]

-- The two statements of the second loop. The update finds no row if there is none.
abbrev pub start_window : (current : ℕ) → BucketState → Buckets → Buckets
start_window current s t =
    insert s.bucket
      (record {
        window_started_at = current;
        window_expires_at = current + s.window;
        request_count = 1;
      })
      t

abbrev pub set_count : (bucket count : ℕ) → Option RateLimitBucketRecord → Buckets → Buckets
set_count bucket count none t = t
set_count bucket count (some row) t = insert bucket (record row { request_count = count }) t

abbrev pub write_window : (current : ℕ) → BucketState → Option ℕ → Buckets → Buckets
write_window current s none t = start_window current s t
write_window current s (some expires) t =
    if leb expires current
    then start_window current s t
    else set_count s.bucket (s.request_count + 1) (lookup s.bucket t) t

unfoldable pub write_states : (current : ℕ) → List BucketState → Buckets → Buckets
write_states current [] t = t
write_states current (s ∷ ss) t =
    write_states current ss (write_window current s s.window_expires_at t)

abbrev pub commit : (current : ℕ) → Option (List BucketState) → Buckets → Consumed × Buckets
commit current none t = (answered false, t)
commit current (some ss) t = (answered true, write_states current ss t)

abbrev pub consume_at : (current : ℕ) → List BucketRequest → Buckets → Consumed × Buckets
consume_at current rs t =
    if all_valid rs then commit current (read_states current t rs) t else (value_error, t)

abbrev pub consume_when : Timestamp → List BucketRequest → Buckets → Consumed × Buckets
consume_when (naive n) rs t = (value_error, t)
consume_when (aware current) rs t = consume_at current rs t

-- `consume_many`; `clock` is `datetime.now(UTC)`, for a call without `now`.
unfoldable pub consume_many :
    (clock : ℕ) → (now : Option Timestamp) → List BucketRequest → Buckets → Consumed × Buckets
unfolding all_valid read_states write_states
consume_many clock now [] t = (value_error, t)
consume_many clock none (r ∷ rs) t = consume_at clock (r ∷ rs) t
consume_many clock (some now) (r ∷ rs) t = consume_when now (r ∷ rs) t
