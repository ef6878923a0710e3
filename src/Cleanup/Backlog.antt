-- ===== src/Cleanup/Backlog.antt =====
-- The retention job over all tables: what a run deletes and leaves, and how runs clear a backlog.
use self_relay.Base.{
  ℕ, ◌+◌, ◌-◌, ◌≤◌, leb, ◌≡◌, refl, sym, suc, zero, Bool, true, false, Option, none, some, List, [],
  ◌∷◌, inl, inr, Bool-cases, Option-cases, arith,
}
use mathlib.Core.Path.{subst}
use self_relay.Base.Dict.{Dict, lookup, erase, IsUnique, erase-IsUnique}
use self_relay.Base.Where.{count_where}
use self_relay.Cleanup.Batch.{oldest, delete_batch}
use self_relay.Cleanup.Oldest.{
  Counts, IsKept, delete_batch-Counts, delete_batch-IsKept, delete_batch-none, delete_batch-some,
}
use self_relay.Records.{WebSocketTicketRecord}
use self_relay.Cleanup.Past.{
  instant_or, past_session, past_once, past_otp_at, past_transfer_at, session_test, challenge_test,
  otp_test, transfer_test, ticket_test, session_ages, challenge_ages, otp_ages, transfer_ages,
  ticket_ages,
}
use self_relay.Cleanup.Cascade.{left_or_none, lookup-cascade, cascade-IsUnique, count_where-cascade}
use self_relay.Cleanup.Retention.{
  cascade, Retained, Deleted, session_is_over, session_age, challenge_is_over, challenge_age,
  otp_is_over, otp_age, transfer_is_over, transfer_age, ticket_is_over, ticket_age, event_is_over,
  event_age, bucket_is_over, bucket_age, is_batch_size, delete_batches, cleanup_expired,
}

-- A batch on one table: how many rows go, and which
abbrev pub IsBatch :
    {R : Type 0}
    → (test : R → Bool) (age : R → ℕ) (n : ℕ) → Dict R
    → (deleted : ℕ) → Dict R
    → Type 0
IsBatch test age n d deleted d' =
    Counts test age n d (deleted, d') × ((j : ℕ) → IsKept test age d' (lookup j d) (lookup j d'))

-- The primary keys
abbrev pub AreUnique : Retained → Type 0
AreUnique t =
    IsUnique t.app_sessions
    × IsUnique t.device_challenges
    × IsUnique t.device_linking_otps
    × IsUnique t.transfer_requests
    × IsUnique t.websocket_tickets
    × IsUnique t.security_events
    × IsUnique t.rate_limit_buckets

-- The batch of the tickets comes after the deletion of the sessions, with which their tickets go.
abbrev pub IsTicketBatch : (now n : ℕ) → Retained → (deleted : ℕ) → Retained → Type 0
IsTicketBatch now n t deleted t' =
    (between : Dict WebSocketTicketRecord) × ((j : ℕ)
      → lookup j between
        ≡ left_or_none t.app_sessions t'.app_sessions (lookup j t.websocket_tickets))
    × IsBatch (λ x. past_once now x.consumed_at x.expires_at)
        (λ x. instant_or x.consumed_at x.expires_at) n between deleted t'.websocket_tickets

abbrev pub AreBatches : (now n : ℕ) → Retained → Deleted → Retained → Type 0
AreBatches now n t c t' =
    IsBatch (past_session now) (λ s. instant_or s.revoked_at s.absolute_expires_at) n t.app_sessions
      c.app_sessions t'.app_sessions
    × IsBatch (λ x. past_once now x.consumed_at x.expires_at)
        (λ x. instant_or x.consumed_at x.expires_at) n t.device_challenges c.device_challenges
        t'.device_challenges
    × IsBatch (λ o. past_otp_at now o.status o.expires_at)
        (λ o. instant_or o.consumed_at o.expires_at) n t.device_linking_otps c.device_linking_otps
        t'.device_linking_otps
    × IsBatch (λ r. past_transfer_at now r.status (instant_or r.completed_at r.created_at))
        (λ r. instant_or r.completed_at r.created_at) n t.transfer_requests c.transfer_requests
        t'.transfer_requests
    × IsTicketBatch now n t c.websocket_tickets t'
    × IsBatch (λ e. leb e.expires_at now) (λ e. e.expires_at) n t.security_events c.security_events
        t'.security_events
    × IsBatch (λ b. leb b.window_expires_at now) (λ b. b.window_expires_at) n t.rate_limit_buckets
        c.rate_limit_buckets t'.rate_limit_buckets

-- How a call of the job ends.
abbrev pub HasRun : (now n : ℕ) → Retained → Option Deleted → Retained → Type 0
HasRun now n t none t' = (is_batch_size n ≡ false) × (t' ≡ t)
HasRun now n t (some c) t' = (is_batch_size n ≡ true) × AreBatches now n t c t'

batch :
    {R : Type 0}
    → (test : R → Bool) (age : R → ℕ) (n : ℕ) (d : Dict R) → IsUnique d
    → IsBatch test age n d (delete_batch test age n d).0 (delete_batch test age n d).1
batch test age n d u =
    (delete_batch-Counts test age n d u, λ j. delete_batch-IsKept test age n d j u)

-- A batch by tests and ages that are the same is the same.
same-IsBatch :
    {R : Type 0}
    → (test test' : R → Bool) (age age' : R → ℕ) (n : ℕ) (d : Dict R) → test ≡ test'
    → age ≡ age'
    → IsUnique d
    → IsBatch test' age' n d (delete_batch test age n d).0 (delete_batch test age n d).1
same-IsBatch test test' age age' n d same_test same_age u =
    subst (λ f. IsBatch f age' n d (delete_batch test age n d).0 (delete_batch test age n d).1)
      same_test
      (subst (λ f. IsBatch test f n d (delete_batch test age n d).0 (delete_batch test age n d).1)
        same_age (batch test age n d u))

-- The tickets between the batch of the sessions and their own
abbrev between : (now n : ℕ) → Retained → Dict WebSocketTicketRecord
between now n t =
    cascade t.app_sessions (delete_batch (session_is_over now) session_age n t.app_sessions).1
      t.websocket_tickets

between-IsUnique :
    (now n : ℕ) (t : Retained) → IsUnique t.websocket_tickets → IsUnique (between now n t)
between-IsUnique now n t u =
    cascade-IsUnique t.app_sessions
      (delete_batch (session_is_over now) session_age n t.app_sessions).1 t.websocket_tickets u

all_batches :
    (now n : ℕ) (t : Retained)
    → AreUnique t
    → AreBatches now n t (delete_batches now n t).0 (delete_batches now n t).1
unfolding delete_batches
all_batches now n t u = (
  same-IsBatch (session_is_over now) _ session_age _ n t.app_sessions (session_test now)
      session_ages u.0,
  same-IsBatch (challenge_is_over now) _ challenge_age _ n t.device_challenges (challenge_test now)
      challenge_ages u.1,
  same-IsBatch (otp_is_over now) _ otp_age _ n t.device_linking_otps (otp_test now) otp_ages u.2,
  same-IsBatch (transfer_is_over now) _ transfer_age _ n t.transfer_requests (transfer_test now)
      transfer_ages u.3,
  (
    between now n t,
    (λ j.
        lookup-cascade t.app_sessions
          (delete_batch (session_is_over now) session_age n t.app_sessions).1 j t.websocket_tickets
          u.4),
    same-IsBatch (ticket_is_over now) _ ticket_age _ n (between now n t) (ticket_test now)
        ticket_ages (between-IsUnique now n t u.4),
  ),
  batch (event_is_over now) event_age n t.security_events u.5,
  batch (bucket_is_over now) bucket_age n t.rate_limit_buckets u.6,
)

-- A run of the job deletes, from each table, as many rows past their retention as the batch lets it, or
-- all of them if they are fewer, and reports that number. No row past its retention that is left is older
-- than one that goes. Every other row stays exactly as it is, save that with a session its tickets go,
-- before the batch of the tickets and not counted in it. A batch size that is not between 1 and 1000 is
-- refused, and nothing is deleted. All this for tables whose primary keys are unique.
pub cleanup_expired-HasRun :
    (now n : ℕ) (t : Retained)
    → AreUnique t
    → HasRun now n t (cleanup_expired now n t).0 (cleanup_expired now n t).1
unfolding cleanup_expired
cleanup_expired-HasRun now n t u = elim (Bool-cases (is_batch_size n)) [
  | inl fits ↦ rw fits (fits, all_batches now n t u)
  | inr refused ↦ rw refused (refused, refl)
]

delete_batch-IsUnique :
    {R : Type 0}
    → (test : R → Bool) (age : R → ℕ) (n : ℕ) (d : Dict R) → IsUnique d
    → IsUnique (delete_batch test age n d).1
unfolding delete_batch
delete_batch-IsUnique test age zero d u = u
delete_batch-IsUnique test age (suc n) d u = elim (Option-cases (oldest test age d)) [
  | inl e ↦ rw (delete_batch-none test age n d e) u
  | inr ((k, a), e) ↦
      rw (delete_batch-some test age n k a d e)
        (delete_batch-IsUnique test age n (erase k d) (erase-IsUnique k d u))
]

-- Runs with these batch sizes, while the clock stands still
unfoldable pub runs : (now : ℕ) → List ℕ → Retained → Retained
runs now [] t = t
runs now (n ∷ ns) t = runs now ns (cleanup_expired now n t).1

unfoldable pub total : List ℕ → ℕ
total [] = 0
total (n ∷ ns) = n + total ns

abbrev pub AreBatchSizes : List ℕ → Type 0
AreBatchSizes [] = Unit
AreBatchSizes (n ∷ ns) = (is_batch_size n ≡ true) × AreBatchSizes ns

-- The number of rows that pass the test falls by `taken`, or to none if there are fewer.
abbrev pub IsLess : {R : Type 0} → (test : R → Bool) (taken : ℕ) (d d' : Dict R) → Type 0
IsLess test taken d d' = count_where test d' ≡ count_where test d - taken

abbrev pub IsAtMost : {R : Type 0} → (test : R → Bool) (taken : ℕ) (d d' : Dict R) → Type 0
IsAtMost test taken d d' = count_where test d' ≤ count_where test d - taken

-- The number of rows past their retention falls by as many as the batches may take, down to none; that
-- of the tickets by no less.
abbrev pub AreCleared : (now taken : ℕ) → (t t' : Retained) → Type 0
AreCleared now taken t t' =
    IsLess (past_session now) taken t.app_sessions t'.app_sessions
    × IsLess (λ c. past_once now c.consumed_at c.expires_at) taken t.device_challenges
        t'.device_challenges
    × IsLess (λ o. past_otp_at now o.status o.expires_at) taken t.device_linking_otps
        t'.device_linking_otps
    × IsLess (λ r. past_transfer_at now r.status (instant_or r.completed_at r.created_at)) taken
        t.transfer_requests t'.transfer_requests
    × IsAtMost (λ x. past_once now x.consumed_at x.expires_at) taken t.websocket_tickets
        t'.websocket_tickets
    × IsLess (λ e. leb e.expires_at now) taken t.security_events t'.security_events
    × IsLess (λ b. leb b.window_expires_at now) taken t.rate_limit_buckets t'.rate_limit_buckets

taken_twice : (x y z n m : ℕ) → y ≡ x - n → z ≡ y - m → z ≡ x - (n + m)
taken_twice x y z n m p q = omega arith

at_most_twice : (x y z n m : ℕ) → y ≤ x - n → z ≤ y - m → z ≤ x - (n + m)
at_most_twice x y z n m p q = omega arith

one_batch :
    {R : Type 0}
    → (test test' : R → Bool) (age : R → ℕ) (n : ℕ) (d : Dict R) → test ≡ test'
    → IsUnique d
    → IsLess test' n d (delete_batch test age n d).1
one_batch test test' age n d same u =
    let counts = delete_batch-Counts test age n d u in
    let deleted = counts.0 in
    let left = counts.1 in
    let less : IsLess test n d (delete_batch test age n d).1 = omega arith in
    subst (λ f. IsLess f n d (delete_batch test age n d).1) same less

ticket_batch :
    (now n : ℕ) (t : Retained)
    → IsUnique t.websocket_tickets
    → IsAtMost
        (λ x. past_once now x.consumed_at x.expires_at)
        n
        t.websocket_tickets
        (delete_batch (ticket_is_over now) ticket_age n (between now n t)).1
ticket_batch now n t u =
    let less =
      one_batch (ticket_is_over now) (λ x. past_once now x.consumed_at x.expires_at) ticket_age n
        (between now n t) (ticket_test now) (between-IsUnique now n t u) in
    let fewer =
      count_where-cascade t.app_sessions
        (delete_batch (session_is_over now) session_age n t.app_sessions).1
        (λ x. past_once now x.consumed_at x.expires_at) t.websocket_tickets in
    omega arith

cleared_once :
    (now n : ℕ) (t : Retained) → AreUnique t → AreCleared now n t (delete_batches now n t).1
unfolding delete_batches
cleared_once now n t u = (
  one_batch (session_is_over now) _ session_age n t.app_sessions (session_test now) u.0,
  one_batch (challenge_is_over now) _ challenge_age n t.device_challenges (challenge_test now) u.1,
  one_batch (otp_is_over now) _ otp_age n t.device_linking_otps (otp_test now) u.2,
  one_batch (transfer_is_over now) _ transfer_age n t.transfer_requests (transfer_test now) u.3,
  ticket_batch now n t u.4,
  one_batch (event_is_over now) _ event_age n t.security_events refl u.5,
  one_batch (bucket_is_over now) _ bucket_age n t.rate_limit_buckets refl u.6,
)

still_unique : (now n : ℕ) (t : Retained) → AreUnique t → AreUnique (delete_batches now n t).1
unfolding delete_batches
still_unique now n t u = (
  delete_batch-IsUnique (session_is_over now) session_age n t.app_sessions u.0,
  delete_batch-IsUnique (challenge_is_over now) challenge_age n t.device_challenges u.1,
  delete_batch-IsUnique (otp_is_over now) otp_age n t.device_linking_otps u.2,
  delete_batch-IsUnique (transfer_is_over now) transfer_age n t.transfer_requests u.3,
  delete_batch-IsUnique (ticket_is_over now) ticket_age n (between now n t)
      (between-IsUnique now n t u.4),
  delete_batch-IsUnique (event_is_over now) event_age n t.security_events u.5,
  delete_batch-IsUnique (bucket_is_over now) bucket_age n t.rate_limit_buckets u.6,
)

AreCleared-trans :
    (now n m : ℕ) (a b c : Retained)
    → AreCleared now n a b
    → AreCleared now m b c
    → AreCleared now (n + m) a c
AreCleared-trans now n m a b c p q = (
  taken_twice _ _ _ n m p.0 q.0,
  taken_twice _ _ _ n m p.1 q.1,
  taken_twice _ _ _ n m p.2 q.2,
  taken_twice _ _ _ n m p.3 q.3,
  at_most_twice _ _ _ n m p.4 q.4,
  taken_twice _ _ _ n m p.5 q.5,
  taken_twice _ _ _ n m p.6 q.6,
)

ran :
    (now n : ℕ) (t : Retained)
    → is_batch_size n ≡ true
    → (cleanup_expired now n t).1 ≡ (delete_batches now n t).1
unfolding cleanup_expired
ran now n t fits = rw fits refl

-- Runs of the job clear any backlog: in every table, the number of rows past their retention falls by
-- the batch sizes of the runs, or to none if the sizes add up to as many as there are; the number of
-- tickets may fall further, as some go with their sessions. This is for runs at one instant, batch sizes
-- between 1 and 1000, and tables whose primary keys are unique.
pub runs-AreCleared :
    (now : ℕ) (ns : List ℕ) (t : Retained)
    → AreBatchSizes ns
    → AreUnique t
    → AreCleared now (total ns) t (runs now ns t)
unfolding runs total cleanup_expired
runs-AreCleared now [] t sizes u =
    (omega arith, omega arith, omega arith, omega arith, omega arith, omega arith, omega arith)
runs-AreCleared now (n ∷ ns) t sizes u =
    subst (λ db. AreCleared now (n + total ns) t (runs now ns db)) (sym (ran now n t sizes.0))
      (AreCleared-trans now n (total ns) t (delete_batches now n t).1
        (runs now ns (delete_batches now n t).1) (cleared_once now n t u)
        (runs-AreCleared now ns (delete_batches now n t).1 sizes.1 (still_unique now n t u)))
