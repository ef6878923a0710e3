-- ===== src/Presence/Queues/Limits.antt =====
-- One outbound queue within its limits, and the writes of its sections.
use self_relay.Base.{ℕ, ◌+◌, ◌≤◌, ◌<◌, ap, ◌≡◌, refl, false, List, [], ◌∷◌, ◌++◌, length, arith}
use self_relay.Base.Dict.{Dict, IsUnique, All}
use self_relay.Presence.State.{OutboundQueue, Writer, waiting, sending, stopped, holding, new_queue}
use self_relay.Presence.Outbound.{queue_full, put, next_payload, writer_step, fail_queue}

unfoldable pub total_bytes : List ℕ → ℕ
total_bytes [] = 0
total_bytes (size ∷ sizes) = size + total_bytes sizes

-- The payload that the writer has taken out and not accounted for.
abbrev pub held : Writer → ℕ
held (holding size) = size
held _ = 0

abbrev pub being_sent : Writer → ℕ
being_sent sending = 1
being_sent _ = 0

-- At most 32 messages and 256 KiB, and the two counters tell what is there.
abbrev pub IsQueue : OutboundQueue → Type 0
IsQueue q =
    (length q.queue ≤ 32)
    × (q.queued_bytes ≤ 262144)
    × (q.queued_bytes ≡ total_bytes q.queue + held q.writer)
    × (q.in_flight ≡ being_sent q.writer)

abbrev pub AreQueues : Dict OutboundQueue → Type 0
AreQueues outbound = All (λ id. IsQueue) outbound × IsUnique outbound

pub new_queue-IsQueue : IsQueue new_queue
unfolding total_bytes
new_queue-IsQueue = ground arith

length-snoc : (xs : List ℕ) (x : ℕ) → length (xs ++ x ∷ []) ≡ length xs + 1
length-snoc [] x = omega arith
length-snoc (y ∷ xs) x = let more = length-snoc xs x in omega arith

total_bytes-snoc : (xs : List ℕ) (x : ℕ) → total_bytes (xs ++ x ∷ []) ≡ total_bytes xs + x
unfolding total_bytes
total_bytes-snoc [] x = omega arith
total_bytes-snoc (y ∷ xs) x = let more = total_bytes-snoc xs x in omega arith

pub put-IsQueue :
    (size : ℕ) (q : OutboundQueue) → queue_full size q ≡ false → IsQueue q → IsQueue (put size q)
put-IsQueue size q free h =
    let longer = length-snoc q.queue size in
    let heavier = total_bytes-snoc q.queue size in
    let few : length q.queue < 32 = ground arith in
    let light : q.queued_bytes + size ≤ 262144 = ground arith in
    (omega arith, light, omega arith, h.3)

next_payload-IsQueue :
    (sizes : List ℕ) (q : OutboundQueue)
    → q.queue ≡ sizes
    → q.writer ≡ waiting
    → IsQueue q
    → IsQueue (next_payload sizes q)
unfolding total_bytes
next_payload-IsQueue [] q e w h = h
next_payload-IsQueue (size ∷ sizes) q e w h =
    let shorter = ap length e in
    let lighter = ap total_bytes e in
    let idle = ap held w in
    let quiet = ap being_sent w in (omega arith, h.1, omega arith, omega arith)

pub writer_step-IsQueue :
    (w : Writer) (q : OutboundQueue) → q.writer ≡ w → IsQueue q → IsQueue (writer_step w q)
writer_step-IsQueue waiting q w h = next_payload-IsQueue q.queue q refl w h
writer_step-IsQueue (holding size) q w h =
    let in_hand = ap held w in
    let quiet = ap being_sent w in (h.0, omega arith, omega arith, omega arith)
writer_step-IsQueue sending q w h =
    let in_hand = ap held w in let busy = ap being_sent w in (h.0, h.1, omega arith, omega arith)
writer_step-IsQueue stopped q w h = h

pub fail_queue-IsQueue :
    (w : Writer) (q : OutboundQueue) → q.writer ≡ w → IsQueue q → IsQueue (fail_queue w q)
fail_queue-IsQueue waiting q w h = h
fail_queue-IsQueue (holding size) q w h = h
fail_queue-IsQueue sending q w h =
    let in_hand = ap held w in let busy = ap being_sent w in (h.0, h.1, omega arith, omega arith)
fail_queue-IsQueue stopped q w h = h
