-- ===== src/Presence/Outbound.antt =====
-- Outbound queues: `_enqueue_outbound`, and the steps of the writer `_drain_outbound`. Where a queue is
-- full or its writer fails, the code lets the lock go before `_drop` takes it again in `remove`; here the
-- two sections are one step, and nothing comes between them.
use self_relay.Base.{
  ℕ, ◌+◌, ◌-◌, Bool, true, false, ◌||◌, Option, none, some, List, [], ◌∷◌, ◌++◌, ltb, leb,
  if◌then◌else◌, length,
}
use self_relay.Base.Dict.{lookup, insert}
use self_relay.Presence.State.{
  ActiveConnection, Manager, OutboundQueue, Writer, waiting, holding, sending, stopped, closed,
  counted, socket_queue_rejected, log_effect, max_queue_messages, max_queue_bytes,
}
use self_relay.Presence.Connections.{sockets_of, is_current, remove}

-- `_drop`
abbrev pub drop_connection : ActiveConnection → Manager → Manager
drop_connection c m = log_effect (closed c.id 1013) (remove c m).1

abbrev pub queue_full : (size : ℕ) → OutboundQueue → Bool
queue_full size q =
    leb max_queue_messages (length q.queue) || ltb max_queue_bytes (q.queued_bytes + size)

abbrev pub put : (size : ℕ) → OutboundQueue → OutboundQueue
put size q = record q { queue = q.queue ++ size ∷ []; queued_bytes = q.queued_bytes + size }

abbrev pub enqueue_on :
    ActiveConnection → (size : ℕ) → Option OutboundQueue → Manager → Bool × Manager
enqueue_on c size none m = (false, m)
enqueue_on c size (some q) m =
    if q.failed
    then (false, m)
    else if queue_full size q
    then (
      false,
      drop_connection c (
          log_effect (counted socket_queue_rejected 1)
            (record m { outbound = insert c.id (record q { failed = true }) m.outbound })),
    )
    else (true, record m { outbound = insert c.id (put size q) m.outbound })

-- `_enqueue_outbound`, for a payload of `size` bytes
unfoldable pub enqueue_outbound : ActiveConnection → (size : ℕ) → Manager → Bool × Manager
unfolding remove
enqueue_outbound c size m =
    if is_current c (lookup c.device_id (sockets_of c.account_id m.connections))
    then enqueue_on c size (lookup c.id m.outbound) m
    else (false, m)

-- The writer's steps on its own queue: `queue.get()`, which waits while the queue is empty; the
-- section after it, with `max(0, queued_bytes - size)`, as `-` on ℕ stops at 0; and the last section.
abbrev pub next_payload : List ℕ → OutboundQueue → OutboundQueue
next_payload [] q = q
next_payload (size ∷ rest) q = record q { queue = rest; writer = holding size }

abbrev pub writer_step : Writer → OutboundQueue → OutboundQueue
writer_step waiting q = next_payload q.queue q
writer_step (holding size) q = record q {
  queued_bytes = q.queued_bytes - size;
  in_flight = q.in_flight + 1;
  writer = sending;
}
writer_step sending q = record q { in_flight = q.in_flight - 1; writer = waiting }
writer_step stopped q = q

-- The section of `_fail_outbound`, which only a writer that is sending reaches; the writer returns.
abbrev pub fail_queue : Writer → OutboundQueue → OutboundQueue
fail_queue sending q = record q { failed = true; in_flight = q.in_flight - 1; writer = stopped }
fail_queue _ q = q

-- Something the writer does to the queue of connection `id`, while that is registered.
abbrev pub on_queue : ℕ → (OutboundQueue → OutboundQueue) → Option OutboundQueue → Manager → Manager
on_queue id f none m = m
on_queue id f (some q) m = record m { outbound = insert id (f q) m.outbound }

-- The next step of `_drain_outbound`, the send having gone well.
unfoldable pub drain_outbound : (connection_id : ℕ) → Manager → Manager
drain_outbound id m = on_queue id (λ q. writer_step q.writer q) (lookup id m.outbound) m

-- `_fail_outbound`
unfoldable pub fail_outbound : ActiveConnection → Manager → Manager
unfolding remove
fail_outbound c m =
    drop_connection c (on_queue c.id (λ q. fail_queue q.writer q) (lookup c.id m.outbound) m)
