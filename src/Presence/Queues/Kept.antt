-- ===== src/Presence/Queues/Kept.antt =====
-- The manager's sections keep every queue within its limits.
use self_relay.Base.{
  ℕ, refl, true, false, ◌&&◌, not, is_some, Option, none, some, inl, inr, Bool-cases, Holds,
}
use self_relay.Base.Dict.{
  Dict, lookup, insert, erase, All-lookup, All-insert, All-erase, insert-IsUnique, erase-IsUnique,
}
use self_relay.Presence.State.{ActiveConnection, Manager, OutboundQueue, new_queue}
use self_relay.Presence.Connections.{
  drop_queue, has_connection_capacity, register, sockets_of, is_current, remove,
}
use self_relay.Presence.Outbound.{
  queue_full, put, enqueue_on, enqueue_outbound, writer_step, fail_queue, on_queue, drain_outbound,
  fail_outbound,
}
use self_relay.Presence.Queues.Limits.{
  IsQueue, AreQueues, new_queue-IsQueue, put-IsQueue, writer_step-IsQueue, fail_queue-IsQueue,
}

write-AreQueues :
    (id : ℕ) (q : OutboundQueue) (outbound : Dict OutboundQueue)
    → IsQueue q
    → AreQueues outbound
    → AreQueues (insert id q outbound)
write-AreQueues id q outbound h b =
    (All-insert (λ i. IsQueue) id q outbound h b.0, insert-IsUnique id q outbound b.1)

pub erase-AreQueues :
    (id : ℕ) (outbound : Dict OutboundQueue) → AreQueues outbound → AreQueues (erase id outbound)
erase-AreQueues id outbound b =
    (All-erase (λ i. IsQueue) id outbound b.0, erase-IsUnique id outbound b.1)

pub remove-AreQueues :
    (c : ActiveConnection) (m : Manager) → AreQueues m.outbound → AreQueues (remove c m).1.outbound
unfolding remove
remove-AreQueues c m b =
    elim (Bool-cases (is_current c (lookup c.device_id (sockets_of c.account_id m.connections)))) [
      | inl current ↦ rw current (erase-AreQueues c.id m.outbound b)
      | inr other ↦ rw other b
    ]

on_queue-AreQueues :
    (id : ℕ) (f : OutboundQueue → OutboundQueue) (o : Option OutboundQueue) (m : Manager)
    → ((q : OutboundQueue) → IsQueue q → IsQueue (f q))
    → Holds IsQueue o
    → AreQueues m.outbound
    → AreQueues (on_queue id f o m).outbound
on_queue-AreQueues id f none m keeps h b = b
on_queue-AreQueues id f (some q) m keeps h b = write-AreQueues id (f q) m.outbound (keeps q h) b

pub drain_outbound-AreQueues :
    (id : ℕ) (m : Manager) → AreQueues m.outbound → AreQueues (drain_outbound id m).outbound
unfolding drain_outbound
drain_outbound-AreQueues id m b =
    on_queue-AreQueues id (λ q. writer_step q.writer q) (lookup id m.outbound) m
      (λ q. writer_step-IsQueue q.writer q refl) (All-lookup (λ i. IsQueue) id m.outbound b.0) b

pub fail_outbound-AreQueues :
    (c : ActiveConnection) (m : Manager)
    → AreQueues m.outbound
    → AreQueues (fail_outbound c m).outbound
unfolding fail_outbound
fail_outbound-AreQueues c m b =
    remove-AreQueues c (on_queue c.id (λ q. fail_queue q.writer q) (lookup c.id m.outbound) m) (
      on_queue-AreQueues c.id (λ q. fail_queue q.writer q) (lookup c.id m.outbound) m
        (λ q. fail_queue-IsQueue q.writer q refl) (All-lookup (λ i. IsQueue) c.id m.outbound b.0) b)

enqueue_on-AreQueues :
    (c : ActiveConnection) (size : ℕ) (o : Option OutboundQueue) (m : Manager)
    → Holds IsQueue o
    → AreQueues m.outbound
    → AreQueues (enqueue_on c size o m).1.outbound
enqueue_on-AreQueues c size none m h b = b
enqueue_on-AreQueues c size (some q) m h b = elim (Bool-cases q.failed) [
  | inl bad ↦ rw bad b
  | inr good ↦ elim (Bool-cases (queue_full size q)) [
    | inl full ↦
        rw (good, full)
          (remove-AreQueues c _ (write-AreQueues c.id (record q { failed = true }) m.outbound h b))
    | inr free ↦
        rw (good, free)
          (write-AreQueues c.id (record (put size q) { failed = false }) m.outbound
            (put-IsQueue size q free h) b)
  ]
]

pub enqueue_outbound-AreQueues :
    (c : ActiveConnection) (size : ℕ) (m : Manager)
    → AreQueues m.outbound
    → AreQueues (enqueue_outbound c size m).1.outbound
unfolding enqueue_outbound
enqueue_outbound-AreQueues c size m b =
    elim (Bool-cases (is_current c (lookup c.device_id (sockets_of c.account_id m.connections)))) [
      | inl current ↦ rw current (
          enqueue_on-AreQueues c size (lookup c.id m.outbound) m
            (All-lookup (λ i. IsQueue) c.id m.outbound b.0) b)
      | inr gone ↦ rw gone b
    ]

drop_queue-AreQueues :
    (o : Option ActiveConnection) (outbound : Dict OutboundQueue)
    → AreQueues outbound
    → AreQueues (drop_queue o outbound)
drop_queue-AreQueues none outbound b = b
drop_queue-AreQueues (some c) outbound b = erase-AreQueues c.id outbound b

pub register-AreQueues :
    (c : ActiveConnection) (m : Manager)
    → AreQueues m.outbound
    → AreQueues (register c m).1.outbound
unfolding register
register-AreQueues c m b =
    let previous = lookup c.device_id (sockets_of c.account_id m.connections) in
    elim (Bool-cases (
      not (is_some (lookup c.device_id (sockets_of c.account_id m.connections)))
      && not (has_connection_capacity (sockets_of c.account_id m.connections) m.connections))) [
        | inl refused ↦ rw refused b
        | inr admitted ↦ rw admitted (
            write-AreQueues c.id new_queue (drop_queue previous m.outbound) new_queue-IsQueue
              (drop_queue-AreQueues previous m.outbound b))
      ]
