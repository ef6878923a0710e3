-- ===== src/Presence/Limits/Others.antt =====
-- The sections that touch queues and signaling budgets leave the sockets, but for one that they drop.
use self_relay.Base.{ℕ, ◌≡◌, refl, Option, none, some, inl, inr, Bool-cases}
use self_relay.Base.Dict.{lookup}
use self_relay.Presence.State.{ActiveConnection, Manager, OutboundQueue}
use self_relay.Presence.Connections.{sockets_of, is_current}
use self_relay.Presence.Outbound.{
  enqueue_outbound, enqueue_on, drain_outbound, on_queue, fail_outbound, queue_full, fail_queue,
}
use self_relay.Presence.Limits.Rows.{IsBounded}
use self_relay.Presence.Limits.Kept.{remove-IsBounded}

enqueue_on-IsBounded :
    (c : ActiveConnection) (size : ℕ) (o : Option OutboundQueue) (m : Manager)
    → IsBounded m.connections
    → IsBounded (enqueue_on c size o m).1.connections
enqueue_on-IsBounded c size none m b = b
enqueue_on-IsBounded c size (some q) m b = elim (Bool-cases q.failed) [
  | inl bad ↦ rw bad b
  | inr good ↦ elim (Bool-cases (queue_full size q)) [
    | inl full ↦ rw (good, full) (remove-IsBounded c _ b)
    | inr free ↦ rw (good, free) b
  ]
]

pub enqueue_outbound-IsBounded :
    (c : ActiveConnection) (size : ℕ) (m : Manager)
    → IsBounded m.connections
    → IsBounded (enqueue_outbound c size m).1.connections
unfolding enqueue_outbound
enqueue_outbound-IsBounded c size m b =
    elim (Bool-cases (is_current c (lookup c.device_id (sockets_of c.account_id m.connections)))) [
      | inl current ↦ rw current (enqueue_on-IsBounded c size (lookup c.id m.outbound) m b)
      | inr gone ↦ rw gone b
    ]

connections-on_queue :
    (id : ℕ) (f : OutboundQueue → OutboundQueue) (o : Option OutboundQueue) (m : Manager)
    → (on_queue id f o m).connections ≡ m.connections
connections-on_queue id f none m = refl
connections-on_queue id f (some q) m = refl

pub connections-drain_outbound :
    (id : ℕ) (m : Manager) → (drain_outbound id m).connections ≡ m.connections
unfolding drain_outbound
connections-drain_outbound id m = connections-on_queue id _ (lookup id m.outbound) m

pub fail_outbound-IsBounded :
    (c : ActiveConnection) (m : Manager)
    → IsBounded m.connections
    → IsBounded (fail_outbound c m).connections
unfolding fail_outbound
fail_outbound-IsBounded c m b =
    remove-IsBounded c _
      (rw (connections-on_queue c.id (λ q. fail_queue q.writer q) (lookup c.id m.outbound) m) b)
