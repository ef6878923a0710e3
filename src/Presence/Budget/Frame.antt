-- ===== src/Presence/Budget/Frame.antt =====
-- The sections on sockets and queues leave the signaling state as it is.
use self_relay.Base.{
  ℕ, ◌≡◌, refl, ◌∙◌, not, ◌&&◌, Option, none, some, List, [], ◌∷◌, inl, inr, ◌==◌, is_some,
  Bool-cases,
}
use self_relay.Base.Dict.{Dict, lookup, values}
use self_relay.Presence.State.{ActiveConnection, Manager, OutboundQueue, SignalingUsage}
use self_relay.Presence.Connections.{
  sockets_of, has_connection_capacity, register, is_current, remove, heartbeat, beat, session_holds,
  late, late_all, close_late, prune_sockets, disconnect, disconnect_device, close_each,
  disconnect_account,
}
use self_relay.Presence.Outbound.{
  enqueue_outbound, enqueue_on, queue_full, drain_outbound, on_queue, fail_outbound, fail_queue,
}

abbrev pub budgets : Manager → Dict SignalingUsage × Dict ℕ
budgets m = (m.signaling, m.account_totals)

pub budgets-register : (c : ActiveConnection) (m : Manager) → budgets (register c m).1 ≡ budgets m
unfolding register
budgets-register c m =
    elim (Bool-cases (
      not (is_some (lookup c.device_id (sockets_of c.account_id m.connections)))
      && not (has_connection_capacity (sockets_of c.account_id m.connections) m.connections))) [
        | inl refused ↦ rw refused refl
        | inr admitted ↦ rw admitted refl
      ]

pub budgets-remove : (c : ActiveConnection) (m : Manager) → budgets (remove c m).1 ≡ budgets m
unfolding remove
budgets-remove c m =
    elim (Bool-cases (is_current c (lookup c.device_id (sockets_of c.account_id m.connections)))) [
      | inl current ↦ rw current refl
      | inr other ↦ rw other refl
    ]

budgets-beat :
    (now : ℕ) (c : ActiveConnection) (o : Option ActiveConnection) (m : Manager)
    → budgets (beat now c o m).1 ≡ budgets m
budgets-beat now c none m = refl
budgets-beat now c (some current) m = elim (Bool-cases (current.id == c.id)) [
  | inl same ↦ rw same refl
  | inr other ↦ rw other refl
]

pub budgets-heartbeat :
    (now : ℕ) (owner : Option (Option ℕ)) (c : ActiveConnection) (m : Manager)
    → budgets (heartbeat now owner c m).1 ≡ budgets m
unfolding heartbeat
budgets-heartbeat now owner c m = elim (Bool-cases (session_holds c owner)) [
  | inl current ↦
      rw current (budgets-beat now c (lookup c.device_id (sockets_of c.account_id m.connections)) m)
  | inr gone ↦ rw gone (budgets-remove c m)
]

budgets-close_late :
    (cs : List ActiveConnection) (m : Manager) → budgets (close_late cs m) ≡ budgets m
unfolding close_late
budgets-close_late [] m = refl
budgets-close_late (c ∷ cs) m = budgets-close_late cs _

pub budgets-prune_sockets :
    (now : ℕ) (only : Option ℕ) (m : Manager) → budgets (prune_sockets now only m) ≡ budgets m
unfolding prune_sockets
budgets-prune_sockets now none m =
    budgets-close_late (late_all m.heartbeat_timeout now m.connections) _
budgets-prune_sockets now (some a) m =
    budgets-close_late (late m.heartbeat_timeout now (sockets_of a m.connections)) _

budgets-disconnect :
    (a k : ℕ) (o : Option ActiveConnection) (m : Manager) → budgets (disconnect a k o m) ≡ budgets m
budgets-disconnect a k none m = refl
budgets-disconnect a k (some c) m = refl

pub budgets-disconnect_device :
    (a k : ℕ) (m : Manager) → budgets (disconnect_device a k m) ≡ budgets m
unfolding disconnect_device
budgets-disconnect_device a k m = budgets-disconnect a k (lookup k (sockets_of a m.connections)) m

pub budgets-close_each :
    (code : ℕ) (cs : List ActiveConnection) (m : Manager)
    → budgets (close_each code cs m) ≡ budgets m
unfolding close_each
budgets-close_each code [] m = refl
budgets-close_each code (c ∷ cs) m = budgets-close_each code cs _

pub budgets-disconnect_account :
    (a : ℕ) (m : Manager) → budgets (disconnect_account a m) ≡ budgets m
unfolding disconnect_account
budgets-disconnect_account a m = budgets-close_each 1008 (values (sockets_of a m.connections)) _

budgets-enqueue_on :
    (c : ActiveConnection) (size : ℕ) (o : Option OutboundQueue) (m : Manager)
    → budgets (enqueue_on c size o m).1 ≡ budgets m
budgets-enqueue_on c size none m = refl
budgets-enqueue_on c size (some q) m = elim (Bool-cases q.failed) [
  | inl bad ↦ rw bad refl
  | inr good ↦ elim (Bool-cases (queue_full size q)) [
    | inl full ↦ rw (good, full) (budgets-remove c _)
    | inr free ↦ rw (good, free) refl
  ]
]

pub budgets-enqueue_outbound :
    (c : ActiveConnection) (size : ℕ) (m : Manager)
    → budgets (enqueue_outbound c size m).1 ≡ budgets m
unfolding enqueue_outbound
budgets-enqueue_outbound c size m =
    elim (Bool-cases (is_current c (lookup c.device_id (sockets_of c.account_id m.connections)))) [
      | inl current ↦ rw current (budgets-enqueue_on c size (lookup c.id m.outbound) m)
      | inr gone ↦ rw gone refl
    ]

budgets-on_queue :
    (id : ℕ) (f : OutboundQueue → OutboundQueue) (o : Option OutboundQueue) (m : Manager)
    → budgets (on_queue id f o m) ≡ budgets m
budgets-on_queue id f none m = refl
budgets-on_queue id f (some q) m = refl

pub budgets-drain_outbound : (id : ℕ) (m : Manager) → budgets (drain_outbound id m) ≡ budgets m
unfolding drain_outbound
budgets-drain_outbound id m = budgets-on_queue id _ (lookup id m.outbound) m

pub budgets-fail_outbound :
    (c : ActiveConnection) (m : Manager) → budgets (fail_outbound c m) ≡ budgets m
unfolding fail_outbound
budgets-fail_outbound c m =
    budgets-remove c _
    ∙ budgets-on_queue c.id (λ q. fail_queue q.writer q) (lookup c.id m.outbound) m
