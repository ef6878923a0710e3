-- ===== src/Presence/Queues/Steps.antt =====
-- The queues over any interleaving.
use self_relay.Base.{ℕ, ◌≡◌, ap, sym, Option, none, some, List, [], ◌∷◌}
use self_relay.Base.Dict.{lookup, values, erase}
use self_relay.Presence.State.{
  ActiveConnection, Manager, counted, closed, socket_heartbeat_timeout, log_effect,
}
use self_relay.Presence.Connections.{
  sockets_of, heartbeat, beat, session_holds, late, late_all, close_late, prune_sockets, disconnect,
  disconnect_device, close_each, disconnect_account, close_all, all_sockets,
}
use self_relay.Presence.Sections.{
  Section, registers, removes, fails, beats, prunes, disconnects, disconnects_all, closes, enqueues,
  drains, records_use, releases, prunes_state, step, steps,
}
use self_relay.Presence.Untouched.{
  sockets-record_signaling_use, sockets-clear_signaling_state, sockets-prune_signaling_state,
}
use self_relay.Presence.Queues.Limits.{AreQueues}
use self_relay.Presence.Queues.Kept.{
  erase-AreQueues, remove-AreQueues, drain_outbound-AreQueues, fail_outbound-AreQueues,
  enqueue_outbound-AreQueues, register-AreQueues,
}
use self_relay.Base.{Bool-cases, inl, inr, ◌==◌, refl}
use mathlib.Core.Path.{subst}

beat-AreQueues :
    (now : ℕ) (c : ActiveConnection) (o : Option ActiveConnection) (m : Manager)
    → AreQueues m.outbound
    → AreQueues (beat now c o m).1.outbound
beat-AreQueues now c none m b = b
beat-AreQueues now c (some current) m b = elim (Bool-cases (current.id == c.id)) [
  | inl same ↦ rw same b
  | inr other ↦ rw other b
]

heartbeat-AreQueues :
    (now : ℕ) (owner : Option (Option ℕ)) (c : ActiveConnection) (m : Manager)
    → AreQueues m.outbound
    → AreQueues (heartbeat now owner c m).1.outbound
unfolding heartbeat
heartbeat-AreQueues now owner c m b = elim (Bool-cases (session_holds c owner)) [
  | inl current ↦
      rw current
        (beat-AreQueues now c (lookup c.device_id (sockets_of c.account_id m.connections)) m b)
  | inr gone ↦ rw gone (remove-AreQueues c m b)
]

close_late-AreQueues :
    (cs : List ActiveConnection) (m : Manager)
    → AreQueues m.outbound
    → AreQueues (close_late cs m).outbound
unfolding close_late
close_late-AreQueues [] m b = b
close_late-AreQueues (c ∷ cs) m b =
    close_late-AreQueues cs
      (log_effect (closed c.id 4008) (
        log_effect (counted socket_heartbeat_timeout 1)
          (record m { outbound = erase c.id m.outbound })))
      (erase-AreQueues c.id m.outbound b)

prune_sockets-AreQueues :
    (now : ℕ) (only : Option ℕ) (m : Manager)
    → AreQueues m.outbound
    → AreQueues (prune_sockets now only m).outbound
unfolding prune_sockets
prune_sockets-AreQueues now none m b =
    close_late-AreQueues (late_all m.heartbeat_timeout now m.connections) _ b
prune_sockets-AreQueues now (some a) m b =
    close_late-AreQueues (late m.heartbeat_timeout now (sockets_of a m.connections)) _ b

disconnect-AreQueues :
    (a k : ℕ) (o : Option ActiveConnection) (m : Manager)
    → AreQueues m.outbound
    → AreQueues (disconnect a k o m).outbound
disconnect-AreQueues a k none m b = b
disconnect-AreQueues a k (some c) m b = erase-AreQueues c.id m.outbound b

disconnect_device-AreQueues :
    (a k : ℕ) (m : Manager) → AreQueues m.outbound → AreQueues (disconnect_device a k m).outbound
unfolding disconnect_device
disconnect_device-AreQueues a k m b =
    disconnect-AreQueues a k (lookup k (sockets_of a m.connections)) m b

outbound-close_each :
    (code : ℕ) (cs : List ActiveConnection) (m : Manager)
    → (close_each code cs m).outbound ≡ m.outbound
unfolding close_each
outbound-close_each code [] m = refl
outbound-close_each code (c ∷ cs) m = outbound-close_each code cs (log_effect (closed c.id code) m)

pub outbound-disconnect_account :
    (a : ℕ) (m : Manager) → (disconnect_account a m).outbound ≡ m.outbound
unfolding disconnect_account
outbound-disconnect_account a m =
    outbound-close_each 1008 (values (sockets_of a m.connections))
      (record m { connections = erase a m.connections })

outbound-close_all : (m : Manager) → (close_all m).outbound ≡ []
unfolding close_all
outbound-close_all m =
    outbound-close_each 1001 (all_sockets m.connections)
      (record m { connections = []; outbound = []; signaling = []; account_totals = [] })

step-AreQueues : (s : Section) (m : Manager) → AreQueues m.outbound → AreQueues (step s m).outbound
step-AreQueues (registers c) m b = register-AreQueues c m b
step-AreQueues (removes c) m b = remove-AreQueues c m b
step-AreQueues (fails c) m b = fail_outbound-AreQueues c m b
step-AreQueues (beats now owner c) m b = heartbeat-AreQueues now owner c m b
step-AreQueues (prunes now only) m b = prune_sockets-AreQueues now only m b
step-AreQueues (disconnects a d) m b = disconnect_device-AreQueues a d m b
step-AreQueues (disconnects_all a) m b = subst AreQueues (sym (outbound-disconnect_account a m)) b
step-AreQueues closes m b = subst AreQueues (sym (outbound-close_all m)) (tt, tt)
step-AreQueues (enqueues c size) m b = enqueue_outbound-AreQueues c size m b
step-AreQueues (drains id) m b = drain_outbound-AreQueues id m b
step-AreQueues (records_use now t c ty) m b =
    subst AreQueues (sym (ap (λ s. s.1) (sockets-record_signaling_use now t c ty m))) b
step-AreQueues (releases t) m b =
    subst AreQueues (sym (ap (λ s. s.1) (sockets-clear_signaling_state t m))) b
step-AreQueues (prunes_state now) m b =
    subst AreQueues (sym (ap (λ s. s.1) (sockets-prune_signaling_state now m))) b

-- Every outbound queue stays within its limits over any sequence of the manager's lock sections, in
-- particular of senders and of the writer's own steps: at most 32 messages and 262144 bytes, with
-- `queued_bytes` the exact sum of the payloads in the queue and in the writer's hand, so that the writer's
-- `max(0, ...)` never cuts anything off, and `in_flight` 1 while a payload is being sent and else 0.
pub steps-AreQueues :
    (ss : List Section) (m : Manager) → AreQueues m.outbound → AreQueues (steps ss m).outbound
unfolding steps
steps-AreQueues [] m b = b
steps-AreQueues (s ∷ ss) m b = steps-AreQueues ss (step s m) (step-AreQueues s m b)
