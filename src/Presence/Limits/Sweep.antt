-- ===== src/Presence/Limits/Sweep.antt =====
-- The sweep of late sockets, the disconnections and the other sections keep the limits.
use self_relay.Base.{
  ℕ, ◌+◌, ◌≤◌, ◌≡◌, refl, Option, none, some, List, [], ◌∷◌, length, ap, Holds, arith,
}
use self_relay.Base.Dict.{Dict, lookup, erase, All-lookup, values}
use self_relay.Base.Counts.{sum_of}
use self_relay.Presence.State.{ActiveConnection, Connections, Manager}
use self_relay.Presence.Connections.{
  sockets_of, keep_entry, or_empty, active_socket_count, on_time, prune_all, prune_one,
  prune_sockets, close_late, late, late_all, disconnect, disconnect_device, disconnect_account,
  close_each, close_all, all_sockets,
}
use self_relay.Presence.Limits.Rows.{
  IsEntry, IsBounded, store_entry-IsBounded, on_time-IsRows, keep_entry-IsBounded,
}
use self_relay.Presence.Limits.Kept.{take-IsBounded}

pub lookup-prune_all :
    (timeout now k : ℕ) (cs : Connections)
    → lookup k cs ≡ none
    → lookup k (prune_all timeout now cs) ≡ none
unfolding lookup prune_all
lookup-prune_all timeout now k [] h = refl
lookup-prune_all timeout now k ((a, d) ∷ cs) h =
    elim (on_time timeout now d)
      as (λ x. lookup k (keep_entry a x (prune_all timeout now cs)) ≡ none) [
        | [] ↦ ground (arith, lookup-prune_all timeout now k cs)
        | x ∷ xs ↦ ground (arith, lookup-prune_all timeout now k cs)
      ]

active_socket_count-keep_entry :
    (a : ℕ) (d : Dict ActiveConnection) (cs : Connections)
    → active_socket_count (keep_entry a d cs) ≡ length d + active_socket_count cs
unfolding active_socket_count sum_of
active_socket_count-keep_entry a [] cs = omega arith
active_socket_count-keep_entry a (x ∷ d) cs = refl

-- The whole sweep: no account grows.
prune_all-IsBounded :
    (timeout now : ℕ) (cs : Connections)
    → IsBounded cs
    → IsBounded (prune_all timeout now cs)
      × (active_socket_count (prune_all timeout now cs) ≤ active_socket_count cs)
unfolding prune_all active_socket_count sum_of
prune_all-IsBounded timeout now [] b = ((tt, tt, ground arith), ground arith)
prune_all-IsBounded timeout now ((a, d) ∷ cs) b =
    let rest = prune_all-IsBounded timeout now cs (b.0.1, b.1.1, omega arith) in
    let rows = on_time-IsRows timeout now a d b.0.0.1 in
    let count =
      active_socket_count-keep_entry a (on_time timeout now d) (prune_all timeout now cs) in
    (
      keep_entry-IsBounded a (on_time timeout now d) (prune_all timeout now cs) rows.0
          (lookup-prune_all timeout now a cs b.1.0) rest.0 (omega arith),
      omega arith,
    )

prune_one-IsBounded :
    (timeout now a : ℕ) (o : Option (Dict ActiveConnection)) (cs : Connections)
    → lookup a cs ≡ o
    → Holds (IsEntry a) o
    → IsBounded cs
    → IsBounded (prune_one timeout now a o cs)
prune_one-IsBounded timeout now a none cs e entry b = b
prune_one-IsBounded timeout now a (some d) cs e entry b =
    let rows = on_time-IsRows timeout now a d entry.1 in
    let old : length (sockets_of a cs) ≡ length d = ap (λ x. length (or_empty x)) e in
    store_entry-IsBounded a (on_time timeout now d) cs b rows.0 (omega arith)

pub connections-close_late :
    (cs : List ActiveConnection) (m : Manager) → (close_late cs m).connections ≡ m.connections
unfolding close_late
connections-close_late [] m = refl
connections-close_late (c ∷ cs) m =
    connections-close_late cs (record m { outbound = erase c.id m.outbound; log = _ })

pub connections-close_each :
    (code : ℕ) (cs : List ActiveConnection) (m : Manager)
    → (close_each code cs m).connections ≡ m.connections
unfolding close_each
connections-close_each code [] m = refl
connections-close_each code (c ∷ cs) m = connections-close_each code cs _

pub prune_sockets-IsBounded :
    (now : ℕ) (only : Option ℕ) (m : Manager)
    → IsBounded m.connections
    → IsBounded (prune_sockets now only m).connections
unfolding prune_sockets
prune_sockets-IsBounded now none m b =
    rw (connections-close_late (late_all m.heartbeat_timeout now m.connections) _)
      ((prune_all-IsBounded m.heartbeat_timeout now m.connections b).0)
prune_sockets-IsBounded now (some a) m b =
    rw (connections-close_late (late m.heartbeat_timeout now (sockets_of a m.connections)) _) (
      prune_one-IsBounded m.heartbeat_timeout now a (lookup a m.connections) m.connections refl
        (All-lookup IsEntry a m.connections b.0) b)

disconnect-IsBounded :
    (a k : ℕ) (o : Option ActiveConnection) (m : Manager)
    → IsBounded m.connections
    → IsBounded (disconnect a k o m).connections
disconnect-IsBounded a k none m b = b
disconnect-IsBounded a k (some c) m b = take-IsBounded a k m.connections b

pub disconnect_device-IsBounded :
    (a k : ℕ) (m : Manager)
    → IsBounded m.connections
    → IsBounded (disconnect_device a k m).connections
unfolding disconnect_device
disconnect_device-IsBounded a k m b =
    disconnect-IsBounded a k (lookup k (sockets_of a m.connections)) m b

pub disconnect_account-IsBounded :
    (a : ℕ) (m : Manager) → IsBounded m.connections → IsBounded (disconnect_account a m).connections
unfolding disconnect_account
disconnect_account-IsBounded a m b =
    rw (connections-close_each 1008 (values (sockets_of a m.connections)) _)
      (store_entry-IsBounded a [] m.connections b (ground arith, tt, tt) (ground arith))

pub close_all-IsBounded : (m : Manager) → IsBounded (close_all m).connections
unfolding close_all active_socket_count sum_of
close_all-IsBounded m =
    rw (connections-close_each 1001 (all_sockets m.connections) _) (tt, tt, ground arith)
