-- ===== src/Presence/Tests.antt =====
-- Runs of the manager on concrete sections.
use self_relay.Base.{ℕ, ◌≡◌, ◌≤◌, refl, false, some, none, List, [], ◌∷◌, arith}
use self_relay.Base.Dict.{lookup, insert, IsUnique}
use self_relay.Base.Counts.{sum_of}
use self_relay.Presence.State.{ActiveConnection, Manager, sdp_offer, ice_candidate}
use self_relay.Presence.Connections.{
  register, remove, heartbeat, connection_for, active_socket_count, disconnect_device,
  disconnect_account,
}
use self_relay.Presence.Sections.{
  Section, registers, beats, enqueues, drains, records_use, step, steps, new_manager,
}
use self_relay.Presence.Limits.Rows.{IsBounded}
use self_relay.Presence.Limits.Steps.{steps-IsBounded}
use self_relay.Presence.Budget.Kept.{IsCharged}
use self_relay.Presence.Budget.Usage.{allowance}
use self_relay.Presence.Budget.Granted.{uses_in, granted}
use self_relay.Presence.Budget.Steps.{AllOwned, steps-IsCharged}
use self_relay.Presence.Queues.Limits.{AreQueues}
use self_relay.Presence.Queues.Steps.{steps-AreQueues}
use self_relay.Presence.Connections.{prune_sockets}
use self_relay.Presence.Swept.{unless_late, prune_sockets-connection_for}
use self_relay.Presence.Replacement.{register-replaces, disconnections-queues}

abbrev socket : (id account device : ℕ) → ActiveConnection
socket id account device = record {
  id = id;
  account_id = account;
  device_id = device;
  session_id = 1;
  connected_at = 0;
  last_heartbeat_at = 0;
}

abbrev phone : ActiveConnection
phone = socket 11 1 5

abbrev laptop : ActiveConnection
laptop = socket 12 1 6

abbrev morning : List Section
morning =
    registers phone
    ∷ registers laptop
    ∷ enqueues phone 100
    ∷ enqueues phone 200
    ∷ drains 11
    ∷ drains 11
    ∷ records_use 5 70 phone sdp_offer
    ∷ records_use 6 70 laptop ice_candidate
    ∷ records_use 7 70 phone sdp_offer
    ∷ beats 8 none laptop
    ∷ []

abbrev start : Manager
start = new_manager 90000000

steps-IsBounded_example : IsBounded (steps morning start).connections
unfolding active_socket_count sum_of
steps-IsBounded_example = steps-IsBounded morning start (tt, tt, ground arith)

steps-AreQueues_example : AreQueues (steps morning start).outbound
steps-AreQueues_example = steps-AreQueues morning start (tt, tt)

abbrev owner_one : ℕ → ℕ
owner_one t = 1

owned : AllOwned owner_one morning
unfolding AllOwned
owned = (tt, (tt, (tt, (tt, (tt, (tt, (refl, (refl, (refl, (tt, tt))))))))))

nothing-IsCharged : IsCharged owner_one start.signaling start.account_totals
unfolding lookup sum_of
nothing-IsCharged = (tt, tt, tt, λ a. (refl, ground arith))

steps-IsCharged_example :
    IsCharged owner_one (steps morning start).signaling (steps morning start).account_totals
    × (granted 70 5 sdp_offer morning start (uses_in 70 5 sdp_offer start.signaling)
        ≡ uses_in 70 5 sdp_offer (steps morning start).signaling)
    × (granted 70 5 sdp_offer morning start (uses_in 70 5 sdp_offer start.signaling)
        ≤ allowance sdp_offer)
steps-IsCharged_example =
    steps-IsCharged owner_one morning start 70 5 sdp_offer owned nothing-IsCharged

-- The second offer of one device was refused.
two_charged : (steps morning start).account_totals ≡ (1, 2) ∷ []
unfolding steps register lookup insert active_socket_count sum_of
    self_relay.Presence.Outbound.enqueue_outbound self_relay.Presence.Outbound.drain_outbound
    self_relay.Presence.Signaling.record_signaling_use heartbeat
two_charged = refl

abbrev one_socket : Manager
one_socket = step (registers phone) start

abbrev phone_again : ActiveConnection
phone_again = socket 13 1 5

phone_is_current : connection_for 1 5 one_socket ≡ some phone
unfolding connection_for register lookup insert
phone_is_current = refl

register-replaces_example :
    (connection_for 1 5 (register phone_again one_socket).1 ≡ some phone_again)
    × (remove phone (register phone_again one_socket).1
        ≡ (false, (register phone_again one_socket).1))
    × (heartbeat 9 none phone (register phone_again one_socket).1
        ≡ (none, (register phone_again one_socket).1))
register-replaces_example =
    register-replaces phone_again phone 9 none one_socket phone_is_current refl refl (ground arith)

connections-IsUnique : IsUnique one_socket.connections
unfolding register lookup insert
connections-IsUnique = (refl, tt)

queues-IsUnique : IsUnique one_socket.outbound
unfolding register lookup insert
queues-IsUnique = (refl, tt)

disconnections-queues_example :
    (lookup 11 (disconnect_device 1 5 one_socket).outbound ≡ none)
    × ((disconnect_account 1 one_socket).outbound ≡ one_socket.outbound)
    × (remove phone (disconnect_account 1 one_socket) ≡ (false, disconnect_account 1 one_socket))
disconnections-queues_example =
    disconnections-queues 1 5 phone one_socket connections-IsUnique queues-IsUnique phone_is_current
      refl

one_socket-IsBounded : IsBounded one_socket.connections
unfolding steps active_socket_count sum_of
one_socket-IsBounded = steps-IsBounded (registers phone ∷ []) start (tt, tt, ground arith)

-- Heard of at 0, with a timeout of 90 seconds, swept after 90 seconds.
prune_sockets-connection_for_example :
    connection_for 1 5 (prune_sockets 90000000 none one_socket)
    ≡ unless_late one_socket.heartbeat_timeout 90000000 (connection_for 1 5 one_socket)
prune_sockets-connection_for_example =
    prune_sockets-connection_for 90000000 1 5 one_socket one_socket-IsBounded
