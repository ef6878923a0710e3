-- ===== src/Presence/Sections.antt =====
-- The lock sections of `PresenceManager` as one step function, and any interleaving of them.
use self_relay.Base.{ℕ, Option, List, [], ◌∷◌}
use self_relay.Presence.State.{ActiveConnection, Manager, SignalingType}
use self_relay.Presence.Connections.{
  register, remove, heartbeat, prune_sockets, disconnect_device, disconnect_account, close_all,
}
use self_relay.Presence.Outbound.{enqueue_outbound, drain_outbound, fail_outbound}
use self_relay.Presence.Signaling.{
  record_signaling_use, clear_signaling_state, prune_signaling_state,
}

-- A call that reaches the manager, with what it read from the clock and from the session repository.
pub data Section : Type 0 where
  registers removes fails : (connection : ActiveConnection) → Section
  beats : (now : ℕ) (session_owner : Option (Option ℕ)) (connection : ActiveConnection) → Section
  prunes : (now : ℕ) (only : Option ℕ) → Section
  disconnects : (account_id device_id : ℕ) → Section
  disconnects_all : (account_id : ℕ) → Section
  closes : Section
  enqueues : (connection : ActiveConnection) (size : ℕ) → Section
  drains : (connection_id : ℕ) → Section
  records_use : (now transfer_id : ℕ) (connection : ActiveConnection) (t : SignalingType) → Section
  releases : (transfer_id : ℕ) → Section
  prunes_state : (now : ℕ) → Section

abbrev pub step : Section → Manager → Manager
step (registers c) m = (register c m).1
step (removes c) m = (remove c m).1
step (fails c) m = fail_outbound c m
step (beats now owner c) m = (heartbeat now owner c m).1
step (prunes now only) m = prune_sockets now only m
step (disconnects a d) m = disconnect_device a d m
step (disconnects_all a) m = disconnect_account a m
step closes m = close_all m
step (enqueues c size) m = (enqueue_outbound c size m).1
step (drains id) m = drain_outbound id m
step (records_use now t c ty) m = (record_signaling_use now t c ty m).1
step (releases t) m = clear_signaling_state t m
step (prunes_state now) m = prune_signaling_state now m

unfoldable pub steps : List Section → Manager → Manager
steps [] m = m
steps (s ∷ ss) m = steps ss (step s m)

-- `PresenceManager.__init__`
abbrev pub new_manager : (heartbeat_timeout : ℕ) → Manager
new_manager timeout = record {
  connections = [];
  outbound = [];
  signaling = [];
  account_totals = [];
  heartbeat_timeout = timeout;
  log = [];
}
