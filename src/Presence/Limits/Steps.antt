-- ===== src/Presence/Limits/Steps.antt =====
-- The limits over any interleaving.
use self_relay.Base.{sym, ap, List, [], ◌∷◌}
use mathlib.Core.Path.{subst}
use self_relay.Presence.State.{Manager}
use self_relay.Presence.Sections.{
  Section, registers, removes, fails, beats, prunes, disconnects, disconnects_all, closes, enqueues,
  drains, records_use, releases, prunes_state, step, steps,
}
use self_relay.Presence.Limits.Rows.{IsBounded}
use self_relay.Presence.Limits.Kept.{remove-IsBounded, register-IsBounded, heartbeat-IsBounded}
use self_relay.Presence.Limits.Sweep.{
  prune_sockets-IsBounded, disconnect_device-IsBounded, disconnect_account-IsBounded,
  close_all-IsBounded,
}
use self_relay.Presence.Untouched.{
  sockets-record_signaling_use, sockets-clear_signaling_state, sockets-prune_signaling_state,
}
use self_relay.Presence.Limits.Others.{
  enqueue_outbound-IsBounded, connections-drain_outbound, fail_outbound-IsBounded,
}

pub step-IsBounded :
    (s : Section) (m : Manager) → IsBounded m.connections → IsBounded (step s m).connections
step-IsBounded (registers c) m b = register-IsBounded c m b
step-IsBounded (removes c) m b = remove-IsBounded c m b
step-IsBounded (fails c) m b = fail_outbound-IsBounded c m b
step-IsBounded (beats now owner c) m b = heartbeat-IsBounded now owner c m b
step-IsBounded (prunes now only) m b = prune_sockets-IsBounded now only m b
step-IsBounded (disconnects a d) m b = disconnect_device-IsBounded a d m b
step-IsBounded (disconnects_all a) m b = disconnect_account-IsBounded a m b
step-IsBounded closes m b = close_all-IsBounded m
step-IsBounded (enqueues c size) m b = enqueue_outbound-IsBounded c size m b
step-IsBounded (drains id) m b = rw (connections-drain_outbound id m) b
step-IsBounded (records_use now t c ty) m b =
    subst IsBounded (sym (ap (λ s. s.0) (sockets-record_signaling_use now t c ty m))) b
step-IsBounded (releases t) m b =
    subst IsBounded (sym (ap (λ s. s.0) (sockets-clear_signaling_state t m))) b
step-IsBounded (prunes_state now) m b =
    subst IsBounded (sym (ap (λ s. s.0) (sockets-prune_signaling_state now m))) b

-- The sockets stay within the limits of the manager over any sequence of its lock sections: each
-- account with an entry has between 1 and 8 sockets, at most one for a device and each under its own
-- account and device, no account has two entries, and all accounts together have at most 512.
pub steps-IsBounded :
    (ss : List Section) (m : Manager) → IsBounded m.connections → IsBounded (steps ss m).connections
unfolding steps
steps-IsBounded [] m b = b
steps-IsBounded (s ∷ ss) m b = steps-IsBounded ss (step s m) (step-IsBounded s m b)
