-- ===== src/Presence/Untouched.antt =====
-- The sections on signaling budgets leave the sockets and their queues as they are.
use self_relay.Base.{ℕ, ◌≡◌, refl, ◌∙◌, Option, none, some, List, [], ◌∷◌, inl, inr, Bool-cases}
use self_relay.Base.Dict.{Dict, lookup}
use self_relay.Presence.State.{
  ActiveConnection, Manager, OutboundQueue, SignalingUsage, SignalingType, Connections,
}
use self_relay.Presence.Signaling.{
  record_signaling_use, charge, over_budget, account_total, clear_signaling_state,
  release_signaling, release_usage, prune_signaling_state, count_cleaned, release_each,
  stale_transfers, usage_or_new,
}

abbrev pub sockets : Manager → Connections × Dict OutboundQueue
sockets m = (m.connections, m.outbound)

sockets-charge :
    (now t : ℕ) (c : ActiveConnection) (ty : SignalingType) (u : SignalingUsage) (m : Manager)
    → sockets (charge now t c ty u m).1 ≡ sockets m
sockets-charge now t c ty u m =
    elim (Bool-cases (over_budget c ty u (account_total c.account_id m))) [
      | inl over ↦ rw over refl
      | inr within ↦ rw within refl
    ]

pub sockets-record_signaling_use :
    (now t : ℕ) (c : ActiveConnection) (ty : SignalingType) (m : Manager)
    → sockets (record_signaling_use now t c ty m).1 ≡ sockets m
unfolding record_signaling_use
sockets-record_signaling_use now t c ty m =
    sockets-charge now t c ty (usage_or_new now c.account_id (lookup t m.signaling)) m

sockets-release_usage :
    (t : ℕ) (o : Option SignalingUsage) (m : Manager) → sockets (release_usage t o m).1 ≡ sockets m
sockets-release_usage t none m = refl
sockets-release_usage t (some u) m = refl

sockets-release_signaling : (t : ℕ) (m : Manager) → sockets (release_signaling t m).1 ≡ sockets m
unfolding release_signaling
sockets-release_signaling t m = sockets-release_usage t (lookup t m.signaling) m

pub sockets-clear_signaling_state :
    (t : ℕ) (m : Manager) → sockets (clear_signaling_state t m) ≡ sockets m
unfolding clear_signaling_state
sockets-clear_signaling_state t m = elim (Bool-cases (release_signaling t m).0) [
  | inl cleared ↦ rw cleared (sockets-release_signaling t m)
  | inr unknown ↦ rw unknown (sockets-release_signaling t m)
]

sockets-release_each : (ts : List ℕ) (m : Manager) → sockets (release_each ts m) ≡ sockets m
unfolding release_each
sockets-release_each [] m = refl
sockets-release_each (t ∷ ts) m =
    sockets-release_each ts (release_signaling t m).1 ∙ sockets-release_signaling t m

sockets-count_cleaned : (ts : List ℕ) (m : Manager) → sockets (count_cleaned ts m) ≡ sockets m
sockets-count_cleaned [] m = refl
sockets-count_cleaned (t ∷ ts) m = refl

pub sockets-prune_signaling_state :
    (now : ℕ) (m : Manager) → sockets (prune_signaling_state now m) ≡ sockets m
unfolding prune_signaling_state
sockets-prune_signaling_state now m =
    sockets-count_cleaned (stale_transfers now m.signaling) _
    ∙ sockets-release_each (stale_transfers now m.signaling) m
