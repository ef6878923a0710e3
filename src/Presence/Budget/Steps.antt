-- ===== src/Presence/Budget/Steps.antt =====
-- The budgets over any interleaving.
use self_relay.Base.{
  ℕ, ◌+◌, ◌≤◌, ◌≡◌, refl, ap, sym, ◌∙◌, Option, none, some, List, [], ◌∷◌, is_some, if◌then◌else◌,
  Holds, arith,
}
use mathlib.Core.Path.{subst}
use self_relay.Base.Counts.{sum_of}
use self_relay.Base.Dict.{Dict, lookup, IsUnique, All-lookup}
use self_relay.Presence.State.{
  Manager, SignalingUsage, SignalingType, sdp_offer, sdp_answer, ice_candidate, handshake_offer,
  handshake_answer,
}
use self_relay.Presence.Connections.{close_all, all_sockets}
use self_relay.Presence.Sections.{
  Section, registers, removes, fails, beats, prunes, disconnects, disconnects_all, closes, enqueues,
  drains, records_use, releases, prunes_state, step, steps,
}
use self_relay.Presence.Budget.Kept.{
  IsCharged, record_signaling_use-IsCharged, clear_signaling_state-IsCharged,
  prune_signaling_state-IsCharged,
}
use self_relay.Presence.Budget.Usage.{one_if, IsUsage, allowance}
use self_relay.Presence.Budget.Granted.{
  uses_in_entry, uses_in, is_granted, granted, IsGrown, unchanged-IsGrown,
  record_signaling_use-IsGrown, clear_signaling_state-IsGrown, prune_signaling_state-IsGrown,
}
use self_relay.Presence.Budget.Frame.{
  budgets, budgets-register, budgets-remove, budgets-heartbeat, budgets-prune_sockets,
  budgets-close_each, budgets-disconnect_device, budgets-disconnect_account,
  budgets-enqueue_outbound, budgets-drain_outbound, budgets-fail_outbound,
}

-- A message is charged by a connection of the account that the transfer belongs to, as
-- `get_by_id(connection.account_id, transfer_id)` finds no other.
abbrev pub IsOwned : (owner : ℕ → ℕ) → Section → Type 0
IsOwned owner (records_use now t c ty) = c.account_id ≡ owner t
IsOwned owner _ = Unit

unfoldable pub AllOwned : (owner : ℕ → ℕ) → List Section → Type 0
AllOwned owner [] = Unit
AllOwned owner (s ∷ ss) = IsOwned owner s × AllOwned owner ss

abbrev pub HoldsBudgets : (owner : ℕ → ℕ) → Dict SignalingUsage × Dict ℕ → Type 0
HoldsBudgets owner b = IsCharged owner b.0 b.1

carry :
    (owner : ℕ → ℕ) {x y : Dict SignalingUsage × Dict ℕ}
    → x ≡ y
    → HoldsBudgets owner y
    → HoldsBudgets owner x
carry owner e b = subst (HoldsBudgets owner) (sym e) b

close_all-budgets : (owner : ℕ → ℕ) (m : Manager) → HoldsBudgets owner (budgets (close_all m))
unfolding close_all sum_of lookup
close_all-budgets owner m =
    carry owner
      (budgets-close_each 1001 (all_sockets m.connections)
        (record m { connections = []; outbound = []; signaling = []; account_totals = [] }))
      (tt, tt, tt, λ a. (refl, ground arith))

signaling-of : {x y : Dict SignalingUsage × Dict ℕ} → x ≡ y → x.0 ≡ y.0
signaling-of e = ap (λ b. b.0) e

close_all-IsGrown :
    (k d : ℕ) (ty : SignalingType) (m : Manager)
    → IsGrown k d ty 0 m.signaling (close_all m).signaling
unfolding close_all lookup
close_all-IsGrown k d ty m =
    let empty = signaling-of (
      budgets-close_each 1001 (all_sockets m.connections)
        (record m { connections = []; outbound = []; signaling = []; account_totals = [] })) in
    rw empty refl

step-IsCharged :
    (owner : ℕ → ℕ) (s : Section) (m : Manager)
    → IsOwned owner s
    → HoldsBudgets owner (budgets m)
    → HoldsBudgets owner (budgets (step s m))
step-IsCharged owner (registers c) m own b = carry owner (budgets-register c m) b
step-IsCharged owner (removes c) m own b = carry owner (budgets-remove c m) b
step-IsCharged owner (fails c) m own b = carry owner (budgets-fail_outbound c m) b
step-IsCharged owner (beats now s c) m own b = carry owner (budgets-heartbeat now s c m) b
step-IsCharged owner (prunes now only) m own b = carry owner (budgets-prune_sockets now only m) b
step-IsCharged owner (disconnects a d) m own b = carry owner (budgets-disconnect_device a d m) b
step-IsCharged owner (disconnects_all a) m own b = carry owner (budgets-disconnect_account a m) b
step-IsCharged owner closes m own b = close_all-budgets owner m
step-IsCharged owner (enqueues c size) m own b = carry owner (budgets-enqueue_outbound c size m) b
step-IsCharged owner (drains id) m own b = carry owner (budgets-drain_outbound id m) b
step-IsCharged owner (records_use now t c ty) m own b =
    record_signaling_use-IsCharged owner now t c ty m own b
step-IsCharged owner (releases t) m own b = clear_signaling_state-IsCharged owner t m b
step-IsCharged owner (prunes_state now) m own b = prune_signaling_state-IsCharged owner now m b

-- A section adds to a transfer's entry the use that it lets pass, or the entry goes.
step-IsGrown :
    (k d : ℕ) (ty : SignalingType) (s : Section) (m : Manager)
    → IsUnique m.signaling
    → IsGrown k d ty (one_if (is_granted k d ty s m)) m.signaling (step s m).signaling
step-IsGrown k d ty (registers c) m u =
    unchanged-IsGrown k d ty m.signaling _ (signaling-of (budgets-register c m))
step-IsGrown k d ty (removes c) m u =
    unchanged-IsGrown k d ty m.signaling _ (signaling-of (budgets-remove c m))
step-IsGrown k d ty (fails c) m u =
    unchanged-IsGrown k d ty m.signaling _ (signaling-of (budgets-fail_outbound c m))
step-IsGrown k d ty (beats now s c) m u =
    unchanged-IsGrown k d ty m.signaling _ (signaling-of (budgets-heartbeat now s c m))
step-IsGrown k d ty (prunes now only) m u =
    unchanged-IsGrown k d ty m.signaling _ (signaling-of (budgets-prune_sockets now only m))
step-IsGrown k d ty (disconnects a i) m u =
    unchanged-IsGrown k d ty m.signaling _ (signaling-of (budgets-disconnect_device a i m))
step-IsGrown k d ty (disconnects_all a) m u =
    unchanged-IsGrown k d ty m.signaling _ (signaling-of (budgets-disconnect_account a m))
step-IsGrown k d ty closes m u = close_all-IsGrown k d ty m
step-IsGrown k d ty (enqueues c size) m u =
    unchanged-IsGrown k d ty m.signaling _ (signaling-of (budgets-enqueue_outbound c size m))
step-IsGrown k d ty (drains id) m u =
    unchanged-IsGrown k d ty m.signaling _ (signaling-of (budgets-drain_outbound id m))
step-IsGrown k d ty (records_use now t c ty') m u =
    record_signaling_use-IsGrown k d ty now t c ty' m
step-IsGrown k d ty (releases t) m u = clear_signaling_state-IsGrown k d ty t m u
step-IsGrown k d ty (prunes_state now) m u = prune_signaling_state-IsGrown k d ty now m u

entry-fits :
    (owner : ℕ → ℕ) (k d : ℕ) (ty : SignalingType) (o : Option SignalingUsage)
    → Holds (IsUsage owner k) o
    → uses_in_entry d ty o ≤ allowance ty
entry-fits owner k d sdp_offer none h = ground arith
entry-fits owner k d sdp_answer none h = ground arith
entry-fits owner k d ice_candidate none h = ground arith
entry-fits owner k d handshake_offer none h = ground arith
entry-fits owner k d handshake_answer none h = ground arith
entry-fits owner k d ty (some u) h = (h.3 d ty).1

granted-fits :
    (owner : ℕ → ℕ) (k d : ℕ) (ty : SignalingType) (ss : List Section) (m : Manager) (n : ℕ)
    → AllOwned owner ss
    → IsCharged owner m.signaling m.account_totals
    → n ≡ uses_in k d ty m.signaling
    → IsCharged owner (steps ss m).signaling (steps ss m).account_totals
      × (granted k d ty ss m n ≡ uses_in k d ty (steps ss m).signaling)
      × (granted k d ty ss m n ≤ allowance ty)
unfolding granted steps AllOwned
granted-fits owner k d ty [] m n own b same =
    let fits =
      entry-fits owner k d ty (lookup k m.signaling)
        (All-lookup (IsUsage owner) k m.signaling b.0) in
    (b, same, subst (λ x. x ≤ allowance ty) (sym same) fits)
granted-fits owner k d ty (s ∷ ss) m n own b same =
    let grown = step-IsGrown k d ty s m b.2 in
    granted-fits owner k d ty ss (step s m)
      (if is_some (lookup k (step s m).signaling) then n + one_if (is_granted k d ty s m) else 0)
      own.1 (step-IsCharged owner s m own.0 b)
      (ap
          (λ x.
            if is_some (lookup k (step s m).signaling)
            then x + one_if (is_granted k d ty s m)
            else 0)
          same
        ∙ sym grown)

-- Over any sequence of lock sections in which each message is charged by a connection of its
-- transfer's account, the signaling state keeps its budgets: a transfer's entry counts at most 128
-- messages, the sum of its uses; an account's total is the sum over its transfers, nothing lost and
-- nothing left behind, and at most 512. The uses of a transfer by a device for a type of message, those
-- in the state at the start and those that `_record_signaling_use` has let pass since the transfer last
-- had no entry, are exactly those that its entry has for them, and no more than 64 for candidates and 1
-- for any other type.
pub steps-IsCharged :
    (owner : ℕ → ℕ) (ss : List Section) (m : Manager) (k d : ℕ) (ty : SignalingType)
    → AllOwned owner ss
    → IsCharged owner m.signaling m.account_totals
    → IsCharged owner (steps ss m).signaling (steps ss m).account_totals
      × (granted k d ty ss m (uses_in k d ty m.signaling) ≡ uses_in k d ty (steps ss m).signaling)
      × (granted k d ty ss m (uses_in k d ty m.signaling) ≤ allowance ty)
steps-IsCharged owner ss m k d ty own b =
    granted-fits owner k d ty ss m (uses_in k d ty m.signaling) own b refl
