-- ===== src/Presence/Signaling.antt =====
-- Signaling budgets: `_record_signaling_use`, `_release_signaling` and `_prune_signaling_state`.
use self_relay.Base.{
  ℕ, ◌+◌, ◌-◌, Bool, true, false, ◌&&◌, ◌||◌, Option, none, some, List, [], ◌∷◌, ◌==◌, ltb, leb,
  if◌then◌else◌, length,
}
use self_relay.Base.Dict.{Dict, lookup, insert, erase}
use self_relay.Presence.State.{
  ActiveConnection, Manager, SignalingType, sdp_offer, sdp_answer, ice_candidate, handshake_offer,
  handshake_answer, UseCount, SignalingUsage, counted, signaling_state_cleaned, log_effect,
  max_signaling_ice_candidates, max_signaling_messages, max_signaling_messages_per_account,
  signaling_state_retention,
}

abbrev pub type_word : SignalingType → ℕ
type_word sdp_offer = 0
type_word sdp_answer = 1
type_word ice_candidate = 2
type_word handshake_offer = 3
type_word handshake_answer = 4

-- The key `(device_id, message_type)` of `counts`
abbrev pub is_for : ℕ → SignalingType → UseCount → Bool
is_for device t u = u.device_id == device && type_word u.message_type == type_word t

-- `counts.get(key, 0)`
unfoldable pub uses_of : ℕ → SignalingType → List UseCount → ℕ
uses_of device t [] = 0
uses_of device t (u ∷ us) = if is_for device t u then u.uses else uses_of device t us

-- `counts[key] = counts.get(key, 0) + 1`
unfoldable pub add_use : ℕ → SignalingType → List UseCount → List UseCount
add_use device t [] = record { device_id = device; message_type = t; uses = 1 } ∷ []
add_use device t (u ∷ us) =
    if is_for device t u then record u { uses = u.uses + 1 } ∷ us else u ∷ add_use device t us

-- 1 for `SIGNALING_SINGLE_USE_MESSAGE_TYPES`
abbrev pub maximum_uses : SignalingType → ℕ
maximum_uses ice_candidate = max_signaling_ice_candidates
maximum_uses _ = 1

-- `self._signaling.get(transfer_id)`, or a new one for the sender's account
abbrev pub usage_or_new : (now account_id : ℕ) → Option SignalingUsage → SignalingUsage
usage_or_new now account_id none = record {
  account_id = account_id;
  updated_at = now;
  total = 0;
  counts = [];
}
usage_or_new now account_id (some u) = u

-- `self._signaling_account_totals.get(account_id, 0)`
abbrev pub total_or_zero : Option ℕ → ℕ
total_or_zero none = 0
total_or_zero (some n) = n

abbrev pub account_total : ℕ → Manager → ℕ
account_total account_id m = total_or_zero (lookup account_id m.account_totals)

abbrev pub over_budget :
    ActiveConnection → SignalingType → SignalingUsage → (account_total : ℕ) → Bool
over_budget c t u total =
    leb (maximum_uses t) (uses_of c.device_id t u.counts)
    || leb max_signaling_messages u.total
    || leb max_signaling_messages_per_account total

abbrev pub charge :
    (now transfer_id : ℕ)
    → ActiveConnection
    → SignalingType
    → SignalingUsage
    → Manager
    → Bool × Manager
charge now transfer_id c t u m =
    if over_budget c t u (account_total c.account_id m)
    then (false, record m { signaling = insert transfer_id u m.signaling })
    else (
      true,
      record m {
        signaling =
            insert transfer_id
              (record u {
                counts = add_use c.device_id t u.counts;
                total = u.total + 1;
                updated_at = now;
              })
              m.signaling;
        account_totals = insert c.account_id (account_total c.account_id m + 1) m.account_totals;
      },
    )

-- `_record_signaling_use`; a refusal leaves the new, empty entry behind.
unfoldable pub record_signaling_use :
    (now transfer_id : ℕ) → ActiveConnection → SignalingType → Manager → Bool × Manager
unfolding uses_of add_use
record_signaling_use now transfer_id c t m =
    charge now transfer_id c t (usage_or_new now c.account_id (lookup transfer_id m.signaling)) m

abbrev pub less_total : ℕ → (remaining : ℕ) → Dict ℕ → Dict ℕ
less_total account_id remaining totals =
    if ltb 0 remaining then insert account_id remaining totals else erase account_id totals

abbrev pub release_usage : ℕ → Option SignalingUsage → Manager → Bool × Manager
release_usage transfer_id none m = (false, m)
release_usage transfer_id (some u) m = (
  true,
  record m {
    signaling = erase transfer_id m.signaling;
    account_totals =
        less_total u.account_id (account_total u.account_id m - u.total) m.account_totals;
  },
)

-- `_release_signaling`. Where Python's difference is negative, `-` on ℕ is 0: both drop the entry.
unfoldable pub release_signaling : (transfer_id : ℕ) → Manager → Bool × Manager
release_signaling transfer_id m = release_usage transfer_id (lookup transfer_id m.signaling) m

-- `_clear_signaling_state`, which `release_transfer` calls
unfoldable pub clear_signaling_state : (transfer_id : ℕ) → Manager → Manager
unfolding release_signaling
clear_signaling_state transfer_id m =
    let (cleared, m') = release_signaling transfer_id m in
    if cleared then log_effect (counted signaling_state_cleaned 1) m' else m'

-- `usage.updated_at <= now - SIGNALING_STATE_RETENTION`
abbrev pub is_stale : (now : ℕ) → SignalingUsage → Bool
is_stale now u = leb (u.updated_at + signaling_state_retention) now

unfoldable pub stale_transfers : (now : ℕ) → Dict SignalingUsage → List ℕ
stale_transfers now [] = []
stale_transfers now ((t, u) ∷ rest) =
    let more = stale_transfers now rest in if is_stale now u then t ∷ more else more

unfoldable pub release_each : List ℕ → Manager → Manager
unfolding release_signaling
release_each [] m = m
release_each (t ∷ ts) m = release_each ts (release_signaling t m).1

abbrev pub count_cleaned : List ℕ → Manager → Manager
count_cleaned [] m = m
count_cleaned (t ∷ ts) m = log_effect (counted signaling_state_cleaned (length (t ∷ ts))) m

-- `_prune_signaling_state`
unfoldable pub prune_signaling_state : (now : ℕ) → Manager → Manager
unfolding stale_transfers release_each
prune_signaling_state now m =
    count_cleaned (stale_transfers now m.signaling)
      (release_each (stale_transfers now m.signaling) m)
