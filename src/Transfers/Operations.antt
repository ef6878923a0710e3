-- ===== src/Transfers/Operations.antt =====
-- The public operations of `InMemoryTransferRequestRepository` that change a transfer, and all of
-- them together as one function of a call.
use self_relay.Base.{
  ℕ, Bool, true, false, ◌||◌, not, Option, none, some, List, [], ◌∷◌, String, ◌==◌, leb,
}
use self_relay.Base.Dict.{insert}
use self_relay.Records.{
  TransferStatus, TransferRequestRecord, offered, accepted, negotiating, connected, transferring,
  completed, rejected, cancelled, failed,
}
use self_relay.Transfers.Status.{status_in, active_statuses, failable_statuses}
use self_relay.Base.Rows.{update_row}
use self_relay.Transfers.Memory.{
  Store, Outcome, DeviceLookup, transition, actor_transition, expire_active,
}

module _ (devices : DeviceLookup) (now wall account_id transfer_id : ℕ) where
  unfoldable pub accept : ℕ → Store → Outcome
  unfolding actor_transition
  accept recipient =
      actor_transition devices now wall account_id transfer_id (offered ∷ []) accepted recipient
        true none

  unfoldable pub reject : ℕ → Store → Outcome
  unfolding actor_transition
  reject recipient =
      actor_transition devices now wall account_id transfer_id (offered ∷ []) rejected recipient
        true none

  unfoldable pub cancel : ℕ → Store → Outcome
  unfolding actor_transition
  cancel actor =
      actor_transition devices now wall account_id transfer_id active_statuses cancelled actor false
        none

module _ (now wall account_id transfer_id : ℕ) where
  -- `expired_offer or await self._expire_active(...)`
  abbrev or_expire_active : Outcome → Outcome
  or_expire_active (some r, s) = (some r, s)
  or_expire_active (none, s) = expire_active now wall account_id transfer_id s

  unfoldable pub expire : Store → Outcome
  unfolding transition expire_active
  expire s =
      or_expire_active (transition now wall account_id transfer_id offered TransferStatus.expired s)

  unfoldable pub mark_negotiating : Store → Outcome
  unfolding transition
  mark_negotiating = transition now wall account_id transfer_id accepted negotiating

  unfoldable pub mark_connected : Store → Outcome
  unfolding transition
  mark_connected = transition now wall account_id transfer_id negotiating connected

  unfoldable pub mark_transferring : Store → Outcome
  unfolding transition
  mark_transferring = transition now wall account_id transfer_id connected transferring

  unfoldable pub complete : Store → Outcome
  unfolding transition
  complete = transition now wall account_id transfer_id transferring completed

  -- The loop of `fail` for a caller that names no device: the code is written in a second step.
  abbrev pub fail_with : String → Outcome → (Store → Outcome) → Outcome
  fail_with code (some r, s) rest =
      let updated : TransferRequestRecord = record r { failure_code = some code } in
      (some updated, insert r.id updated s)
  fail_with code (none, s) rest = rest s

  unfoldable pub fail_from : String → List TransferStatus → Store → Outcome
  unfolding transition
  fail_from code [] s = (none, s)
  fail_from code (status ∷ rest) s =
      fail_with code (transition now wall account_id transfer_id status failed s)
        (fail_from code rest)

  unfoldable pub fail : DeviceLookup → String → Option ℕ → Store → Outcome
  unfolding fail_from actor_transition
  fail devices code none s = fail_from code failable_statuses s
  fail devices code (some actor) s =
      actor_transition devices now wall account_id transfer_id failable_statuses failed actor false
        (some code) s

  abbrev pub relay_rejects : TransferRequestRecord → Bool
  relay_rejects r =
      not (r.user_id == account_id)
      || not (status_in r.status active_statuses)
      || leb r.expires_at now

  unfoldable pub mark_relay_used : Store → Outcome
  unfolding update_row
  mark_relay_used s = update_row relay_rejects (λ r. record r { relay_used = true }) transfer_id s

-- A call of one of the operations. `mark_expired`, `mark_complete`, `mark_failed`, `set_relay_used`
-- and `update_status` only pass their arguments on.
pub data Operation : Type 0 where
  transitions : TransferStatus → TransferStatus → Operation
  accepts rejects cancels : ℕ → Operation
  expires : Operation
  fails : String → Option ℕ → Operation
  marks_negotiating marks_connected marks_transferring completes marks_relay_used : Operation

pub record Call : Type 0 where
  pub now : ℕ
  pub wall : ℕ
  pub account_id : ℕ
  pub transfer_id : ℕ
  pub operation : Operation

unfoldable pub perform :
    DeviceLookup → (now wall account_id transfer_id : ℕ) → Operation → Store → Outcome
unfolding transition accept reject cancel expire fail mark_negotiating mark_connected
    mark_transferring complete mark_relay_used
perform devices now wall a t (transitions from to) = transition now wall a t from to
perform devices now wall a t (accepts d) = accept devices now wall a t d
perform devices now wall a t (rejects d) = reject devices now wall a t d
perform devices now wall a t (cancels d) = cancel devices now wall a t d
perform devices now wall a t expires = expire now wall a t
perform devices now wall a t (fails code actor) = fail now wall a t devices code actor
perform devices now wall a t marks_negotiating = mark_negotiating now wall a t
perform devices now wall a t marks_connected = mark_connected now wall a t
perform devices now wall a t marks_transferring = mark_transferring now wall a t
perform devices now wall a t completes = complete now wall a t
perform devices now wall a t marks_relay_used = mark_relay_used now wall a t

unfoldable pub run : DeviceLookup → List Call → Store → Store
unfolding perform
run devices [] s = s
run devices (c ∷ cs) s =
    run devices cs (perform devices c.now c.wall c.account_id c.transfer_id c.operation s).1
