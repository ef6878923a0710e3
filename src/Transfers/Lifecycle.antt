-- ===== src/Transfers/Lifecycle.antt =====
-- What an operation of the in-memory repository may do to a transfer, and what it keeps of the CHECK
-- constraints of `private.transfer_requests`
-- (supabase/migrations/20260827085935_create_private_schema.sql): a completion time exactly in a completed
-- row, an acceptance time in every row but an offered, rejected or expired one, and a failure code in
-- none but a failed one. The schema also wants a code in every failed row, which `transition` in memory
-- does not give it.
use self_relay.Base.{
  ℕ, ◌≡◌, refl, ◌⊎◌, inl, inr, Bool, true, false, Option, [], ◌∷◌, String, arith, is_some,
}
use self_relay.Records.{
  TransferStatus, TransferRequestRecord, offered, completed, rejected, failed, same_status,
}
use self_relay.Transfers.Status.{status_in, active_statuses, valid_transitions}
use self_relay.Transfers.Memory.{updated_record}

-- `before offered`: the statuses whose rows may have no acceptance time.
abbrev pub may_lack_acceptance : TransferStatus → Bool
may_lack_acceptance s = status_in s (offered ∷ rejected ∷ TransferStatus.expired ∷ [])

pub record IsLegal (r : TransferRequestRecord) : Type 0 where
  pub completion : same_status r.status completed ≡ is_some r.completed_at
  pub acceptance : may_lack_acceptance r.status ≡ false → is_some r.accepted_at ≡ true
  pub failure : is_some r.failure_code ≡ true → r.status ≡ failed

-- One step of a transfer's life.
pub record Evolves (r r' : TransferRequestRecord) : Type 0 where
  pub id_kept : r'.id ≡ r.id
  pub user_kept : r'.user_id ≡ r.user_id
  pub sender_kept : r'.sender_device_id ≡ r.sender_device_id
  pub recipient_kept : r'.recipient_device_id ≡ r.recipient_device_id
  pub version_kept : r'.protocol_version ≡ r.protocol_version
  pub created_kept : r'.created_at ≡ r.created_at
  pub expiry_kept : r'.expires_at ≡ r.expires_at
  pub edge : (r'.status ≡ r.status) ⊎ (status_in r'.status (valid_transitions r.status) ≡ true)
  pub acceptance_kept : is_some r.accepted_at ≡ true → r'.accepted_at ≡ r.accepted_at
  pub relay_kept : r.relay_used ≡ true → r'.relay_used ≡ true
  pub final : status_in r.status active_statuses ≡ false → r' ≡ r
  pub legal : IsLegal r → IsLegal r'

-- A status that the table leads away from is active.
has_targets :
    (s to : TransferStatus)
    → status_in to (valid_transitions s) ≡ true
    → status_in s active_statuses ≡ true
has_targets s to h = ground arith

pub Evolves-refl : (r : TransferRequestRecord) → Evolves r r
Evolves-refl r = record {
  id_kept = refl;
  user_kept = refl;
  sender_kept = refl;
  recipient_kept = refl;
  version_kept = refl;
  created_kept = refl;
  expiry_kept = refl;
  edge = inl refl;
  acceptance_kept = λ h. refl;
  relay_kept = λ h. h;
  final = λ h. refl;
  legal = λ h. h;
}

legal_completion :
    (wall : ℕ) (to : TransferStatus) (code : Option String) (r : TransferRequestRecord)
    → status_in to (valid_transitions r.status) ≡ true
    → IsLegal r
    → same_status to completed ≡ is_some (updated_record wall to code r).completed_at
legal_completion wall to code r edge h = ground arith

legal_acceptance :
    (wall : ℕ) (to : TransferStatus) (code : Option String) (r : TransferRequestRecord)
    → status_in to (valid_transitions r.status) ≡ true
    → IsLegal r
    → may_lack_acceptance to ≡ false
    → is_some (updated_record wall to code r).accepted_at ≡ true
legal_acceptance wall to code r edge h lacks = ground arith

-- A row that takes an edge of the table evolves.
pub updated_record-Evolves :
    (wall : ℕ) (to : TransferStatus) (code : Option String) (r : TransferRequestRecord)
    → status_in to (valid_transitions r.status) ≡ true
    → (is_some code ≡ true → to ≡ failed)
    → Evolves r (updated_record wall to code r)
updated_record-Evolves wall to code r e only_failed = record {
  id_kept = refl;
  user_kept = refl;
  sender_kept = refl;
  recipient_kept = refl;
  version_kept = refl;
  created_kept = refl;
  expiry_kept = refl;
  edge = inr e;
  acceptance_kept = λ h. ground arith;
  relay_kept = λ h. h;
  final = λ h. cc (has_targets r.status to e);
  legal = λ h. record {
    completion = legal_completion wall to code r e h;
    acceptance = legal_acceptance wall to code r e h;
    failure = only_failed;
  };
}
