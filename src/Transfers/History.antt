-- ===== src/Transfers/History.antt =====
-- What any sequence of operations does to the stored transfers.
use self_relay.Base.{
  ℕ, ◌≡◌, refl, ◌∙◌, ◌⊎◌, inl, inr, true, false, Option, none, some, List, [], ◌∷◌, is_some,
}
use self_relay.Base.Dict.{lookup}
use self_relay.Records.{TransferStatus, TransferRequestRecord}
use self_relay.Transfers.Status.{status_in, active_statuses, valid_transitions}
use self_relay.Base.Rows.{Related, Related-refl, Holds-Related}
use self_relay.Transfers.Memory.{Store, DeviceLookup}
use self_relay.Transfers.Operations.{Call, perform, run}
use self_relay.Transfers.Failing.{IsKeyed}
use self_relay.Transfers.Lifecycle.{IsLegal, Evolves}
use self_relay.Transfers.Steps.{Keeps, perform-Keeps}

-- A path in the transition table.
pub data Leads (s : TransferStatus) : TransferStatus → Type 0 where
  stay : Leads s s
  follow : {t u : TransferStatus} → Leads s t → status_in u (valid_transitions t) ≡ true → Leads s u

-- What a whole history keeps of a transfer.
pub record Outlives (r r' : TransferRequestRecord) : Type 0 where
  pub identity : (r'.id ≡ r.id) × (r'.user_id ≡ r.user_id)
  pub parties :
      (r'.sender_device_id ≡ r.sender_device_id)
      × (r'.recipient_device_id ≡ r.recipient_device_id)
      × (r'.protocol_version ≡ r.protocol_version)
  pub times : (r'.created_at ≡ r.created_at) × (r'.expires_at ≡ r.expires_at)
  pub path : Leads r.status r'.status
  pub acceptance_kept : is_some r.accepted_at ≡ true → r'.accepted_at ≡ r.accepted_at
  pub relay_kept : r.relay_used ≡ true → r'.relay_used ≡ true
  pub final : status_in r.status active_statuses ≡ false → r' ≡ r
  pub legal : IsLegal r → IsLegal r'

extend_path :
    {s t u : TransferStatus}
    → Leads s t
    → (u ≡ t) ⊎ (status_in u (valid_transitions t) ≡ true)
    → Leads s u
extend_path p (inl e) = rw e p
extend_path p (inr h) = follow p h

Outlives-refl : (r : TransferRequestRecord) → Outlives r r
Outlives-refl r = record {
  identity = (refl, refl);
  parties = (refl, refl, refl);
  times = (refl, refl);
  path = stay;
  acceptance_kept = λ h. refl;
  relay_kept = λ h. h;
  final = λ h. refl;
  legal = λ h. h;
}

Outlives-step : (x y z : TransferRequestRecord) → Outlives x y → Evolves y z → Outlives x z
Outlives-step x y z p q = record {
  identity = (q.id_kept ∙ p.identity.0, q.user_kept ∙ p.identity.1);
  parties =
      (q.sender_kept ∙ p.parties.0, q.recipient_kept ∙ p.parties.1, q.version_kept ∙ p.parties.2);
  times = (q.created_kept ∙ p.times.0, q.expiry_kept ∙ p.times.1);
  path = extend_path p.path q.edge;
  acceptance_kept = λ h. q.acceptance_kept (rw (p.acceptance_kept h) h) ∙ p.acceptance_kept h;
  relay_kept = λ h. q.relay_kept (p.relay_kept h);
  final = λ h. q.final (rw (p.final h) h) ∙ p.final h;
  legal = λ h. q.legal (p.legal h);
}

-- The step after a history, row by row.
Outlives-then :
    (a b c : Option TransferRequestRecord)
    → Related Outlives a b
    → Related Evolves b c
    → Related Outlives a c
Outlives-then none none none p q = tt
Outlives-then none none (some z) p q = absurd q
Outlives-then none (some y) c p q = absurd p
Outlives-then (some x) none c p q = absurd p
Outlives-then (some x) (some y) none p q = absurd q
Outlives-then (some x) (some y) (some z) p q = Outlives-step x y z p q

pub Keeps-IsKeyed : (s s' : Store) → Keeps s s' → IsKeyed s → IsKeyed s'
Keeps-IsKeyed s s' keeps keyed k =
    Holds-Related Evolves (λ r. r.id ≡ k) (lookup k s) (lookup k s') (λ r r' e h. e.id_kept ∙ h)
      (keeps k) (keyed k)

run_from-Outlives :
    (devices : DeviceLookup) (calls : List Call) (s₀ s : Store)
    → IsKeyed s
    → ((j : ℕ) → Related Outlives (lookup j s₀) (lookup j s))
    → (j : ℕ) → Related Outlives (lookup j s₀) (lookup j (run devices calls s))
unfolding run
run_from-Outlives devices [] s₀ s keyed past j = past j
run_from-Outlives devices (c ∷ cs) s₀ s keyed past j =
    let s' : Store = (perform devices c.now c.wall c.account_id c.transfer_id c.operation s).1 in
    let keeps : Keeps s s' =
      perform-Keeps devices c.now c.wall c.account_id c.transfer_id c.operation s keyed in
    run_from-Outlives devices cs s₀ s' (Keeps-IsKeyed s s' keeps keyed)
      (λ i. Outlives-then (lookup i s₀) (lookup i s) (lookup i s') (past i) (keeps i)) j

-- Whatever operations are called on a store whose rows stand under their own identifiers, by
-- whichever accounts and devices and at whatever times: no row appears or vanishes; each row keeps
-- its identity, parties and deadline, moves along a path of the transition table, keeps its first
-- acceptance time and its relay mark, and is frozen once its status is final. If at the start it has a completion
-- time exactly when it is completed, an acceptance time unless it is offered, rejected or expired, and no
-- failure code unless it failed, then so it has at the end; a failed row may lack a code.
pub run-Outlives :
    (devices : DeviceLookup) (calls : List Call) (s : Store)
    → IsKeyed s
    → (j : ℕ) → Related Outlives (lookup j s) (lookup j (run devices calls s))
run-Outlives devices calls s keyed =
    run_from-Outlives devices calls s s keyed
      (λ j. Related-refl Outlives Outlives-refl (lookup j s))
