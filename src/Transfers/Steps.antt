-- ===== src/Transfers/Steps.antt =====
-- Every operation of the in-memory repository takes an edge of the transition table or leaves the
-- row alone; `fail` without a device is one conditional write.
use self_relay.Base.{
  ℕ, ◌≡◌, refl, sym, ◌⊎◌, inl, inr, Bool, true, false, Option, none, some, List, [], ◌∷◌, String,
  arith, leb, is_some, Bool-cases,
}
use self_relay.Base.Dict.{lookup}
use self_relay.Records.{
  TransferStatus, TransferRequestRecord, offered, accepted, negotiating, connected, transferring,
  completed, rejected, cancelled, failed, same_status,
}
use self_relay.Transfers.Status.{status_in, active_statuses, failable_statuses, valid_transitions}
use self_relay.Base.Rows.{
  Related, Related-refl, update_row-Related, update_row, update_row-rejected,
}
use self_relay.Transfers.Memory.{
  Store, Outcome, DeviceLookup, updated_record, transition_rejects, actor_rejects, actor_allowed,
  expire_rejects, transition, actor_transition,
}
use self_relay.Transfers.Operations.{
  accept, reject, cancel, expire, fail, mark_relay_used, mark_negotiating, Operation, perform,
  transitions, accepts, rejects, cancels, expires, fails, marks_negotiating, marks_connected,
  relay_rejects, marks_transferring, completes, marks_relay_used, mark_connected, mark_transferring,
  complete,
}
use self_relay.Transfers.Failing.{
  IsKeyed, fail_rejects, fail_from-eq-update_row, expire-eq-update_row,
}
use self_relay.Transfers.Lifecycle.{Evolves, Evolves-refl, updated_record-Evolves}

pub same_status-eq : (a b : TransferStatus) → same_status a b ≡ true → a ≡ b
same_status-eq a b h = ground arith

-- The row of every identifier, before and after.
abbrev pub Keeps : Store → Store → Type 0
Keeps s s' = (j : ℕ) → Related Evolves (lookup j s) (lookup j s')

pub Keeps-refl : (s : Store) → Keeps s s
Keeps-refl s j = Related-refl Evolves Evolves-refl (lookup j s)

-- A set of source statuses from each of which the table leads to the target.
abbrev pub LeadsTo : List TransferStatus → TransferStatus → Type 0
LeadsTo from to =
    (s : TransferStatus) → status_in s from ≡ true → status_in to (valid_transitions s) ≡ true

offered-accepted : LeadsTo (offered ∷ []) accepted
offered-accepted s h = ground arith

offered-rejected : LeadsTo (offered ∷ []) rejected
offered-rejected s h = ground arith

active-cancelled : LeadsTo active_statuses cancelled
active-cancelled s h = ground arith

active-expired : LeadsTo active_statuses TransferStatus.expired
active-expired s h = ground arith

pub failable-failed : LeadsTo failable_statuses failed
failable-failed s h = ground arith

-- An operation is one conditional write of the row that it names, and the write is a step of the
-- transfer's life.
pub record Updates (now t : ℕ) (s : Store) (o : Outcome) : Type 0 where
  pub rejects : TransferRequestRecord → Bool
  pub updated : TransferRequestRecord → TransferRequestRecord
  pub same : o ≡ update_row rejects updated t s
  pub evolves : (r : TransferRequestRecord) → rejects r ≡ false → Evolves r (updated r)
  -- Only an expiry is written at or after the deadline, and none before it.
  pub timely :
      (r : TransferRequestRecord)
      → rejects r ≡ false
      → leb r.expires_at now ≡ same_status (updated r).status TransferStatus.expired

-- A refusal before the row is looked up.
refused : (now t : ℕ) (s : Store) → Updates now t s (none, s)
refused now t s = record {
  rejects = λ r. true;
  updated = λ r. r;
  same = sym (update_row-rejected (λ r. true) (λ r. r) t s (λ r. refl));
  evolves = λ r h. Evolves-refl r;
  timely = λ r h. cc;
}

transition-Updates :
    (now wall a t : ℕ) (from to : TransferStatus) (s : Store)
    → Updates now t s (transition now wall a t from to s)
unfolding transition
transition-Updates now wall a t from to s =
    elim (Bool-cases (status_in to (valid_transitions from))) [
      | inl allowed ↦ rw allowed (record {
        rejects = transition_rejects now a from to;
        updated = updated_record wall to none;
        same = refl;
        evolves = λ r ok. steps r allowed ok;
        timely = λ r ok. on_time r ok;
      })
      | inr barred ↦ rw barred (refused now t s)
    ]
  where
    steps :
        (r : TransferRequestRecord)
        → status_in to (valid_transitions from) ≡ true
        → transition_rejects now a from to r ≡ false
        → Evolves r (updated_record wall to none r)
    steps r allowed ok =
        let e : r.status ≡ from = same_status-eq r.status from (ground arith) in
        updated_record-Evolves wall to none r (rw e allowed) (λ h. cc)

    on_time :
        (r : TransferRequestRecord)
        → transition_rejects now a from to r ≡ false
        → leb r.expires_at now ≡ same_status to TransferStatus.expired
    on_time r ok = elim (Bool-cases (same_status to TransferStatus.expired)) [
      | inl expiring ↦ ground arith
      | inr other ↦ ground arith
    ]

actor_transition-Updates :
    (devices : DeviceLookup) (now wall a t : ℕ) (from : List TransferStatus) (to : TransferStatus)
    (actor : ℕ) (only : Bool) (code : Option String) (s : Store)
    → LeadsTo from to
    → (is_some code ≡ true → to ≡ failed)
    → same_status to TransferStatus.expired ≡ false
    → Updates now t s (actor_transition devices now wall a t from to actor only code s)
unfolding actor_transition
actor_transition-Updates devices now wall a t from to actor only code s leads only_failed other =
    elim (Bool-cases (actor_allowed devices a actor)) [
      | inl allowed ↦ rw allowed (record {
        rejects = actor_rejects now a from actor only;
        updated = updated_record wall to code;
        same = refl;
        evolves = λ r ok.
            updated_record-Evolves wall to code r (leads r.status (in_from r ok)) only_failed;
        timely = λ r ok. rw other (in_time r ok);
      })
      | inr barred ↦ rw barred (refused now t s)
    ]
  where
    in_from :
        (r : TransferRequestRecord)
        → actor_rejects now a from actor only r ≡ false
        → status_in r.status from ≡ true
    in_from r ok = ground arith

    in_time :
        (r : TransferRequestRecord)
        → actor_rejects now a from actor only r ≡ false
        → leb r.expires_at now ≡ false
    in_time r ok = ground arith

expire-Updates : (now wall a t : ℕ) (s : Store) → Updates now t s (expire now wall a t s)
expire-Updates now wall a t s = record {
  rejects = expire_rejects now a;
  updated = updated_record wall TransferStatus.expired none;
  same = expire-eq-update_row now wall a t s;
  evolves = λ r ok.
      updated_record-Evolves wall TransferStatus.expired none r
        (active-expired r.status (ground arith)) (λ h. cc);
  timely = λ r ok. ground arith;
}

fail-Updates :
    (now wall a t : ℕ) (devices : DeviceLookup) (code : String) (actor : Option ℕ) (s : Store)
    → IsKeyed s
    → Updates now t s (fail now wall a t devices code actor s)
unfolding fail
fail-Updates now wall a t devices code none s keyed = record {
  rejects = fail_rejects now a failable_statuses;
  updated = updated_record wall failed (some code);
  same = fail_from-eq-update_row now wall a t code s keyed;
  evolves = λ r ok.
      updated_record-Evolves wall failed (some code) r (failable-failed r.status (ground arith))
        (λ h. refl);
  timely = λ r ok. ground arith;
}
fail-Updates now wall a t devices code (some actor) s keyed =
    actor_transition-Updates devices now wall a t failable_statuses failed actor false (some code) s
      failable-failed (λ h. refl) refl

not_expired :
    (r : TransferRequestRecord) (now : ℕ)
    → status_in r.status active_statuses ≡ true
    → leb r.expires_at now ≡ false
    → leb r.expires_at now ≡ same_status r.status TransferStatus.expired
not_expired r now active early = rw early (ground arith)

relay-Evolves :
    (r : TransferRequestRecord)
    → status_in r.status active_statuses ≡ true
    → Evolves r (record r { relay_used = true })
relay-Evolves r active = record {
  id_kept = refl;
  user_kept = refl;
  sender_kept = refl;
  recipient_kept = refl;
  version_kept = refl;
  created_kept = refl;
  expiry_kept = refl;
  edge = inl refl;
  acceptance_kept = λ h. refl;
  relay_kept = λ h. refl;
  final = λ h. cc;
  legal = λ h. record { completion = h.completion; acceptance = h.acceptance; failure = h.failure };
}

pub perform-Updates :
    (devices : DeviceLookup) (now wall a t : ℕ) (op : Operation) (s : Store)
    → IsKeyed s
    → Updates now t s (perform devices now wall a t op s)
unfolding perform accept reject cancel mark_negotiating mark_connected mark_transferring complete
    mark_relay_used
perform-Updates devices now wall a t (transitions from to) s keyed =
    transition-Updates now wall a t from to s
perform-Updates devices now wall a t (accepts d) s keyed =
    actor_transition-Updates devices now wall a t (offered ∷ []) accepted d true none s
      offered-accepted (λ h. cc) refl
perform-Updates devices now wall a t (rejects d) s keyed =
    actor_transition-Updates devices now wall a t (offered ∷ []) rejected d true none s
      offered-rejected (λ h. cc) refl
perform-Updates devices now wall a t (cancels d) s keyed =
    actor_transition-Updates devices now wall a t active_statuses cancelled d false none s
      active-cancelled (λ h. cc) refl
perform-Updates devices now wall a t expires s keyed = expire-Updates now wall a t s
perform-Updates devices now wall a t (fails code actor) s keyed =
    fail-Updates now wall a t devices code actor s keyed
perform-Updates devices now wall a t marks_negotiating s keyed =
    transition-Updates now wall a t accepted negotiating s
perform-Updates devices now wall a t marks_connected s keyed =
    transition-Updates now wall a t negotiating connected s
perform-Updates devices now wall a t marks_transferring s keyed =
    transition-Updates now wall a t connected transferring s
perform-Updates devices now wall a t completes s keyed =
    transition-Updates now wall a t transferring completed s
perform-Updates devices now wall a t marks_relay_used s keyed = record {
  rejects = relay_rejects now wall a t;
  updated = λ r. record r { relay_used = true };
  same = refl;
  evolves = λ r ok. relay-Evolves r (ground arith);
  timely = λ r ok. not_expired r now (ground arith) (ground arith);
}

pub Updates-Keeps : (now t : ℕ) (s : Store) (o : Outcome) → Updates now t s o → Keeps s o.1
Updates-Keeps now t s o u =
    rw u.same (update_row-Related Evolves u.rejects u.updated t s Evolves-refl u.evolves)

pub perform-Keeps :
    (devices : DeviceLookup) (now wall a t : ℕ) (op : Operation) (s : Store)
    → IsKeyed s
    → Keeps s (perform devices now wall a t op s).1
perform-Keeps devices now wall a t op s keyed =
    Updates-Keeps now t s (perform devices now wall a t op s)
      (perform-Updates devices now wall a t op s keyed)

-- A row as an operation at `now` leaves it: unchanged, or written in time.
abbrev pub InTime : ℕ → TransferRequestRecord → TransferRequestRecord → Type 0
InTime now r r' = (r' ≡ r) ⊎ (leb r.expires_at now ≡ same_status r'.status TransferStatus.expired)

-- At and after a transfer's deadline no operation changes it but to mark it expired, and before the
-- deadline no operation marks it expired.
pub perform-InTime :
    (devices : DeviceLookup) (now wall a t : ℕ) (op : Operation) (s : Store)
    → IsKeyed s
    → (j : ℕ) → Related (InTime now) (lookup j s) (lookup j (perform devices now wall a t op s).1)
perform-InTime devices now wall a t op s keyed =
    let u = perform-Updates devices now wall a t op s keyed in
    rw u.same (
      update_row-Related (InTime now) u.rejects u.updated t s (λ r. inl refl)
        (λ r ok. inr (u.timely r ok)))
