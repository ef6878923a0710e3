-- ===== src/Transfers/Refinement.antt =====
-- The in-memory repository and the SQL one are the same function of the transfer rows, for an
-- account that is not deleted and whose active devices are of its current epoch.
use self_relay.Base.{
  ℕ, ◌≤◌, ◌≡◌, ◌≢◌, ◌||◌, refl, ap, ◌∙◌, inl, inr, Bool, true, false, ◌&&◌, not, Option, none, some,
  List, [], ◌∷◌, String, arith, ◌==◌, ltb, leb, if◌then◌else◌, Option-cases, Bool-cases,
}
use Prim.Native.String.{count}
use self_relay.Base.Dict.{lookup}
use self_relay.Records.{
  AccountRecord, DeviceRecord, TransferStatus, TransferRequestRecord, offered, accepted,
  negotiating, connected, transferring, completed, rejected, cancelled, failed, same_status,
}
use self_relay.Transfers.Status.{status_in, active_statuses, failable_statuses, valid_transitions}
use self_relay.Base.Rows.{update_row, update_row-ext, update_row-rejected}
use self_relay.Transfers.Memory
use self_relay.Transfers.Memory.{
  DeviceLookup, is_active_device, updated_record, transition_rejects, actor_rejects, actor_allowed,
  expire_rejects, active_device,
}
use self_relay.Transfers.Operations
use self_relay.Transfers.Operations.{
  Operation, transitions, accepts, rejects, cancels, expires, fails, marks_negotiating,
  marks_connected, marks_transferring, completes, marks_relay_used, relay_rejects,
}
use self_relay.Transfers.Failing.{
  IsKeyed, fail_rejects, fail_from-eq-update_row, expire-eq-update_row,
}
use self_relay.Transfers.Sql
use self_relay.Transfers.Sql.{
  Database, SqlOutcome, ActorRole, recipient, participant, row_matches, actor_holds, current_device,
  set_clauses, admits_written, not_deleted, put_back, update_transfer, get_device, relay_matches,
}

-- The account stands in the database, is not deleted, and its active devices are of its epoch.
pub record IsReady (db : Database) (account_id : ℕ) (account : AccountRecord) : Type 0 where
  pub found : lookup account_id db.accounts ≡ some account
  pub live : account.deleted_at ≡ none
  pub current :
      (d : ℕ) (device : DeviceRecord)
      → lookup d db.devices ≡ some device
      → device.user_id ≡ account_id
      → is_active_device device.status ≡ true
      → device.epoch ≡ account.device_epoch

-- The schema admits what the operation writes: it is no bare transition to `failed`, and the code of a
-- failure has 1 to 64 characters.
abbrev pub IsAdmitted : Operation → Type 0
IsAdmitted (transitions from to) = to ≢ failed
IsAdmitted (fails code actor) = (1 ≤ count code) × (count code ≤ 64)
IsAdmitted _ = Unit

not_failed : (s : TransferStatus) → s ≢ failed → same_status s failed ≡ false
not_failed s other = elim (Bool-cases (same_status s failed)) [
  | inl same ↦ absurd (other (is_failed s same))
  | inr e ↦ e
]
  where
    is_failed : (s : TransferStatus) → same_status s failed ≡ true → s ≡ failed
    is_failed s e = ground arith

fitting : (x y : Bool) → y ≡ true → (x || not y) ≡ x
fitting x y e = ground arith

-- Both write the same record, if a code comes with `failed` only.
writes_same :
    (now : ℕ) (to : TransferStatus) (code : Option String) (r : TransferRequestRecord)
    → (same_status to failed ≡ false → code ≡ none)
    → set_clauses now to code r ≡ updated_record now to code r
writes_same now to code r h = ground arith

module _ (db : Database) (now a : ℕ) (account : AccountRecord) (ready : IsReady db a account) where
  -- The actor's `EXISTS` and the in-memory device check agree.
  actor_same :
      (d : ℕ)
      → current_device a (some account) (lookup d db.devices) ≡ active_device (get_device db a d)
  actor_same d = elim (Option-cases (lookup d db.devices)) [
    | inl e ↦ rw e
    | inr (device, e) ↦ rw e (ground (arith, ready.current d device e, ready.live))
  ]

  live_at : (u : ℕ) → u ≡ a → not_deleted (lookup u db.accounts) ≡ true
  live_at u e = rw (e, ready.found) (ground (arith, ready.live))

  actor_at :
      (d u : ℕ)
      → u ≡ a
      → current_device u (lookup u db.accounts) (lookup d db.devices)
        ≡ active_device (get_device db a d)
  actor_at d u e = rw (e, ready.found) (actor_same d)

  free_test :
      (from : List TransferStatus) (unexpired : Bool) (role : ActorRole) (r : TransferRequestRecord)
      → row_matches db now a from unexpired role none r ≡ (
          r.user_id == a
          && status_in r.status from
          && (if unexpired then ltb now r.expires_at else leb r.expires_at now))
  free_test from unexpired role r = elim (Bool-cases (r.user_id == a)) [
    | inl own ↦ ground (arith, live_at r.user_id (ground arith))
    | inr other ↦ ground arith
  ]

  actor_test :
      (from : List TransferStatus) (role : ActorRole) (d : ℕ) (r : TransferRequestRecord)
      → row_matches db now a from true role (some d) r ≡ (
          r.user_id == a
          && status_in r.status from
          && ltb now r.expires_at
          && active_device (get_device db a d)
          && Sql.role_holds role d r)
  actor_test from role d r = elim (Bool-cases (r.user_id == a)) [
    | inl own ↦
        let e : r.user_id ≡ a = ground arith in
        rw (live_at r.user_id e, actor_at d r.user_id e) (ground arith)
    | inr other ↦ ground arith
  ]

  -- A conditional write without an actor.
  free_update :
      (from : List TransferStatus) (to : TransferStatus) (unexpired : Bool) (role : ActorRole)
      (code : Option String) (t : ℕ) (rejects' : TransferRequestRecord → Bool)
      → admits_written to code ≡ true
      → (same_status to failed ≡ false → code ≡ none)
      → ((r : TransferRequestRecord)
          → not (
              r.user_id == a
              && status_in r.status from
              && (if unexpired then ltb now r.expires_at else leb r.expires_at now))
            ≡ rejects' r)
      → update_transfer now a t from to unexpired role none code db
        ≡ put_back db (update_row rejects' (updated_record now to code) t db.transfers)
  unfolding update_transfer
  free_update from to unexpired role code t rejects' fits h same = ap (put_back db) (
      update_row-ext _ rejects' (set_clauses now to code) (updated_record now to code) t
        db.transfers
        (λ r.
          fitting (not (row_matches db now a from unexpired role none r)) (admits_written to code)
            fits
          ∙ ap not (free_test from unexpired role r)
          ∙ same r)
        (λ r. writes_same now to code r h))

  actor_update :
      (from : List TransferStatus) (to : TransferStatus) (role : ActorRole) (only : Bool)
      (code : Option String) (t d : ℕ)
      → admits_written to code ≡ true
      → (same_status to failed ≡ false → code ≡ none)
      → ((r : TransferRequestRecord)
          → Sql.role_holds role d r
            ≡ (if only then r.recipient_device_id == d else Memory.participates d r))
      → update_transfer now a t from to true role (some d) code db
        ≡ put_back db (
            Memory.actor_transition
              (some (get_device db))
              now
              now
              a
              t
              from
              to
              d
              only
              code
              db.transfers)
  unfolding update_transfer Memory.actor_transition
  actor_update from to role only code t d fits h same =
      elim (Bool-cases (active_device (get_device db a d))) [
        | inl allowed ↦ rw allowed (
            ap (put_back db) (
              update_row-ext _ (actor_rejects now a from d only) (set_clauses now to code)
                (updated_record now to code) t db.transfers
                (λ r.
                  fitting (not (row_matches db now a from true role (some d) r))
                    (admits_written to code) fits
                  ∙ ap not (actor_test from role d r)
                  ∙ passes r allowed)
                (λ r. writes_same now to code r h)))
        | inr barred ↦ rw barred (
            ap (put_back db) (
              update_row-rejected _ (set_clauses now to code) t db.transfers (λ r.
                fitting (not (row_matches db now a from true role (some d) r))
                  (admits_written to code) fits
                ∙ stops r barred)))
      ]
    where
      passes :
          (r : TransferRequestRecord)
          → active_device (get_device db a d) ≡ true
          → not (
              r.user_id == a
              && status_in r.status from
              && ltb now r.expires_at
              && active_device (get_device db a d)
              && Sql.role_holds role d r)
            ≡ actor_rejects now a from d only r
      passes r allowed = rw (allowed, same r) (ground arith)

      stops :
          (r : TransferRequestRecord)
          → active_device (get_device db a d) ≡ false
          → not (row_matches db now a from true role (some d) r) ≡ true
      stops r barred = rw (actor_test from role d r, barred) (ground arith)

  transition_same :
      (t : ℕ) (from to : TransferStatus)
      → admits_written to none ≡ true
      → Sql.transition now a t from to db
        ≡ put_back db (Memory.transition now now a t from to db.transfers)
  unfolding Sql.transition Memory.transition
  transition_same t from to fits = elim (Bool-cases (status_in to (valid_transitions from))) [
    | inl allowed ↦ rw allowed (
        free_update (from ∷ []) to (not (same_status to TransferStatus.expired)) participant none t
          (transition_rejects now a from to) fits (λ h. refl) (λ r. ground arith))
    | inr barred ↦ rw barred
  ]

  expire_same :
      (t : ℕ) → Sql.expire now a t db ≡ put_back db (Operations.expire now now a t db.transfers)
  unfolding Sql.expire
  expire_same t = rw (expire-eq-update_row now now a t db.transfers) (
      free_update active_statuses TransferStatus.expired false participant none t
        (expire_rejects now a) refl (λ h. refl) (λ r. ground arith))

  fail_same :
      (t : ℕ) (code : String) (actor : Option ℕ)
      → admits_written failed (some code) ≡ true
      → IsKeyed db.transfers
      → Sql.fail now a t code actor db
        ≡ put_back db (Operations.fail now now a t (some (get_device db)) code actor db.transfers)
  unfolding Sql.fail Operations.fail
  fail_same t code none fits keyed =
      rw (fail_from-eq-update_row now now a t code db.transfers keyed) (
        free_update failable_statuses failed true participant (some code) t
          (fail_rejects now a failable_statuses) fits (λ h. cc) (λ r. ground arith))
  fail_same t code (some d) fits keyed =
      actor_update failable_statuses failed participant false (some code) t d fits (λ h. cc)
        (λ r. refl)

  relay_same :
      (t : ℕ)
      → Sql.mark_relay_used now a t db
        ≡ put_back db (Operations.mark_relay_used now now a t db.transfers)
  unfolding Sql.mark_relay_used Operations.mark_relay_used
  relay_same t = ap (put_back db) (
      update_row-ext _ (relay_rejects now now a t) (λ r. record r { relay_used = true })
        (λ r. record r { relay_used = true }) t db.transfers (λ r. tests r) (λ r. refl))
    where
      tests :
          (r : TransferRequestRecord)
          → not (relay_matches now a t db r) ≡ relay_rejects now now a t r
      tests r = elim (Bool-cases (r.user_id == a)) [
        | inl own ↦ rw (live_at r.user_id (ground arith)) (ground arith)
        | inr other ↦ ground arith
      ]

-- For an account in good standing, every operation of the SQL repository returns what the in-memory
-- repository returns and leaves the same transfer rows, at one instant and with the devices of the
-- database: accounts and devices stay as they are. This is for operations that the schema admits: not the
-- bare transition to `failed`, and no failure code but of 1 to 64 characters.
pub sql-eq-memory :
    (db : Database) (now a t : ℕ) (account : AccountRecord) (op : Operation)
    → IsAdmitted op
    → IsReady db a account
    → IsKeyed db.transfers
    → Sql.perform now a t op db
      ≡ put_back db (Operations.perform (some (get_device db)) now now a t op db.transfers)
unfolding Sql.perform Operations.perform Sql.accept Sql.reject Sql.cancel Operations.accept
    Operations.reject Operations.cancel Sql.mark_negotiating Sql.mark_connected
    Sql.mark_transferring Sql.complete Operations.mark_negotiating Operations.mark_connected
    Operations.mark_transferring Operations.complete
sql-eq-memory db now a t account (transitions from to) admitted ready keyed =
    transition_same db now a account ready t from to
      (let bare : same_status to failed ≡ false = not_failed to admitted in ground arith)
sql-eq-memory db now a t account (accepts d) admitted ready keyed =
    actor_update db now a account ready (offered ∷ []) accepted recipient true none t d refl
      (λ h. refl) (λ r. refl)
sql-eq-memory db now a t account (rejects d) admitted ready keyed =
    actor_update db now a account ready (offered ∷ []) rejected recipient true none t d refl
      (λ h. refl) (λ r. refl)
sql-eq-memory db now a t account (cancels d) admitted ready keyed =
    actor_update db now a account ready active_statuses cancelled participant false none t d refl
      (λ h. refl) (λ r. refl)
sql-eq-memory db now a t account expires admitted ready keyed = expire_same db now a account ready t
sql-eq-memory db now a t account (fails code actor) admitted ready keyed =
    let fits : admits_written failed (some code) ≡ true = ground arith in
    fail_same db now a account ready t code actor fits keyed
sql-eq-memory db now a t account marks_negotiating admitted ready keyed =
    transition_same db now a account ready t accepted negotiating refl
sql-eq-memory db now a t account marks_connected admitted ready keyed =
    transition_same db now a account ready t negotiating connected refl
sql-eq-memory db now a t account marks_transferring admitted ready keyed =
    transition_same db now a account ready t connected transferring refl
sql-eq-memory db now a t account completes admitted ready keyed =
    transition_same db now a account ready t transferring completed refl
sql-eq-memory db now a t account marks_relay_used admitted ready keyed =
    relay_same db now a account ready t
