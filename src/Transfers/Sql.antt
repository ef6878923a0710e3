-- ===== src/Transfers/Sql.antt =====
-- `TransferRequestRepository` of backend/app/repositories/transfers.py: the SQL statements, read as
-- functions of the tables. Each statement is atomic and names its row by the primary key.
-- `now` is `CURRENT_TIMESTAMP` of the statement.
use self_relay.Base.{
  ℕ, Bool, true, false, ◌&&◌, ◌||◌, not, Option, none, some, List, [], ◌∷◌, String, ◌==◌, ltb, leb,
  if◌then◌else◌, is_some, coalesce,
}
use Prim.Native.String.{count}
use self_relay.Base.Dict.{Dict, lookup, insert, values}
use self_relay.Records.{
  AccountRecord, DeviceRecord, TransferStatus, TransferRequestRecord, offered, accepted,
  negotiating, connected, transferring, completed, rejected, cancelled, failed, same_status,
}
use self_relay.Transfers.Status.{status_in, active_statuses, failable_statuses, valid_transitions}
use self_relay.Base.Rows.{update_row}
use self_relay.Transfers.Memory.{
  Store, is_active_device, participates, new_offer, owned, of_account, newest_first, of_device,
}
use self_relay.Transfers.Operations.{
  Operation, transitions, accepts, rejects, cancels, expires, fails, marks_negotiating,
  marks_connected, marks_transferring, completes, marks_relay_used,
}

pub record Database : Type 0 where
  pub accounts : Dict AccountRecord
  pub devices : Dict DeviceRecord
  pub transfers : Store

abbrev pub SqlOutcome : Type 0
SqlOutcome = Option TransferRequestRecord × Database

-- `EXISTS (SELECT 1 FROM app_users WHERE id = ... AND deleted_at IS NULL)`
abbrev pub not_deleted : Option AccountRecord → Bool
not_deleted none = false
not_deleted (some account) = not (is_some account.deleted_at)

-- The join of a device with its account: active, of the account's current epoch, account not deleted.
abbrev pub current_device : (user_id : ℕ) → Option AccountRecord → Option DeviceRecord → Bool
current_device user_id none d = false
current_device user_id (some account) none = false
current_device user_id (some account) (some d) =
    d.user_id == user_id
    && is_active_device d.status
    && d.epoch == account.device_epoch
    && not (is_some account.deleted_at)

pub data ActorRole : Type 0 where
  recipient participant : ActorRole

abbrev pub role_holds : ActorRole → ℕ → TransferRequestRecord → Bool
role_holds recipient actor r = r.recipient_device_id == actor
role_holds participant actor r = participates actor r

-- The last `EXISTS` of `_transition`, which stands there when an actor is given.
abbrev pub actor_holds : Database → ActorRole → Option ℕ → TransferRequestRecord → Bool
actor_holds db role none r = true
actor_holds db role (some actor) r =
    current_device r.user_id (lookup r.user_id db.accounts) (lookup actor db.devices)
    && role_holds role actor r

-- The `WHERE` clause of `_transition`.
abbrev pub row_matches :
    Database
    → (now account_id : ℕ) → List TransferStatus
    → (require_unexpired : Bool) → ActorRole
    → Option ℕ
    → TransferRequestRecord
    → Bool
row_matches db now account_id from unexpired role actor r =
    r.user_id == account_id
    && status_in r.status from
    && (if unexpired then ltb now r.expires_at else leb r.expires_at now)
    && not_deleted (lookup r.user_id db.accounts)
    && actor_holds db role actor r

-- transfer_requests_failure_code_check: a code of 1 to 64 characters if the status is `failed`, and none
-- otherwise. (The other checks hold of what these statements write from rows that
-- satisfy them, if the clock does not run back.)
abbrev pub admits_code : TransferStatus → Option String → Bool
admits_code s none = not (same_status s failed)
admits_code s (some code) = same_status s failed && leb 1 (count code) && leb (count code) 64

-- The `SET` clauses of `_transition`.
abbrev pub set_clauses :
    (now : ℕ) → TransferStatus → Option String → TransferRequestRecord → TransferRequestRecord
set_clauses now to code r = record r {
  status = to;
  accepted_at =
      if same_status to accepted || same_status to cancelled
      then some (coalesce r.accepted_at now)
      else r.accepted_at;
  completed_at = if same_status to completed then some now else r.completed_at;
  failure_code = if same_status to failed then code else none;
}

-- The row that the statement would write satisfies the check.
abbrev pub admits_written : TransferStatus → Option String → Bool
admits_written to code = admits_code to (if same_status to failed then code else none)

abbrev pub put_back : Database → Option TransferRequestRecord × Store → SqlOutcome
put_back db (r, s) = (r, record db { transfers = s })

-- `_transition`: no row, and nothing written, where no row matches, and where the check makes it raise
unfoldable pub update_transfer :
    (now account_id transfer_id : ℕ)
    → List TransferStatus
    → TransferStatus
    → (require_unexpired : Bool) → ActorRole
    → Option ℕ
    → Option String
    → Database
    → SqlOutcome
unfolding update_row
update_transfer now account_id transfer_id from to unexpired role actor code db = put_back db (
    update_row
      (λ r.
        not (row_matches db now account_id from unexpired role actor r)
        || not (admits_written to code))
      (set_clauses now to code) transfer_id db.transfers)

module _ (now account_id transfer_id : ℕ) where
  unfoldable pub transition : TransferStatus → TransferStatus → Database → SqlOutcome
  unfolding update_transfer
  transition from to db =
      if status_in to (valid_transitions from)
      then update_transfer now account_id transfer_id (from ∷ []) to
          (not (same_status to TransferStatus.expired)) participant none none db
      else (none, db)

  unfoldable pub accept : ℕ → Database → SqlOutcome
  unfolding update_transfer
  accept actor =
      update_transfer now account_id transfer_id (offered ∷ []) accepted true recipient (some actor)
        none

  unfoldable pub reject : ℕ → Database → SqlOutcome
  unfolding update_transfer
  reject actor =
      update_transfer now account_id transfer_id (offered ∷ []) rejected true recipient (some actor)
        none

  unfoldable pub cancel : ℕ → Database → SqlOutcome
  unfolding update_transfer
  cancel actor =
      update_transfer now account_id transfer_id active_statuses cancelled true participant
        (some actor) none

  unfoldable pub mark_negotiating : Database → SqlOutcome
  unfolding transition
  mark_negotiating = transition accepted negotiating

  unfoldable pub mark_connected : Database → SqlOutcome
  unfolding transition
  mark_connected = transition negotiating connected

  unfoldable pub mark_transferring : Database → SqlOutcome
  unfolding transition
  mark_transferring = transition connected transferring

  unfoldable pub complete : Database → SqlOutcome
  unfolding transition
  complete = transition transferring completed

  unfoldable pub fail : String → Option ℕ → Database → SqlOutcome
  unfolding update_transfer
  fail code actor =
      update_transfer now account_id transfer_id failable_statuses failed true participant actor
        (some code)

  unfoldable pub expire : Database → SqlOutcome
  unfolding update_transfer
  expire =
      update_transfer now account_id transfer_id active_statuses TransferStatus.expired false
        participant none none

  abbrev pub relay_matches : Database → TransferRequestRecord → Bool
  relay_matches db r =
      r.user_id == account_id
      && status_in r.status active_statuses
      && ltb now r.expires_at
      && not_deleted (lookup r.user_id db.accounts)

  unfoldable pub mark_relay_used : Database → SqlOutcome
  unfolding update_row
  mark_relay_used db = put_back db (
      update_row (λ r. not (relay_matches db r)) (λ r. record r { relay_used = true }) transfer_id
        db.transfers)

unfoldable pub perform : (now account_id transfer_id : ℕ) → Operation → Database → SqlOutcome
unfolding transition accept reject cancel expire fail mark_negotiating mark_connected
    mark_transferring complete mark_relay_used
perform now a t (transitions from to) = transition now a t from to
perform now a t (accepts d) = accept now a t d
perform now a t (rejects d) = reject now a t d
perform now a t (cancels d) = cancel now a t d
perform now a t expires = expire now a t
perform now a t (fails code actor) = fail now a t code actor
perform now a t marks_negotiating = mark_negotiating now a t
perform now a t marks_connected = mark_connected now a t
perform now a t marks_transferring = mark_transferring now a t
perform now a t completes = complete now a t
perform now a t marks_relay_used = mark_relay_used now a t

-- The join of `get_by_id` and of the lists with a live account.
abbrev pub with_account {ℓ} : {A : Type ℓ} → Option AccountRecord → A → A → A
with_account account found missing = if not_deleted account then found else missing

unfoldable pub get_by_id : (account_id transfer_id : ℕ) → Database → Option TransferRequestRecord
get_by_id account_id transfer_id db =
    with_account (lookup account_id db.accounts)
      (owned account_id (lookup transfer_id db.transfers)) none

-- `ORDER BY created_at DESC`; rows of one instant in insertion order.
unfoldable pub list_for_account : (account_id : ℕ) → Database → List TransferRequestRecord
unfolding of_account newest_first values
list_for_account account_id db =
    with_account (lookup account_id db.accounts)
      (newest_first (of_account account_id (values db.transfers))) []

unfoldable pub list_for_device : (account_id device_id : ℕ) → Database → List TransferRequestRecord
unfolding of_device list_for_account
list_for_device account_id device_id db = of_device device_id (list_for_account account_id db)

-- `INSERT ... SELECT ... RETURNING`: no row when a device is not current or both are the same;
-- `id` is the table's `gen_random_uuid()`. `required_row` raises on `none`.
unfoldable pub create :
    (now id account_id sender recipient protocol_version expires_at : ℕ) → Database → SqlOutcome
create now id account_id sender recipient_id version expires_at db =
    if current_device account_id (lookup account_id db.accounts) (lookup sender db.devices)
      && current_device account_id (lookup account_id db.accounts) (lookup recipient_id db.devices)
      && not (sender == recipient_id)
    then (
      some (new_offer now id account_id sender recipient_id version expires_at),
      record db {
        transfers =
            insert id (new_offer now id account_id sender recipient_id version expires_at)
              db.transfers;
      },
    )
    else (none, db)

-- `DeviceRepository.get_by_id` of backend/app/repositories/devices.py
abbrev pub owned_device : ℕ → Option DeviceRecord → Option DeviceRecord
owned_device account_id none = none
owned_device account_id (some d) = if d.user_id == account_id then some d else none

abbrev pub get_device : Database → ℕ → ℕ → Option DeviceRecord
get_device db account_id device_id = owned_device account_id (lookup device_id db.devices)
