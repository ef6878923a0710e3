-- ===== src/Identity/Steps.antt =====
-- The statements and transactions of the identity repositories as one step function.
use self_relay.Base.{ℕ, String, List, [], ◌∷◌}
use self_relay.Records.{RevocationReason}
use self_relay.Identity.Database.{IdentityDatabase}
use self_relay.Identity.Accounts
use self_relay.Identity.Devices
use self_relay.Identity.Devices.{DeviceData}
use self_relay.Identity.Sessions
use self_relay.Identity.Tickets

-- `now` is the time of the transaction.
pub data Change : Type 0 where
  creates_account : (id supabase_user_id : ℕ) (email : String) → Change
  marks_fallback : (account_id at : ℕ) → Change
  creates_device registers_device : (device_id : ℕ) (x : DeviceData) → Change
  touches_device : (account_id device_id : ℕ) → Change
  renames_device : (account_id device_id : ℕ) (label : String) → Change
  revokes_device logs_out : (account_id device_id : ℕ) (reason : RevocationReason) → Change
  revokes_all : (account_id : ℕ) (reason : RevocationReason) → Change
  creates_session : (id account_id device_id token_hash csrf_hash epoch idle absolute : ℕ) → Change
  touches_session : (account_id session_id : ℕ) → Change
  replaces_csrf : (account_id session_id csrf_hash : ℕ) → Change
  revokes_session : (account_id session_id : ℕ) (reason : RevocationReason) → Change
  revokes_token : (account_id token_hash : ℕ) (reason : RevocationReason) → Change
  revokes_device_sessions : (account_id device_id : ℕ) (reason : RevocationReason) → Change
  revokes_account_sessions : (account_id : ℕ) (reason : RevocationReason) → Change
  creates_ticket : (id account_id session_id token_hash expires_at : ℕ) → Change
  consumes_ticket : (account_id ticket_id : ℕ) → Change
  consumes_token : (account_id token_hash : ℕ) → Change
  consumes_for_socket : (token_hash : ℕ) → Change

abbrev pub change : (now : ℕ) → Change → IdentityDatabase → IdentityDatabase
change now (creates_account id user email) db = (Accounts.create now id user email db).1
change now (marks_fallback account_id at) db = (Accounts.mark_email_fallback account_id at db).1
change now (creates_device device_id x) db = (Devices.create now device_id x db).1
change now (registers_device device_id x) db = (Devices.register_for_email now device_id x db).1
change now (touches_device a d) db = (Devices.touch_last_seen now a d db).1
change now (renames_device a d label) db = (Devices.rename a d label db).1
change now (revokes_device a d reason) db = (Devices.revoke_with_sessions now a d reason db).1
change now (logs_out a d reason) db = (Devices.logout_with_sessions now a d reason db).1
change now (revokes_all a reason) db = (Devices.revoke_all_for_account now a reason db).1
change now (creates_session id a d h csrf epoch idle absolute) db =
    (Sessions.create now id a d h csrf epoch idle absolute db).1
change now (touches_session a s) db = (Sessions.touch_last_seen now a s db).1
change now (replaces_csrf a s csrf) db = (Sessions.replace_csrf_hash now a s csrf db).1
change now (revokes_session a s reason) db = (Sessions.revoke now a s reason db).1
change now (revokes_token a h reason) db = (Sessions.revoke_by_token_hash now a h reason db).1
change now (revokes_device_sessions a d reason) db =
    (Sessions.revoke_for_device now a d reason db).1
change now (revokes_account_sessions a reason) db = (Sessions.revoke_for_account now a reason db).1
change now (creates_ticket id a s h expires_at) db = (Tickets.create now id a s h expires_at db).1
change now (consumes_ticket a t) db = (Tickets.consume_by_id now a t db).1
change now (consumes_token a h) db = (Tickets.consume now a h db).1
change now (consumes_for_socket h) db = (Tickets.consume_for_socket now h db).1

unfoldable pub changes : List (ℕ × Change) → IdentityDatabase → IdentityDatabase
changes [] db = db
changes ((now, c) ∷ cs) db = changes cs (change now c db)
