-- ===== src/Identity/History.antt =====
-- Devices and sessions over any sequence of statements.
use self_relay.Base.{ℕ, List, [], ◌∷◌}
use self_relay.Identity.Database.{IdentityDatabase}
use self_relay.Identity.Steps.{
  Change, creates_account, marks_fallback, creates_device, registers_device, touches_device,
  renames_device, revokes_device, logs_out, revokes_all, creates_session, touches_session,
  replaces_csrf, revokes_session, revokes_token, revokes_device_sessions, revokes_account_sessions,
  creates_ticket, consumes_ticket, consumes_token, consumes_for_socket, change, changes,
}
use self_relay.Identity.Follows.{
  AreOrdered, Follows, Follows-refl, Follows-trans, Follows-AreOrdered,
}
use self_relay.Identity.Kept.Sessions
use self_relay.Identity.Kept.Devices
use self_relay.Identity.Kept.Others

pub change-Follows :
    (now : ℕ) (c : Change) (db : IdentityDatabase) → AreOrdered db → Follows db (change now c db)
change-Follows now (creates_account id user email) db =
    Others.create_account-Follows now id user email db
change-Follows now (marks_fallback a at) db = Others.mark_email_fallback-Follows a at db
change-Follows now (creates_device k x) db = Devices.create-Follows now k x db
change-Follows now (registers_device k x) db = Devices.register_for_email-Follows now k x db
change-Follows now (touches_device a d) db = Devices.touch_last_seen-Follows now a d db
change-Follows now (renames_device a d label) db = Devices.rename-Follows a d label db
change-Follows now (revokes_device a d reason) db =
    Devices.revoke_with_sessions-Follows now a d reason db
change-Follows now (logs_out a d reason) db = Devices.logout_with_sessions-Follows now a d reason db
change-Follows now (revokes_all a reason) db =
    Devices.revoke_all_for_account-Follows now a reason db
change-Follows now (creates_session id a d h csrf epoch idle absolute) db =
    Sessions.create-Follows now id a d h csrf epoch idle absolute db
change-Follows now (touches_session a s) db = Sessions.touch_last_seen-Follows now a s db
change-Follows now (replaces_csrf a s csrf) db = Sessions.replace_csrf_hash-Follows now a s csrf db
change-Follows now (revokes_session a s reason) db = Sessions.revoke-Follows now a s reason db
change-Follows now (revokes_token a h reason) db =
    Sessions.revoke_by_token_hash-Follows now a h reason db
change-Follows now (revokes_device_sessions a d reason) db =
    Sessions.revoke_for_device-Follows now a d reason db
change-Follows now (revokes_account_sessions a reason) db =
    Sessions.revoke_for_account-Follows now a reason db
change-Follows now (creates_ticket id a s h expires_at) db =
    Others.create_ticket-Follows now id a s h expires_at db
change-Follows now (consumes_ticket a t) db = Others.consume_by_id-Follows now a t db
change-Follows now (consumes_token a h) db = Others.consume-Follows now a h db
change-Follows now (consumes_for_socket h) db = Others.consume_for_socket-Follows now h db

-- Over any sequence of statements and transactions of the identity repositories, at any times, no device and no
-- session goes away. A device keeps its owner, key, fingerprint and epoch, and stays revoked once it is.
-- A session keeps its owner, device, token, epoch and absolute deadline, its idle deadline never passes
-- the absolute one, and once it is revoked its record is final. All this if the idle deadlines were
-- within the absolute ones at the start.
pub changes-Follows :
    (cs : List (ℕ × Change)) (db : IdentityDatabase) → AreOrdered db → Follows db (changes cs db)
unfolding changes
changes-Follows [] db o = Follows-refl db o
changes-Follows ((now, c) ∷ cs) db o =
    let first = change-Follows now c db o in
    Follows-trans db (change now c db) (changes cs (change now c db)) first
      (changes-Follows cs (change now c db) (Follows-AreOrdered db (change now c db) first))
