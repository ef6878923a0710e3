-- ===== src/Identity/Tests.antt =====
-- An account with a device that logs in, logs out and is revoked.
use self_relay.Base.{true, ◌≡◌, ℕ, refl, some, none, List, [], ◌∷◌, Holds, arith}
use self_relay.Base.Dict.{lookup, insert}
use self_relay.Base.Rows.{update_row}
use self_relay.Base.Where.{key_where}
use self_relay.Base.Counted.{Counted}
use self_relay.Identity.Devices.{get_by_id}
use self_relay.Identity.Tickets.{consume_by_id}
use self_relay.Identity.Ended.{IsOut}
use self_relay.Identity.Logout.{ends, changes-IsOut}
use self_relay.Identity.Spent.{IsSpent}
use self_relay.Identity.Sessions
use self_relay.Identity.Found.{IsFound, create-IsFound}
use self_relay.Identity.Once.{consumptions, changes-IsSpent}
use self_relay.Records.{
  AccountRecord, DeviceRecord, DeviceStatus, RevocationReason, SessionRecord, WebSocketTicketRecord,
}
use self_relay.Identity.Database.{IdentityDatabase}
use self_relay.Identity.Sessions.{
  new_session, find_by_token_hash, get_by_token_hash, find_current_by_id, touch_last_seen,
  replace_csrf_hash,
}
use self_relay.Identity.Tickets.{new_ticket, consume, consume_for_socket}
use self_relay.Identity.Devices.{DeviceData}
use self_relay.Identity.Steps.{
  consumes_for_socket, consumes_ticket, Change, changes, touches_session, logs_out,
  registers_device, revokes_device, creates_session,
}
use self_relay.Identity.Follows.{IsOrdered, AreOrdered, Follows}
use self_relay.Identity.History.{changes-Follows}
use self_relay.Identity.Revoked.{IsElsewhere, BindsElsewhere, changes-revoked}

abbrev account : AccountRecord
account = record {
  id = 1;
  supabase_user_id = 90;
  email_normalized = "a@example.com";
  created_at = 0;
  email_fallback_at = none;
  device_epoch = 3;
  deleted_at = none;
}

abbrev device : DeviceRecord
device = record {
  id = 5;
  user_id = 1;
  epoch = 3;
  label = "desk";
  signing_public_key_spki = 50;
  fingerprint = 51;
  status = DeviceStatus.active;
  created_at = 0;
  last_seen_at = 0;
  revoked_at = none;
  linked_by_device_id = none;
}

abbrev gone_device : DeviceRecord
gone_device = record device {
  id = 6;
  fingerprint = 61;
  status = DeviceStatus.revoked;
  revoked_at = some 40;
}

abbrev session : SessionRecord
session = new_session 10 20 1 5 70 71 3 1000 5000

abbrev ticket : WebSocketTicketRecord
ticket = new_ticket 100 30 20 70 400

abbrev database : IdentityDatabase
database = record {
  accounts = (1, account) ∷ [];
  devices = (5, device) ∷ (6, gone_device) ∷ [];
  sessions = (20, session) ∷ [];
  tickets = (30, ticket) ∷ [];
}

abbrev same_key : DeviceData
same_key = record {
  account_id = 1;
  epoch = 3;
  label = "desk";
  signing_public_key_spki = 50;
  fingerprint = 51;
  linked_by_device_id = none;
}

abbrev history : List (ℕ × Change)
history =
    (150, touches_session 1 20)
    ∷ (200, logs_out 1 5 RevocationReason.logout)
    ∷ (210, registers_device 7 same_key)
    ∷ (220, creates_session 21 1 5 72 73 3 2000 6000)
    ∷ (230, revokes_device 1 5 RevocationReason.device_revoked)
    ∷ (240, registers_device 8 same_key)
    ∷ []

ordered : AreOrdered database
unfolding lookup
ordered j = first j
  where
    first : (j : ℕ) → Holds IsOrdered (lookup j database.sessions)
    first j = ground arith

changes-Follows_example : Follows database (changes history database)
changes-Follows_example = changes-Follows history database ordered

changes-revoked_example :
    IsElsewhere 6 (find_by_token_hash 300 70 (changes history database))
    × IsElsewhere 6 (get_by_token_hash 300 1 70 (changes history database))
    × IsElsewhere 6 (find_current_by_id 300 20 (changes history database))
    × IsElsewhere 6 (touch_last_seen 300 1 20 (changes history database)).0
    × IsElsewhere 6 (replace_csrf_hash 300 1 20 75 (changes history database)).0
    × BindsElsewhere 6 (changes history database) (consume 300 1 70 (changes history database)).0
    × BindsElsewhere 6
        (changes history database)
        (consume_by_id 300 1 30 (changes history database)).0
    × BindsElsewhere 6
        (changes history database)
        (consume_for_socket 300 70 (changes history database)).0
unfolding lookup
changes-revoked_example = changes-revoked 6 history 300 1 70 20 75 30 database ordered refl

stored : lookup 20 database.sessions ≡ some session
unfolding lookup
stored = refl

-- The logout of device 5 covers its session.
covered : ends (logs_out 1 5 RevocationReason.logout) database 20 session ≡ true
unfolding get_by_id lookup
covered = refl

changes-IsOut_example : IsOut 300 20 1 75 31 70 400 RevocationReason.revoked (
    changes
      ((200, logs_out 1 5 RevocationReason.logout) ∷ (210, registers_device 7 same_key) ∷ [])
      database)
changes-IsOut_example =
    changes-IsOut 200 300 20 1 75 31 70 400 RevocationReason.revoked
      (logs_out 1 5 RevocationReason.logout) ((210, registers_device 7 same_key) ∷ []) database
      session ordered stored covered

abbrev openings : List (ℕ × Change)
openings =
    (110, consumes_for_socket 70) ∷ (111, consumes_for_socket 70) ∷ (112, consumes_ticket 1 30) ∷ []

-- The second and the third find nothing.
one_opening : consumptions 30 openings database ≡ 1
unfolding consumptions lookup consume_for_socket consume_by_id key_where update_row insert
one_opening = refl

issued : lookup 30 database.tickets ≡ some ticket
unfolding lookup
issued = refl

changes-IsSpent_example :
    Counted IsSpent
      (consumptions 30 openings database)
      ticket
      (lookup 30 (changes openings database).tickets)
changes-IsSpent_example = changes-IsSpent 30 openings ticket database issued

create-IsFound_example :
    IsFound 100 1 21 72 database
      (Sessions.create 100 21 1 5 72 73 3 2000 6000 database).1
      (Sessions.create 100 21 1 5 72 73 3 2000 6000 database).0
create-IsFound_example = create-IsFound 100 21 1 5 72 73 3 2000 6000 database
