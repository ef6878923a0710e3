-- ===== src/Sessions/Tests.antt =====
-- A session that is rotated.
use self_relay.Base.{refl, true, ℕ, ◌+◌, ◌≡◌, none, [], ◌∷◌, Holds, arith}
use self_relay.Base.Dict.{lookup}
use self_relay.Records.{AccountRecord, DeviceRecord, DeviceStatus, SessionRecord, RevocationReason}
use self_relay.Identity.Database.{IdentityDatabase, in_good_standing}
use self_relay.Identity.Sessions.{new_session}
use self_relay.Identity.Follows.{IsOrdered, AreOrdered}
use self_relay.Sessions.Service.{Drawn, prepare, rotate}
use self_relay.Sessions.Prepared.{answer, prepare_lem}
use self_relay.Sessions.Memory
use self_relay.Sessions.Refinement.{
  in_memory, Agree, AgreeOnRows, AreInGoodStanding, statements-Agree, loops-AgreeOnRows,
}
use self_relay.Identity.Sessions
use self_relay.Sessions.Rotation.{sql_port, Rotated, rotate-Rotated}

abbrev account : AccountRecord
account = record {
  id = 1;
  supabase_user_id = 90;
  email_normalized = "a@example.com";
  created_at = 0;
  email_fallback_at = none;
  device_epoch = 3;
  deleted_at = none;
}

abbrev device : DeviceRecord
device = record {
  id = 5;
  user_id = 1;
  epoch = 3;
  label = "desk";
  signing_public_key_spki = 50;
  fingerprint = 51;
  status = DeviceStatus.active;
  created_at = 0;
  last_seen_at = 0;
  revoked_at = none;
  linked_by_device_id = none;
}

abbrev session : SessionRecord
session = new_session 10 20 1 5 70 71 3 1000 5000

abbrev database : IdentityDatabase
database = record {
  accounts = (1, account) ∷ [];
  devices = (5, device) ∷ [];
  sessions = (20, session) ∷ [];
  tickets = [];
}

abbrev drawn : Drawn
drawn = record { now = 300; token = 80; csrf_secret = 81 }

-- A stand-in for the digest
abbrev hash_secret : ℕ → ℕ
hash_secret n = n + 1000

ordered : AreOrdered database
unfolding lookup
ordered j = first j
  where
    first : (j : ℕ) → Holds IsOrdered (lookup j database.sessions)
    first j = ground arith

rotate-Rotated_example :
    Rotated hash_secret drawn 301 1 session database
      (rotate hash_secret (sql_port 301 21) drawn 1 session none database).1
      (rotate hash_secret (sql_port 301 21) drawn 1 session none database).0
rotate-Rotated_example = rotate-Rotated hash_secret 301 21 drawn 1 session none database ordered

prepare_lem_example : prepare hash_secret drawn none none ≡ answer hash_secret drawn none none
prepare_lem_example = prepare_lem hash_secret drawn none none

-- Account 1 and device 5 are in good standing.
standing : AreInGoodStanding database
unfolding lookup
standing j = first j
  where
    first : (j : ℕ) → Holds (λ s. in_good_standing database s ≡ true) (lookup j database.sessions)
    first j = ground arith

statements-Agree_example :
    (Memory.find_current_by_id 300 20 (in_memory ((70, 20) ∷ []) database)
      ≡ Sessions.find_current_by_id 300 20 database)
    × Agree
        (Memory.touch_last_seen 300 1 20 (in_memory ((70, 20) ∷ []) database))
        (Sessions.touch_last_seen 300 1 20 database)
    × Agree
        (Memory.replace_csrf_hash 300 1 20 75 (in_memory ((70, 20) ∷ []) database))
        (Sessions.replace_csrf_hash 300 1 20 75 database)
    × Agree
        (Memory.revoke 300 1 20 RevocationReason.logout (in_memory ((70, 20) ∷ []) database))
        (Sessions.revoke 300 1 20 RevocationReason.logout database)
statements-Agree_example =
    statements-Agree 300 1 20 75 RevocationReason.logout ((70, 20) ∷ []) database standing

loops-AgreeOnRows_example :
    AgreeOnRows
      (Memory.revoke_for_device 300 1 5 RevocationReason.logout (in_memory [] database))
      (Sessions.revoke_for_device 300 1 5 RevocationReason.logout database)
    × AgreeOnRows
        (Memory.revoke_for_account 300 1 RevocationReason.logout (in_memory [] database))
        (Sessions.revoke_for_account 300 1 RevocationReason.logout database)
unfolding lookup
loops-AgreeOnRows_example =
    loops-AgreeOnRows 300 1 5 RevocationReason.logout [] database (refl, tt) (refl, tt)
