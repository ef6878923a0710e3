-- ===== src/Devices/Tests.antt =====
-- A revoked device and an active one, in both repositories.
use self_relay.Base.{ℕ, ◌≡◌, refl, arith, none, some, [], ◌∷◌}
use self_relay.Base.Dict.{Dict, lookup}
use self_relay.Records.{DeviceRecord, DeviceStatus, RevocationReason}
use self_relay.Identity.Database.{IdentityDatabase}
use self_relay.Identity.Sessions.{new_session}
use self_relay.Identity.Devices
use self_relay.Devices.Memory
use self_relay.Devices.Refinement.{
  in_memory, Agree, device_statements-Agree, logout_with_sessions-Agrees,
}

abbrev device : DeviceRecord
device = record {
  id = 5;
  user_id = 1;
  epoch = 3;
  label = "desk";
  signing_public_key_spki = 50;
  fingerprint = 51;
  status = DeviceStatus.active;
  created_at = 0;
  last_seen_at = 0;
  revoked_at = none;
  linked_by_device_id = none;
}

abbrev database : IdentityDatabase
database = record {
  accounts = [];
  devices =
      (5, device)
      ∷ (
        6,
        record device {
          id = 6;
          fingerprint = 61;
          status = DeviceStatus.revoked;
          revoked_at = some 40;
        },
      )
      ∷ [];
  sessions = (20, new_session 10 20 1 5 70 71 3 1000 5000) ∷ [];
  tickets = [];
}

abbrev index : Dict ℕ
index = (70, 20) ∷ []

device_statements-Agree_example :
    (Memory.get_by_id 1 5 (in_memory index database) ≡ Devices.get_by_id 1 5 database)
    × (Memory.get_by_fingerprint 1 51 (in_memory index database)
        ≡ Devices.get_by_fingerprint 1 51 database)
    × Agree
        (Memory.touch_last_seen 300 1 5 (in_memory index database))
        (Devices.touch_last_seen 300 1 5 database)
    × Agree
        (Memory.rename 1 5 "lamp" (in_memory index database))
        (Devices.rename 1 5 "lamp" database)
device_statements-Agree_example =
    device_statements-Agree 300 1 5 51 "lamp" index database (ground arith) (ground arith)

logout_with_sessions-Agrees_example :
    Agree
      (Memory.logout_with_sessions 300 1 5 RevocationReason.logout (in_memory index database))
      (Devices.logout_with_sessions 300 1 5 RevocationReason.logout database)
unfolding lookup
logout_with_sessions-Agrees_example =
    logout_with_sessions-Agrees 300 1 5 RevocationReason.logout index database (refl, tt) (refl, tt)
