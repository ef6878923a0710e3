-- ===== src/Challenges/Tests.antt =====
-- A challenge that is tried and consumed.
use self_relay.Base.{◌≡◌, refl, some, none, List, [], ◌∷◌, arith}
use self_relay.Base.Dict.{lookup, insert}
use self_relay.Records.{AccountRecord, DeviceRecord, DeviceStatus, DeviceChallengeRecord}
use self_relay.Base.Rows.{update_row}
use self_relay.Challenges.Statements.{
  ChallengeDatabase, new_challenge, key_of_nonce, consume, consume_by_nonce_hash, mark_failed,
}
use self_relay.Challenges.Once.{
  ChallengeStep, consumes, fails, consumes_nonce, steps, consumptions, failures, IsSpentAt,
}
use self_relay.Challenges.Always.{steps-IsSpentAt}

abbrev account : AccountRecord
account = record {
  id = 1;
  supabase_user_id = 90;
  email_normalized = "a@example.com";
  created_at = 0;
  email_fallback_at = none;
  device_epoch = 3;
  deleted_at = none;
}

abbrev device : DeviceRecord
device = record {
  id = 5;
  user_id = 1;
  epoch = 3;
  label = "desk";
  signing_public_key_spki = 50;
  fingerprint = 51;
  status = DeviceStatus.active;
  created_at = 0;
  last_seen_at = 0;
  revoked_at = none;
  linked_by_device_id = none;
}

abbrev challenge : DeviceChallengeRecord
challenge = new_challenge 100 7 5 70 "https://relay.example" 400

abbrev database : ChallengeDatabase
database = record {
  accounts = (1, account) ∷ [];
  devices = (5, device) ∷ [];
  challenges = (7, challenge) ∷ [];
}

abbrev attempts : List ChallengeStep
attempts = fails 200 1 7 ∷ consumes_nonce 210 1 70 ∷ consumes 211 1 7 ∷ fails 212 1 7 ∷ []

-- The second consumption finds nothing.
one_consumption : consumptions 7 attempts database ≡ 1
unfolding consumptions lookup insert mark_failed consume consume_by_nonce_hash key_of_nonce
    update_row
one_consumption = refl

stored : lookup 7 database.challenges ≡ some challenge
unfolding lookup
stored = refl

steps-IsSpentAt_example :
    IsSpentAt
      (consumptions 7 attempts database)
      (failures 7 attempts database)
      challenge
      (lookup 7 (steps attempts database).challenges)
steps-IsSpentAt_example = steps-IsSpentAt 7 attempts challenge database stored (ground arith)
