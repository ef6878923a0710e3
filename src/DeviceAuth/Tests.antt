-- ===== src/DeviceAuth/Tests.antt =====
-- A device that logs in, and one that is registered by email.
use self_relay.Base.{◌+◌, ◌≤◌, arith, ℕ, ◌≡◌, refl, Bool, true, false, none, List, [], ◌∷◌, ◌==◌}
use self_relay.Base.Dict.{Dict, lookup, insert, erase}
use self_relay.Base.Rows.{update_row}
use self_relay.Base.Where.{find_where, key_where}
use self_relay.Records.{AccountRecord, DeviceRecord, DeviceStatus, DeviceChallengeRecord}
use self_relay.Identity.Accounts
use self_relay.Identity.Devices
use self_relay.Identity.Sessions
use self_relay.Challenges.Statements
use self_relay.Sessions.Service
use self_relay.DeviceAuth.Registrations
use self_relay.DeviceAuth.Registrations.{RegistrationState, RegistrationChallenge, email}
use self_relay.DeviceAuth.State.{
  AuthState, challenge_tables, Readings, Result, ok, err, DeviceAuthResult, Payload,
}
use self_relay.DeviceAuth.Opening.{create_session}
use self_relay.DeviceAuth.Login.{complete_login_challenge}
use self_relay.DeviceAuth.Outcome.{Ends}
use self_relay.DeviceAuth.Authentic.{WithChallenge, complete_login_challenge-Ends}
use self_relay.DeviceAuth.Enrollment.{complete_registration}
use self_relay.DeviceAuth.Pending.{
  StoreCall, gets, fails, consumes, consumptions, pending, issuances, calls, IsSound,
  calls-consumptions,
}
use self_relay.DeviceAuth.LinkingOtp.{issue_linking_otp}
use self_relay.DeviceAuth.Issued.{IsIssued, issue_linking_otp-IsIssued}
use self_relay.DeviceAuth.Enrolled.{WithState, complete_registration-Ends}

abbrev account : AccountRecord
account = record {
  id = 1;
  supabase_user_id = 90;
  email_normalized = "a@example.com";
  created_at = 0;
  email_fallback_at = none;
  device_epoch = 3;
  deleted_at = none;
}

abbrev device : DeviceRecord
device = record {
  id = 5;
  user_id = 1;
  epoch = 3;
  label = "desk";
  signing_public_key_spki = 50;
  fingerprint = 51;
  status = DeviceStatus.active;
  created_at = 0;
  last_seen_at = 0;
  revoked_at = none;
  linked_by_device_id = none;
}

-- 32 bytes
abbrev nonce : List ℕ
nonce =
    1 ∷ 2 ∷ 3 ∷ 4 ∷ 5 ∷ 6 ∷ 7 ∷ 8 ∷ 1 ∷ 2 ∷ 3 ∷ 4 ∷ 5 ∷ 6 ∷ 7 ∷ 8 ∷ 1 ∷ 2 ∷ 3 ∷ 4 ∷ 5 ∷ 6 ∷ 7 ∷ 8
    ∷ 1 ∷ 2 ∷ 3 ∷ 4 ∷ 5 ∷ 6 ∷ 7 ∷ 8 ∷ []

abbrev challenge : DeviceChallengeRecord
challenge = record {
  id = 7;
  device_id = 5;
  nonce_hash = 1;
  origin = "https://relay.example";
  created_at = 100;
  expires_at = 400;
  consumed_at = none;
  attempt_count = 0;
}

abbrev enrollment : RegistrationState
enrollment = record {
  challenge = record {
    challenge_id = 8;
    account_id = 1;
    device_id = 6;
    epoch = 3;
    nonce = nonce;
    origin = "https://relay.example";
    issued_at = 100;
    expires_at = 500;
    fingerprint = 61;
    fallback = true;
    enrollment_method = email;
    linking_otp_id = none;
    linked_by_device_id = none;
  };
  public_key_spki = 60;
  label = "laptop";
  attempts = 0;
}

abbrev state : AuthState
state = record {
  identity = record {
    accounts = (1, account) ∷ [];
    devices = (5, device) ∷ [];
    sessions = [];
    tickets = [];
  };
  challenges = (7, challenge) ∷ [];
  otps = [];
  registrations = (8, enrollment) ∷ [];
}

abbrev readings : Readings
readings = record {
  now = 200;
  database_now = 201;
  new_id = 30;
  session_id = 20;
  nonce = nonce;
  token = 70;
  csrf_secret = 71;
}

-- Stand-ins: the digest of a list is its first element, a token is its own digest, and a signature is
-- the key.
abbrev sha256 : List ℕ → ℕ
sha256 [] = 0
sha256 (b ∷ bs) = b

abbrev hash_secret : ℕ → ℕ
hash_secret n = n

abbrev verify : (key : ℕ) → Payload → (signature : ℕ) → Bool
verify key payload signature = key == signature

abbrev admits : DeviceRecord → Dict DeviceRecord → Bool
admits d devices = true

abbrev is_ok : Result DeviceAuthResult → Bool
is_ok (ok r) = true
is_ok (err e) = false

complete_login_challenge-Ends_example :
    Ends
      (WithChallenge sha256 hash_secret verify readings 1 7 50 nonce "https://relay.example" state
        (Statements.get_by_id 1 7 (challenge_tables state)))
      state
      (complete_login_challenge sha256 hash_secret verify readings 1 7 nonce 50
        "https://relay.example" state).1
      (complete_login_challenge sha256 hash_secret verify readings 1 7 nonce 50
        "https://relay.example" state).0
complete_login_challenge-Ends_example =
    complete_login_challenge-Ends sha256 hash_secret verify readings 1 7 50 nonce
      "https://relay.example" state

complete_registration-Ends_example :
    Ends
      (WithState hash_secret verify admits readings 8 60 "https://relay.example" state)
      state
      (complete_registration hash_secret verify admits readings 8 60 "https://relay.example"
        state).1
      (complete_registration hash_secret verify admits readings 8 60 "https://relay.example"
        state).0
unfolding lookup
complete_registration-Ends_example =
    complete_registration-Ends hash_secret verify admits readings 8 60 "https://relay.example" state
      (refl, tt)

-- The login succeeds with the device's key, and fails with another.
logs_in :
    is_ok
      (complete_login_challenge sha256 hash_secret verify readings 1 7 nonce 50
        "https://relay.example" state).0
    ≡ true
unfolding complete_login_challenge lookup insert update_row find_where Statements.get_by_id
    Statements.consume Accounts.get_by_id Devices.get_by_id Devices.touch_last_seen create_session
    Service.create Service.prepare Sessions.create
logs_in = refl

registers :
    is_ok
      (complete_registration hash_secret verify admits readings 8 60 "https://relay.example"
        state).0
    ≡ true
unfolding complete_registration lookup insert erase update_row find_where key_where
    Registrations.get Registrations.consume Accounts.get_by_id Accounts.mark_email_fallback
    Devices.register_for_email create_session Service.create Service.prepare Sessions.create
registers = refl

abbrev answers : List StoreCall
answers = fails 8 210 ∷ gets 8 215 ∷ consumes 8 220 ∷ consumes 8 221 ∷ gets 8 222 ∷ []

-- The second consumption finds nothing.
one_answer : consumptions 8 answers state.registrations ≡ 1
unfolding consumptions lookup insert erase Registrations.mark_failed Registrations.get
    Registrations.consume
one_answer = refl

sound : IsSound state.registrations
unfolding lookup
sound = ((refl, tt), (ground arith, tt))

calls-consumptions_example :
    (consumptions 8 answers state.registrations + pending 8 (calls answers state.registrations)
      ≤ issuances 8 answers + pending 8 state.registrations)
    × IsSound (calls answers state.registrations)
calls-consumptions_example = calls-consumptions 8 answers state.registrations sound

issue_linking_otp-IsIssued_example :
    IsIssued hash_secret readings true 123456 1 5
      (Accounts.get_by_id 1 state.identity)
      (Devices.get_by_id 1 5 state.identity)
      state
      (issue_linking_otp hash_secret readings true 123456 1 5 state).2
      (issue_linking_otp hash_secret readings true 123456 1 5 state).1
      (issue_linking_otp hash_secret readings true 123456 1 5 state).0
issue_linking_otp-IsIssued_example =
    issue_linking_otp-IsIssued hash_secret readings true 123456 1 5 state
