-- ===== src/DeviceAuth/Enrollment.antt =====
-- The registration of a device: `complete_registration` of backend/app/device_auth.py, after an email
-- code or a linking code. `verify` is as in the login, and `admits` tells whether the constraints of
-- `private.devices` admit one more row. A call runs with no other statement between its own.
use self_relay.Base.{
  ℕ, Bool, false, ◌&&◌, not, Option, none, some, String, ◌==◌, leb, if◌then◌else◌,
}
use text.Mathlib.Text.{◌==◌ as str_eq}
use self_relay.Base.Dict.{Dict}
use self_relay.Records.{AccountRecord, DeviceRecord}
use self_relay.Identity.Database.{IdentityDatabase}
use self_relay.Identity.Accounts
use self_relay.Identity.Devices
use self_relay.Identity.Devices.{DeviceData}
use self_relay.Linking.Codes
use self_relay.Linking.Codes.{LinkingDatabase, Redemption, Redeemed, refused, raised, registered}
use self_relay.DeviceAuth.Registrations
use self_relay.DeviceAuth.Registrations.{Registrations, RegistrationState}
use self_relay.DeviceAuth.State.{
  AuthState, linking_tables, with_linking, Readings, registration_invalid, proof_invalid,
  already_used, account_stale, linking_failure, repository_failed, Result, err, DeviceAuthResult,
  Payload, registration_payload_of,
}
use self_relay.DeviceAuth.Opening.{opened, create_session}

abbrev pub with_registrations : AuthState → Registrations → AuthState
with_registrations st states = record st { registrations = states }

-- The linking code that a failed proof counts against
abbrev pub fail_code : Readings → Option ℕ → AuthState → AuthState
fail_code rd none st = st
fail_code rd (some otp_id) st =
    with_linking st (Codes.mark_failed rd.database_now otp_id (linking_tables st)).1

abbrev pub fail_proof :
    Readings
    → (challenge_id : ℕ) → RegistrationState
    → AuthState
    → Result DeviceAuthResult × AuthState
fail_proof rd challenge_id s st = (
  err proof_invalid,
  fail_code rd s.challenge.linking_otp_id
      (with_registrations st (Registrations.mark_failed challenge_id rd.now st.registrations)),
)

abbrev pub redemption :
    RegistrationState → AccountRecord → (otp_id issuing_device_id : ℕ) → Redemption
redemption s account otp_id issuing = record {
  otp_id = otp_id;
  account_id = account.id;
  issuing_device_id = issuing;
  epoch = account.device_epoch;
  device_id = s.challenge.device_id;
  label = s.label;
  signing_public_key_spki = s.public_key_spki;
  fingerprint = s.challenge.fingerprint;
}

abbrev pub device_data : RegistrationState → AccountRecord → DeviceData
device_data s account = record {
  account_id = account.id;
  epoch = account.device_epoch;
  label = s.label;
  signing_public_key_spki = s.public_key_spki;
  fingerprint = s.challenge.fingerprint;
  linked_by_device_id = none;
}

abbrev pub marked :
    Readings → (account_id : ℕ) → (fallback : Bool) → IdentityDatabase → IdentityDatabase
marked rd account_id fallback db =
    if fallback then (Accounts.mark_email_fallback account_id rd.now db).1 else db

module _ (hash_secret : ℕ → ℕ) (verify : (key : ℕ) → Payload → (signature : ℕ) → Bool)
    (admits : DeviceRecord → Dict DeviceRecord → Bool) (rd : Readings) where
  -- `session_service.create`, for the device that is registered
  abbrev pub open_session :
      AccountRecord
      → DeviceRecord
      → (fallback : Bool) → AuthState
      → Result DeviceAuthResult × AuthState
  open_session account d fallback st =
      opened account d fallback st
        (create_session hash_secret rd account.id d.id account.device_epoch st.identity)

  abbrev pub linked :
      AccountRecord → Redeemed × LinkingDatabase → AuthState → Result DeviceAuthResult × AuthState
  linked account (refused, db) st = (err linking_failure, st)
  linked account (raised, db) st = (err repository_failed, st)
  linked account (registered d, db) st = open_session account d false (with_linking st db)

  abbrev pub enrolled :
      RegistrationState
      → AccountRecord
      → Option DeviceRecord × IdentityDatabase
      → AuthState
      → Result DeviceAuthResult × AuthState
  enrolled s account (none, db) st = (err repository_failed, st)
  enrolled s account (some d, db) st =
      open_session account d s.challenge.fallback
        (record st { identity = marked rd account.id s.challenge.fallback db })

  -- By the linking code and the device that issued it, or by email. A code without that device, which
  -- no challenge has, matches no row.
  abbrev pub enroll :
      RegistrationState
      → AccountRecord
      → (otp_id issuing_device_id : Option ℕ) → AuthState
      → Result DeviceAuthResult × AuthState
  enroll s account (some otp_id) (some issuing) st =
      linked account
        (Codes.consume_and_register admits rd.database_now (redemption s account otp_id issuing)
          (linking_tables st))
        st
  enroll s account (some otp_id) none st = (err linking_failure, st)
  enroll s account none issuing st =
      enrolled s account
        (Devices.register_for_email rd.database_now s.challenge.device_id (device_data s account)
          st.identity)
        st

  abbrev pub enroll_for :
      RegistrationState → Option AccountRecord → AuthState → Result DeviceAuthResult × AuthState
  enroll_for s none st = (err account_stale, st)
  enroll_for s (some account) st =
      if account.device_epoch == s.challenge.epoch
      then enroll s account s.challenge.linking_otp_id s.challenge.linked_by_device_id st
      else (err account_stale, st)

  abbrev pub claim :
      Option RegistrationState × Registrations → AuthState → Result DeviceAuthResult × AuthState
  claim (none, states) st = (err already_used, with_registrations st states)
  claim (some s, states) st =
      enroll_for s (Accounts.get_by_id s.challenge.account_id st.identity)
        (with_registrations st states)

  abbrev pub check_signature :
      (challenge_id signature : ℕ)
      → RegistrationState
      → AuthState
      → Result DeviceAuthResult × AuthState
  check_signature challenge_id signature s st =
      if verify s.public_key_spki (registration_payload_of s.challenge) signature
      then claim (Registrations.consume challenge_id rd.now st.registrations) st
      else fail_proof rd challenge_id s st

  abbrev pub check_state :
      (challenge_id signature : ℕ)
      → (origin : String) → Option RegistrationState × Registrations
      → AuthState
      → Result DeviceAuthResult × AuthState
  check_state challenge_id signature origin (none, states) st =
      (err registration_invalid, with_registrations st states)
  check_state challenge_id signature origin (some s, states) st =
      if str_eq s.challenge.origin origin && not (leb 10 s.attempts)
      then check_signature challenge_id signature s (with_registrations st states)
      else (err registration_invalid, with_registrations st states)

  unfoldable pub complete_registration :
      (challenge_id signature : ℕ)
      → (origin : String) → AuthState
      → Result DeviceAuthResult × AuthState
  unfolding Registrations.get Registrations.mark_failed Registrations.consume Accounts.get_by_id
      Accounts.mark_email_fallback Devices.register_for_email Codes.mark_failed
      Codes.consume_and_register create_session
  complete_registration challenge_id signature origin st =
      check_state challenge_id signature origin
        (Registrations.get challenge_id rd.now st.registrations) st
