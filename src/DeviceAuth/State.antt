-- ===== src/DeviceAuth/State.antt =====
-- The state of the device-authentication service, which is that of its repositories, and what it signs.
use self_relay.Base.{ℕ, Bool, Option, none, some, List, String, ◌==◌, length, if◌then◌else◌}
use self_relay.Base.Dict.{Dict}
use self_relay.Records.{AccountRecord, DeviceRecord, DeviceChallengeRecord, DeviceLinkingOtpRecord}
use self_relay.Identity.Database.{IdentityDatabase}
use self_relay.Challenges.Statements.{ChallengeDatabase}
use self_relay.Linking.Codes.{LinkingDatabase}
use self_relay.Sessions.Service.{SessionError, CreatedSession}
use self_relay.DeviceAuth.Registrations.{Registrations, RegistrationChallenge, EnrollmentMethod}

pub record AuthState : Type 0 where
  pub identity : IdentityDatabase
  pub challenges : Dict DeviceChallengeRecord
  pub otps : Dict DeviceLinkingOtpRecord
  pub registrations : Registrations

-- The tables that the other repositories see
abbrev pub challenge_tables : AuthState → ChallengeDatabase
challenge_tables st = record {
  accounts = st.identity.accounts;
  devices = st.identity.devices;
  challenges = st.challenges;
}

abbrev pub linking_tables : AuthState → LinkingDatabase
linking_tables st = record {
  accounts = st.identity.accounts;
  devices = st.identity.devices;
  otps = st.otps;
}

abbrev pub with_challenges : AuthState → ChallengeDatabase → AuthState
with_challenges st db = record st { challenges = db.challenges }

abbrev pub with_linking : AuthState → LinkingDatabase → AuthState
with_linking st db = record st {
  otps = db.otps;
  identity = record st.identity { devices = db.devices };
}

-- What the clocks and generators give during one call: the service's clock, `CURRENT_TIMESTAMP`, the
-- identifiers that are drawn, and the secrets of a session.
pub record Readings : Type 0 where
  pub now : ℕ
  pub database_now : ℕ
  pub new_id : ℕ
  pub session_id : ℕ
  pub nonce : List ℕ
  pub token : ℕ
  pub csrf_secret : ℕ

-- `DeviceAuthFailure` by its message, `DeviceLinkingRateLimited`, and what the calls of the session
-- service, of a repository and of the payload functions raise.
pub data AuthError : Type 0 where
  challenge_unavailable auth_failure nonce_invalid : AuthError
  linking_unavailable linking_failure rate_limited : AuthError
  registration_invalid proof_invalid already_used account_stale : AuthError
  repository_failed payload_failed : AuthError
  session_failed : SessionError → AuthError

pub data Result (A : Type 0) : Type 0 where
  ok : A → Result A
  err : AuthError → Result A

pub record DeviceAuthResult : Type 0 where
  pub account : AccountRecord
  pub device : DeviceRecord
  pub session : CreatedSession
  pub fallback : Bool

pub record DeviceLoginChallenge : Type 0 where
  pub challenge : DeviceChallengeRecord
  pub account : AccountRecord
  pub device : DeviceRecord
  pub nonce : List ℕ

-- The object that a device signs: the fields of `challenge_payload` and of `registration_payload` of
-- backend/app/device_crypto.py. Versions are constants, and encodings of values do not lose any.
pub data Payload : Type 0 where
  login_payload :
      (account_device_epoch account_id challenge_id device_id expires_at issued_at : ℕ)
      (nonce : List ℕ) (origin : String)
      → Payload
  registration_payload :
      (account_device_epoch account_id challenge_id device_fingerprint device_id expires_at
        issued_at : ℕ)
      (nonce : List ℕ) (origin : String) (enrollment_method : EnrollmentMethod) (fallback : Bool)
      → Payload

-- `challenge_payload`, `none` where it raises
abbrev pub challenge_payload :
    DeviceChallengeRecord → AccountRecord → DeviceRecord → List ℕ → Option Payload
challenge_payload c account d nonce =
    if c.device_id == d.id
    then if length nonce == 32
      then some (
          login_payload account.device_epoch account.id c.id d.id c.expires_at c.created_at nonce
            c.origin)
      else none
    else none

-- `RegistrationChallenge.payload`, whose nonce and fingerprint have 32 bytes
abbrev pub registration_payload_of : RegistrationChallenge → Payload
registration_payload_of c =
    registration_payload c.epoch c.account_id c.challenge_id c.fingerprint c.device_id c.expires_at
      c.issued_at c.nonce c.origin c.enrollment_method c.fallback
