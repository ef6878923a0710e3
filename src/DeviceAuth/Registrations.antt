-- ===== src/DeviceAuth/Registrations.antt =====
-- `RegistrationChallengeStore` of backend/app/device_auth.py. Nonces are lists of bytes; the identifier
-- and the nonce that `issue` draws and the fingerprint of the key, a digest, are arguments.
use self_relay.Base.{ℕ, ◌+◌, min, Bool, Option, none, some, List, String, leb, if◌then◌else◌}
use self_relay.Base.Dict.{Dict, lookup, insert, erase}
use self_relay.Records.{AccountRecord}

pub data EnrollmentMethod : Type 0 where
  email device_link : EnrollmentMethod

pub record RegistrationChallenge : Type 0 where
  pub challenge_id : ℕ
  pub account_id : ℕ
  pub device_id : ℕ
  pub epoch : ℕ
  pub nonce : List ℕ
  pub origin : String
  pub issued_at : ℕ
  pub expires_at : ℕ
  pub fingerprint : ℕ
  pub fallback : Bool
  pub enrollment_method : EnrollmentMethod
  pub linking_otp_id : Option ℕ
  pub linked_by_device_id : Option ℕ

pub record RegistrationState : Type 0 where
  pub challenge : RegistrationChallenge
  pub public_key_spki : ℕ
  pub label : String
  pub attempts : ℕ

abbrev pub Registrations : Type 0
Registrations = Dict RegistrationState

-- What a caller says of the device that is to be registered.
pub record Enrollment : Type 0 where
  pub device_id : ℕ
  pub public_key_spki : ℕ
  pub fingerprint : ℕ
  pub label : String
  pub origin : String
  pub fallback : Bool
  pub enrollment_method : EnrollmentMethod
  pub linking_otp_id : Option ℕ
  pub linked_by_device_id : Option ℕ

abbrev pub new_challenge :
    (lifetime challenge_id : ℕ)
    → List ℕ
    → AccountRecord
    → Enrollment
    → (issued_at : ℕ) → RegistrationChallenge
new_challenge lifetime challenge_id nonce account x issued_at = record {
  challenge_id = challenge_id;
  account_id = account.id;
  device_id = x.device_id;
  epoch = account.device_epoch;
  nonce = nonce;
  origin = x.origin;
  issued_at = issued_at;
  expires_at = issued_at + lifetime;
  fingerprint = x.fingerprint;
  fallback = x.fallback;
  enrollment_method = x.enrollment_method;
  linking_otp_id = x.linking_otp_id;
  linked_by_device_id = x.linked_by_device_id;
}

unfoldable pub issue :
    (lifetime challenge_id : ℕ)
    → List ℕ
    → AccountRecord
    → Enrollment
    → (issued_at : ℕ) → Registrations
    → RegistrationChallenge × Registrations
issue lifetime challenge_id nonce account x issued_at states =
    let challenge = new_challenge lifetime challenge_id nonce account x issued_at in
    (
      challenge,
      insert challenge_id
          (record {
            challenge = challenge;
            public_key_spki = x.public_key_spki;
            label = x.label;
            attempts = 0;
          })
          states,
    )

abbrev pub is_late : (now : ℕ) → RegistrationState → Bool
is_late now state = leb state.challenge.expires_at now

abbrev pub get_row :
    (challenge_id now : ℕ)
    → Option RegistrationState
    → Registrations
    → Option RegistrationState × Registrations
get_row challenge_id now none states = (none, states)
get_row challenge_id now (some state) states =
    if is_late now state then (none, erase challenge_id states) else (some state, states)

unfoldable pub get :
    (challenge_id now : ℕ) → Registrations → Option RegistrationState × Registrations
get challenge_id now states = get_row challenge_id now (lookup challenge_id states) states

abbrev pub tried_once : RegistrationState → RegistrationState
tried_once state = record state { attempts = min (state.attempts + 1) 10 }

abbrev pub mark_failed_row :
    (challenge_id now : ℕ) → Option RegistrationState → Registrations → Registrations
mark_failed_row challenge_id now none states = erase challenge_id states
mark_failed_row challenge_id now (some state) states =
    if is_late now state
    then erase challenge_id states
    else insert challenge_id (tried_once state) states

unfoldable pub mark_failed : (challenge_id now : ℕ) → Registrations → Registrations
mark_failed challenge_id now states =
    mark_failed_row challenge_id now (lookup challenge_id states) states

abbrev pub unless_late : (now : ℕ) → Option RegistrationState → Option RegistrationState
unless_late now none = none
unless_late now (some state) = if is_late now state then none else some state

unfoldable pub consume :
    (challenge_id now : ℕ) → Registrations → Option RegistrationState × Registrations
consume challenge_id now states =
    (unless_late now (lookup challenge_id states), erase challenge_id states)
