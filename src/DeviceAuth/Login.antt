-- ===== src/DeviceAuth/Login.antt =====
-- The login of a returning device: `issue_login_challenge` and `complete_login_challenge` of
-- backend/app/device_auth.py. Digests are parameters, and so is `verify`, which stands for
-- `verify_p1363_signature` of a key, the canonical form of a payload and a signature. A call runs with
-- no other statement between its own.
use self_relay.Base.{
  ℕ, ◌+◌, Bool, false, ◌&&◌, not, Option, none, some, List, String, ◌==◌, leb, if◌then◌else◌,
  is_some, coalesce, length,
}
use text.Mathlib.Text.{◌==◌ as str_eq}
use self_relay.Records.{AccountRecord, DeviceRecord, DeviceChallengeRecord}
use self_relay.Identity.Database.{is_active}
use self_relay.Identity.Accounts
use self_relay.Identity.Devices
use self_relay.Challenges.Statements
use self_relay.Challenges.Statements.{ChallengeDatabase}
use self_relay.DeviceAuth.Opening.{opened, create_session}
use self_relay.DeviceAuth.State.{
  AuthState, challenge_tables, with_challenges, Readings, challenge_unavailable, auth_failure,
  nonce_invalid, repository_failed, payload_failed, Result, ok, err, DeviceAuthResult,
  DeviceLoginChallenge, Payload, challenge_payload,
}

-- 5 minutes
abbrev pub challenge_lifetime : ℕ
challenge_lifetime = 300000000

-- `device.status == "active" and device.epoch == account.device_epoch`, of records that are there
abbrev pub is_current : AccountRecord → DeviceRecord → Bool
is_current account d = is_active d.status && d.epoch == account.device_epoch

-- `await self.challenge_store.mark_failed(...)`, and the failure
unfoldable pub fail_login :
    Readings → (account_id challenge_id : ℕ) → AuthState → Result DeviceAuthResult × AuthState
unfolding Statements.mark_failed
fail_login rd account_id challenge_id st = (
  err auth_failure,
  with_challenges st
      (Statements.mark_failed rd.database_now account_id challenge_id (challenge_tables st)).1,
)

module _ (sha256 : List ℕ → ℕ) (hash_secret : ℕ → ℕ)
    (verify : (key : ℕ) → Payload → (signature : ℕ) → Bool) where
  -- `none` where it raises `DeviceAuthFailure`
  abbrev pub hash_nonce : List ℕ → Option ℕ
  hash_nonce nonce = if length nonce == 32 then some (sha256 nonce) else none

  abbrev pub challenge_created :
      Readings
      → AccountRecord
      → DeviceRecord
      → AuthState
      → Option DeviceChallengeRecord × ChallengeDatabase
      → Result DeviceLoginChallenge × AuthState
  challenge_created rd account d st (none, db) = (err repository_failed, st)
  challenge_created rd account d st (some c, db) = (
    ok (record { challenge = c; account = account; device = d; nonce = rd.nonce }),
    with_challenges st db,
  )

  abbrev pub issue_with_hash :
      Readings
      → (account_id device_id : ℕ) → String
      → AccountRecord
      → DeviceRecord
      → Option ℕ
      → AuthState
      → Result DeviceLoginChallenge × AuthState
  issue_with_hash rd account_id device_id origin account d none st = (err nonce_invalid, st)
  issue_with_hash rd account_id device_id origin account d (some h) st =
      challenge_created rd account d st (
        Statements.create rd.database_now rd.new_id account_id device_id h origin
          (rd.now + challenge_lifetime) (challenge_tables st))

  abbrev pub issue_for :
      Readings
      → (account_id device_id : ℕ) → String
      → Option AccountRecord
      → Option DeviceRecord
      → AuthState
      → Result DeviceLoginChallenge × AuthState
  issue_for rd account_id device_id origin (some account) (some d) st =
      if is_current account d
      then issue_with_hash rd account_id device_id origin account d (hash_nonce rd.nonce) st
      else (err challenge_unavailable, st)
  issue_for rd account_id device_id origin (some account) none st = (err challenge_unavailable, st)
  issue_for rd account_id device_id origin none o st = (err challenge_unavailable, st)

  unfoldable pub issue_login_challenge :
      Readings
      → (account_id device_id : ℕ) → String
      → AuthState
      → Result DeviceLoginChallenge × AuthState
  unfolding Accounts.get_by_id Devices.get_by_id
  issue_login_challenge rd account_id device_id origin st =
      issue_for rd account_id device_id origin (Accounts.get_by_id account_id st.identity)
        (Devices.get_by_id account_id device_id st.identity) st

  abbrev pub finish_login :
      Readings
      → (account_id : ℕ) → AccountRecord
      → DeviceRecord
      → AuthState
      → Option DeviceChallengeRecord × ChallengeDatabase
      → Result DeviceAuthResult × AuthState
  finish_login rd account_id account d st (none, db) = (err auth_failure, st)
  finish_login rd account_id account d st (some c, db) =
      let touched = Devices.touch_last_seen rd.database_now account_id d.id st.identity in
      opened account (coalesce touched.0 d) false (with_challenges st db)
        (create_session hash_secret rd account_id d.id account.device_epoch touched.1)

  abbrev pub check_proof :
      Readings
      → (account_id challenge_id signature : ℕ) → AccountRecord
      → DeviceRecord
      → Option Payload
      → AuthState
      → Result DeviceAuthResult × AuthState
  check_proof rd account_id challenge_id signature account d none st = (err payload_failed, st)
  check_proof rd account_id challenge_id signature account d (some payload) st =
      if verify d.signing_public_key_spki payload signature
      then finish_login rd account_id account d st
          (Statements.consume rd.database_now account_id challenge_id (challenge_tables st))
      else fail_login rd account_id challenge_id st

  abbrev pub check_nonce :
      Readings
      → (account_id challenge_id signature : ℕ) → (nonce : List ℕ) → DeviceChallengeRecord
      → AccountRecord
      → DeviceRecord
      → Option ℕ
      → AuthState
      → Result DeviceAuthResult × AuthState
  check_nonce rd account_id challenge_id signature nonce c account d none st =
      (err nonce_invalid, st)
  check_nonce rd account_id challenge_id signature nonce c account d (some h) st =
      if c.nonce_hash == h
      then check_proof rd account_id challenge_id signature account d
          (challenge_payload c account d nonce) st
      else fail_login rd account_id challenge_id st

  abbrev pub check_device :
      Readings
      → (account_id challenge_id signature : ℕ) → (nonce : List ℕ) → DeviceChallengeRecord
      → Option AccountRecord
      → Option DeviceRecord
      → AuthState
      → Result DeviceAuthResult × AuthState
  check_device rd account_id challenge_id signature nonce c (some account) (some d) st =
      if is_current account d && not (leb c.expires_at rd.now) && not (is_some c.consumed_at)
      then check_nonce rd account_id challenge_id signature nonce c account d (hash_nonce nonce) st
      else fail_login rd account_id challenge_id st
  check_device rd account_id challenge_id signature nonce c (some account) none st =
      fail_login rd account_id challenge_id st
  check_device rd account_id challenge_id signature nonce c none o st =
      fail_login rd account_id challenge_id st

  abbrev pub check_challenge :
      Readings
      → (account_id challenge_id signature : ℕ) → (nonce : List ℕ) → (origin : String)
      → Option DeviceChallengeRecord
      → AuthState
      → Result DeviceAuthResult × AuthState
  check_challenge rd account_id challenge_id signature nonce origin none st = (err auth_failure, st)
  check_challenge rd account_id challenge_id signature nonce origin (some c) st =
      if str_eq c.origin origin
      then check_device rd account_id challenge_id signature nonce c
          (Accounts.get_by_id account_id st.identity)
          (Devices.get_by_id account_id c.device_id st.identity) st
      else (err auth_failure, st)

  unfoldable pub complete_login_challenge :
      Readings
      → (account_id challenge_id : ℕ) → (nonce : List ℕ) → (signature : ℕ) → (origin : String)
      → AuthState
      → Result DeviceAuthResult × AuthState
  unfolding Statements.get_by_id
  complete_login_challenge rd account_id challenge_id nonce signature origin st =
      check_challenge rd account_id challenge_id signature nonce origin
        (Statements.get_by_id account_id challenge_id (challenge_tables st)) st
