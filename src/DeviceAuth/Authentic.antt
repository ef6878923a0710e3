-- ===== src/DeviceAuth/Authentic.antt =====
-- What a login takes: the proofs that stand behind a session that `complete_login_challenge` opens.
use self_relay.Base.{
  ℕ, ◌≡◌, refl, ap, Bool, true, false, ◌&&◌, not, Option, none, some, List, String, ◌==◌, leb,
  is_some, coalesce, Holds, inl, inr, Bool-cases, arith,
}
use text.Mathlib.Text.{◌==◌ as str_eq}
use self_relay.Base.Dict.{lookup}
use self_relay.Base.Rows.{update_row, update_row-stored, update_row-holds}
use self_relay.Records.{AccountRecord, DeviceRecord, DeviceChallengeRecord}
use self_relay.Identity.Accounts
use self_relay.Identity.Devices
use self_relay.Challenges.Statements
use self_relay.Challenges.Statements.{ChallengeDatabase, is_pending, consumed_now}
use self_relay.DeviceAuth.State.{
  AuthState, challenge_tables, with_challenges, Readings, DeviceAuthResult, Payload,
  challenge_payload,
}
use self_relay.DeviceAuth.Opening.{create_session}
use self_relay.DeviceAuth.Login.{
  is_current, hash_nonce, fail_login, finish_login, check_proof, check_nonce, check_device,
  check_challenge, complete_login_challenge,
}
use self_relay.DeviceAuth.Outcome.{Ends, Ends-map, HasSession, opened-Ends, create_session-IsOpened}

-- The challenge is there, and consumed.
abbrev pub IsConsumed : Option DeviceChallengeRecord → Type 0
IsConsumed none = ⊥
IsConsumed (some c) = is_some c.consumed_at ≡ true

IsConsumed-row :
    (row : Option DeviceChallengeRecord) (o : Option DeviceChallengeRecord)
    → Holds (λ c. row ≡ some c) o
    → Holds (λ c. is_some c.consumed_at ≡ true) o
    → Holds (λ c. IsConsumed row) o
IsConsumed-row row none s c = tt
IsConsumed-row row (some x) s c = rw s c

consume-IsConsumed :
    (now a k : ℕ) (db : ChallengeDatabase)
    → Holds
        (λ c. IsConsumed (lookup k (Statements.consume now a k db).1.challenges))
        (Statements.consume now a k db).0
unfolding Statements.consume
consume-IsConsumed now a k db =
    IsConsumed-row
      (lookup k
        (update_row (λ c. not (is_pending now a db c)) (consumed_now now) k db.challenges).1)
      (update_row (λ c. not (is_pending now a db c)) (consumed_now now) k db.challenges).0
      (update_row-stored (λ c. not (is_pending now a db c)) (consumed_now now) k db.challenges)
      (update_row-holds (λ c. is_some c.consumed_at ≡ true) (λ c. not (is_pending now a db c))
        (consumed_now now) k db.challenges (λ c e. refl))

module _ (sha256 : List ℕ → ℕ) (hash_secret : ℕ → ℕ)
    (verify : (key : ℕ) → Payload → (signature : ℕ) → Bool) (rd : Readings)
    (account_id challenge_id signature : ℕ) (nonce : List ℕ) where
  -- The session is on the account's device, and the challenge is used up.
  abbrev pub Finished : AccountRecord → DeviceRecord → DeviceAuthResult → AuthState → Type 0
  Finished account d r st =
      HasSession rd.database_now account_id d.id account.device_epoch r st
      × IsConsumed (lookup challenge_id st.challenges)

  -- The device's key verified the signature of the payload.
  abbrev pub Proved : DeviceRecord → Option Payload → Type 0
  Proved d o = (p : Payload) × (o ≡ some p) × (verify d.signing_public_key_spki p signature ≡ true)

  finish_login-Ends :
      (account : AccountRecord) (d : DeviceRecord) (st : AuthState)
      (o : Option DeviceChallengeRecord) (db : ChallengeDatabase)
      → Holds (λ c. IsConsumed (lookup challenge_id db.challenges)) o
      → Ends
          (Finished account d)
          st
          (finish_login sha256 hash_secret verify rd account_id account d st (o, db)).1
          (finish_login sha256 hash_secret verify rd account_id account d st (o, db)).0
  unfolding Devices.touch_last_seen
  finish_login-Ends account d st none db h = refl
  finish_login-Ends account d st (some c) db h =
      let touched = Devices.touch_last_seen rd.database_now account_id d.id st.identity in
      let created = create_session hash_secret rd account_id d.id account.device_epoch touched.1 in
      Ends-map
        (λ r st'.
          HasSession rd.database_now account_id d.id account.device_epoch r st'
          × (r.device ≡ coalesce touched.0 d)
          × IsConsumed (lookup challenge_id st'.challenges))
        (Finished account d) st
        (finish_login sha256 hash_secret verify rd account_id account d st (some c, db)).1
        (finish_login sha256 hash_secret verify rd account_id account d st (some c, db)).0
        (λ r st' f. (f.0, f.2))
        (opened-Ends rd.database_now account_id d.id account.device_epoch
          (λ st'. IsConsumed (lookup challenge_id st'.challenges)) account (coalesce touched.0 d)
          false st (with_challenges st db) touched.1 created.1 created.0 refl h
          (create_session-IsOpened hash_secret rd account_id d.id account.device_epoch touched.1))

  check_proof-Ends :
      (account : AccountRecord) (d : DeviceRecord) (o : Option Payload) (st : AuthState)
      → Ends
          (λ r st'. Proved d o × Finished account d r st')
          st
          (check_proof sha256 hash_secret verify rd account_id challenge_id signature account d o
            st).1
          (check_proof sha256 hash_secret verify rd account_id challenge_id signature account d o
            st).0
  unfolding fail_login
  check_proof-Ends account d none st = refl
  check_proof-Ends account d (some p) st =
      elim (Bool-cases (verify d.signing_public_key_spki p signature)) [
        | inl good ↦ rw good (
            Ends-map (Finished account d) (λ r st'. Proved d (some p) × Finished account d r st') st
              (finish_login sha256 hash_secret verify rd account_id account d st (
                Statements.consume rd.database_now account_id challenge_id (challenge_tables st))).1
              (finish_login sha256 hash_secret verify rd account_id account d st (
                Statements.consume rd.database_now account_id challenge_id (challenge_tables st))).0
              (λ r st' f. ((p, refl, good), f))
              (finish_login-Ends account d st
                (Statements.consume rd.database_now account_id challenge_id (challenge_tables st)).0
                (Statements.consume rd.database_now account_id challenge_id (challenge_tables st)).1
                (consume-IsConsumed rd.database_now account_id challenge_id (challenge_tables st))))
        | inr bad ↦ rw bad refl
      ]

  -- Behind the digest of the nonce
  abbrev pub WithNonce :
      DeviceChallengeRecord
      → AccountRecord
      → DeviceRecord
      → Option ℕ
      → DeviceAuthResult
      → AuthState
      → Type 0
  WithNonce c account d o r st =
      (o ≡ some c.nonce_hash)
      × Proved d (challenge_payload c account d nonce)
      × Finished account d r st

  check_nonce-Ends :
      (c : DeviceChallengeRecord) (account : AccountRecord) (d : DeviceRecord) (o : Option ℕ)
      (st : AuthState)
      → Ends
          (WithNonce c account d o)
          st
          (check_nonce sha256 hash_secret verify rd account_id challenge_id signature nonce c
            account d o st).1
          (check_nonce sha256 hash_secret verify rd account_id challenge_id signature nonce c
            account d o st).0
  unfolding fail_login
  check_nonce-Ends c account d none st = refl
  check_nonce-Ends c account d (some h) st = elim (Bool-cases (c.nonce_hash == h)) [
    | inl same ↦
        let key : h ≡ c.nonce_hash = ground arith in
        rw same (
          Ends-map
            (λ r st'. Proved d (challenge_payload c account d nonce) × Finished account d r st')
            (WithNonce c account d (some h)) st
            (check_proof sha256 hash_secret verify rd account_id challenge_id signature account d
              (challenge_payload c account d nonce) st).1
            (check_proof sha256 hash_secret verify rd account_id challenge_id signature account d
              (challenge_payload c account d nonce) st).0
            (λ r st' f. (ap some key, f.0, f.1))
            (check_proof-Ends account d (challenge_payload c account d nonce) st))
    | inr other ↦ rw other refl
  ]

  -- Behind the account and the device
  abbrev pub WithDevice :
      DeviceChallengeRecord
      → Option AccountRecord
      → Option DeviceRecord
      → DeviceAuthResult
      → AuthState
      → Type 0
  WithDevice c oa od r st =
      (account : AccountRecord) × (d : DeviceRecord) × (oa ≡ some account)
      × (od ≡ some d)
      × ((is_current account d && not (leb c.expires_at rd.now) && not (is_some c.consumed_at))
          ≡ true)
      × WithNonce c account d (hash_nonce sha256 hash_secret verify nonce) r st

  check_device-Ends :
      (c : DeviceChallengeRecord) (oa : Option AccountRecord) (od : Option DeviceRecord)
      (st : AuthState)
      → Ends
          (WithDevice c oa od)
          st
          (check_device sha256 hash_secret verify rd account_id challenge_id signature nonce c oa od
            st).1
          (check_device sha256 hash_secret verify rd account_id challenge_id signature nonce c oa od
            st).0
  unfolding fail_login
  check_device-Ends c none od st = refl
  check_device-Ends c (some account) none st = refl
  check_device-Ends c (some account) (some d) st =
      let h = hash_nonce sha256 hash_secret verify nonce in
      elim (Bool-cases
        (is_current account d && not (leb c.expires_at rd.now) && not (is_some c.consumed_at))) [
          | inl fit ↦ rw fit (
              Ends-map (WithNonce c account d h) (WithDevice c (some account) (some d)) st
                (check_nonce sha256 hash_secret verify rd account_id challenge_id signature nonce c
                  account d h st).1
                (check_nonce sha256 hash_secret verify rd account_id challenge_id signature nonce c
                  account d h st).0
                (λ r st' f. (account, d, refl, refl, fit, f)) (check_nonce-Ends c account d h st))
          | inr unfit ↦ rw unfit refl
        ]

  -- Behind the challenge itself
  abbrev pub WithChallenge :
      (origin : String)
      → AuthState
      → Option DeviceChallengeRecord
      → DeviceAuthResult
      → AuthState
      → Type 0
  WithChallenge origin before o r st =
      (c : DeviceChallengeRecord) × (o ≡ some c)
      × (str_eq c.origin origin ≡ true)
      × WithDevice c (Accounts.get_by_id account_id before.identity)
          (Devices.get_by_id account_id c.device_id before.identity) r st

  check_challenge-Ends :
      (origin : String) (o : Option DeviceChallengeRecord) (st : AuthState)
      → Ends
          (WithChallenge origin st o)
          st
          (check_challenge sha256 hash_secret verify rd account_id challenge_id signature nonce
            origin o st).1
          (check_challenge sha256 hash_secret verify rd account_id challenge_id signature nonce
            origin o st).0
  check_challenge-Ends origin none st = refl
  check_challenge-Ends origin (some c) st = elim (Bool-cases (str_eq c.origin origin)) [
    | inl same ↦
        let oa = Accounts.get_by_id account_id st.identity in
        let od = Devices.get_by_id account_id c.device_id st.identity in
        rw same (
          Ends-map (WithDevice c oa od) (WithChallenge origin st (some c)) st
            (check_device sha256 hash_secret verify rd account_id challenge_id signature nonce c oa
              od st).1
            (check_device sha256 hash_secret verify rd account_id challenge_id signature nonce c oa
              od st).0
            (λ r st' f. (c, refl, same, f)) (check_device-Ends c oa od st))
    | inr other ↦ rw other refl
  ]

  -- A session is opened only for a device that proves itself. If `complete_login_challenge` returns,
  -- then the challenge is one of the account, for this origin, neither consumed nor late; its device is
  -- an active one of the account, at the account's epoch; the nonce has 32 bytes and the digest of the
  -- challenge; and the device's own key verified the signature of the challenge's payload. The session
  -- is then stored and usable, on this device, account and epoch, and the challenge is consumed.
  -- If the call fails, all sessions are as they were.
  pub complete_login_challenge-Ends :
      (origin : String) (st : AuthState)
      → Ends
          (WithChallenge origin st
            (Statements.get_by_id account_id challenge_id (challenge_tables st)))
          st
          (complete_login_challenge sha256 hash_secret verify rd account_id challenge_id nonce
            signature origin st).1
          (complete_login_challenge sha256 hash_secret verify rd account_id challenge_id nonce
            signature origin st).0
  unfolding complete_login_challenge
  complete_login_challenge-Ends origin st =
      check_challenge-Ends origin
        (Statements.get_by_id account_id challenge_id (challenge_tables st)) st
