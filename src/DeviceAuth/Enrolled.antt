-- ===== src/DeviceAuth/Enrolled.antt =====
-- What a registration takes: the proofs that stand behind a session that `complete_registration` opens.
use self_relay.Base.{
  ℕ, ◌≡◌, refl, ap, sym, ◌∙◌, Bool, true, false, ◌&&◌, not, Option, none, some, String, ◌==◌, leb,
  inl, inr, Bool-cases, Option-cases,
}
use mathlib.Core.Path.{subst}
use text.Mathlib.Text.{◌==◌ as str_eq}
use self_relay.Base.Dict.{Dict, lookup, erase, IsUnique, lookup-erase_self}
use self_relay.Records.{AccountRecord, DeviceRecord}
use self_relay.Identity.Database.{IdentityDatabase}
use self_relay.Identity.Accounts
use self_relay.Identity.Devices
use self_relay.Identity.Untouched.{register_for_email-sessions}
use self_relay.Linking.Codes
use self_relay.Linking.Codes.{LinkingDatabase, Redeemed, refused, raised, registered}
use self_relay.DeviceAuth.Registrations
use self_relay.DeviceAuth.Registrations.{RegistrationState, Registrations, is_late}
use self_relay.DeviceAuth.State.{
  AuthState, linking_tables, with_linking, Readings, DeviceAuthResult, Payload,
  registration_payload_of,
}
use self_relay.DeviceAuth.Opening.{create_session}
use self_relay.DeviceAuth.Enrollment.{
  with_registrations, fail_code, redemption, device_data, marked, open_session, linked, enrolled,
  enroll, enroll_for, claim, check_state, complete_registration,
}
use self_relay.DeviceAuth.Outcome.{Ends, Ends-map, HasSession, opened-Ends, create_session-IsOpened}

module _ (hash_secret : ℕ → ℕ) (verify : (key : ℕ) → Payload → (signature : ℕ) → Bool)
    (admits : DeviceRecord → Dict DeviceRecord → Bool) (rd : Readings)
    (challenge_id signature : ℕ) where
  -- The session is on the device that the call returns, and the challenge is gone.
  abbrev pub Finished : AccountRecord → DeviceAuthResult → AuthState → Type 0
  Finished account r st =
      HasSession rd.database_now account.id r.device.id account.device_epoch r st
      × (lookup challenge_id st.registrations ≡ none)

  open_session-Ends :
      (account : AccountRecord) (d : DeviceRecord) (fallback : Bool) (before st : AuthState)
      → st.identity.sessions ≡ before.identity.sessions
      → lookup challenge_id st.registrations ≡ none
      → Ends
          (Finished account)
          before
          (open_session hash_secret verify admits rd account d fallback st).1
          (open_session hash_secret verify admits rd account d fallback st).0
  open_session-Ends account d fallback before st same gone =
      let created =
        create_session hash_secret rd account.id d.id account.device_epoch st.identity in
      Ends-map
        (λ r st'.
          HasSession rd.database_now account.id d.id account.device_epoch r st'
          × (r.device ≡ d)
          × (lookup challenge_id st'.registrations ≡ none))
        (Finished account) before
        (open_session hash_secret verify admits rd account d fallback st).1
        (open_session hash_secret verify admits rd account d fallback st).0
        (λ r st' f. ((f.0.0, f.0.1, f.0.2 ∙ ap (λ x. x.id) (sym f.1), f.0.3, f.0.4), f.2))
        (opened-Ends rd.database_now account.id d.id account.device_epoch
          (λ st'. lookup challenge_id st'.registrations ≡ none) account d fallback before st
          st.identity created.1 created.0 same gone
          (create_session-IsOpened hash_secret rd account.id d.id account.device_epoch st.identity))

  linked-Ends :
      (account : AccountRecord) (answer : Redeemed) (db : LinkingDatabase) (before st : AuthState)
      → st.identity.sessions ≡ before.identity.sessions
      → lookup challenge_id st.registrations ≡ none
      → Ends
          (Finished account)
          before
          (linked hash_secret verify admits rd account (answer, db) st).1
          (linked hash_secret verify admits rd account (answer, db) st).0
  linked-Ends account refused db before st same gone = same
  linked-Ends account raised db before st same gone = same
  linked-Ends account (registered d) db before st same gone =
      open_session-Ends account d false before (with_linking st db) same gone

  marked-sessions :
      (a : ℕ) (fallback : Bool) (db : IdentityDatabase)
      → (marked rd a fallback db).sessions ≡ db.sessions
  unfolding Accounts.mark_email_fallback
  marked-sessions a true db = refl
  marked-sessions a false db = refl

  enrolled-Ends :
      (s : RegistrationState) (account : AccountRecord) (o : Option DeviceRecord)
      (db : IdentityDatabase) (before st : AuthState)
      → st.identity.sessions ≡ before.identity.sessions
      → db.sessions ≡ before.identity.sessions
      → lookup challenge_id st.registrations ≡ none
      → Ends
          (Finished account)
          before
          (enrolled hash_secret verify admits rd s account (o, db) st).1
          (enrolled hash_secret verify admits rd s account (o, db) st).0
  enrolled-Ends s account none db before st same kept gone = same
  enrolled-Ends s account (some d) db before st same kept gone =
      open_session-Ends account d s.challenge.fallback before
        (record st { identity = marked rd account.id s.challenge.fallback db })
        (marked-sessions account.id s.challenge.fallback db ∙ kept) gone

  enroll-Ends :
      (s : RegistrationState) (account : AccountRecord) (otp issuing : Option ℕ)
      (before st : AuthState)
      → st.identity.sessions ≡ before.identity.sessions
      → lookup challenge_id st.registrations ≡ none
      → Ends
          (Finished account)
          before
          (enroll hash_secret verify admits rd s account otp issuing st).1
          (enroll hash_secret verify admits rd s account otp issuing st).0
  enroll-Ends s account (some otp) (some issuing) before st same gone =
      let answer =
        Codes.consume_and_register admits rd.database_now (redemption s account otp issuing)
          (linking_tables st) in
      linked-Ends account answer.0 answer.1 before st same gone
  enroll-Ends s account (some otp) none before st same gone = same
  enroll-Ends s account none issuing before st same gone =
      let answer =
        Devices.register_for_email rd.database_now s.challenge.device_id (device_data s account)
          st.identity in
      enrolled-Ends s account answer.0 answer.1 before st same
        (register_for_email-sessions rd.database_now s.challenge.device_id (device_data s account)
            st.identity
          ∙ same)
        gone

  -- Behind the account
  abbrev pub WithAccount :
      RegistrationState → Option AccountRecord → DeviceAuthResult → AuthState → Type 0
  WithAccount s o r st =
      (account : AccountRecord) × (o ≡ some account)
      × (account.device_epoch == s.challenge.epoch ≡ true)
      × Finished account r st

  enroll_for-Ends :
      (s : RegistrationState) (o : Option AccountRecord) (before st : AuthState)
      → st.identity.sessions ≡ before.identity.sessions
      → lookup challenge_id st.registrations ≡ none
      → Ends
          (WithAccount s o)
          before
          (enroll_for hash_secret verify admits rd s o st).1
          (enroll_for hash_secret verify admits rd s o st).0
  enroll_for-Ends s none before st same gone = same
  enroll_for-Ends s (some account) before st same gone =
      elim (Bool-cases (account.device_epoch == s.challenge.epoch)) [
        | inl current ↦ rw current (
            Ends-map (Finished account) (WithAccount s (some account)) before
              (enroll hash_secret verify admits rd s account s.challenge.linking_otp_id
                s.challenge.linked_by_device_id st).1
              (enroll hash_secret verify admits rd s account s.challenge.linking_otp_id
                s.challenge.linked_by_device_id st).0
              (λ r st' f. (account, refl, current, f))
              (enroll-Ends s account s.challenge.linking_otp_id s.challenge.linked_by_device_id
                before st same gone))
        | inr stale ↦ rw stale same
      ]

  -- Behind the challenge and its proof
  abbrev pub WithState : (origin : String) → AuthState → DeviceAuthResult → AuthState → Type 0
  WithState origin before r st =
      (s : RegistrationState) × (lookup challenge_id before.registrations ≡ some s)
      × (is_late rd.now s ≡ false)
      × ((str_eq s.challenge.origin origin && not (leb 10 s.attempts)) ≡ true)
      × (verify s.public_key_spki (registration_payload_of s.challenge) signature ≡ true)
      × WithAccount s (Accounts.get_by_id s.challenge.account_id before.identity) r st

  fail_code-sessions :
      (o : Option ℕ) (st : AuthState) → (fail_code rd o st).identity.sessions ≡ st.identity.sessions
  fail_code-sessions none st = refl
  fail_code-sessions (some otp) st = refl

  -- The second look at the challenge finds it as the first did.
  claim-Ends :
      (s : RegistrationState) (st : AuthState)
      → IsUnique st.registrations
      → lookup challenge_id st.registrations ≡ some s
      → is_late rd.now s ≡ false
      → Ends
          (WithAccount s (Accounts.get_by_id s.challenge.account_id st.identity))
          st
          (claim hash_secret verify admits rd
            (Registrations.consume challenge_id rd.now st.registrations)
            st).1
          (claim hash_secret verify admits rd
            (Registrations.consume challenge_id rd.now st.registrations)
            st).0
  unfolding Registrations.consume
  claim-Ends s st u there fresh = rw there (
      rw fresh (
        enroll_for-Ends s (Accounts.get_by_id s.challenge.account_id st.identity) st
          (with_registrations st (erase challenge_id st.registrations)) refl
          (lookup-erase_self challenge_id st.registrations u)))

  check_state-Ends :
      (origin : String) (s : RegistrationState) (st : AuthState)
      → IsUnique st.registrations
      → lookup challenge_id st.registrations ≡ some s
      → is_late rd.now s ≡ false
      → Ends
          (WithState origin st)
          st
          (check_state hash_secret verify admits rd challenge_id signature origin
            (some s, st.registrations)
            st).1
          (check_state hash_secret verify admits rd challenge_id signature origin
            (some s, st.registrations)
            st).0
  check_state-Ends origin s st u there fresh =
      let payload = registration_payload_of s.challenge in
      let claimed =
        claim hash_secret verify admits rd
          (Registrations.consume challenge_id rd.now st.registrations) st in
      elim (Bool-cases (str_eq s.challenge.origin origin && not (leb 10 s.attempts))) [
        | inl fit ↦ elim (Bool-cases (verify s.public_key_spki payload signature)) [
          | inl good ↦ rw fit (
              rw good (
                Ends-map (WithAccount s (Accounts.get_by_id s.challenge.account_id st.identity))
                  (WithState origin st) st claimed.1 claimed.0
                  (λ r st' f. (s, there, fresh, fit, good, f)) (claim-Ends s st u there fresh)))
          | inr bad ↦ rw fit (
              rw bad (
                fail_code-sessions s.challenge.linking_otp_id (
                  with_registrations st
                    (Registrations.mark_failed challenge_id rd.now st.registrations))))
        ]
        | inr unfit ↦ rw unfit refl
      ]

  -- A device is let in only with a proof of its key. If `complete_registration` returns, then the
  -- challenge was pending: issued for this origin, before its deadline, tried less than ten times; the
  -- key that it was issued for verified the signature of its payload; and its account is there, at the
  -- epoch of the challenge. The session is then stored and usable, on this account and epoch and on the
  -- device that is returned, and the challenge is gone. If the call fails, all sessions are as they were.
  pub complete_registration-Ends :
      (origin : String) (st : AuthState)
      → IsUnique st.registrations
      → Ends
          (WithState origin st)
          st
          (complete_registration hash_secret verify admits rd challenge_id signature origin st).1
          (complete_registration hash_secret verify admits rd challenge_id signature origin st).0
  unfolding complete_registration Registrations.get
  complete_registration-Ends origin st u =
      elim (Option-cases (lookup challenge_id st.registrations)) [
        | inl gone ↦ rw gone refl
        | inr (s, there) ↦ elim (Bool-cases (is_late rd.now s)) [
          | inl late ↦ rw there (rw late refl)
          | inr fresh ↦
              let got : Registrations.get challenge_id rd.now st.registrations
                  ≡ (some s, st.registrations) =
                rw there (rw fresh refl) in
              subst
                (λ p.
                  Ends (WithState origin st) st
                    (check_state hash_secret verify admits rd challenge_id signature origin p st).1
                    (check_state hash_secret verify admits rd challenge_id signature origin p st).0)
                (sym got) (check_state-Ends origin s st u there fresh)
        ]
      ]
