-- ===== src/DeviceAuth/Issued.antt =====
-- What is issued to a device: linking codes and login challenges.
use self_relay.Base.{
  ℕ, ◌+◌, ◌≡◌, refl, Bool, true, false, List, [], ◌∷◌, ◌&&◌, ◌||◌, not, Option, none, some, ◌==◌,
  is_some, inl, inr, Bool-cases,
}
use self_relay.Base.Dict.{lookup, lookup-insert_self}
use self_relay.Records.{AccountRecord, DeviceRecord, OtpStatus}
use self_relay.Identity.Database.{is_active}
use self_relay.Identity.Accounts
use self_relay.Identity.Devices
use self_relay.Linking.Codes
use self_relay.Linking.Codes.{hash_taken, issuer_of_account, new_otp}
use self_relay.DeviceAuth.State.{
  AuthState, linking_tables, Readings, linking_unavailable, rate_limited, repository_failed, Result,
  ok, err,
}
use self_relay.DeviceAuth.LinkingOtp.{
  IssueCall, allow_many, audit_rate_limited, audit_otp_created, create_account, create_device,
  DeviceLinkingOtpResult, device_linking_otp_lifetime, issue_for, issue_linking_otp,
}

module _ (hash_code : ℕ → ℕ) (rd : Readings) (allowed : Bool) (code account_id issuing : ℕ) where
  -- The question to the limiter: 10 codes for the account and 5 for the device in 600000000 microseconds
  abbrev pub asked : IssueCall
  asked =
      allow_many
        (record { scope = create_account; identifier = account_id; limit = 10; window = 600000000 }
          ∷ record { scope = create_device; identifier = issuing; limit = 5; window = 600000000 }
          ∷ [])
        rd.now

  -- How a call ends: with a stored code of an active device, or without a change.
  abbrev pub IsIssued :
      Option AccountRecord
      → Option DeviceRecord
      → (st st' : AuthState) → List IssueCall
      → Result DeviceLinkingOtpResult
      → Type 0
  IsIssued oa od st st' calls (err linking_unavailable) = (st' ≡ st) × (calls ≡ [])
  IsIssued oa od st st' calls (err rate_limited) =
      (st' ≡ st)
      × (allowed ≡ false)
      × (calls ≡ asked ∷ audit_rate_limited rd.now account_id issuing ∷ [])
  IsIssued oa od st st' calls (err repository_failed) = (st' ≡ st) × (calls ≡ asked ∷ [])
  IsIssued oa od st st' calls (err _) = ⊥
  IsIssued oa od st st' calls (ok r) =
      (account : AccountRecord) × (d : DeviceRecord) × (oa ≡ some account)
      × (od ≡ some d)
      × ((is_active d.status && d.epoch == account.device_epoch) ≡ true)
      × (allowed ≡ true)
      × (r.code ≡ code)
      × (lookup rd.new_id st'.otps ≡ some r.stored)
      × (r.stored.id ≡ rd.new_id)
      × (r.stored.user_id ≡ account_id)
      × (r.stored.issuing_device_id ≡ issuing)
      × (r.stored.otp_hash ≡ hash_code code)
      × (r.stored.status ≡ OtpStatus.active)
      × (r.stored.attempt_count ≡ 0)
      × (r.stored.created_at ≡ rd.database_now)
      × (r.stored.expires_at ≡ rd.now + 600000000)
      × (r.stored.consumed_at ≡ none)
      × (calls ≡ asked ∷ audit_otp_created rd.now account_id issuing ∷ [])

  issue_for-IsIssued :
      (oa : Option AccountRecord) (od : Option DeviceRecord) (st : AuthState)
      → IsIssued oa od st
          (issue_for hash_code rd allowed code account_id issuing oa od st).2
          (issue_for hash_code rd allowed code account_id issuing oa od st).1
          (issue_for hash_code rd allowed code account_id issuing oa od st).0
  unfolding Codes.create
  issue_for-IsIssued none od st = (refl, refl)
  issue_for-IsIssued (some account) none st = (refl, refl)
  issue_for-IsIssued (some account) (some d) st =
      let tables = linking_tables st in
      elim (Bool-cases (is_active d.status && d.epoch == account.device_epoch)) [
        | inl current ↦ elim (Bool-cases allowed) [
          | inl within ↦
              elim (Bool-cases (
                issuer_of_account tables account_id issuing (lookup account_id st.identity.accounts)
                && not
                    (is_some (lookup rd.new_id st.otps) || hash_taken (hash_code code) st.otps))) [
                      | inl admitted ↦ rw current (
                          rw within (
                            rw admitted (
                              account,
                              d,
                              refl,
                              refl,
                              current,
                              refl,
                              refl,
                              lookup-insert_self rd.new_id
                                  (new_otp rd.database_now rd.new_id account_id issuing
                                    (hash_code code) (rd.now + device_linking_otp_lifetime))
                                  st.otps,
                              refl,
                              refl,
                              refl,
                              refl,
                              refl,
                              refl,
                              refl,
                              refl,
                              refl,
                              refl,
                            )))
                      | inr refused ↦ rw current (rw within (rw refused (refl, refl)))
                    ]
          | inr over ↦ rw current (rw over (refl, refl, refl))
        ]
        | inr stale ↦ rw stale (refl, refl)
      ]

  -- A linking code is issued only to an active device of the account, at the account's epoch, and within
  -- the rate limits. The code that is returned is then stored under its digest, for this account and
  -- device, active, to expire 600000000 microseconds from now and with no tries counted. If the call fails,
  -- then no table of the service's repositories changes. The limiter is asked once, about the account and
  -- the device, unless the device is refused; a refusal of the limiter and a code that is stored are each
  -- audited once, and nothing else is.
  pub issue_linking_otp-IsIssued :
      (st : AuthState)
      → IsIssued
          (Accounts.get_by_id account_id st.identity)
          (Devices.get_by_id account_id issuing st.identity)
          st
          (issue_linking_otp hash_code rd allowed code account_id issuing st).2
          (issue_linking_otp hash_code rd allowed code account_id issuing st).1
          (issue_linking_otp hash_code rd allowed code account_id issuing st).0
  unfolding issue_linking_otp
  issue_linking_otp-IsIssued st =
      issue_for-IsIssued (Accounts.get_by_id account_id st.identity)
        (Devices.get_by_id account_id issuing st.identity) st
