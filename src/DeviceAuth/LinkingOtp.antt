-- ===== src/DeviceAuth/LinkingOtp.antt =====
-- `issue_linking_otp` of backend/app/device_auth.py. `allowed` is the rate limiter's answer, `code` the
-- digits that are drawn, as a number, and `hash_code` the digest of the digits. What the call asks of the
-- limiter and of the store of security events, where the service has them, is a list of calls in order;
-- `_audit_device_event` lets no exception out. The network identifier of an event is left out.
use self_relay.Base.{ℕ, ◌+◌, Bool, ◌&&◌, Option, none, some, List, [], ◌∷◌, ◌==◌, if◌then◌else◌}
use self_relay.Records.{AccountRecord, DeviceRecord, DeviceLinkingOtpRecord}
use self_relay.Identity.Database.{is_active}
use self_relay.Identity.Accounts
use self_relay.Identity.Devices
use self_relay.Linking.Codes
use self_relay.Linking.Codes.{LinkingDatabase}
use self_relay.DeviceAuth.State.{
  AuthState, linking_tables, with_linking, Readings, linking_unavailable, rate_limited,
  repository_failed, Result, ok, err,
}

-- 10 minutes
abbrev pub device_linking_otp_lifetime : ℕ
device_linking_otp_lifetime = 600000000

pub record DeviceLinkingOtpResult : Type 0 where
  pub code : ℕ
  pub stored : DeviceLinkingOtpRecord

-- `device-linking:create:account` and `device-linking:create:device`
pub data LimitScope : Type 0 where
  create_account create_device : LimitScope

pub record LimitRequest : Type 0 where
  pub scope : LimitScope
  pub identifier : ℕ
  pub limit : ℕ
  pub window : ℕ

-- `allow_many`, and `_audit_device_event` with `rate_limited`, `blocked` and with
-- `device_linking_otp_created`, `success`
pub data IssueCall : Type 0 where
  allow_many : List LimitRequest → (now : ℕ) → IssueCall
  audit_rate_limited audit_otp_created : (now account_id device_id : ℕ) → IssueCall

-- 10 minutes
abbrev pub device_linking_rate_limit_window : ℕ
device_linking_rate_limit_window = 600000000

abbrev pub create_limits : (account_id issuing_device_id : ℕ) → List LimitRequest
create_limits account_id issuing =
    record {
      scope = create_account;
      identifier = account_id;
      limit = 10;
      window = device_linking_rate_limit_window;
    }
    ∷ record {
      scope = create_device;
      identifier = issuing;
      limit = 5;
      window = device_linking_rate_limit_window;
    }
    ∷ []

abbrev pub Issue : Type 0
Issue = Result DeviceLinkingOtpResult × List IssueCall × AuthState

abbrev pub otp_created :
    (code : ℕ)
    → (asked created : IssueCall) → AuthState
    → Option DeviceLinkingOtpRecord × LinkingDatabase
    → Issue
otp_created code asked created st (none, db) = (err repository_failed, asked ∷ [], st)
otp_created code asked created st (some o, db) =
    (ok (record { code = code; stored = o }), asked ∷ created ∷ [], with_linking st db)

module _ (hash_code : ℕ → ℕ) (rd : Readings) (allowed : Bool) (code : ℕ) where
  abbrev pub issue_for :
      (account_id issuing_device_id : ℕ)
      → Option AccountRecord
      → Option DeviceRecord
      → AuthState
      → Issue
  issue_for account_id issuing (some account) (some d) st =
      if is_active d.status && d.epoch == account.device_epoch
      then if allowed
        then otp_created code (allow_many (create_limits account_id issuing) rd.now)
            (audit_otp_created rd.now account_id issuing) st
            (Codes.create rd.database_now rd.new_id account_id issuing (hash_code code)
              (rd.now + device_linking_otp_lifetime) (linking_tables st))
        else (
          err rate_limited,
          allow_many (create_limits account_id issuing) rd.now
              ∷ audit_rate_limited rd.now account_id issuing
              ∷ [],
          st,
        )
      else (err linking_unavailable, [], st)
  issue_for account_id issuing (some account) none st = (err linking_unavailable, [], st)
  issue_for account_id issuing none o st = (err linking_unavailable, [], st)

  unfoldable pub issue_linking_otp : (account_id issuing_device_id : ℕ) → AuthState → Issue
  unfolding Accounts.get_by_id Devices.get_by_id Codes.create
  issue_linking_otp account_id issuing st =
      issue_for account_id issuing (Accounts.get_by_id account_id st.identity)
        (Devices.get_by_id account_id issuing st.identity) st
