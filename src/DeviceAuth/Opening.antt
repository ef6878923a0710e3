-- ===== src/DeviceAuth/Opening.antt =====
-- How `DeviceAuthService` of backend/app/device_auth.py opens a session, at the end of every flow.
use self_relay.Base.{ℕ, Bool, none, some, aware}
use self_relay.Records.{AccountRecord, DeviceRecord}
use self_relay.Identity.Database.{IdentityDatabase}
use self_relay.Sessions.Service
use self_relay.Sessions.Service.{CreatedSession, Drawn}
use self_relay.Sessions.Rotation.{sql_port}
use self_relay.DeviceAuth.State.{
  AuthState, Readings, session_failed, Result, ok, err, DeviceAuthResult,
}

-- The last step of every login: the session service's answer
abbrev pub opened :
    AccountRecord
    → DeviceRecord
    → (fallback : Bool) → AuthState
    → Service.Result CreatedSession × IdentityDatabase
    → Result DeviceAuthResult × AuthState
opened account d fallback st (Service.ok s, db) = (
  ok (record { account = account; device = d; session = s; fallback = fallback }),
  record st { identity = db },
)
opened account d fallback st (Service.err e, db) =
    (err (session_failed e), record st { identity = db })

abbrev pub drawn : Readings → Drawn
drawn rd = record { now = rd.now; token = rd.token; csrf_secret = rd.csrf_secret }

-- `self.session_service.create(account_id, device_id, epoch, created_at=now)`
unfoldable pub create_session :
    (hash_secret : ℕ → ℕ)
    → Readings
    → (account_id device_id epoch : ℕ) → IdentityDatabase
    → Service.Result CreatedSession × IdentityDatabase
unfolding Service.create
create_session hash_secret rd account_id device_id epoch db =
    Service.create hash_secret (sql_port rd.database_now rd.session_id) (drawn rd) account_id
      device_id epoch (some (aware rd.now)) none db
