-- ===== src/DeviceAuth/Outcome.antt =====
-- How a call of the device-authentication service ends: with a session, or with every session as it was.
use self_relay.Base.{ℕ, ◌≡◌, refl, ap, some, Bool, true, ◌∙◌}
use self_relay.Base.Dict.{lookup}
use self_relay.Records.{AccountRecord, DeviceRecord}
use self_relay.Identity.Database.{IdentityDatabase, is_usable}
use self_relay.Sessions.Service
use self_relay.Sessions.Service.{CreatedSession}
use self_relay.Sessions.Opened.{IsOpened, create-IsOpened}
use self_relay.DeviceAuth.State.{AuthState, Readings, Result, ok, err, DeviceAuthResult}
use self_relay.DeviceAuth.Opening.{opened, drawn, create_session}

-- `P` of the result, or no change of the sessions.
abbrev pub Ends :
    (P : DeviceAuthResult → AuthState → Type 0) (st st' : AuthState)
    → Result DeviceAuthResult
    → Type 0
Ends P st st' (ok r) = P r st'
Ends P st st' (err e) = st'.identity.sessions ≡ st.identity.sessions

pub Ends-map :
    (P Q : DeviceAuthResult → AuthState → Type 0) (st st' : AuthState) (r : Result DeviceAuthResult)
    → ((x : DeviceAuthResult) (s : AuthState) → P x s → Q x s)
    → Ends P st st' r
    → Ends Q st st' r
Ends-map P Q st st' (ok x) f e = f x st' e
Ends-map P Q st st' (err x) f e = e

-- The session of the result is stored, usable, and on this account's device at this epoch.
abbrev pub HasSession : (now account_id device_id epoch : ℕ) → DeviceAuthResult → AuthState → Type 0
HasSession now account_id device_id epoch r st =
    (lookup r.session.session.id st.identity.sessions ≡ some r.session.session)
    × (r.session.session.user_id ≡ account_id)
    × (r.session.session.device_id ≡ device_id)
    × (r.session.session.epoch ≡ epoch)
    × (is_usable now st.identity r.session.session ≡ true)

-- With another fact `Q` about the state that is left
pub opened-Ends :
    (now account_id device_id epoch : ℕ) (Q : AuthState → Type 0) (account : AccountRecord)
    (d : DeviceRecord) (fallback : Bool) (before st : AuthState) (db db' : IdentityDatabase)
    (s : Service.Result CreatedSession)
    → db.sessions ≡ before.identity.sessions
    → Q (record st { identity = db' })
    → IsOpened now account_id device_id epoch db db' s
    → Ends
        (λ r st'. HasSession now account_id device_id epoch r st' × (r.device ≡ d) × Q st')
        before
        (opened account d fallback st (s, db')).1
        (opened account d fallback st (s, db')).0
opened-Ends now a k epoch Q account d fallback before st db db' (Service.ok s) same q o =
    (o, refl, q)
opened-Ends now a k epoch Q account d fallback before st db db' (Service.err e) same q o =
    ap (λ x. x.sessions) o ∙ same

pub create_session-IsOpened :
    (hash_secret : ℕ → ℕ) (rd : Readings) (account_id device_id epoch : ℕ) (db : IdentityDatabase)
    → IsOpened rd.database_now account_id device_id epoch db
        (create_session hash_secret rd account_id device_id epoch db).1
        (create_session hash_secret rd account_id device_id epoch db).0
unfolding create_session
create_session-IsOpened hash_secret rd account_id device_id epoch db =
    create-IsOpened hash_secret rd.database_now rd.session_id (drawn rd) account_id device_id epoch
      db rd.now
