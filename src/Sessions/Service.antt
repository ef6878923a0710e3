-- ===== src/Sessions/Service.antt =====
-- `SessionService` of backend/app/sessions.py, over any repository. A call takes what the clock and the
-- generator of secrets give it. Secrets and their digests are numbers, and `hash_secret`, a SHA-256, is
-- a parameter.
use self_relay.Base.{ℕ, ◌+◌, min, Option, none, some, leb, if◌then◌else◌, Timestamp, naive, aware}
use self_relay.Records.{SessionRecord, RevocationReason}

-- The `ValueError`s, by what they say, and whatever the repository raises.
pub data SessionError : Type 0 where
  naive_timestamp absolute_expiry_past idle_expiry_past : SessionError
  expired_session inactive_session inactive_csrf repository_failed : SessionError

pub data Result (A : Type 0) : Type 0 where
  ok : A → Result A
  err : SessionError → Result A

abbrev pub and_then : {A B : Type 0} → Result A → (A → Result B) → Result B
and_then (ok a) f = f a
and_then (err e) f = err e

-- `SessionRepositoryPort`, with the method that `reissue_csrf` asks for
pub record SessionPort (S : Type 0) : Type 0 where
  pub create :
      (account_id device_id token_hash csrf_hash epoch idle_expires_at absolute_expires_at : ℕ)
      → S
      → Option SessionRecord × S
  pub revoke : (account_id session_id : ℕ) → RevocationReason → S → Option SessionRecord × S
  pub replace_csrf_hash : (account_id session_id csrf_hash : ℕ) → S → Option SessionRecord × S

pub record SessionSecrets : Type 0 where
  pub token : ℕ
  pub csrf_secret : ℕ
  pub token_hash : ℕ
  pub csrf_hash : ℕ

pub record CreatedSession : Type 0 where
  pub session : SessionRecord
  pub secrets : SessionSecrets

-- 30 and 90 days
abbrev pub session_idle_lifetime : ℕ
session_idle_lifetime = 2592000000000

abbrev pub session_absolute_lifetime : ℕ
session_absolute_lifetime = 7776000000000

-- What the clock and `secrets.token_bytes` give during one call.
pub record Drawn : Type 0 where
  pub now : ℕ
  pub token : ℕ
  pub csrf_secret : ℕ

-- `_utc_now`
abbrev pub utc_now : (now : ℕ) → Option Timestamp → Result ℕ
utc_now now none = ok now
utc_now now (some (naive t)) = err naive_timestamp
utc_now now (some (aware t)) = ok t

abbrev pub session_expiry : (now : ℕ) → Timestamp → Result (ℕ × ℕ)
session_expiry now created_at =
    and_then (utc_now now (some created_at))
      (λ issued_at. ok (issued_at + session_idle_lifetime, issued_at + session_absolute_lifetime))

-- The given deadline, or the default one
abbrev pub absolute_expiry : (now default_absolute : ℕ) → Option Timestamp → Result ℕ
absolute_expiry now default_absolute none = ok default_absolute
absolute_expiry now default_absolute (some t) = utc_now now (some t)

module _ (hash_secret : ℕ → ℕ) where
  abbrev pub session_secrets : Drawn → SessionSecrets
  session_secrets drawn = record {
    token = drawn.token;
    csrf_secret = drawn.csrf_secret;
    token_hash = hash_secret drawn.token;
    csrf_hash = hash_secret drawn.csrf_secret;
  }

  -- The checks of `prepare` on the two deadlines, the second after its `min`
  abbrev pub checked_deadlines :
      Drawn → (issued_at absolute idle : ℕ) → Result (SessionSecrets × ℕ × ℕ)
  checked_deadlines drawn issued_at absolute idle =
      if leb absolute issued_at
      then err absolute_expiry_past
      else if leb idle issued_at
      then err idle_expiry_past
      else ok (session_secrets drawn, idle, absolute)

  unfoldable pub prepare :
      Drawn → (created_at absolute_expires_at : Option Timestamp) → Result (SessionSecrets × ℕ × ℕ)
  prepare drawn created_at absolute_expires_at =
      and_then (utc_now drawn.now created_at) (λ issued_at.
        and_then (session_expiry drawn.now (aware issued_at)) (λ expiry.
          and_then (absolute_expiry drawn.now expiry.1 absolute_expires_at)
            (λ absolute. checked_deadlines drawn issued_at absolute (min expiry.0 absolute))))

  module _ {S : Type 0} (port : SessionPort S) where
    abbrev pub created : SessionSecrets → Option SessionRecord × S → Result CreatedSession × S
    created secrets (none, s) = (err repository_failed, s)
    created secrets (some r, s) = (ok (record { session = r; secrets = secrets }), s)

    abbrev pub create_prepared :
        (account_id device_id epoch : ℕ)
        → Result (SessionSecrets × ℕ × ℕ)
        → S
        → Result CreatedSession × S
    create_prepared account_id device_id epoch (err e) s = (err e, s)
    create_prepared account_id device_id epoch (ok (secrets, idle, absolute)) s = created secrets (
        port.create account_id device_id secrets.token_hash secrets.csrf_hash epoch idle absolute s)

    unfoldable pub create :
        Drawn
        → (account_id device_id epoch : ℕ) (created_at absolute_expires_at : Option Timestamp) → S
        → Result CreatedSession × S
    unfolding prepare
    create drawn account_id device_id epoch created_at absolute_expires_at s =
        create_prepared account_id device_id epoch
          (and_then (utc_now drawn.now created_at)
            (λ issued_at. prepare drawn (some (aware issued_at)) absolute_expires_at))
          s

    -- What follows the revocation of the previous session.
    abbrev pub replaced :
        Drawn
        → (account_id : ℕ) (previous : SessionRecord) (issued_at : ℕ) → Option SessionRecord × S
        → Result CreatedSession × S
    unfolding create
    replaced drawn account_id previous issued_at (none, s) = (err inactive_session, s)
    replaced drawn account_id previous issued_at (some r, s) =
        create drawn account_id previous.device_id previous.epoch (some (aware issued_at))
          (some (aware previous.absolute_expires_at)) s

    abbrev pub rotate_at :
        Drawn
        → (account_id : ℕ) (previous : SessionRecord) → Result ℕ
        → S
        → Result CreatedSession × S
    rotate_at drawn account_id previous (err e) s = (err e, s)
    rotate_at drawn account_id previous (ok issued_at) s =
        if leb previous.absolute_expires_at issued_at
        then (err expired_session, s)
        else replaced drawn account_id previous issued_at
            (port.revoke account_id previous.id RevocationReason.rotation s)

    unfoldable pub rotate :
        Drawn
        → (account_id : ℕ) (previous : SessionRecord) (now : Option Timestamp) → S
        → Result CreatedSession × S
    unfolding create
    rotate drawn account_id previous now s =
        rotate_at drawn account_id previous (utc_now drawn.now now) s

    unfoldable pub revoke :
        (account_id session_id : ℕ) → RevocationReason → S → Option SessionRecord × S
    revoke account_id session_id reason s = port.revoke account_id session_id reason s

    abbrev pub reissued :
        (csrf_secret : ℕ) → Option SessionRecord × S → Result (ℕ × SessionRecord) × S
    reissued csrf_secret (none, s) = (err inactive_csrf, s)
    reissued csrf_secret (some r, s) = (ok (csrf_secret, r), s)

    unfoldable pub reissue_csrf :
        Drawn → (account_id session_id : ℕ) → S → Result (ℕ × SessionRecord) × S
    reissue_csrf drawn account_id session_id s =
        reissued drawn.csrf_secret
          (port.replace_csrf_hash account_id session_id (hash_secret drawn.csrf_secret) s)
