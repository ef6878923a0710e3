-- ===== src/Cleanup/Retention.antt =====
-- `ExpiryCleanupRepository` of backend/app/repositories/cleanup.py: which rows of each table are past
-- their retention, in which order they go, and the job over all tables, which is one transaction.
use self_relay.Base.{
  ℕ, ◌+◌, min, Bool, true, false, ◌&&◌, ◌||◌, not, Option, none, some, ltb, leb, if◌then◌else◌,
  is_some, coalesce, [], ◌∷◌,
}
use self_relay.Base.Dict.{Dict, lookup}
use self_relay.Records.{
  SessionRecord, DeviceChallengeRecord, DeviceLinkingOtpRecord, OtpStatus, consumed,
  TransferRequestRecord, SecurityEventRecord, TransferStatus, WebSocketTicketRecord, offered,
  accepted, negotiating, connected, transferring, completed, rejected, cancelled, failed,
}
use self_relay.RateLimits.Buckets.{RateLimitBucketRecord}
use self_relay.Cleanup.Batch.{delete_batch}

pub record Retained : Type 0 where
  pub app_sessions : Dict SessionRecord
  pub device_challenges : Dict DeviceChallengeRecord
  pub device_linking_otps : Dict DeviceLinkingOtpRecord
  pub transfer_requests : Dict TransferRequestRecord
  pub websocket_tickets : Dict WebSocketTicketRecord
  pub security_events : Dict SecurityEventRecord
  pub rate_limit_buckets : Dict RateLimitBucketRecord

pub record Deleted : Type 0 where
  pub app_sessions : ℕ
  pub device_challenges : ℕ
  pub device_linking_otps : ℕ
  pub transfer_requests : ℕ
  pub websocket_tickets : ℕ
  pub security_events : ℕ
  pub rate_limit_buckets : ℕ

abbrev pub max_cleanup_batch_size : ℕ
max_cleanup_batch_size = 1000

-- `INTERVAL '7 days'`, `INTERVAL '30 days'`. An instant minus an interval is compared by adding the
-- interval to the other side.
abbrev pub seven_days : ℕ
seven_days = 604800000000

abbrev pub thirty_days : ℕ
thirty_days = 2592000000000

abbrev pub session_is_over : (now : ℕ) → SessionRecord → Bool
session_is_over now s =
    (is_some s.revoked_at && leb (coalesce s.revoked_at 0 + seven_days) now)
    || (not (is_some s.revoked_at)
        && leb (min s.idle_expires_at s.absolute_expires_at + seven_days) now)

abbrev pub session_age : SessionRecord → ℕ
session_age s = coalesce s.revoked_at s.absolute_expires_at

abbrev pub challenge_is_over : (now : ℕ) → DeviceChallengeRecord → Bool
challenge_is_over now c = is_some c.consumed_at || leb c.expires_at now

abbrev pub challenge_age : DeviceChallengeRecord → ℕ
challenge_age c = coalesce c.consumed_at c.expires_at

abbrev pub is_closed : OtpStatus → Bool
is_closed OtpStatus.active = false
is_closed consumed = true
is_closed OtpStatus.expired = true

abbrev pub otp_is_over : (now : ℕ) → DeviceLinkingOtpRecord → Bool
otp_is_over now o = is_closed o.status || leb o.expires_at now

abbrev pub otp_age : DeviceLinkingOtpRecord → ℕ
otp_age o = coalesce o.consumed_at o.expires_at

abbrev pub is_final : TransferStatus → Bool
is_final offered = false
is_final accepted = false
is_final negotiating = false
is_final connected = false
is_final transferring = false
is_final completed = true
is_final rejected = true
is_final TransferStatus.expired = true
is_final cancelled = true
is_final failed = true

abbrev pub transfer_age : TransferRequestRecord → ℕ
transfer_age t = coalesce t.completed_at t.created_at

abbrev pub transfer_is_over : (now : ℕ) → TransferRequestRecord → Bool
transfer_is_over now t = is_final t.status && leb (transfer_age t + thirty_days) now

abbrev pub ticket_is_over : (now : ℕ) → WebSocketTicketRecord → Bool
ticket_is_over now t = is_some t.consumed_at || leb t.expires_at now

abbrev pub ticket_age : WebSocketTicketRecord → ℕ
ticket_age t = coalesce t.consumed_at t.expires_at

abbrev pub event_is_over : (now : ℕ) → SecurityEventRecord → Bool
event_is_over now e = leb e.expires_at now

abbrev pub event_age : SecurityEventRecord → ℕ
event_age e = e.expires_at

abbrev pub bucket_is_over : (now : ℕ) → RateLimitBucketRecord → Bool
bucket_is_over now b = leb b.window_expires_at now

abbrev pub bucket_age : RateLimitBucketRecord → ℕ
bucket_age b = b.window_expires_at

-- `_validate_batch_size`, the condition under which it lets the call go on
abbrev pub is_batch_size : ℕ → Bool
is_batch_size n = ltb 0 n && leb n max_cleanup_batch_size

-- `ON DELETE CASCADE` of websocket_tickets_session_fk: what is left of the tickets when the sessions
-- `before` have become the sessions `after`
abbrev pub is_orphan : (before after : Dict SessionRecord) → WebSocketTicketRecord → Bool
is_orphan before after t =
    is_some (lookup t.session_id before) && not (is_some (lookup t.session_id after))

unfoldable pub cascade :
    (before after : Dict SessionRecord) → Dict WebSocketTicketRecord → Dict WebSocketTicketRecord
cascade before after [] = []
cascade before after ((k, t) ∷ d) =
    let rest = cascade before after d in if is_orphan before after t then rest else (k, t) ∷ rest

-- The transaction of `cleanup_expired`
unfoldable pub delete_batches : (now batch_size : ℕ) → Retained → Deleted × Retained
unfolding delete_batch cascade
delete_batches now n t =
    let sessions = delete_batch (session_is_over now) session_age n t.app_sessions in
    let challenges = delete_batch (challenge_is_over now) challenge_age n t.device_challenges in
    let otps = delete_batch (otp_is_over now) otp_age n t.device_linking_otps in
    let transfers = delete_batch (transfer_is_over now) transfer_age n t.transfer_requests in
    let tickets =
      delete_batch (ticket_is_over now) ticket_age n
        (cascade t.app_sessions sessions.1 t.websocket_tickets) in
    let events = delete_batch (event_is_over now) event_age n t.security_events in
    let buckets = delete_batch (bucket_is_over now) bucket_age n t.rate_limit_buckets in
    (
      record {
        app_sessions = sessions.0;
        device_challenges = challenges.0;
        device_linking_otps = otps.0;
        transfer_requests = transfers.0;
        websocket_tickets = tickets.0;
        security_events = events.0;
        rate_limit_buckets = buckets.0;
      },
      record {
        app_sessions = sessions.1;
        device_challenges = challenges.1;
        device_linking_otps = otps.1;
        transfer_requests = transfers.1;
        websocket_tickets = tickets.1;
        security_events = events.1;
        rate_limit_buckets = buckets.1;
      },
    )

-- `cleanup_expired`, `none` where it raises `ValueError`
unfoldable pub cleanup_expired : (now batch_size : ℕ) → Retained → Option Deleted × Retained
unfolding delete_batches
cleanup_expired now n t =
    if is_batch_size n
    then (some (delete_batches now n t).0, (delete_batches now n t).1)
    else (none, t)

-- `_cleanup_one`, of one table that no other refers to
unfoldable pub cleanup_one :
    {R : Type 0} → (test : R → Bool) (age : R → ℕ) (batch_size : ℕ) → Dict R → Option ℕ × Dict R
unfolding delete_batch
cleanup_one test age n d =
    if is_batch_size n
    then (some (delete_batch test age n d).0, (delete_batch test age n d).1)
    else (none, d)

-- `cleanup_sessions`: the tickets go with their sessions.
unfoldable pub cleanup_sessions :
    (now batch_size : ℕ)
    → (sessions : Dict SessionRecord) (tickets : Dict WebSocketTicketRecord)
    → Option ℕ × Dict SessionRecord × Dict WebSocketTicketRecord
unfolding delete_batch cascade
cleanup_sessions now n sessions tickets =
    if is_batch_size n
    then (
      some (delete_batch (session_is_over now) session_age n sessions).0,
      (delete_batch (session_is_over now) session_age n sessions).1,
      cascade sessions (delete_batch (session_is_over now) session_age n sessions).1 tickets,
    )
    else (none, sessions, tickets)
