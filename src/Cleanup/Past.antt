-- ===== src/Cleanup/Past.antt =====
-- When a row is past its retention, and what it is aged by, in words of the tables alone.
use self_relay.Base.{
  ℕ, ◌+◌, ◌≡◌, refl, Bool, true, false, ◌||◌, Option, none, some, leb, coalesce, arith,
}
use mathlib.Core.Path.{fun_ext}
use self_relay.Records.{
  SessionRecord, DeviceChallengeRecord, DeviceLinkingOtpRecord, OtpStatus, consumed,
  TransferRequestRecord, TransferStatus, WebSocketTicketRecord, offered, accepted, negotiating,
  connected, transferring, completed, rejected, cancelled, failed,
}
use self_relay.Cleanup.Retention.{
  session_is_over, session_age, challenge_is_over, challenge_age, otp_is_over, otp_age,
  transfer_is_over, transfer_age, ticket_is_over, ticket_age,
}

-- The first instant, or the second where there is none
abbrev pub instant_or : Option ℕ → ℕ → ℕ
instant_or none t = t
instant_or (some s) t = s

-- It is 7 days since the revocation; without one, since either deadline.
abbrev pub past_session_at : (now : ℕ) → (revoked_at : Option ℕ) → (idle absolute : ℕ) → Bool
past_session_at now (some t) idle absolute = leb (t + 604800000000) now
past_session_at now none idle absolute =
    leb (idle + 604800000000) now || leb (absolute + 604800000000) now

abbrev pub past_session : (now : ℕ) → SessionRecord → Bool
past_session now s = past_session_at now s.revoked_at s.idle_expires_at s.absolute_expires_at

-- It is consumed, or past its deadline.
abbrev pub past_once : (now : ℕ) → (consumed_at : Option ℕ) → (expires_at : ℕ) → Bool
past_once now (some t) expires_at = true
past_once now none expires_at = leb expires_at now

-- It is not active, or past its deadline.
abbrev pub past_otp_at : (now : ℕ) → OtpStatus → (expires_at : ℕ) → Bool
past_otp_at now OtpStatus.active expires_at = leb expires_at now
past_otp_at now consumed expires_at = true
past_otp_at now OtpStatus.expired expires_at = true

-- It is final, and 30 days since it was completed, or since it was made where it never was.
abbrev pub past_transfer_at : (now : ℕ) → TransferStatus → (at : ℕ) → Bool
past_transfer_at now offered at = false
past_transfer_at now accepted at = false
past_transfer_at now negotiating at = false
past_transfer_at now connected at = false
past_transfer_at now transferring at = false
past_transfer_at now completed at = leb (at + 2592000000000) now
past_transfer_at now rejected at = leb (at + 2592000000000) now
past_transfer_at now TransferStatus.expired at = leb (at + 2592000000000) now
past_transfer_at now cancelled at = leb (at + 2592000000000) now
past_transfer_at now failed at = leb (at + 2592000000000) now

pub session_test : (now : ℕ) → session_is_over now ≡ past_session now
session_test now = fun_ext (λ s. same s.revoked_at s refl)
  where
    same :
        (o : Option ℕ) (s : SessionRecord)
        → s.revoked_at ≡ o
        → session_is_over now s ≡ past_session_at now o s.idle_expires_at s.absolute_expires_at
    same none s e = rw e (ground arith)
    same (some t) s e = rw e (ground arith)

pub challenge_test :
    (now : ℕ) → challenge_is_over now ≡ (λ c. past_once now c.consumed_at c.expires_at)
challenge_test now = fun_ext (λ c. same c.consumed_at c refl)
  where
    same :
        (o : Option ℕ) (c : DeviceChallengeRecord)
        → c.consumed_at ≡ o
        → challenge_is_over now c ≡ past_once now o c.expires_at
    same none c e = rw e refl
    same (some t) c e = rw e refl

pub ticket_test : (now : ℕ) → ticket_is_over now ≡ (λ t. past_once now t.consumed_at t.expires_at)
ticket_test now = fun_ext (λ t. same t.consumed_at t refl)
  where
    same :
        (o : Option ℕ) (t : WebSocketTicketRecord)
        → t.consumed_at ≡ o
        → ticket_is_over now t ≡ past_once now o t.expires_at
    same none t e = rw e refl
    same (some x) t e = rw e refl

pub otp_test : (now : ℕ) → otp_is_over now ≡ (λ o. past_otp_at now o.status o.expires_at)
otp_test now = fun_ext (λ o. same o.status o refl)
  where
    same :
        (s : OtpStatus) (o : DeviceLinkingOtpRecord)
        → o.status ≡ s
        → otp_is_over now o ≡ past_otp_at now s o.expires_at
    same OtpStatus.active o e = rw e refl
    same consumed o e = rw e refl
    same OtpStatus.expired o e = rw e refl

pub transfer_test :
    (now : ℕ)
    → transfer_is_over now
      ≡ (λ t. past_transfer_at now t.status (instant_or t.completed_at t.created_at))
transfer_test now = fun_ext (λ t. same t.completed_at t.status t refl refl)
  where
    same :
        (o : Option ℕ) (s : TransferStatus) (t : TransferRequestRecord)
        → t.completed_at ≡ o
        → t.status ≡ s
        → transfer_is_over now t ≡ past_transfer_at now s (instant_or o t.created_at)
    same none s t e f = rw (e, f) (ground arith)
    same (some x) s t e f = rw (e, f) (ground arith)

instant : (o : Option ℕ) (t : ℕ) → coalesce o t ≡ instant_or o t
instant none t = refl
instant (some s) t = refl

pub session_ages : session_age ≡ (λ s. instant_or s.revoked_at s.absolute_expires_at)
session_ages = fun_ext (λ s. instant s.revoked_at s.absolute_expires_at)

pub challenge_ages : challenge_age ≡ (λ c. instant_or c.consumed_at c.expires_at)
challenge_ages = fun_ext (λ c. instant c.consumed_at c.expires_at)

pub otp_ages : otp_age ≡ (λ o. instant_or o.consumed_at o.expires_at)
otp_ages = fun_ext (λ o. instant o.consumed_at o.expires_at)

pub transfer_ages : transfer_age ≡ (λ t. instant_or t.completed_at t.created_at)
transfer_ages = fun_ext (λ t. instant t.completed_at t.created_at)

pub ticket_ages : ticket_age ≡ (λ t. instant_or t.consumed_at t.expires_at)
ticket_ages = fun_ext (λ t. instant t.consumed_at t.expires_at)
