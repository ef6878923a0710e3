-- ===== src/Records.antt =====
-- The records that the repositories return (backend/app/repositories/models.py), with the status
-- words that the database admits. Identifiers are numbers, instants are microseconds in UTC; digests
-- and public keys are numbers too, since the code only compares and copies them.
use self_relay.Base.{ℕ, Bool, Option, String, ◌==◌}

pub data DeviceStatus : Type 0 where
  active inactive revoked : DeviceStatus

pub data TransferStatus : Type 0 where
  offered accepted negotiating connected transferring : TransferStatus
  completed rejected expired cancelled failed : TransferStatus

pub data OtpStatus : Type 0 where
  active consumed expired : OtpStatus

-- The reasons that `app_sessions_revocation_check` admits.
pub data RevocationReason : Type 0 where
  logout revoked expired recovery device_revoked account_deleted rotation security :
      RevocationReason

pub record AccountRecord : Type 0 where
  pub id : ℕ
  pub supabase_user_id : ℕ
  pub email_normalized : String
  pub device_epoch : ℕ
  pub created_at : ℕ
  pub email_fallback_at : Option ℕ
  pub deleted_at : Option ℕ

pub record DeviceRecord : Type 0 where
  pub id : ℕ
  pub user_id : ℕ
  pub epoch : ℕ
  pub label : String
  pub signing_public_key_spki : ℕ
  pub fingerprint : ℕ
  pub status : DeviceStatus
  pub created_at : ℕ
  pub last_seen_at : ℕ
  pub revoked_at : Option ℕ
  pub linked_by_device_id : Option ℕ

pub record SessionRecord : Type 0 where
  pub id : ℕ
  pub user_id : ℕ
  pub device_id : ℕ
  pub token_hash : ℕ
  pub csrf_hash : ℕ
  pub epoch : ℕ
  pub created_at : ℕ
  pub last_seen_at : ℕ
  pub idle_expires_at : ℕ
  pub absolute_expires_at : ℕ
  pub revoked_at : Option ℕ
  pub revocation_reason : Option RevocationReason

pub record DeviceChallengeRecord : Type 0 where
  pub id : ℕ
  pub device_id : ℕ
  pub nonce_hash : ℕ
  pub origin : String
  pub created_at : ℕ
  pub expires_at : ℕ
  pub consumed_at : Option ℕ
  pub attempt_count : ℕ

pub record DeviceLinkingOtpRecord : Type 0 where
  pub id : ℕ
  pub user_id : ℕ
  pub issuing_device_id : ℕ
  pub otp_hash : ℕ
  pub status : OtpStatus
  pub attempt_count : ℕ
  pub created_at : ℕ
  pub expires_at : ℕ
  pub consumed_at : Option ℕ

pub record WebSocketTicketRecord : Type 0 where
  pub id : ℕ
  pub session_id : ℕ
  pub token_hash : ℕ
  pub created_at : ℕ
  pub expires_at : ℕ
  pub consumed_at : Option ℕ

-- `details`, a mapping that is only copied, is a number.
pub record SecurityEventRecord : Type 0 where
  pub id : ℕ
  pub user_id : Option ℕ
  pub device_id : Option ℕ
  pub event_type : String
  pub outcome : String
  pub network_fingerprint : Option ℕ
  pub details : ℕ
  pub created_at : ℕ
  pub expires_at : ℕ

pub record TransferRequestRecord : Type 0 where
  pub id : ℕ
  pub user_id : ℕ
  pub sender_device_id : ℕ
  pub recipient_device_id : ℕ
  pub protocol_version : ℕ
  pub status : TransferStatus
  pub created_at : ℕ
  pub expires_at : ℕ
  pub accepted_at : Option ℕ
  pub completed_at : Option ℕ
  pub failure_code : Option String
  pub relay_used : Bool

-- `==` on the status words, by their place in the list of words.
abbrev pub word : TransferStatus → ℕ
word offered = 0
word accepted = 1
word negotiating = 2
word connected = 3
word transferring = 4
word completed = 5
word rejected = 6
word TransferStatus.expired = 7
word cancelled = 8
word failed = 9

abbrev pub same_status : TransferStatus → TransferStatus → Bool
same_status a b = word a == word b
