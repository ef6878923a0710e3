-- ===== src/Presence/State.antt =====
-- The state of `PresenceManager` and its limits.
use self_relay.Base.{ℕ, Bool, false, List, [], ◌∷◌}
use self_relay.Base.Dict.{Dict}

abbrev pub max_queue_messages : ℕ
max_queue_messages = 32

abbrev pub max_queue_bytes : ℕ
max_queue_bytes = 262144

abbrev pub max_connections_per_account : ℕ
max_connections_per_account = 8

abbrev pub max_total_connections : ℕ
max_total_connections = 512

abbrev pub max_signaling_ice_candidates : ℕ
max_signaling_ice_candidates = 64

abbrev pub max_signaling_messages : ℕ
max_signaling_messages = 128

abbrev pub max_signaling_messages_per_account : ℕ
max_signaling_messages_per_account = 512

-- 11 minutes
abbrev pub signaling_state_retention : ℕ
signaling_state_retention = 660000000

-- The socket itself is told apart by `id`.
pub record ActiveConnection : Type 0 where
  pub id : ℕ
  pub account_id : ℕ
  pub device_id : ℕ
  pub session_id : ℕ
  pub connected_at : ℕ
  pub last_heartbeat_at : ℕ

-- Where the writer task stands in `_drain_outbound`: before `queue.get()`, between it and the section
-- that accounts for the payload, after that section while the payload is sent, or returned.
pub data Writer : Type 0 where
  waiting sending stopped : Writer
  holding : (size : ℕ) → Writer

-- A payload is its encoded size, `_payload_bytes(payload)`.
pub record OutboundQueue : Type 0 where
  pub queue : List ℕ
  pub failed : Bool
  pub queued_bytes : ℕ
  pub in_flight : ℕ
  pub writer : Writer

abbrev pub new_queue : OutboundQueue
new_queue = record { queue = []; failed = false; queued_bytes = 0; in_flight = 0; writer = waiting }

pub data SignalingType : Type 0 where
  sdp_offer sdp_answer ice_candidate handshake_offer handshake_answer : SignalingType

-- An entry of `counts`, keyed by device and message type.
pub record UseCount : Type 0 where
  pub device_id : ℕ
  pub message_type : SignalingType
  pub uses : ℕ

pub record SignalingUsage : Type 0 where
  pub account_id : ℕ
  pub updated_at : ℕ
  pub total : ℕ
  pub counts : List UseCount

pub data Counter : Type 0 where
  socket_connection_rejected socket_registered socket_queue_rejected : Counter
  socket_heartbeat_timeout signaling_state_cleaned : Counter
  signaling_rejected signaling_forwarded : Counter

-- A call of `_close`, or of `metrics.increment`.
pub data Effect : Type 0 where
  closed : (connection_id code : ℕ) → Effect
  counted : Counter → ℕ → Effect

abbrev pub Connections : Type 0
Connections = Dict (Dict ActiveConnection)

pub record Manager : Type 0 where
  pub connections : Connections
  pub outbound : Dict OutboundQueue
  pub signaling : Dict SignalingUsage
  pub account_totals : Dict ℕ
  pub heartbeat_timeout : ℕ
  pub log : List Effect  -- newest first

abbrev pub log_effect : Effect → Manager → Manager
log_effect e m = record m { log = e ∷ m.log }
