-- ===== src/Identity/Database.antt =====
-- The tables of the identity repositories, and the conditions that their statements share.
use self_relay.Base.{
  ℕ, Bool, true, false, ◌&&◌, not, Option, none, some, ◌==◌, ltb, leb, is_some, String,
}
use Prim.Native.String.{count}
use self_relay.Base.Dict.{Dict, lookup}
use self_relay.Records.{
  AccountRecord, DeviceRecord, DeviceStatus, SessionRecord, WebSocketTicketRecord,
}

-- `char_length(text) between 1 and most`
abbrev pub fits_length : (most : ℕ) → String → Bool
fits_length most text = leb 1 (count text) && leb (count text) most

pub record IdentityDatabase : Type 0 where
  pub accounts : Dict AccountRecord
  pub devices : Dict DeviceRecord
  pub sessions : Dict SessionRecord
  pub tickets : Dict WebSocketTicketRecord

abbrev pub is_active : DeviceStatus → Bool
is_active DeviceStatus.active = true
is_active DeviceStatus.inactive = false
is_active DeviceStatus.revoked = false

abbrev pub is_revoked : DeviceStatus → Bool
is_revoked DeviceStatus.active = false
is_revoked DeviceStatus.inactive = false
is_revoked DeviceStatus.revoked = true

-- `account.deleted_at IS NULL AND account.device_epoch = epoch`
abbrev pub account_at_epoch : (epoch : ℕ) → Option AccountRecord → Bool
account_at_epoch epoch none = false
account_at_epoch epoch (some account) =
    not (is_some account.deleted_at) && account.device_epoch == epoch

-- `device.user_id = user_id AND device.status = 'active' AND device.epoch = epoch`
abbrev pub device_at_epoch : (user_id epoch : ℕ) → Option DeviceRecord → Bool
device_at_epoch user_id epoch none = false
device_at_epoch user_id epoch (some d) =
    d.user_id == user_id && is_active d.status && d.epoch == epoch

-- The row's own part of being usable
abbrev pub is_unexpired : (now : ℕ) → SessionRecord → Bool
is_unexpired now s =
    not (is_some s.revoked_at) && ltb now s.idle_expires_at && ltb now s.absolute_expires_at

-- The joins with the account and the device
abbrev pub in_good_standing : IdentityDatabase → SessionRecord → Bool
in_good_standing db s =
    account_at_epoch s.epoch (lookup s.user_id db.accounts)
    && device_at_epoch s.user_id s.epoch (lookup s.device_id db.devices)

-- The condition of the session and ticket statements
abbrev pub is_usable : (now : ℕ) → IdentityDatabase → SessionRecord → Bool
is_usable now db s = is_unexpired now s && in_good_standing db s
