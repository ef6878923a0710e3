-- ===== src/Identity/Untouched.antt =====
-- Statements on accounts, devices and sessions leave the tickets alone.
use self_relay.Base.{
  ℕ, ◌≡◌, refl, ◌&&◌, ◌||◌, not, Option, none, some, String, ◌==◌, is_some, inl, inr, Bool-cases,
}
use text.Mathlib.Text.{◌==◌ as str_eq}
use self_relay.Base.Dict.{lookup}
use self_relay.Base.Rows.{update_row}
use self_relay.Base.Where.{find_where, key_where}
use self_relay.Records.{DeviceRecord, RevocationReason, SessionRecord}
use self_relay.Identity.Database.{fits_length, IdentityDatabase, account_at_epoch, in_good_standing}
use self_relay.Identity.Accounts
use self_relay.Identity.Devices
use self_relay.Identity.Devices.{
  DeviceData, DeviceAnswer, approved, admits_device, register_again, has_fingerprint, and_sessions,
  revoked_device, logged_out,
}
use self_relay.Identity.Sessions
use self_relay.Identity.Sessions.{insert_session, admits_session, new_session, revoke_key}

pub create_account-tickets :
    (now id user : ℕ) (email : String) (db : IdentityDatabase)
    → (Accounts.create now id user email db).1.tickets ≡ db.tickets
unfolding Accounts.create
create_account-tickets now id user email db =
    elim (Bool-cases (
      is_some (lookup id db.accounts)
      || is_some (
          find_where (λ a. a.supabase_user_id == user || str_eq a.email_normalized email)
            db.accounts))) [ inl taken ↦ rw taken refl | inr free ↦ rw free refl ]

pub create_device-tickets :
    (now k : ℕ) (x : DeviceData) (db : IdentityDatabase)
    → (Devices.create now k x db).1.tickets ≡ db.tickets
unfolding Devices.create
create_device-tickets now k x db =
    elim (Bool-cases (
      account_at_epoch x.epoch (lookup x.account_id db.accounts)
      && approved db x x.linked_by_device_id
      && admits_device k x db)) [ inl admitted ↦ rw admitted refl | inr refused ↦ rw refused refl ]

register_again-tickets :
    (now : ℕ) (x : DeviceData) (key : Option ℕ) (k : ℕ) (db : IdentityDatabase)
    → (register_again now x key k db).1.tickets ≡ db.tickets
register_again-tickets now x (some key) k db = refl
register_again-tickets now x none k db =
    elim (Bool-cases (
      account_at_epoch x.epoch (lookup x.account_id db.accounts)
      && not (is_some (lookup k db.devices))
      && fits_length 100 x.label)) [
        | inl admitted ↦ rw admitted refl
        | inr refused ↦ rw refused refl
      ]

pub register_for_email-tickets :
    (now k : ℕ) (x : DeviceData) (db : IdentityDatabase)
    → (Devices.register_for_email now k x db).1.tickets ≡ db.tickets
unfolding Devices.register_for_email
register_for_email-tickets now k x db =
    register_again-tickets now x (key_where (has_fingerprint x.account_id x.fingerprint) db.devices)
      k db

-- A registration leaves the sessions alone, too.
register_again-sessions :
    (now : ℕ) (x : DeviceData) (key : Option ℕ) (k : ℕ) (db : IdentityDatabase)
    → (register_again now x key k db).1.sessions ≡ db.sessions
register_again-sessions now x (some key) k db = refl
register_again-sessions now x none k db =
    elim (Bool-cases (
      account_at_epoch x.epoch (lookup x.account_id db.accounts)
      && not (is_some (lookup k db.devices))
      && fits_length 100 x.label)) [
        | inl admitted ↦ rw admitted refl
        | inr refused ↦ rw refused refl
      ]

pub register_for_email-sessions :
    (now k : ℕ) (x : DeviceData) (db : IdentityDatabase)
    → (Devices.register_for_email now k x db).1.sessions ≡ db.sessions
unfolding Devices.register_for_email
register_for_email-sessions now k x db =
    register_again-sessions now x
      (key_where (has_fingerprint x.account_id x.fingerprint) db.devices) k db

and_sessions-tickets :
    (now a k : ℕ) (reason : RevocationReason) (o : Option DeviceRecord) (db : IdentityDatabase)
    → (and_sessions now a k reason (o, db)).1.tickets ≡ db.tickets
unfolding Sessions.revoke_for_device
and_sessions-tickets now a k reason none db = refl
and_sessions-tickets now a k reason (some d) db = refl

pub revoke_with_sessions-tickets :
    (now a k : ℕ) (reason : RevocationReason) (db : IdentityDatabase)
    → (Devices.revoke_with_sessions now a k reason db).1.tickets ≡ db.tickets
unfolding Devices.revoke_with_sessions
revoke_with_sessions-tickets now a k reason db =
    and_sessions-tickets now a k reason
      (update_row (λ d. not (d.user_id == a)) (revoked_device now) k db.devices).0
      (record db {
        devices = (update_row (λ d. not (d.user_id == a)) (revoked_device now) k db.devices).1;
      })

pub logout_with_sessions-tickets :
    (now a k : ℕ) (reason : RevocationReason) (db : IdentityDatabase)
    → (Devices.logout_with_sessions now a k reason db).1.tickets ≡ db.tickets
unfolding Devices.logout_with_sessions
logout_with_sessions-tickets now a k reason db =
    and_sessions-tickets now a k reason
      (update_row (λ d. not (d.user_id == a)) logged_out k db.devices).0
      (record db { devices = (update_row (λ d. not (d.user_id == a)) logged_out k db.devices).1 })

pub create_session-tickets :
    (s : SessionRecord) (db : IdentityDatabase) → (insert_session s db).1.tickets ≡ db.tickets
create_session-tickets s db = elim (Bool-cases (in_good_standing db s && admits_session s db)) [
  | inl admitted ↦ rw admitted refl
  | inr refused ↦ rw refused refl
]

revoke_key-tickets :
    (now a : ℕ) (k : Option ℕ) (reason : RevocationReason) (db : IdentityDatabase)
    → (revoke_key now a k reason db).1.tickets ≡ db.tickets
unfolding Sessions.revoke
revoke_key-tickets now a none reason db = refl
revoke_key-tickets now a (some k) reason db = refl

pub revoke_by_token_hash-tickets :
    (now a h : ℕ) (reason : RevocationReason) (db : IdentityDatabase)
    → (Sessions.revoke_by_token_hash now a h reason db).1.tickets ≡ db.tickets
unfolding Sessions.revoke_by_token_hash
revoke_by_token_hash-tickets now a h reason db =
    revoke_key-tickets now a (key_where (λ s. s.token_hash == h) db.sessions) reason db
