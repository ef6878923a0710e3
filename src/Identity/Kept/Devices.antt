-- ===== src/Identity/Kept/Devices.antt =====
-- The statements and transactions on devices.
use self_relay.Base.{
  ℕ, ◌≡◌, refl, Bool, true, false, ◌&&◌, ◌||◌, not, Option, none, some, String, ◌==◌, if◌then◌else◌,
  is_some, inl, inr, Bool-cases, Holds, arith,
}
use self_relay.Base.Dict.{Dict, lookup, insert}
use self_relay.Base.Rows.{update_row}
use self_relay.Base.Where.{update_where, key_where}
use self_relay.Base.Grows.{Grows, Grows-update_row, Grows-update_where, Grows-insert}
use self_relay.Records.{DeviceRecord, DeviceStatus, RevocationReason}
use self_relay.Identity.Database.{
  fits_length, IdentityDatabase, is_active, is_revoked, account_at_epoch,
}
use self_relay.Identity.Sessions.{revoke_for_device, revoke_for_account}
use self_relay.Identity.Devices.{
  DeviceData, has_fingerprint, new_device, approved, admits_device, insert_device, create,
  reactivated, register_again, register_for_email, touch_last_seen, rename, revoked_device,
  and_sessions, revoke_with_sessions, logged_out, logout_with_sessions, is_active_of,
  revoke_all_for_account,
}
use self_relay.Identity.Follows.{
  DeviceFollows, AnyDevice, StaysRevoked, AreOrdered, Follows, DeviceFollows-refl, sessions-same,
  Follows-refl, Follows-trans, Follows-AreOrdered,
}
use self_relay.Identity.Kept.Sessions.{revoke_for_device-Follows, revoke_for_account-Follows}

Follows-devices :
    (db : IdentityDatabase) (devices' : Dict DeviceRecord)
    → AreOrdered db
    → ((j : ℕ) → Grows DeviceFollows AnyDevice (lookup j db.devices) (lookup j devices'))
    → Follows db (record db { devices = devices' })
Follows-devices db devices' o grows = record { devices = grows; sessions = sessions-same db o }

any : (db : IdentityDatabase) (j : ℕ) → Holds AnyDevice (lookup j db.devices)
any db j = of (lookup j db.devices)
  where
    of : (o : Option DeviceRecord) → Holds AnyDevice o
    of none = tt
    of (some d) = tt

update-Follows :
    (rejects : DeviceRecord → Bool) (updated : DeviceRecord → DeviceRecord) (k : ℕ)
    (db : IdentityDatabase)
    → ((d : DeviceRecord) → rejects d ≡ false → DeviceFollows d (updated d))
    → AreOrdered db
    → Follows db (record db { devices = (update_row rejects updated k db.devices).1 })
update-Follows rejects updated k db step o =
    Follows-devices db (update_row rejects updated k db.devices).1 o (λ j.
      Grows-update_row DeviceFollows AnyDevice rejects updated k db.devices DeviceFollows-refl
        (λ d e q. (step d e, tt)) j (any db j))

-- A status that is not revoked may become any.
stays_open : (s s' : DeviceStatus) → is_revoked s ≡ false → StaysRevoked s s'
stays_open DeviceStatus.active s' e = tt
stays_open DeviceStatus.inactive s' e = tt
stays_open DeviceStatus.revoked s' e = ground arith

stays_revoked : (s : DeviceStatus) → StaysRevoked s DeviceStatus.revoked
stays_revoked DeviceStatus.active = tt
stays_revoked DeviceStatus.inactive = tt
stays_revoked DeviceStatus.revoked = refl

stays_logged_out :
    (s : DeviceStatus) → StaysRevoked s (if is_revoked s then s else DeviceStatus.inactive)
stays_logged_out DeviceStatus.active = tt
stays_logged_out DeviceStatus.inactive = tt
stays_logged_out DeviceStatus.revoked = refl

same_status : (d : DeviceRecord) → StaysRevoked d.status d.status
same_status d = (DeviceFollows-refl d).5

insert_device-Follows :
    (now k : ℕ) (x : DeviceData) (db : IdentityDatabase)
    → is_some (lookup k db.devices) ≡ false
    → AreOrdered db
    → Follows db (insert_device now k x db).1
insert_device-Follows now k x db fresh o =
    Follows-devices db (insert k (new_device now k x) db.devices) o (λ j.
      Grows-insert DeviceFollows AnyDevice k (new_device now k x) db.devices DeviceFollows-refl
        fresh tt j (any db j))

pub create-Follows :
    (now k : ℕ) (x : DeviceData) (db : IdentityDatabase)
    → AreOrdered db
    → Follows db (create now k x db).1
unfolding create
create-Follows now k x db o =
    elim (Bool-cases (
      account_at_epoch x.epoch (lookup x.account_id db.accounts)
      && approved db x x.linked_by_device_id
      && admits_device k x db)) [
        | inl admitted ↦
            let fresh : is_some (lookup k db.devices) ≡ false = ground arith in
            rw admitted (insert_device-Follows now k x db fresh o)
        | inr refused ↦ rw refused (Follows-refl db o)
      ]

middle_of : (x y z : Bool) → (x && not y && z) ≡ true → y ≡ false
middle_of x y z e = ground arith

register_again-Follows :
    (now : ℕ) (x : DeviceData) (key : Option ℕ) (k : ℕ) (db : IdentityDatabase)
    → AreOrdered db
    → Follows db (register_again now x key k db).1
register_again-Follows now x (some key) k db o =
    update-Follows
      (λ d. is_revoked d.status || not (d.epoch == x.epoch) || not (fits_length 100 x.label))
      (reactivated now x.label) key db
      (λ d e.
        let alive : is_revoked d.status ≡ false = ground arith in
        (refl, refl, refl, refl, refl, stays_open d.status DeviceStatus.active alive))
      o
register_again-Follows now x none k db o =
    elim (Bool-cases (
      account_at_epoch x.epoch (lookup x.account_id db.accounts)
      && not (is_some (lookup k db.devices))
      && fits_length 100 x.label)) [
        | inl admitted ↦
            let fresh : is_some (lookup k db.devices) ≡ false =
              middle_of (account_at_epoch x.epoch (lookup x.account_id db.accounts))
                (is_some (lookup k db.devices)) (fits_length 100 x.label) admitted in
            rw admitted
              (insert_device-Follows now k (record x { linked_by_device_id = none }) db fresh o)
        | inr refused ↦ rw refused (Follows-refl db o)
      ]

pub register_for_email-Follows :
    (now k : ℕ) (x : DeviceData) (db : IdentityDatabase)
    → AreOrdered db
    → Follows db (register_for_email now k x db).1
unfolding register_for_email
register_for_email-Follows now k x db o =
    register_again-Follows now x (key_where (has_fingerprint x.account_id x.fingerprint) db.devices)
      k db o

pub touch_last_seen-Follows :
    (now a k : ℕ) (db : IdentityDatabase)
    → AreOrdered db
    → Follows db (touch_last_seen now a k db).1
unfolding touch_last_seen
touch_last_seen-Follows now a k db =
    update-Follows (λ d. not (d.user_id == a && is_active d.status))
      (λ d. record d { last_seen_at = now }) k db
      (λ d e. (refl, refl, refl, refl, refl, same_status d))

pub rename-Follows :
    (a k : ℕ) (label : String) (db : IdentityDatabase)
    → AreOrdered db
    → Follows db (rename a k label db).1
unfolding rename
rename-Follows a k label db =
    update-Follows (λ d. not (d.user_id == a) || not (fits_length 100 label))
      (λ d. record d { label = label }) k db (λ d e. (refl, refl, refl, refl, refl, same_status d))

-- A transaction whose second statement revokes sessions.
and_sessions-Follows :
    (now a k : ℕ) (reason : RevocationReason) (o : Option DeviceRecord)
    (before db : IdentityDatabase)
    → Follows before db
    → Follows before (and_sessions now a k reason (o, db)).1
and_sessions-Follows now a k reason none before db p = p
and_sessions-Follows now a k reason (some d) before db p =
    Follows-trans before db (revoke_for_device now a k reason db).1 p
      (revoke_for_device-Follows now a k reason db (Follows-AreOrdered before db p))

pub revoke_with_sessions-Follows :
    (now a k : ℕ) (reason : RevocationReason) (db : IdentityDatabase)
    → AreOrdered db
    → Follows db (revoke_with_sessions now a k reason db).1
unfolding revoke_with_sessions
revoke_with_sessions-Follows now a k reason db o =
    and_sessions-Follows now a k reason
      (update_row (λ d. not (d.user_id == a)) (revoked_device now) k db.devices).0 db
      (record db {
        devices = (update_row (λ d. not (d.user_id == a)) (revoked_device now) k db.devices).1;
      })
      (update-Follows (λ d. not (d.user_id == a)) (revoked_device now) k db
        (λ d e. (refl, refl, refl, refl, refl, stays_revoked d.status)) o)

pub logout_with_sessions-Follows :
    (now a k : ℕ) (reason : RevocationReason) (db : IdentityDatabase)
    → AreOrdered db
    → Follows db (logout_with_sessions now a k reason db).1
unfolding logout_with_sessions
logout_with_sessions-Follows now a k reason db o =
    and_sessions-Follows now a k reason
      (update_row (λ d. not (d.user_id == a)) logged_out k db.devices).0 db
      (record db { devices = (update_row (λ d. not (d.user_id == a)) logged_out k db.devices).1 })
      (update-Follows (λ d. not (d.user_id == a)) logged_out k db
        (λ d e. (refl, refl, refl, refl, refl, stays_logged_out d.status)) o)

pub revoke_all_for_account-Follows :
    (now a : ℕ) (reason : RevocationReason) (db : IdentityDatabase)
    → AreOrdered db
    → Follows db (revoke_all_for_account now a reason db).1
unfolding revoke_all_for_account
revoke_all_for_account-Follows now a reason db o =
    let devices' = update_where (is_active_of a) (revoked_device now) db.devices in
    let first = Follows-devices db devices' o (λ j.
      Grows-update_where DeviceFollows AnyDevice (is_active_of a) (revoked_device now) db.devices
        DeviceFollows-refl (λ d e q. ((refl, refl, refl, refl, refl, stays_revoked d.status), tt)) j
        (any db j)) in
    Follows-trans db (record db { devices = devices' })
      (revoke_for_account now a reason (record db { devices = devices' })).1 first
      (revoke_for_account-Follows now a reason (record db { devices = devices' }) o)
