-- ===== src/Identity/Kept/Sessions.antt =====
-- The statements on sessions.
use self_relay.Base.{
  ℕ, ◌≤◌, ◌≡◌, refl, Bool, false, ◌&&◌, not, Option, none, some, ◌==◌, is_some, inl, inr,
  Bool-cases, arith,
}
use self_relay.Base.Dict.{Dict, lookup, insert}
use self_relay.Base.Rows.{update_row}
use self_relay.Base.Where.{update_where, key_where}
use self_relay.Base.Grows.{Grows, Grows-update_row, Grows-update_where, Grows-insert}
use self_relay.Records.{SessionRecord, RevocationReason}
use self_relay.Identity.Database.{IdentityDatabase, is_usable, in_good_standing}
use self_relay.Identity.Sessions.{
  new_session, admits_session, insert_session, create, touched, touch_last_seen, replace_csrf_hash,
  ended, revoke, revoke_key, revoke_by_token_hash, on_device, revoke_for_device, on_account,
  revoke_for_account,
}
use self_relay.Identity.Follows.{
  SessionFollows, IsOrdered, AreOrdered, Follows, IsFinal-open, SessionFollows-refl, devices-same,
  Follows-refl,
}

Follows-sessions :
    (db : IdentityDatabase) (sessions' : Dict SessionRecord)
    → ((j : ℕ) → Grows SessionFollows IsOrdered (lookup j db.sessions) (lookup j sessions'))
    → Follows db (record db { sessions = sessions' })
Follows-sessions db sessions' grows = record { devices = devices-same db; sessions = grows }

update-Follows :
    (rejects : SessionRecord → Bool) (updated : SessionRecord → SessionRecord) (k : ℕ)
    (db : IdentityDatabase)
    → ((s : SessionRecord)
        → rejects s ≡ false
        → IsOrdered s
        → SessionFollows s (updated s) × IsOrdered (updated s))
    → AreOrdered db
    → Follows db (record db { sessions = (update_row rejects updated k db.sessions).1 })
update-Follows rejects updated k db step o =
    Follows-sessions db (update_row rejects updated k db.sessions).1 (λ j.
      Grows-update_row SessionFollows IsOrdered rejects updated k db.sessions SessionFollows-refl
        step j (o j))

-- A row that is not revoked may change in what `SessionFollows` leaves free.
open_follows :
    (s s' : SessionRecord)
    → is_some s.revoked_at ≡ false
    → s'.id ≡ s.id
    → s'.user_id ≡ s.user_id
    → s'.device_id ≡ s.device_id
    → s'.token_hash ≡ s.token_hash
    → s'.epoch ≡ s.epoch
    → s'.absolute_expires_at ≡ s.absolute_expires_at
    → SessionFollows s s'
open_follows s s' open_row a b c d e f = (a, b, c, d, e, f, IsFinal-open s.revoked_at s s' open_row)

pub touch_last_seen-Follows :
    (now a k : ℕ) (db : IdentityDatabase)
    → AreOrdered db
    → Follows db (touch_last_seen now a k db).1
unfolding touch_last_seen
touch_last_seen-Follows now a k db =
    update-Follows (λ s. not (s.user_id == a && is_usable now db s)) (touched now) k db
      (λ s e o.
        let fresh : is_some s.revoked_at ≡ false = ground arith in
        (open_follows s (touched now s) fresh refl refl refl refl refl refl, omega arith))

pub replace_csrf_hash-Follows :
    (now a k csrf : ℕ) (db : IdentityDatabase)
    → AreOrdered db
    → Follows db (replace_csrf_hash now a k csrf db).1
unfolding replace_csrf_hash
replace_csrf_hash-Follows now a k csrf db =
    update-Follows (λ s. not (s.user_id == a && is_usable now db s))
      (λ s. record s { csrf_hash = csrf }) k db
      (λ s e o.
        let fresh : is_some s.revoked_at ≡ false = ground arith in
        (open_follows s (record s { csrf_hash = csrf }) fresh refl refl refl refl refl refl, o))

pub revoke-Follows :
    (now a k : ℕ) (reason : RevocationReason) (db : IdentityDatabase)
    → AreOrdered db
    → Follows db (revoke now a k reason db).1
unfolding revoke
revoke-Follows now a k reason db =
    update-Follows (λ s. not (s.user_id == a && not (is_some s.revoked_at))) (ended now reason) k db
      (λ s e o.
        let fresh : is_some s.revoked_at ≡ false = ground arith in
        (open_follows s (ended now reason s) fresh refl refl refl refl refl refl, o))

pub revoke_key-Follows :
    (now a : ℕ) (k : Option ℕ) (reason : RevocationReason) (db : IdentityDatabase)
    → AreOrdered db
    → Follows db (revoke_key now a k reason db).1
revoke_key-Follows now a none reason db o = Follows-refl db o
revoke_key-Follows now a (some k) reason db o = revoke-Follows now a k reason db o

pub revoke_by_token_hash-Follows :
    (now a h : ℕ) (reason : RevocationReason) (db : IdentityDatabase)
    → AreOrdered db
    → Follows db (revoke_by_token_hash now a h reason db).1
unfolding revoke_by_token_hash
revoke_by_token_hash-Follows now a h reason db o =
    revoke_key-Follows now a (key_where (λ s. s.token_hash == h) db.sessions) reason db o

ended_follows :
    (now : ℕ) (reason : RevocationReason) (s : SessionRecord)
    → is_some s.revoked_at ≡ false
    → IsOrdered s
    → SessionFollows s (ended now reason s) × IsOrdered (ended now reason s)
ended_follows now reason s fresh o =
    (open_follows s (ended now reason s) fresh refl refl refl refl refl refl, o)

pub revoke_for_device-Follows :
    (now a d : ℕ) (reason : RevocationReason) (db : IdentityDatabase)
    → AreOrdered db
    → Follows db (revoke_for_device now a d reason db).1
unfolding revoke_for_device
revoke_for_device-Follows now a d reason db o =
    Follows-sessions db (update_where (on_device a d) (ended now reason) db.sessions) (λ j.
      Grows-update_where SessionFollows IsOrdered (on_device a d) (ended now reason) db.sessions
        SessionFollows-refl (λ s e. ended_follows now reason s (ground arith)) j (o j))

pub revoke_for_account-Follows :
    (now a : ℕ) (reason : RevocationReason) (db : IdentityDatabase)
    → AreOrdered db
    → Follows db (revoke_for_account now a reason db).1
unfolding revoke_for_account
revoke_for_account-Follows now a reason db o =
    Follows-sessions db (update_where (on_account a) (ended now reason) db.sessions) (λ j.
      Grows-update_where SessionFollows IsOrdered (on_account a) (ended now reason) db.sessions
        SessionFollows-refl (λ s e. ended_follows now reason s (ground arith)) j (o j))

insert_session-Follows :
    (s : SessionRecord) (db : IdentityDatabase) → AreOrdered db → Follows db (insert_session s db).1
insert_session-Follows s db o = elim (Bool-cases (in_good_standing db s && admits_session s db)) [
  | inl admitted ↦
      let fresh : is_some (lookup s.id db.sessions) ≡ false = ground arith in
      let ordered : s.idle_expires_at ≤ s.absolute_expires_at = ground arith in
      rw admitted (
        Follows-sessions db (insert s.id s db.sessions) (λ j.
          Grows-insert SessionFollows IsOrdered s.id s db.sessions SessionFollows-refl fresh ordered
            j (o j)))
  | inr refused ↦ rw refused (Follows-refl db o)
]

pub create-Follows :
    (now id a d h csrf epoch idle absolute : ℕ) (db : IdentityDatabase)
    → AreOrdered db
    → Follows db (create now id a d h csrf epoch idle absolute db).1
unfolding create
create-Follows now id a d h csrf epoch idle absolute db o =
    insert_session-Follows (new_session now id a d h csrf epoch idle absolute) db o
