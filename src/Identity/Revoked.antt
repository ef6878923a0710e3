-- ===== src/Identity/Revoked.antt =====
-- A revoked device is out for good.
use self_relay.Base.{
  ℕ, ◌≡◌, ◌≢◌, refl, ap, sym, ◌∙◌, Bool, true, false, ◌&&◌, not, Option, none, some, List, ◌==◌,
  inl, inr, Bool-cases, Holds, arith,
}
use mathlib.Core.Path.{subst}
use self_relay.Base.Dict.{lookup}
use self_relay.Base.Rows.{update_row, update_row-holds}
use self_relay.Base.Where.{find_where, find_where-passes, key_where}
use self_relay.Base.Grows.{Grows}
use self_relay.Records.{DeviceRecord, DeviceStatus, SessionRecord, WebSocketTicketRecord}
use self_relay.Identity.Database.{IdentityDatabase, is_active, device_at_epoch, is_usable}
use self_relay.Identity.Sessions.{
  find_by_token_hash, get_by_token_hash, find_current_by_id, touch_last_seen, replace_csrf_hash,
  touched, if_usable,
}
use self_relay.Identity.Tickets.{
  consume, consume_by_id, consume_key, consume_for_socket, consume_socket_key, is_pending,
  is_pending_for, usable_session, consumed_now,
}
use self_relay.Identity.Steps.{Change, changes}
use self_relay.Identity.Follows.{DeviceFollows, AnyDevice, StaysRevoked, AreOrdered}
use self_relay.Identity.History.{changes-Follows}

-- The device is there, and revoked.
abbrev pub IsRevokedDevice : Option DeviceRecord → Type 0
IsRevokedDevice none = ⊥
IsRevokedDevice (some d) = d.status ≡ DeviceStatus.revoked

stays :
    (o o' : Option DeviceRecord)
    → Grows DeviceFollows AnyDevice o o'
    → IsRevokedDevice o
    → IsRevokedDevice o'
stays none o' g r = absurd r
stays (some d) none g r = absurd g
stays (some d) (some d') g r = subst (λ s. StaysRevoked s d'.status) r g.0.5

revoked_fails :
    (user_id epoch : ℕ) (o : Option DeviceRecord)
    → IsRevokedDevice o
    → device_at_epoch user_id epoch o ≡ false
revoked_fails user_id epoch none r = absurd r
revoked_fails user_id epoch (some d) r =
    let closed : is_active d.status ≡ false = ap is_active r in ground arith

-- A usable session is on another device.
usable_elsewhere :
    (now k : ℕ) (db : IdentityDatabase) (s : SessionRecord)
    → IsRevokedDevice (lookup k db.devices)
    → is_usable now db s ≡ true
    → s.device_id ≢ k
usable_elsewhere now k db s r usable same =
    let fails : device_at_epoch s.user_id s.epoch (lookup s.device_id db.devices) ≡ false =
      revoked_fails s.user_id s.epoch (lookup s.device_id db.devices)
        (subst (λ i. IsRevokedDevice (lookup i db.devices)) (sym same) r) in
    ground arith

-- Of the session of a ticket, if it is there
abbrev pub IsElsewhere : (device_id : ℕ) → Option SessionRecord → Type 0
IsElsewhere k none = Unit
IsElsewhere k (some s) = s.device_id ≢ k

usable_session-IsElsewhere :
    (now k : ℕ) (db : IdentityDatabase) (o : Option SessionRecord)
    → IsRevokedDevice (lookup k db.devices)
    → usable_session now db o ≡ true
    → IsElsewhere k o
usable_session-IsElsewhere now k db none r usable = tt
usable_session-IsElsewhere now k db (some s) r usable = usable_elsewhere now k db s r usable

if_usable-IsElsewhere :
    (now k : ℕ) (db : IdentityDatabase) (o : Option SessionRecord)
    → IsRevokedDevice (lookup k db.devices)
    → IsElsewhere k (if_usable now db o)
if_usable-IsElsewhere now k db none r = tt
if_usable-IsElsewhere now k db (some s) r = elim (Bool-cases (is_usable now db s)) [
  | inl usable ↦ rw usable (usable_elsewhere now k db s r usable)
  | inr not_usable ↦ rw not_usable tt
]

found-IsElsewhere :
    (now k : ℕ) (db : IdentityDatabase) (test : SessionRecord → Bool) (o : Option SessionRecord)
    → IsRevokedDevice (lookup k db.devices)
    → ((s : SessionRecord) → test s ≡ true → is_usable now db s ≡ true)
    → Holds (λ s. test s ≡ true) o
    → IsElsewhere k o
found-IsElsewhere now k db test none r usable p = tt
found-IsElsewhere now k db test (some s) r usable p = usable_elsewhere now k db s r (usable s p)

-- What an update of a usable session returns
written-IsElsewhere :
    (now a k session_id : ℕ) (db : IdentityDatabase) (f : SessionRecord → SessionRecord)
    → IsRevokedDevice (lookup k db.devices)
    → ((s : SessionRecord) → (f s).device_id ≡ s.device_id)
    → IsElsewhere k
        (update_row (λ s. not (s.user_id == a && is_usable now db s)) f session_id db.sessions).0
written-IsElsewhere now a k session_id db f r same =
    as_elsewhere
      (update_row (λ s. not (s.user_id == a && is_usable now db s)) f session_id db.sessions).0
      (update_row-holds (λ s. s.device_id ≢ k) (λ s. not (s.user_id == a && is_usable now db s)) f
        session_id db.sessions
        (λ s passed at_k. usable_elsewhere now k db s r (ground arith) (sym (same s) ∙ at_k)))
  where
    as_elsewhere : (o : Option SessionRecord) → Holds (λ s. s.device_id ≢ k) o → IsElsewhere k o
    as_elsewhere none h = tt
    as_elsewhere (some s) h = h

-- The session of a ticket that is returned
abbrev pub BindsElsewhere :
    (device_id : ℕ) → IdentityDatabase → Option WebSocketTicketRecord → Type 0
BindsElsewhere k db none = Unit
BindsElsewhere k db (some t) = IsElsewhere k (lookup t.session_id db.sessions)

binds :
    (k : ℕ) (db : IdentityDatabase) (o : Option WebSocketTicketRecord)
    → Holds (λ t. IsElsewhere k (lookup t.session_id db.sessions)) o
    → BindsElsewhere k db o
binds k db none h = tt
binds k db (some t) h = h

consumed_elsewhere :
    (now k : ℕ) (key : Option ℕ) (db : IdentityDatabase)
    → IsRevokedDevice (lookup k db.devices)
    → BindsElsewhere k db (consume_socket_key now key db).0
consumed_elsewhere now k none db r = tt
consumed_elsewhere now k (some t) db r =
    binds k db (update_row (λ x. not (is_pending now db x)) (consumed_now now) t db.tickets).0 (
      update_row-holds (λ x. IsElsewhere k (lookup x.session_id db.sessions))
        (λ x. not (is_pending now db x)) (consumed_now now) t db.tickets
        (λ x e.
          let usable : usable_session now db (lookup x.session_id db.sessions) ≡ true =
            ground arith in
          usable_session-IsElsewhere now k db (lookup x.session_id db.sessions) r usable))

consume_by_id_elsewhere :
    (now a k t : ℕ) (db : IdentityDatabase)
    → IsRevokedDevice (lookup k db.devices)
    → BindsElsewhere k db (consume_by_id now a t db).0
unfolding consume_by_id
consume_by_id_elsewhere now a k t db r =
    binds k db (update_row (λ x. not (is_pending_for now a db x)) (consumed_now now) t db.tickets).0
      (update_row-holds (λ x. IsElsewhere k (lookup x.session_id db.sessions))
        (λ x. not (is_pending_for now a db x)) (consumed_now now) t db.tickets
        (λ x e.
          let usable : usable_session now db (lookup x.session_id db.sessions) ≡ true =
            ground arith in
          usable_session-IsElsewhere now k db (lookup x.session_id db.sessions) r usable))

consume_key_elsewhere :
    (now a k : ℕ) (key : Option ℕ) (db : IdentityDatabase)
    → IsRevokedDevice (lookup k db.devices)
    → BindsElsewhere k db (consume_key now a key db).0
consume_key_elsewhere now a k none db r = tt
consume_key_elsewhere now a k (some t) db r = consume_by_id_elsewhere now a k t db r

-- A device that is revoked is out for good: whatever happens to the database afterwards, new
-- registrations of its key included, the statements that find a usable session (`find_by_token_hash`,
-- `get_by_token_hash`, `find_current_by_id`) find none on it, `touch_last_seen` and `replace_csrf_hash`
-- update none on it, and a WebSocket ticket that `consume`, `consume_by_id` or `consume_for_socket`
-- consumes is bound to none on it. All this if the idle deadlines were within the absolute ones.
pub changes-revoked :
    (k : ℕ) (cs : List (ℕ × Change)) (now a h session_id csrf ticket_id : ℕ) (db : IdentityDatabase)
    → AreOrdered db
    → IsRevokedDevice (lookup k db.devices)
    → IsElsewhere k (find_by_token_hash now h (changes cs db))
      × IsElsewhere k (get_by_token_hash now a h (changes cs db))
      × IsElsewhere k (find_current_by_id now session_id (changes cs db))
      × IsElsewhere k (touch_last_seen now a session_id (changes cs db)).0
      × IsElsewhere k (replace_csrf_hash now a session_id csrf (changes cs db)).0
      × BindsElsewhere k (changes cs db) (consume now a h (changes cs db)).0
      × BindsElsewhere k (changes cs db) (consume_by_id now a ticket_id (changes cs db)).0
      × BindsElsewhere k (changes cs db) (consume_for_socket now h (changes cs db)).0
unfolding find_by_token_hash get_by_token_hash find_current_by_id consume_for_socket consume
    touch_last_seen replace_csrf_hash
changes-revoked k cs now a h session_id csrf ticket_id db o r =
    let db' = changes cs db in
    let r' : IsRevokedDevice (lookup k (changes cs db).devices) =
      stays (lookup k db.devices) (lookup k (changes cs db).devices)
        ((changes-Follows cs db o).devices k) r in
    (
      found-IsElsewhere now k db' (λ s. s.token_hash == h && is_usable now db' s)
          (find_where (λ s. s.token_hash == h && is_usable now db' s) db'.sessions) r'
          (λ s p. ground arith)
          (find_where-passes (λ s. s.token_hash == h && is_usable now db' s) db'.sessions),
      found-IsElsewhere now k db' (λ s. s.user_id == a && s.token_hash == h && is_usable now db' s)
          (find_where (λ s. s.user_id == a && s.token_hash == h && is_usable now db' s)
            db'.sessions)
          r' (λ s p. ground arith)
          (find_where-passes (λ s. s.user_id == a && s.token_hash == h && is_usable now db' s)
            db'.sessions),
      if_usable-IsElsewhere now k db' (lookup session_id db'.sessions) r',
      written-IsElsewhere now a k session_id db' (touched now) r' (λ s. refl),
      written-IsElsewhere now a k session_id db' (λ s. record s { csrf_hash = csrf }) r'
          (λ s. refl),
      consume_key_elsewhere now a k (key_where (λ t. t.token_hash == h) db'.tickets) db' r',
      consume_by_id_elsewhere now a k ticket_id db' r',
      consumed_elsewhere now k (key_where (λ t. t.token_hash == h) db'.tickets) db' r',
    )
