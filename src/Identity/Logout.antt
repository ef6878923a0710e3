-- ===== src/Identity/Logout.antt =====
-- A session that a logout or a revocation covers is over.
use self_relay.Base.{
  ℕ, ◌≡◌, refl, Bool, true, false, ◌&&◌, ◌||◌, not, some, List, ◌∷◌, ◌==◌, is_some, inl, inr,
  Bool-cases, Option-cases, arith,
}
use mathlib.Core.Path.{subst}
use self_relay.Base.Dict.{Dict, lookup, insert, lookup-insert_self}
use self_relay.Base.Rows.{update_row, write_row}
use self_relay.Base.Where.{update_where, lookup-update_where}
use self_relay.Records.{DeviceRecord, RevocationReason, SessionRecord}
use self_relay.Identity.Database.{IdentityDatabase}
use self_relay.Identity.Sessions.{
  ended, on_device, on_account, revoke, revoke_for_device, revoke_for_account,
}
use self_relay.Identity.Devices.{
  and_sessions, with_devices, revoke_with_sessions, logout_with_sessions, revoke_all_for_account,
  revoked_device, logged_out, is_active_of, get_by_id, of_account,
}
use self_relay.Identity.Follows.{AreOrdered, Follows-AreOrdered}
use self_relay.Identity.Steps.{
  Change, revokes_device, logs_out, revokes_all, revokes_session, revokes_device_sessions,
  revokes_account_sessions, change, changes,
}
use self_relay.Identity.History.{change-Follows}
use self_relay.Identity.Ended.{IsEnded, IsOut, IsEnded-IsOut, changes-IsEnded}

-- Whether a change is to end session `k`, whose record is `s`: a session, a device that the account has,
-- or an account is named, and it is the session's.
abbrev pub ends : Change → IdentityDatabase → (k : ℕ) → SessionRecord → Bool
ends (revokes_device a d reason) db k s =
    is_some (get_by_id a d db) && s.user_id == a && s.device_id == d
ends (logs_out a d reason) db k s = is_some (get_by_id a d db) && s.user_id == a && s.device_id == d
ends (revokes_all a reason) db k s = s.user_id == a
ends (revokes_session a i reason) db k s = s.user_id == a && i == k
ends (revokes_device_sessions a d reason) db k s = s.user_id == a && s.device_id == d
ends (revokes_account_sessions a reason) db k s = s.user_id == a
ends _ db k s = false

update_where-IsEnded :
    (now k : ℕ) (reason : RevocationReason) (test : SessionRecord → Bool) (d : Dict SessionRecord)
    (s : SessionRecord)
    → lookup k d ≡ some s
    → (test s || is_some s.revoked_at) ≡ true
    → IsEnded (lookup k (update_where test (ended now reason) d))
update_where-IsEnded now k reason test d s e covered =
    rw (lookup-update_where test (ended now reason) k d, e)
      (elim (Bool-cases (test s)) [
        | inl hit ↦ rw hit refl
        | inr miss ↦ let gone : is_some s.revoked_at ≡ true = ground arith in rw miss gone
      ])

or_revoked : (x r : Bool) → x ≡ true → (x && not r || r) ≡ true
or_revoked x r e = ground arith

for_device :
    (now a d k : ℕ) (reason : RevocationReason) (db : IdentityDatabase) (s : SessionRecord)
    → lookup k db.sessions ≡ some s
    → (s.user_id == a && s.device_id == d) ≡ true
    → IsEnded (lookup k (revoke_for_device now a d reason db).1.sessions)
unfolding revoke_for_device
for_device now a d k reason db s e covered =
    update_where-IsEnded now k reason (on_device a d) db.sessions s e (ground arith)

for_account :
    (now a k : ℕ) (reason : RevocationReason) (db : IdentityDatabase) (s : SessionRecord)
    → lookup k db.sessions ≡ some s
    → s.user_id == a ≡ true
    → IsEnded (lookup k (revoke_for_account now a reason db).1.sessions)
unfolding revoke_for_account
for_account now a k reason db s e covered =
    update_where-IsEnded now k reason (on_account a) db.sessions s e
      (or_revoked (s.user_id == a) (is_some s.revoked_at) covered)

for_session :
    (now a k : ℕ) (reason : RevocationReason) (db : IdentityDatabase) (s : SessionRecord)
    → lookup k db.sessions ≡ some s
    → s.user_id == a ≡ true
    → IsEnded (lookup k (revoke now a k reason db).1.sessions)
unfolding revoke update_row
for_session now a k reason db s e mine = elim (Bool-cases (is_some s.revoked_at)) [
  | inl gone ↦
      let rejected : not (s.user_id == a && not (is_some s.revoked_at)) ≡ true = ground arith in
      rw (e, write_row) (rw rejected (rw e gone))
  | inr alive ↦
      let passed : not (s.user_id == a && not (is_some s.revoked_at)) ≡ false = ground arith in
      rw (e, write_row)
        (rw passed (rw (lookup-insert_self k (ended now reason s) db.sessions) refl))
]

-- A transaction that updates the account's device, and then ends its sessions.
with_device :
    (now a d k : ℕ) (reason : RevocationReason) (updated : DeviceRecord → DeviceRecord)
    (db : IdentityDatabase) (s : SessionRecord)
    → lookup k db.sessions ≡ some s
    → (is_some (get_by_id a d db) && s.user_id == a && s.device_id == d) ≡ true
    → IsEnded (
        lookup k
          (and_sessions now a d reason (
            with_devices db
              (update_row (λ x. not (x.user_id == a)) updated d db.devices))).1.sessions)
unfolding get_by_id update_row
with_device now a d k reason updated db s e covered = elim (Option-cases (lookup d db.devices)) [
  | inl gone ↦ let impossible : false ≡ true = rw gone at covered in ground arith
  | inr (x, there) ↦ elim (Bool-cases (x.user_id == a)) [
    | inl owned ↦
        let both : (s.user_id == a && s.device_id == d) ≡ true = ground arith in
        rw (there, write_row)
          (rw owned (
            for_device now a d k reason (record db { devices = insert d (updated x) db.devices }) s
              e both))
    | inr foreign ↦
        let hidden : (is_some (of_account a (some x)) && s.user_id == a && s.device_id == d)
            ≡ true =
          rw there at covered in
        let impossible : false ≡ true = rw foreign at hidden in ground arith
  ]
]

change-ends :
    (now k : ℕ) (c : Change) (db : IdentityDatabase) (s : SessionRecord)
    → lookup k db.sessions ≡ some s
    → ends c db k s ≡ true
    → IsEnded (lookup k (change now c db).sessions)
unfolding revoke_with_sessions logout_with_sessions revoke_all_for_account
change-ends now k (revokes_device a d reason) db s e covered =
    with_device now a d k reason (revoked_device now) db s e covered
change-ends now k (logs_out a d reason) db s e covered =
    with_device now a d k reason logged_out db s e covered
change-ends now k (revokes_all a reason) db s e covered =
    for_account now a k reason
      (record db { devices = update_where (is_active_of a) (revoked_device now) db.devices }) s e
      covered
change-ends now k (revokes_session a i reason) db s e covered =
    let mine : s.user_id == a ≡ true = ground arith in
    let key : k ≡ i = ground arith in
    subst (λ j. IsEnded (lookup k (revoke now a j reason db).1.sessions)) key
      (for_session now a k reason db s e mine)
change-ends now k (revokes_device_sessions a d reason) db s e covered =
    for_device now a d k reason db s e covered
change-ends now k (revokes_account_sessions a reason) db s e covered =
    for_account now a k reason db s e covered
change-ends now k _ db s e covered = ground arith

-- A session that is logged out is out for good: once a logout or a revocation names the session, its
-- device (one that the account has) or its account, then whatever is done to the database afterwards,
-- `find_current_by_id` finds no row for it, and `find_by_token_hash` and `get_by_token_hash` find no row
-- that is its; the statements that renew it, give it a CSRF value, revoke it, or open a WebSocket ticket
-- for it return no row and change nothing; and no ticket that is found by its token or consumed, by
-- whichever of the three statements, is bound to it. All this if the idle deadlines were within the
-- absolute ones at the start.
pub changes-IsOut :
    (at now k a csrf ticket_id h expires_at : ℕ) (reason : RevocationReason) (c : Change)
    (cs : List (ℕ × Change)) (db : IdentityDatabase) (s : SessionRecord)
    → AreOrdered db
    → lookup k db.sessions ≡ some s
    → ends c db k s ≡ true
    → IsOut now k a csrf ticket_id h expires_at reason (changes ((at, c) ∷ cs) db)
unfolding changes
changes-IsOut at now k a csrf ticket_id h expires_at reason c cs db s o e covered =
    let db' = change at c db in
    IsEnded-IsOut now k a csrf ticket_id h expires_at reason (changes cs (change at c db)) (
      changes-IsEnded k cs (change at c db)
        (Follows-AreOrdered db (change at c db) (change-Follows at c db o))
        (change-ends at k c db s e covered))
