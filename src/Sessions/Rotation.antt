-- ===== src/Sessions/Rotation.antt =====
-- `SessionService` over the SQL repository: what a rotation leaves in the database.
use self_relay.Base.{
  ℕ, ◌+◌, ◌≤◌, ◌≡◌, refl, sym, ◌∙◌, min, true, false, ◌&&◌, not, Option, none, some, [], ◌∷◌, ◌==◌,
  leb, is_some, Timestamp, naive, aware, inl, inr, Bool-cases, Option-cases, arith,
}
use mathlib.Core.Path.{subst}
use self_relay.Base.Dict.{lookup, insert, lookup-insert_self}
use self_relay.Base.Rows.{update_row, write_row}
use self_relay.Records.{SessionRecord, RevocationReason}
use self_relay.Identity.Database.{IdentityDatabase, is_usable, in_good_standing}
use self_relay.Identity.Sessions
use self_relay.Identity.Sessions.{new_session, admits_session, ended}
use self_relay.Identity.Follows.{AreOrdered, Follows-AreOrdered}
use self_relay.Identity.Steps.{Change, changes, change, creates_session, revokes_session}
use self_relay.Identity.History.{change-Follows}
use self_relay.Identity.Ended.{IsEnded, changes-IsEnded}
use self_relay.Sessions.Service.{
  naive_timestamp, expired_session, inactive_session, repository_failed, Result, ok, err,
  SessionPort, CreatedSession, Drawn, session_idle_lifetime, session_secrets, create,
  create_prepared, checked_deadlines, replaced, rotate_at, rotate, prepare,
}
use self_relay.Sessions.Prepared.{checked_deadlines_lem}

-- The repository in a transaction at `now` that draws the identifier `id`.
abbrev pub sql_port : (now id : ℕ) → SessionPort IdentityDatabase
sql_port now id = record {
  create = Sessions.create now id;
  revoke = Sessions.revoke now;
  replace_csrf_hash = Sessions.replace_csrf_hash now;
}

-- How a call of `rotate` ends.
abbrev pub Rotated :
    (hash_secret : ℕ → ℕ) (drawn : Drawn) (now account_id : ℕ) (previous : SessionRecord)
    (db db' : IdentityDatabase)
    → Result CreatedSession
    → Type 0
Rotated hash_secret drawn now account_id previous db db' (ok c) =
    (c.session.absolute_expires_at ≡ previous.absolute_expires_at)
    × (c.session.idle_expires_at ≤ previous.absolute_expires_at)
    × (c.session.user_id ≡ account_id)
    × (c.session.device_id ≡ previous.device_id)
    × (c.session.epoch ≡ previous.epoch)
    × (c.secrets.token ≡ drawn.token)
    × (c.secrets.csrf_secret ≡ drawn.csrf_secret)
    × (c.session.token_hash ≡ hash_secret drawn.token)
    × (c.session.csrf_hash ≡ hash_secret drawn.csrf_secret)
    × (lookup c.session.id db'.sessions ≡ some c.session)
    × (is_usable now db' c.session ≡ true)
    × IsEnded (lookup previous.id db'.sessions)
Rotated hash_secret drawn now account_id previous db db' (err naive_timestamp) = db' ≡ db
Rotated hash_secret drawn now account_id previous db db' (err expired_session) = db' ≡ db
Rotated hash_secret drawn now account_id previous db db' (err inactive_session) = db' ≡ db
Rotated hash_secret drawn now account_id previous db db' (err repository_failed) =
    IsEnded (lookup previous.id db'.sessions)
Rotated hash_secret drawn now account_id previous db db' (err _) = ⊥

-- How its first statement ends.
abbrev Revoked : (k : ℕ) (db db' : IdentityDatabase) → Option SessionRecord → Type 0
Revoked k db db' none = db' ≡ db
Revoked k db db' (some r) = IsEnded (lookup k db'.sessions)

revoke-Revoked :
    (now a k : ℕ) (reason : RevocationReason) (db : IdentityDatabase)
    → Revoked k db (Sessions.revoke now a k reason db).1 (Sessions.revoke now a k reason db).0
unfolding Sessions.revoke update_row
revoke-Revoked now a k reason db = elim (Option-cases (lookup k db.sessions)) [
  | inl gone ↦ rw (gone, write_row) refl
  | inr (s, there) ↦ elim (Bool-cases (not (s.user_id == a && not (is_some s.revoked_at)))) [
    | inl rejected ↦ rw (there, write_row) (rw rejected refl)
    | inr passed ↦
        rw (there, write_row)
          (rw passed (rw (lookup-insert_self k (ended now reason s) db.sessions) refl))
  ]
]

pub new_usable :
    (now : ℕ) (db : IdentityDatabase) (s : SessionRecord)
    → s.revoked_at ≡ none
    → s.created_at ≡ now
    → (in_good_standing db s && admits_session s db) ≡ true
    → is_usable now db s ≡ true
new_usable now db s fresh at admitted = ground arith

module _ (hash_secret : ℕ → ℕ) (now id : ℕ) (drawn : Drawn) (a : ℕ) (previous : SessionRecord) where
  abbrev replacement : (idle : ℕ) → SessionRecord
  replacement idle =
      new_session now id a previous.device_id (hash_secret drawn.token)
        (hash_secret drawn.csrf_secret) previous.epoch idle previous.absolute_expires_at

  created-Rotated :
      (idle : ℕ) (before db : IdentityDatabase)
      → idle ≤ previous.absolute_expires_at
      → AreOrdered db
      → IsEnded (lookup previous.id db.sessions)
      → Rotated hash_secret drawn now a previous before
          (create_prepared hash_secret
            (sql_port now id)
            a
            previous.device_id
            previous.epoch
            (ok (session_secrets hash_secret drawn, idle, previous.absolute_expires_at))
            db).1
          (create_prepared hash_secret
            (sql_port now id)
            a
            previous.device_id
            previous.epoch
            (ok (session_secrets hash_secret drawn, idle, previous.absolute_expires_at))
            db).0
  unfolding Sessions.create changes
  created-Rotated idle before db within o gone =
      elim (Bool-cases
        (in_good_standing db (replacement idle) && admits_session (replacement idle) db)) [
          | inl admitted ↦
              let over : IsEnded (
                  lookup previous.id
                    (Sessions.create now id a previous.device_id (hash_secret drawn.token)
                      (hash_secret drawn.csrf_secret) previous.epoch idle
                      previous.absolute_expires_at db).1.sessions) =
                changes-IsEnded previous.id
                  ((
                    now,
                    creates_session id a previous.device_id (hash_secret drawn.token)
                        (hash_secret drawn.csrf_secret) previous.epoch idle
                        previous.absolute_expires_at,
                  )
                    ∷ [])
                  db o gone in
              let over' : IsEnded (lookup previous.id (insert id (replacement idle) db.sessions)) =
                rw admitted at over in
              rw admitted (
                refl,
                within,
                refl,
                refl,
                refl,
                refl,
                refl,
                refl,
                refl,
                lookup-insert_self id (replacement idle) db.sessions,
                new_usable now db (replacement idle) refl refl admitted,
                over',
              )
          | inr refused ↦ rw refused gone
        ]

  replaced-Rotated :
      (issued_at : ℕ) (o : Option SessionRecord) (before db : IdentityDatabase)
      → leb previous.absolute_expires_at issued_at ≡ false
      → AreOrdered db
      → Revoked previous.id before db o
      → Rotated hash_secret drawn now a previous before
          (replaced hash_secret (sql_port now id) drawn a previous issued_at (o, db)).1
          (replaced hash_secret (sql_port now id) drawn a previous issued_at (o, db)).0
  unfolding create prepare
  replaced-Rotated issued_at none before db future o r = r
  replaced-Rotated issued_at (some x) before db future o r =
      let idle = min (issued_at + session_idle_lifetime) previous.absolute_expires_at in
      let deadlines : checked_deadlines hash_secret drawn issued_at previous.absolute_expires_at
            idle
          ≡ ok (session_secrets hash_secret drawn, idle, previous.absolute_expires_at) =
        checked_deadlines_lem hash_secret drawn issued_at previous.absolute_expires_at
        ∙ (rw future refl) in
      subst
        (λ p.
          Rotated hash_secret drawn now a previous before
            (create_prepared hash_secret (sql_port now id) a previous.device_id previous.epoch p
              db).1
            (create_prepared hash_secret (sql_port now id) a previous.device_id previous.epoch p
              db).0)
        (sym deadlines) (created-Rotated idle before db (omega arith) o r)

  rotate_at-Rotated :
      (issued_at : ℕ) (db : IdentityDatabase)
      → AreOrdered db
      → Rotated hash_secret drawn now a previous db
          (rotate_at hash_secret (sql_port now id) drawn a previous (ok issued_at) db).1
          (rotate_at hash_secret (sql_port now id) drawn a previous (ok issued_at) db).0
  rotate_at-Rotated issued_at db o =
      elim (Bool-cases (leb previous.absolute_expires_at issued_at)) [
        | inl past ↦ rw past refl
        | inr future ↦
            let c : Change = revokes_session a previous.id RevocationReason.rotation in
            rw future (
              replaced-Rotated issued_at
                (Sessions.revoke now a previous.id RevocationReason.rotation db).0 db
                (Sessions.revoke now a previous.id RevocationReason.rotation db).1 future
                (Follows-AreOrdered db
                  (change now (revokes_session a previous.id RevocationReason.rotation) db)
                  (change-Follows now (revokes_session a previous.id RevocationReason.rotation) db
                    o))
                (revoke-Revoked now a previous.id RevocationReason.rotation db))
      ]

-- A rotation replaces a session and never prolongs it. If it returns, the new session is of the same
-- account, device and epoch, keeps the absolute deadline of the previous one, which bounds its idle
-- deadline, carries the digests of the token and the CSRF secret that were drawn and are returned, stands
-- in the database and is usable, and the previous session is revoked. It fails without a trace on a timestamp without a time zone, on a session
-- past its absolute deadline, and where there is no unrevoked one; if the creation fails, the previous
-- session is revoked all the same. The deadline checks of the creation never fail. All this for a
-- database whose idle deadlines are within the absolute ones.
pub rotate-Rotated :
    (hash_secret : ℕ → ℕ) (now id : ℕ) (drawn : Drawn) (account_id : ℕ) (previous : SessionRecord)
    (at : Option Timestamp) (db : IdentityDatabase)
    → AreOrdered db
    → Rotated hash_secret drawn now account_id previous db
        (rotate hash_secret (sql_port now id) drawn account_id previous at db).1
        (rotate hash_secret (sql_port now id) drawn account_id previous at db).0
unfolding rotate
rotate-Rotated hash_secret now id drawn account_id previous none db o =
    rotate_at-Rotated hash_secret now id drawn account_id previous drawn.now db o
rotate-Rotated hash_secret now id drawn account_id previous (some (naive t)) db o = refl
rotate-Rotated hash_secret now id drawn account_id previous (some (aware t)) db o =
    rotate_at-Rotated hash_secret now id drawn account_id previous t db o
