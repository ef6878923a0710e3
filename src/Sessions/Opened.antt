-- ===== src/Sessions/Opened.antt =====
-- A session that the service creates over the SQL repository.
use self_relay.Base.{
  ℕ, ◌+◌, ◌≡◌, refl, sym, ◌∙◌, min, true, false, ◌&&◌, none, some, leb, aware, inl, inr, Bool-cases,
  arith,
}
use mathlib.Core.Path.{subst}
use self_relay.Base.Dict.{lookup, lookup-insert_self}
use self_relay.Records.{SessionRecord}
use self_relay.Identity.Database.{IdentityDatabase, is_usable, in_good_standing}
use self_relay.Identity.Sessions
use self_relay.Identity.Sessions.{new_session, admits_session}
use self_relay.Sessions.Service.{
  Result, ok, err, CreatedSession, Drawn, session_idle_lifetime, session_absolute_lifetime,
  session_secrets, checked_deadlines, prepare, create, create_prepared,
}
use self_relay.Sessions.Prepared.{checked_deadlines_lem}
use self_relay.Sessions.Rotation.{sql_port, new_usable}

-- The new session is stored and usable; or nothing is changed.
abbrev pub IsOpened :
    (now account_id device_id epoch : ℕ) (db db' : IdentityDatabase)
    → Result CreatedSession
    → Type 0
IsOpened now account_id device_id epoch db db' (err e) = db' ≡ db
IsOpened now account_id device_id epoch db db' (ok c) =
    (lookup c.session.id db'.sessions ≡ some c.session)
    × (c.session.user_id ≡ account_id)
    × (c.session.device_id ≡ device_id)
    × (c.session.epoch ≡ epoch)
    × (is_usable now db' c.session ≡ true)

module _ (hash_secret : ℕ → ℕ) (now id : ℕ) (drawn : Drawn) (a d epoch : ℕ)
    (db : IdentityDatabase) where
  abbrev row : (idle absolute : ℕ) → SessionRecord
  row idle absolute =
      new_session now id a d (hash_secret drawn.token) (hash_secret drawn.csrf_secret) epoch idle
        absolute

  prepared-IsOpened :
      (idle absolute : ℕ)
      → IsOpened now a d epoch db
          (create_prepared hash_secret
            (sql_port now id)
            a
            d
            epoch
            (ok (session_secrets hash_secret drawn, idle, absolute))
            db).1
          (create_prepared hash_secret
            (sql_port now id)
            a
            d
            epoch
            (ok (session_secrets hash_secret drawn, idle, absolute))
            db).0
  unfolding Sessions.create
  prepared-IsOpened idle absolute =
      elim (Bool-cases
        (in_good_standing db (row idle absolute) && admits_session (row idle absolute) db)) [
          | inl admitted ↦ rw admitted (
            lookup-insert_self id (row idle absolute) db.sessions,
            refl,
            refl,
            refl,
            new_usable now db (row idle absolute) refl refl admitted,
          )
          | inr refused ↦ rw refused refl
        ]

  pub create-IsOpened :
      (at : ℕ)
      → IsOpened now a d epoch db
          (create hash_secret (sql_port now id) drawn a d epoch (some (aware at)) none db).1
          (create hash_secret (sql_port now id) drawn a d epoch (some (aware at)) none db).0
  unfolding create prepare
  create-IsOpened at =
      let absolute = at + session_absolute_lifetime in
      let idle = min (at + session_idle_lifetime) absolute in
      let future : leb (at + session_absolute_lifetime) at ≡ false = ground arith in
      let deadlines : checked_deadlines hash_secret drawn at absolute idle
          ≡ ok (session_secrets hash_secret drawn, idle, absolute) =
        checked_deadlines_lem hash_secret drawn at absolute ∙ (rw future refl) in
      subst
        (λ p.
          IsOpened now a d epoch db (create_prepared hash_secret (sql_port now id) a d epoch p db).1
            (create_prepared hash_secret (sql_port now id) a d epoch p db).0)
        (sym deadlines) (prepared-IsOpened idle absolute)
