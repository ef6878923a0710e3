-- ===== src/Identity/Found.antt =====
-- A session or a ticket that is created is found.
use self_relay.Base.{
  ℕ, ◌≡◌, refl, Bool, true, false, ◌&&◌, Option, none, some, ◌==◌, is_some, inl, inr, Bool-cases,
  arith,
}
use self_relay.Base.Dict.{lookup, insert, lookup-insert_self}
use self_relay.Base.Where.{find_where, find_where-none, find_where-insert}
use self_relay.Records.{SessionRecord}
use self_relay.Identity.Database.{IdentityDatabase, is_usable, in_good_standing}
use self_relay.Identity.Sessions
use self_relay.Identity.Sessions.{
  new_session, admits_session, get_by_id, get_by_token_hash, find_by_token_hash, find_current_by_id,
}

-- Every way to read the session finds it, or nothing is changed.
abbrev pub IsFound :
    (now account_id id token_hash : ℕ) (db db' : IdentityDatabase) → Option SessionRecord → Type 0
IsFound now account_id id token_hash db db' none = db' ≡ db
IsFound now account_id id token_hash db db' (some s) =
    (get_by_id account_id id db' ≡ some s)
    × (find_current_by_id now id db' ≡ some s)
    × (find_by_token_hash now token_hash db' ≡ some s)
    × (get_by_token_hash now account_id token_hash db' ≡ some s)

and_left : (x y : Bool) → x ≡ false → (x && y) ≡ false
and_left x y e = ground arith

eq_self : (n : ℕ) → n == n ≡ true
eq_self n = ground arith

-- A session that is created is found at once, by its identifier and by its token, with or without its
-- account; where the repository raises instead, nothing is changed.
pub create-IsFound :
    (now id account_id device_id token_hash csrf_hash epoch idle absolute : ℕ)
    (db : IdentityDatabase)
    → IsFound now account_id id token_hash db
        (Sessions.create now id account_id device_id token_hash csrf_hash epoch idle absolute db).1
        (Sessions.create now id account_id device_id token_hash csrf_hash epoch idle absolute db).0
unfolding Sessions.create get_by_id find_current_by_id find_by_token_hash get_by_token_hash
create-IsFound now id a d h csrf epoch idle absolute db =
    let s : SessionRecord = new_session now id a d h csrf epoch idle absolute in
    elim (Bool-cases (
      in_good_standing db (new_session now id a d h csrf epoch idle absolute)
      && admits_session (new_session now id a d h csrf epoch idle absolute) db)) [
        | inl admitted ↦
            let usable : is_usable now db (new_session now id a d h csrf epoch idle absolute)
                ≡ true =
              ground arith in
            let free : is_some (lookup id db.sessions) ≡ false = ground arith in
            let no_token : is_some (find_where (λ r. r.token_hash == h) db.sessions) ≡ false =
              ground arith in
            let stored : lookup id
                  (insert id (new_session now id a d h csrf epoch idle absolute) db.sessions)
                ≡ some (new_session now id a d h csrf epoch idle absolute) =
              lookup-insert_self id (new_session now id a d h csrf epoch idle absolute)
                db.sessions in
            rw admitted (
              (rw stored (rw (eq_self a) refl)),
              (rw stored (rw usable refl)),
              find_where-insert (λ r. r.token_hash == h && is_usable now db r) id
                  (new_session now id a d h csrf epoch idle absolute) db.sessions
                  (find_where-none (λ r. r.token_hash == h)
                    (λ r. r.token_hash == h && is_usable now db r) db.sessions
                    (λ r. and_left (r.token_hash == h) (is_usable now db r)) no_token)
                  free (rw (eq_self h) usable),
              find_where-insert (λ r. r.user_id == a && r.token_hash == h && is_usable now db r) id
                  (new_session now id a d h csrf epoch idle absolute) db.sessions
                  (find_where-none (λ r. r.token_hash == h)
                    (λ r. r.user_id == a && r.token_hash == h && is_usable now db r) db.sessions
                    (λ r e. ground arith) no_token)
                  free (rw (eq_self h) (rw (eq_self a) usable)),
            )
        | inr refused ↦ rw refused refl
      ]
