-- ===== src/Sessions/Refinement.antt =====
-- The in-memory session repository and the SQL one: the statements on a row named by its identifier, and
-- the revocation loops. (`revoke_by_token_hash` differs: in memory it needs a usable session, in SQL an
-- unrevoked one.)
use self_relay.Base.{
  ℕ, ◌≡◌, refl, ap, ◌∙◌, Bool, true, false, ◌&&◌, ◌||◌, not, Option, none, some, ◌==◌, is_some,
  Holds, arith, coalesce,
}
use mathlib.Core.Path.{subst}
use self_relay.Base.Dict.{Dict, lookup, IsUnique}
use self_relay.Base.Rows.{update_row, update_row-agrees}
use self_relay.Base.Where.{update_where, lookup-update_where_ext}
use self_relay.Base.Loops.{
  write_each, rows_where, AreKeyed, write_each-update_where, length-rows_where,
}
use self_relay.Records.{SessionRecord, RevocationReason}
use self_relay.Identity.Database.{IdentityDatabase, in_good_standing}
use self_relay.Identity.Database.{is_usable as is_usable_in}
use self_relay.Identity.Sessions
use self_relay.Identity.Sessions.{
  with_sessions, touched as touched_row, ended, on_device, on_account, if_usable,
}
use self_relay.Sessions.Memory.{
  with_records, MemorySessions, is_usable, touched, revoked, usable, find_current_by_id,
  touch_last_seen, replace_csrf_hash, revoke, revoke_for_device, revoke_for_account,
}

-- The two answer alike and leave the same rows.
abbrev pub Agree :
    Option SessionRecord × MemorySessions → Option SessionRecord × IdentityDatabase → Type 0
Agree (r, st) (r', db) = (r ≡ r') × (st.records ≡ db.sessions)

-- The same, for the number of rows and each row
abbrev pub AgreeOnRows : ℕ × MemorySessions → ℕ × IdentityDatabase → Type 0
AgreeOnRows (n, st) (n', db) = (n ≡ n') × ((j : ℕ) → lookup j st.records ≡ lookup j db.sessions)

-- The accounts and devices of all sessions are active at the sessions' epochs: the in-memory repository
-- knows of neither.
abbrev pub AreInGoodStanding : IdentityDatabase → Type 0
AreInGoodStanding db = (j : ℕ) → Holds (λ s. in_good_standing db s ≡ true) (lookup j db.sessions)

good_row :
    (db : IdentityDatabase) (k : ℕ) (s : SessionRecord)
    → AreInGoodStanding db
    → lookup k db.sessions ≡ some s
    → in_good_standing db s ≡ true
good_row db k s good e = subst (Holds (λ s. in_good_standing db s ≡ true)) e (good k)

same_test :
    (now a : ℕ) (db : IdentityDatabase) (s : SessionRecord)
    → in_good_standing db s ≡ true
    → (not (s.user_id == a) || not (is_usable s now))
      ≡ not (s.user_id == a && is_usable_in now db s)
same_test now a db s good = ground arith

-- The in-memory repository with the rows of the table
abbrev pub in_memory : (by_token_hash : Dict ℕ) → IdentityDatabase → MemorySessions
in_memory index db = record { records = db.sessions; by_token_hash = index }

same_usable :
    (now : ℕ) (db : IdentityDatabase) (o : Option SessionRecord)
    → Holds (λ s. in_good_standing db s ≡ true) o
    → usable now o ≡ if_usable now db o
same_usable now db none good = refl
same_usable now db (some s) good =
    let same : is_usable_in now db s ≡ is_usable s now = ground arith in rw same refl

same_update :
    (rejects rejects' : SessionRecord → Bool) (updated updated' : SessionRecord → SessionRecord)
    (k : ℕ) (index : Dict ℕ) (db : IdentityDatabase)
    → update_row rejects updated k db.sessions ≡ update_row rejects' updated' k db.sessions
    → Agree
        (with_records (in_memory index db) (update_row rejects updated k db.sessions))
        (with_sessions db (update_row rejects' updated' k db.sessions))
same_update rejects rejects' updated updated' k index db e = (ap (λ p. p.0) e, ap (λ p. p.1) e)

ended_fresh :
    (now : ℕ) (reason : RevocationReason) (s : SessionRecord)
    → is_some s.revoked_at ≡ false
    → revoked now reason s ≡ ended now reason s
ended_fresh now reason s fresh = unrevoked s.revoked_at fresh
  where
    unrevoked :
        (o : Option ℕ)
        → is_some o ≡ false
        → revoked now reason s
          ≡ record s { revoked_at = some (coalesce o now); revocation_reason = some reason }
    unrevoked none e = refl
    unrevoked (some t) e = ground arith

-- On the same rows, of accounts and devices in good standing, four statements of the in-memory repository
-- and the SQL one are the same: `find_current_by_id` finds the same session, and `touch_last_seen`,
-- `replace_csrf_hash` and `revoke` give the same answer and leave the same rows.
pub statements-Agree :
    (now account_id session_id csrf_hash : ℕ) (reason : RevocationReason) (index : Dict ℕ)
    (db : IdentityDatabase)
    → AreInGoodStanding db
    → (find_current_by_id now session_id (in_memory index db)
        ≡ Sessions.find_current_by_id now session_id db)
      × Agree
          (touch_last_seen now account_id session_id (in_memory index db))
          (Sessions.touch_last_seen now account_id session_id db)
      × Agree
          (replace_csrf_hash now account_id session_id csrf_hash (in_memory index db))
          (Sessions.replace_csrf_hash now account_id session_id csrf_hash db)
      × Agree
          (revoke now account_id session_id reason (in_memory index db))
          (Sessions.revoke now account_id session_id reason db)
unfolding find_current_by_id touch_last_seen replace_csrf_hash revoke Sessions.find_current_by_id
    Sessions.touch_last_seen Sessions.replace_csrf_hash Sessions.revoke
statements-Agree now a k csrf reason index db good = (
  same_usable now db (lookup k db.sessions) (good k),
  same_update (λ s. not (s.user_id == a) || not (is_usable s now))
      (λ s. not (s.user_id == a && is_usable_in now db s)) (touched now) (touched_row now) k index
      db
      (update_row-agrees (λ s. not (s.user_id == a) || not (is_usable s now))
        (λ s. not (s.user_id == a && is_usable_in now db s)) (touched now) (touched_row now) k
        db.sessions (λ s e. same_test now a db s (good_row db k s good e)) (λ s e. refl)),
  same_update (λ s. not (s.user_id == a) || not (is_usable s now))
      (λ s. not (s.user_id == a && is_usable_in now db s)) (λ s. record s { csrf_hash = csrf })
      (λ s. record s { csrf_hash = csrf }) k index db
      (update_row-agrees (λ s. not (s.user_id == a) || not (is_usable s now))
        (λ s. not (s.user_id == a && is_usable_in now db s)) (λ s. record s { csrf_hash = csrf })
        (λ s. record s { csrf_hash = csrf }) k db.sessions
        (λ s e. same_test now a db s (good_row db k s good e)) (λ s e. refl)),
  same_update (λ s. not (s.user_id == a) || is_some s.revoked_at)
      (λ s. not (s.user_id == a && not (is_some s.revoked_at))) (revoked now reason)
      (ended now reason) k index db
      (update_row-agrees (λ s. not (s.user_id == a) || is_some s.revoked_at)
        (λ s. not (s.user_id == a && not (is_some s.revoked_at))) (revoked now reason)
        (ended now reason) k db.sessions (λ s e. ground arith)
        (λ s e. ended_fresh now reason s (ground arith))),
)

same_rows :
    (now : ℕ) (reason : RevocationReason) (test : SessionRecord → Bool) (d : Dict SessionRecord)
    → ((s : SessionRecord) → test s ≡ true → is_some s.revoked_at ≡ false)
    → IsUnique d
    → AreKeyed (λ s. s.id) d
    → (j : ℕ)
    → lookup j (write_each (λ s. s.id) (revoked now reason) (rows_where (λ s. s.id) test d) d)
      ≡ lookup j (update_where test (ended now reason) d)
same_rows now reason test d fresh u keyed j =
    write_each-update_where (λ s. s.id) test (revoked now reason) d u keyed j
    ∙ lookup-update_where_ext test (revoked now reason) (ended now reason) j d
        (λ s e. ended_fresh now reason s (fresh s e))

-- The loops of the in-memory repository over all sessions of a device or of an account revoke what the
-- SQL statements revoke: as many sessions, with the same row under each identifier afterwards, if each
-- row stands under its own identifier, once.
pub loops-AgreeOnRows :
    (now account_id device_id : ℕ) (reason : RevocationReason) (index : Dict ℕ)
    (db : IdentityDatabase)
    → IsUnique db.sessions
    → AreKeyed (λ s. s.id) db.sessions
    → AgreeOnRows
        (revoke_for_device now account_id device_id reason (in_memory index db))
        (Sessions.revoke_for_device now account_id device_id reason db)
      × AgreeOnRows
          (revoke_for_account now account_id reason (in_memory index db))
          (Sessions.revoke_for_account now account_id reason db)
unfolding revoke_for_device revoke_for_account Sessions.revoke_for_device
    Sessions.revoke_for_account
loops-AgreeOnRows now a d reason index db u keyed = (
  (
    length-rows_where (λ s. s.id) (on_device a d) db.sessions,
    same_rows now reason (on_device a d) db.sessions (λ s e. ground arith) u keyed,
  ),
  (
    length-rows_where (λ s. s.id) (on_account a) db.sessions,
    same_rows now reason (on_account a) db.sessions (λ s e. ground arith) u keyed,
  ),
)
