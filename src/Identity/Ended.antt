-- ===== src/Identity/Ended.antt =====
-- The ways to end a session, and what is left of it.
use self_relay.Base.{
  ℕ, ◌≡◌, ◌≢◌, refl, ap, sym, ◌∙◌, Bool, true, false, ◌&&◌, not, Option, none, some, List, ◌==◌,
  is_some, Holds, arith,
}
use mathlib.Core.Path.{subst}
use self_relay.Base.Dict.{Dict, lookup}
use self_relay.Base.Rows.{update_row, update_row-rejected_at, update_row-holds}
use self_relay.Base.Where.{find_where, find_where-passes, key_where}
use self_relay.Base.Grows.{Grows}
use self_relay.Records.{RevocationReason, SessionRecord, WebSocketTicketRecord}
use self_relay.Identity.Database.{IdentityDatabase, is_usable}
use self_relay.Identity.Sessions.{
  SessionAnswer, ended, touched, find_current_by_id, find_by_token_hash, get_by_token_hash,
  touch_last_seen, replace_csrf_hash, revoke,
}
use self_relay.Identity.Tickets
use self_relay.Identity.Tickets.{
  TicketAnswer, owned_by, usable_session, admits_ticket, new_ticket, is_pending, is_pending_for,
  consume_key, consume_socket_key,
}
use self_relay.Identity.Follows.{SessionFollows, IsFinal, IsOrdered, AreOrdered}
use self_relay.Identity.Steps.{Change, changes}
use self_relay.Identity.History.{changes-Follows}

-- The session is there, and revoked.
abbrev pub IsEnded : Option SessionRecord → Type 0
IsEnded none = ⊥
IsEnded (some s) = is_some s.revoked_at ≡ true

-- The ticket that a statement returns, if any, is bound to another session.
abbrev pub BindsOther : (k : ℕ) → Option WebSocketTicketRecord → Type 0
BindsOther k none = Unit
BindsOther k (some t) = t.session_id ≢ k

-- The statements that find a usable session do not find session `k`, by its identifier or by any token;
-- those that renew, revoke or use it do nothing; and no ticket of it is found or consumed.
abbrev pub IsOut :
    (now k account_id csrf ticket_id h expires_at : ℕ)
    → RevocationReason
    → IdentityDatabase
    → Type 0
IsOut now k account_id csrf ticket_id h expires_at reason db =
    (find_current_by_id now k db ≡ none)
    × (find_by_token_hash now h db ≢ lookup k db.sessions)
    × (get_by_token_hash now account_id h db ≢ lookup k db.sessions)
    × (touch_last_seen now account_id k db ≡ (none, db))
    × (replace_csrf_hash now account_id k csrf db ≡ (none, db))
    × (revoke now account_id k reason db ≡ (none, db))
    × (Tickets.create now ticket_id account_id k h expires_at db ≡ (none, db))
    × BindsOther k (Tickets.get_by_token_hash now account_id h db)
    × BindsOther k (Tickets.consume now account_id h db).0
    × BindsOther k (Tickets.consume_by_id now account_id ticket_id db).0
    × BindsOther k (Tickets.consume_for_socket now h db).0

unusable :
    (now : ℕ) (db : IdentityDatabase) (s : SessionRecord)
    → is_some s.revoked_at ≡ true
    → is_usable now db s ≡ false
unusable now db s e = ground arith

and_middle : (x y z : Bool) → y ≡ false → (x && y && z) ≡ false
and_middle true y z e = ground arith
and_middle false y z e = refl

-- What a test found that only unrevoked sessions pass is not the revoked row.
not_found :
    (test : SessionRecord → Bool) (s : SessionRecord) (o : Option SessionRecord)
    → is_some s.revoked_at ≡ true
    → ((r : SessionRecord) → test r ≡ true → is_some r.revoked_at ≡ false)
    → Holds (λ r. test r ≡ true) o
    → o ≢ some s
not_found test s none gone fresh h same = cc
not_found test s (some r) gone fresh h same =
    let alive = fresh r h in
    let it : r ≡ s = cc in let dead : is_some r.revoked_at ≡ true = rw it gone in ground arith

module _ (now k : ℕ) (db : IdentityDatabase) (s : SessionRecord) (e : lookup k db.sessions ≡ some s)
    (gone : is_some s.revoked_at ≡ true) where
  pending-other :
      (t : WebSocketTicketRecord)
      → usable_session now db (lookup t.session_id db.sessions) ≡ true
      → t.session_id ≢ k
  pending-other t usable same =
      let found : lookup t.session_id db.sessions ≡ some s =
        ap (λ i. lookup i db.sessions) same ∙ e in
      let closed : is_usable now db s ≡ false = unusable now db s gone in
      let open_one : is_usable now db s ≡ true = rw found at usable in ground arith

  binds : (o : Option WebSocketTicketRecord) → Holds (λ t. t.session_id ≢ k) o → BindsOther k o
  binds none h = tt
  binds (some t) h = h

  consumed_other :
      (rejects : WebSocketTicketRecord → Bool) (i : ℕ)
      → ((t : WebSocketTicketRecord) → rejects t ≡ false → is_pending now db t ≡ true)
      → BindsOther k (update_row rejects (Tickets.consumed_now now) i db.tickets).0
  consumed_other rejects i pending =
      binds (update_row rejects (Tickets.consumed_now now) i db.tickets).0 (
        update_row-holds (λ t. t.session_id ≢ k) rejects (Tickets.consumed_now now) i db.tickets
          (λ t passed. let p = pending t passed in pending-other t (ground arith)))

  consume_by_id-other : (a i : ℕ) → BindsOther k (Tickets.consume_by_id now a i db).0
  unfolding Tickets.consume_by_id
  consume_by_id-other a i =
      consumed_other (λ t. not (is_pending_for now a db t)) i (λ t passed. ground arith)

  consume_key-other : (a : ℕ) (key : Option ℕ) → BindsOther k (consume_key now a key db).0
  consume_key-other a none = tt
  consume_key-other a (some i) = consume_by_id-other a i

  consume_socket_key-other : (key : Option ℕ) → BindsOther k (consume_socket_key now key db).0
  consume_socket_key-other none = tt
  consume_socket_key-other (some i) =
      consumed_other (λ t. not (is_pending now db t)) i (λ t passed. ground arith)

  found_ticket-other :
      (a h : ℕ) (o : Option WebSocketTicketRecord)
      → Holds (λ t. (t.token_hash == h && is_pending_for now a db t) ≡ true) o
      → BindsOther k o
  found_ticket-other a h none p = tt
  found_ticket-other a h (some t) p = pending-other t (ground arith)

ended-IsOut :
    (now k a csrf ticket_id h expires_at : ℕ) (reason : RevocationReason) (db : IdentityDatabase)
    (s : SessionRecord)
    → lookup k db.sessions ≡ some s
    → is_some s.revoked_at ≡ true
    → IsOut now k a csrf ticket_id h expires_at reason db
unfolding find_current_by_id touch_last_seen replace_csrf_hash revoke Tickets.create
    find_by_token_hash get_by_token_hash Tickets.get_by_token_hash Tickets.consume
    Tickets.consume_for_socket
ended-IsOut now k a csrf ticket_id h expires_at reason db s e gone =
    let closed : is_usable now db s ≡ false = unusable now db s gone in
    let not_mine : not (s.user_id == a && is_usable now db s) ≡ true = ground arith in
    let done : not (s.user_id == a && not (is_some s.revoked_at)) ≡ true = ground arith in
    let sessions : Option SessionRecord × Dict SessionRecord → SessionAnswer =
      λ p. (p.0, record db { sessions = p.1 }) in
    (
      (rw e (rw closed refl)),
      (λ same.
          not_found (λ r. r.token_hash == h && is_usable now db r) s
            (find_where (λ r. r.token_hash == h && is_usable now db r) db.sessions) gone
            (λ r p. ground arith)
            (find_where-passes (λ r. r.token_hash == h && is_usable now db r) db.sessions)
            (same ∙ e)),
      (λ same.
          not_found (λ r. r.user_id == a && r.token_hash == h && is_usable now db r) s
            (find_where (λ r. r.user_id == a && r.token_hash == h && is_usable now db r)
              db.sessions)
            gone (λ r p. ground arith)
            (find_where-passes (λ r. r.user_id == a && r.token_hash == h && is_usable now db r)
              db.sessions)
            (same ∙ e)),
      ap sessions (
          update_row-rejected_at (λ s. not (s.user_id == a && is_usable now db s)) (touched now) k
            db.sessions s e not_mine),
      ap sessions (
          update_row-rejected_at (λ s. not (s.user_id == a && is_usable now db s))
            (λ s. record s { csrf_hash = csrf }) k db.sessions s e not_mine),
      ap sessions (
          update_row-rejected_at (λ s. not (s.user_id == a && not (is_some s.revoked_at)))
            (ended now reason) k db.sessions s e done),
      (rw e (
          rw
            (and_middle (s.user_id == a) (is_usable now db s)
              (admits_ticket (new_ticket now ticket_id k h expires_at) db) closed)
            refl)),
      found_ticket-other now k db s e gone a h
          (find_where (λ t. t.token_hash == h && is_pending_for now a db t) db.tickets)
          (find_where-passes (λ t. t.token_hash == h && is_pending_for now a db t) db.tickets),
      consume_key-other now k db s e gone a (key_where (λ t. t.token_hash == h) db.tickets),
      consume_by_id-other now k db s e gone a ticket_id,
      consume_socket_key-other now k db s e gone (key_where (λ t. t.token_hash == h) db.tickets),
    )

out :
    (now k a csrf ticket_id h expires_at : ℕ) (reason : RevocationReason) (db : IdentityDatabase)
    (o : Option SessionRecord)
    → lookup k db.sessions ≡ o
    → IsEnded o
    → IsOut now k a csrf ticket_id h expires_at reason db
out now k a csrf ticket_id h expires_at reason db none e gone = absurd gone
out now k a csrf ticket_id h expires_at reason db (some s) e gone =
    ended-IsOut now k a csrf ticket_id h expires_at reason db s e gone

pub IsEnded-IsOut :
    (now k a csrf ticket_id h expires_at : ℕ) (reason : RevocationReason) (db : IdentityDatabase)
    → IsEnded (lookup k db.sessions)
    → IsOut now k a csrf ticket_id h expires_at reason db
IsEnded-IsOut now k a csrf ticket_id h expires_at reason db gone =
    out now k a csrf ticket_id h expires_at reason db (lookup k db.sessions) refl gone

stays : (o o' : Option SessionRecord) → Grows SessionFollows IsOrdered o o' → IsEnded o → IsEnded o'
stays none o' g gone = absurd gone
stays (some s) none g gone = absurd g
stays (some s) (some s') g gone = final s.revoked_at refl gone g.0.6
  where
    final :
        (o : Option ℕ)
        → s.revoked_at ≡ o
        → is_some o ≡ true
        → IsFinal o s s'
        → is_some s'.revoked_at ≡ true
    final none e some_time f = ground arith
    final (some t) e some_time f = subst (λ x. is_some x.revoked_at ≡ true) (sym f) gone

-- A session that is ended stays so.
pub changes-IsEnded :
    (k : ℕ) (cs : List (ℕ × Change)) (db : IdentityDatabase)
    → AreOrdered db
    → IsEnded (lookup k db.sessions)
    → IsEnded (lookup k (changes cs db).sessions)
changes-IsEnded k cs db o gone =
    stays (lookup k db.sessions) (lookup k (changes cs db).sessions)
      ((changes-Follows cs db o).sessions k) gone
