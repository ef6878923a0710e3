-- ===== src/Identity/Once.antt =====
-- A WebSocket ticket over any sequence of statements.
use self_relay.Base.{ℕ, ◌+◌, ◌≡◌, ap, refl, ◌&&◌, Option, none, some, List, [], ◌∷◌, ◌==◌, is_some}
use self_relay.Base.Dict.{lookup}
use self_relay.Base.Where.{key_where}
use self_relay.Base.Counted.{one_if, Counted}
use self_relay.Records.{WebSocketTicketRecord}
use self_relay.Identity.Database.{IdentityDatabase}
use self_relay.Identity.Accounts
use self_relay.Identity.Devices
use self_relay.Identity.Sessions
use self_relay.Identity.Sessions.{new_session}
use self_relay.Identity.Tickets.{consume_by_id, consume, consume_for_socket}
use self_relay.Identity.Steps.{
  Change, creates_account, marks_fallback, creates_device, registers_device, touches_device,
  renames_device, revokes_device, logs_out, revokes_all, creates_session, touches_session,
  replaces_csrf, revokes_session, revokes_token, revokes_device_sessions, revokes_account_sessions,
  creates_ticket, consumes_ticket, consumes_token, consumes_for_socket, change, changes,
}
use self_relay.Identity.Spent.{
  IsSpent, IsSpent-trans, is_row, same-IsSpent, consume_by_id-IsSpent, consume_key-IsSpent,
  consume_socket_key-IsSpent, create-IsSpent,
}
use self_relay.Identity.Untouched.{
  create_account-tickets, create_device-tickets, register_for_email-tickets,
  revoke_with_sessions-tickets, logout_with_sessions-tickets, create_session-tickets,
  revoke_by_token_hash-tickets,
}

-- Whether a change returns ticket `b` consumed.
abbrev pub consumed_by : (b now : ℕ) → Change → IdentityDatabase → ℕ
consumed_by b now (consumes_ticket a t) db = one_if (t == b && is_some (consume_by_id now a t db).0)
consumed_by b now (consumes_token a h) db =
    one_if
      (is_row b (key_where (λ t. t.token_hash == h) db.tickets) && is_some (consume now a h db).0)
consumed_by b now (consumes_for_socket h) db = one_if (
    is_row b (key_where (λ t. t.token_hash == h) db.tickets)
    && is_some (consume_for_socket now h db).0)
consumed_by b now _ db = 0

unfoldable pub consumptions : (b : ℕ) → List (ℕ × Change) → IdentityDatabase → ℕ
consumptions b [] db = 0
consumptions b ((now, c) ∷ cs) db = consumed_by b now c db + consumptions b cs (change now c db)

change-IsSpent :
    (b now : ℕ) (c : Change) (t : WebSocketTicketRecord) (db : IdentityDatabase)
    → lookup b db.tickets ≡ some t
    → Counted IsSpent (consumed_by b now c db) t (lookup b (change now c db).tickets)
unfolding Accounts.mark_email_fallback Devices.touch_last_seen Devices.rename
    Devices.revoke_all_for_account Sessions.create Sessions.touch_last_seen
    Sessions.replace_csrf_hash Sessions.revoke Sessions.revoke_for_device
    Sessions.revoke_for_account consume consume_for_socket
change-IsSpent b now (creates_account id user email) t db e =
    same-IsSpent b t db.tickets (Accounts.create now id user email db).1.tickets e
      (ap (lookup b) (create_account-tickets now id user email db))
change-IsSpent b now (marks_fallback a at) t db e = same-IsSpent b t db.tickets db.tickets e refl
change-IsSpent b now (creates_device k x) t db e =
    same-IsSpent b t db.tickets (Devices.create now k x db).1.tickets e
      (ap (lookup b) (create_device-tickets now k x db))
change-IsSpent b now (registers_device k x) t db e =
    same-IsSpent b t db.tickets (Devices.register_for_email now k x db).1.tickets e
      (ap (lookup b) (register_for_email-tickets now k x db))
change-IsSpent b now (touches_device a d) t db e = same-IsSpent b t db.tickets db.tickets e refl
change-IsSpent b now (renames_device a d label) t db e =
    same-IsSpent b t db.tickets db.tickets e refl
change-IsSpent b now (revokes_device a d reason) t db e =
    same-IsSpent b t db.tickets (Devices.revoke_with_sessions now a d reason db).1.tickets e
      (ap (lookup b) (revoke_with_sessions-tickets now a d reason db))
change-IsSpent b now (logs_out a d reason) t db e =
    same-IsSpent b t db.tickets (Devices.logout_with_sessions now a d reason db).1.tickets e
      (ap (lookup b) (logout_with_sessions-tickets now a d reason db))
change-IsSpent b now (revokes_all a reason) t db e = same-IsSpent b t db.tickets db.tickets e refl
change-IsSpent b now (creates_session id a d h csrf epoch idle absolute) t db e =
    same-IsSpent b t db.tickets (Sessions.create now id a d h csrf epoch idle absolute db).1.tickets
      e
      (ap (lookup b)
        (create_session-tickets (new_session now id a d h csrf epoch idle absolute) db))
change-IsSpent b now (touches_session a s) t db e = same-IsSpent b t db.tickets db.tickets e refl
change-IsSpent b now (replaces_csrf a s csrf) t db e = same-IsSpent b t db.tickets db.tickets e refl
change-IsSpent b now (revokes_session a s reason) t db e =
    same-IsSpent b t db.tickets db.tickets e refl
change-IsSpent b now (revokes_token a h reason) t db e =
    same-IsSpent b t db.tickets (Sessions.revoke_by_token_hash now a h reason db).1.tickets e
      (ap (lookup b) (revoke_by_token_hash-tickets now a h reason db))
change-IsSpent b now (revokes_device_sessions a d reason) t db e =
    same-IsSpent b t db.tickets db.tickets e refl
change-IsSpent b now (revokes_account_sessions a reason) t db e =
    same-IsSpent b t db.tickets db.tickets e refl
change-IsSpent b now (creates_ticket id a s h expires_at) t db e =
    create-IsSpent b now id a s h expires_at t db e
change-IsSpent b now (consumes_ticket a k) t db e = consume_by_id-IsSpent b now a k t db e
change-IsSpent b now (consumes_token a h) t db e =
    consume_key-IsSpent b now a (key_where (λ t. t.token_hash == h) db.tickets) t db e
change-IsSpent b now (consumes_for_socket h) t db e =
    consume_socket_key-IsSpent b now (key_where (λ t. t.token_hash == h) db.tickets) t db e

extend :
    (n m : ℕ) (x y : WebSocketTicketRecord) (o : Option WebSocketTicketRecord)
    → IsSpent n x y
    → Counted IsSpent m y o
    → Counted IsSpent (n + m) x o
extend n m x y none u v = v
extend n m x y (some z) u v = IsSpent-trans n m x y z u v

pub Counted-then :
    (n m : ℕ) (x : WebSocketTicketRecord) (o o' : Option WebSocketTicketRecord)
    → Counted IsSpent n x o
    → ((y : WebSocketTicketRecord) → o ≡ some y → Counted IsSpent m y o')
    → Counted IsSpent (n + m) x o'
Counted-then n m x none o' u next = absurd u
Counted-then n m x (some y) o' u next = extend n m x y o' u (next y refl)

-- A ticket opens at most one socket: over any sequence of statements by any callers, by its identifier
-- or by its token, for an account or for a socket, it is returned consumed at most once in all, and not
-- at all if it is consumed before them, in which case its record stays exactly as it is. It stays in the
-- table, and its session, its token and its deadline never change.
pub changes-IsSpent :
    (b : ℕ) (cs : List (ℕ × Change)) (t : WebSocketTicketRecord) (db : IdentityDatabase)
    → lookup b db.tickets ≡ some t
    → Counted IsSpent (consumptions b cs db) t (lookup b (changes cs db).tickets)
unfolding changes consumptions
changes-IsSpent b [] t db e = same-IsSpent b t db.tickets db.tickets e refl
changes-IsSpent b ((now, c) ∷ cs) t db e =
    Counted-then (consumed_by b now c db) (consumptions b cs (change now c db)) t
      (lookup b (change now c db).tickets) (lookup b (changes cs (change now c db)).tickets)
      (change-IsSpent b now c t db e) (λ y e'. changes-IsSpent b cs y (change now c db) e')
