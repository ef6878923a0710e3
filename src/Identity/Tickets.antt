-- ===== src/Identity/Tickets.antt =====
-- `WebSocketTicketRepository` of backend/app/repositories/websocket_tickets.py. `now` is
-- `CURRENT_TIMESTAMP`.
use self_relay.Base.{
  ℕ, Bool, false, ◌&&◌, not, Option, none, some, ◌==◌, ltb, if◌then◌else◌, is_some,
}
use self_relay.Base.Dict.{Dict, lookup, insert}
use self_relay.Base.Rows.{update_row}
use self_relay.Base.Where.{key_where, find_where}
use self_relay.Records.{AccountRecord, SessionRecord, WebSocketTicketRecord}
use self_relay.Identity.Database.{IdentityDatabase, is_usable}

abbrev pub TicketAnswer : Type 0
TicketAnswer = Option WebSocketTicketRecord × IdentityDatabase

-- The joins of the statements: the session is usable, and of the account where one is named.
abbrev pub usable_session : (now : ℕ) → IdentityDatabase → Option SessionRecord → Bool
usable_session now db none = false
usable_session now db (some s) = is_usable now db s

abbrev pub owned_by : (account_id : ℕ) → Option SessionRecord → Bool
owned_by account_id none = false
owned_by account_id (some s) = s.user_id == account_id

abbrev pub undeleted_account : Option AccountRecord → Bool
undeleted_account none = false
undeleted_account (some a) = not (is_some a.deleted_at)

abbrev pub visible :
    (account_id : ℕ)
    → IdentityDatabase
    → Option WebSocketTicketRecord
    → Option WebSocketTicketRecord
visible account_id db none = none
visible account_id db (some t) =
    if owned_by account_id (lookup t.session_id db.sessions)
      && undeleted_account (lookup account_id db.accounts)
    then some t
    else none

unfoldable pub get_by_id :
    (account_id ticket_id : ℕ) → IdentityDatabase → Option WebSocketTicketRecord
get_by_id account_id ticket_id db = visible account_id db (lookup ticket_id db.tickets)

-- `consumed_at IS NULL AND expires_at > CURRENT_TIMESTAMP`, with a usable session
abbrev pub is_pending : (now : ℕ) → IdentityDatabase → WebSocketTicketRecord → Bool
is_pending now db t =
    not (is_some t.consumed_at)
    && ltb now t.expires_at
    && usable_session now db (lookup t.session_id db.sessions)

abbrev pub is_pending_for : (now account_id : ℕ) → IdentityDatabase → WebSocketTicketRecord → Bool
is_pending_for now account_id db t =
    is_pending now db t && owned_by account_id (lookup t.session_id db.sessions)

unfoldable pub get_by_token_hash :
    (now account_id token_hash : ℕ) → IdentityDatabase → Option WebSocketTicketRecord
unfolding find_where
get_by_token_hash now account_id h db =
    find_where (λ t. t.token_hash == h && is_pending_for now account_id db t) db.tickets

abbrev pub new_ticket : (now id session_id token_hash expires_at : ℕ) → WebSocketTicketRecord
new_ticket now id session_id h expires_at = record {
  id = id;
  session_id = session_id;
  token_hash = h;
  created_at = now;
  expires_at = expires_at;
  consumed_at = none;
}

-- The identifier and the token are new, and `expires_at > created_at`.
abbrev pub admits_ticket : WebSocketTicketRecord → IdentityDatabase → Bool
admits_ticket t db =
    not (is_some (lookup t.id db.tickets))
    && not (is_some (find_where (λ r. r.token_hash == t.token_hash) db.tickets))
    && ltb t.created_at t.expires_at

-- `create`, for the identifier that the database draws: `none` where it raises.
unfoldable pub create :
    (now id account_id session_id token_hash expires_at : ℕ) → IdentityDatabase → TicketAnswer
unfolding find_where
create now id account_id session_id h expires_at db =
    if owned_by account_id (lookup session_id db.sessions)
      && usable_session now db (lookup session_id db.sessions)
      && admits_ticket (new_ticket now id session_id h expires_at) db
    then (
      some (new_ticket now id session_id h expires_at),
      record db { tickets = insert id (new_ticket now id session_id h expires_at) db.tickets },
    )
    else (none, db)

abbrev pub consumed_now : (now : ℕ) → WebSocketTicketRecord → WebSocketTicketRecord
consumed_now now t = record t { consumed_at = some now }

abbrev pub with_tickets :
    IdentityDatabase → Option WebSocketTicketRecord × Dict WebSocketTicketRecord → TicketAnswer
with_tickets db (t, tickets) = (t, record db { tickets = tickets })

unfoldable pub consume_by_id : (now account_id ticket_id : ℕ) → IdentityDatabase → TicketAnswer
unfolding update_row
consume_by_id now account_id ticket_id db = with_tickets db (
    update_row (λ t. not (is_pending_for now account_id db t)) (consumed_now now) ticket_id
      db.tickets)

abbrev pub consume_key : (now account_id : ℕ) → Option ℕ → IdentityDatabase → TicketAnswer
consume_key now account_id none db = (none, db)
consume_key now account_id (some ticket_id) db = consume_by_id now account_id ticket_id db

-- The same statement with the token in its `WHERE` clause: `token_hash` is unique.
unfoldable pub consume : (now account_id token_hash : ℕ) → IdentityDatabase → TicketAnswer
unfolding consume_by_id key_where
consume now account_id h db =
    consume_key now account_id (key_where (λ t. t.token_hash == h) db.tickets) db

abbrev pub consume_socket_key : (now : ℕ) → Option ℕ → IdentityDatabase → TicketAnswer
consume_socket_key now none db = (none, db)
consume_socket_key now (some ticket_id) db =
    with_tickets db
      (update_row (λ t. not (is_pending now db t)) (consumed_now now) ticket_id db.tickets)

unfoldable pub consume_for_socket : (now token_hash : ℕ) → IdentityDatabase → TicketAnswer
unfolding update_row key_where
consume_for_socket now h db =
    consume_socket_key now (key_where (λ t. t.token_hash == h) db.tickets) db
