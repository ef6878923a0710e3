-- ===== src/TicketStore/Memory.antt =====
-- `InMemoryWebSocketTicketRepository` of backend/app/repositories/websocket_tickets.py. `now` is what
-- `datetime.now` gives, and `is_current` what `_session_is_current` answers for an account and a session.
-- `_consume` looks the ticket up in one lock section and takes it in another, between which other tasks
-- may run: `find_for` and `take` are the two sections.
use self_relay.Base.{
  ℕ, Bool, true, false, ◌&&◌, ◌||◌, not, Option, none, some, ◌==◌, ltb, leb, if◌then◌else◌, is_some,
}
use self_relay.Base.Dict.{Dict, lookup, insert}
use self_relay.Base.Rows.{update_row}
use self_relay.Records.{WebSocketTicketRecord}

pub record MemoryTickets : Type 0 where
  pub records : Dict WebSocketTicketRecord
  pub accounts : Dict ℕ
  pub by_token_hash : Dict ℕ

abbrev pub TicketAnswer : Type 0
TicketAnswer = Option WebSocketTicketRecord × MemoryTickets

-- `self._accounts.get(ticket_id) == account_id`
abbrev pub is_owner : (account_id : ℕ) → Option ℕ → Bool
is_owner account_id none = false
is_owner account_id (some owner) = owner == account_id

abbrev pub if_owner :
    (account_id : ℕ) → Option ℕ → Option WebSocketTicketRecord → Option WebSocketTicketRecord
if_owner account_id owner none = none
if_owner account_id owner (some t) = if is_owner account_id owner then some t else none

unfoldable pub get_by_id : (account_id ticket_id : ℕ) → MemoryTickets → Option WebSocketTicketRecord
get_by_id account_id ticket_id st =
    if_owner account_id (lookup ticket_id st.accounts) (lookup ticket_id st.records)

abbrev pub at_key : Option ℕ → MemoryTickets → Option WebSocketTicketRecord × Option ℕ
at_key none st = (none, none)
at_key (some id) st = (lookup id st.records, lookup id st.accounts)

-- `_record_for_token`
unfoldable pub record_for_token :
    (token_hash : ℕ) → MemoryTickets → Option WebSocketTicketRecord × Option ℕ
record_for_token h st = at_key (lookup h st.by_token_hash) st

-- `_is_usable`
abbrev pub is_usable : (now : ℕ) → WebSocketTicketRecord → Bool
is_usable now t = not (is_some t.consumed_at) && ltb now t.expires_at

-- Whether the account that is asked for, if any, is the owner
abbrev pub matches : (account_id : Option ℕ) → (owner : ℕ) → Bool
matches none owner = true
matches (some account_id) owner = owner == account_id

module _ (is_current : (account_id session_id : ℕ) → Bool) where
  -- The tests of `_consume` up to its second section, and those of `get_by_token_hash`
  abbrev pub usable_for :
      (now : ℕ) (account_id : Option ℕ)
      → Option WebSocketTicketRecord × Option ℕ
      → Option (WebSocketTicketRecord × ℕ)
  usable_for now account_id (none, owner) = none
  usable_for now account_id (some t, none) = none
  usable_for now account_id (some t, some owner) =
      if matches account_id owner && is_usable now t && is_current owner t.session_id
      then some (t, owner)
      else none

  unfoldable pub find_for :
      (now : ℕ) (account_id : Option ℕ) (token_hash : ℕ)
      → MemoryTickets
      → Option (WebSocketTicketRecord × ℕ)
  unfolding record_for_token
  find_for now account_id h st = usable_for now account_id (record_for_token h st)

  abbrev pub found : Option (WebSocketTicketRecord × ℕ) → Option WebSocketTicketRecord
  found none = none
  found (some (t, owner)) = some t

  unfoldable pub get_by_token_hash :
      (now account_id token_hash : ℕ) → MemoryTickets → Option WebSocketTicketRecord
  unfolding find_for
  get_by_token_hash now account_id h st = found (find_for now (some account_id) h st)

  abbrev pub new_ticket : (now id session_id token_hash expires_at : ℕ) → WebSocketTicketRecord
  new_ticket now id session_id h expires_at = record {
    id = id;
    session_id = session_id;
    token_hash = h;
    created_at = now;
    expires_at = expires_at;
    consumed_at = none;
  }

  -- `none` where it raises. A digest has 32 bytes.
  unfoldable pub create :
      (now id account_id session_id token_hash expires_at : ℕ) → MemoryTickets → TicketAnswer
  create now id account_id session_id h expires_at st =
      if leb expires_at now
        || not (is_current account_id session_id)
        || is_some (lookup h st.by_token_hash)
      then (none, st)
      else (
        some (new_ticket now id session_id h expires_at),
        record {
          records = insert id (new_ticket now id session_id h expires_at) st.records;
          accounts = insert id account_id st.accounts;
          by_token_hash = insert h id st.by_token_hash;
        },
      )

  abbrev pub with_records :
      MemoryTickets → Option WebSocketTicketRecord × Dict WebSocketTicketRecord → TicketAnswer
  with_records st (t, records) = (t, record st { records = records })

  abbrev pub consumed_now : (now : ℕ) → WebSocketTicketRecord → WebSocketTicketRecord
  consumed_now now t = record t { consumed_at = some now }

  -- The second lock section of `_consume`
  unfoldable pub take : (now ticket_id owner : ℕ) → MemoryTickets → TicketAnswer
  unfolding update_row
  take now ticket_id owner st = with_records st (
      update_row
        (λ t.
          is_some t.consumed_at
          || leb t.expires_at now
          || not (is_owner owner (lookup ticket_id st.accounts)))
        (consumed_now now) ticket_id st.records)

  abbrev pub take_found :
      (now : ℕ) → Option (WebSocketTicketRecord × ℕ) → MemoryTickets → TicketAnswer
  take_found now none st = (none, st)
  take_found now (some (t, owner)) st = take now t.id owner st

  -- `_consume`, with nothing in between
  unfoldable pub consume_ticket :
      (now : ℕ) (account_id : Option ℕ) (token_hash : ℕ) → MemoryTickets → TicketAnswer
  unfolding find_for take
  consume_ticket now account_id h st = take_found now (find_for now account_id h st) st

  unfoldable pub consume : (now account_id token_hash : ℕ) → MemoryTickets → TicketAnswer
  unfolding consume_ticket
  consume now account_id h st = consume_ticket now (some account_id) h st

  unfoldable pub consume_for_socket : (now token_hash : ℕ) → MemoryTickets → TicketAnswer
  unfolding consume_ticket
  consume_for_socket now h st = consume_ticket now none h st

  abbrev pub consume_row :
      (now account_id : ℕ) → Option WebSocketTicketRecord → MemoryTickets → TicketAnswer
  consume_row now account_id none st = (none, st)
  consume_row now account_id (some t) st = consume_ticket now (some account_id) t.token_hash st

  unfoldable pub consume_by_id : (now account_id ticket_id : ℕ) → MemoryTickets → TicketAnswer
  unfolding consume_ticket get_by_id
  consume_by_id now account_id ticket_id st =
      consume_row now account_id (get_by_id account_id ticket_id st) st
