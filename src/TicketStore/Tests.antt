-- ===== src/TicketStore/Tests.antt =====
-- Two tasks that found the same ticket.
use self_relay.Base.{ℕ, ◌≡◌, refl, Bool, true, some, List, [], ◌∷◌}
use self_relay.Base.Dict.{lookup, insert}
use self_relay.Base.Rows.{update_row}
use self_relay.Base.Counted.{Counted}
use self_relay.Records.{WebSocketTicketRecord}
use self_relay.Identity.Spent.{IsSpent}
use self_relay.TicketStore.Memory.{MemoryTickets, new_ticket, take}
use self_relay.TicketStore.Races.{Section, takes, run_sections, taken, sections-IsSpent}

abbrev always : (account_id session_id : ℕ) → Bool
always account_id session_id = true

abbrev ticket : WebSocketTicketRecord
ticket = new_ticket always 100 30 20 70 400

abbrev store : MemoryTickets
store = record {
  records = (30, ticket) ∷ [];
  accounts = (30, 1) ∷ [];
  by_token_hash = (70, 30) ∷ [];
}

abbrev race : List Section
race = takes 110 30 1 ∷ takes 111 30 1 ∷ []

-- The second comes too late.
one_winner : taken always 30 race store ≡ 1
unfolding taken take lookup insert update_row
one_winner = refl

issued : lookup 30 store.records ≡ some ticket
unfolding lookup
issued = refl

sections-IsSpent_example :
    Counted IsSpent
      (taken always 30 race store)
      ticket
      (lookup 30 (run_sections always race store).records)
sections-IsSpent_example = sections-IsSpent always 30 race ticket store (refl, (refl, tt)) issued
