-- ===== src/TicketStore/Races.antt =====
-- Tasks that consume tickets of the in-memory repository at once.
use self_relay.Base.{
  ℕ, ◌+◌, ◌≡◌, refl, Bool, true, ◌&&◌, ◌||◌, not, some, List, [], ◌∷◌, ◌==◌, leb, is_some, inl, inr,
  Bool-cases, arith,
}
use self_relay.Base.Dict.{lookup}
use self_relay.Base.Counted.{one_if, Counted, Counted-insert_other, Counted-update_row}
use self_relay.Records.{WebSocketTicketRecord}
use self_relay.Identity.Spent.{IsSpent, untouched-IsSpent, same-IsSpent, consumed_now-IsSpent}
use self_relay.Identity.Once.{Counted-then}
use self_relay.TicketStore.Memory.{MemoryTickets, create, new_ticket, take, consumed_now, is_owner}

-- A lock section that writes, of any task
pub data Section : Type 0 where
  creates : (now id account_id session_id token_hash expires_at : ℕ) → Section
  takes : (now ticket_id owner : ℕ) → Section

-- It draws no identifier anew.
abbrev pub draws_other : (b : ℕ) → Section → Bool
draws_other b (creates now id account_id session_id h expires_at) = not (id == b)
draws_other b (takes now id owner) = true

abbrev pub DrawOthers : (b : ℕ) → List Section → Type 0
DrawOthers b [] = Unit
DrawOthers b (s ∷ ss) = (draws_other b s ≡ true) × DrawOthers b ss

module _ (is_current : (account_id session_id : ℕ) → Bool) where
  abbrev pub run_section : Section → MemoryTickets → MemoryTickets
  run_section (creates now id account_id session_id h expires_at) st =
      (create is_current now id account_id session_id h expires_at st).1
  run_section (takes now id owner) st = (take is_current now id owner st).1

  -- Whether a section returns ticket `b` consumed
  abbrev pub taken_by : (b : ℕ) → Section → MemoryTickets → ℕ
  taken_by b (creates now id account_id session_id h expires_at) st = 0
  taken_by b (takes now id owner) st =
      one_if (id == b && is_some (take is_current now id owner st).0)

  unfoldable pub run_sections : List Section → MemoryTickets → MemoryTickets
  run_sections [] st = st
  run_sections (s ∷ ss) st = run_sections ss (run_section s st)

  unfoldable pub taken : (b : ℕ) → List Section → MemoryTickets → ℕ
  taken b [] st = 0
  taken b (s ∷ ss) st = taken_by b s st + taken b ss (run_section s st)

  create_section-IsSpent :
      (b now id a s h expires_at : ℕ) (t : WebSocketTicketRecord) (st : MemoryTickets)
      → not (id == b) ≡ true
      → lookup b st.records ≡ some t
      → Counted IsSpent 0 t (lookup b (create is_current now id a s h expires_at st).1.records)
  unfolding create
  create_section-IsSpent b now id a s h expires_at t st other e =
      elim (Bool-cases
        (leb expires_at now || not (is_current a s) || is_some (lookup h st.by_token_hash))) [
          | inl refused ↦ rw refused (same-IsSpent b t st.records st.records e refl)
          | inr admitted ↦ rw admitted (
              Counted-insert_other IsSpent b id t (new_ticket is_current now id s h expires_at)
                st.records (untouched-IsSpent t) e (ground arith))
        ]

  section-IsSpent :
      (b : ℕ) (s : Section) (t : WebSocketTicketRecord) (st : MemoryTickets)
      → draws_other b s ≡ true
      → lookup b st.records ≡ some t
      → Counted IsSpent (taken_by b s st) t (lookup b (run_section s st).records)
  unfolding take
  section-IsSpent b (creates now id a s h expires_at) t st other e =
      create_section-IsSpent b now id a s h expires_at t st other e
  section-IsSpent b (takes now id owner) t st other e =
      Counted-update_row IsSpent
        (λ x.
          is_some x.consumed_at
          || leb x.expires_at now
          || not (is_owner owner (lookup id st.accounts)))
        (consumed_now is_current now) b id t st.records (untouched-IsSpent t)
        (λ free. consumed_now-IsSpent now t (ground arith)) e

  -- However the lock sections of tasks interleave, and whatever they have looked up before, a ticket is
  -- taken at most once in all, and not at all if it is consumed before them, in which case its record
  -- stays exactly as it is; its session, its token and its deadline never change. This is for sections
  -- that do not draw the ticket's identifier for another one.
  pub sections-IsSpent :
      (b : ℕ) (ss : List Section) (t : WebSocketTicketRecord) (st : MemoryTickets)
      → DrawOthers b ss
      → lookup b st.records ≡ some t
      → Counted IsSpent (taken b ss st) t (lookup b (run_sections ss st).records)
  unfolding run_sections taken
  sections-IsSpent b [] t st others e = same-IsSpent b t st.records st.records e refl
  sections-IsSpent b (s ∷ ss) t st others e =
      Counted-then (taken_by b s st) (taken b ss (run_section s st)) t
        (lookup b (run_section s st).records)
        (lookup b (run_sections ss (run_section s st)).records)
        (section-IsSpent b s t st others.0 e)
        (λ y e'. sections-IsSpent b ss y (run_section s st) others.1 e')
