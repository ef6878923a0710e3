-- ===== src/Identity/Spent.antt =====
-- How a WebSocket ticket may change, with its consumptions counted.
use self_relay.Base.{
  ℕ, ◌+◌, ◌≤◌, ◌≡◌, ap, ◌∙◌, refl, Bool, false, ◌&&◌, not, Option, none, some, ◌==◌, is_some, inl,
  inr, Bool-cases, arith,
}
use mathlib.Core.Path.{subst}
use self_relay.Base.Dict.{Dict, lookup}
use self_relay.Base.Counted.{
  one_if, Counted, Counted-same, Counted-insert_other, Counted-update_row,
}
use self_relay.Records.{WebSocketTicketRecord}
use self_relay.Identity.Database.{IdentityDatabase}
use self_relay.Identity.Tickets.{
  create, owned_by, usable_session, admits_ticket, new_ticket, consume_by_id, consume_key,
  consume_socket_key, consumed_now, is_pending, is_pending_for,
}

-- A consumed ticket is final.
abbrev pub Frozen : Option ℕ → (t t' : WebSocketTicketRecord) → Type 0
Frozen none t t' = Unit
Frozen (some at) t t' = t' ≡ t

abbrev pub unspent : WebSocketTicketRecord → ℕ
unspent t = one_if (not (is_some t.consumed_at))

-- From `t` to `t'` with `n` consumptions between them.
abbrev pub IsSpent : (n : ℕ) → (t t' : WebSocketTicketRecord) → Type 0
IsSpent n t t' =
    (n + unspent t' ≤ unspent t)
    × (t'.session_id ≡ t.session_id)
    × (t'.token_hash ≡ t.token_hash)
    × (t'.expires_at ≡ t.expires_at)
    × Frozen t.consumed_at t t'

Frozen-self : (o : Option ℕ) (t : WebSocketTicketRecord) → Frozen o t t
Frozen-self none t = tt
Frozen-self (some at) t = refl

Frozen-pending : (o : Option ℕ) (t t' : WebSocketTicketRecord) → is_some o ≡ false → Frozen o t t'
Frozen-pending none t t' e = tt
Frozen-pending (some at) t t' e = ground arith

Frozen-trans :
    (o : Option ℕ) (x y z : WebSocketTicketRecord)
    → x.consumed_at ≡ o
    → Frozen o x y
    → Frozen y.consumed_at y z
    → Frozen o x z
Frozen-trans none x y z e u v = tt
Frozen-trans (some at) x y z e u v =
    subst (λ o. Frozen o x z) e (subst (λ t. Frozen t.consumed_at t z) u v)

pub untouched-IsSpent : (t : WebSocketTicketRecord) → IsSpent 0 t t
untouched-IsSpent t = (omega arith, refl, refl, refl, Frozen-self t.consumed_at t)

pub IsSpent-trans :
    (n m : ℕ) (x y z : WebSocketTicketRecord) → IsSpent n x y → IsSpent m y z → IsSpent (n + m) x z
IsSpent-trans n m x y z u v =
    (omega arith, v.1 ∙ u.1, v.2 ∙ u.2, v.3 ∙ u.3, Frozen-trans x.consumed_at x y z refl u.4 v.4)

pub consumed_now-IsSpent :
    (now : ℕ) (t : WebSocketTicketRecord)
    → is_some t.consumed_at ≡ false
    → IsSpent 1 t (consumed_now now t)
consumed_now-IsSpent now t fresh =
    let one : unspent t ≡ 1 = rw fresh refl in
    (omega arith, refl, refl, refl, Frozen-pending t.consumed_at t (consumed_now now t) fresh)

abbrev pub is_row : (b : ℕ) → Option ℕ → Bool
is_row b none = false
is_row b (some k) = k == b

pub same-IsSpent :
    (b : ℕ) (t : WebSocketTicketRecord) (d d' : Dict WebSocketTicketRecord)
    → lookup b d ≡ some t
    → lookup b d' ≡ lookup b d
    → Counted IsSpent 0 t (lookup b d')
same-IsSpent b t d d' e kept = Counted-same IsSpent b t d d' (untouched-IsSpent t) e kept

pub consume_by_id-IsSpent :
    (b now a k : ℕ) (t : WebSocketTicketRecord) (db : IdentityDatabase)
    → lookup b db.tickets ≡ some t
    → Counted IsSpent
        (one_if (k == b && is_some (consume_by_id now a k db).0))
        t
        (lookup b (consume_by_id now a k db).1.tickets)
unfolding consume_by_id
consume_by_id-IsSpent b now a k t db e =
    Counted-update_row IsSpent (λ x. not (is_pending_for now a db x)) (consumed_now now) b k t
      db.tickets (untouched-IsSpent t) (λ pending. consumed_now-IsSpent now t (ground arith)) e

pub consume_key-IsSpent :
    (b now a : ℕ) (o : Option ℕ) (t : WebSocketTicketRecord) (db : IdentityDatabase)
    → lookup b db.tickets ≡ some t
    → Counted IsSpent
        (one_if (is_row b o && is_some (consume_key now a o db).0))
        t
        (lookup b (consume_key now a o db).1.tickets)
consume_key-IsSpent b now a none t db e = same-IsSpent b t db.tickets db.tickets e refl
consume_key-IsSpent b now a (some k) t db e = consume_by_id-IsSpent b now a k t db e

pub consume_socket_key-IsSpent :
    (b now : ℕ) (o : Option ℕ) (t : WebSocketTicketRecord) (db : IdentityDatabase)
    → lookup b db.tickets ≡ some t
    → Counted IsSpent
        (one_if (is_row b o && is_some (consume_socket_key now o db).0))
        t
        (lookup b (consume_socket_key now o db).1.tickets)
consume_socket_key-IsSpent b now none t db e = same-IsSpent b t db.tickets db.tickets e refl
consume_socket_key-IsSpent b now (some k) t db e =
    Counted-update_row IsSpent (λ x. not (is_pending now db x)) (consumed_now now) b k t db.tickets
      (untouched-IsSpent t) (λ pending. consumed_now-IsSpent now t (ground arith)) e

pub create-IsSpent :
    (b now id a s h expires_at : ℕ) (t : WebSocketTicketRecord) (db : IdentityDatabase)
    → lookup b db.tickets ≡ some t
    → Counted IsSpent 0 t (lookup b (create now id a s h expires_at db).1.tickets)
unfolding create
create-IsSpent b now id a s h expires_at t db e =
    elim (Bool-cases (
      owned_by a (lookup s db.sessions)
      && usable_session now db (lookup s db.sessions)
      && admits_ticket (new_ticket now id s h expires_at) db)) [
        | inl admitted ↦
            let free : is_some (lookup id db.tickets) ≡ false = ground arith in
            rw admitted (
              Counted-insert_other IsSpent b id t (new_ticket now id s h expires_at) db.tickets
                (untouched-IsSpent t) e (other free))
        | inr refused ↦ rw refused (same-IsSpent b t db.tickets db.tickets e refl)
      ]
  where
    other : is_some (lookup id db.tickets) ≡ false → id == b ≡ false
    other free = elim (Bool-cases (id == b)) [
      | inl hit ↦
          let key : id ≡ b = ground arith in
          let here : lookup id db.tickets ≡ some t = ap (λ i. lookup i db.tickets) key ∙ e in
          let taken : is_some (some t) ≡ false = rw here at free in ground arith
      | inr miss ↦ miss
    ]
