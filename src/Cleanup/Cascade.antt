-- ===== src/Cleanup/Cascade.antt =====
-- The tickets that go with their sessions.
use self_relay.Base.{
  ℕ, ◌≤◌, ◌≡◌, refl, ap, sym, ◌∙◌, Bool, ◌&&◌, not, Option, none, some, [], ◌∷◌, ◌==◌, is_some,
  if◌then◌else◌, inl, inr, Bool-cases, arith,
}
use self_relay.Base.Dict.{Dict, lookup, IsUnique}
use self_relay.Base.Where.{count_where}
use self_relay.Records.{SessionRecord, WebSocketTicketRecord}
use self_relay.Cleanup.Retention.{cascade, is_orphan}

-- What is left of a ticket: nothing, if the row of its session has been deleted.
abbrev pub left_of :
    (session_before session_after : Option SessionRecord)
    → WebSocketTicketRecord
    → Option WebSocketTicketRecord
left_of (some s) none t = none
left_of (some s) (some s') t = some t
left_of none o t = some t

abbrev pub left_or_none :
    (before after : Dict SessionRecord)
    → Option WebSocketTicketRecord
    → Option WebSocketTicketRecord
left_or_none before after none = none
left_or_none before after (some t) =
    left_of (lookup t.session_id before) (lookup t.session_id after) t

module _ (before after : Dict SessionRecord) where
  lookup-cascade-none :
      (k : ℕ) (d : Dict WebSocketTicketRecord)
      → lookup k d ≡ none
      → lookup k (cascade before after d) ≡ none
  unfolding lookup cascade
  lookup-cascade-none k [] e = refl
  lookup-cascade-none k ((j, t) ∷ d) e = elim (Bool-cases (j == k)) [
    | inl hit ↦ let never : some t ≡ none = rw hit at e in cc
    | inr miss ↦
        let rest = lookup-cascade-none k d (rw miss at e) in
        elim (Bool-cases (is_orphan before after t)) [
          | inl gone ↦ rw gone rest
          | inr kept ↦ rw kept (rw miss rest)
        ]
  ]

  kept_or_gone :
      (o o' : Option SessionRecord) (t : WebSocketTicketRecord)
      → left_of o o' t ≡ (if is_some o && not (is_some o') then none else some t)
  kept_or_gone none none t = refl
  kept_or_gone none (some s') t = refl
  kept_or_gone (some s) none t = refl
  kept_or_gone (some s) (some s') t = refl

  pub lookup-cascade :
      (k : ℕ) (d : Dict WebSocketTicketRecord)
      → IsUnique d
      → lookup k (cascade before after d) ≡ left_or_none before after (lookup k d)
  unfolding lookup cascade
  lookup-cascade k [] u = refl
  lookup-cascade k ((j, t) ∷ d) u =
      let fate = kept_or_gone (lookup t.session_id before) (lookup t.session_id after) t in
      elim (Bool-cases (j == k)) [
        | inl hit ↦
            let key : j ≡ k = ground arith in
            let none_else : lookup k d ≡ none = ap (λ i. lookup i d) (sym key) ∙ u.0 in
            elim (Bool-cases (is_orphan before after t)) [
              | inl gone ↦
                  let lost : left_of (lookup t.session_id before) (lookup t.session_id after) t
                      ≡ none =
                    fate ∙ (rw gone refl) in
                  rw (hit, gone) (lookup-cascade-none k d none_else ∙ sym lost)
              | inr kept ↦
                  let still : left_of (lookup t.session_id before) (lookup t.session_id after) t
                      ≡ some t =
                    fate ∙ (rw kept refl) in
                  rw (hit, kept) (rw hit (sym still))
            ]
        | inr miss ↦ elim (Bool-cases (is_orphan before after t)) [
          | inl gone ↦ rw (miss, gone) (lookup-cascade k d u.1)
          | inr kept ↦ rw (miss, kept) (rw miss (lookup-cascade k d u.1))
        ]
      ]

  pub cascade-IsUnique :
      (d : Dict WebSocketTicketRecord) → IsUnique d → IsUnique (cascade before after d)
  unfolding cascade
  cascade-IsUnique [] u = u
  cascade-IsUnique ((j, t) ∷ d) u = elim (Bool-cases (is_orphan before after t)) [
    | inl gone ↦ rw gone (cascade-IsUnique d u.1)
    | inr kept ↦ rw kept (lookup-cascade-none j d u.0, cascade-IsUnique d u.1)
  ]

  -- A cascade leaves no more rows of any kind.
  pub count_where-cascade :
      (test : WebSocketTicketRecord → Bool) (d : Dict WebSocketTicketRecord)
      → count_where test (cascade before after d) ≤ count_where test d
  unfolding count_where cascade
  count_where-cascade test [] = omega arith
  count_where-cascade test ((j, t) ∷ d) =
      let rest = count_where-cascade test d in
      elim (Bool-cases (is_orphan before after t)) [
        | inl gone ↦ rw gone (elim (Bool-cases (test t)) [
          | inl hit ↦ rw hit (omega arith)
          | inr miss ↦ rw miss rest
        ])
        | inr kept ↦ rw kept (elim (Bool-cases (test t)) [
          | inl hit ↦ rw hit (omega arith)
          | inr miss ↦ rw miss rest
        ])
      ]
