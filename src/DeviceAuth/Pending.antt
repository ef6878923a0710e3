-- ===== src/DeviceAuth/Pending.antt =====
-- The store of registration challenges over any sequence of calls.
use self_relay.Base.{
  ℕ, ◌+◌, ◌≤◌, ◌≡◌, refl, ap, sym, ◌∙◌, ◌&&◌, Option, none, some, List, [], ◌∷◌, ◌==◌, is_some, inl,
  inr, Bool-cases, arith,
}
use self_relay.Base.Dict.{
  lookup, insert, erase, IsUnique, All, All-insert, All-erase, insert-IsUnique, erase-IsUnique,
  lookup-insert, lookup-erase_self, lookup-erase_ne,
}
use self_relay.Base.Counted.{one_if}
use self_relay.Records.{AccountRecord}
use self_relay.DeviceAuth.Registrations.{
  RegistrationState, Registrations, Enrollment, issue, get, get_row, mark_failed, mark_failed_row,
  tried_once, consume, unless_late, is_late, new_challenge,
}

-- A call of the store
pub data StoreCall : Type 0 where
  issues :
      (lifetime challenge_id : ℕ) (nonce : List ℕ) (account : AccountRecord) (x : Enrollment)
      (issued_at : ℕ)
      → StoreCall
  gets fails consumes : (challenge_id now : ℕ) → StoreCall

abbrev pub call : StoreCall → Registrations → Registrations
call (issues lifetime id nonce account x issued_at) states =
    (issue lifetime id nonce account x issued_at states).1
call (gets id now) states = (get id now states).1
call (fails id now) states = mark_failed id now states
call (consumes id now) states = (consume id now states).1

-- Whether a call issues challenge `b`, and whether it returns it consumed
abbrev pub issued_by : (b : ℕ) → StoreCall → ℕ
issued_by b (issues lifetime id nonce account x issued_at) = one_if (id == b)
issued_by b (gets id now) = 0
issued_by b (fails id now) = 0
issued_by b (consumes id now) = 0

abbrev pub consumed_by : (b : ℕ) → StoreCall → Registrations → ℕ
consumed_by b (issues lifetime id nonce account x issued_at) states = 0
consumed_by b (gets id now) states = 0
consumed_by b (fails id now) states = 0
consumed_by b (consumes id now) states = one_if (id == b && is_some (consume id now states).0)

unfoldable pub calls : List StoreCall → Registrations → Registrations
calls [] states = states
calls (c ∷ cs) states = calls cs (call c states)

unfoldable pub issuances : (b : ℕ) → List StoreCall → ℕ
issuances b [] = 0
issuances b (c ∷ cs) = issued_by b c + issuances b cs

unfoldable pub consumptions : (b : ℕ) → List StoreCall → Registrations → ℕ
consumptions b [] states = 0
consumptions b (c ∷ cs) states = consumed_by b c states + consumptions b cs (call c states)

abbrev pub pending : (b : ℕ) → Registrations → ℕ
pending b states = one_if (is_some (lookup b states))

abbrev pub HasTries : ℕ → RegistrationState → Type 0
HasTries k s = s.attempts ≤ 10

-- What every call keeps
abbrev pub IsSound : Registrations → Type 0
IsSound states = IsUnique states × All HasTries states

pending-insert :
    (b k : ℕ) (s : RegistrationState) (states : Registrations)
    → pending b (insert k s states) ≤ one_if (k == b) + pending b states
pending-insert b k s states = elim (Bool-cases (k == b)) [
  | inl hit ↦ rw hit (rw (lookup-insert b k s states) (rw hit (omega arith)))
  | inr miss ↦ rw miss (rw (lookup-insert b k s states) (rw miss (omega arith)))
]

-- An erased challenge is pending no more.
pending-erase :
    (b k : ℕ) (states : Registrations)
    → IsUnique states
    → one_if (k == b && is_some (lookup k states)) + pending b (erase k states) ≤ pending b states
pending-erase b k states u = elim (Bool-cases (k == b)) [
  | inl hit ↦
      let key : k ≡ b = ground arith in
      let gone : lookup b (erase k states) ≡ none =
        ap (λ i. lookup i (erase k states)) (sym key) ∙ lookup-erase_self k states u in
      let same : lookup k states ≡ lookup b states = ap (λ i. lookup i states) key in
      rw hit (rw gone (rw same (omega arith)))
  | inr miss ↦
      let kept : lookup b (erase k states) ≡ lookup b states =
        lookup-erase_ne b k states (ground arith) in
      rw miss (rw kept (omega arith))
]

erase-IsSound : (k : ℕ) (states : Registrations) → IsSound states → IsSound (erase k states)
erase-IsSound k states s = (erase-IsUnique k states s.0, All-erase HasTries k states s.1)

insert-IsSound :
    (k : ℕ) (x : RegistrationState) (states : Registrations)
    → x.attempts ≤ 10
    → IsSound states
    → IsSound (insert k x states)
insert-IsSound k x states few s =
    (insert-IsUnique k x states s.0, All-insert HasTries k x states few s.1)

-- One call, with the pending challenges and the soundness after it
abbrev Passes : (b c i : ℕ) → (before after : Registrations) → Type 0
Passes b c i before after = (c + pending b after ≤ i + pending b before) × IsSound after

erases : (b k : ℕ) (states : Registrations) → IsSound states → Passes b 0 0 states (erase k states)
erases b k states s =
    let fewer = pending-erase b k states s.0 in (omega arith, erase-IsSound k states s)

rewrites :
    (b k : ℕ) (x y : RegistrationState) (states : Registrations)
    → lookup k states ≡ some x
    → y.attempts ≤ 10
    → IsSound states
    → Passes b 0 0 states (insert k y states)
rewrites b k x y states there few s =
    ((let fewer = same in omega arith), insert-IsSound k y states few s)
  where
    same : pending b (insert k y states) ≤ pending b states
    same = elim (Bool-cases (k == b)) [
      | inl hit ↦
          let key : k ≡ b = ground arith in
          let here : lookup b states ≡ some x = ap (λ i. lookup i states) (sym key) ∙ there in
          rw (lookup-insert b k y states) (rw hit (rw here (omega arith)))
      | inr miss ↦ rw (lookup-insert b k y states) (rw miss (omega arith))
    ]

get_row-Passes :
    (b k now : ℕ) (o : Option RegistrationState) (states : Registrations)
    → IsSound states
    → Passes b 0 0 states (get_row k now o states).1
get_row-Passes b k now none states s = (omega arith, s)
get_row-Passes b k now (some x) states s = elim (Bool-cases (is_late now x)) [
  | inl late ↦ rw late (erases b k states s)
  | inr fresh ↦ rw fresh (omega arith, s)
]

mark_failed_row-Passes :
    (b k now : ℕ) (o : Option RegistrationState) (states : Registrations)
    → lookup k states ≡ o
    → IsSound states
    → Passes b 0 0 states (mark_failed_row k now o states)
mark_failed_row-Passes b k now none states e s = erases b k states s
mark_failed_row-Passes b k now (some x) states e s = elim (Bool-cases (is_late now x)) [
  | inl late ↦ rw late (erases b k states s)
  | inr fresh ↦ rw fresh (rewrites b k x (tried_once x) states e (omega arith) s)
]

consumed_if_there :
    (b k now : ℕ) (o : Option RegistrationState)
    → one_if (k == b && is_some (unless_late now o)) ≤ one_if (k == b && is_some o)
consumed_if_there b k now none = omega arith
consumed_if_there b k now (some x) = elim (Bool-cases (k == b)) [
  | inl hit ↦ elim (Bool-cases (is_late now x)) [
    | inl late ↦ rw (hit, late) (omega arith)
    | inr fresh ↦ rw (hit, fresh) (omega arith)
  ]
  | inr miss ↦ rw miss (omega arith)
]

call-Passes :
    (b : ℕ) (c : StoreCall) (states : Registrations)
    → IsSound states
    → Passes b (consumed_by b c states) (issued_by b c) states (call c states)
unfolding issue get mark_failed consume
call-Passes b (issues lifetime id nonce account x issued_at) states s =
    let challenge = new_challenge lifetime id nonce account x issued_at in
    let row : RegistrationState = record {
      challenge = challenge;
      public_key_spki = x.public_key_spki;
      label = x.label;
      attempts = 0;
    } in
    let fewer = pending-insert b id row states in
    (omega arith, insert-IsSound id row states (omega arith) s)
call-Passes b (gets id now) states s = get_row-Passes b id now (lookup id states) states s
call-Passes b (fails id now) states s =
    mark_failed_row-Passes b id now (lookup id states) states refl s
call-Passes b (consumes id now) states s =
    let there = consumed_if_there b id now (lookup id states) in
    let fewer = pending-erase b id states s.0 in (omega arith, erase-IsSound id states s)

-- A registration challenge is returned consumed at most as often as it is issued or was pending at the
-- start, over any sequence of calls of the store, at any times: once, since each identifier is drawn
-- once. What is still pending at the end counts, too: a consumed challenge is gone. And no challenge
-- ever counts more than ten failed tries. The store is a dictionary, whose keys are unique, and starts
-- with no challenge over ten tries.
pub calls-consumptions :
    (b : ℕ) (cs : List StoreCall) (states : Registrations)
    → IsSound states
    → (consumptions b cs states + pending b (calls cs states) ≤ issuances b cs + pending b states)
      × IsSound (calls cs states)
unfolding calls issuances consumptions
calls-consumptions b [] states s = (omega arith, s)
calls-consumptions b (c ∷ cs) states s =
    let first = call-Passes b c states s in
    let rest = calls-consumptions b cs (call c states) first.1 in
    let now_ = first.0 in let later = rest.0 in (omega arith, rest.1)
