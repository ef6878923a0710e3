-- ===== src/Presence/Swept.antt =====
-- What a sweep of `prune_expired` leaves.
use self_relay.Base.{
  ℕ, ◌≡◌, ◌+◌, refl, ap, sym, ◌∙◌, Option, none, some, [], ◌∷◌, ◌==◌, leb, if◌then◌else◌, inl, inr,
  Bool-cases, arith,
}
use self_relay.Base.Dict.{Dict, lookup, IsUnique}
use self_relay.Presence.State.{ActiveConnection, Connections, Manager}
use self_relay.Presence.Connections.{
  or_empty, sockets_of, on_time, is_late, prune_all, keep_entry, late_all, prune_sockets,
  connection_for,
}
use self_relay.Presence.Limits.Rows.{IsBounded, lookup-on_time, sockets_of-IsRows}
use self_relay.Presence.Limits.Sweep.{lookup-prune_all, connections-close_late}

-- The socket, unless its last heartbeat was `timeout` or more before `now`.
abbrev pub unless_late : (timeout now : ℕ) → Option ActiveConnection → Option ActiveConnection
unless_late timeout now none = none
unless_late timeout now (some c) = if leb (c.last_heartbeat_at + timeout) now then none else some c

on_time-unless_late :
    (timeout now k : ℕ) (d : Dict ActiveConnection)
    → IsUnique d
    → lookup k (on_time timeout now d) ≡ unless_late timeout now (lookup k d)
unfolding lookup on_time
on_time-unless_late timeout now k [] u = refl
on_time-unless_late timeout now k ((j, c) ∷ d) u =
    let rest = on_time-unless_late timeout now k d u.1 in
    elim (Bool-cases (j == k)) [
      | inl hit ↦
          let key : j ≡ k = ground arith in
          let none_else : lookup k d ≡ none = ap (λ i. lookup i d) (sym key) ∙ u.0 in
          elim (Bool-cases (is_late timeout now c)) [
            | inl gone ↦ rw (hit, gone) (lookup-on_time timeout now k d none_else)
            | inr kept ↦ rw (hit, kept) (rw hit refl)
          ]
      | inr miss ↦ elim (Bool-cases (is_late timeout now c)) [
        | inl gone ↦ rw (miss, gone) rest
        | inr kept ↦ rw (miss, kept) (rw miss rest)
      ]
    ]

sockets_of-keep_entry :
    (a j : ℕ) (d : Dict ActiveConnection) (cs : Connections)
    → lookup j cs ≡ none
    → sockets_of a (keep_entry j d cs) ≡ (if j == a then d else sockets_of a cs)
unfolding lookup
sockets_of-keep_entry a j [] cs new = elim (Bool-cases (j == a)) [
  | inl hit ↦
      let key : j ≡ a = ground arith in rw hit (ap or_empty (ap (λ i. lookup i cs) (sym key) ∙ new))
  | inr miss ↦ rw miss refl
]
sockets_of-keep_entry a j (x ∷ d) cs new = elim (Bool-cases (j == a)) [
  | inl hit ↦ rw hit refl
  | inr miss ↦ rw miss refl
]

sockets_of-prune_all :
    (timeout now a : ℕ) (cs : Connections)
    → IsUnique cs
    → sockets_of a (prune_all timeout now cs) ≡ on_time timeout now (sockets_of a cs)
unfolding prune_all lookup on_time
sockets_of-prune_all timeout now a [] u = refl
sockets_of-prune_all timeout now a ((j, d) ∷ cs) u =
    let entry =
      sockets_of-keep_entry a j (on_time timeout now d) (prune_all timeout now cs)
        (lookup-prune_all timeout now j cs u.0) in
    let rest = sockets_of-prune_all timeout now a cs u.1 in
    elim (Bool-cases (j == a)) [
      | inl hit ↦ entry ∙ (rw hit refl)
      | inr miss ↦ entry ∙ (rw miss rest)
    ]

-- A sweep of all accounts takes out exactly the sockets that have missed their heartbeat window: on a
-- manager within its limits, the socket of any device of any account is the one it was, if its last
-- heartbeat and the timeout add up to more than `now`, and none otherwise.
pub prune_sockets-connection_for :
    (now a k : ℕ) (m : Manager)
    → IsBounded m.connections
    → connection_for a k (prune_sockets now none m)
      ≡ unless_late m.heartbeat_timeout now (connection_for a k m)
unfolding prune_sockets connection_for
prune_sockets-connection_for now a k m b =
    ap (λ cs. lookup k (sockets_of a cs))
      (connections-close_late (late_all m.heartbeat_timeout now m.connections)
        (record m { connections = prune_all m.heartbeat_timeout now m.connections }))
    ∙ ap (lookup k) (sockets_of-prune_all m.heartbeat_timeout now a m.connections b.1)
    ∙ on_time-unless_late m.heartbeat_timeout now k (sockets_of a m.connections)
        (sockets_of-IsRows a m.connections b.0).1
