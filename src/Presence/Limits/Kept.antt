-- ===== src/Presence/Limits/Kept.antt =====
-- The writes of the manager's sections keep the limits.
use self_relay.Base.{
  ℕ, ◌∙◌, ◌+◌, ◌≤◌, ◌≡◌, refl, Option, none, some, [], ◌∷◌, inl, inr, ◌==◌, length, Bool-cases,
  Option-cases, Holds, arith,
}
use self_relay.Base.Dict.{Dict, lookup, insert, erase, All-lookup}
use self_relay.Base.Counts.{length-insert, length-erase_le}
use self_relay.Presence.State.{ActiveConnection, Connections, Manager}
use self_relay.Presence.Connections.{
  sockets_of, active_socket_count, has_connection_capacity, store_entry, register, remove,
  heartbeat, beat, session_holds, is_current,
}
use self_relay.Presence.Limits.Rows.{
  IsStoredAt, IsRows, IsBounded, sockets_of-IsRows, store_entry-IsBounded, erase-IsRows,
  insert-IsRows,
}

length-insert_new :
    (k : ℕ) (c : ActiveConnection) (d : Dict ActiveConnection)
    → lookup k d ≡ none
    → length (insert k c d) ≡ length d + 1
length-insert_new k c d e = length-insert k c d ∙ (rw e refl)

length-insert_old :
    (k : ℕ) (c old : ActiveConnection) (d : Dict ActiveConnection)
    → lookup k d ≡ some old
    → length (insert k c d) ≡ length d
length-insert_old k c old d e = length-insert k c d ∙ (rw e refl)

length-insert_positive :
    (k : ℕ) (c : ActiveConnection) (d : Dict ActiveConnection) → 1 ≤ length (insert k c d)
unfolding insert
length-insert_positive k c [] = ground arith
length-insert_positive k c ((j, x) ∷ d) = ground arith

write-IsBounded :
    (a : ℕ) (d : Dict ActiveConnection) (cs : Connections)
    → IsBounded cs
    → IsRows a d
    → 1 ≤ length d
    → length d + active_socket_count cs ≤ 512 + length (sockets_of a cs)
    → IsBounded (insert a d cs)
write-IsBounded a [] cs b rows some_left fits = ground arith
write-IsBounded a (x ∷ d) cs b rows some_left fits = store_entry-IsBounded a (x ∷ d) cs b rows fits

-- Putting in a socket under its own keys.
put-IsBounded :
    (a k : ℕ) (c : ActiveConnection) (cs : Connections)
    → IsStoredAt a k c
    → IsBounded cs
    → length (insert k c (sockets_of a cs)) ≤ 8
    → length (insert k c (sockets_of a cs)) + active_socket_count cs
      ≤ 512 + length (sockets_of a cs)
    → IsBounded (insert a (insert k c (sockets_of a cs)) cs)
put-IsBounded a k c cs own b few fits =
    write-IsBounded a (insert k c (sockets_of a cs)) cs b
      (insert-IsRows a k c (sockets_of a cs) own few (sockets_of-IsRows a cs b.0))
      (length-insert_positive k c (sockets_of a cs)) fits

-- A socket in the place of another of the same device.
replace-IsBounded :
    (a k : ℕ) (c old : ActiveConnection) (cs : Connections)
    → IsStoredAt a k c
    → lookup k (sockets_of a cs) ≡ some old
    → IsBounded cs
    → IsBounded (insert a (insert k c (sockets_of a cs)) cs)
replace-IsBounded a k c old cs own e b =
    let same = length-insert_old k c old (sockets_of a cs) e in
    let rows = sockets_of-IsRows a cs b.0 in
    put-IsBounded a k c cs own b (omega arith) (omega arith)

pub register-IsBounded :
    (c : ActiveConnection) (m : Manager)
    → IsBounded m.connections
    → IsBounded (register c m).1.connections
unfolding register
register-IsBounded c m b =
    elim (Option-cases (lookup c.device_id (sockets_of c.account_id m.connections))) [
      | inl e ↦
          let longer = length-insert_new c.device_id c (sockets_of c.account_id m.connections) e in
          elim (Bool-cases
            (has_connection_capacity (sockets_of c.account_id m.connections) m.connections)) [
              | inl free ↦
                  rw (e, free)
                    (put-IsBounded c.account_id c.device_id c m.connections (refl, refl) b
                      (ground arith) (ground arith))
              | inr full ↦ rw (e, full) b
            ]
      | inr (old, e) ↦
          rw e (replace-IsBounded c.account_id c.device_id c old m.connections (refl, refl) e b)
    ]

pub take-IsBounded :
    (a k : ℕ) (cs : Connections)
    → IsBounded cs
    → IsBounded (store_entry a (erase k (sockets_of a cs)) cs)
take-IsBounded a k cs b =
    let shorter = length-erase_le k (sockets_of a cs) in
    store_entry-IsBounded a (erase k (sockets_of a cs)) cs b
      (erase-IsRows a k (sockets_of a cs) (sockets_of-IsRows a cs b.0)) (omega arith)

pub remove-IsBounded :
    (c : ActiveConnection) (m : Manager)
    → IsBounded m.connections
    → IsBounded (remove c m).1.connections
unfolding remove
remove-IsBounded c m b =
    elim (Bool-cases (is_current c (lookup c.device_id (sockets_of c.account_id m.connections)))) [
      | inl current ↦ rw current (take-IsBounded c.account_id c.device_id m.connections b)
      | inr other ↦ rw other b
    ]

beat-IsBounded :
    (now : ℕ) (c : ActiveConnection) (o : Option ActiveConnection) (m : Manager)
    → lookup c.device_id (sockets_of c.account_id m.connections) ≡ o
    → Holds (IsStoredAt c.account_id c.device_id) o
    → IsBounded m.connections
    → IsBounded (beat now c o m).1.connections
beat-IsBounded now c none m e stored b = b
beat-IsBounded now c (some current) m e stored b = elim (Bool-cases (current.id == c.id)) [
  | inl same ↦ rw same (
      replace-IsBounded c.account_id c.device_id (record current { last_heartbeat_at = now })
        current m.connections stored e b)
  | inr other ↦ rw other b
]

pub heartbeat-IsBounded :
    (now : ℕ) (owner : Option (Option ℕ)) (c : ActiveConnection) (m : Manager)
    → IsBounded m.connections
    → IsBounded (heartbeat now owner c m).1.connections
unfolding heartbeat
heartbeat-IsBounded now owner c m b = elim (Bool-cases (session_holds c owner)) [
  | inl current ↦ rw current (
      beat-IsBounded now c (lookup c.device_id (sockets_of c.account_id m.connections)) m refl
        (All-lookup (IsStoredAt c.account_id) c.device_id (sockets_of c.account_id m.connections)
          (sockets_of-IsRows c.account_id m.connections b.0).2)
        b)
  | inr gone ↦ rw gone (remove-IsBounded c m b)
]
