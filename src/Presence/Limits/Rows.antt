-- ===== src/Presence/Limits/Rows.antt =====
-- The dictionary of sockets under its limits, and the two ways it is written.
use self_relay.Base.{
  ℕ, ◌+◌, ◌≤◌, ◌≡◌, refl, Option, none, some, [], ◌∷◌, inl, inr, length, Bool-cases, Holds, arith,
}
use self_relay.Base.Dict.{
  Dict, lookup, insert, erase, IsUnique, All, All-lookup, All-insert, All-erase, insert-IsUnique,
  erase-IsUnique,
}
use self_relay.Base.Counts.{sum_of, weight, sum_of-insert, sum_of-erase, length-erase_le}
use self_relay.Presence.State.{ActiveConnection, Connections}
use self_relay.Presence.Connections.{
  or_empty, sockets_of, active_socket_count, store_entry, on_time, is_late, keep_entry,
}

abbrev pub IsStoredAt : (account_id device_id : ℕ) → ActiveConnection → Type 0
IsStoredAt a d c = (c.account_id ≡ a) × (c.device_id ≡ d)

-- One account's sockets: at most 8, one for a device, each under its own account and device.
abbrev pub IsRows : (account_id : ℕ) → Dict ActiveConnection → Type 0
IsRows a d = (length d ≤ 8) × IsUnique d × All (IsStoredAt a) d

-- No account has an empty entry.
abbrev pub IsEntry : (account_id : ℕ) → Dict ActiveConnection → Type 0
IsEntry a d = (1 ≤ length d) × IsRows a d

abbrev pub IsBounded : Connections → Type 0
IsBounded cs = All IsEntry cs × IsUnique cs × (active_socket_count cs ≤ 512)

or_empty-IsRows :
    (a : ℕ) (o : Option (Dict ActiveConnection)) → Holds (IsEntry a) o → IsRows a (or_empty o)
or_empty-IsRows a none h = ground arith
or_empty-IsRows a (some d) h = h.1

pub sockets_of-IsRows : (a : ℕ) (cs : Connections) → All IsEntry cs → IsRows a (sockets_of a cs)
sockets_of-IsRows a cs all = or_empty-IsRows a (lookup a cs) (All-lookup IsEntry a cs all)

weight-or_empty :
    (o : Option (Dict ActiveConnection))
    → weight (λ (d : Dict ActiveConnection). length d) o ≡ length (or_empty o)
weight-or_empty none = refl
weight-or_empty (some d) = refl

-- A write keeps the limits when the new sockets fit in place of the account's old ones.
pub store_entry-IsBounded :
    (a : ℕ) (d : Dict ActiveConnection) (cs : Connections)
    → IsBounded cs
    → IsRows a d
    → length d + active_socket_count cs ≤ 512 + length (sockets_of a cs)
    → IsBounded (store_entry a d cs)
unfolding active_socket_count
store_entry-IsBounded a [] cs b rows fits =
    let taken = sum_of-erase (λ (d : Dict ActiveConnection). length d) a cs in
    (All-erase IsEntry a cs b.0, erase-IsUnique a cs b.1, omega arith)
store_entry-IsBounded a (x ∷ d) cs b rows fits =
    let moved = sum_of-insert (λ (d : Dict ActiveConnection). length d) a (x ∷ d) cs in
    let old = weight-or_empty (lookup a cs) in
    (
      All-insert IsEntry a (x ∷ d) cs (ground arith, rows) b.0,
      insert-IsUnique a (x ∷ d) cs b.1,
      omega arith,
    )

-- The sockets left after one is taken out.
pub erase-IsRows : (a k : ℕ) (d : Dict ActiveConnection) → IsRows a d → IsRows a (erase k d)
erase-IsRows a k d rows =
    let shorter = length-erase_le k d in
    (omega arith, erase-IsUnique k d rows.1, All-erase (IsStoredAt a) k d rows.2)

-- The sockets with one put in, for a device that has one already or into a free place.
pub insert-IsRows :
    (a k : ℕ) (c : ActiveConnection) (d : Dict ActiveConnection)
    → IsStoredAt a k c
    → length (insert k c d) ≤ 8
    → IsRows a d
    → IsRows a (insert k c d)
insert-IsRows a k c d stored fits rows =
    (fits, insert-IsUnique k c d rows.1, All-insert (IsStoredAt a) k c d stored rows.2)

pub lookup-on_time :
    (timeout now k : ℕ) (d : Dict ActiveConnection)
    → lookup k d ≡ none
    → lookup k (on_time timeout now d) ≡ none
unfolding lookup on_time
lookup-on_time timeout now k [] h = refl
lookup-on_time timeout now k ((j, c) ∷ d) h = ground (arith, lookup-on_time timeout now k d)

pub on_time-IsRows :
    (timeout now a : ℕ) (d : Dict ActiveConnection)
    → IsRows a d
    → IsRows a (on_time timeout now d) × (length (on_time timeout now d) ≤ length d)
unfolding on_time
on_time-IsRows timeout now a [] rows = (rows, ground arith)
on_time-IsRows timeout now a ((j, c) ∷ d) rows =
    let more = on_time-IsRows timeout now a d (omega arith, rows.1.1, rows.2.1) in
    elim (Bool-cases (is_late timeout now c)) [
      | inl gone ↦ rw gone (more.0, omega arith)
      | inr kept ↦ rw kept (
        (omega arith, (lookup-on_time timeout now j d rows.1.0, more.0.1), (rows.2.0, more.0.2)),
        omega arith,
      )
    ]

pub keep_entry-IsBounded :
    (a : ℕ) (d : Dict ActiveConnection) (cs : Connections)
    → IsRows a d
    → (lookup a cs ≡ none)
    → IsBounded cs
    → length d + active_socket_count cs ≤ 512
    → IsBounded (keep_entry a d cs)
unfolding active_socket_count sum_of
keep_entry-IsBounded a [] cs rows new b fits = b
keep_entry-IsBounded a (x ∷ d) cs rows new b fits = (((ground arith, rows), b.0), (new, b.1), fits)
