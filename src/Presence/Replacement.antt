-- ===== src/Presence/Replacement.antt =====
-- Which socket is the current one of its device, and what a socket that is not current can still do.
use self_relay.Base.{
  ℕ, ◌≡◌, ◌≢◌, refl, ap, ◌∙◌, false, Option, none, some, ◌==◌, inl, inr, Bool-cases, arith,
}
use self_relay.Base.Dict.{
  lookup, insert, erase, values, IsUnique, lookup-insert_self, lookup-erase_self,
}
use self_relay.Presence.State.{ActiveConnection, Manager}
use self_relay.Presence.Connections.{
  or_empty, sockets_of, register, remove, is_current, heartbeat, beat, session_holds,
  connection_for, disconnect_device, disconnect_account,
}
use self_relay.Presence.Limits.Sweep.{connections-close_each}
use self_relay.Presence.Queues.Steps.{outbound-disconnect_account}

-- Without a current socket under its keys, `remove` does nothing.
remove-not_current :
    (c : ActiveConnection) (m : Manager)
    → is_current c (connection_for c.account_id c.device_id m) ≡ false
    → remove c m ≡ (false, m)
unfolding remove connection_for
remove-not_current c m e = rw e refl

is_current-other :
    (old c : ActiveConnection) (o : Option ActiveConnection)
    → o ≡ some c
    → old.id ≢ c.id
    → is_current old o ≡ false
is_current-other old c o e other = rw e (ground arith)

beat-other :
    (now : ℕ) (old c : ActiveConnection) (o : Option ActiveConnection) (m : Manager)
    → o ≡ some c
    → old.id ≢ c.id
    → beat now old o m ≡ (none, m)
beat-other now old c o m e other =
    let differ : c.id == old.id ≡ false = ground arith in rw (e, differ) refl

-- A socket that another one of its device has replaced.
heartbeat-replaced :
    (now : ℕ) (session_owner : Option (Option ℕ)) (old c : ActiveConnection) (m : Manager)
    → connection_for old.account_id old.device_id m ≡ some c
    → old.id ≢ c.id
    → heartbeat now session_owner old m ≡ (none, m)
unfolding heartbeat connection_for
heartbeat-replaced now session_owner old c m e other =
    elim (Bool-cases (session_holds old session_owner)) [
      | inl current ↦
          rw current
            (beat-other now old c (connection_for old.account_id old.device_id m) m e other)
      | inr gone ↦ rw gone (
          ap (λ p. (none, p.1))
            (remove-not_current old m
              (is_current-other old c (connection_for old.account_id old.device_id m) e other)))
    ]

connection_for-register :
    (c old : ActiveConnection) (m : Manager)
    → connection_for c.account_id c.device_id m ≡ some old
    → connection_for c.account_id c.device_id (register c m).1 ≡ some c
unfolding register connection_for
connection_for-register c old m e = rw e (
    ap (λ o. lookup c.device_id (or_empty o))
      (lookup-insert_self c.account_id
        (insert c.device_id c (sockets_of c.account_id m.connections)) m.connections)
    ∙ lookup-insert_self c.device_id c (sockets_of c.account_id m.connections))

-- A socket that registers for a device with a socket takes its place: it becomes the device's socket
-- whatever the limits, and if the two have different ids, then a late cleanup or heartbeat of the
-- replaced one finds that it is not current and changes nothing.
pub register-replaces :
    (c old : ActiveConnection) (now : ℕ) (session_owner : Option (Option ℕ)) (m : Manager)
    → connection_for c.account_id c.device_id m ≡ some old
    → old.account_id ≡ c.account_id
    → old.device_id ≡ c.device_id
    → old.id ≢ c.id
    → (connection_for c.account_id c.device_id (register c m).1 ≡ some c)
      × (remove old (register c m).1 ≡ (false, (register c m).1))
      × (heartbeat now session_owner old (register c m).1 ≡ (none, (register c m).1))
register-replaces c old now session_owner m e account device other =
    let current : connection_for c.account_id c.device_id (register c m).1 ≡ some c =
      connection_for-register c old m e in
    let its : connection_for old.account_id old.device_id (register c m).1 ≡ some c =
      ap (λ a. connection_for a old.device_id (register c m).1) account
      ∙ ap (λ d. connection_for c.account_id d (register c m).1) device
      ∙ current in
    (
      current,
      remove-not_current old (register c m).1 (
          is_current-other old c (connection_for old.account_id old.device_id (register c m).1) its
            other),
      heartbeat-replaced now session_owner old c (register c m).1 its other,
    )

connection_for-disconnect_account :
    (a k : ℕ) (m : Manager)
    → IsUnique m.connections
    → connection_for a k (disconnect_account a m) ≡ none
unfolding disconnect_account connection_for lookup
connection_for-disconnect_account a k m unique =
    ap (λ cs. lookup k (or_empty (lookup a cs)))
      (connections-close_each 1008 (values (sockets_of a m.connections))
        (record m { connections = erase a m.connections }))
    ∙ ap (λ o. lookup k (or_empty o)) (lookup-erase_self a m.connections unique)

-- `disconnect_device` takes a socket's queue out with the socket, where `disconnect_account` leaves
-- every queue where it is, and none of the sockets of the account that is gone can take its own out
-- later: `remove` does nothing for them.
pub disconnections-queues :
    (a k : ℕ) (c : ActiveConnection) (m : Manager)
    → IsUnique m.connections
    → IsUnique m.outbound
    → connection_for a k m ≡ some c
    → c.account_id ≡ a
    → (lookup c.id (disconnect_device a k m).outbound ≡ none)
      × ((disconnect_account a m).outbound ≡ m.outbound)
      × (remove c (disconnect_account a m) ≡ (false, disconnect_account a m))
unfolding disconnect_device connection_for
disconnections-queues a k c m unique queues e own = (
  rw e (lookup-erase_self c.id m.outbound queues),
  outbound-disconnect_account a m,
  remove-not_current c (disconnect_account a m) (
      ap (λ b. is_current c (connection_for b c.device_id (disconnect_account a m))) own
      ∙ ap (is_current c) (connection_for-disconnect_account a c.device_id m unique)),
)
