-- ===== src/Presence/Connections.antt =====
-- Sockets: `register`, `remove`, `heartbeat`, `prune_expired` and the disconnections.
use self_relay.Base.{
  ℕ, ◌+◌, Bool, true, false, ◌&&◌, not, Option, none, some, List, [], ◌∷◌, ◌++◌, ◌==◌, ltb, leb,
  if◌then◌else◌, length, is_some,
}
use self_relay.Base.Dict.{Dict, lookup, insert, erase, values}
use self_relay.Base.Counts.{sum_of}
use self_relay.Presence.State.{
  ActiveConnection, Connections, Manager, OutboundQueue, new_queue, closed, counted,
  socket_connection_rejected, socket_registered, socket_heartbeat_timeout, log_effect,
  max_connections_per_account, max_total_connections,
}

pub data Registered : Type 0 where
  limit_error : Registered
  replaced : Option ActiveConnection → Registered

abbrev pub or_empty : Option (Dict ActiveConnection) → Dict ActiveConnection
or_empty none = []
or_empty (some sockets) = sockets

-- `self._connections.get(account_id, {})`
abbrev pub sockets_of : ℕ → Connections → Dict ActiveConnection
sockets_of account_id cs = or_empty (lookup account_id cs)

unfoldable pub active_socket_count : Connections → ℕ
unfolding sum_of
active_socket_count cs = sum_of (λ (d : Dict ActiveConnection). length d) cs

abbrev pub has_connection_capacity : Dict ActiveConnection → Connections → Bool
has_connection_capacity account_connections cs =
    ltb (length account_connections) max_connections_per_account
    && ltb (active_socket_count cs) max_total_connections

-- `self._outbound.pop(previous.id, None)` for the socket that is replaced
abbrev pub drop_queue : Option ActiveConnection → Dict OutboundQueue → Dict OutboundQueue
drop_queue none outbound = outbound
drop_queue (some c) outbound = erase c.id outbound

abbrev pub admit : ActiveConnection → Option ActiveConnection → Manager → Manager
admit c previous m = log_effect (counted socket_registered 1) (record m {
  connections =
      insert c.account_id (insert c.device_id c (sockets_of c.account_id m.connections))
        m.connections;
  outbound = insert c.id new_queue (drop_queue previous m.outbound);
})

-- The empty dict that `setdefault` puts in is taken out again when the socket is refused.
unfoldable pub register : ActiveConnection → Manager → Registered × Manager
unfolding active_socket_count
register c m =
    let previous : Option ActiveConnection =
      lookup c.device_id (sockets_of c.account_id m.connections) in
    if not (is_some previous)
      && not (has_connection_capacity (sockets_of c.account_id m.connections) m.connections)
    then (limit_error, log_effect (counted socket_connection_rejected 1) m)
    else (replaced previous, admit c previous m)

-- The account's sockets after a removal: its entry goes with the last of them.
abbrev pub store_entry : ℕ → Dict ActiveConnection → Connections → Connections
store_entry account_id [] cs = erase account_id cs
store_entry account_id (c ∷ rest) cs = insert account_id (c ∷ rest) cs

-- `del account_connections[device_id]`, and the account's entry with the last of them
abbrev pub without_device : ℕ → ℕ → Dict ActiveConnection → Connections → Connections
without_device account_id device_id sockets cs = store_entry account_id (erase device_id sockets) cs

abbrev pub is_current : ActiveConnection → Option ActiveConnection → Bool
is_current c none = false
is_current c (some current) = current.id == c.id

unfoldable pub remove : ActiveConnection → Manager → Bool × Manager
remove c m =
    if is_current c (lookup c.device_id (sockets_of c.account_id m.connections))
    then (
      true,
      record m {
        connections =
            without_device c.account_id c.device_id (sockets_of c.account_id m.connections)
              m.connections;
        outbound = erase c.id m.outbound;
      },
    )
    else (false, m)

-- `heartbeat`: `session_owner` is the account of the current session, if the manager has a session
-- repository: `none` if it has none, `some none` if the session is gone.
abbrev pub session_holds : ActiveConnection → Option (Option ℕ) → Bool
session_holds c none = true
session_holds c (some none) = false
session_holds c (some (some owner)) = owner == c.account_id

abbrev pub beat :
    (now : ℕ)
    → ActiveConnection
    → Option ActiveConnection
    → Manager
    → Option ActiveConnection × Manager
beat now c none m = (none, m)
beat now c (some current) m =
    if current.id == c.id
    then (
      some (record current { last_heartbeat_at = now }),
      record m {
        connections =
            insert c.account_id
              (insert c.device_id (record current { last_heartbeat_at = now })
                (sockets_of c.account_id m.connections))
              m.connections;
      },
    )
    else (none, m)

unfoldable pub heartbeat :
    (now : ℕ) → Option (Option ℕ) → ActiveConnection → Manager → Option ActiveConnection × Manager
unfolding remove
heartbeat now session_owner c m =
    if session_holds c session_owner
    then beat now c (lookup c.device_id (sockets_of c.account_id m.connections)) m
    else (none, (remove c m).1)

-- The inner loop of `prune_expired`: the sockets that are kept and those that are late.
abbrev pub is_late : (timeout now : ℕ) → ActiveConnection → Bool
is_late timeout now c = leb (c.last_heartbeat_at + timeout) now

unfoldable pub on_time : (timeout now : ℕ) → Dict ActiveConnection → Dict ActiveConnection
on_time timeout now [] = []
on_time timeout now ((d, c) ∷ rest) =
    let kept = on_time timeout now rest in if is_late timeout now c then kept else (d, c) ∷ kept

unfoldable pub late : (timeout now : ℕ) → Dict ActiveConnection → List ActiveConnection
late timeout now [] = []
late timeout now ((d, c) ∷ rest) =
    let more = late timeout now rest in if is_late timeout now c then c ∷ more else more

-- An account whose last socket went loses its entry.
abbrev pub keep_entry : ℕ → Dict ActiveConnection → Connections → Connections
keep_entry account_id [] rest = rest
keep_entry account_id (c ∷ cs) rest = (account_id, c ∷ cs) ∷ rest

unfoldable pub prune_all : (timeout now : ℕ) → Connections → Connections
unfolding on_time
prune_all timeout now [] = []
prune_all timeout now ((a, cs) ∷ rest) =
    keep_entry a (on_time timeout now cs) (prune_all timeout now rest)

unfoldable pub late_all : (timeout now : ℕ) → Connections → List ActiveConnection
unfolding late
late_all timeout now [] = []
late_all timeout now ((a, cs) ∷ rest) = late timeout now cs ++ late_all timeout now rest

abbrev pub prune_one :
    (timeout now account_id : ℕ) → Option (Dict ActiveConnection) → Connections → Connections
prune_one timeout now account_id none cs = cs
prune_one timeout now account_id (some sockets) cs =
    store_entry account_id (on_time timeout now sockets) cs

-- The loop over the late sockets: their queues are dropped and they are closed with 4008.
unfoldable pub close_late : List ActiveConnection → Manager → Manager
close_late [] m = m
close_late (c ∷ cs) m = close_late cs (
    log_effect (closed c.id 4008) (
      log_effect (counted socket_heartbeat_timeout 1)
        (record m { outbound = erase c.id m.outbound })))

-- `prune_expired` up to its last line, which prunes the signaling state.
unfoldable pub prune_sockets : (now : ℕ) → Option ℕ → Manager → Manager
unfolding prune_all late_all close_late on_time late
prune_sockets now none m =
    close_late (late_all m.heartbeat_timeout now m.connections)
      (record m { connections = prune_all m.heartbeat_timeout now m.connections })
prune_sockets now (some a) m =
    close_late (late m.heartbeat_timeout now (sockets_of a m.connections)) (record m {
      connections = prune_one m.heartbeat_timeout now a (lookup a m.connections) m.connections;
    })

abbrev pub disconnect : ℕ → ℕ → Option ActiveConnection → Manager → Manager
disconnect account_id device_id none m = m
disconnect account_id device_id (some c) m = log_effect (closed c.id 1008) (record m {
  connections =
      without_device account_id device_id (sockets_of account_id m.connections) m.connections;
  outbound = erase c.id m.outbound;
})

-- `disconnect_device`, up to the broadcast that ends it
unfoldable pub disconnect_device : (account_id device_id : ℕ) → Manager → Manager
disconnect_device account_id device_id m =
    disconnect account_id device_id (lookup device_id (sockets_of account_id m.connections)) m

unfoldable pub close_each : (code : ℕ) → List ActiveConnection → Manager → Manager
close_each code [] m = m
close_each code (c ∷ cs) m = close_each code cs (log_effect (closed c.id code) m)

unfoldable pub disconnect_account : (account_id : ℕ) → Manager → Manager
unfolding close_each values
disconnect_account account_id m =
    close_each 1008 (values (sockets_of account_id m.connections))
      (record m { connections = erase account_id m.connections })

unfoldable pub all_sockets : Connections → List ActiveConnection
unfolding values
all_sockets [] = []
all_sockets ((a, cs) ∷ rest) = values cs ++ all_sockets rest

unfoldable pub close_all : Manager → Manager
unfolding close_each all_sockets
close_all m =
    close_each 1001 (all_sockets m.connections)
      (record m { connections = []; outbound = []; signaling = []; account_totals = [] })

-- `connection_for`, after its pruning
unfoldable pub connection_for : (account_id device_id : ℕ) → Manager → Option ActiveConnection
connection_for account_id device_id m = lookup device_id (sockets_of account_id m.connections)
