-- ===== src/Lib.antt =====
-- SelfRelay's control plane (backend/app), the part of the program that decides: which transfers may
-- change and how, which sockets and signaling messages the server admits, how often a caller may try,
-- who may redeem a linking code, a challenge or a ticket, what opens and ends a session, and what the
-- retention job deletes.
--
-- Base            names and lemmas that every part shares, with dictionaries and sums over them
-- Records         the records of backend/app/repositories/models.py
-- Transfers       backend/app/repositories/transfers.py, in memory (Memory, Operations) and in SQL
--                 (Sql), and backend/app/transfers.py (Port, Service). The service works on a record of
--                 operations with laws, TransferPort, which MemoryPort fills with the in-memory
--                 repository.
-- Presence        `PresenceManager` of backend/app/presence.py: sockets (Connections), their queues and
--                 writers (Outbound) and the signaling budgets (Signaling). Sections lists the calls
--                 that take the manager's lock; a sequence of them is an interleaving of tasks.
-- RateLimits      `RateLimitBucketRepository` of backend/app/repositories/rate_limits.py
-- Linking         `DeviceLinkingOtpRepository` of backend/app/repositories/device_linking_otps.py
-- Challenges      `DeviceChallengeRepository` of backend/app/repositories/challenges.py
-- Identity        `AccountRepository`, `DeviceRepository`, `SessionRepository` and
--                 `WebSocketTicketRepository` of backend/app/repositories, as functions of one database.
--                 Steps lists the statements and transactions that change it.
-- Sessions        backend/app/sessions.py: `SessionService` over any repository (Service), whose theorems
--                 are about it on the SQL repository of Identity, and the in-memory repository (Memory)
-- DeviceAuth      backend/app/device_auth.py: the store of registration challenges (Registrations), the
--                 login of a device (Login), the issue of linking codes (LinkingOtp) and the end of a
--                 registration (Enrollment), on the SQL repositories of Identity, Challenges and Linking
--                 and on the session service
-- Cleanup         backend/app/repositories/cleanup.py: a batch on one table (Batch), and which rows of
--                 each table are past their retention (Retention), in the code's words and, in Past, in the
--                 tables'; the tickets that go with their sessions are in Cascade
-- Devices         `InMemoryDeviceRepository` of backend/app/repositories/devices.py (Memory)
-- TicketStore     `InMemoryWebSocketTicketRepository` of backend/app/repositories/websocket_tickets.py
--
-- How the parts meet: the transfer service reads devices, writes transfers through its repository, and
-- tells the presence manager to notify and to release a transfer; both are entries of the service's log
-- here. The presence manager charges signaling messages to the account of the transfer they are about.
-- Device authentication reads and writes the tables of the repositories and opens a session through the
-- session service; ending a device's sessions is one transaction of the device repository.
--
-- Correspondence. Functions, fields and constructors keep the names of the code. State is passed on:
-- an operation takes the state (tables, dictionaries, counters) and returns its result with the new one.
-- A lock section or an SQL statement is one function, since nothing comes between its reads and writes;
-- the two statements of a transaction are one function too. `None` is `none`; an exception is a result
-- of its own (`err`, `raised`, `value_error`, `limit_error`). Calls of the metrics, of a socket's close
-- and of notifications are entries of a log.
--
-- Numbers. Identifiers, digests and keys, which the code only compares and copies, are numbers, and so
-- are instants, in microseconds since the epoch, and durations. Python's integers have no bound, so
-- there is no wrap-around; a difference that the code keeps from going below zero is the one of ℕ, which
-- stops there, and is commented where it is used. Clocks and generated identifiers are arguments. All
-- recursion is on lists, or on the limit of a batch, so there is no fuel.
--
-- Limits, all as in the code: 8 live transfers for an account and 4 for a device; 8 sockets for an account
-- and 512 in all; 32 messages and 256 KiB in a queue; 128 signaling messages for a transfer, 512 for an
-- account; 10 tries of a linking code or a challenge.
--
-- Not modelled: HTTP routes and request models, sockets and tasks themselves (a send is a step of the
-- writer), the in-memory repositories of challenges and linking codes, the store of security events,
-- reasons for a revocation that the schema does not admit (the statement raises), email codes, the issue
-- of registration challenges, cryptography (of which verification and digests are parameters), TURN
-- credentials, configuration, logging, metrics storage, and the browser client. The listings
-- that only sort rows, and `get_active_by_hash` of the linking codes in SQL, which PostgreSQL rejects, are
-- left out too.
--
-- Sections that are merged: in `prune_expired` the loop that drops the queues of late sockets is one step
-- with the section before it; in `_enqueue_outbound` (a full queue) and `_fail_outbound`, the `remove` that
-- `_drop` calls under the lock again is one step with the section before it. So interleavings that come
-- between the two are not covered. Readings of a clock or an identifier that one call of a service takes
-- several times are one value. Of the schema, the keys, the checks on the length of a label and of a
-- failure code, on deadlines, and the cascade from sessions to tickets under the retention job are
-- modelled; a check that fails is an exception, `none` in SQL functions, and leaves the tables. Of device
-- authentication, the issue of linking codes lists its calls of the rate limiter and of the audit; those
-- of the other operations are left out.
pub mod Base
pub mod Records
pub mod Transfers
pub mod Presence
pub mod RateLimits
pub mod Linking
pub mod Challenges
pub mod Identity
pub mod Sessions
pub mod DeviceAuth
pub mod Cleanup
pub mod Devices
pub mod TicketStore
