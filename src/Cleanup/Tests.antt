-- ===== src/Cleanup/Tests.antt =====
-- Three tickets, of which two are past their retention.
use self_relay.Base.{◌≡◌, refl, [], ◌∷◌}
use self_relay.Base.Dict.{lookup, erase}
use self_relay.Identity.Tickets.{new_ticket, consumed_now}
use self_relay.Cleanup.Batch.{oldest, delete_batch}
use self_relay.Cleanup.Retention.{Retained, cleanup_expired, delete_batches}
use self_relay.Cleanup.Backlog.{
  HasRun, AreUnique, AreBatchSizes, AreCleared, runs, total, cleanup_expired-HasRun,
  runs-AreCleared,
}

abbrev tables : Retained
tables = record {
  app_sessions = [];
  device_challenges = [];
  device_linking_otps = [];
  transfer_requests = [];
  websocket_tickets =
      (30, consumed_now 190 (new_ticket 100 30 20 70 400))
      ∷ (31, new_ticket 90 31 20 71 150)
      ∷ (32, new_ticket 180 32 20 72 400)
      ∷ [];
  security_events = [];
  rate_limit_buckets = [];
}

keys_unique : AreUnique tables
unfolding lookup
keys_unique = (tt, tt, tt, tt, (refl, (refl, (refl, tt))), tt, tt)

cleanup_expired-HasRun_example :
    HasRun 200 1 tables (cleanup_expired 200 1 tables).0 (cleanup_expired 200 1 tables).1
cleanup_expired-HasRun_example = cleanup_expired-HasRun 200 1 tables keys_unique

two_runs : AreBatchSizes (1 ∷ 1 ∷ [])
two_runs = (refl, (refl, tt))

runs-AreCleared_example : AreCleared 200 (total (1 ∷ 1 ∷ [])) tables (runs 200 (1 ∷ 1 ∷ []) tables)
runs-AreCleared_example = runs-AreCleared 200 (1 ∷ 1 ∷ []) tables two_runs keys_unique

-- The older of the two goes first.
the_older :
    (cleanup_expired 200 1 tables).1.websocket_tickets
    ≡ (30, consumed_now 190 (new_ticket 100 30 20 70 400)) ∷ (32, new_ticket 180 32 20 72 400) ∷ []
unfolding cleanup_expired delete_batches delete_batch oldest erase lookup
the_older = refl
