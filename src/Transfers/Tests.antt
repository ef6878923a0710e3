-- ===== src/Transfers/Tests.antt =====
-- Runs of the transfer code on small stores, and the theorems at inputs that meet their hypotheses.
use self_relay.Base.{Option, ℕ, ◌≡◌, refl, true, none, some, List, [], ◌∷◌, arith}
use self_relay.Base.Dict.{lookup, insert}
use self_relay.Records.{
  AccountRecord, DeviceRecord, DeviceStatus, TransferRequestRecord, offered, accepted, failed,
}
use self_relay.Base.Rows.{Related}
use self_relay.Transfers.Memory.{list_for_account, Store, new_offer}
use self_relay.Transfers.Operations.{
  Call, accepts, cancels, fails, marks_negotiating, expires, run, perform, accept,
}
use self_relay.Transfers.Failing.{IsKeyed}
use self_relay.Transfers.History.{Outlives, run-Outlives}
use self_relay.Transfers.Steps.{InTime, perform-InTime}
use self_relay.Transfers.Authority.{Decides, actions-Decides}
use self_relay.Transfers.Sql.{Database, put_back, get_device}
use self_relay.Transfers.Sql
use self_relay.Transfers.Refinement.{IsReady, sql-eq-memory}
use self_relay.Transfers.Port.{Readings, load}
use self_relay.Transfers.MemoryPort.{memory_port, create}
use self_relay.Transfers.Service.{ServiceState, Config, ◌>>=◌}
use self_relay.Transfers.Capacity.{Bounded, Request, offers, serve_all, serve_all-Bounded}

-- Account 7 offers a transfer from device 2 to device 3; the offer ends at 100.
abbrev offer : TransferRequestRecord
offer = new_offer 10 1 7 2 3 1 100

abbrev one_offer : Store
one_offer = (1, offer) ∷ []

one_offer-IsKeyed : IsKeyed one_offer
unfolding lookup
one_offer-IsKeyed k = ground arith

abbrev life : List Call
life =
    record { now = 20; wall = 20; account_id = 7; transfer_id = 1; operation = accepts 3 }
    ∷ record { now = 21; wall = 21; account_id = 7; transfer_id = 1; operation = marks_negotiating }
    ∷ record { now = 22; wall = 22; account_id = 7; transfer_id = 1; operation = fails "ice" none }
    ∷ record { now = 23; wall = 23; account_id = 7; transfer_id = 1; operation = cancels 2 }
    ∷ []

life_fails :
    run none life one_offer
    ≡ (1, record offer { status = failed; accepted_at = some 20; failure_code = some "ice" }) ∷ []
unfolding run lookup insert
life_fails = refl

run-Outlives_example : Related Outlives (lookup 1 one_offer) (lookup 1 (run none life one_offer))
run-Outlives_example = run-Outlives none life one_offer one_offer-IsKeyed 1

perform-InTime_example :
    Related
      (InTime 100)
      (lookup 1 one_offer)
      (lookup 1 (perform none 100 100 7 1 expires one_offer).1)
perform-InTime_example = perform-InTime none 100 100 7 1 expires one_offer one_offer-IsKeyed 1

abbrev device : ℕ → DeviceRecord
device id = record {
  id = id;
  user_id = 7;
  epoch = 4;
  label = "laptop";
  signing_public_key_spki = id;
  fingerprint = id;
  status = DeviceStatus.active;
  created_at = 0;
  last_seen_at = 0;
  revoked_at = none;
  linked_by_device_id = none;
}

-- Every device is active.
abbrev every_device : ℕ → ℕ → Option DeviceRecord
every_device a d = some (device d)

actions-Decides_example :
    Decides
      (some every_device)
      20
      20
      7
      1
      3
      one_offer
      (offered ∷ [])
      accepted
      (some 20)
      true
      (accept (some every_device) 20 20 7 1 3 one_offer)
actions-Decides_example = (actions-Decides (some every_device) 20 20 7 1 3 one_offer).0

abbrev account : AccountRecord
account = record {
  id = 7;
  supabase_user_id = 90;
  email_normalized = "a@example.com";
  created_at = 0;
  email_fallback_at = none;
  device_epoch = 4;
  deleted_at = none;
}

abbrev database : Database
database = record {
  accounts = (7, account) ∷ [];
  devices = (2, device 2) ∷ (3, device 3) ∷ [];
  transfers = one_offer;
}

database-IsReady : IsReady database 7 account
unfolding lookup
database-IsReady = record {
  found = refl;
  live = refl;
  current = λ d dev found own active. ground arith;
}

sql-eq-memory_example :
    Sql.perform 20 7 1 (accepts 3) database
    ≡ put_back database
        (perform (some (get_device database)) 20 20 7 1 (accepts 3) database.transfers)
sql-eq-memory_example =
    sql-eq-memory database 20 7 1 account (accepts 3) tt database-IsReady one_offer-IsKeyed

abbrev config : Config
config = record { has_presence = true; devices = none; lifetime = 600 }

abbrev at_time : ℕ → ℕ → Readings
at_time now id = record { now = now; repository_now = now; wall = now; new_id = id }

abbrev no_state : ServiceState (memory_port none)
no_state = record { store = []; log = [] }

abbrev two_offers : List (Readings × ℕ × Request)
two_offers = (at_time 5 1, 7, offers 2 3 1) ∷ (at_time 6 2, 7, offers 2 4 1) ∷ []

no_state-Bounded : Bounded (memory_port none) 0 no_state.store
unfolding load list_for_account
no_state-Bounded = record { account_bound = λ b. omega arith; device_bound = λ b d. omega arith }

no_state-IsKeyed : IsKeyed no_state.store
unfolding lookup
no_state-IsKeyed k = tt

two_offers_stand :
    (serve_all (memory_port none) config two_offers no_state).store
    ≡ (1, new_offer 5 1 7 2 3 1 605) ∷ (2, new_offer 6 2 7 2 4 1 606) ∷ []
unfolding serve_all ◌>>=◌ load list_for_account create insert
two_offers_stand = refl

serve_all-Bounded_example :
    Bounded (memory_port none) 6 (serve_all (memory_port none) config two_offers no_state).store
serve_all-Bounded_example =
    serve_all-Bounded (memory_port none) config 0 two_offers no_state (omega arith) no_state-IsKeyed
      no_state-Bounded
