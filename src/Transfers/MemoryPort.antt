-- ===== src/Transfers/MemoryPort.antt =====
-- The in-memory repository satisfies `TransferPort`.
use self_relay.Base.{ℕ, ◌+◌, ◌≤◌, ◌&&◌, Option, none, some, arith, ◌==◌, if◌then◌else◌, aware}
use self_relay.Base.Dict.{lookup-insert}
use self_relay.Records.{TransferRequestRecord}
use self_relay.Transfers.Port.{Readings, TransferPort, concerns_pair, load}
use self_relay.Transfers.Memory.{
  Store, Outcome, DeviceLookup, Created, created, refused, devices_available, new_offer,
  list_for_account,
}
use self_relay.Transfers.Memory
use self_relay.Transfers.Operations.{Operation, accept, reject, cancel, expire}
use self_relay.Transfers.Operations
use self_relay.Transfers.Failing.{IsKeyed}
use self_relay.Transfers.Steps.{Updates, Updates-Keeps, perform-Updates}
use self_relay.Transfers.History.{Keeps-IsKeyed}
use self_relay.Transfers.Loads.{load-Updates, load-insert}

abbrev record_of : Created → Option TransferRequestRecord
record_of (created r) = some r
record_of (refused e) = none

module _ (devices : DeviceLookup) where
  unfoldable pub create :
      Readings → (account_id sender recipient version expires_at : ℕ) → Store → Outcome
  unfolding Memory.create
  create rd a d e v x s =
      let (c, s') = Memory.create devices rd.repository_now rd.new_id a d e v (aware x) s in
      (record_of c, s')

  pub create-IsKeyed :
      (rd : Readings) (a d e v x : ℕ) (s : Store) → IsKeyed s → IsKeyed (create rd a d e v x s).1
  unfolding create
  create-IsKeyed rd a d e v x s keyed k = ground (
    arith,
    keyed k,
    lookup-insert k rd.new_id (new_offer rd.repository_now rd.new_id a d e v x) s,
  )

  pub create-load :
      (rd : Readings) (a d e v x : ℕ) (s : Store) (now b : ℕ) (who : Option ℕ)
      → load now who (list_for_account b (create rd a d e v x s).1)
        ≤ load now who (list_for_account b s) + (if b == a && concerns_pair who d e then 1 else 0)
  unfolding create
  create-load rd a d e v x s now b none =
      ground (
        arith,
        load-insert now b none rd.new_id (new_offer rd.repository_now rd.new_id a d e v x) s,
      )
  create-load rd a d e v x s now b (some w) = ground (
    arith,
    load-insert now b (some w) rd.new_id (new_offer rd.repository_now rd.new_id a d e v x) s,
  )

  pub updates :
      (rd : Readings) (a t : ℕ) (op : Operation) (s : Store)
      → IsKeyed s
      → Updates rd.repository_now t s
          (Operations.perform devices rd.repository_now rd.wall a t op s)
  updates rd a t op s keyed = perform-Updates devices rd.repository_now rd.wall a t op s keyed

  pub keyed :
      (rd : Readings) (a t : ℕ) (op : Operation) (s : Store)
      → IsKeyed s
      → IsKeyed (Operations.perform devices rd.repository_now rd.wall a t op s).1
  keyed rd a t op s h =
      Keeps-IsKeyed s _ (Updates-Keeps rd.repository_now t s _ (updates rd a t op s h)) h

  pub no_more :
      (rd : Readings) (a t : ℕ) (op : Operation) (s : Store) (now b : ℕ) (who : Option ℕ)
      → IsKeyed s
      → load now who
          (list_for_account b (Operations.perform devices rd.repository_now rd.wall a t op s).1)
        ≤ load now who (list_for_account b s)
  no_more rd a t op s now b who h =
      load-Updates now b who rd.repository_now t s _ (updates rd a t op s h)

  abbrev pub memory_port : TransferPort
  memory_port = record {
    State = Store;
    IsSound = IsKeyed;
    get_by_id = Memory.get_by_id;
    list_for_account = list_for_account;
    create = create;
    accept =
        λ rd a t d. Operations.perform devices rd.repository_now rd.wall a t (Operations.accepts d);
    reject =
        λ rd a t d. Operations.perform devices rd.repository_now rd.wall a t (Operations.rejects d);
    cancel =
        λ rd a t d. Operations.perform devices rd.repository_now rd.wall a t (Operations.cancels d);
    expire = λ rd a t. Operations.perform devices rd.repository_now rd.wall a t Operations.expires;
    create_sound = create-IsKeyed;
    accept_sound = λ rd a t d s h. keyed rd a t (Operations.accepts d) s h;
    reject_sound = λ rd a t d s h. keyed rd a t (Operations.rejects d) s h;
    cancel_sound = λ rd a t d s h. keyed rd a t (Operations.cancels d) s h;
    expire_sound = λ rd a t s h. keyed rd a t Operations.expires s h;
    create_load = create-load;
    accept_load = λ rd a t d s now b who h. no_more rd a t (Operations.accepts d) s now b who h;
    reject_load = λ rd a t d s now b who h. no_more rd a t (Operations.rejects d) s now b who h;
    cancel_load = λ rd a t d s now b who h. no_more rd a t (Operations.cancels d) s now b who h;
    expire_load = λ rd a t s now b who h. no_more rd a t Operations.expires s now b who h;
  }
