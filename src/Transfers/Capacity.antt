-- ===== src/Transfers/Capacity.antt =====
-- The capacity limits of `TransferService`: at most 8 live transfers for an account and 4 for a
-- device, whatever is called and in whatever order.
mod Counts
mod Shrinks
mod Calls
pub use Shrinks.{Bounded}
use self_relay.Base.{
  ℕ, ◌+◌, ◌≤◌, ◌<◌, ◌≡◌, refl, ap, ◌⊎◌, inl, inr, Bool, true, false, ◌&&◌, ◌||◌, not, Option, none,
  some, List, [], ◌∷◌, arith, ◌==◌, leb, if◌then◌else◌, length, Bool-cases,
}
use self_relay.Records.{TransferRequestRecord}
use self_relay.Transfers.Port.{Readings, TransferPort, concerns_pair, load}
use self_relay.Transfers.Service.{
  ServiceState, Result, TransferError, ok, err, Config, M, active_at, over_capacity,
  max_active_per_account, max_active_per_device, raise, read, call, log_effect, raise_if, pure,
  or_raise, repository_failed, transfer_offer, continue, ◌>>=◌,
}
use self_relay.Transfers.Service
use Counts.{load-account, load-device}
use Shrinks.{Bounded-later, Shrinks-Bounded, Shrinking, shrinking, Shrinking-bind}
use Calls.{
  Shrinking-accept, Shrinking-reject, Shrinking-cancel, Shrinking-expire, Shrinking-get,
  Shrinking-get_peer_device_key, Shrinking-list_transfers, Shrinking-notify,
}

-- A call of the service.
pub data Request : Type 0 where
  offers : (sender recipient version : ℕ) → Request
  accepts rejects cancels : (transfer_id device_id : ℕ) → Request
  expires gets : (transfer_id : ℕ) → Request
  asks_peer_key : (transfer_id device_id : ℕ) → Option ℕ → Request
  lists : Request

-- What the test of `_ensure_capacity` says of the loads.
room :
    (now d e : ℕ) (rs : List TransferRequestRecord)
    → over_capacity d e (active_at now rs) ≡ false
    → (load now none rs < max_active_per_account)
      × (load now (some d) rs < max_active_per_device)
      × (load now (some e) rs < max_active_per_device)
room now d e rs fits =
    ground (arith, load-account now rs, load-device now d rs, load-device now e rs)

module _ (port : TransferPort) (config : Config) where
  open port use {State, IsSound, list_for_account}

  -- The state after a request, whatever it returned.
  unfoldable pub serve :
      Readings → (account_id : ℕ) → Request → ServiceState port → ServiceState port
  unfolding Service.create_offer Service.accept Service.reject Service.cancel Service.expire
      Service.get Service.get_peer_device_key Service.list_transfers
  serve rd a (offers d e v) s = (Service.create_offer port config rd a d e v s).1
  serve rd a (accepts t d) s = (Service.accept port config rd a t d s).1
  serve rd a (rejects t d) s = (Service.reject port config rd a t d s).1
  serve rd a (cancels t d) s = (Service.cancel port config rd a t d s).1
  serve rd a (expires t) s = (Service.expire port config rd a t s).1
  serve rd a (gets t) s = (Service.get port config rd a t s).1
  serve rd a (asks_peer_key t d e) s = (Service.get_peer_device_key port config rd a t d e s).1
  serve rd a lists s = (Service.list_transfers port config rd a s).1

  unfoldable pub serve_all : List (Readings × ℕ × Request) → ServiceState port → ServiceState port
  unfolding serve
  serve_all [] s = s
  serve_all ((rd, a, q) ∷ rest) s = serve_all rest (serve rd a q s)

  -- The service's clock does not go back.
  abbrev pub Ordered : ℕ → List (Readings × ℕ × Request) → Type 0
  Ordered now [] = Unit {0}
  Ordered now ((rd, a, q) ∷ rest) = (now ≤ rd.now) × Ordered rd.now rest

  -- The clock at the end.
  abbrev pub last_now : ℕ → List (Readings × ℕ × Request) → ℕ
  last_now now [] = now
  last_now now ((rd, a, q) ∷ rest) = last_now rd.now rest

  record Good (now : ℕ) (s : State) : Type 0 where
    sound : IsSound s
    bounded : Bounded port now s

  module _ (rd : Readings) where
    record Keeping {A : Type 0} (m : M port A) : Type 0 where
      at : (s : ServiceState port) → Good rd.now s.store → Good rd.now (m s).1.store

    Keeping-Shrinking : {A : Type 0} {m : M port A} → Shrinking port m → Keeping m
    Keeping-Shrinking k = record {
      at = λ s g. record {
        sound = (k.at s g.sound).sound;
        bounded = Shrinks-Bounded port rd.now (k.at s g.sound) g.bounded;
      };
    }

    -- A new row fits where the test of `_ensure_capacity` passed.
    create-Good :
        (a d e v x : ℕ) (s : State)
        → over_capacity d e (active_at rd.now (list_for_account a s)) ≡ false
        → Good rd.now s
        → Good rd.now (port.create rd a d e v x s).1
    create-Good a d e v x s fits g = record {
      sound = port.create_sound rd a d e v x s g.sound;
      bounded = record {
        account_bound =
            λ b. account b (Bool-cases (b == a)) (port.create_load rd a d e v x s rd.now b none);
        device_bound = λ b who.
            device b who (Bool-cases (b == a))
              (port.create_load rd a d e v x s rd.now b (some who));
      };
    }
      where
        after : State
        after = (port.create rd a d e v x s).1

        free :
            (load rd.now none (list_for_account a s) < 8)
            × (load rd.now (some d) (list_for_account a s) < 4)
            × (load rd.now (some e) (list_for_account a s) < 4)
        free = room rd.now d e (list_for_account a s) fits

        account :
            (b : ℕ)
            → (b == a ≡ true) ⊎ (b == a ≡ false)
            → load rd.now none (list_for_account b after)
              ≤ load rd.now none (list_for_account b s) + (if b == a && true then 1 else 0)
            → load rd.now none (list_for_account b after) ≤ 8
        account b (inl same) h =
            let own : b ≡ a = ground arith in
            let below : load rd.now none (list_for_account b s) < 8 = rw own free.0 in
            ground (arith, below)
        account b (inr other) h = omega (arith, g.bounded.account_bound b, rw other at h)

        for_device :
            (b who x : ℕ)
            → b ≡ a
            → who ≡ x
            → load rd.now (some x) (list_for_account a s) < 4
            → load rd.now (some who) (list_for_account b s) < 4
        for_device b who x p q h = rw (p, q) h

        device :
            (b who : ℕ)
            → (b == a ≡ true) ⊎ (b == a ≡ false)
            → load rd.now (some who) (list_for_account b after)
              ≤ load rd.now (some who) (list_for_account b s)
                + (if b == a && (d == who || e == who) then 1 else 0)
            → load rd.now (some who) (list_for_account b after) ≤ 4
        device b who (inl same) h = elim (Bool-cases (d == who)) [
          | inl sender ↦ ground (arith, for_device b who d (ground arith) (ground arith) free.1)
          | inr not_sender ↦ elim (Bool-cases (e == who)) [
            | inl recipient ↦
                ground (arith, for_device b who e (ground arith) (ground arith) free.2)
            | inr neither ↦ ground (arith, g.bounded.device_bound b who)
          ]
        ]
        device b who (inr other) h = omega (arith, g.bounded.device_bound b who, rw other at h)

    -- What follows a passed check: `create` of the repository, then what adds nothing.
    create_call :
        (a d e v x : ℕ) (s : ServiceState port)
        → over_capacity d e (active_at rd.now (list_for_account a s.store)) ≡ false
        → Good rd.now s.store
        → Good rd.now (call port (port.create rd a d e v x) s).1.store
    unfolding call
    create_call a d e v x s fits g = create-Good a d e v x s.store fits g

    continue-Good :
        {A B : Type 0} (f : A → M port B) (r : Result A) (s : ServiceState port)
        → Good rd.now s.store
        → ((x : A) → Shrinking port (f x))
        → Good rd.now (continue port f r s).1.store
    continue-Good f (ok x) s g k = (Keeping-Shrinking (k x)).at s g
    continue-Good f (err e) s g k = g

    announce-Shrinking :
        (a e : ℕ) (o : Option TransferRequestRecord)
        → Shrinking port (
            ◌>>=◌ port (or_raise port o repository_failed) (λ r.
              Service.◌>>◌ port
                (Service.notify port config rd a e transfer_offer r.id)
                (pure port r)))
    announce-Shrinking a e o = search (shrinking, Shrinking-notify)

    offer_rest-Good :
        (a d e v : ℕ) (s : ServiceState port)
        → over_capacity d e (active_at rd.now (list_for_account a s.store)) ≡ false
        → Good rd.now s.store
        → Good rd.now
            (◌>>=◌ port
              (call port (port.create rd a d e v (rd.now + config.lifetime)))
              (λ created. ◌>>=◌ port (or_raise port created repository_failed) (λ r.
                Service.◌>>◌ port
                  (Service.notify port config rd a e transfer_offer r.id)
                  (pure port r)))
              s).1.store
    unfolding ◌>>=◌
    offer_rest-Good a d e v s fits g =
        continue-Good _ (call port (port.create rd a d e v (rd.now + config.lifetime)) s).0
          (call port (port.create rd a d e v (rd.now + config.lifetime)) s).1
          (create_call a d e v (rd.now + config.lifetime) s fits g) (announce-Shrinking a e)

    -- The capacity check either lets the rest run on an unchanged store, or ends the call there.
    checked-Good :
        {B : Type 0} (a d e : ℕ) (k : M port B) (s : ServiceState port)
        → (over_capacity d e (active_at rd.now (list_for_account a s.store)) ≡ false
            → Good rd.now (k s).1.store)
        → Good rd.now s.store
        → Good rd.now (Service.◌>>◌ port (Service.ensure_capacity port config rd a d e) k s).1.store
    unfolding Service.ensure_capacity ◌>>=◌
    checked-Good a d e k s fits g =
        elim (Bool-cases (over_capacity d e (active_at rd.now (list_for_account a s.store)))) [
          | inl full ↦ rw full g
          | inr free ↦ rw free (fits free)
        ]

    guarded-Good :
        {B : Type 0} (test : Bool) (x : TransferError) (k : M port B) (s : ServiceState port)
        → (test ≡ false → Good rd.now (k s).1.store)
        → Good rd.now s.store
        → Good rd.now (Service.◌>>◌ port (raise_if port test x) k s).1.store
    unfolding ◌>>=◌
    guarded-Good true x k s h g = g
    guarded-Good false x k s h g = h refl

    create_offer-Good :
        (a d e v : ℕ) (s : ServiceState port)
        → Good rd.now s.store
        → Good rd.now (Service.create_offer port config rd a d e v s).1.store
    unfolding Service.create_offer
    create_offer-Good a d e v s g =
        guarded-Good _ _ _ s
          (λ x1.
            guarded-Good _ _ _ s
              (λ x2.
                guarded-Good _ _ _ s
                  (λ x3. checked-Good a d e _ s (λ free. offer_rest-Good a d e v s free g) g) g)
              g)
          g

    serve-Good :
        (a : ℕ) (q : Request) (s : ServiceState port)
        → Good rd.now s.store
        → Good rd.now (serve rd a q s).store
    unfolding serve
    serve-Good a (offers d e v) s g = create_offer-Good a d e v s g
    serve-Good a (accepts t d) s g =
        (Keeping-Shrinking (Shrinking-accept port config rd a t d)).at s g
    serve-Good a (rejects t d) s g =
        (Keeping-Shrinking (Shrinking-reject port config rd a t d)).at s g
    serve-Good a (cancels t d) s g =
        (Keeping-Shrinking (Shrinking-cancel port config rd a t d)).at s g
    serve-Good a (expires t) s g = (Keeping-Shrinking (Shrinking-expire port config rd a t)).at s g
    serve-Good a (gets t) s g = (Keeping-Shrinking (Shrinking-get port config rd a t)).at s g
    serve-Good a (asks_peer_key t d x) s g =
        (Keeping-Shrinking (Shrinking-get_peer_device_key port config rd a t d x)).at s g
    serve-Good a lists s g = (Keeping-Shrinking (Shrinking-list_transfers port config rd a)).at s g

  -- After any sequence of requests, of any accounts and over any repository that satisfies the laws,
  -- no account has more than 8 live transfers and no device more than 4, provided that this held at
  -- the start, that the repository's state was sound there, and that the service's clock does not go
  -- back.
  pub serve_all-Bounded :
      (now : ℕ) (requests : List (Readings × ℕ × Request)) (s : ServiceState port)
      → Ordered now requests
      → IsSound s.store
      → Bounded port now s.store
      → Bounded port (last_now now requests) (serve_all requests s).store
  unfolding serve_all
  serve_all-Bounded now [] s order sound v = v
  serve_all-Bounded now ((rd, a, q) ∷ rest) s order sound v =
      let g : Good rd.now (serve rd a q s).store =
        serve-Good rd a q s
          (record { sound = sound; bounded = Bounded-later port now rd.now s.store order.0 v }) in
      serve_all-Bounded rd.now rest (serve rd a q s) order.1 g.sound g.bounded
