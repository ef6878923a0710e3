-- ===== src/Transfers/Capacity/Shrinks.antt =====
-- Actions of the service that add to no load, with a rule for each way to build an action.
use self_relay.Base.{ℕ, ◌≤◌, Bool, true, false, Option, none, some, arith, if◌then◌else◌}
use self_relay.Transfers.Port.{TransferPort, load}
use self_relay.Transfers.Service.{
  ServiceState, Result, ok, err, TransferError, Effect, M, max_active_per_account,
  max_active_per_device, pure, raise, read, or_raise, call, log_effect, raise_if, continue, ◌>>=◌,
}
use self_relay.Transfers.Capacity.Counts.{load-later}

module _ (port : TransferPort) where
  open port use {State, IsSound, list_for_account}

  -- No account and no device has more live transfers than the limits allow.
  pub record Bounded (now : ℕ) (s : State) : Type 0 where
    pub account_bound : (b : ℕ) → load now none (list_for_account b s) ≤ max_active_per_account
    pub device_bound : (b d : ℕ) → load now (some d) (list_for_account b s) ≤ max_active_per_device

  pub Bounded-later : (now later : ℕ) (s : State) → now ≤ later → Bounded now s → Bounded later s
  Bounded-later now later s h v = record {
    account_bound =
        λ b. omega (arith, v.account_bound b, load-later now later none (list_for_account b s) h);
    device_bound = λ b d.
        omega (arith, v.device_bound b d, load-later now later (some d) (list_for_account b s) h);
  }

  -- A store that is sound and shows no load that was not there.
  pub record Shrinks (s s' : State) : Type 0 where
    pub sound : IsSound s'
    pub no_more :
        (now b : ℕ) (who : Option ℕ)
        → load now who (list_for_account b s') ≤ load now who (list_for_account b s)

  pub Shrinks-refl : {s : State} → IsSound s → Shrinks s s
  Shrinks-refl h = record { sound = h; no_more = λ now b who. omega arith }

  pub Shrinks-trans : {s s' s'' : State} → Shrinks s s' → Shrinks s' s'' → Shrinks s s''
  Shrinks-trans p q = record {
    sound = q.sound;
    no_more = λ now b who. omega (arith, p.no_more now b who, q.no_more now b who);
  }

  pub Shrinks-Bounded : (now : ℕ) {s s' : State} → Shrinks s s' → Bounded now s → Bounded now s'
  Shrinks-Bounded now p v = record {
    account_bound = λ b. omega (arith, v.account_bound b, p.no_more now b none);
    device_bound = λ b d. omega (arith, v.device_bound b d, p.no_more now b (some d));
  }

  -- An action whose every run shrinks, whether it returns or raises; a rule for each way to build one.
  pub record Shrinking {A : Type 0} (m : M port A) : Type 0 where
    pub at : (s : ServiceState port) → IsSound s.store → Shrinks s.store (m s).1.store

  pub continue-Shrinks :
      {A B : Type 0} (f : A → M port B) (r : Result A) (s₀ s : ServiceState port)
      → Shrinks s₀.store s.store
      → ((a : A) → Shrinking (f a))
      → Shrinks s₀.store (continue port f r s).1.store
  continue-Shrinks f (ok a) s₀ s p h = Shrinks-trans p ((h a).at s p.sound)
  continue-Shrinks f (err e) s₀ s p h = p

  pub Shrinking-bind :
      {A B : Type 0} (m : M port A) (f : A → M port B)
      → Shrinking m
      → ((a : A) → Shrinking (f a))
      → Shrinking (◌>>=◌ port m f)
  unfolding ◌>>=◌
  Shrinking-bind m f hm hf = record {
    at = λ s h. continue-Shrinks f (m s).0 s (m s).1 (hm.at s h) hf;
  }

  module _ {A : Type 0} where
    pub Shrinking-pure : (a : A) → Shrinking (pure port a)
    unfolding pure
    Shrinking-pure a = record { at = λ s h. Shrinks-refl h }

    pub Shrinking-raise : (e : TransferError) → Shrinking (raise port {A = A} e)
    unfolding raise
    Shrinking-raise e = record { at = λ s h. Shrinks-refl h }

    pub Shrinking-read : (f : State → A) → Shrinking (read port f)
    unfolding read
    Shrinking-read f = record { at = λ s h. Shrinks-refl h }

    pub Shrinking-or_raise : (o : Option A) (e : TransferError) → Shrinking (or_raise port o e)
    unfolding or_raise
    Shrinking-or_raise none e = record { at = λ s h. Shrinks-refl h }
    Shrinking-or_raise (some a) e = record { at = λ s h. Shrinks-refl h }

    pub Shrinking-call :
        (f : State → A × State)
        → ((s : State) → IsSound s → Shrinks s (f s).1)
        → Shrinking (call port f)
    unfolding call
    Shrinking-call f p = record { at = λ s h. p s.store h }

    pub Shrinking-if :
        (b : Bool) (m n : M port A) → Shrinking m → Shrinking n → Shrinking (if b then m else n)
    Shrinking-if true m n p q = p
    Shrinking-if false m n p q = q

  pub Shrinking-log : (e : Effect) → Shrinking (log_effect port e)
  unfolding log_effect
  Shrinking-log e = record { at = λ s h. Shrinks-refl h }

  pub Shrinking-raise_if : (b : Bool) (e : TransferError) → Shrinking (raise_if port b e)
  unfolding raise_if
  Shrinking-raise_if b e = record { at = λ s h. Shrinks-refl h }

pub ruleset shrinking = (
  Shrinking-bind, Shrinking-pure, Shrinking-raise, Shrinking-read, Shrinking-or_raise, Shrinking-if,
  Shrinking-log, Shrinking-raise_if,
)
