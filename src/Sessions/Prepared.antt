-- ===== src/Sessions/Prepared.antt =====
-- The deadlines that `prepare` gives.
use self_relay.Base.{
  ℕ, ◌+◌, ◌≡◌, refl, min, Bool, true, false, Option, none, some, leb, if◌then◌else◌, Timestamp,
  naive, aware, inl, inr, Bool-cases, arith,
}
use self_relay.Sessions.Service.{
  naive_timestamp, absolute_expiry_past, Result, ok, err, Drawn, SessionSecrets, session_secrets,
  session_idle_lifetime, session_absolute_lifetime, checked_deadlines, prepare,
}

-- The instant that an optional timestamp stands for, a default where there is none
abbrev pub instant : (default : ℕ) → Option Timestamp → ℕ
instant default none = default
instant default (some (naive t)) = t
instant default (some (aware t)) = t

abbrev pub is_naive : Option Timestamp → Bool
is_naive none = false
is_naive (some (naive t)) = true
is_naive (some (aware t)) = false

-- What `prepare` answers, without its steps
abbrev pub answer :
    (hash_secret : ℕ → ℕ)
    → Drawn
    → (created_at absolute_expires_at : Option Timestamp) → Result (SessionSecrets × ℕ × ℕ)
answer hash_secret drawn created_at absolute_expires_at =
    let issued_at = instant drawn.now created_at in
    let absolute = instant (issued_at + session_absolute_lifetime) absolute_expires_at in
    if is_naive created_at
    then err naive_timestamp
    else if is_naive absolute_expires_at
    then err naive_timestamp
    else if leb absolute issued_at
    then err absolute_expiry_past
    else ok (
      session_secrets hash_secret drawn,
      min (issued_at + session_idle_lifetime) absolute,
      absolute,
    )

pub checked_deadlines_lem :
    (hash_secret : ℕ → ℕ) (drawn : Drawn) (issued_at absolute : ℕ)
    → checked_deadlines hash_secret drawn issued_at absolute
        (min (issued_at + session_idle_lifetime) absolute)
      ≡ (if leb absolute issued_at
          then err absolute_expiry_past
          else ok (
            session_secrets hash_secret drawn,
            min (issued_at + session_idle_lifetime) absolute,
            absolute,
          ))
checked_deadlines_lem hash_secret drawn issued_at absolute =
    elim (Bool-cases (leb absolute issued_at)) [
      | inl past ↦ rw past refl
      | inr future ↦
          let later : leb (min (issued_at + session_idle_lifetime) absolute) issued_at ≡ false =
            ground arith in
          rw future (rw later refl)
    ]

-- A new session gets a deadline for idling of 30 days and an absolute one of 90 days, or the absolute
-- one that is given, which also bounds the first. The call fails exactly on a timestamp without a time
-- zone and on an absolute deadline that is not after the start; its check of the idle deadline never
-- fails.
pub prepare_lem :
    (hash_secret : ℕ → ℕ) (drawn : Drawn) (created_at absolute_expires_at : Option Timestamp)
    → prepare hash_secret drawn created_at absolute_expires_at
      ≡ answer hash_secret drawn created_at absolute_expires_at
unfolding prepare
prepare_lem hash_secret drawn none none =
    checked_deadlines_lem hash_secret drawn drawn.now (drawn.now + session_absolute_lifetime)
prepare_lem hash_secret drawn none (some (naive a)) = refl
prepare_lem hash_secret drawn none (some (aware a)) =
    checked_deadlines_lem hash_secret drawn drawn.now a
prepare_lem hash_secret drawn (some (naive t)) a = refl
prepare_lem hash_secret drawn (some (aware t)) none =
    checked_deadlines_lem hash_secret drawn t (t + session_absolute_lifetime)
prepare_lem hash_secret drawn (some (aware t)) (some (naive a)) = refl
prepare_lem hash_secret drawn (some (aware t)) (some (aware a)) =
    checked_deadlines_lem hash_secret drawn t a
