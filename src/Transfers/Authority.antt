-- ===== src/Transfers/Authority.antt =====
-- Who may accept, reject and cancel: the operations of the in-memory repository succeed exactly
-- when the actor and the row allow it.
use self_relay.Base.{
  ℕ, ◌<◌, ◌≡◌, refl, ◌⊎◌, inl, inr, Bool, true, false, Option, none, some, List, [], ◌∷◌, arith,
  ◌==◌, if◌then◌else◌, Option-cases, Bool-cases,
}
use self_relay.Base.Dict.{lookup, insert}
use self_relay.Records.{
  DeviceRecord, DeviceStatus, TransferRequestRecord, TransferStatus, offered, accepted, negotiating,
  connected, transferring, rejected, cancelled,
}
use self_relay.Transfers.Status.{status_in, active_statuses}
use self_relay.Base.Rows.{update_row, write_row}
use self_relay.Transfers.Memory.{
  Store, DeviceLookup, actor_allowed, actor_rejects, actor_transition, updated_record, participates,
  is_active_device,
}
use self_relay.Transfers.Operations.{accept, reject, cancel}

-- The device repository, if there is one, has the actor as an active device of the account.
abbrev pub IsActiveActor : DeviceLookup → (account_id actor : ℕ) → Type 0
IsActiveActor none a actor = Unit
IsActiveActor (some get) a actor =
    (d : DeviceRecord) × (get a actor ≡ some d) × (d.status ≡ DeviceStatus.active)

abbrev pub HasRole : (recipient_only : Bool) → (actor : ℕ) → TransferRequestRecord → Type 0
HasRole true actor r = actor ≡ r.recipient_device_id
HasRole false actor r = (actor ≡ r.sender_device_id) ⊎ (actor ≡ r.recipient_device_id)

-- An actor whose device is active may write this row of its account before the deadline.
abbrev pub MayWrite :
    DeviceLookup
    → (now account_id actor : ℕ) → List TransferStatus
    → (recipient_only : Bool) → TransferRequestRecord
    → Type 0
MayWrite devices now a actor from only r =
    IsActiveActor devices a actor
    × (r.user_id ≡ a)
    × (status_in r.status from ≡ true)
    × (now < r.expires_at)
    × HasRole only actor r

active_word : (s : DeviceStatus) → is_active_device s ≡ true → s ≡ DeviceStatus.active
active_word DeviceStatus.active e = refl
active_word DeviceStatus.inactive e = ground arith
active_word DeviceStatus.revoked e = ground arith

allowed-IsActiveActor :
    (devices : DeviceLookup) (a actor : ℕ)
    → actor_allowed devices a actor ≡ true
    → IsActiveActor devices a actor
allowed-IsActiveActor none a actor e = tt
allowed-IsActiveActor (some get) a actor e = elim (Option-cases (get a actor)) [
  | inl gone ↦ let never : false ≡ true = rw gone at e in ground arith
  | inr (d, found) ↦
      let open_status : is_active_device d.status ≡ true = rw found at e in
      (d, found, active_word d.status open_status)
]

IsActiveActor-allowed :
    (devices : DeviceLookup) (a actor : ℕ)
    → IsActiveActor devices a actor
    → actor_allowed devices a actor ≡ true
IsActiveActor-allowed none a actor e = refl
IsActiveActor-allowed (some get) a actor (d, found, status) = rw (found, status) refl

role_of :
    (only : Bool) (actor : ℕ) (r : TransferRequestRecord)
    → (if only then r.recipient_device_id == actor else participates actor r) ≡ true
    → HasRole only actor r
role_of true actor r e = ground arith
role_of false actor r e = elim (Bool-cases (r.sender_device_id == actor)) [
  | inl sender ↦ inl (ground arith)
  | inr other ↦ inr (ground arith)
]

of_role :
    (only : Bool) (actor : ℕ) (r : TransferRequestRecord)
    → HasRole only actor r
    → (if only then r.recipient_device_id == actor else participates actor r) ≡ true
of_role true actor r e = ground arith
of_role false actor r (inl e) = ground arith
of_role false actor r (inr e) = ground arith

-- What the action writes into the row: the status, the acceptance time if the action sets one and there
-- is none, and no failure code.
abbrev pub IsWritten :
    (wall : ℕ) (to : TransferStatus) (accepted_at : Option ℕ) (r w : TransferRequestRecord) → Type 0
IsWritten wall to accepted_at r w =
    (w.id ≡ r.id)
    × (w.user_id ≡ r.user_id)
    × (w.sender_device_id ≡ r.sender_device_id)
    × (w.recipient_device_id ≡ r.recipient_device_id)
    × (w.protocol_version ≡ r.protocol_version)
    × (w.status ≡ to)
    × (w.created_at ≡ r.created_at)
    × (w.expires_at ≡ r.expires_at)
    × (w.accepted_at ≡ accepted_at)
    × (w.completed_at ≡ r.completed_at)
    × (w.failure_code ≡ none)
    × (w.relay_used ≡ r.relay_used)

-- The acceptance time that is there, or the given one.
abbrev pub time_or : Option ℕ → Option ℕ → Option ℕ
time_or (some t) o = some t
time_or none o = o

may_write :
    (devices : DeviceLookup) (now a actor : ℕ) (from : List TransferStatus) (only : Bool)
    (r : TransferRequestRecord)
    → actor_allowed devices a actor ≡ true
    → actor_rejects now a from actor only r ≡ false
    → MayWrite devices now a actor from only r
may_write devices now a actor from only r allowed ok = (
  allowed-IsActiveActor devices a actor allowed,
  ground arith,
  ground arith,
  ground arith,
  role_of only actor r (ground arith),
)

must_write :
    (devices : DeviceLookup) (now a actor : ℕ) (from : List TransferStatus) (only : Bool)
    (r : TransferRequestRecord)
    → MayWrite devices now a actor from only r
    → actor_rejects now a from actor only r ≡ false
must_write devices now a actor from only r (allowed, own, is_from, early, its_role) =
    let role = of_role only actor r its_role in
    elim (Bool-cases only) [
      | inl recipient ↦ rw (is_from, recipient) (ground (arith, rw recipient at role))
      | inr either ↦ rw (is_from, either) (ground (arith, rw either at role))
    ]

module _ (wall : ℕ) where
  accept_writes :
      (r : TransferRequestRecord)
      → IsWritten wall accepted
          (time_or r.accepted_at (some wall))
          r
          (updated_record wall accepted none r)
  accept_writes r = elim (Option-cases r.accepted_at) [
    | inl e ↦ rw e (refl, refl, refl, refl, refl, refl, refl, refl, refl, refl, refl, refl)
    | inr (x, e) ↦ rw e (refl, refl, refl, refl, refl, refl, refl, refl, refl, refl, refl, refl)
  ]

  reject_writes :
      (r : TransferRequestRecord)
      → IsWritten wall rejected (time_or r.accepted_at none) r (updated_record wall rejected none r)
  reject_writes r = elim (Option-cases r.accepted_at) [
    | inl e ↦ rw e (refl, refl, refl, refl, refl, refl, refl, refl, refl, refl, refl, refl)
    | inr (x, e) ↦ rw e (refl, refl, refl, refl, refl, refl, refl, refl, refl, refl, refl, refl)
  ]

  cancel_writes :
      (r : TransferRequestRecord)
      → IsWritten wall cancelled
          (time_or r.accepted_at (some wall))
          r
          (updated_record wall cancelled none r)
  cancel_writes r = elim (Option-cases r.accepted_at) [
    | inl e ↦ rw e (refl, refl, refl, refl, refl, refl, refl, refl, refl, refl, refl, refl)
    | inr (x, e) ↦ rw e (refl, refl, refl, refl, refl, refl, refl, refl, refl, refl, refl, refl)
  ]

module _ (devices : DeviceLookup) (now wall a t actor : ℕ) (s : Store) where
  -- The row is written and returned if the actor may write it; otherwise nothing happens.
  abbrev pub Decides :
      List TransferStatus
      → TransferStatus
      → Option ℕ
      → Bool
      → Option TransferRequestRecord × Store
      → Type 0
  Decides from to mark only o =
      ((r : TransferRequestRecord) × (w : TransferRequestRecord) × (lookup t s ≡ some r)
        × MayWrite devices now a actor from only r
        × IsWritten wall to (time_or r.accepted_at mark) r w
        × (o ≡ (some w, insert t w s)))
      ⊎ (((r : TransferRequestRecord)
            → lookup t s ≡ some r
            → ¬ MayWrite devices now a actor from only r)
          × (o ≡ (none, s)))

  clash :
      (from : List TransferStatus) (only : Bool) (r r' : TransferRequestRecord)
      → lookup t s ≡ some r
      → lookup t s ≡ some r'
      → actor_rejects now a from actor only r ≡ true
      → MayWrite devices now a actor from only r'
      → ⊥
  clash from only r r' e found bad m =
      let same : r' ≡ r = cc in cc (must_write devices now a actor from only r (rw same at m))

  actor_transition-Decides :
      (from : List TransferStatus) (to : TransferStatus) (mark : Option ℕ) (only : Bool)
      → ((r : TransferRequestRecord)
          → IsWritten wall to (time_or r.accepted_at mark) r (updated_record wall to none r))
      → Decides from to mark only (actor_transition devices now wall a t from to actor only none s)
  unfolding actor_transition update_row
  actor_transition-Decides from to mark only written =
      elim (Bool-cases (actor_allowed devices a actor)) [
        | inr barred ↦
            inr
              ((λ r e m. let open_one = IsActiveActor-allowed devices a actor m.0 in cc), rw barred)
        | inl allowed ↦ elim (Option-cases (lookup t s)) [
          | inl e ↦ inr ((λ r found m. cc), rw allowed (rw (e, write_row)))
          | inr (r, e) ↦ elim (Bool-cases (actor_rejects now a from actor only r)) [
            | inl bad ↦ inr (
              (λ r' found m. clash from only r r' e found bad m),
              rw allowed (rw (e, write_row) (rw bad)),
            )
            | inr good ↦ inl (
              r,
              updated_record wall to none r,
              e,
              may_write devices now a actor from only r allowed good,
              written r,
              rw allowed (rw (e, write_row) (rw good)),
            )
          ]
        ]
      ]

  -- `accept` and `reject` write the row exactly when the row is an offer of the account that names the
  -- actor as the recipient, and the deadline is ahead; `cancel` exactly when the row is an active transfer
  -- of the account of which the actor is the sender or the recipient, and the deadline is ahead. In both
  -- cases the device repository, if there is one, must have the actor as an active device of the account.
  -- They write the new status, no failure code, and, for `accept` and `cancel`, the wall clock as the
  -- acceptance time if there is none; they return that row. Otherwise they return nothing and change
  -- nothing.
  pub actions-Decides :
      Decides (offered ∷ []) accepted (some wall) true (accept devices now wall a t actor s)
      × Decides (offered ∷ []) rejected none true (reject devices now wall a t actor s)
      × Decides
          (offered ∷ accepted ∷ negotiating ∷ connected ∷ transferring ∷ [])
          cancelled
          (some wall)
          false
          (cancel devices now wall a t actor s)
  unfolding accept reject cancel
  actions-Decides = (
    actor_transition-Decides (offered ∷ []) accepted (some wall) true (accept_writes wall),
    actor_transition-Decides (offered ∷ []) rejected none true (reject_writes wall),
    actor_transition-Decides active_statuses cancelled (some wall) false (cancel_writes wall),
  )
