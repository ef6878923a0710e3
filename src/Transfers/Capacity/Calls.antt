-- ===== src/Transfers/Capacity/Calls.antt =====
-- No operation of the service but `create_offer` adds to a load.
use self_relay.Base.{ℕ, ◌≤◌, inl, inr, ◌&&◌, Option, none, some, List, [], ◌∷◌, leb, Bool-cases}
use self_relay.Records.{TransferStatus, TransferRequestRecord, offered}
use self_relay.Transfers.Status.{status_in, active_statuses}
use self_relay.Transfers.Port.{Readings, TransferPort, load}
use self_relay.Transfers.Service.{
  ServiceState, Result, ok, err, TransferError, Config, Effect, Message, M, active_at, device_count,
  over_capacity, max_active_per_account, max_active_per_device, pure, raise, read, or_raise, call,
  log_effect, raise_if, continue, ◌>>=◌,
}
use self_relay.Transfers.Service
use self_relay.Transfers.Capacity.Shrinks.{
  Shrinks, Shrinks-refl, Shrinks-trans, Shrinking, shrinking, Shrinking-bind, Shrinking-call,
}

module _ (port : TransferPort) where
  open port use {State, IsSound, list_for_account}

  module _ (config : Config) (rd : Readings) where
    pub Shrinking-notify :
        (a d : ℕ) (m : Message) (t : ℕ) → Shrinking port (Service.notify port config rd a d m t)
    unfolding Service.notify
    Shrinking-notify a d m t = search shrinking

    pub Shrinking-notify_participants :
        (a : ℕ) (r : TransferRequestRecord) (m : Message)
        → Shrinking port (Service.notify_participants port config rd a r m)
    unfolding Service.notify_participants
    Shrinking-notify_participants a r m =
        Shrinking-bind port _ _ (Shrinking-notify a r.sender_device_id m r.id)
          λ x. search (shrinking, Shrinking-notify)

    pub Shrinking-release : (t : ℕ) → Shrinking port (Service.release port config rd t)
    unfolding Service.release
    Shrinking-release t = search shrinking

    pub Shrinking-expire : (a t : ℕ) → Shrinking port (Service.expire port config rd a t)
    unfolding Service.expire
    Shrinking-expire a t =
        Shrinking-bind port _ _ step
          λ found. search (shrinking, Shrinking-release, Shrinking-notify_participants)
      where
        step : Shrinking port (call port (port.expire rd a t))
        step = Shrinking-call port (port.expire rd a t) (λ s h. record {
          sound = port.expire_sound rd a t s h;
          no_more = λ now b who. port.expire_load rd a t s now b who h;
        })

    pub Shrinking-expire_or_read :
        (a t : ℕ) → Shrinking port (Service.expire_or_read port config rd a t)
    unfolding Service.expire_or_read
    Shrinking-expire_or_read a t = record { at = λ s h. (Shrinking-expire a t).at s h }

    pub Shrinking-expire_if_stale :
        (a t : ℕ) (o : Option TransferRequestRecord)
        → Shrinking port (Service.expire_if_stale port config rd a t o)
    unfolding Service.expire_if_stale
    Shrinking-expire_if_stale a t none = search shrinking
    Shrinking-expire_if_stale a t (some r) = search (shrinking, Shrinking-expire_or_read)

    pub Shrinking-current_or_expire :
        (a t : ℕ) → Shrinking port (Service.current_or_expire port config rd a t)
    unfolding Service.current_or_expire
    Shrinking-current_or_expire a t = search (shrinking, Shrinking-expire_if_stale)

    pub Shrinking-require_status :
        (ss : List TransferStatus) (e : TransferError) (o : Option TransferRequestRecord)
        → Shrinking port (Service.require_status port config rd ss e o)
    unfolding Service.require_status
    Shrinking-require_status ss e none = search shrinking
    Shrinking-require_status ss e (some r) = search shrinking

    -- A call of the repository whose laws are those of `TransferPort`.
    lawful :
        (f : State → Option TransferRequestRecord × State)
        → ((s : State) → IsSound s → IsSound (f s).1)
        → ((s : State) (now b : ℕ) (who : Option ℕ)
            → IsSound s
            → load now who (list_for_account b (f s).1) ≤ load now who (list_for_account b s))
        → Shrinking port (call port f)
    lawful f sound less =
        Shrinking-call port f
          (λ s h. record { sound = sound s h; no_more = λ now b who. less s now b who h })

    pub ruleset steps = (
      shrinking, Shrinking-release, Shrinking-notify, Shrinking-notify_participants,
      Shrinking-current_or_expire, Shrinking-require_status, Shrinking-expire_or_read,
    )

    pub Shrinking-accept : (a t d : ℕ) → Shrinking port (Service.accept port config rd a t d)
    unfolding Service.accept
    Shrinking-accept a t d =
        let step : Shrinking port (call port (port.accept rd a t d)) =
          lawful (port.accept rd a t d) (port.accept_sound rd a t d) (port.accept_load rd a t d) in
        Shrinking-bind port _ _ (Shrinking-current_or_expire a t) λ o.
          Shrinking-bind port _ _
            (Shrinking-require_status (offered ∷ []) Service.offer_unavailable o)
            λ r. Shrinking-bind port _ _ step λ x. search steps

    pub Shrinking-reject : (a t d : ℕ) → Shrinking port (Service.reject port config rd a t d)
    unfolding Service.reject
    Shrinking-reject a t d =
        let step : Shrinking port (call port (port.reject rd a t d)) =
          lawful (port.reject rd a t d) (port.reject_sound rd a t d) (port.reject_load rd a t d) in
        Shrinking-bind port _ _ (Shrinking-current_or_expire a t) λ o.
          Shrinking-bind port _ _
            (Shrinking-require_status (offered ∷ []) Service.offer_unavailable o)
            λ r. Shrinking-bind port _ _ step λ x. search steps

    pub Shrinking-cancel : (a t d : ℕ) → Shrinking port (Service.cancel port config rd a t d)
    unfolding Service.cancel
    Shrinking-cancel a t d =
        let step : Shrinking port (call port (port.cancel rd a t d)) =
          lawful (port.cancel rd a t d) (port.cancel_sound rd a t d) (port.cancel_load rd a t d) in
        Shrinking-bind port _ _ (Shrinking-current_or_expire a t) λ o.
          Shrinking-bind port _ _
            (Shrinking-require_status active_statuses Service.transfer_unavailable o)
            λ r. Shrinking-bind port _ _ step λ x. search steps

    pub Shrinking-get : (a t : ℕ) → Shrinking port (Service.get port config rd a t)
    unfolding Service.get
    Shrinking-get a t = search steps

    pub Shrinking-get_peer_device_key :
        (a t d : ℕ) (e : Option ℕ)
        → Shrinking port (Service.get_peer_device_key port config rd a t d e)
    unfolding Service.get_peer_device_key
    Shrinking-get_peer_device_key a t d e =
        Shrinking-bind port _ _ (Shrinking-current_or_expire a t) λ o. search steps

    Shrinking-refresh :
        (a : ℕ) (r : TransferRequestRecord) → Shrinking port (Service.refresh port config rd a r)
    unfolding Service.refresh
    Shrinking-refresh a r =
        elim (Bool-cases (status_in r.status active_statuses && leb r.expires_at rd.now)) [
          | inl stale ↦ record { at = λ s h. rw stale ((Shrinking-expire_or_read a r.id).at s h) }
          | inr fresh ↦ record { at = λ s h. rw fresh (Shrinks-refl port h) }
        ]

    Shrinking-refresh_all :
        (a : ℕ) (rs : List TransferRequestRecord)
        → Shrinking port (Service.refresh_all port config rd a rs)
    unfolding Service.refresh_all
    Shrinking-refresh_all a [] = search shrinking
    Shrinking-refresh_all a (r ∷ rs) =
        let rest = Shrinking-refresh_all a rs in
        Shrinking-bind port _ _ (Shrinking-refresh a r)
          λ r'. Shrinking-bind port _ _ rest λ x. search shrinking

    pub Shrinking-list_transfers :
        (a : ℕ) → Shrinking port (Service.list_transfers port config rd a)
    unfolding Service.list_transfers
    Shrinking-list_transfers a = search (shrinking, Shrinking-refresh_all)
