-- ===== src/Transfers/Failing.antt =====
-- `fail` of the in-memory repository without a device: the loop over the statuses, which writes the
-- row twice, is one conditional write.
use self_relay.Base.{
  ℕ, ◌≡◌, refl, ◌∙◌, inl, inr, Bool, true, false, ◌||◌, not, Option, none, some, List, [], ◌∷◌,
  String, arith, ◌==◌, leb, Holds, Option-cases, Bool-cases,
}
use self_relay.Base.Dict.{lookup, insert-insert}
use self_relay.Records.{TransferStatus, TransferRequestRecord, failed, offered}
use self_relay.Transfers.Status.{status_in, failable_statuses, valid_transitions}
use self_relay.Base.Rows.{update_row, write_row}
use self_relay.Transfers.Memory.{
  Store, updated_record, transition_rejects, transition, expire_active, expire_rejects,
}
use self_relay.Transfers.Operations.{fail_from, expire}

-- Every row stands under its own identifier.
abbrev pub IsKeyed : Store → Type 0
IsKeyed s = (k : ℕ) → Holds (λ r. r.id ≡ k) (lookup k s)

abbrev pub fail_rejects : ℕ → ℕ → List TransferStatus → TransferRequestRecord → Bool
fail_rejects now account_id from r =
    not (r.user_id == account_id) || not (status_in r.status from) || leb r.expires_at now

-- Statuses from which a transfer may fail.
abbrev AllFailable : List TransferStatus → Type 0
AllFailable [] = Unit {0}
AllFailable (s ∷ ss) = (status_in failed (valid_transitions s) ≡ true) × AllFailable ss

module _ (now wall a t : ℕ) (code : String) (s : Store) where
  abbrev target : List TransferStatus → Option TransferRequestRecord × Store
  target from = update_row (fail_rejects now a from) (updated_record wall failed (some code)) t s

  transition_missing :
      (st : TransferStatus) → lookup t s ≡ none → transition now wall a t st failed s ≡ (none, s)
  unfolding transition update_row
  transition_missing st e = elim (Bool-cases (status_in failed (valid_transitions st))) [
    | inl allowed ↦ rw (allowed) (rw (e, write_row))
    | inr barred ↦ rw barred
  ]

  transition_found :
      (st : TransferStatus) (r : TransferRequestRecord)
      → status_in failed (valid_transitions st) ≡ true
      → lookup t s ≡ some r
      → transition now wall a t st failed s
        ≡ write_row
            (transition_rejects now a st failed)
            (updated_record wall failed none)
            t
            s
            (some r)
  unfolding transition update_row
  transition_found st r allowed e = rw allowed (rw (e, write_row))

  missing :
      (from : List TransferStatus)
      → lookup t s ≡ none
      → fail_from now wall a t code from s ≡ (none, s)
  unfolding fail_from
  missing [] e = refl
  missing (st ∷ rest) e = rw (transition_missing st e) (missing rest e)

  fail_rejects_bad :
      (st : TransferStatus) (rest : List TransferStatus) (r : TransferRequestRecord)
      → transition_rejects now a st failed r ≡ true
      → fail_rejects now a (st ∷ rest) r ≡ fail_rejects now a rest r
  fail_rejects_bad st rest r bad = ground arith

  fail_rejects_good :
      (st : TransferStatus) (rest : List TransferStatus) (r : TransferRequestRecord)
      → transition_rejects now a st failed r ≡ false
      → fail_rejects now a (st ∷ rest) r ≡ false
  fail_rejects_good st rest r good = ground arith

  present :
      (from : List TransferStatus) (r : TransferRequestRecord)
      → AllFailable from
      → lookup t s ≡ some r
      → r.id ≡ t
      → fail_from now wall a t code from s
        ≡ write_row (fail_rejects now a from) (updated_record wall failed (some code)) t s (some r)
  unfolding fail_from
  present [] r h e k = ground arith
  present (st ∷ rest) r h e k = elim (Bool-cases (transition_rejects now a st failed r)) [
    | inl bad ↦
        rw (transition_found st r h.0 e)
          (rw bad (rw (fail_rejects_bad st rest r bad) (present rest r h.1 e k)))
    | inr good ↦ rw (transition_found st r h.0 e) (
        rw good (
          rw (fail_rejects_good st rest r good) (
            ground (
              arith,
              k,
              insert-insert t (updated_record wall failed (some code) r)
                  (updated_record wall failed none r) s,
            ))))
  ]

-- The two writes of `fail` are one: the row gets the status and the code if it may fail at all.
pub fail_from-eq-update_row :
    (now wall a t : ℕ) (code : String) (s : Store)
    → IsKeyed s
    → fail_from now wall a t code failable_statuses s
      ≡ update_row
          (fail_rejects now a failable_statuses)
          (updated_record wall failed (some code))
          t
          s
unfolding update_row
fail_from-eq-update_row now wall a t code s keyed = elim (Option-cases (lookup t s)) [
  | inl e ↦ missing now wall a t code s failable_statuses e ∙ rw (e, write_row)
  | inr (r, e) ↦
      present now wall a t code s failable_statuses r (refl, (refl, (refl, (refl, tt)))) e
        (rw e at (keyed t))
      ∙ rw (e, write_row)
]

module _ (now wall a t : ℕ) (s : Store) where
  abbrev pub expired_row : TransferRequestRecord → TransferRequestRecord
  expired_row = updated_record wall TransferStatus.expired none

  expire_found :
      (r : TransferRequestRecord)
      → lookup t s ≡ some r
      → transition now wall a t offered TransferStatus.expired s
        ≡ write_row
            (transition_rejects now a offered TransferStatus.expired)
            expired_row
            t
            s
            (some r)
  unfolding transition update_row
  expire_found r e = rw (e, write_row)

  -- `expire` tries the offers first and then every active status: one conditional write as well.
  pub expire-eq-update_row :
      expire now wall a t s ≡ update_row (expire_rejects now a) expired_row t s
  unfolding expire expire_active update_row
  expire-eq-update_row = elim (Option-cases (lookup t s)) [
    | inl e ↦ rw (e, write_row) (rw (e, write_row))
    | inr (r, e) ↦ rw (expire_found r e) (rw (e, write_row) (ground arith))
  ]
