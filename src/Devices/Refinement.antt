-- ===== src/Devices/Refinement.antt =====
-- The in-memory device repository does what the SQL one does.
use self_relay.Base.{
  ℕ, ◌≤◌, ◌≡◌, refl, sym, ap, ◌∙◌, Bool, true, false, ◌&&◌, ◌||◌, not, Option, none, some, String,
  ◌==◌, inl, inr, Bool-cases, Option-cases, arith,
}
use self_relay.Base.Dict.{Dict, lookup, insert, lookup-insert, IsUnique}
use self_relay.Base.Rows.{update_row, write_row, update_row-agrees}
use self_relay.Base.Loops.{AreKeyed}
use self_relay.Records.{DeviceRecord, RevocationReason}
use self_relay.Identity.Database.{IdentityDatabase, is_active, is_revoked, fits_length}
use Prim.Native.String.{count}
use self_relay.Identity.Devices
use self_relay.Identity.Sessions
use self_relay.Sessions.Refinement
use self_relay.Sessions.Refinement.{loops-AgreeOnRows}
use self_relay.Devices.Memory.{
  MemoryDevices, of_account, get_by_id, get_by_fingerprint, touch_last_seen, rename,
  logout_with_sessions, and_sessions,
}

-- The in-memory repositories with the rows of the tables
abbrev pub in_memory : (by_token_hash : Dict ℕ) → IdentityDatabase → MemoryDevices
in_memory index db = record { records = db.devices; sessions = Refinement.in_memory index db }

-- The two answer alike, and leave the same row of a device and of a session under every identifier.
abbrev pub Agree :
    Option DeviceRecord × MemoryDevices → Option DeviceRecord × IdentityDatabase → Type 0
Agree (r, st) (r', db) =
    (r ≡ r')
    × ((j : ℕ) → lookup j st.records ≡ lookup j db.devices)
    × ((j : ℕ) → lookup j st.sessions.records ≡ lookup j db.sessions)

same_test :
    (a : ℕ) (d : DeviceRecord)
    → (not (d.user_id == a) || not (is_active d.status))
      ≡ not (d.user_id == a && is_active d.status)
same_test a d = tests (d.user_id == a) (is_active d.status)
  where
    tests : (x y : Bool) → (not x || not y) ≡ not (x && y)
    tests true y = refl
    tests false y = refl

-- On the same rows the in-memory repository finds the device that the SQL one finds, by identifier and
-- by fingerprint, and touching a device, and renaming it to a label of 1 to 100 characters, give the same
-- answer and leave the same rows. (On any other label the SQL statement raises or finds no row.)
pub device_statements-Agree :
    (now account_id device_id fingerprint : ℕ) (label : String) (index : Dict ℕ)
    (db : IdentityDatabase)
    → 1 ≤ count label
    → count label ≤ 100
    → (get_by_id account_id device_id (in_memory index db)
        ≡ Devices.get_by_id account_id device_id db)
      × (get_by_fingerprint account_id fingerprint (in_memory index db)
          ≡ Devices.get_by_fingerprint account_id fingerprint db)
      × Agree
          (touch_last_seen now account_id device_id (in_memory index db))
          (Devices.touch_last_seen now account_id device_id db)
      × Agree
          (rename account_id device_id label (in_memory index db))
          (Devices.rename account_id device_id label db)
unfolding get_by_id get_by_fingerprint touch_last_seen rename Devices.get_by_id
    Devices.get_by_fingerprint Devices.touch_last_seen Devices.rename
device_statements-Agree now a k h label index db some_text short =
    let touched =
      update_row-agrees (λ d. not (d.user_id == a) || not (is_active d.status))
        (λ d. not (d.user_id == a && is_active d.status)) (λ d. record d { last_seen_at = now })
        (λ d. record d { last_seen_at = now }) k db.devices (λ d e. same_test a d) (λ d e. refl) in
    let fits : fits_length 100 label ≡ true = ground arith in
    let renamed =
      update_row-agrees (λ d. not (d.user_id == a))
        (λ d. not (d.user_id == a) || not (fits_length 100 label)) (λ d. record d { label = label })
        (λ d. record d { label = label }) k db.devices
        (λ d e. fitting (d.user_id == a) (fits_length 100 label) fits) (λ d e. refl) in
    (
      same_device (lookup k db.devices),
      refl,
      (ap (λ p. p.0) touched, λ j. ap (λ p. lookup j p.1) touched, λ j. refl),
      (ap (λ p. p.0) renamed, λ j. ap (λ p. lookup j p.1) renamed, λ j. refl),
    )
  where
    fitting : (x y : Bool) → y ≡ true → not x ≡ (not x || not y)
    fitting x y e = ground arith

    same_device : (o : Option DeviceRecord) → of_account a o ≡ Devices.of_account a o
    same_device none = refl
    same_device (some d) = refl

-- A row that is written back as it is
rewritten_row :
    (k j : ℕ) (d : DeviceRecord) (t : Dict DeviceRecord)
    → lookup k t ≡ some d
    → lookup j t ≡ lookup j (insert k d t)
rewritten_row k j d t there = elim (Bool-cases (k == j)) [
  | inl hit ↦
      let key : k ≡ j = ground arith in
      let here : lookup j t ≡ some d = ap (λ i. lookup i t) (sym key) ∙ there in
      let written : lookup j (insert k d t) ≡ some d = lookup-insert j k d t ∙ (rw hit refl) in
      here ∙ sym written
  | inr miss ↦
      let written : lookup j (insert k d t) ≡ lookup j t = lookup-insert j k d t ∙ (rw miss refl) in
      sym written
]

-- Logging a device out does the same in both repositories, revoked devices included: the answer, the row
-- of the device, and the sessions that end; if each session stands under its own identifier, once.
pub logout_with_sessions-Agrees :
    (now account_id device_id : ℕ) (reason : RevocationReason) (index : Dict ℕ)
    (db : IdentityDatabase)
    → IsUnique db.sessions
    → AreKeyed (λ s. s.id) db.sessions
    → Agree
        (logout_with_sessions now account_id device_id reason (in_memory index db))
        (Devices.logout_with_sessions now account_id device_id reason db)
unfolding logout_with_sessions and_sessions Devices.logout_with_sessions update_row
    Sessions.revoke_for_device
logout_with_sessions-Agrees now a k reason index db u keyed =
    let loops = (loops-AgreeOnRows now a k reason index db u keyed).0.1 in
    elim (Option-cases (lookup k db.devices)) [
      | inl gone ↦ rw (gone, write_row) (refl, λ j. refl, λ j. refl)
      | inr (d, there) ↦ elim (Bool-cases (d.user_id == a)) [
        | inl owned ↦ elim (Bool-cases (is_revoked d.status)) [
          | inl revoked ↦
              rw (there, write_row)
                (rw owned
                  (rw revoked (refl, λ j. rewritten_row k j d db.devices there, λ j. loops j)))
          | inr alive ↦ rw (there, write_row) (rw owned (rw alive (refl, λ j. refl, λ j. loops j)))
        ]
        | inr foreign ↦ rw (there, write_row) (rw foreign (refl, λ j. refl, λ j. refl))
      ]
    ]
