-- ===== src/Identity/Follows.antt =====
-- How the rows of devices and sessions may change.
use self_relay.Base.{ℕ, ◌≤◌, ◌≡◌, refl, ◌∙◌, false, Option, none, some, is_some, Holds, arith}
use mathlib.Core.Path.{subst}
use self_relay.Base.Dict.{lookup}
use self_relay.Base.Grows.{Grows, Grows-refl, Grows-holds, Grows-trans}
use self_relay.Records.{DeviceRecord, DeviceStatus, SessionRecord}
use self_relay.Identity.Database.{IdentityDatabase}

-- A revoked device stays revoked.
abbrev pub StaysRevoked : DeviceStatus → DeviceStatus → Type 0
StaysRevoked DeviceStatus.active s = Unit
StaysRevoked DeviceStatus.inactive s = Unit
StaysRevoked DeviceStatus.revoked s = s ≡ DeviceStatus.revoked

-- A device keeps its owner, its key and its epoch.
abbrev pub DeviceFollows : DeviceRecord → DeviceRecord → Type 0
DeviceFollows d d' =
    (d'.id ≡ d.id)
    × (d'.user_id ≡ d.user_id)
    × (d'.epoch ≡ d.epoch)
    × (d'.signing_public_key_spki ≡ d.signing_public_key_spki)
    × (d'.fingerprint ≡ d.fingerprint)
    × StaysRevoked d.status d'.status

abbrev pub AnyDevice : DeviceRecord → Type 0
AnyDevice d = Unit

-- A session that is revoked is final.
abbrev pub IsFinal : Option ℕ → SessionRecord → SessionRecord → Type 0
IsFinal none s s' = Unit
IsFinal (some t) s s' = s' ≡ s

-- A session keeps its owner, its device, its token, its epoch and its absolute deadline.
abbrev pub SessionFollows : SessionRecord → SessionRecord → Type 0
SessionFollows s s' =
    (s'.id ≡ s.id)
    × (s'.user_id ≡ s.user_id)
    × (s'.device_id ≡ s.device_id)
    × (s'.token_hash ≡ s.token_hash)
    × (s'.epoch ≡ s.epoch)
    × (s'.absolute_expires_at ≡ s.absolute_expires_at)
    × IsFinal s.revoked_at s s'

abbrev pub IsOrdered : SessionRecord → Type 0
IsOrdered s = s.idle_expires_at ≤ s.absolute_expires_at

pub DeviceFollows-refl : (d : DeviceRecord) → DeviceFollows d d
DeviceFollows-refl d = (refl, refl, refl, refl, refl, stays d.status)
  where
    stays : (s : DeviceStatus) → StaysRevoked s s
    stays DeviceStatus.active = tt
    stays DeviceStatus.inactive = tt
    stays DeviceStatus.revoked = refl

StaysRevoked-trans : (a b c : DeviceStatus) → StaysRevoked a b → StaysRevoked b c → StaysRevoked a c
StaysRevoked-trans DeviceStatus.active b c p q = tt
StaysRevoked-trans DeviceStatus.inactive b c p q = tt
StaysRevoked-trans DeviceStatus.revoked b c p q = subst (λ s. StaysRevoked s c) p q

DeviceFollows-trans :
    (x y z : DeviceRecord) → DeviceFollows x y → DeviceFollows y z → DeviceFollows x z
DeviceFollows-trans x y z p q = (
  q.0 ∙ p.0,
  q.1 ∙ p.1,
  q.2 ∙ p.2,
  q.3 ∙ p.3,
  q.4 ∙ p.4,
  StaysRevoked-trans x.status y.status z.status p.5 q.5,
)

IsFinal-self : (o : Option ℕ) (s : SessionRecord) → IsFinal o s s
IsFinal-self none s = tt
IsFinal-self (some t) s = refl

pub IsFinal-open : (o : Option ℕ) (s s' : SessionRecord) → is_some o ≡ false → IsFinal o s s'
IsFinal-open none s s' e = tt
IsFinal-open (some t) s s' e = ground arith

pub SessionFollows-refl : (s : SessionRecord) → SessionFollows s s
SessionFollows-refl s = (refl, refl, refl, refl, refl, refl, IsFinal-self s.revoked_at s)

IsFinal-trans :
    (o : Option ℕ) (x y z : SessionRecord)
    → x.revoked_at ≡ o
    → IsFinal o x y
    → IsFinal y.revoked_at y z
    → IsFinal o x z
IsFinal-trans none x y z e p q = tt
IsFinal-trans (some t) x y z e p q =
    subst (λ o. IsFinal o x z) e (subst (λ s. IsFinal s.revoked_at s z) p q)

SessionFollows-trans :
    (x y z : SessionRecord) → SessionFollows x y → SessionFollows y z → SessionFollows x z
SessionFollows-trans x y z p q = (
  q.0 ∙ p.0,
  q.1 ∙ p.1,
  q.2 ∙ p.2,
  q.3 ∙ p.3,
  q.4 ∙ p.4,
  q.5 ∙ p.5,
  IsFinal-trans x.revoked_at x y z refl p.6 q.6,
)

-- Every session's idle deadline is within its absolute one.
abbrev pub AreOrdered : IdentityDatabase → Type 0
AreOrdered db = (j : ℕ) → Holds IsOrdered (lookup j db.sessions)

-- No device and no session goes away, and each follows its earlier self.
pub record Follows (db db' : IdentityDatabase) : Type 0 where
  pub devices : (j : ℕ) → Grows DeviceFollows AnyDevice (lookup j db.devices) (lookup j db'.devices)
  pub sessions :
      (j : ℕ) → Grows SessionFollows IsOrdered (lookup j db.sessions) (lookup j db'.sessions)

any_device : (o : Option DeviceRecord) → Holds AnyDevice o
any_device none = tt
any_device (some d) = tt

pub devices-same :
    (db : IdentityDatabase) (j : ℕ)
    → Grows DeviceFollows AnyDevice (lookup j db.devices) (lookup j db.devices)
devices-same db j =
    Grows-refl DeviceFollows AnyDevice DeviceFollows-refl (lookup j db.devices)
      (any_device (lookup j db.devices))

pub sessions-same :
    (db : IdentityDatabase)
    → AreOrdered db
    → (j : ℕ) → Grows SessionFollows IsOrdered (lookup j db.sessions) (lookup j db.sessions)
sessions-same db o j =
    Grows-refl SessionFollows IsOrdered SessionFollows-refl (lookup j db.sessions) (o j)

pub Follows-refl : (db : IdentityDatabase) → AreOrdered db → Follows db db
Follows-refl db o = record { devices = devices-same db; sessions = sessions-same db o }

pub Follows-trans : (a b c : IdentityDatabase) → Follows a b → Follows b c → Follows a c
Follows-trans a b c p q = record {
  devices = λ j.
      Grows-trans DeviceFollows AnyDevice DeviceFollows-trans (lookup j a.devices)
        (lookup j b.devices) (lookup j c.devices) (p.devices j) (q.devices j);
  sessions = λ j.
      Grows-trans SessionFollows IsOrdered SessionFollows-trans (lookup j a.sessions)
        (lookup j b.sessions) (lookup j c.sessions) (p.sessions j) (q.sessions j);
}

pub Follows-AreOrdered : (a b : IdentityDatabase) → Follows a b → AreOrdered b
Follows-AreOrdered a b p j =
    Grows-holds SessionFollows IsOrdered (lookup j a.sessions) (lookup j b.sessions) (p.sessions j)
