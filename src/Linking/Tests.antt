-- ===== src/Linking/Tests.antt =====
-- A code that is tried and redeemed.
use self_relay.Base.{◌≡◌, refl, Bool, true, some, none, List, [], ◌∷◌, arith}
use self_relay.Base.Dict.{Dict, lookup, insert}
use self_relay.Records.{AccountRecord, DeviceRecord, DeviceStatus, DeviceLinkingOtpRecord}
use self_relay.Base.Rows.{update_row}
use self_relay.Linking.Codes.{
  LinkingDatabase, Redemption, new_otp, mark_failed, consume_and_register,
}
use self_relay.Linking.Uses.{LinkingStep, fails, redeems, steps, redemptions, failures, IsUsedAt}
use self_relay.Linking.Single.{steps-IsUsedAt}

abbrev any : DeviceRecord → Dict DeviceRecord → Bool
any d ds = true

abbrev account : AccountRecord
account = record {
  id = 1;
  supabase_user_id = 90;
  email_normalized = "a@example.com";
  created_at = 0;
  email_fallback_at = none;
  device_epoch = 3;
  deleted_at = none;
}

abbrev issuer : DeviceRecord
issuer = record {
  id = 5;
  user_id = 1;
  epoch = 3;
  label = "desk";
  signing_public_key_spki = 50;
  fingerprint = 51;
  status = DeviceStatus.active;
  created_at = 0;
  last_seen_at = 0;
  revoked_at = none;
  linked_by_device_id = none;
}

abbrev code : DeviceLinkingOtpRecord
code = new_otp 100 7 1 5 70 400

abbrev database : LinkingDatabase
database = record {
  accounts = (1, account) ∷ [];
  devices = (5, issuer) ∷ [];
  otps = (7, code) ∷ [];
}

abbrev claim : Redemption
claim = record {
  otp_id = 7;
  account_id = 1;
  issuing_device_id = 5;
  epoch = 3;
  device_id = 6;
  label = "phone";
  signing_public_key_spki = 60;
  fingerprint = 61;
}

abbrev tries : List LinkingStep
tries = fails 200 7 ∷ redeems 210 claim ∷ redeems 211 claim ∷ []

-- Of two redemptions one goes through.
one_redemption : redemptions any 7 tries database ≡ 1
unfolding redemptions lookup insert mark_failed consume_and_register update_row
one_redemption = refl

stored : lookup 7 database.otps ≡ some code
unfolding lookup
stored = refl

steps-IsUsedAt_example :
    IsUsedAt
      (redemptions any 7 tries database)
      (failures any 7 tries database)
      code
      (lookup 7 (steps any tries database).otps)
steps-IsUsedAt_example = steps-IsUsedAt any 7 tries code database stored (ground arith)
