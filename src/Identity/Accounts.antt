-- ===== src/Identity/Accounts.antt =====
-- `AccountRepository` of backend/app/repositories/accounts.py.
use self_relay.Base.{ℕ, ◌&&◌, ◌||◌, not, Option, none, some, String, ◌==◌, if◌then◌else◌, is_some}
use text.Mathlib.Text.{◌==◌ as str_eq}
use self_relay.Base.Dict.{Dict, lookup, insert}
use self_relay.Base.Rows.{update_row}
use self_relay.Base.Where.{find_where}
use self_relay.Records.{AccountRecord}
use self_relay.Identity.Database.{IdentityDatabase}

abbrev pub undeleted : Option AccountRecord → Option AccountRecord
undeleted none = none
undeleted (some a) = if is_some a.deleted_at then none else some a

unfoldable pub get_by_id : (account_id : ℕ) → IdentityDatabase → Option AccountRecord
get_by_id account_id db = undeleted (lookup account_id db.accounts)

unfoldable pub get_by_supabase_user_id :
    (supabase_user_id : ℕ) → IdentityDatabase → Option AccountRecord
unfolding find_where
get_by_supabase_user_id user db =
    find_where (λ a. a.supabase_user_id == user && not (is_some a.deleted_at)) db.accounts

unfoldable pub get_by_email : String → IdentityDatabase → Option AccountRecord
unfolding find_where
get_by_email email db =
    find_where (λ a. str_eq a.email_normalized email && not (is_some a.deleted_at)) db.accounts

abbrev pub new_account : (now id supabase_user_id : ℕ) → String → AccountRecord
new_account now id user email = record {
  id = id;
  supabase_user_id = user;
  email_normalized = email;
  device_epoch = 0;
  created_at = now;
  email_fallback_at = none;
  deleted_at = none;
}

-- `create`, for the identifier that the database draws: `none` where a key is taken and it raises.
unfoldable pub create :
    (now id supabase_user_id : ℕ)
    → String
    → IdentityDatabase
    → Option AccountRecord × IdentityDatabase
unfolding find_where
create now id user email db =
    if is_some (lookup id db.accounts)
      || is_some (
          find_where (λ a. a.supabase_user_id == user || str_eq a.email_normalized email)
            db.accounts)
    then (none, db)
    else (
      some (new_account now id user email),
      record db { accounts = insert id (new_account now id user email) db.accounts },
    )

abbrev pub with_accounts :
    IdentityDatabase
    → Option AccountRecord × Dict AccountRecord
    → Option AccountRecord × IdentityDatabase
with_accounts db (a, accounts) = (a, record db { accounts = accounts })

unfoldable pub mark_email_fallback :
    (account_id at : ℕ) → IdentityDatabase → Option AccountRecord × IdentityDatabase
unfolding update_row
mark_email_fallback account_id at db = with_accounts db (
    update_row (λ a. is_some a.deleted_at) (λ a. record a { email_fallback_at = some at })
      account_id db.accounts)
