-- ===== src/Identity/Kept/Others.antt =====
-- The statements on accounts and tickets leave devices and sessions alone.
use self_relay.Base.{ℕ, ◌&&◌, ◌||◌, Option, none, some, String, ◌==◌, is_some, inl, inr, Bool-cases}
use text.Mathlib.Text.{◌==◌ as str_eq}
use self_relay.Base.Dict.{lookup}
use self_relay.Base.Where.{find_where, key_where}
use self_relay.Identity.Database.{IdentityDatabase}
use self_relay.Identity.Accounts
use self_relay.Identity.Tickets
use self_relay.Identity.Tickets.{
  owned_by, usable_session, admits_ticket, new_ticket, consume_key, consume_socket_key,
}
use self_relay.Identity.Follows.{AreOrdered, Follows, Follows-refl, devices-same, sessions-same}

pub create_account-Follows :
    (now id user : ℕ) (email : String) (db : IdentityDatabase)
    → AreOrdered db
    → Follows db (Accounts.create now id user email db).1
unfolding Accounts.create
create_account-Follows now id user email db o =
    elim (Bool-cases (
      is_some (lookup id db.accounts)
      || is_some (
          find_where (λ a. a.supabase_user_id == user || str_eq a.email_normalized email)
            db.accounts))) [
              | inl taken ↦ rw taken (Follows-refl db o)
              | inr free ↦
                  rw free (record { devices = devices-same db; sessions = sessions-same db o })
            ]

pub mark_email_fallback-Follows :
    (a at : ℕ) (db : IdentityDatabase)
    → AreOrdered db
    → Follows db (Accounts.mark_email_fallback a at db).1
unfolding Accounts.mark_email_fallback
mark_email_fallback-Follows a at db o = record {
  devices = devices-same db;
  sessions = sessions-same db o;
}

pub create_ticket-Follows :
    (now id a s h expires_at : ℕ) (db : IdentityDatabase)
    → AreOrdered db
    → Follows db (Tickets.create now id a s h expires_at db).1
unfolding Tickets.create
create_ticket-Follows now id a s h expires_at db o =
    elim (Bool-cases (
      owned_by a (lookup s db.sessions)
      && usable_session now db (lookup s db.sessions)
      && admits_ticket (new_ticket now id s h expires_at) db)) [
        | inl admitted ↦
            rw admitted (record { devices = devices-same db; sessions = sessions-same db o })
        | inr refused ↦ rw refused (Follows-refl db o)
      ]

pub consume_by_id-Follows :
    (now a t : ℕ) (db : IdentityDatabase)
    → AreOrdered db
    → Follows db (Tickets.consume_by_id now a t db).1
unfolding Tickets.consume_by_id
consume_by_id-Follows now a t db o = record {
  devices = devices-same db;
  sessions = sessions-same db o;
}

consume_key-Follows :
    (now a : ℕ) (k : Option ℕ) (db : IdentityDatabase)
    → AreOrdered db
    → Follows db (consume_key now a k db).1
consume_key-Follows now a none db o = Follows-refl db o
consume_key-Follows now a (some t) db o = consume_by_id-Follows now a t db o

pub consume-Follows :
    (now a h : ℕ) (db : IdentityDatabase)
    → AreOrdered db
    → Follows db (Tickets.consume now a h db).1
unfolding Tickets.consume
consume-Follows now a h db o =
    consume_key-Follows now a (key_where (λ t. t.token_hash == h) db.tickets) db o

consume_socket_key-Follows :
    (now : ℕ) (k : Option ℕ) (db : IdentityDatabase)
    → AreOrdered db
    → Follows db (consume_socket_key now k db).1
consume_socket_key-Follows now none db o = Follows-refl db o
consume_socket_key-Follows now (some t) db o = record {
  devices = devices-same db;
  sessions = sessions-same db o;
}

pub consume_for_socket-Follows :
    (now h : ℕ) (db : IdentityDatabase)
    → AreOrdered db
    → Follows db (Tickets.consume_for_socket now h db).1
unfolding Tickets.consume_for_socket
consume_for_socket-Follows now h db o =
    consume_socket_key-Follows now (key_where (λ t. t.token_hash == h) db.tickets) db o
