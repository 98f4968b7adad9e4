-- ===== src/Smtpd/Database.antt =====
-- cmail-smtpd/database.c: the databases of single users that the SMTP server has attached, and the
-- preparation of its statements. sqlite and the allocator answer by parameters.
pub mod Refresh
use cmail.Base.{
  ℕ, Bool, true, false, not, ◌&&◌, ◌||◌, List, [], ◌∷◌, Option, none, some, if◌then◌else◌, Bytes,
  str_eq, ℤ, pos, negsuc, ◌==◌,
}

-- USER_DATABASE: `is_open` stands for `conn`, with which `mailbox` is prepared.
pub record UserDatabase : Type 0 where
  pub is_open : Bool
  pub active : Bool
  pub file_name : Option Bytes

abbrev pub empty_db : UserDatabase
empty_db = record { is_open = false; active = false; file_name = none }

-- The array of pointers up to its NULL, or `none` for NULL
abbrev pub Users : Type 0
Users = Option (List UserDatabase)

-- What happens when a database is attached
pub record Opening : Type 0 where
  pub users_alloc : Bool
  pub realloc_ok : Bool
  pub entry_alloc : Bool
  pub opens : Bool
  pub prepares : Bool
  pub copies : Bool

-- What is left in the slot, and the result
unfoldable pub open_entry : Opening → Bytes → UserDatabase → UserDatabase × ℤ
open_entry o dbfile entry =
    if o.opens && o.prepares
    then if o.copies
      then (record entry { is_open = true; file_name = some dbfile }, pos 0)
      else (record entry { is_open = false; file_name = none }, negsuc 0)
    else (record entry { is_open = false }, negsuc 0)

abbrev pub in_front : UserDatabase → Users × ℤ → Users × ℤ
in_front entry (none, rv) = (none, rv)
in_front entry (some us, rv) = (some (entry ∷ us), rv)

abbrev pub with_rest : List UserDatabase → UserDatabase × ℤ → Users × ℤ
with_rest us (entry, rv) = (some (entry ∷ us), rv)

-- The first slot that is not open is used again; at the end the array grows.
unfoldable pub attach_in : Opening → Bytes → List UserDatabase → Users × ℤ
unfolding open_entry
attach_in o dbfile [] =
    if o.realloc_ok
    then if o.entry_alloc then with_rest [] (open_entry o dbfile empty_db) else (some [], negsuc 0)
    else (none, negsuc 0)
attach_in o dbfile (u ∷ us) =
    let later = attach_in o dbfile us in
    if u.is_open then in_front u later else with_rest us (open_entry o dbfile u)

unfoldable pub database_attach : Opening → Users → Bytes → Users × ℤ
unfolding attach_in
database_attach o none dbfile = if o.users_alloc then attach_in o dbfile [] else (none, negsuc 0)
database_attach o (some us) dbfile = attach_in o dbfile us

unfoldable pub database_detach : UserDatabase → UserDatabase
database_detach u = empty_db

abbrev pub is_named : Bytes → Option Bytes → Bool
is_named filename none = false
is_named filename (some name) = str_eq name filename

unfoldable pub find_in : Bytes → List UserDatabase → Option UserDatabase
find_in filename [] = none
find_in filename (u ∷ us) =
    let later = find_in filename us in if is_named filename u.file_name then some u else later

unfoldable pub database_userdb : Users → Bytes → Option UserDatabase
unfolding find_in
database_userdb none filename = none
database_userdb (some us) filename = find_in filename us

-- database_userdb(...)->active = true
unfoldable pub activate : Bytes → List UserDatabase → List UserDatabase
activate filename [] = []
activate filename (u ∷ us) =
    let later = activate filename us in
    if is_named filename u.file_name then record u { active = true } ∷ us else u ∷ later

unfoldable pub deactivate : List UserDatabase → List UserDatabase
deactivate [] = []
deactivate (u ∷ us) = record u { active = false } ∷ deactivate us

unfoldable pub detach_inactive : List UserDatabase → List UserDatabase
unfolding database_detach
detach_inactive [] = []
detach_inactive (u ∷ us) =
    let rest = detach_inactive us in if u.active then u ∷ rest else database_detach u ∷ rest

abbrev pub on_users : (List UserDatabase → List UserDatabase) → Users → Users
on_users f none = none
on_users f (some us) = some (f us)

-- A row whose database is attached already is passed over. A failure ends the loop.
abbrev pub on_row :
    (Users → Users × ℤ) → Bytes → Users → Option UserDatabase → Users × ℤ → Users × ℤ
on_row next name users (some u) attached = next users
on_row next name users none (users', pos n) = next (on_users (activate name) users')
on_row next name users none (users', negsuc n) = (users', negsuc 0)

-- The rows of QUERY_USER_DATABASES, and whether the query ends well
unfoldable pub refresh_rows : (Bytes → Opening) → List Bytes → Bool → Users → Users × ℤ
unfolding database_userdb database_attach activate
refresh_rows o [] ends users = (users, if ends then pos 0 else negsuc 0)
refresh_rows o (name ∷ names) ends users =
    on_row (refresh_rows o names ends) name users (database_userdb users name)
      (database_attach (o name) users name)

abbrev pub detached : Users × ℤ → Users × ℤ
detached (users, rv) = (on_users detach_inactive users, rv)

unfoldable pub database_refresh : (Bytes → Opening) → Bool → List Bytes → Bool → Users → Users × ℤ
unfolding refresh_rows deactivate detach_inactive
database_refresh o prepared names ends users =
    if prepared
    then detached (refresh_rows o names ends (on_users deactivate users))
    else (users, negsuc 0)

-- CMAIL_CURRENT_SCHEMA_VERSION
abbrev pub cmail_current_schema_version : ℕ
cmail_current_schema_version = 9

-- What the statements of the server answer when they are prepared
pub record Prepared : Type 0 where
  pub schema_version : ℕ
  pub query_authdata : Bool
  pub query_address : Bool
  pub query_outbound_router : Bool
  pub mailbox_master : Bool
  pub outbox_master : Bool

unfoldable pub database_initialize :
    Prepared → (Bytes → Opening) → Bool → List Bytes → Bool → Users → Users × ℤ
unfolding database_refresh
database_initialize p o prepared names ends users =
    if p.schema_version == cmail_current_schema_version
      && (p.query_authdata
          && p.query_address
          && p.query_outbound_router
          && (p.mailbox_master && p.outbox_master))
    then database_refresh o prepared names ends users
    else (users, negsuc 0)
