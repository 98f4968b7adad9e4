-- ===== src/Admin/User.antt =====
-- cmail-admin/user: user.c, and the commands of cmail-admin-user.c, on the table `users`.
pub mod Login
use cmail.Base.{
  ℕ, zero, suc, Bool, true, false, not, ◌&&◌, ◌||◌, List, [], ◌∷◌, Option, none, some,
  if◌then◌else◌, ltb, length, replicate, Bytes, codes, str_eq, c_str, ℤ, pos, negsuc, ◌==◌, is_some,
}
use cmail.Auth.Credentials.{AuthAnswer, row, unknown_user}
use cmail.Admin.Statement.{Statement, Query, status_of}
use cmail.Admin.Password.{ask_password, max_pw_length, generate_salt, auth_data}

pub record User : Type 0 where
  pub user_name : Bytes
  pub user_authdata : Option Bytes
  pub user_database : Option Bytes
  pub user_alias : Option Bytes

abbrev pub Table : Type 0
Table = List User

unfoldable pub user_of : Bytes → Table → Option User
user_of name [] = none
user_of name (u ∷ us) =
    let rest = user_of name us in if str_eq u.user_name name then some u else rest

-- UPDATE users SET ... WHERE user_name = ?1
unfoldable pub update_where : Bytes → (User → User) → Table → Table
update_where name f [] = []
update_where name f (u ∷ us) = (if str_eq u.user_name name then f u else u) ∷ update_where name f us

-- ON DELETE SET NULL
abbrev unalias : Bytes → User → User
unalias name u = elim u.user_alias [
  | none ↦ u
  | some alias ↦ if str_eq alias name then record u { user_alias = none } else u
]

unfoldable pub delete_where : Bytes → Table → Table
delete_where name [] = []
delete_where name (u ∷ us) =
    let rest = delete_where name us in
    if str_eq u.user_name name then rest else unalias name u ∷ rest

-- How the statement ends, with the table that it makes; `may` is what the constraints say.
abbrev pub execute : Statement → ℤ → Bool → Table → Table → Table × ℤ
execute s unbound may t t' =
    if s.is_prepared
    then if s.is_bound
      then if s.is_executed && may then (t', pos 0) else (t, pos 5)
      else (t, unbound)
    else (t, pos 2)

-- What the statement text does to a table, and whether the constraints of the table allow it
pub data Change : Type 0 where
  set_alias set_userdb set_password_of add_user : Change

abbrev pub set_field : Change → Option Bytes → User → User
set_field set_alias v u = record u { user_alias = v }
set_field set_userdb v u = record u { user_database = v }
set_field set_password_of v u = record u { user_authdata = v }
set_field add_user v u = u

abbrev pub new_user : Bytes → Option Bytes → User
new_user name auth = record {
  user_name = name;
  user_authdata = auth;
  user_database = none;
  user_alias = none;
}

abbrev pub change : Change → Bytes → Option Bytes → Table → Table
change add_user name v t = new_user name v ∷ t
change c name v t = update_where name (set_field c v) t

-- A name is unique, and an alias is a user.
abbrev pub is_allowed : Change → Bytes → Option Bytes → Table → Bool
is_allowed add_user name v t = not (is_some (user_of name t))
is_allowed set_alias name (some alias) t =
    is_some (user_of alias t) || not (is_some (user_of name t))
is_allowed _ name v t = true

unfoldable pub sqlite_update_user : Statement → Table → Change → Bytes → Option Bytes → Table × ℤ
unfolding user_of update_where
sqlite_update_user s t c name v = execute s (pos 4) (is_allowed c name v t) t (change c name v t)

unfoldable pub sqlite_set_alias : Statement → Table → Bytes → Option Bytes → Table × ℤ
unfolding sqlite_update_user
sqlite_set_alias s t name alias = sqlite_update_user s t set_alias name alias

unfoldable pub sqlite_set_userdb : Statement → Table → Bytes → Option Bytes → Table × ℤ
unfolding sqlite_update_user
sqlite_set_userdb s t name userdb = sqlite_update_user s t set_userdb name userdb

unfoldable pub sqlite_set_password : Statement → Table → Bytes → Option Bytes → Table × ℤ
unfolding sqlite_update_user
sqlite_set_password s t name auth = sqlite_update_user s t set_password_of name auth

unfoldable pub sqlite_add_user : Statement → Table → Bytes → Option Bytes → Table × ℤ
unfolding sqlite_update_user
sqlite_add_user s t name auth = sqlite_update_user s t add_user name auth

unfoldable pub sqlite_delete_user : Statement → Table → Bytes → Table × ℤ
unfolding delete_where
sqlite_delete_user s t name = execute s (pos 3) true t (delete_where name t)

-- The rows with their counts are sqlite's; a failure at their end is -1.
unfoldable pub sqlite_get {ℓ} : {A : Type ℓ} → Query A → List A × ℤ
sqlite_get q =
    if q.is_prepared
    then if q.is_bound then (q.rows, if is_some q.failure then negsuc 0 else pos 0) else ([], pos 3)
    else ([], pos 2)

-- What the tool is given: the digest of auth_hash, the bytes of common_rand, and the keys typed
pub record Input : Type 0 where
  pub hash : Bytes → Bytes → Bytes
  pub randomness : Option (List ℕ)
  pub keys : List ℕ

abbrev pub store_salted : Input → Statement → Table → Bytes → Bytes → Option Bytes → Table × ℤ
store_salted x s t name password none = (t, pos 21)
store_salted x s t name password (some salt) =
    sqlite_set_password s t name (some (auth_data x.hash salt password))

unfoldable pub set_password : Input → Statement → Table → Bytes → Option Bytes → Table × ℤ
unfolding sqlite_set_password
set_password x s t name none = sqlite_set_password s t name none
set_password x s t name (some password) =
    store_salted x s t name password (generate_salt x.randomness)

-- `pw[0] ? pw:NULL`
abbrev pub unless_empty : Bytes → Option Bytes
unless_empty [] = none
unless_empty (c ∷ cs) = some (c ∷ cs)

abbrev pub with_typed : Input → Statement → Table → Bytes → Option ℕ × Bytes → Table × ℤ
with_typed x s t name (none, buffer) = (t, pos 11)
with_typed x s t name (some n, buffer) = set_password x s t name (unless_empty (c_str buffer))

-- The arguments stand behind the command's name.
unfoldable pub mode_passwd : Input → Statement → Table → List Bytes → Table × ℤ
unfolding set_password ask_password
mode_passwd x s t [] = (t, negsuc 0)
mode_passwd x s t (name ∷ []) =
    with_typed x s t name (ask_password x.keys (replicate max_pw_length 0) max_pw_length)
mode_passwd x s t (name ∷ pw ∷ _) = set_password x s t name (unless_empty pw)

abbrev pub passwd_of_new : Input → Statement → List Bytes → Table × ℤ → Table × ℤ
passwd_of_new x s args (t, pos zero) = mode_passwd x s t args
passwd_of_new x s args (t, status) = (t, negsuc 0)

unfoldable pub mode_add : Input → Statement → Statement → Table → List Bytes → Table × ℤ
unfolding mode_passwd sqlite_add_user
mode_add x insertion update t [] = (t, negsuc 0)
mode_add x insertion update t (name ∷ args) =
    passwd_of_new x update (name ∷ args) (sqlite_add_user insertion t name none)

-- Without a name, mode_userdb and mode_alias go on and read behind the arguments: `none`.
unfoldable pub mode_userdb : Statement → Table → List Bytes → Option (Table × ℤ)
unfolding sqlite_set_userdb
mode_userdb s t [] = none
mode_userdb s t (name ∷ path ∷ []) =
    some (sqlite_set_userdb s t name (if ltb 1 (length path) then some path else none))
mode_userdb s t (name ∷ _) = some (sqlite_set_userdb s t name none)

unfoldable pub mode_alias : Statement → Table → List Bytes → Option (Table × ℤ)
unfolding sqlite_set_alias
mode_alias s t [] = none
mode_alias s t (name ∷ alias ∷ []) =
    some (sqlite_set_alias s t name (if str_eq name alias then none else some alias))
mode_alias s t (name ∷ _) = some (sqlite_set_alias s t name none)

unfoldable pub mode_revoke : Input → Statement → Table → List Bytes → Table × ℤ
unfolding set_password
mode_revoke x s t (name ∷ []) = set_password x s t name none
mode_revoke x s t _ = (t, negsuc 0)

unfoldable pub mode_delete : Statement → Table → List Bytes → Table × ℤ
unfolding sqlite_delete_user
mode_delete s t (name ∷ []) = sqlite_delete_user s t name
mode_delete s t _ = (t, negsuc 0)

unfoldable pub mode_list {ℓ} : {A : Type ℓ} → (Bytes → Query A) → List Bytes → List A × ℤ
unfolding sqlite_get
mode_list q [] = sqlite_get (q (codes "%"))
mode_list q (filter ∷ _) = sqlite_get (q filter)

abbrev pub answer_of : Option User → AuthAnswer
answer_of none = unknown_user
answer_of (some u) = row u.user_authdata u.user_alias

-- SELECT user_authdata, user_alias, user_database FROM main.users WHERE user_name = ?
unfoldable pub authdata_of : Bytes → Table → AuthAnswer
unfolding user_of
authdata_of name t = answer_of (user_of name t)
