-- ===== src/Auth/Credentials.antt =====
-- lib/auth.c, auth_validate. The query of the user table answers with `AuthQuery`; `hash` is
-- auth_hash, the hex digest that libnettle computes of a salt and a password.
pub mod Exact
use cmail.Base.{Bool, true, false, [], ◌∷◌, Option, none, some, ◌==◌, if◌then◌else◌, Bytes, str_eq}

-- what sqlite3_step answers: a row with `user_authdata` and `user_alias`, no row, or an error
pub data AuthAnswer : Type 0 where
  row : Option Bytes → Option Bytes → AuthAnswer
  unknown_user failed : AuthAnswer

pub record AuthQuery : Type 0 where
  pub bind_ok : Bool
  pub answer : AuthAnswer
  pub strdup_ok : Bool

-- `granted` is the return value 0, with what is stored in `*authorized_identity`.
pub data Validation : Type 0 where
  denied : Validation
  granted : Option Bytes → Validation

pub record SaltedHash : Type 0 where
  pub salt : Bytes
  pub stored_hash : Bytes

-- `index(user_salt, ':')`, and what stands on its two sides
unfoldable pub split_salt : Bytes → Option SaltedHash
split_salt [] = none
split_salt (c ∷ cs) =
    let rest = split_salt cs in
    if c == b':'
    then some (record { salt = []; stored_hash = cs })
    else elim rest [ none ↦ none | some s ↦ some (record s { salt = c ∷ s.salt }) ]

abbrev pub strdup : Bool → Bytes → Option Bytes
strdup ok s = if ok then some s else none

-- the identity of a row whose password fits: the alias, or else the user
abbrev pub identity : Bytes → Option Bytes → Bytes
identity user none = user
identity user (some auth_id) = auth_id

check_hash :
    (Bytes → Bytes → Bytes) → Bool → Bytes → Bytes → Option Bytes → Option SaltedHash → Validation
check_hash hash ok user password alias none = denied
check_hash hash ok user password alias (some s) =
    if str_eq s.stored_hash (hash s.salt password)
    then granted (strdup ok (identity user alias))
    else denied

check_answer : (Bytes → Bytes → Bytes) → Bool → Bytes → Bytes → AuthAnswer → Validation
unfolding check_hash
check_answer hash ok user password (row none alias) = denied
check_answer hash ok user password (row (some user_salt) alias) =
    check_hash hash ok user password alias (split_salt user_salt)
check_answer hash ok user password _ = denied

unfoldable pub auth_validate :
    (Bytes → Bytes → Bytes) → AuthQuery → Option Bytes → Option Bytes → Validation
unfolding check_answer split_salt
auth_validate hash q (some user) (some password) =
    if q.bind_ok then check_answer hash q.strdup_ok user password q.answer else denied
auth_validate hash q _ _ = denied
