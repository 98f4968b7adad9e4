-- ===== src/Admin/User/Login.antt =====
-- cmail-admin/user and lib/auth.c: which passwords log a user in after a command.
use cmail.Base.{
  ℕ, ◌<◌, true, List, [], ◌∷◌, ◌++◌, Option, none, some, ◌≡◌, ◌≢◌, refl, ap, arith, length,
  length-replicate, replicate, All, Bytes, str_eq, c_str, Bool-cases, inl, inr,
}
use cmail.Auth.Credentials.{AuthQuery, row, auth_validate, granted, denied, identity}
use cmail.Auth.Credentials.Exact.{auth_validate_complete}
use cmail.Admin.Statement.{succeeds}
use cmail.Admin.Password.{generate_salt, salt_of, auth_data, ask_password, max_pw_length}
use cmail.Admin.Password.Salt.{split_salt-auth_data}
use cmail.Admin.Password.Typed.{are_plain, ask_password-plain}
use cmail.Admin.User.{
  User, Table, user_of, update_where, set_field, set_password_of, Input, set_password, with_typed,
  sqlite_set_password, mode_passwd, mode_revoke, authdata_of, answer_of,
}

-- The query of the servers for the row of a user
abbrev pub query_of : Bytes → Table → AuthQuery
query_of name t = record { bind_ok = true; answer = authdata_of name t; strdup_ok = true }

user_of-update_where :
    (name : Bytes) (v : Option Bytes) (t : Table) (u : User)
    → user_of name t ≡ some u
    → user_of name (update_where name (set_field set_password_of v) t)
      ≡ some (record u { user_authdata = v })
unfolding user_of update_where
user_of-update_where name v [] u h = absurd cc
user_of-update_where name v (x ∷ xs) u h = elim (Bool-cases (str_eq x.user_name name)) [
  | inl e ↦ ground arith
  | inr e ↦ ground (arith, user_of-update_where name v xs u)
]

authdata_of-set_password :
    (name : Bytes) (v : Option Bytes) (t : Table) (u : User)
    → user_of name t ≡ some u
    → authdata_of name (sqlite_set_password succeeds t name v).0 ≡ row v u.user_alias
unfolding authdata_of sqlite_set_password
authdata_of-set_password name v t u h = ap answer_of (user_of-update_where name v t u h)

module _ (x : Input) (t : Table) (name : Bytes) (u : User) (rs : List ℕ)
    (there : user_of name t ≡ some u) (random : x.randomness ≡ some rs) (ten : length rs ≡ 10) where
  set_password_logs_in :
      (password : Bytes)
      → length (x.hash (salt_of rs) password) ≡ 64
      → All (λ c. c ≢ 0) (x.hash (salt_of rs) password)
      → auth_validate x.hash
          (query_of name (set_password x succeeds t name (some password)).0)
          (some name)
          (some password)
        ≡ granted (some (identity name u.user_alias))
  unfolding set_password generate_salt
  set_password_logs_in password digits text = rw random (
      let data_of = auth_data x.hash (salt_of rs) password in
      auth_validate_complete x.hash
        (query_of name (sqlite_set_password succeeds t name (some data_of)).0) name password
        (record {
          alias = u.user_alias;
          user_salt = data_of;
          parts = record { salt = salt_of rs; stored_hash = x.hash (salt_of rs) password };
          bound = refl;
          found = authdata_of-set_password name (some data_of) t u there;
          split = split_salt-auth_data x.hash rs password ten digits text;
          digest = refl;
        }))

  with_typed_lem :
      (r : Option ℕ × Bytes) (n c : ℕ) (cs : List ℕ)
      → r.0 ≡ some n
      → c_str r.1 ≡ c ∷ cs
      → with_typed x succeeds t name r ≡ set_password x succeeds t name (some (c ∷ cs))
  with_typed_lem (none, buffer) n c cs e f = absurd cc
  with_typed_lem (some m, buffer) n c cs e f = rw f refl

  mode_passwd-typed :
      (c : ℕ) (cs rest : List ℕ)
      → x.keys ≡ (c ∷ cs) ++ 10 ∷ rest
      → are_plain (c ∷ cs) ≡ true
      → length (c ∷ cs) < max_pw_length
      → mode_passwd x succeeds t (name ∷ []) ≡ set_password x succeeds t name (some (c ∷ cs))
  unfolding mode_passwd
  mode_passwd-typed c cs rest typed plain fits =
      let asked =
        ask_password-plain (c ∷ cs) rest (replicate max_pw_length 0) max_pw_length
          (length-replicate {A = ℕ} max_pw_length 0) plain fits in
      with_typed_lem (ask_password x.keys (replicate max_pw_length 0) max_pw_length)
        (length (c ∷ cs)) c cs (rw typed asked.0) (rw typed asked.1)

-- The command `password` for a user that exists: if the random bytes can be had, the statement
-- succeeds and the digest is 64 characters and no NUL, then auth_validate grants the user the password
-- that was typed, of plain keys, not empty and short enough for the buffer.
pub typed_password_logs_in :
    (x : Input) (t : Table) (name : Bytes) (u : User) (rs : List ℕ)
    → user_of name t ≡ some u
    → x.randomness ≡ some rs
    → length rs ≡ 10
    → (c : ℕ) (cs rest : List ℕ) → x.keys ≡ (c ∷ cs) ++ 10 ∷ rest
    → are_plain (c ∷ cs) ≡ true
    → length (c ∷ cs) < max_pw_length
    → length (x.hash (salt_of rs) (c ∷ cs)) ≡ 64
    → All (λ d. d ≢ 0) (x.hash (salt_of rs) (c ∷ cs))
    → auth_validate x.hash
        (query_of name (mode_passwd x succeeds t (name ∷ [])).0)
        (some name)
        (some (c ∷ cs))
      ≡ granted (some (identity name u.user_alias))
typed_password_logs_in x t name u rs there random ten c cs rest typed plain fits digits text =
    rw (mode_passwd-typed x t name u rs there random ten c cs rest typed plain fits)
      (set_password_logs_in x t name u rs there random ten (c ∷ cs) digits text)

-- After the command `revoke` for a user that exists, whose statement succeeds, auth_validate grants
-- the user no password.
pub mode_revoke_locks_out :
    (x : Input) (t : Table) (name password : Bytes) (u : User)
    → user_of name t ≡ some u
    → auth_validate x.hash
        (query_of name (mode_revoke x succeeds t (name ∷ [])).0)
        (some name)
        (some password)
      ≡ denied
unfolding mode_revoke auth_validate
mode_revoke_locks_out x t name password u there =
    rw (authdata_of-set_password name none t u there) refl
