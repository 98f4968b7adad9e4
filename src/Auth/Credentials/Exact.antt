-- ===== src/Auth/Credentials/Exact.antt =====
-- lib/auth.c: auth_validate against the row of the user table.
use cmail.Base.{
  Bool, true, Option, none, some, ◌≡◌, inl, inr, refl, arith, Bytes, str_eq_iff, Bool-cases,
}
use cmail.Auth.Credentials.{
  AuthQuery, AuthAnswer, row, SaltedHash, granted, split_salt, strdup, identity, check_hash,
  check_answer, auth_validate,
}

-- A user's row holds `salt:digest`, with the digest of the salt and this password.
pub record Matches (hash : Bytes → Bytes → Bytes) (q : AuthQuery) (password : Bytes) : Type 0 where
  pub alias : Option Bytes
  pub user_salt : Bytes
  pub parts : SaltedHash
  pub bound : q.bind_ok ≡ true
  pub found : q.answer ≡ row (some user_salt) alias
  pub split : split_salt user_salt ≡ some parts
  pub digest : parts.stored_hash ≡ hash parts.salt password

check_hash_granted :
    (hash : Bytes → Bytes → Bytes) (ok : Bool) (user password : Bytes) (alias : Option Bytes)
    (o : Option SaltedHash) {r : Option Bytes}
    → check_hash hash ok user password alias o ≡ granted r
    → (s : SaltedHash) × (o ≡ some s) × (s.stored_hash ≡ hash s.salt password)
unfolding check_hash
check_hash_granted hash ok user password alias none h = cc
check_hash_granted hash ok user password alias (some s) h =
    (s, refl, ground (arith, str_eq_iff s.stored_hash (hash s.salt password)))

check_answer_granted :
    (hash : Bytes → Bytes → Bytes) (q : AuthQuery) (a : AuthAnswer) (user password : Bytes)
    {r : Option Bytes}
    → q.bind_ok ≡ true
    → q.answer ≡ a
    → check_answer hash q.strdup_ok user password a ≡ granted r
    → Matches hash q password
unfolding check_answer
check_answer_granted hash q (row (some salted) alias) user password b e h =
    let (s, split, digest) =
      check_hash_granted hash q.strdup_ok user password alias (split_salt salted) h in
    record {
      alias = alias;
      user_salt = salted;
      parts = s;
      bound = b;
      found = e;
      split = split;
      digest = digest;
    }
check_answer_granted hash q (row none alias) user password b e h = cc
check_answer_granted hash q _ user password b e h = cc

-- If auth_validate grants a user and a password, then the query found a row whose second half is the
-- digest of its salt and this password.
pub auth_validate_sound :
    (hash : Bytes → Bytes → Bytes) (q : AuthQuery) (user password : Bytes) {r : Option Bytes}
    → auth_validate hash q (some user) (some password) ≡ granted r
    → Matches hash q password
unfolding auth_validate
auth_validate_sound hash q user password {r} h = elim (Bool-cases q.bind_ok) [
  | inl b ↦ check_answer_granted hash q q.answer user password {r = r} b refl (ground arith)
  | inr b ↦ absurd (ground arith)
]

-- auth_validate grants every password that matches the row of the query; the authorized identity is
-- the alias of the row, or else the user, or none if the copy can not be allocated.
pub auth_validate_complete :
    (hash : Bytes → Bytes → Bytes) (q : AuthQuery) (user password : Bytes)
    (m : Matches hash q password)
    → auth_validate hash q (some user) (some password)
      ≡ granted (strdup q.strdup_ok (identity user m.alias))
unfolding auth_validate check_answer check_hash
auth_validate_complete hash q user password m =
    ground (arith, str_eq_iff m.parts.stored_hash (hash m.parts.salt password))
