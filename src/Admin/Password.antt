-- ===== src/Admin/Password.antt =====
-- cmail-admin/user: ask_password of getpass.c, and generate_salt and set_password's text of
-- cmail-admin-user.c.
pub mod Salt
pub mod Typed
use cmail.Base.{
  ℕ, zero, suc, ◌+◌, ◌-◌, ◌%◌, Bool, ◌||◌, List, [], ◌∷◌, ◌++◌, Option, none, some, ◌==◌,
  if◌then◌else◌, ltb, length, get_elem?, set, take, replicate, Bytes, codes, c_str,
}

abbrev pub max_pw_length : ℕ
max_pw_length = 256

-- what getch returns; the list of them ends where the input does, with EOF from then on
abbrev pub is_end_of_line : ℕ → Bool
is_end_of_line c = c == 10 || c == 13

-- i -= 2, or 0; the loop adds 1 to it
abbrev pub back : ℕ → ℕ
back i = i - 2

-- The loop over the keys: the result, `none` for -1, and the buffer.
unfoldable pub ask_loop : ℕ → List ℕ → ℕ → Bytes → Option ℕ × Bytes
ask_loop maxlength [] i buffer = (some i, set buffer i 0)
ask_loop maxlength (c ∷ keys) i buffer =
    let i' = if c == 8 then back i + 1 else i + 1 in
    let buffer' = if c == 8 then buffer else set buffer i c in
    let rest = ask_loop maxlength keys i' buffer' in
    if c == 3
    then (none, buffer)
    else if is_end_of_line c
    then (some i, set buffer i 0)
    else if ltb i' maxlength
    then rest
    else (none, buffer')

unfoldable pub ask_password : List ℕ → Bytes → ℕ → Option ℕ × Bytes
unfolding ask_loop
ask_password keys buffer zero = (none, buffer)
ask_password keys buffer (suc n) = ask_loop (suc n) keys 0 buffer

abbrev pub salt_alphabet : Bytes
salt_alphabet = codes "ABCDEFGHIJKLMNOPQRSTUVWXYZabcdefghijklmnopqrstuvwxyz0123456789"

abbrev pub letter_or_nul : Option ℕ → ℕ
letter_or_nul none = 0
letter_or_nul (some c) = c

unfoldable pub salt_letter : ℕ → ℕ
salt_letter r = letter_or_nul (get_elem? salt_alphabet (r % 62))

unfoldable pub salt_of : List ℕ → Bytes
unfolding salt_letter
salt_of [] = []
salt_of (r ∷ rs) = salt_letter r ∷ salt_of rs

-- `none` where common_rand fails
unfoldable pub generate_salt : Option (List ℕ) → Option Bytes
unfolding salt_of
generate_salt none = none
generate_salt (some randomness) = some (salt_of randomness)

-- sizeof(auth_data): 10 + 1 for the salt, 64 + 1 for the digest, and one more
abbrev pub auth_data_size : ℕ
auth_data_size = 77

-- snprintf(auth_data, sizeof(auth_data), "%s:%s", salt, password_hash)
unfoldable pub auth_data : (Bytes → Bytes → Bytes) → Bytes → Bytes → Bytes
auth_data hash salt password =
    take (auth_data_size - 1) (c_str salt ++ b':' ∷ c_str (hash salt password))
