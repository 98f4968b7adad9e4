-- ===== src/Admin/Password/Salt.antt =====
-- cmail-admin/user: the text that set_password stores is one that auth_validate reads.
use cmail.Base.{
  ℕ, zero, suc, ◌%◌, ◌<◌, ◌≤◌, List, [], ◌∷◌, ◌++◌, some, ◌≡◌, ◌≢◌, refl, ap, arith, length,
  length-append, get_elem?, take, All, Bytes, c_str, c_str_same,
}
use cmail.Auth.Credentials.{split_salt}
use cmail.Admin.Password.{salt_alphabet, letter_or_nul, salt_of, auth_data}

-- A letter that is neither the separator nor the terminator
abbrev pub IsSaltLetter : ℕ → Type 0
IsSaltLetter c = (c ≢ 58) × (c ≢ 0)

alphabet : All IsSaltLetter salt_alphabet
alphabet = omega arith

All-get_elem? {ℓ} :
    (P : ℕ → Type ℓ) (xs : List ℕ) (i : ℕ)
    → All P xs
    → i < length xs
    → P (letter_or_nul (get_elem? xs i))
All-get_elem? P [] i h lt = absurd (omega arith)
All-get_elem? P (x ∷ xs) zero h lt = h.0
All-get_elem? P (x ∷ xs) (suc i) h lt = All-get_elem? P xs i h.1 (omega arith)

pub salt_of-All : (rs : List ℕ) → All IsSaltLetter (salt_of rs)
unfolding salt_of
salt_of-All [] = tt
salt_of-All (r ∷ rs) =
    (All-get_elem? IsSaltLetter salt_alphabet (r % 62) alphabet (omega arith), salt_of-All rs)

pub length-salt_of : (rs : List ℕ) → length (salt_of rs) ≡ length rs
unfolding salt_of
length-salt_of [] = refl
length-salt_of (r ∷ rs) = ap suc (length-salt_of rs)

salt_c_str : (s : Bytes) → All IsSaltLetter s → c_str s ≡ s
salt_c_str [] h = refl
salt_c_str (c ∷ cs) h = ground (arith, h.0.1, salt_c_str cs h.1)

split_salt-append :
    (s d : Bytes)
    → All IsSaltLetter s
    → split_salt (s ++ b':' ∷ d) ≡ some (record { salt = s; stored_hash = d })
unfolding split_salt
split_salt-append [] d h = refl
split_salt-append (c ∷ cs) d h = rw (split_salt-append cs d h.1) (ground (arith, h.0.0))

take_all : (n : ℕ) (xs : Bytes) → length xs ≤ n → take n xs ≡ xs
take_all zero [] h = refl
take_all zero (x ∷ xs) h = absurd (omega arith)
take_all (suc n) [] h = refl
take_all (suc n) (x ∷ xs) h = ap (◌∷◌ x) (take_all n xs (omega arith))

-- A digest of 64 characters, and a salt of at most ten random letters
pub split_salt-auth_data :
    (hash : Bytes → Bytes → Bytes) (rs : List ℕ) (password : Bytes)
    → length rs ≡ 10
    → length (hash (salt_of rs) password) ≡ 64
    → All (λ c. c ≢ 0) (hash (salt_of rs) password)
    → split_salt (auth_data hash (salt_of rs) password)
      ≡ some (record { salt = salt_of rs; stored_hash = hash (salt_of rs) password })
unfolding auth_data
split_salt-auth_data hash rs password ten digest text =
    let salt = salt_of rs in
    let letters = salt_of-All rs in
    let h = hash salt password in
    rw (salt_c_str salt letters, c_str_same h text)
      (rw
        (take_all 76 (salt ++ b':' ∷ h)
          (omega (arith, length-append salt (b':' ∷ h), length-salt_of rs)))
        (split_salt-append salt h letters))
