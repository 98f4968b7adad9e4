-- ===== src/Admin/Password/Typed.antt =====
-- cmail-admin/user: what ask_password makes of the keys.
use cmail.Base.{
  ℕ, suc, ◌+◌, ◌<◌, Bool, true, not, ◌&&◌, ◌||◌, List, [], ◌∷◌, ◌++◌, Option, some, ◌≡◌, refl, ap,
  ◌∙◌, arith, length, set, Bytes, c_str, ◌==◌,
}
use cmail.Admin.Password.{ask_loop, ask_password, is_end_of_line}

-- A key that is stored as it is
abbrev pub is_plain : ℕ → Bool
is_plain c = not (c == 3 || c == 8 || is_end_of_line c || c == 0)

abbrev pub are_plain : List ℕ → Bool
are_plain [] = true
are_plain (c ∷ cs) = is_plain c && are_plain cs

-- Keys written one by one from a place on
abbrev write_at : ℕ → List ℕ → Bytes → Bytes
write_at i [] buffer = set buffer i 0
write_at i (c ∷ cs) buffer = write_at (suc i) cs (set buffer i c)

ask_loop-plain :
    (size : ℕ) (word rest : List ℕ) (i : ℕ) (buffer : Bytes)
    → are_plain word ≡ true
    → i + length word < size
    → ask_loop size (word ++ 10 ∷ rest) i buffer ≡ (some (i + length word), write_at i word buffer)
unfolding ask_loop
ask_loop-plain size [] rest i buffer plain lt = ground arith
ask_loop-plain size (c ∷ cs) rest i buffer plain lt =
    ground (arith, ask_loop-plain size cs rest (i + 1) (set buffer i c))

write_at-suc :
    (word : List ℕ) (i x : ℕ) (buffer : Bytes)
    → write_at (suc i) word (x ∷ buffer) ≡ x ∷ write_at i word buffer
write_at-suc [] i x buffer = refl
write_at-suc (c ∷ cs) i x buffer = write_at-suc cs (suc i) x (set buffer i c)

c_str-write_at :
    (word : List ℕ) (buffer : Bytes)
    → are_plain word ≡ true
    → length word < length buffer
    → c_str (write_at 0 word buffer) ≡ word
c_str-write_at [] [] plain lt = absurd (omega arith)
c_str-write_at [] (x ∷ b) plain lt = refl
c_str-write_at (c ∷ cs) [] plain lt = absurd (omega arith)
c_str-write_at (c ∷ cs) (x ∷ b) plain lt =
    rw (write_at-suc cs 0 c b) (ground (arith, c_str-write_at cs b (ground arith) (omega arith)))

ask_password_filled :
    (word rest : List ℕ) (buffer : Bytes)
    → are_plain word ≡ true
    → length word < length buffer
    → ask_password (word ++ 10 ∷ rest) buffer (length buffer)
      ≡ (some (length word), write_at 0 word buffer)
unfolding ask_password
ask_password_filled word rest [] plain lt = absurd (omega arith)
ask_password_filled word rest (x ∷ b) plain lt =
    ask_loop-plain (length (x ∷ b)) word rest 0 (x ∷ b) plain (omega arith)
    ∙ ap (λ n. (some n, write_at 0 word (x ∷ b))) (omega arith)

-- A word of plain keys that fits in the buffer, and then a line feed, is what the buffer holds, and
-- its length is the result, whatever stood in the buffer.
pub ask_password-plain :
    (word rest : List ℕ) (buffer : Bytes) (size : ℕ)
    → length buffer ≡ size
    → are_plain word ≡ true
    → length word < size
    → ((ask_password (word ++ 10 ∷ rest) buffer size).0 ≡ some (length word))
      × (c_str (ask_password (word ++ 10 ∷ rest) buffer size).1 ≡ word)
ask_password-plain word rest buffer size full plain lt =
    let fits : length word < length buffer = omega arith in
    rw (← full) (
      ap (λ (r : Option ℕ × Bytes). r.0) (ask_password_filled word rest buffer plain fits),
      ap (λ (r : Option ℕ × Bytes). c_str r.1) (ask_password_filled word rest buffer plain fits)
          ∙ c_str-write_at word buffer plain fits,
    )
