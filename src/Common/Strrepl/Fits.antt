-- ===== src/Common/Strrepl/Fits.antt =====
-- lib/common.c, common_strrepl: the size of the buffer.
use cmail.Base.{
  ℕ, zero, suc, ◌+◌, ◌-◌, ◌<◌, ◌≤◌, true, [], ◌∷◌, ◌++◌, Option, none, some, ◌≡◌, arith, if_cases,
  length, length-append, drop, has_prefix, ℤ, negsuc, Bytes,
}
use cmail.Common.Strrepl.{
  find_variable, is_too_long, on_variable, strrepl_loop, common_strrepl, before,
}

length-drop : (n : ℕ) (xs : Bytes) → n ≤ length xs → length (drop n xs) ≡ length xs - n
length-drop zero xs h = omega arith
length-drop (suc n) [] h = absurd (omega arith)
length-drop (suc n) (x ∷ xs) h = omega (arith, length-drop n xs)

length-has_prefix : (w s : Bytes) → has_prefix w s ≡ true → length w ≤ length s
unfolding has_prefix
length-has_prefix [] s h = omega arith
length-has_prefix (c ∷ cs) [] h = absurd cc
length-has_prefix (c ∷ cs) (d ∷ ds) h = omega (arith, length-has_prefix cs ds (ground arith))

-- The parts of the string, if the variable stands in it.
unfoldable pub IsSplit : Bytes → Bytes → Option (Bytes × Bytes) → Type 0
IsSplit variable text none = Unit
IsSplit variable text (some (front, rest)) =
    length text ≡ length front + length variable + length rest

before-IsSplit :
    (variable cs : Bytes) (c : ℕ) (o : Option (Bytes × Bytes))
    → IsSplit variable cs o
    → IsSplit variable (c ∷ cs) (before c o)
unfolding IsSplit
before-IsSplit variable cs c none h = tt
before-IsSplit variable cs c (some (front, rest)) h = omega (arith, h)

pub find_variable-IsSplit :
    (variable text : Bytes) → IsSplit variable text (find_variable variable text)
unfolding IsSplit find_variable
find_variable-IsSplit variable [] = tt
find_variable-IsSplit variable (c ∷ cs) =
    if_cases (IsSplit variable (c ∷ cs)) (has_prefix variable (c ∷ cs))
      (some ([], drop (length variable) (c ∷ cs))) (before c (find_variable variable cs))
      (λ e.
        let le = length-has_prefix variable (c ∷ cs) e in
        omega (arith, le, length-drop (length variable) (c ∷ cs) le))
      (λ _.
        before-IsSplit variable cs c (find_variable variable cs)
          (find_variable-IsSplit variable cs))

module _ (size : ℕ) (variable replacement : Bytes) where
  on_variable-fits :
      (next : Bytes → Bytes → Bytes × ℤ) (done text : Bytes) (o : Option (Bytes × Bytes))
      → length (done ++ text) < size
      → IsSplit variable text o
      → ((d t : Bytes) → length (d ++ t) < size → length (next d t).0 < size)
      → length (on_variable next size variable replacement done text o).0 < size
  unfolding is_too_long IsSplit
  on_variable-fits next done text none lt s h = lt
  on_variable-fits next done text (some (front, rest)) lt s h =
      if_cases (λ (x : Bytes × ℤ). length x.0 < size)
        (is_too_long size variable replacement (done ++ front) rest) (done ++ text, negsuc 0)
        (next ((done ++ front) ++ replacement) rest) (λ _. lt)
        (λ fits.
          let room : length (done ++ front) + length replacement + length rest < size =
            ground arith in
          h ((done ++ front) ++ replacement) rest (
            omega (
              arith,
              length-append ((done ++ front) ++ replacement) rest,
              length-append (done ++ front) replacement,
              room,
            )))

  strrepl_loop-fits :
      (fuel : ℕ) (done text : Bytes)
      → length (done ++ text) < size
      → length (strrepl_loop fuel size variable replacement done text).0 < size
  unfolding strrepl_loop
  strrepl_loop-fits zero done text lt = lt
  strrepl_loop-fits (suc fuel) done text lt =
      on_variable-fits (strrepl_loop fuel size variable replacement) done text
        (find_variable variable text) lt (find_variable-IsSplit variable text)
        (strrepl_loop-fits fuel)

-- A string that fits in its buffer with its terminator still does so after common_strrepl, which
-- refuses each replacement for which there is no room.
pub common_strrepl_fits :
    (buffer : Bytes) (size : ℕ) (variable replacement : Bytes)
    → length buffer < size
    → length (common_strrepl buffer size variable replacement).0 < size
unfolding common_strrepl
common_strrepl_fits buffer size variable replacement lt =
    strrepl_loop-fits size variable replacement (suc (length buffer)) [] buffer lt
