-- ===== src/Common/Strrepl.antt =====
-- lib/common.c, common_strrepl: a variable in a string is replaced in its buffer of `size` bytes.
pub mod Fits
pub mod Fuel
use cmail.Base.{
  ℕ, zero, suc, ◌+◌, ◌-◌, Bool, true, false, List, [], ◌∷◌, ◌++◌, Option, none, some, if◌then◌else◌,
  leb, length, drop, has_prefix, ℤ, pos, negsuc, Bytes,
}

abbrev before : ℕ → Option (Bytes × Bytes) → Option (Bytes × Bytes)
before c none = none
before c (some (text, rest)) = some (c ∷ text, rest)

-- `strstr(s, variable)`: what stands before and behind the first one
unfoldable pub find_variable : Bytes → Bytes → Option (Bytes × Bytes)
find_variable variable [] = none
find_variable variable (c ∷ cs) =
    let later = find_variable variable cs in
    if has_prefix variable (c ∷ cs)
    then some ([], drop (length variable) (c ∷ cs))
    else before c later

-- The test whether the replacement fits, on the strings before, in and behind the variable; it takes
-- the string behind the start of the buffer for the one behind the variable.
unfoldable pub is_too_long : ℕ → Bytes → Bytes → Bytes → Bytes → Bool
is_too_long size variable replacement text rest = leb size (
    length text
    + length replacement
    + ((length text + length variable + length rest) - length variable))

-- One round: `done` is the string before `offset`. The rest is moved, and the replacement inserted.
abbrev pub on_variable :
    (Bytes → Bytes → Bytes × ℤ)
    → ℕ
    → Bytes
    → Bytes
    → Bytes
    → Bytes
    → Option (Bytes × Bytes)
    → Bytes × ℤ
on_variable next size variable replacement done text none = (done ++ text, pos 0)
on_variable next size variable replacement done text (some (front, rest)) =
    if is_too_long size variable replacement (done ++ front) rest
    then (done ++ text, negsuc 0)
    else next ((done ++ front) ++ replacement) rest

-- Each round takes the variable off the rest, so that its length is enough fuel.
unfoldable pub strrepl_loop : ℕ → ℕ → Bytes → Bytes → Bytes → Bytes → Bytes × ℤ
unfolding find_variable is_too_long
strrepl_loop zero size variable replacement done text = (done ++ text, pos 0)
strrepl_loop (suc fuel) size variable replacement done text =
    on_variable (strrepl_loop fuel size variable replacement) size variable replacement done text
      (find_variable variable text)

unfoldable pub common_strrepl : Bytes → ℕ → Bytes → Bytes → Bytes × ℤ
unfolding strrepl_loop
common_strrepl buffer size variable replacement =
    strrepl_loop (suc (length buffer)) size variable replacement [] buffer
