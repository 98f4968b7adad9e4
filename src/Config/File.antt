-- ===== src/Config/File.antt =====
-- lib/config.c: config_parse, over the function that handles a line, and the tokens of a line.
pub mod Lines
pub mod Keeps
pub mod Fuel
use cmail.Base.{
  ℕ, zero, suc, ◌+◌, ◌-◌, Bool, true, false, not, ◌&&◌, List, [], ◌∷◌, Option, none, some,
  if◌then◌else◌, leb, ◌==◌, length, Bytes, c_str, skip_spaces, is_space, ℤ, pos, negsuc,
}

abbrev pub max_cfgline : ℕ
max_cfgline = 2048

-- isalnum or ispunct, in the C locale
abbrev pub is_graph : ℕ → Bool
is_graph c = leb 33 c && leb c 126

abbrev pub is_empty : Bytes → Bool
is_empty [] = true
is_empty (c ∷ cs) = false

-- remove trailing characters
unfoldable pub strip_end : Bytes → Bytes
strip_end [] = []
strip_end (c ∷ cs) =
    let rest = strip_end cs in if is_empty rest && not (is_graph c) then [] else c ∷ rest

-- handle inline comments
unfoldable pub cut_comment : Bytes → Bytes
cut_comment [] = []
cut_comment (c ∷ cs) = let rest = cut_comment cs in if c == b'#' then [] else c ∷ rest

unfoldable pub prepared : Bytes → Bytes
unfolding strip_end cut_comment
prepared line = cut_comment (skip_spaces (strip_end line))

abbrev pub in_line : ℕ → Bytes × Bytes → Bytes × Bytes
in_line c (line, rest) = (c ∷ line, rest)

-- fgets: at most n bytes, up to a line feed that is kept; and what is left of the file
unfoldable pub fgets : ℕ → Bytes → Bytes × Bytes
fgets zero file = ([], file)
fgets (suc n) [] = ([], [])
fgets (suc n) (c ∷ cs) =
    let later = in_line c (fgets n cs) in if c == 10 then (c ∷ [], cs) else later

module _ {ℓ} {C : Type ℓ} where
  -- `config_line` on a line that is not empty; a failure ends the loop.
  abbrev pub after : (C → C × ℤ) → C × ℤ → C × ℤ
  after next (c, pos n) = next c
  after next (c, negsuc n) = (c, negsuc 0)

  abbrev pub on_line : (C → Bytes → C × ℤ) → (C → C × ℤ) → C → Bytes → C × ℤ
  on_line config_line next c [] = next c
  on_line config_line next c (x ∷ xs) = after next (config_line c (x ∷ xs))

  -- Each round takes a byte or more. `errno` is whether it is 0 at the end.
  unfoldable pub parse_loop : ℕ → (C → Bytes → C × ℤ) → Bool → Bytes → C → C × ℤ
  unfolding fgets prepared
  parse_loop zero config_line errno file c = (c, negsuc 0)
  parse_loop (suc fuel) config_line errno [] c = (c, if errno then pos 0 else negsuc 0)
  parse_loop (suc fuel) config_line errno (x ∷ xs) c =
      let (chunk, rest) = fgets (max_cfgline - 1) (x ∷ xs) in
      on_line config_line (parse_loop fuel config_line errno rest) c (prepared (c_str chunk))

  -- `none` for a file that can not be read
  unfoldable pub config_parse : (C → Bytes → C × ℤ) → Bool → Option Bytes → C → C × ℤ
  unfolding parse_loop
  config_parse config_line errno none c = (c, negsuc 0)
  config_parse config_line errno (some file) c =
      parse_loop (suc (length file)) config_line errno file c

-- The directive of a line, and its parameters behind the spaces
abbrev pub until_space : Bytes → Bytes × Bytes
until_space [] = ([], [])
until_space (c ∷ cs) =
    let later = in_line c (until_space cs) in if is_space c then ([], cs) else later

unfoldable pub split_directive : Bytes → Bytes × Bytes
split_directive line = let (directive, rest) = until_space line in (directive, skip_spaces rest)

-- strtok_r with one delimiter, called until it returns NULL: what stands between the delimiters, less
-- the empty strings
abbrev pub with_first : ℕ → List Bytes → List Bytes
with_first c [] = (c ∷ []) ∷ []
with_first c (t ∷ ts) = (c ∷ t) ∷ ts

unfoldable pub fields : ℕ → Bytes → List Bytes
fields d [] = [] ∷ []
fields d (c ∷ cs) = let rest = fields d cs in if c == d then [] ∷ rest else with_first c rest

unfoldable pub nonempty : List Bytes → List Bytes
nonempty [] = []
nonempty (t ∷ ts) = let rest = nonempty ts in if is_empty t then rest else t ∷ rest

unfoldable pub tokens : ℕ → Bytes → List Bytes
unfolding fields nonempty
tokens d text = nonempty (fields d text)
