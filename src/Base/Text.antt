-- ===== src/Base/Text.antt =====
-- Bytes and C strings: a string is the list of its bytes without the terminator.
use Prim.Native.Nat.{ℕ, ◌+◌}
use Prim.Native.Char.{code}
use Prim.Native.String.{String}
use mathlib.Core.Path.{◌≡◌, refl}
use mathlib.Core.Logic.{◌↔◌, ◌≢◌}
use mathlib.Core.Bool.{Bool, true, false, ◌&&◌, ◌||◌}
use mathlib.Core.List.{List, [], ◌∷◌}
use native.Mathlib.Omega.{arith}
use cmail.Base.Lists.{All}
use cmail.Base.Tests.{leb, ◌==◌, if◌then◌else◌}

abbrev pub Bytes : Type 0
Bytes = List ℕ

abbrev pub codes : String → Bytes
codes String.[] = []
codes (String.◌∷◌ c s) = code c ∷ codes s

-- `!strcmp(a, b)`
unfoldable pub str_eq : Bytes → Bytes → Bool
str_eq [] [] = true
str_eq (x ∷ xs) (y ∷ ys) = x == y && str_eq xs ys
str_eq _ _ = false

pub str_eq_iff : (a b : Bytes) → (str_eq a b ≡ true) ↔ (a ≡ b)
unfolding str_eq
str_eq_iff (x ∷ a) (y ∷ b) = ground (arith, str_eq_iff a b)
str_eq_iff _ _ = ground arith

abbrev pub to_lower : ℕ → ℕ
to_lower c = if leb b'A' c && leb c b'Z' then c + 32 else c

-- `!strncasecmp(line, word, strlen(word))`
unfoldable pub has_prefix_ci : Bytes → Bytes → Bool
has_prefix_ci [] line = true
has_prefix_ci (w ∷ ws) [] = false
has_prefix_ci (w ∷ ws) (c ∷ cs) = to_lower c == to_lower w && has_prefix_ci ws cs

-- `!strncmp(line, word, strlen(word))`
unfoldable pub has_prefix : Bytes → Bytes → Bool
has_prefix [] line = true
has_prefix (w ∷ ws) [] = false
has_prefix (w ∷ ws) (c ∷ cs) = c == w && has_prefix ws cs

-- The C string that a buffer holds: its bytes up to the first 0.
abbrev pub c_str : Bytes → Bytes
c_str [] = []
c_str (c ∷ cs) = let rest = c_str cs in if c == 0 then [] else c ∷ rest

pub c_str_same : (s : Bytes) → All (λ c. c ≢ 0) s → c_str s ≡ s
c_str_same [] h = refl
c_str_same (c ∷ cs) h = ground (arith, h.0, c_str_same cs h.1)

-- isprint and isspace of the C locale
abbrev pub is_print : ℕ → Bool
is_print c = leb 32 c && leb c 126

abbrev pub is_space : ℕ → Bool
is_space c = c == 32 || (leb 9 c && leb c 13)

abbrev pub skip_spaces : Bytes → Bytes
skip_spaces [] = []
skip_spaces (c ∷ cs) = let rest = skip_spaces cs in if is_space c then rest else c ∷ cs

abbrev pub is_one_of : Bytes → List Bytes → Bool
is_one_of s [] = false
is_one_of s (x ∷ xs) = str_eq x s || is_one_of s xs
