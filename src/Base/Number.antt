-- ===== src/Base/Number.antt =====
-- Decimal numbers as the C library reads them.
use Prim.Native.Nat.{ℕ, ◌+◌, ◌-◌, ◌*◌, ◌%◌}
use mathlib.Core.Bool.{Bool, ◌&&◌}
use mathlib.Core.List.{[], ◌∷◌}
use cmail.Base.Tests.{leb, ltb, ◌==◌, if◌then◌else◌}
use cmail.Base.Text.{Bytes, skip_spaces}

-- strtoul in base 10, of 64 bits: the digits, and the value that is too large
abbrev pub is_digit : ℕ → Bool
is_digit c = leb 48 c && leb c 57

unfoldable pub digits : Bytes → ℕ → ℕ
digits [] n = n
digits (c ∷ cs) n = let more = digits cs (n * 10 + (c - 48)) in if is_digit c then more else n

abbrev pub ulong_max : ℕ
ulong_max = 18446744073709551615

abbrev pub negated : ℕ → ℕ
negated n = if ltb ulong_max n then ulong_max else (18446744073709551616 - n) % 18446744073709551616

abbrev pub saturated : ℕ → ℕ
saturated n = if ltb ulong_max n then ulong_max else n

unfoldable pub strtoul : Bytes → ℕ
unfolding digits
strtoul input = elim (skip_spaces input) [
  | [] ↦ 0
  | (c ∷ cs) ↦
      if c == b'-'
      then negated (digits cs 0)
      else if c == b'+'
      then saturated (digits cs 0)
      else saturated (digits (c ∷ cs) 0)
]
