-- ===== src/Common/NextLine.antt =====
-- lib/common.c, common_next_line: lines from a receive buffer.
pub mod Lines
use cmail.Base.{
  ℕ, zero, suc, ◌+◌, Bool, true, false, ◌&&◌, List, [], ◌∷◌, ◌++◌, Option, none, some, ◌==◌,
  if◌then◌else◌, length, Bytes, c_str,
}

-- The buffer: `kept` are the bytes before `append_offset`, `fresh` the `new_bytes` from there on.
-- `new_bytes` is never below 0, since the callers return on a failed read.
pub record Input : Type 0 where
  pub kept : Bytes
  pub fresh : Bytes

-- more than one byte, the last two of which are 0
unfoldable pub ends_line : Bytes → Bool
ends_line [] = false
ends_line (a ∷ []) = false
ends_line (a ∷ b ∷ []) = a == 0 && b == 0
ends_line (a ∷ b ∷ c ∷ cs) = ends_line (b ∷ c ∷ cs)

abbrev before : ℕ → Option (Bytes × Bytes) → Option (Bytes × Bytes)
before c none = none
before c (some (text, rest)) = some (c ∷ text, rest)

-- the first CRLF: what stands before and behind it
unfoldable pub find_crlf : Bytes → Option (Bytes × Bytes)
find_crlf [] = none
find_crlf (c ∷ []) = none
find_crlf (c ∷ d ∷ cs) =
    let later = find_crlf (d ∷ cs) in if c == 13 && d == 10 then some ([], cs) else before c later

-- A line that was returned is cleared by the next call.
unfoldable pub cleared : Bytes → Bytes
unfolding ends_line
cleared kept = if ends_line kept then [] else kept

abbrev pub on_crlf : Bytes → Bytes → Option (Bytes × Bytes) → Option ℕ × Input
on_crlf kept fresh none = (none, record { kept = kept ++ fresh; fresh = [] })
on_crlf kept fresh (some (text, rest)) =
    (some (length kept + length text), record { kept = kept ++ (text ++ 0 ∷ 0 ∷ []); fresh = rest })

-- The length of the next line, or `none` for -1.
unfoldable pub common_next_line : Input → Option ℕ × Input
unfolding cleared find_crlf
common_next_line i = on_crlf (cleared i.kept) i.fresh (find_crlf i.fresh)
