-- ===== src/Common/NextLine/Lines.antt =====
-- lib/common.c, common_next_line: what one call does with a buffer of whole lines.
use mathlib.Core.List.{append_assoc}
use cmail.Base.{
  ◌+◌, ◌≤◌, true, false, List, [], ◌∷◌, ◌++◌, none, some, ◌==◌, length, length-append, Bytes, c_str,
  ◌≡◌, refl, sym, ap, ◌∙◌, arith, All,
}
use cmail.Common.NextLine.{Input, ends_line, find_crlf, cleared, common_next_line}

-- Bytes of a line: no CR and no NUL.
abbrev pub IsLine : Bytes → Type 0
IsLine = All (λ c. ((c == 13) ≡ false) × ((c == 0) ≡ false))

-- each line with its CRLF, and an unfinished one
unfoldable pub unlines : List Bytes → Bytes → Bytes
unlines [] tail = tail
unlines (l ∷ ls) tail = l ++ 13 ∷ 10 ∷ unlines ls tail

find_crlf_line : (l rest : Bytes) → IsLine l → find_crlf (l ++ 13 ∷ 10 ∷ rest) ≡ some (l, rest)
unfolding find_crlf
find_crlf_line [] rest h = refl
find_crlf_line (c ∷ []) rest h = ground arith
find_crlf_line (c ∷ d ∷ cs) rest (h, hs) = ground (arith, find_crlf_line (d ∷ cs) rest hs)

find_crlf_tail : (l : Bytes) → IsLine l → find_crlf l ≡ none
unfolding find_crlf
find_crlf_tail [] h = refl
find_crlf_tail (c ∷ []) h = refl
find_crlf_tail (c ∷ d ∷ cs) (h, hs) = ground (arith, find_crlf_tail (d ∷ cs) hs)

c_str_line : (l tail : Bytes) → IsLine l → c_str (l ++ 0 ∷ tail) ≡ l
c_str_line [] tail h = refl
c_str_line (c ∷ cs) tail (h, hs) = ground (arith, c_str_line cs tail hs)

ends_line_lem : (l : Bytes) → ends_line (l ++ 0 ∷ 0 ∷ []) ≡ true
unfolding ends_line
ends_line_lem [] = refl
ends_line_lem (a ∷ []) = refl
ends_line_lem (a ∷ b ∷ []) = refl
ends_line_lem (a ∷ b ∷ c ∷ cs) = ends_line_lem (b ∷ c ∷ cs)

ends_line_tail : (l : Bytes) → IsLine l → ends_line l ≡ false
unfolding ends_line
ends_line_tail [] h = refl
ends_line_tail (a ∷ []) h = refl
ends_line_tail (a ∷ b ∷ []) h = ground arith
ends_line_tail (a ∷ b ∷ c ∷ cs) (h, hs) = ends_line_tail (b ∷ c ∷ cs) hs

IsLine-append : (a b : Bytes) → IsLine a → IsLine b → IsLine (a ++ b)
IsLine-append [] b h k = k
IsLine-append (c ∷ cs) b (h, hs) k = (h, IsLine-append cs b hs k)

pub length-unlines : (ls : List Bytes) (tail : Bytes) → length ls ≤ length (unlines ls tail)
unfolding unlines
length-unlines [] tail = omega arith
length-unlines (l ∷ ls) tail =
    omega (arith, length-append l (13 ∷ 10 ∷ unlines ls tail), length-unlines ls tail)

-- `start` is an unfinished line that the buffer holds already.
abbrev pub prepend : Bytes → List Bytes → List Bytes
prepend start [] = []
prepend start (l ∷ ls) = (start ++ l) ∷ ls

abbrev pub left_over : Bytes → List Bytes → Bytes → Bytes
left_over start [] tail = start ++ tail
left_over start (l ∷ ls) tail = tail

pub no_line :
    (i : Input) (start tail : Bytes)
    → cleared i.kept ≡ start
    → i.fresh ≡ tail
    → IsLine tail
    → common_next_line i ≡ (none, record { kept = start ++ tail; fresh = [] })
unfolding common_next_line
no_line i start tail e f h = rw (e, f, find_crlf_tail tail h) refl

pub found_line :
    (i : Input) (start l rest : Bytes)
    → cleared i.kept ≡ start
    → i.fresh ≡ l ++ 13 ∷ 10 ∷ rest
    → IsLine l
    → common_next_line i
      ≡ (some (length start + length l), record { kept = start ++ (l ++ 0 ∷ 0 ∷ []); fresh = rest })
unfolding common_next_line
found_line i start l rest e f h = rw (e, f, find_crlf_line l rest h) refl

pub kept_line :
    (start l : Bytes) → IsLine start → IsLine l → c_str (start ++ (l ++ 0 ∷ 0 ∷ [])) ≡ start ++ l
kept_line start l h k =
    ap c_str (sym (append_assoc start l (0 ∷ 0 ∷ [])))
    ∙ c_str_line (start ++ l) (0 ∷ []) (IsLine-append start l h k)

pub kept_cleared : (start l : Bytes) → cleared (start ++ (l ++ 0 ∷ 0 ∷ [])) ≡ []
unfolding cleared
kept_cleared start l =
    rw (ap ends_line (sym (append_assoc start l (0 ∷ 0 ∷ []))) ∙ ends_line_lem (start ++ l)) refl
