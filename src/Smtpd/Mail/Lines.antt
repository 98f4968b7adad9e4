-- ===== src/Smtpd/Mail/Lines.antt =====
-- cmail-smtpd/mail.c: the data block of mail_line, and the folding of mail_recvheader.
use mathlib.Core.List.{append-nil}
use cmail.Base.{
  ℕ, zero, suc, ◌+◌, ◌-◌, ◌≤◌, ◌<◌, true, List, [], ◌∷◌, ◌++◌, Option, none, some, ◌≡◌, refl, ap,
  ◌∙◌, arith, Bytes, length, take, drop, pos, negsuc, length-append, if◌then◌else◌, ◌==◌, ◌⊎◌, inl,
  inr, leb, ltb, ◌&&◌, Bool-cases, take-append-drop, drop_add,
}
use cmail.Smtpd.Types.{Mail}
use cmail.Smtpd.Mail.{Heap, text_of, append_line, mail_line, fold_header, junk_bytes}

abbrev pub IsBlock : Option Bytes → ℕ → ℕ → Type 0
IsBlock none offset allocated = Unit
IsBlock (some t) offset allocated = (length t ≡ offset) × (offset < allocated)

-- The data block: what it holds, and that the terminator has its place.
pub record HasRoom (m : Mail) : Type 0 where
  pub allocated : m.data_offset ≤ m.data_allocated
  pub block : IsBlock m.data_text m.data_offset m.data_allocated

length-junk_bytes : (heap : Heap) (n : ℕ) → length (junk_bytes heap n) ≡ n
length-junk_bytes heap zero = refl
length-junk_bytes heap (suc n) = ap suc (length-junk_bytes heap n)

length-text_of :
    (heap : Heap) (n k : ℕ) (o : Option Bytes) → IsBlock o n k → length (text_of heap n o) ≡ n
unfolding text_of
length-text_of heap n k none h = length-junk_bytes heap n
length-text_of heap n k (some t) h = h.0

length-append_line :
    (t line : Bytes) (m : Mail)
    → length t ≡ m.data_offset
    → length (t ++ ((if m.data_offset == 0 then [] else b'\r' ∷ b'\n' ∷ []) ++ line))
      ≡ (append_line t m line).data_offset
unfolding append_line
length-append_line t line m e =
    ground
      (arith, length-append {0} t ((if m.data_offset == 0 then [] else b'\r' ∷ b'\n' ∷ []) ++ line))

append_line-HasRoom :
    (t line : Bytes) (m : Mail)
    → length t ≡ m.data_offset
    → m.data_offset + length line + 3 ≤ m.data_allocated
    → HasRoom (append_line t m line)
unfolding append_line
append_line-HasRoom t line m e le =
    let l = length-append_line t line m e in
    record { allocated = ground arith; block = (l, ground arith) }

-- Whether the line is stored, refused or met by a failed realloc, the text with its terminator
-- stays inside the block that is allocated.
pub mail_line-HasRoom :
    (heap : Heap) (m : Mail) (line : Bytes) → HasRoom m → HasRoom (mail_line heap m line).0
unfolding mail_line
mail_line-HasRoom heap m line h =
    let text = text_of heap m.data_offset m.data_text in
    let l = length-text_of heap m.data_offset m.data_allocated m.data_text h.block in
    let grown = record m { data_allocated = m.data_allocated + length line + 3 } in
    ground (
      arith,
      λ (le : m.data_offset + length line + 3 ≤ m.data_allocated).
          append_line-HasRoom text line m l le,
      append_line-HasRoom text line grown l (omega (arith, h.allocated)),
    )

-- A line that fits under the size limit is appended to the text, behind a line break unless it is
-- the first, if the block is large enough or can be enlarged; the offset stays the text's length.
pub mail_line_stores :
    (heap : Heap) (m : Mail) (line t : Bytes)
    → m.data_text ≡ some t
    → HasRoom m
    → (m.data_max ≡ 0) ⊎ (m.data_offset < m.data_max)
    → heap.realloc_ok ≡ true
    → let text = t ++ ((if m.data_offset == 0 then [] else b'\r' ∷ b'\n' ∷ []) ++ line) in
      ((mail_line heap m line).1 ≡ pos 0)
      × ((mail_line heap m line).0.data_text ≡ some text)
      × ((mail_line heap m line).0.data_offset ≡ length text)
unfolding mail_line
mail_line_stores heap m line t e h fits ok =
    let l : length t ≡ m.data_offset = ground (arith, h.block) in
    (ground arith, ground arith, ground (arith, length-append_line t line m l))

-- A mail whose text has reached the size limit refuses every line and stays as it is.
pub mail_line_limited :
    (heap : Heap) (m : Mail) (line : Bytes)
    → 0 < m.data_max
    → m.data_max ≤ m.data_offset
    → mail_line heap m line ≡ (m, negsuc 0)
unfolding mail_line
mail_line_limited heap m line p q = ground arith

abbrev pub flatten : List Bytes → Bytes
flatten [] = []
flatten (l ∷ ls) = l ++ flatten ls

sub_back : (a b : ℕ) → a ≤ b → b ≡ a + (b - a)
sub_back a b h = omega arith

fold_header_from :
    (header rest : Bytes) (i mark off : ℕ)
    → off ≤ mark
    → mark ≤ i
    → flatten (fold_header header rest i mark off) ≡ drop off header
unfolding fold_header
fold_header_from header [] i mark off h k = append-nil (drop off header)
fold_header_from header (c ∷ rest) i mark off h k =
    let mark' = if c == 32 then i else mark in
    let lo : off ≤ mark' = ground arith in
    let hi : mark' ≤ i + 1 = ground arith in
    elim (Bool-cases (leb 80 (i - off) && ltb off mark')) [
      | inl full ↦ rw full (
          ap (λ t. take (mark' - off) (drop off header) ++ t)
            (fold_header_from header rest (i + 1) mark' mark' (omega arith) hi
              ∙ ap (λ n. drop n header) (sub_back off mark' lo)
              ∙ drop_add off (mark' - off) header)
          ∙ take-append-drop (mark' - off) (drop off header))
      | inr open_line ↦ rw open_line (fold_header_from header rest (i + 1) mark' off lo hi)
    ]

-- Folding the Received: header loses nothing: the lines that mail_recvheader stores are the header.
pub flatten-fold_header : (header : Bytes) → flatten (fold_header header header 0 0 0) ≡ header
flatten-fold_header header = fold_header_from header header 0 0 0 (omega arith) (omega arith)
