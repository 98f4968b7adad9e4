-- ===== src/Dispatchd/Smtp/Wire.antt =====
-- cmail-dispatchd/smtp.c, smtp_data: the mail on the wire, as the lines that a server reads.
use mathlib.Core.List.{append_assoc}
use cmail.Base.{
  ℕ, zero, suc, Bool, true, false, List, [], ◌∷◌, ◌++◌, Option, none, some, ◌≡◌, refl, sym, ap, ◌∙◌,
  arith, ◌==◌, if◌then◌else◌, codes, Bytes, has_prefix, length, All,
}
use cmail.Popd.Types as Pop
use cmail.Popd.Functions as Functions
use cmail.Popd.Functions.{split_dot}
use cmail.Popd.Functions.Stuffing.{wire, stuff, is_break, send_mail-stuff}
use cmail.Common.NextLine.Lines.{IsLine, unlines}
use cmail.Dispatchd.Types.{Sent, line, with_text, raw}
use cmail.Dispatchd.Smtp.{send_piece, send_stuffed, mail_text}

-- What the texts of a mail put on the wire; a text with an argument does not occur there.
pub wire_of : List Sent → Bytes
wire_of [] = []
wire_of (line f ∷ ss) = codes f ++ wire_of ss
wire_of (raw b ∷ ss) = b ++ wire_of ss
wire_of (with_text f b ∷ ss) = wire_of ss

wire_of-append : (a b : List Sent) → wire_of (a ++ b) ≡ wire_of a ++ wire_of b
unfolding wire_of
wire_of-append [] b = refl
wire_of-append (line f ∷ ss) b =
    ap (◌++◌ (codes f)) (wire_of-append ss b)
    ∙ sym (append_assoc (codes f) (wire_of ss) (wire_of b))
wire_of-append (raw t ∷ ss) b =
    ap (◌++◌ t) (wire_of-append ss b) ∙ sym (append_assoc t (wire_of ss) (wire_of b))
wire_of-append (with_text f t ∷ ss) b = wire_of-append ss b

-- The loop is that of pop_retr.
same_piece :
    (f : Bytes → List Sent) (g : Bytes → List Pop.Reply) (text : Bytes) (o : Option (Bytes × Bytes))
    → ((t : Bytes) → wire_of (f t) ≡ wire (g t))
    → wire_of (send_piece f text o) ≡ wire (Functions.send_piece g text o)
unfolding wire_of wire
same_piece f g text none h = refl
same_piece f g text (some (x, y)) h = ap (λ z. x ++ (13 ∷ 10 ∷ 46 ∷ 46 ∷ z)) (h y)

same_loop :
    (fuel : ℕ) (text : Bytes)
    → wire_of (send_stuffed fuel text) ≡ wire (Functions.send_stuffed fuel text)
unfolding send_stuffed wire_of wire Functions.send_stuffed
same_loop zero text = refl
same_loop (suc fuel) text =
    same_piece (send_stuffed fuel) (Functions.send_stuffed fuel) text (split_dot text)
      (same_loop fuel)

same_mail :
    (b : Bool) (x : List Sent) (y : List Pop.Reply)
    → wire_of x ≡ wire y
    → wire_of ((if b then line "." ∷ [] else []) ++ (x ++ line "\r\n.\r\n" ∷ []))
      ≡ wire ((if b then Pop.line "." ∷ [] else []) ++ y) ++ codes "\r\n.\r\n"
unfolding wire_of wire
same_mail true x y e =
    ap (◌∷◌ 46) (wire_of-append x (line "\r\n.\r\n" ∷ []) ∙ ap (λ t. t ++ codes "\r\n.\r\n") e)
same_mail false x y e =
    wire_of-append x (line "\r\n.\r\n" ∷ []) ∙ ap (λ t. t ++ codes "\r\n.\r\n") e

-- smtp_data sends the mail as it is, but for each dot at its start or behind a line break, which is
-- sent twice, and behind it the line with the single dot.
pub mail_text-stuff :
    (text : Bytes) → wire_of (mail_text text) ≡ stuff 13 10 text ++ codes "\r\n.\r\n"
unfolding mail_text Functions.send_mail
mail_text-stuff text =
    same_mail (has_prefix (codes ".") text) (send_stuffed (suc (length text)) text)
      (Functions.send_stuffed (suc (length text)) text) (same_loop (suc (length text)) text)
    ∙ ap (λ t. t ++ codes "\r\n.\r\n") (send_mail-stuff text)

-- A text of lines, and what becomes of each line.
unfoldable pub join : Bytes → List Bytes → Bytes
join l [] = l
join l (m ∷ ls) = l ++ 13 ∷ 10 ∷ join m ls

abbrev pub dot : Bytes → Bytes
dot [] = []
dot (c ∷ cs) = if c == 46 then 46 ∷ c ∷ cs else c ∷ cs

unfoldable pub dotted_lines : Bytes → List Bytes → List Bytes
dotted_lines l [] = dot l ∷ codes "." ∷ []
dotted_lines l (m ∷ ls) = dot l ∷ dotted_lines m ls

IsWithin : ℕ → ℕ → Type 0
IsWithin a b = (is_break a b ≡ false) × ((b == 13) ≡ false)

stuff_line :
    (a b : ℕ) (l rest : Bytes)
    → IsWithin a b
    → IsLine l
    → stuff a b (l ++ 13 ∷ 10 ∷ rest) ≡ l ++ 13 ∷ 10 ∷ stuff 13 10 rest
unfolding stuff IsWithin
stuff_line a b [] rest w h = ground arith
stuff_line a b (c ∷ cs) rest w (h, hs) = ground (arith, stuff_line b c cs rest)

stuff_end : (a b : ℕ) (l : Bytes) → IsWithin a b → IsLine l → stuff a b l ≡ l
unfolding stuff IsWithin
stuff_end a b [] w h = refl
stuff_end a b (c ∷ cs) w (h, hs) = ground (arith, stuff_end b c cs)

dot_line :
    (l rest : Bytes)
    → IsLine l
    → stuff 13 10 (l ++ 13 ∷ 10 ∷ rest) ≡ dot l ++ 13 ∷ 10 ∷ stuff 13 10 rest
unfolding stuff IsWithin
dot_line [] rest h = refl
dot_line (c ∷ cs) rest (h, hs) = ground (arith, stuff_line 10 c cs rest)

dot_end : (l : Bytes) → IsLine l → stuff 13 10 l ≡ dot l
unfolding stuff IsWithin
dot_end [] h = refl
dot_end (c ∷ cs) (h, hs) = ground (arith, stuff_end 10 c cs)

lines-dot :
    (l : Bytes) (ls : List Bytes)
    → IsLine l
    → All IsLine ls
    → stuff 13 10 (join l ls) ++ codes "\r\n.\r\n" ≡ unlines (dotted_lines l ls) []
unfolding join dotted_lines unlines
lines-dot l [] h hs = ap (λ t. t ++ codes "\r\n.\r\n") (dot_end l h)
lines-dot l (m ∷ ls) h (hm, hs) =
    ap (λ t. t ++ codes "\r\n.\r\n") (dot_line l (join m ls) h)
    ∙ append_assoc (dot l) (13 ∷ 10 ∷ stuff 13 10 (join m ls)) (codes "\r\n.\r\n")
    ∙ ap (λ t. dot l ++ 13 ∷ 10 ∷ t) (lines-dot m ls hm hs)

-- On the wire, a mail of lines without CR and NUL is these lines, each that begins with a dot with a
-- second one, and then the line with the single dot.
pub mail_text-unlines :
    (l : Bytes) (ls : List Bytes)
    → IsLine l
    → All IsLine ls
    → wire_of (mail_text (join l ls)) ≡ unlines (dotted_lines l ls) []
mail_text-unlines l ls h hs = mail_text-stuff (join l ls) ∙ lines-dot l ls h hs
