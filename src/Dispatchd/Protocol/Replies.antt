-- ===== src/Dispatchd/Protocol/Replies.antt =====
-- cmail-dispatchd/protocol.c, protocol_read: replies of one or more lines.
use cmail.Base.{
  ℕ, zero, suc, ◌+◌, ◌*◌, ◌≤◌, ◌<◌, ◌%◌, Bool, true, false, ◌||◌, List, [], ◌∷◌, ◌++◌, some, ◌≡◌,
  refl, ap, ◌∙◌, arith, ◌==◌, if◌then◌else◌, length, length-append, Bytes, All, c_str, strtoul,
  digits, is_digit, saturated, skip_spaces, pos,
}
use cmail.Dispatchd.Types.{SmtpReply, Conn, Event, received}
use cmail.Dispatchd.Protocol.{
  sentence, scan_sentence, Verdict, complete, more, on_verdict, on_scan, take_sentence, chunk_loop,
  read_chunk, is_multiline, protocol_loop, protocol_read, protocol_reply_reset, from_result,
  after_chunk, code_of,
}

-- A reply code by its digits.
pub record Code : Type 0 where
  pub hundreds : ℕ
  pub tens : ℕ
  pub ones : ℕ
  pub hundreds_lt : hundreds < 10
  pub tens_lt : tens < 10
  pub ones_lt : ones < 10

abbrev pub number : Code → ℕ
number d = 100 * d.hundreds + (10 * d.tens + d.ones)

-- the code, a dash or a space, and the text
abbrev pub reply_line : Code → ℕ → Bytes → Bytes
reply_line d sep text = (48 + d.hundreds) ∷ (48 + d.tens) ∷ (48 + d.ones) ∷ sep ∷ text

-- A text that fits in a line, without NUL.
abbrev pub IsText : Bytes → Type 0
IsText = All (λ c. ((c == 13) ≡ false) × ((c == 0) ≡ false))

abbrev IsSeparator : ℕ → Type 0
IsSeparator c = (is_digit c ≡ false) × ((c == 13) ≡ false) × ((c == 0) ≡ false)

scan_text :
    (i : ℕ) (text rest : Bytes)
    → IsText text
    → scan_sentence (suc (suc (suc i))) (text ++ 13 ∷ 10 ∷ rest) ≡ sentence text rest
unfolding scan_sentence
scan_text i [] rest h = ground arith
scan_text i (c ∷ []) rest h = ground arith
scan_text i (c ∷ d ∷ cs) rest (h, hs) = ground (arith, scan_text (suc i) (d ∷ cs) rest hs)

c_str_text : (text : Bytes) → IsText text → c_str text ≡ text
c_str_text [] h = refl
c_str_text (c ∷ cs) (h, hs) = ground (arith, c_str_text cs hs)

skip_digit : (c : ℕ) (cs : Bytes) → 48 ≤ c → skip_spaces (c ∷ cs) ≡ c ∷ cs
skip_digit c cs le = ground arith

two_tests :
    (c x y z : ℕ) → c < 58 → 48 ≤ c → (if c == b'-' then x else if c == b'+' then y else z) ≡ z
two_tests c x y z lt le = ground arith

pub strtoul_digit :
    (c : ℕ) (cs : Bytes) → c < 58 → 48 ≤ c → strtoul (c ∷ cs) ≡ saturated (digits (c ∷ cs) 0)
unfolding strtoul
strtoul_digit c cs lt le = rw (strtoul, skip_digit c cs le) (two_tests c _ _ _ lt le)

number_small : (n : ℕ) → n < 1000 → saturated n % 4294967296 ≡ n
number_small n lt = ground arith

copied_line : Code → ℕ → Bytes → SmtpReply → SmtpReply
copied_line d sep text r = record r {
  code = number d;
  multiline = r.multiline || sep == b'-';
  response_text = some (reply_line d sep text);
}

module _ (d : Code) (sep : ℕ) (text : Bytes) (sep_ok : IsSeparator sep) (h : IsText text) where
  sep_text :
      (rest : Bytes) → scan_sentence 3 (sep ∷ (text ++ 13 ∷ 10 ∷ rest)) ≡ sentence (sep ∷ text) rest
  unfolding scan_sentence
  sep_text rest = scan_text 0 (sep ∷ text) rest ((sep_ok.1, sep_ok.2), h)

  scan_line :
      (rest : Bytes)
      → scan_sentence 0 (reply_line d sep text ++ 13 ∷ 10 ∷ rest)
        ≡ sentence (reply_line d sep text) rest
  unfolding scan_sentence
  scan_line rest = ground (arith, sep_text rest, d.hundreds_lt, d.tens_lt, d.ones_lt)

  c_str_line : c_str (reply_line d sep text) ≡ reply_line d sep text
  c_str_line = c_str_text (reply_line d sep text) (
    (ground arith, ground arith),
    ((ground arith, ground arith), ((ground arith, ground arith), ((sep_ok.1, sep_ok.2), h))),
  )

  digits_line : digits (reply_line d sep text) 0 ≡ number d
  unfolding digits
  digits_line = ground (arith, d.hundreds_lt, d.tens_lt, d.ones_lt)

  strtoul_line : strtoul (reply_line d sep text) ≡ saturated (digits (reply_line d sep text) 0)
  unfolding strtoul
  strtoul_line =
      strtoul_digit (48 + d.hundreds) ((48 + d.tens) ∷ (48 + d.ones) ∷ sep ∷ text)
        (omega (arith, d.hundreds_lt)) (omega arith)

  code_line : code_of (reply_line d sep text) ≡ number d
  code_line =
      rw (c_str_line, strtoul_line, digits_line)
        (number_small (number d) (omega (arith, d.hundreds_lt, d.tens_lt, d.ones_lt)))

  take_line :
      (memory : Bytes → Bool) (r : SmtpReply)
      → memory (reply_line d sep text) ≡ true
      → take_sentence memory r (reply_line d sep text)
        ≡ (if sep == b'-' then more else complete, copied_line d sep text r)
  unfolding take_sentence is_multiline copied_line
  take_line memory r e =
      ground (arith, code_line, c_str_line, e, d.hundreds_lt, d.tens_lt, d.ones_lt)

-- A reply by its lines: those with a dash behind the code, and a last one with a space.
abbrev pub More : Type 0
More = List (Code × Bytes)

pub spell : More → Code → Bytes → Bytes → Bytes
spell [] d text junk = reply_line d b' ' text ++ 13 ∷ 10 ∷ junk
spell ((d', text') ∷ ls) d text junk = reply_line d' b'-' text' ++ 13 ∷ 10 ∷ spell ls d text junk

unfoldable pub AllTexts : More → Type 0
AllTexts [] = Unit
AllTexts ((d, text) ∷ ls) = IsText text × AllTexts ls

abbrev not_empty : More → Bool
not_empty [] = false
not_empty (_ ∷ _) = true

pub reply_of : SmtpReply → More → Code → Bytes → SmtpReply
reply_of r ls d text = record r {
  code = number d;
  multiline = r.multiline || not_empty ls;
  response_text = some (reply_line d b' ' text);
}

fuel_of : More → ℕ
fuel_of [] = 1
fuel_of (_ ∷ ls) = suc (fuel_of ls)

or_true : (a b : Bool) → ((a || true) || b) ≡ (a || true)
or_true true b = refl
or_true false b = refl

length-spell :
    (ls : More) (d : Code) (text junk : Bytes) → fuel_of ls ≤ length (spell ls d text junk)
unfolding spell fuel_of
length-spell [] d text junk = omega arith
length-spell ((d', text') ∷ ls) d text junk =
    omega (arith, length-append text' (13 ∷ 10 ∷ spell ls d text junk), length-spell ls d text junk)

module _ (memory : Bytes → Bool) (room : (t : Bytes) → memory t ≡ true) where
  one_line :
      (next : SmtpReply → Bytes → Verdict × SmtpReply) (r : SmtpReply) (d : Code) (sep : ℕ)
      (text rest : Bytes)
      → IsSeparator sep
      → IsText text
      → on_scan next memory r (scan_sentence 0 (reply_line d sep text ++ 13 ∷ 10 ∷ rest))
        ≡ on_verdict
            (λ r'. next r' rest)
            (if sep == b'-' then more else complete, copied_line d sep text r)
  one_line next r d sep text rest s h =
      ap (on_scan next memory r) (scan_line d sep text s h rest)
      ∙ ap (on_verdict (λ r'. next r' rest)) (take_line d sep text s h memory r (room _))

  all_lines :
      (ls : More) (fuel : ℕ) (r : SmtpReply) (d : Code) (text junk : Bytes)
      → fuel_of ls ≤ fuel
      → AllTexts ls
      → IsText text
      → chunk_loop fuel memory r (spell ls d text junk) ≡ (complete, reply_of r ls d text)
  unfolding chunk_loop spell fuel_of AllTexts reply_of copied_line
  all_lines [] zero r d text junk le hs h = absurd (omega arith)
  all_lines [] (suc fuel) r d text junk le hs h =
      one_line (chunk_loop fuel memory) r d b' ' text junk (refl, refl, refl) h
  all_lines ((d', text') ∷ ls) zero r d text junk le hs h = absurd (omega arith)
  all_lines ((d', text') ∷ ls) (suc fuel) r d text junk le (h', hs) h =
      one_line (chunk_loop fuel memory) r d' b'-' text' (spell ls d text junk) (refl, refl, refl) h'
      ∙ all_lines ls fuel (copied_line d' b'-' text' r) d text junk (omega arith) hs h
      ∙ ap (λ b. (complete, record (reply_of r [] d text) { multiline = b }))
          (or_true r.multiline (not_empty ls))

-- A reply of any number of lines, each a code of three digits, a dash, in the last line a space, and a
-- text without CR and NUL, which arrives in one piece and for which there is memory, is read as a whole:
-- protocol_read returns 0, with the code and the text of its last line, takes no other bytes, and drops
-- what the piece holds behind it.
pub protocol_read_reply :
    (c : Conn) (timeout : ℕ) (ls : More) (d : Code) (text junk : Bytes) (es : List Event)
    → ((t : Bytes) → c.memory t ≡ true)
    → AllTexts ls
    → IsText text
    → c.events ≡ received (spell ls d text junk) ∷ es
    → protocol_read c timeout
      ≡ (record c { reply = reply_of (protocol_reply_reset c.reply) ls d text; events = es }, pos 0)
unfolding protocol_read protocol_loop read_chunk
protocol_read_reply c timeout ls d text junk es room hs h e = rw e (
    ap
      (λ x.
        from_result c
          (after_chunk (λ r. protocol_loop timeout c.memory c.tls_mode r es) c.tls_mode es x))
      (all_lines c.memory room ls (suc (length (spell ls d text junk)))
        (protocol_reply_reset c.reply) d text junk (omega (arith, length-spell ls d text junk)) hs
        h))
