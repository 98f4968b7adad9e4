-- ===== src/Smtpd/Path/Address.antt =====
-- cmail-smtpd/path.c: path_parse on an ordinary address, step by step.
pub mod Angle
pub mod Stale
use mathlib.Core.List.{append-nil, append_assoc}
use cmail.Base.{
  ℕ, zero, suc, ◌+◌, ◌≤◌, ◌<◌, Bool, true, false, not, ◌&&◌, [], ◌∷◌, ◌++◌, ◌≡◌, ◌≢◌, refl, ap, sym,
  ◌∙◌, arith, ◌==◌, Bytes, some, c_str, is_print, All, length, take, set, get_elem?, length-set,
}
use cmail.Smtpd.Types.{MailPath, smtp_max_path_length}
use cmail.Smtpd.Path.{
  plain, Scan, parsed, rejected, ◌>>=◌, put_printable, on_at, step_plain, step_in, loop, finish,
  initial, path_parse,
}
use cmail.Smtpd.Path.Bounds.{IsPrintable, put_lem, c_str-set}

-- Bytes that path_parse copies: printable, and without a meaning of their own.
abbrev pub is_atom : ℕ → Bool
is_atom c =
    is_print c
    && not (c == b'@')
    && not (c == b'"')
    && not (c == b'\\')
    && not (c == b'(')
    && not (c == b')')
    && not (c == b'<')
    && not (c == b'>')

abbrev pub IsAtoms : Bytes → Type 0
IsAtoms = All (λ c. is_atom c ≡ true)

-- The scan state after one more byte was stored.
abbrev stored : Scan → ℕ → Scan
stored s c = record s {
  target = record s.target { path = set s.target.path s.out_pos c };
  out_pos = suc s.out_pos;
}

advance : Scan → Bytes → Scan
advance s [] = s
advance s (c ∷ cs) = advance (stored s c) cs

record IsReady (s : Scan) : Type 0 where
  mode : s.mode ≡ plain
  quotes : s.quotes ≡ false
  comment : s.comment ≡ false
  parsing : s.done_parsing ≡ false
  size : length s.target.path ≡ smtp_max_path_length

stored-IsReady : (s : Scan) (c : ℕ) → IsReady s → IsReady (stored s c)
stored-IsReady s c r = record {
  mode = r.mode;
  quotes = r.quotes;
  comment = r.comment;
  parsing = r.parsing;
  size = length-set s.target.path s.out_pos c ∙ r.size;
}

loop_atom :
    (s : Scan) (c : ℕ) (rest : Bytes)
    → IsReady s
    → s.out_pos < 299
    → is_atom c ≡ true
    → loop s (c ∷ rest) ≡ loop (stored s c) rest
unfolding loop step_in step_plain put_printable
loop_atom s c rest r lt a = ground (arith, put_lem s c (omega (arith, r.size)))

loop-append :
    (xs rest : Bytes) (s : Scan)
    → IsReady s
    → s.out_pos + length xs ≤ 299
    → IsAtoms xs
    → loop s (xs ++ rest) ≡ loop (advance s xs) rest
unfolding advance
loop-append [] rest s r lt a = refl
loop-append (c ∷ cs) rest s r lt a =
    loop_atom s c (cs ++ rest) r (omega arith) a.0
    ∙ loop-append cs rest (stored s c) (stored-IsReady s c r) (omega arith) a.1

-- What `advance` keeps, and where it ends.
record IsAdvanced (s : Scan) (xs : Bytes) (t : Scan) : Type 0 where
  ready : IsReady t
  out_pos : t.out_pos ≡ s.out_pos + length xs
  delimiter : t.target.delimiter_position ≡ s.target.delimiter_position
  written : take t.out_pos t.target.path ≡ take s.out_pos s.target.path ++ xs

take-set : (p : Bytes) (n c : ℕ) → n < length p → take (suc n) (set p n c) ≡ take n p ++ c ∷ []
take-set [] n c h = elim h [ ]
take-set (x ∷ p) zero c h = refl
take-set (x ∷ p) (suc n) c h = ap (◌∷◌ x) (take-set p n c (omega arith))

advance-IsAdvanced :
    (xs : Bytes) (s : Scan)
    → IsReady s
    → s.out_pos + length xs ≤ 299
    → IsAdvanced s xs (advance s xs)
unfolding advance
advance-IsAdvanced [] s r lt = record {
  ready = r;
  out_pos = omega arith;
  delimiter = refl;
  written = sym (append-nil _);
}
advance-IsAdvanced (x ∷ xs) s r lt =
    let a = advance-IsAdvanced xs (stored s x) (stored-IsReady s x r) (omega arith) in
    record {
      ready = a.ready;
      out_pos = omega (arith, a.out_pos);
      delimiter = a.delimiter;
      written =
          a.written
          ∙ ap (λ t. t ++ xs) (take-set s.target.path s.out_pos x (omega (arith, r.size)))
          ∙ append_assoc (take s.out_pos s.target.path) (x ∷ []) xs;
    }

get_elem?-zero_of_take :
    (p : Bytes) (n x : ℕ) (xs : Bytes) → take n p ≡ x ∷ xs → get_elem? p 0 ≡ some x
get_elem?-zero_of_take p zero x xs h = cc
get_elem?-zero_of_take [] (suc n) x xs h = cc
get_elem?-zero_of_take (y ∷ p) (suc n) x xs h = cc

-- the scan state behind the `@`
abbrev at_stored : Scan → Scan
at_stored s = stored (record s { target = record s.target { delimiter_position = s.out_pos } }) b'@'

at_stored-IsReady : (s : Scan) → IsReady s → IsReady (at_stored s)
at_stored-IsReady s r = record {
  mode = r.mode;
  quotes = r.quotes;
  comment = r.comment;
  parsing = r.parsing;
  size = length-set s.target.path s.out_pos b'@' ∙ r.size;
}

loop_at :
    (s : Scan) (x : ℕ) (rest : Bytes)
    → IsReady s
    → 0 < s.out_pos
    → s.out_pos < 299
    → s.target.delimiter_position ≡ 0
    → get_elem? s.target.path 0 ≡ some x
    → is_atom x ≡ true
    → loop s (b'@' ∷ rest) ≡ loop (at_stored s) rest
unfolding loop step_in step_plain on_at
loop_at s x rest r lo hi d g a = ground (
  arith,
  put_lem (record s { target = record s.target { delimiter_position = s.out_pos } }) b'@'
      (omega (arith, r.size)),
)

loop_open :
    (s : Scan) (rest : Bytes) → IsReady s → s.out_pos < 299 → loop s (b'<' ∷ rest) ≡ loop s rest
unfolding loop step_in step_plain
loop_open s rest r lt = ground arith

loop_done :
    (s : Scan) (rest : Bytes) → s.mode ≡ plain → s.done_parsing ≡ true → loop s rest ≡ parsed s
unfolding loop
loop_done s [] m d = refl
loop_done s (c ∷ cs) m d = ground arith

loop_close :
    (s : Scan) (rest : Bytes)
    → IsReady s
    → s.out_pos < 299
    → loop s (b'>' ∷ rest) ≡ parsed (record s { done_parsing = true })
unfolding loop step_in step_plain
loop_close s rest r lt =
    ground (arith, loop_done (record s { done_parsing = true }) rest r.mode refl)

abbrev angle_address : Bytes → Bytes → Bytes → Bytes
angle_address local domain rest = b'<' ∷ (local ++ (b'@' ∷ (domain ++ (b'>' ∷ rest))))

IsAtoms-IsPrintable : (xs : Bytes) → IsAtoms xs → IsPrintable xs
IsAtoms-IsPrintable [] a = tt
IsAtoms-IsPrintable (x ∷ xs) a = (ground arith, IsAtoms-IsPrintable xs a.1)

IsPrintable-append : (xs ys : Bytes) → IsPrintable xs → IsPrintable ys → IsPrintable (xs ++ ys)
IsPrintable-append [] ys p q = q
IsPrintable-append (x ∷ xs) ys p q = (p.0, IsPrintable-append xs ys p.1 q)
