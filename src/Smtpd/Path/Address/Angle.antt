-- ===== src/Smtpd/Path/Address/Angle.antt =====
-- cmail-smtpd/path.c: path_parse on an address in angle brackets.
use mathlib.Core.List.{append_assoc}
use cmail.Base.{
  ℕ, ◌+◌, ◌<◌, true, false, [], ◌∷◌, ◌++◌, ◌≡◌, ◌≢◌, refl, ap, ◌∙◌, arith, Bytes, c_str, length,
  take, set,
}
use cmail.Smtpd.Types.{MailPath, smtp_max_path_length}
use cmail.Smtpd.Path.{Scan, parsed, ◌>>=◌, loop, finish, initial, path_parse}
use cmail.Smtpd.Path.Bounds.{IsPrintable, c_str-set}
use cmail.Smtpd.Path.Address.{
  IsPrintable-append, IsAtoms-IsPrintable, IsAtoms, advance, IsReady, loop-append, take-set,
  advance-IsAdvanced, get_elem?-zero_of_take, at_stored, at_stored-IsReady, loop_at, loop_open,
  loop_close, angle_address,
}

finish_lem :
    (s : Scan) (text : Bytes)
    → s.out_pos < length s.target.path
    → s.comment ≡ false
    → s.target.delimiter_position ≢ 0
    → take s.out_pos s.target.path ≡ text
    → IsPrintable text
    → (q : MailPath) × (finish s ≡ parsed q)
      × (c_str q.path ≡ text)
      × (q.delimiter_position ≡ s.target.delimiter_position)
unfolding finish
finish_lem s text lt c d e printable = (
  record s.target { path = set s.target.path s.out_pos 0 },
  ground arith,
  c_str-set s.target.path s.out_pos lt (rw e printable) ∙ e,
  refl,
)

-- The state in which the loop ends on an address.
record IsScanned (text : Bytes) (at : ℕ) (t : Scan) : Type 0 where
  room : t.out_pos < length t.target.path
  comment : t.comment ≡ false
  delimiter : t.target.delimiter_position ≡ at
  written : take t.out_pos t.target.path ≡ text

loop-angle_address :
    (x : ℕ) (xs domain rest : Bytes) (s : Scan)
    → IsReady s
    → s.out_pos ≡ 0
    → s.target.delimiter_position ≡ 0
    → IsAtoms (x ∷ xs)
    → IsAtoms domain
    → length (x ∷ xs) + length domain < 298
    → (t : Scan) × (loop s (angle_address (x ∷ xs) domain rest) ≡ parsed t)
      × IsScanned ((x ∷ xs) ++ (b'@' ∷ domain)) (length (x ∷ xs)) t
loop-angle_address x xs domain rest s r o d al ad short =
    let s1 = advance s (x ∷ xs) in
    let a1 = advance-IsAdvanced (x ∷ xs) s r (omega arith) in
    let w1 : take s1.out_pos s1.target.path ≡ x ∷ xs =
      a1.written ∙ ap (λ n. take n s.target.path ++ x ∷ xs) o in
    let s2 = at_stored s1 in
    let r2 = at_stored-IsReady s1 a1.ready in
    let s3 = advance s2 domain in
    let a3 = advance-IsAdvanced domain s2 r2 (omega (arith, a1.out_pos)) in
    (
      record s3 { done_parsing = true },
      loop_open s _ r (omega arith)
          ∙ loop-append (x ∷ xs) _ s r (omega arith) al
          ∙ loop_at s1 x _ a1.ready (omega (arith, a1.out_pos)) (omega (arith, a1.out_pos))
              (a1.delimiter ∙ d) (get_elem?-zero_of_take s1.target.path s1.out_pos x xs w1) al.0
          ∙ loop-append domain _ s2 r2 (omega (arith, a1.out_pos)) ad
          ∙ loop_close s3 rest a3.ready (omega (arith, a1.out_pos, a3.out_pos)),
      record {
        room = omega (arith, a1.out_pos, a3.out_pos, a3.ready.size);
        comment = a3.ready.comment;
        delimiter = omega (arith, a3.delimiter, a1.out_pos);
        written =
            a3.written
            ∙ ap (λ t. t ++ domain)
                (take-set s1.target.path s1.out_pos b'@' (omega (arith, a1.out_pos, a1.ready.size))
                  ∙ ap (λ t. t ++ b'@' ∷ []) w1)
            ∙ append_assoc (x ∷ xs) (b'@' ∷ []) domain;
      },
    )

-- `<local@domain>`, whatever bytes follow it, is parsed to `local@domain` with the delimiter at
-- the `@`, if both parts are ordinary characters, the local part is not empty and the address has
-- at most 298 bytes.
pub path_parse-angle_address :
    (x : ℕ) (xs domain rest : Bytes) (p : MailPath)
    → length p.path ≡ smtp_max_path_length
    → p.delimiter_position ≡ 0
    → IsAtoms (x ∷ xs)
    → IsAtoms domain
    → length (x ∷ xs) + length domain < 298
    → (q : MailPath) × (path_parse (angle_address (x ∷ xs) domain rest) p ≡ parsed q)
      × (c_str q.path ≡ (x ∷ xs) ++ (b'@' ∷ domain))
      × (q.delimiter_position ≡ length (x ∷ xs))
unfolding path_parse
path_parse-angle_address x xs domain rest p size fresh al ad short =
    let start : IsReady (initial p) = record {
      mode = refl;
      quotes = refl;
      comment = refl;
      parsing = refl;
      size = size;
    } in
    let (t, e, scanned) =
      loop-angle_address x xs domain rest (initial p) start refl fresh al ad short in
    let printable =
      IsPrintable-append (x ∷ xs) (b'@' ∷ domain) (IsAtoms-IsPrintable (x ∷ xs) al)
        (refl, IsAtoms-IsPrintable domain ad) in
    let (q, e', c, d) =
      finish_lem t _ scanned.room scanned.comment (omega (arith, scanned.delimiter)) scanned.written
        printable in
    (q, ap (λ m. m >>= finish) e ∙ e', c, d ∙ scanned.delimiter)
