-- ===== src/Smtpd/Path/Address/Stale.antt =====
-- cmail-smtpd/path.c: path_parse on a path whose delimiter an earlier address has set.
use cmail.Base.{ℕ, ◌<◌, ◌∷◌, ◌++◌, ◌≡◌, ◌≢◌, refl, ap, ◌∙◌, arith, Bytes, length}
use cmail.Smtpd.Types.{MailPath, smtp_max_path_length}
use cmail.Smtpd.Path.{
  Scan, rejected, ◌>>=◌, on_at, step_plain, step_in, loop, finish, initial, path_parse,
}
use cmail.Smtpd.Path.Address.{
  IsAtoms, advance, IsReady, loop-append, advance-IsAdvanced, loop_open, angle_address,
}

loop_at_stale :
    (s : Scan) (rest : Bytes)
    → IsReady s
    → 0 < s.out_pos
    → s.out_pos < 299
    → s.target.delimiter_position ≢ 0
    → loop s (b'@' ∷ rest) ≡ rejected s.target
unfolding loop step_in step_plain on_at
loop_at_stale s rest r lo hi d = ground arith

-- A path structure whose delimiter is still set, as a rejected address with an `@` leaves it, makes
-- path_parse reject every address <local@domain> whose local part is 1 to 298 printable characters
-- without a meaning of their own, whatever stands behind the `@`, and its delimiter stays set.
pub path_parse_stale :
    (x : ℕ) (xs domain rest : Bytes) (p : MailPath)
    → length p.path ≡ smtp_max_path_length
    → p.delimiter_position ≢ 0
    → IsAtoms (x ∷ xs)
    → length (x ∷ xs) < 299
    → (q : MailPath) × (path_parse (angle_address (x ∷ xs) domain rest) p ≡ rejected q)
      × (q.delimiter_position ≡ p.delimiter_position)
unfolding path_parse
path_parse_stale x xs domain rest p size stale al short =
    let r : IsReady (initial p) = record {
      mode = refl;
      quotes = refl;
      comment = refl;
      parsing = refl;
      size = size;
    } in
    let s = advance (initial p) (x ∷ xs) in
    let a = advance-IsAdvanced (x ∷ xs) (initial p) r (omega arith) in
    let after : Bytes = b'@' ∷ (domain ++ (b'>' ∷ rest)) in
    let refused : loop (initial p) (angle_address (x ∷ xs) domain rest) ≡ rejected s.target =
      loop_open (initial p) ((x ∷ xs) ++ after) r (omega arith)
      ∙ loop-append (x ∷ xs) after (initial p) r (omega arith) al
      ∙ loop_at_stale s (domain ++ (b'>' ∷ rest)) a.ready (omega (arith, a.out_pos))
          (omega (arith, a.out_pos)) (λ z. stale (omega (arith, a.delimiter))) in
    (s.target, ap (λ m. m >>= finish) refused, a.delimiter)
