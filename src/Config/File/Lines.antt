-- ===== src/Config/File/Lines.antt =====
-- lib/config.c: a file of lines is handled line by line.
use cmail.Base.{
  ℕ, zero, suc, ◌+◌, ◌<◌, Bool, true, not, ◌&&◌, List, [], ◌∷◌, ◌++◌, some, ◌≡◌, ◌≢◌, refl, ap, ◌∙◌,
  arith, if◌then◌else◌, ◌==◌, length, ltb, length-append, All, Bytes, c_str, skip_spaces, ℤ, pos,
  negsuc,
}
use cmail.Config.File.{
  strip_end, cut_comment, prepared, fgets, after, on_line, parse_loop, config_parse,
}

-- A line that fgets takes whole, less its line feed
unfoldable pub plain : Bytes → Bool
plain [] = true
plain (c ∷ cs) = not (c == 10) && (not (c == 0) && plain cs)

unfoldable pub all_short : List Bytes → Bool
unfolding plain
all_short [] = true
all_short (l ∷ ls) = (plain l && ltb (length l) 2047) && all_short ls

abbrev IsShort : Bytes → Type 0
IsShort l = All (λ c. (c ≢ 10) × (c ≢ 0)) l × (length l < 2047)

plain_lem : (l : Bytes) → plain l ≡ true → All (λ c. (c ≢ 10) × (c ≢ 0)) l
unfolding plain
plain_lem [] h = tt
plain_lem (c ∷ cs) h = (ground (arith, h), plain_lem cs (ground (arith, h)))

all_short_lem : (ls : List Bytes) → all_short ls ≡ true → All IsShort ls
unfolding all_short
all_short_lem [] h = tt
all_short_lem (l ∷ ls) h =
    ((plain_lem l (ground (arith, h)), ground (arith, h)), all_short_lem ls (ground (arith, h)))

abbrev pub unlines : List Bytes → Bytes
unlines [] = []
unlines (l ∷ ls) = l ++ (10 ∷ unlines ls)

fgets_line :
    (n : ℕ) (l rest : Bytes)
    → All (λ c. (c ≢ 10) × (c ≢ 0)) l
    → length l < n
    → fgets n (l ++ (10 ∷ rest)) ≡ (l ++ (10 ∷ []), rest)
unfolding fgets
fgets_line zero l rest h lt = absurd (omega arith)
fgets_line (suc n) [] rest h lt = refl
fgets_line (suc n) (c ∷ cs) rest h lt =
    rw (fgets_line n cs rest h.1 (omega arith)) (ground (arith, h.0.0))

line_c_str : (l : Bytes) → All (λ c. (c ≢ 10) × (c ≢ 0)) l → c_str (l ++ (10 ∷ [])) ≡ l ++ (10 ∷ [])
line_c_str [] h = refl
line_c_str (c ∷ cs) h = ground (arith, h.0.1, line_c_str cs h.1)

strip_end-append : (l : Bytes) → strip_end (l ++ (10 ∷ [])) ≡ strip_end l
unfolding strip_end
strip_end-append [] = refl
strip_end-append (c ∷ cs) = rw (strip_end-append cs) refl

prepared-append : (l : Bytes) → prepared (l ++ (10 ∷ [])) ≡ prepared l
unfolding prepared
prepared-append l = ap (λ s. cut_comment (skip_spaces s)) (strip_end-append l)

tail_shorter :
    (xs rest : Bytes) (fuel : ℕ) → suc (length (xs ++ (10 ∷ rest))) < suc fuel → length rest < fuel
tail_shorter xs rest fuel lt = lemma (length-append xs (10 ∷ rest))
  where
    lemma : length (xs ++ (10 ∷ rest)) ≡ length xs + length (10 ∷ rest) → length rest < fuel
    lemma e = omega (arith, e)

module _ {ℓ} {C : Type ℓ} (config_line : C → Bytes → C × ℤ) (errno : Bool) where
  -- What a program does that gets the lines one by one
  abbrev pub handle_lines : List Bytes → C → C × ℤ
  handle_lines [] c = (c, if errno then pos 0 else negsuc 0)
  handle_lines (l ∷ ls) c = on_line config_line (handle_lines ls) c (prepared l)

  pub on_line-next :
      (next next' : C → C × ℤ) (c : C) (l : Bytes)
      → ((d : C) → next d ≡ next' d)
      → on_line config_line next c l ≡ on_line config_line next' c l
  on_line-next next next' c [] h = h c
  on_line-next next next' c (x ∷ xs) h = go (config_line c (x ∷ xs))
    where
      go : (r : C × ℤ) → after next r ≡ after next' r
      go (d, pos n) = h d
      go (d, negsuc n) = refl

  parse_loop-unlines :
      (fuel : ℕ) (ls : List Bytes) (c : C)
      → All IsShort ls
      → length (unlines ls) < fuel
      → parse_loop fuel config_line errno (unlines ls) c ≡ handle_lines ls c
  unfolding parse_loop
  parse_loop-unlines zero ls c h lt = absurd (omega arith)
  parse_loop-unlines (suc fuel) [] c h lt = refl
  parse_loop-unlines (suc fuel) ([] ∷ ls) c h lt = parse_loop-unlines fuel ls c h.1 (omega arith)
  parse_loop-unlines (suc fuel) ((x ∷ xs) ∷ ls) c h lt =
      ap (λ r. on_line config_line (parse_loop fuel config_line errno r.1) c (prepared (c_str r.0)))
        (fgets_line 2047 (x ∷ xs) (unlines ls) h.0.0 h.0.1)
      ∙ ap
          (λ s. on_line config_line (parse_loop fuel config_line errno (unlines ls)) c (prepared s))
          (line_c_str (x ∷ xs) h.0.0)
      ∙ ap (on_line config_line (parse_loop fuel config_line errno (unlines ls)) c)
          (prepared-append (x ∷ xs))
      ∙ on_line-next (parse_loop fuel config_line errno (unlines ls)) (handle_lines ls) c
          (prepared (x ∷ xs))
          (λ d. parse_loop-unlines fuel ls d h.1 (tail_shorter xs (unlines ls) fuel lt))

  -- A file of lines of fewer than 2047 bytes each, all of them ended by a line feed and free of NUL, is
  -- handled to its end like the list of its lines one after the other, stopping at the first failure.
  pub config_parse-unlines :
      (ls : List Bytes) (c : C)
      → all_short ls ≡ true
      → config_parse config_line errno (some (unlines ls)) c ≡ handle_lines ls c
  unfolding config_parse
  config_parse-unlines ls c h =
      parse_loop-unlines (suc (length (unlines ls))) ls c (all_short_lem ls h) (omega arith)
