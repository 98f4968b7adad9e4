-- ===== src/Common/LineLoop/Refine.antt =====
-- The loop of client_process against a server that is given its lines one by one.
use cmail.Base.{
  ℕ, zero, suc, ◌<◌, Bool, true, false, List, [], ◌∷◌, ◌++◌, length, length-append, Bytes, ◌≡◌,
  refl, arith, All,
}
use cmail.Common.NextLine.{Input, cleared}
use cmail.Common.NextLine.Lines.{
  IsLine, unlines, prepend, left_over, no_line, found_line, kept_line, kept_cleared, length-unlines,
}
use cmail.Common.LineLoop.{Serve, after_serve, line_loop, serve_read}

module _ {ℓ} {S : Type ℓ} (serve : Serve S) where
  abbrev pub unless_closed : (S → S × Bool) → S × Bool → S × Bool
  unless_closed next (s, true) = (s, true)
  unless_closed next (s, false) = next s

  -- A server of lines: it stops with the one at which it closes the connection.
  unfoldable pub serve_all : ℕ → List Bytes → S → S × Bool
  serve_all n [] s = (s, false)
  serve_all n (l ∷ ls) s = unless_closed (serve_all (suc n) ls) (serve n (length l) l s)

  -- The loop has done the same as that server, and left this buffer if the connection is open.
  abbrev pub Refines : S × (Bool × Input) → S × Bool → Bytes → Type ℓ
  Refines r spec tail =
      ((r.0, r.1.0) ≡ spec) × (r.1.0 ≡ false → r.1.1 ≡ record { kept = tail; fresh = [] })

  after_serve-Refines :
      (next : S → Input → S × (Bool × Input)) (i : Input) (x : S × Bool) (spec : S → S × Bool)
      (tail : Bytes)
      → ((s : S) → Refines (next s i) (spec s) tail)
      → Refines (after_serve next i x) (unless_closed spec x) tail
  after_serve-Refines next i (s, true) spec tail h = (refl, λ e. absurd cc)
  after_serve-Refines next i (s, false) spec tail h = h s

  from_start :
      (r : S × (Bool × Input)) (n : ℕ) (ls : List Bytes) (s : S) (tail : Bytes)
      → Refines r (serve_all n (prepend [] ls) s) (left_over [] ls tail)
      → Refines r (serve_all n ls s) tail
  from_start r n [] s tail h = h
  from_start r n (l ∷ ls) s tail h = h

  line_loop-Refines :
      (fuel n : ℕ) (s : S) (i : Input) (start : Bytes) (ls : List Bytes) (tail : Bytes)
      → length ls < fuel
      → cleared i.kept ≡ start
      → i.fresh ≡ unlines ls tail
      → IsLine start
      → All IsLine ls
      → IsLine tail
      → Refines
          (line_loop serve fuel n s i)
          (serve_all n (prepend start ls) s)
          (left_over start ls tail)
  unfolding line_loop unlines serve_all
  line_loop-Refines zero n s i start ls tail lt e f hs hl ht = absurd (omega arith)
  line_loop-Refines (suc fuel) n s i start [] tail lt e f hs hl ht =
      rw (no_line i start tail e f ht) (refl, λ p. refl)
  line_loop-Refines (suc fuel) n s i start (l ∷ ls) tail lt e f hs (hl, hls) ht =
      let i' : Input = record { kept = start ++ (l ++ 0 ∷ 0 ∷ []); fresh = unlines ls tail } in
      let later = after_serve-Refines (line_loop serve fuel (suc n)) i' in
      rw
        (
          found_line i start l (unlines ls tail) e f hl,
          kept_line start l hs hl,
          ← length-append start l,
        )
        (later (serve n (length (start ++ l)) (start ++ l) s) (serve_all (suc n) ls) tail (λ s'.
          from_start _ (suc n) ls s' tail (
            line_loop-Refines fuel (suc n) s' i' [] ls tail (omega arith) (kept_cleared start l)
              refl tt hls ht)))

-- If no CRLF is split between two reads, and no byte of a line is CR or NUL, the loop over what was
-- read does what a server of lines does that gets the lines one by one, the first behind the
-- unfinished line in the buffer, up to the one at which the connection is closed; and if it is not
-- closed, the buffer keeps just what stands behind the last line. The fuel is enough.
pub serve_read-Refines {ℓ} :
    {S : Type ℓ} (serve : Serve S) (s : S) (i : Input) (start : Bytes) (ls : List Bytes)
    (tail : Bytes)
    → cleared i.kept ≡ start
    → i.fresh ≡ unlines ls tail
    → IsLine start
    → All IsLine ls
    → IsLine tail
    → Refines serve
        (serve_read serve s i)
        (serve_all serve 0 (prepend start ls) s)
        (left_over start ls tail)
unfolding serve_read
serve_read-Refines serve s i start ls tail e f hs hl ht =
    line_loop-Refines serve (suc (length i.fresh)) 0 s i start ls tail
      (rw f (omega (arith, length-unlines ls tail))) e f hs hl ht
