-- ===== src/Common/LineLoop/Invariant.antt =====
-- The loop of client_process: what each line keeps.
use cmail.Base.{ℕ, zero, suc, Bool, true, false, Option, none, some, length, Bytes, c_str}
use cmail.Common.NextLine.{Input, common_next_line}
use cmail.Common.LineLoop.{Serve, after_serve, on_next, line_loop, serve_read}

module _ {ℓ κ} {S : Type ℓ} (P : S → Type κ) (serve : Serve S)
    (keeps : (n size : ℕ) (input : Bytes) (s : S) → P s → P (serve n size input s).0) where
  after_serve-keeps :
      (next : S → Input → S × (Bool × Input)) (i : Input) (x : S × Bool)
      → ((s : S) (j : Input) → P s → P (next s j).0)
      → P x.0
      → P (after_serve next i x).0
  after_serve-keeps next i (s, true) h p = p
  after_serve-keeps next i (s, false) h p = h s i p

  on_next-keeps :
      (next : S → Input → S × (Bool × Input)) (n : ℕ) (s : S) (x : Option ℕ × Input)
      → ((s' : S) (j : Input) → P s' → P (next s' j).0)
      → P s
      → P (on_next next (serve n) s x).0
  on_next-keeps next n s (none, i) h p = p
  on_next-keeps next n s (some size, i) h p =
      after_serve-keeps next i (serve n size (c_str i.kept) s) h (keeps n size (c_str i.kept) s p)

  line_loop-keeps : (fuel n : ℕ) (s : S) (i : Input) → P s → P (line_loop serve fuel n s i).0
  unfolding line_loop
  line_loop-keeps zero n s i p = p
  line_loop-keeps (suc fuel) n s i p =
      on_next-keeps (line_loop serve fuel (suc n)) n s (common_next_line i)
        (line_loop-keeps fuel (suc n)) p

  pub serve_read-keeps : (s : S) (i : Input) → P s → P (serve_read serve s i).0
  unfolding serve_read
  serve_read-keeps s i p = line_loop-keeps (suc (length i.fresh)) 0 s i p
