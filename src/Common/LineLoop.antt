-- ===== src/Common/LineLoop.antt =====
-- The loop of client_process, the same in cmail-smtpd/client.c and cmail-popd/client.c, over the lines
-- of one read: `serve` handles a line, given its number, its length and the string in the buffer, and
-- says whether the connection was closed.
pub mod Refine
pub mod Invariant
use cmail.Base.{ℕ, zero, suc, ◌+◌, Bool, true, false, Option, none, some, length, Bytes, c_str}
use cmail.Common.NextLine.{Input, common_next_line}

abbrev pub Serve {ℓ} : Type ℓ → Type ℓ
Serve S = ℕ → ℕ → Bytes → S → S × Bool

module _ {ℓ} {S : Type ℓ} where
  abbrev pub after_serve : (S → Input → S × (Bool × Input)) → Input → S × Bool → S × (Bool × Input)
  after_serve next i (s, true) = (s, (true, i))
  after_serve next i (s, false) = next s i

  abbrev pub on_next :
      (S → Input → S × (Bool × Input))
      → (ℕ → Bytes → S → S × Bool)
      → S
      → Option ℕ × Input
      → S × (Bool × Input)
  on_next next serve s (none, i) = (s, (false, i))
  on_next next serve s (some n, i) = after_serve next i (serve n (c_str i.kept) s)

  -- Each line takes at least two bytes of what was read, so that its length is enough fuel.
  unfoldable pub line_loop : Serve S → ℕ → ℕ → S → Input → S × (Bool × Input)
  unfolding common_next_line
  line_loop serve zero n s i = (s, (false, i))
  line_loop serve (suc fuel) n s i =
      on_next (line_loop serve fuel (suc n)) (serve n) s (common_next_line i)

  unfoldable pub serve_read : Serve S → S → Input → S × (Bool × Input)
  unfolding line_loop
  serve_read serve s i = line_loop serve (suc (length i.fresh)) 0 s i
