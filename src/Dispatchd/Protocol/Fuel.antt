-- ===== src/Dispatchd/Protocol/Fuel.antt =====
-- cmail-dispatchd/protocol.c, protocol_read: the loop over the bytes of one read.
use cmail.Base.{
  ℕ, zero, suc, ◌<◌, Bool, not, ◌&&◌, [], ◌∷◌, ◌≡◌, refl, arith, ◌==◌, ltb, if_both, is_digit,
  length, Bytes,
}
use cmail.Dispatchd.Types.{SmtpReply}
use cmail.Dispatchd.Protocol.{
  Scan, incomplete, bad_start, sentence, behind, scan_sentence, Verdict, failed, complete, more,
  on_verdict, on_scan, take_sentence, chunk_loop,
}

-- What stands behind a sentence is shorter than `n`.
abbrev Shortens : ℕ → Scan → Type 0
Shortens n (sentence text rest) = length rest < n
Shortens n _ = Unit

behind-Shortens : (c n : ℕ) (s : Scan) → Shortens n s → Shortens (suc n) (behind c s)
behind-Shortens c n incomplete h = tt
behind-Shortens c n bad_start h = tt
behind-Shortens c n (sentence text rest) h = omega arith

scan_sentence-Shortens : (i : ℕ) (text : Bytes) → Shortens (length text) (scan_sentence i text)
unfolding scan_sentence
scan_sentence-Shortens i [] = tt
scan_sentence-Shortens i (c ∷ []) = tt
scan_sentence-Shortens i (c ∷ d ∷ cs) =
    if_both (Shortens (suc (suc (length cs)))) (ltb i 3 && not (is_digit c)) bad_start _ tt (
      if_both (Shortens (suc (suc (length cs)))) (c == 13 && d == 10) (sentence [] cs) _
        (omega arith)
        (behind-Shortens c (suc (length cs)) (scan_sentence (suc i) (d ∷ cs))
          (scan_sentence-Shortens (suc i) (d ∷ cs))))

-- The loop on the bytes of one read without fuel: each step takes the next sentence, and there are
-- finitely many steps before the outcome.
pub data Reads (memory : Bytes → Bool) : SmtpReply → Bytes → Verdict × SmtpReply → Type 0 where
  starved :
      {r : SmtpReply} {text : Bytes}
      → scan_sentence 0 text ≡ incomplete
      → Reads memory r text (more, r)
  refused :
      {r : SmtpReply} {text : Bytes}
      → scan_sentence 0 text ≡ bad_start
      → Reads memory r text (failed, r)
  fails :
      {r r' : SmtpReply} {text line rest : Bytes}
      → scan_sentence 0 text ≡ sentence line rest
      → take_sentence memory r line ≡ (failed, r')
      → Reads memory r text (failed, r')
  completes :
      {r r' : SmtpReply} {text line rest : Bytes}
      → scan_sentence 0 text ≡ sentence line rest
      → take_sentence memory r line ≡ (complete, r')
      → Reads memory r text (complete, r')
  goes_on :
      {r r' : SmtpReply} {text line rest : Bytes} {v : Verdict × SmtpReply}
      → scan_sentence 0 text ≡ sentence line rest
      → take_sentence memory r line ≡ (more, r')
      → Reads memory r' rest v
      → Reads memory r text v

module _ (memory : Bytes → Bool) where
  on_verdict-Reads :
      (next : SmtpReply → Verdict × SmtpReply) (r : SmtpReply) (text line rest : Bytes)
      (x : Verdict × SmtpReply)
      → scan_sentence 0 text ≡ sentence line rest
      → take_sentence memory r line ≡ x
      → ((r' : SmtpReply) → Reads memory r' rest (next r'))
      → Reads memory r text (on_verdict next x)
  on_verdict-Reads next r text line rest (more, r') e t h = goes_on e t (h r')
  on_verdict-Reads next r text line rest (complete, r') e t h = completes e t
  on_verdict-Reads next r text line rest (failed, r') e t h = fails e t

  on_scan-Reads :
      (next : SmtpReply → Bytes → Verdict × SmtpReply) (r : SmtpReply) (text : Bytes) (s : Scan)
      → scan_sentence 0 text ≡ s
      → Shortens (length text) s
      → ((r' : SmtpReply) (rest : Bytes)
          → length rest < length text
          → Reads memory r' rest (next r' rest))
      → Reads memory r text (on_scan next memory r s)
  on_scan-Reads next r text incomplete e lt h = starved e
  on_scan-Reads next r text bad_start e lt h = refused e
  on_scan-Reads next r text (sentence line rest) e lt h =
      on_verdict-Reads (λ r'. next r' rest) r text line rest (take_sentence memory r line) e refl
        (λ r'. h r' rest lt)

  -- The loop over one read ends: with more fuel than bytes its result is what the reading of sentence
  -- after sentence comes to in finitely many steps, each behind the sentence before.
  pub chunk_loop-Reads :
      (fuel : ℕ) (r : SmtpReply) (text : Bytes)
      → length text < fuel
      → Reads memory r text (chunk_loop fuel memory r text)
  unfolding chunk_loop
  chunk_loop-Reads zero r text h = absurd (omega arith)
  chunk_loop-Reads (suc fuel) r text h =
      on_scan-Reads (chunk_loop fuel memory) r text (scan_sentence 0 text) refl
        (scan_sentence-Shortens 0 text) (λ r' rest lt. chunk_loop-Reads fuel r' rest (omega arith))
