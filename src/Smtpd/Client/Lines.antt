-- ===== src/Smtpd/Client/Lines.antt =====
-- cmail-smtpd/client.c and smtpstatemachine.c: the lines of a mail that the dispatcher of another
-- server sends, smtp_data of cmail-dispatchd/smtp.c.
pub mod Receive
use mathlib.Core.List.{append_assoc, append-nil}
use cmail.Base.{
  ℕ, zero, suc, ◌+◌, ◌-◌, ◌<◌, ◌≤◌, Bool, true, false, List, [], ◌∷◌, ◌++◌, some, ◌≡◌, refl, sym,
  ap, ap₂, ◌∙◌, arith, ◌==◌, ◌⊎◌, inl, inr, if◌then◌else◌, codes, Bytes, length, length-append, All,
  pos, if_both, if_cases, ◌&&◌, has_prefix, ltb, leb, ltb_ℤ, ℤ, negsuc, ◌+ℤ◌,
}
use cmail.Common.LineLoop.Refine.{serve_all, unless_closed}
use cmail.Common.NextLine.Lines.{IsLine}
use cmail.Dispatchd.Smtp.Wire.{join, dot, dotted_lines}
use cmail.Smtpd.Types.{Mail, cmail_failscore_limit}
use cmail.Smtpd.Mail.{mail_line}
use cmail.Smtpd.Mail.Lines.{HasRoom, mail_line-HasRoom, mail_line_stores}
use cmail.Smtpd.Session.{Session, Listener, Answers, Outcome, SmtpState, state_data}
use cmail.Smtpd.State.{client_line, in_state}
use cmail.Smtpd.State.Data.{smtpstate_data, text_line, dotted, scan_header}
use cmail.Smtpd.Client.{
  Client, Moment, serve_line, answer_line, scored, after_line, smtp_max_line_length,
}

-- The mail holds this text, which is not empty, in a block that is large enough.
pub record Holds (t : Bytes) (m : Mail) : Type 0 where
  pub text : m.data_text ≡ some t
  pub room : HasRoom m
  pub begun : 0 < m.data_offset

-- The limit of the size leaves room for `k` more bytes, if there is a limit.
abbrev pub HasLeft : ℕ → Mail → Type 0
HasLeft k m = (m.data_max ≡ 0) ⊎ (m.data_offset + k < m.data_max)

-- What a line does to the mail: one of two ways to the same text.
abbrev IsStored : Bytes → Bytes → ℕ → Mail → Mail → Type 0
IsStored t l k m m' = Holds (t ++ 13 ∷ 10 ∷ l) m' × HasLeft k m'

mail_line-data_max :
    (a : Answers) (m : Mail) (l : Bytes) → (mail_line a.heap m l).0.data_max ≡ m.data_max
unfolding mail_line
mail_line-data_max a m l = ground arith

length_held : (t : Bytes) (m : Mail) → Holds t m → length t ≡ m.data_offset
length_held t m h = ground (arith, h.text, h.room.block)

crlf_before :
    (n : ℕ) (l : Bytes) → 0 < n → (if n == 0 then [] else b'\r' ∷ b'\n' ∷ []) ++ l ≡ 13 ∷ 10 ∷ l
crlf_before n l h = ground arith

room_left :
    (k n : ℕ) (m : Mail) → HasLeft (n + 2 + k) m → (m.data_max ≡ 0) ⊎ (m.data_offset < m.data_max)
room_left k n m (inl e) = inl e
room_left k n m (inr lt) = inr (omega arith)

left_after :
    (k n : ℕ) (m m' : Mail)
    → m'.data_max ≡ m.data_max
    → m'.data_offset ≡ m.data_offset + (2 + n)
    → HasLeft (n + 2 + k) m
    → HasLeft k m'
left_after k n m m' e o (inl z) = inl (e ∙ z)
left_after k n m m' e o (inr lt) = inr (omega arith)

stored :
    (a : Answers) (m : Mail) (t l : Bytes) (k : ℕ)
    → Holds t m
    → HasLeft (length l + 2 + k) m
    → a.heap.realloc_ok ≡ true
    → IsStored t l k m (mail_line a.heap m l).0
stored a m t l k h left ok =
    let (_, text, offset) =
      mail_line_stores a.heap m l t h.text h.room (room_left k (length l) m left) ok in
    let crlf = ap (λ b. t ++ b) (crlf_before m.data_offset l h.begun) in
    let long : (mail_line a.heap m l).0.data_offset ≡ m.data_offset + (2 + length l) =
      omega (arith, offset ∙ ap length crlf, length-append t (13 ∷ 10 ∷ l), length_held t m h) in
    (
      record {
        text = text ∙ ap some crlf;
        room = mail_line-HasRoom a.heap m l h.room;
        begun = omega (arith, long, h.begun);
      },
      left_after k (length l) m (mail_line a.heap m l).0 (mail_line-data_max a m l) long left,
    )

scan_header_lem :
    (t l : Bytes) (k : ℕ) (m : Mail)
    → Holds t m
    → HasLeft k m
    → Holds t (scan_header m l) × HasLeft k (scan_header m l)
unfolding scan_header
scan_header_lem t [] k m h left =
    if_both (λ (x : Mail). Holds t x × HasLeft k x) (m.header_offset == 0) _ _
      (
        record {
          text = h.text;
          room = record { allocated = h.room.allocated; block = h.room.block };
          begun = h.begun;
        },
        left,
      )
      (h, left)
scan_header_lem t (c ∷ cs) k m h left =
    if_both (λ (x : Mail). Holds t x × HasLeft k x)
      (m.header_offset == 0 && has_prefix (codes "Received: ") (c ∷ cs)) _ _
      (
        record {
          text = h.text;
          room = record { allocated = h.room.allocated; block = h.room.block };
          begun = h.begun;
        },
        left,
      )
      (h, left)

-- A session that receives a mail, and the text so far.
abbrev pub IsReceiving : Bytes → ℕ → Session → Type 0
IsReceiving t k s = (s.state ≡ state_data) × Holds t s.current_mail × HasLeft k s.current_mail

-- A line of the mail leaves the session there, and is not answered.
abbrev pub IsTaken : Bytes → ℕ → Outcome → Type 0
IsTaken t k o = IsReceiving t k o.session × (o.sent ≡ []) × (o.rv ≡ pos 0)

text_line-IsTaken :
    (a : Answers) (s : Session) (t l : Bytes) (k : ℕ)
    → IsReceiving t (length l + 2 + k) s
    → a.heap.realloc_ok ≡ true
    → IsTaken (t ++ 13 ∷ 10 ∷ l) k (text_line a s l)
unfolding text_line
text_line-IsTaken a s t l k (e, h, left) ok =
    let (h', left') = scan_header_lem t l _ s.current_mail h left in
    let (holds, has_left) = stored a (scan_header s.current_mail l) t l k h' left' ok in
    ((e, holds, has_left), refl, refl)

smtpstate_data-dot :
    (a : Answers) (s : Session) (t l : Bytes) (k : ℕ)
    → IsReceiving t (length l + 2 + k) s
    → a.heap.realloc_ok ≡ true
    → IsTaken (t ++ 13 ∷ 10 ∷ l) k (smtpstate_data a s (dot l))
unfolding smtpstate_data dotted
smtpstate_data-dot a s t [] k h ok = text_line-IsTaken a s t [] k h ok
smtpstate_data-dot a s t (c ∷ cs) k (e, h, left) ok =
    if_cases (λ x. IsTaken (t ++ 13 ∷ 10 ∷ c ∷ cs) k (smtpstate_data a s x)) (c == 46) (46 ∷ c ∷ cs)
      (c ∷ cs)
      (λ _.
        let (holds, has_left) = stored a s.current_mail t (c ∷ cs) k h left ok in
        ((e, holds, has_left), refl, refl))
      (λ no. rw no (text_line-IsTaken a s t (c ∷ cs) k (e, h, left) ok))

-- The score is kept by a line that is neither praised nor blamed.
score_same : (n : ℤ) → n +ℤ pos 0 ≡ n
unfolding ◌+ℤ◌
score_same (pos n) = ground arith
score_same (negsuc n) = ground arith

-- A client that is being served a mail: its score is not below the limit.
abbrev pub IsServed : Bytes → ℕ → Client → Type 0
IsServed t k c =
    IsReceiving t k c.session × (ltb_ℤ c.connection_score cmail_failscore_limit ≡ false)

-- what a quiet line leaves
abbrev pub IsQuiet : Bytes → ℕ → Client → Client × Bool → Type 0
IsQuiet t k c r = IsServed t k r.0 × (r.1 ≡ false) × (r.0.sent ≡ c.sent)

pub same_limit :
    (x y : ℤ)
    → y ≡ pos 0
    → ltb_ℤ x cmail_failscore_limit ≡ false
    → ltb_ℤ (x +ℤ y) cmail_failscore_limit ≡ false
same_limit x y e h =
    ap (λ z. ltb_ℤ (x +ℤ z) cmail_failscore_limit) e
    ∙ ap (λ z. ltb_ℤ z cmail_failscore_limit) (score_same x)
    ∙ h

pub scored-IsQuiet :
    (c : Client) (time : ℕ) (o : Outcome) (t : Bytes) (k : ℕ)
    → IsTaken t k o
    → ltb_ℤ c.connection_score cmail_failscore_limit ≡ false
    → IsQuiet t k c (scored (after_line c time o))
unfolding scored
scored-IsQuiet c time o t k (receiving, silent, rv) h =
    let score = same_limit c.connection_score o.rv rv h in
    if_cases (IsQuiet t k c) (ltb_ℤ (c.connection_score +ℤ o.rv) cmail_failscore_limit) _
      (after_line c time o, false) (λ low. absurd cc)
      (λ _. ((receiving, score), refl, ap (λ x. c.sent ++ x) silent ∙ append-nil c.sent))

answer_line-dot :
    (w : Listener) (m : Moment) (n : ℕ) (c : Client) (t l : Bytes) (k : ℕ)
    → IsServed t (length l + 2 + k) c
    → (m.answers n).heap.realloc_ok ≡ true
    → IsQuiet (t ++ 13 ∷ 10 ∷ l) k c (answer_line w m n (dot l) c)
unfolding answer_line client_line in_state
answer_line-dot w m n c t l k (receiving, score) ok =
    let (e, _, _) = receiving in
    let o = client_line w (m.answers n) c.session (dot l) in
    let chosen : o ≡ smtpstate_data (m.answers n) c.session (dot l) =
      ap (λ st. in_state st w (m.answers n) c.session (dot l)) e in
    scored-IsQuiet c (m.time n) o (t ++ 13 ∷ 10 ∷ l) k
      (rw chosen (smtpstate_data-dot (m.answers n) c.session t l k receiving ok)) score

pub serve_line-dot :
    (w : Listener) (m : Moment) (n : ℕ) (c : Client) (t l : Bytes) (k : ℕ)
    → IsServed t (length l + 2 + k) c
    → (m.answers n).heap.realloc_ok ≡ true
    → length (dot l) < 1498
    → IsQuiet (t ++ 13 ∷ 10 ∷ l) k c (serve_line w m n (length (dot l)) (dot l) c)
unfolding serve_line
serve_line-dot w m n c t l k h ok short =
    if_cases (IsQuiet (t ++ 13 ∷ 10 ∷ l) k c) (leb (smtp_max_line_length - 2) (length (dot l))) _
      (answer_line w m n (dot l) c) (λ long. absurd (ground arith))
      (λ _. answer_line-dot w m n c t l k h ok)
