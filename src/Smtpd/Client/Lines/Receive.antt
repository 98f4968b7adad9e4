-- ===== src/Smtpd/Client/Lines/Receive.antt =====
-- smtp_data of cmail-dispatchd/smtp.c against client_process of cmail-smtpd/client.c.
use mathlib.Core.List.{append_assoc}
use cmail.Base.{
  ℕ, suc, ◌+◌, ◌<◌, Bool, true, false, List, [], ◌∷◌, ◌++◌, ◌≡◌, arith, refl, ap, ◌∙◌, codes, Bytes,
  length, All, pos, if_cases, ltb_ℤ, ◌+ℤ◌,
}
use cmail.Common.LineLoop.Refine.{serve_all, unless_closed}
use cmail.Dispatchd.Smtp.Wire.{join, dot, dotted_lines}
use cmail.Smtpd.Types.{cmail_failscore_limit}
use cmail.Smtpd.Session.{Listener, Outcome}
use cmail.Smtpd.State.{client_line, in_state}
use cmail.Smtpd.State.Data.{smtpstate_data, dotted, end_mail, end_reply}
use cmail.Smtpd.Client.{Client, Moment, serve_line, answer_line, scored, after_line}
use cmail.Smtpd.Client.Lines.{IsServed, IsQuiet, serve_line-dot, same_limit}

-- what the lines add to the text
unfoldable pub growth : Bytes → List Bytes → ℕ
growth l [] = length l + 2 + 0
growth l (x ∷ ls) = length l + 2 + growth x ls

-- the lines of a mail as smtp_data sends them, without the dot that ends it
unfoldable pub sent_lines : Bytes → List Bytes → List Bytes
sent_lines l [] = dot l ∷ []
sent_lines l (x ∷ ls) = dot l ∷ sent_lines x ls

dotted_lines-sent :
    (l : Bytes) (ls : List Bytes) → dotted_lines l ls ≡ sent_lines l ls ++ codes "." ∷ []
unfolding dotted_lines sent_lines
dotted_lines-sent l [] = refl
dotted_lines-sent l (x ∷ ls) = ap (λ xs. dot l ∷ xs) (dotted_lines-sent x ls)

abbrev pub IsShort : Bytes → Type 0
IsShort l = length (dot l) < 1498

module _ (w : Listener) (m : Moment) (room : (n : ℕ) → (m.answers n).heap.realloc_ok ≡ true) where
  closed_or_next :
      (n : ℕ) (xs ys : List Bytes) (x : Client × Bool)
      → ((c : Client)
          → serve_all (serve_line w m) (suc n) (xs ++ ys) c
            ≡ unless_closed
                (serve_line w m)
                (serve_all (serve_line w m) (suc n + length xs) ys)
                (serve_all (serve_line w m) (suc n) xs c))
      → unless_closed (serve_line w m) (serve_all (serve_line w m) (suc n) (xs ++ ys)) x
        ≡ unless_closed
            (serve_line w m)
            (serve_all (serve_line w m) (n + suc (length xs)) ys)
            (unless_closed (serve_line w m) (serve_all (serve_line w m) (suc n) xs) x)
  closed_or_next n xs ys (c, true) h = refl
  closed_or_next n xs ys (c, false) h =
      h c
      ∙ ap
          (λ k.
            unless_closed (serve_line w m) (serve_all (serve_line w m) k ys)
              (serve_all (serve_line w m) (suc n) xs c))
          (omega arith)

  serve_all-append :
      (n : ℕ) (xs ys : List Bytes) (c : Client)
      → serve_all (serve_line w m) n (xs ++ ys) c
        ≡ unless_closed
            (serve_line w m)
            (serve_all (serve_line w m) (n + length xs) ys)
            (serve_all (serve_line w m) n xs c)
  unfolding serve_all
  serve_all-append n [] ys c = ap (λ k. serve_all (serve_line w m) k ys c) (omega arith)
  serve_all-append n (x ∷ xs) ys c =
      closed_or_next n xs ys (serve_line w m n (length x) x c)
        (λ c'. serve_all-append (suc n) xs ys c')

  after-IsQuiet :
      (t t' : Bytes) (k : ℕ) (c : Client) (x : Client × Bool) (next : Client → Client × Bool)
      → IsQuiet t k c x
      → ((c' : Client) → IsServed t k c' → IsQuiet t' 0 c' (next c'))
      → IsQuiet t' 0 c (unless_closed (serve_line w m) next x)
  after-IsQuiet t t' k c (c', true) next (_, open_, _) h = absurd cc
  after-IsQuiet t t' k c (c', false) next (served, _, silent) h =
      let (served', open_, silent') = h c' served in (served', open_, silent' ∙ silent)

  serve_mail :
      (n : ℕ) (l : Bytes) (ls : List Bytes) (t : Bytes) (c : Client)
      → IsShort l
      → All IsShort ls
      → IsServed t (growth l ls) c
      → IsQuiet (t ++ 13 ∷ 10 ∷ join l ls) 0 c (serve_all (serve_line w m) n (sent_lines l ls) c)
  unfolding growth join sent_lines serve_all
  serve_mail n l [] t c short shorts h =
      after-IsQuiet (t ++ 13 ∷ 10 ∷ l) (t ++ 13 ∷ 10 ∷ l) 0 c
        (serve_line w m n (length (dot l)) (dot l) c) (λ c'. (c', false))
        (serve_line-dot w m n c t l 0 h (room n) short) (λ c' served. (served, refl, refl))
  serve_mail n l (x ∷ ls) t c short (short', shorts) h =
      after-IsQuiet (t ++ 13 ∷ 10 ∷ l) (t ++ 13 ∷ 10 ∷ join l (x ∷ ls)) (growth x ls) c
        (serve_line w m n (length (dot l)) (dot l) c)
        (serve_all (serve_line w m) (suc n) (sent_lines x ls))
        (serve_line-dot w m n c t l (growth x ls) h (room n) short)
        (λ c' served.
          rw (← append_assoc t (13 ∷ 10 ∷ l) (13 ∷ 10 ∷ join x ls))
            (serve_mail (suc n) x ls (t ++ 13 ∷ 10 ∷ l) c' short' shorts served))

  answered :
      (n time : ℕ) (c : Client) (o : Outcome)
      → o.rv ≡ pos 0
      → ltb_ℤ c.connection_score cmail_failscore_limit ≡ false
      → (unless_closed
          (serve_line w m)
          (serve_all (serve_line w m) n [])
          (scored (after_line c time o))).0.sent
        ≡ c.sent ++ o.sent
  unfolding serve_all scored
  answered n time c o rv h =
      let score = same_limit c.connection_score o.rv rv h in
      if_cases (λ r. (unless_closed (serve_line w m) (λ s. (s, false)) r).0.sent ≡ c.sent ++ o.sent)
        (ltb_ℤ (c.connection_score +ℤ o.rv) cmail_failscore_limit) _ (after_line c time o, false)
        (λ low. absurd cc) (λ _. refl)

  -- the line that ends the mail
  end_line :
      (n : ℕ) (c : Client) (t : Bytes)
      → IsServed t 0 c
      → (serve_all (serve_line w m) n (codes "." ∷ []) c).0.sent
        ≡ c.sent ++ end_reply (m.answers n) c.session ∷ []
  unfolding serve_all serve_line answer_line client_line in_state smtpstate_data dotted end_mail
  end_line n c t ((e, _, _), score) =
      let o = client_line w (m.answers n) c.session (codes ".") in
      let chosen : o ≡ end_mail (m.answers n) c.session =
        ap (λ st. in_state st w (m.answers n) c.session (codes ".")) e in
      answered (suc n) (m.time n) c o (ap (λ x. x.rv) chosen) score
      ∙ ap (λ x. c.sent ++ x.sent) chosen

  last_reply :
      (n : ℕ) (c : Client) (t : Bytes) (x : Client × Bool)
      → IsQuiet t 0 c x
      → (unless_closed (serve_line w m) (serve_all (serve_line w m) n (codes "." ∷ [])) x).0.sent
        ≡ c.sent ++ end_reply (m.answers n) x.0.session ∷ []
  last_reply n c t (c', true) (_, open_, _) = absurd cc
  last_reply n c t (c', false) (served, _, silent) =
      end_line n c' t served ∙ ap (λ x. x ++ end_reply (m.answers n) c'.session ∷ []) silent

  -- Take a client in the data state, with a good score, whose mail holds a header that is not empty and
  -- has room for the lines below its limit; let each line with its dot be shorter than 1498 bytes, and
  -- realloc work. The lines of a mail as smtp_data sends them are then served without a reply, and
  -- leave the connection open and the text of the dispatcher behind the header, line break for line
  -- break and dot for dot. With the dot at the end the client is sent the one reply for that mail.
  pub mail_arrives :
      (n : ℕ) (l : Bytes) (ls : List Bytes) (header : Bytes) (c : Client)
      → IsShort l
      → All IsShort ls
      → IsServed header (growth l ls) c
      → let (c', closed) = serve_all (serve_line w m) n (sent_lines l ls) c in
        (closed ≡ false)
        × IsServed (header ++ 13 ∷ 10 ∷ join l ls) 0 c'
        × (c'.sent ≡ c.sent)
        × ((serve_all (serve_line w m) n (dotted_lines l ls) c).0.sent
            ≡ c.sent ++ end_reply (m.answers (n + length (sent_lines l ls))) c'.session ∷ [])
  mail_arrives n l ls header c short shorts h =
      let (served, open_, silent) = serve_mail n l ls header c short shorts h in
      (
        open_,
        served,
        silent,
        ap (λ xs. (serve_all (serve_line w m) n xs c).0.sent) (dotted_lines-sent l ls)
            ∙ ap (λ x. x.0.sent) (serve_all-append n (sent_lines l ls) (codes "." ∷ []) c)
            ∙ last_reply (n + length (sent_lines l ls)) c _
                (serve_all (serve_line w m) n (sent_lines l ls) c) (served, open_, silent),
      )
