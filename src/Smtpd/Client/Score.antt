-- ===== src/Smtpd/Client/Score.antt =====
-- cmail-smtpd/client.c: the connection score.
use cmail.Base.{
  ℕ, Bool, true, false, not, ◌||◌, ◌-◌, List, [], ◌∷◌, ◌≡◌, refl, if_both, if_cases, ltb, leb,
  length, ltb_ℤ, Bytes, pos,
}
use cmail.Net.{
  TlsMode, tls_none, tls_negotiate, tls_only, ReadError, eagain, handshake_fatal,
  handshake_nonfatal, tls_interrupted, tls_again, other_error,
}
use cmail.Common.NextLine.{Input}
use cmail.Common.LineLoop.Invariant.{serve_read-keeps}
use cmail.Smtpd.Types.{cmail_failscore_limit}
use cmail.Smtpd.Session.{Listener, line}
use cmail.Smtpd.State.{client_line}
use cmail.Smtpd.Client.{
  Client, Moment, scored, serve_line, Reading, failed, ended, got, Round, on_error, on_end,
  read_round, client_round, client_process, smtp_max_line_length, answer_line, after_line, say,
  set_tls, greet_tls, is_only, return, close, cmail_receive_buffer_length,
}

-- A client whose score is below the limit is not connected.
abbrev pub IsTolerated : Client → Type 0
IsTolerated c = ltb_ℤ c.connection_score cmail_failscore_limit ≡ true → c.session.connected ≡ false

scored-IsTolerated : (c : Client) → IsTolerated (scored c).0
unfolding scored
scored-IsTolerated c =
    if_cases (λ (x : Client × Bool). IsTolerated x.0)
      (ltb_ℤ c.connection_score cmail_failscore_limit) _ _ (λ e _. refl) (λ e e'. absurd cc)

answer_line-IsTolerated :
    (l : Listener) (m : Moment) (n : ℕ) (input : Bytes) (c : Client)
    → IsTolerated (answer_line l m n input c).0
unfolding answer_line
answer_line-IsTolerated l m n input c =
    scored-IsTolerated (after_line c (m.time n) (client_line l (m.answers n) c.session input))

serve_line-IsTolerated :
    (l : Listener) (m : Moment) (n size : ℕ) (input : Bytes) (c : Client)
    → IsTolerated c
    → IsTolerated (serve_line l m n size input c).0
unfolding serve_line
serve_line-IsTolerated l m n size input c h =
    if_both (λ (x : Client × Bool). IsTolerated x.0) (leb (smtp_max_line_length - 2) size)
      (say c (line "500 Line too long\r\n"), false) (answer_line l m n input c) h
      (answer_line-IsTolerated l m n input c)

on_error-IsTolerated :
    (c : Client) (i : Input) (t : TlsMode) (e : ReadError)
    → IsTolerated c
    → IsTolerated (on_error c i t e).client
unfolding on_error
on_error-IsTolerated c i tls_none eagain h = h
on_error-IsTolerated c i tls_none handshake_fatal h = λ k. refl
on_error-IsTolerated c i tls_none handshake_nonfatal h = λ k. refl
on_error-IsTolerated c i tls_none tls_interrupted h = λ k. refl
on_error-IsTolerated c i tls_none tls_again h = λ k. refl
on_error-IsTolerated c i tls_none other_error h = λ k. refl
on_error-IsTolerated c i tls_negotiate eagain h = h
on_error-IsTolerated c i tls_negotiate handshake_fatal h = λ k. refl
on_error-IsTolerated c i tls_negotiate handshake_nonfatal h = h
on_error-IsTolerated c i tls_negotiate tls_interrupted h = h
on_error-IsTolerated c i tls_negotiate tls_again h = h
on_error-IsTolerated c i tls_negotiate other_error h = h
on_error-IsTolerated c i tls_only eagain h = λ k. refl
on_error-IsTolerated c i tls_only handshake_fatal h = λ k. refl
on_error-IsTolerated c i tls_only handshake_nonfatal h = λ k. refl
on_error-IsTolerated c i tls_only tls_interrupted h = h
on_error-IsTolerated c i tls_only tls_again h = h
on_error-IsTolerated c i tls_only other_error h = λ k. refl

greet_tls-IsTolerated :
    (l : Listener) (c : Client) (t : TlsMode) → IsTolerated c → IsTolerated (greet_tls l c t)
greet_tls-IsTolerated l c tls_none h = h
greet_tls-IsTolerated l c tls_negotiate h = h
greet_tls-IsTolerated l c tls_only h = h

on_end-IsTolerated :
    (l : Listener) (c : Client) (i : Input) (t : TlsMode)
    → IsTolerated c
    → IsTolerated (on_end l c i t).client
unfolding on_end
on_end-IsTolerated l c i tls_none h = λ e. refl
on_end-IsTolerated l c i tls_only h = λ e. refl
on_end-IsTolerated l c i tls_negotiate h = greet_tls-IsTolerated l (set_tls c tls_only) l.tls_mode h

read_round-IsTolerated :
    (l : Listener) (m : Moment) (c : Client) (i : Input) (r : Reading)
    → IsTolerated c
    → IsTolerated (read_round l m c i r).client
unfolding read_round
read_round-IsTolerated l m c i (failed e) h = on_error-IsTolerated c i c.session.tls_mode e h
read_round-IsTolerated l m c i ended h = on_end-IsTolerated l c i c.session.tls_mode h
read_round-IsTolerated l m c i (got bytes) h =
    serve_read-keeps IsTolerated (serve_line l m) (serve_line-IsTolerated l m) c
      (record i { fresh = bytes }) h

client_round-IsTolerated :
    (l : Listener) (m : Moment) (c : Client) (i : Input) (r : Reading)
    → IsTolerated c
    → IsTolerated (client_round l m c i r).client
unfolding client_round
client_round-IsTolerated l m c i r h =
    if_both (λ (x : Round). IsTolerated x.client)
      (ltb (cmail_receive_buffer_length - length i.kept) 2)
      (return (close (say c (line "500 Line too long\r\n"))) i (pos 0)) (read_round l m c i r)
      (λ e. refl) (read_round-IsTolerated l m c i r h)

-- client_process, whatever it reads and whatever the lines meet, leaves no client connected whose
-- score is below the limit.
pub client_process-IsTolerated :
    (l : Listener) (c : Client) (i : Input) (first : Moment × Reading)
    (rest : List (Moment × Reading))
    → IsTolerated c
    → IsTolerated (client_process l c i first rest).client
unfolding client_process
client_process-IsTolerated l c i (m, r) [] h = client_round-IsTolerated l m c i r h
client_process-IsTolerated l c i (m, r) (next ∷ rest) h =
    let now = client_round l m c i r in
    let tolerated = client_round-IsTolerated l m c i r h in
    if_both (λ (x : Round). IsTolerated x.client)
      (now.returns || not (is_only now.client.session.tls_mode)) now
      (client_process l now.client now.input next rest) tolerated
      (client_process-IsTolerated l now.client now.input next rest tolerated)
