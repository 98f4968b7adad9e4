-- ===== src/Smtpd/Client/Keeps.antt =====
-- cmail-smtpd/client.c: what every line and the close keep of a session, client_process keeps.
use cmail.Base.{
  ℕ, Bool, false, not, ◌||◌, ◌-◌, List, [], ◌∷◌, if_both, ltb, leb, length, ltb_ℤ, Bytes, pos,
}
use cmail.Net.{
  TlsMode, tls_none, tls_negotiate, tls_only, ReadError, eagain, handshake_fatal,
  handshake_nonfatal, tls_interrupted, tls_again, other_error,
}
use cmail.Common.NextLine.{Input}
use cmail.Common.LineLoop.Invariant.{serve_read-keeps}
use cmail.Smtpd.Types.{cmail_failscore_limit}
use cmail.Smtpd.Session.{Session, Listener, Answers, line}
use cmail.Smtpd.State.{client_line}
use cmail.Smtpd.State.Close.{client_close}
use cmail.Smtpd.Client.{
  Client, Moment, scored, serve_line, Reading, failed, ended, got, Round, on_error, on_end,
  read_round, client_round, client_process, smtp_max_line_length, answer_line, after_line, say,
  set_tls, greet_tls, is_only, return, close, cmail_receive_buffer_length,
}

module _ {ℓ} (P : Session → Type ℓ)
    (line_keeps : (l : Listener) (a : Answers) (s : Session) (input : Bytes)
      → P s
      → P (client_line l a s input).session)
    (close_keeps : (s : Session) → P s → P (client_close s).0)
    (tls_keeps : (s : Session) (t : TlsMode) → P s → P (record s { tls_mode = t })) where
  abbrev On : Client → Type ℓ
  On c = P c.session

  scored-keeps : (c : Client) → On c → On (scored c).0
  unfolding scored
  scored-keeps c h =
      if_both (λ (x : Client × Bool). On x.0) (ltb_ℤ c.connection_score cmail_failscore_limit) _ _
        (close_keeps c.session h) h

  serve_line-keeps :
      (l : Listener) (m : Moment) (n size : ℕ) (input : Bytes) (c : Client)
      → On c
      → On (serve_line l m n size input c).0
  unfolding serve_line answer_line
  serve_line-keeps l m n size input c h =
      if_both (λ (x : Client × Bool). On x.0) (leb (smtp_max_line_length - 2) size)
        (say c (line "500 Line too long\r\n"), false) (answer_line l m n input c) h
        (scored-keeps (after_line c (m.time n) (client_line l (m.answers n) c.session input))
          (line_keeps l (m.answers n) c.session input h))

  on_error-keeps :
      (c : Client) (i : Input) (t : TlsMode) (e : ReadError) → On c → On (on_error c i t e).client
  unfolding on_error
  on_error-keeps c i tls_none eagain h = h
  on_error-keeps c i tls_none handshake_fatal h = close_keeps c.session h
  on_error-keeps c i tls_none handshake_nonfatal h = close_keeps c.session h
  on_error-keeps c i tls_none tls_interrupted h = close_keeps c.session h
  on_error-keeps c i tls_none tls_again h = close_keeps c.session h
  on_error-keeps c i tls_none other_error h = close_keeps c.session h
  on_error-keeps c i tls_negotiate handshake_fatal h = close_keeps c.session h
  on_error-keeps c i tls_negotiate eagain h = h
  on_error-keeps c i tls_negotiate handshake_nonfatal h = h
  on_error-keeps c i tls_negotiate tls_interrupted h = h
  on_error-keeps c i tls_negotiate tls_again h = h
  on_error-keeps c i tls_negotiate other_error h = h
  on_error-keeps c i tls_only tls_interrupted h = h
  on_error-keeps c i tls_only tls_again h = h
  on_error-keeps c i tls_only eagain h = close_keeps c.session h
  on_error-keeps c i tls_only handshake_fatal h = close_keeps c.session h
  on_error-keeps c i tls_only handshake_nonfatal h = close_keeps c.session h
  on_error-keeps c i tls_only other_error h = close_keeps c.session h

  greet_tls-keeps : (l : Listener) (c : Client) (t : TlsMode) → On c → On (greet_tls l c t)
  greet_tls-keeps l c tls_none h = h
  greet_tls-keeps l c tls_negotiate h = h
  greet_tls-keeps l c tls_only h = h

  on_end-keeps :
      (l : Listener) (c : Client) (i : Input) (t : TlsMode) → On c → On (on_end l c i t).client
  unfolding on_end
  on_end-keeps l c i tls_none h = close_keeps c.session h
  on_end-keeps l c i tls_only h = close_keeps c.session h
  on_end-keeps l c i tls_negotiate h =
      greet_tls-keeps l (set_tls c tls_only) l.tls_mode (tls_keeps c.session tls_only h)

  read_round-keeps :
      (l : Listener) (m : Moment) (c : Client) (i : Input) (r : Reading)
      → On c
      → On (read_round l m c i r).client
  unfolding read_round
  read_round-keeps l m c i (failed e) h = on_error-keeps c i c.session.tls_mode e h
  read_round-keeps l m c i ended h = on_end-keeps l c i c.session.tls_mode h
  read_round-keeps l m c i (got bytes) h =
      serve_read-keeps On (serve_line l m) (serve_line-keeps l m) c (record i { fresh = bytes }) h

  client_round-keeps :
      (l : Listener) (m : Moment) (c : Client) (i : Input) (r : Reading)
      → On c
      → On (client_round l m c i r).client
  unfolding client_round
  client_round-keeps l m c i r h =
      if_both (λ (x : Round). On x.client) (ltb (cmail_receive_buffer_length - length i.kept) 2)
        (return (close (say c (line "500 Line too long\r\n"))) i (pos 0)) (read_round l m c i r)
        (close_keeps c.session h) (read_round-keeps l m c i r h)

  pub client_process-keeps :
      (l : Listener) (c : Client) (i : Input) (first : Moment × Reading)
      (rest : List (Moment × Reading))
      → P c.session
      → P (client_process l c i first rest).client.session
  unfolding client_process
  client_process-keeps l c i (m, r) [] h = client_round-keeps l m c i r h
  client_process-keeps l c i (m, r) (next ∷ rest) h =
      let now = client_round l m c i r in
      let kept = client_round-keeps l m c i r h in
      if_both (λ (x : Round). On x.client)
        (now.returns || not (is_only now.client.session.tls_mode)) now
        (client_process l now.client now.input next rest) kept
        (client_process-keeps l now.client now.input next rest kept)
