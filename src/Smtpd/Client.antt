-- ===== src/Smtpd/Client.antt =====
-- cmail-smtpd/client.c: the loop that serves a client, and the timeouts.
pub mod Score
pub mod Lines
pub mod Keeps
use cmail.Base.{
  ℕ, zero, suc, ◌+◌, Bool, true, false, not, ◌&&◌, ◌||◌, List, [], ◌∷◌, ◌++◌, if◌then◌else◌, ltb,
  leb, ◌-◌, length, ℤ, pos, negsuc, ◌+ℤ◌, ltb_ℤ, Bytes, none, is_some,
}
use cmail.Net.{
  TlsMode, tls_none, tls_negotiate, tls_only, ReadError, eagain, handshake_fatal, tls_interrupted,
  tls_again,
}
use cmail.Common.NextLine.{Input}
use cmail.Common.LineLoop.{Serve, serve_read}
use cmail.Smtpd.Types.{Mail, cmail_failscore_limit}
use cmail.Smtpd.Mail.{mail_reset}
use cmail.Smtpd.Session.{Session, Listener, Answers, Outcome, Reply, line, with_text}
use cmail.Smtpd.State.{client_line}
use cmail.Smtpd.State.Close.{client_close}

abbrev pub smtp_max_line_length : ℕ
smtp_max_line_length = 1500

abbrev pub cmail_receive_buffer_length : ℕ
cmail_receive_buffer_length = 2048

abbrev smtp_server_timeout : ℕ
smtp_server_timeout = 300

abbrev pub cmail_memory_timeout : ℕ
cmail_memory_timeout = 600

-- CLIENT with its connection, less the receive buffer, and what was sent to it.
pub record Client : Type 0 where
  pub session : Session
  pub connection_score : ℤ
  pub last_action : ℕ
  pub sent : List Reply

-- What the lines of one read meet: the answers from outside, and the time, for each of them.
pub record Moment : Type 0 where
  pub answers : ℕ → Answers
  pub time : ℕ → ℕ

abbrev pub say : Client → Reply → Client
say c r = record c { sent = c.sent ++ r ∷ [] }

abbrev pub close : Client → Client
close c = record c { session = (client_close c.session).0 }

abbrev pub after_line : Client → ℕ → Outcome → Client
after_line c t o = record c {
  session = o.session;
  connection_score = c.connection_score +ℤ o.rv;
  last_action = t;
  sent = c.sent ++ o.sent;
}

-- the disconnection after too many failed commands
unfoldable pub scored : Client → Client × Bool
unfolding client_close
scored c =
    if ltb_ℤ c.connection_score cmail_failscore_limit
    then (close (say c (line "500 Too many failed commands\r\n")), true)
    else (c, false)

unfoldable pub answer_line : Listener → Moment → ℕ → Bytes → Client → Client × Bool
unfolding client_line scored
answer_line l m n input c =
    scored (after_line c (m.time n) (client_line l (m.answers n) c.session input))

unfoldable pub serve_line : Listener → Moment → Serve Client
unfolding answer_line
serve_line l m n size input c =
    if leb (smtp_max_line_length - 2) size
    then (say c (line "500 Line too long\r\n"), false)
    else answer_line l m n input c

-- What network_read returns: less than 0, 0, or bytes, which fit behind the ones that are kept.
pub data Reading : Type 0 where
  failed : ReadError → Reading
  ended : Reading
  got : Bytes → Reading

-- The client and its buffer after one round, the result, and whether client_process returns with it.
pub record Round : Type 0 where
  pub client : Client
  pub input : Input
  pub rv : ℤ
  pub returns : Bool

abbrev return : Client → Input → ℤ → Round
return c i rv = record { client = c; input = i; rv = rv; returns = true }

-- by the mode and the error
unfoldable pub on_error : Client → Input → TlsMode → ReadError → Round
unfolding client_close
on_error c i tls_none eagain = return c i (pos 0)
on_error c i tls_none _ = return (close c) i (negsuc 0)
on_error c i tls_negotiate handshake_fatal = return (close c) i (pos 0)
on_error c i tls_negotiate _ = return c i (pos 0)
on_error c i tls_only tls_interrupted = return c i (pos 0)
on_error c i tls_only tls_again = return c i (pos 0)
on_error c i tls_only _ = return (close c) i (negsuc 0)

abbrev pub set_tls : Client → TlsMode → Client
set_tls c t = record c { session = record c.session { tls_mode = t } }

abbrev greet_tls : Listener → Client → TlsMode → Client
greet_tls l c tls_only = say c (with_text "220 %s ESMTPS service ready\r\n" l.announce_domain)
greet_tls l c _ = c

-- the end of the handshake, or of the connection
unfoldable pub on_end : Listener → Client → Input → TlsMode → Round
unfolding client_close
on_end l c i tls_negotiate = return (greet_tls l (set_tls c tls_only) l.tls_mode) i (pos 0)
on_end l c i _ = return (close c) i (pos 0)

abbrev pub from_lines : Client × (Bool × Input) → Round
from_lines r = record { client = r.0; input = r.1.1; rv = pos 0; returns = r.1.0 }

unfoldable pub read_round : Listener → Moment → Client → Input → Reading → Round
unfolding serve_line serve_read on_error on_end
read_round l m c i (failed e) = on_error c i c.session.tls_mode e
read_round l m c i ended = on_end l c i c.session.tls_mode
read_round l m c i (got bytes) =
    from_lines (serve_read (serve_line l m) c (record i { fresh = bytes }))

unfoldable pub client_round : Listener → Moment → Client → Input → Reading → Round
unfolding client_close read_round
client_round l m c i r =
    if ltb (cmail_receive_buffer_length - length i.kept) 2
    then return (close (say c (line "500 Line too long\r\n"))) i (pos 0)
    else read_round l m c i r

abbrev is_only : TlsMode → Bool
is_only tls_only = true
is_only _ = false

-- The rounds, the first of them in any case, and a further one while GnuTLS holds more data.
unfoldable pub client_process :
    Listener → Client → Input → Moment × Reading → List (Moment × Reading) → Round
unfolding client_round
client_process l c i (m, r) [] = client_round l m c i r
client_process l c i (m, r) (next ∷ rest) =
    let now = client_round l m c i r in
    let later = client_process l now.client now.input next rest in
    if now.returns || not (is_only now.client.session.tls_mode) then now else later

-- The time since the last line; a clock that was set back does not count.
unfoldable pub client_timeout : Client → ℕ → Bool
client_timeout c now = ltb (c.last_action + smtp_server_timeout) now

-- the buffer of the mail, which outlives its mails and its clients
unfoldable pub client_free : Session → Session
unfolding mail_reset
client_free s =
    let (m, pool) = mail_reset s.current_mail s.pool in
    record s {
      current_mail =
          if is_some m.data_text then record m { data_text = none; data_allocated = 0 } else m;
      pool = pool;
    }

unfoldable pub client_memtimeout : Client → ℕ → Client
unfolding client_free
client_memtimeout c now =
    if is_some c.session.current_mail.data_text && ltb (c.last_action + cmail_memory_timeout) now
    then record c { session = client_free c.session }
    else c
