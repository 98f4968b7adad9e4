-- ===== src/Popd/Client.antt =====
-- cmail-popd/client.c: the loop that serves a client, and the timeout.
use cmail.Base.{
  ℕ, ◌+◌, ◌-◌, Bool, true, false, not, ◌||◌, List, [], ◌∷◌, ◌++◌, if◌then◌else◌, ltb, leb, length,
  ℤ, pos, negsuc, ◌+ℤ◌, ltb_ℤ, Bytes,
}
use cmail.Net.{
  TlsMode, tls_none, tls_negotiate, tls_only, ReadError, eagain, handshake_fatal, tls_interrupted,
  tls_again,
}
use cmail.Common.NextLine.{Input}
use cmail.Common.LineLoop.{Serve, serve_read}
use cmail.Popd.Types.{Client, Listener, Answers, Outcome, Reply, line, with_text}
use cmail.Popd.Functions.{client_close, is_only}
use cmail.Popd.State.{client_line}

abbrev pub pop_max_line_length : ℕ
pop_max_line_length = 512

abbrev pub cmail_receive_buffer_length : ℕ
cmail_receive_buffer_length = 2048

abbrev pop_server_timeout : ℕ
pop_server_timeout = 300

-- -5
abbrev pub cmail_failscore_limit : ℤ
cmail_failscore_limit = negsuc 4

-- CLIENT with its connection, less the receive buffer, and what was sent to it.
pub record Served : Type 0 where
  pub client : Client
  pub connection_score : ℤ
  pub last_action : ℕ
  pub sent : List Reply

-- The server's version and listener, and what each line of one read meets, with the time.
pub record Moment : Type 0 where
  pub version : Bytes
  pub announce_domain : Bytes
  pub listener : Listener
  pub answers : ℕ → Answers
  pub time : ℕ → ℕ
  pub at_close : Answers

abbrev pub say : Served → Reply → Served
say s r = record s { sent = s.sent ++ r ∷ [] }

abbrev pub close : Moment → Served → Served
close m s = record s { client = (client_close m.at_close s.client).0 }

abbrev pub after_line : Served → ℕ → Outcome → Served
after_line s t o = record s {
  client = o.client;
  connection_score = s.connection_score +ℤ o.rv;
  last_action = t;
  sent = s.sent ++ o.sent;
}

-- the disconnection after too many failed commands
unfoldable pub scored : Moment → Served → Served × Bool
unfolding client_close
scored m s =
    if ltb_ℤ s.connection_score cmail_failscore_limit
    then (close m (say s (line "-ERR Too many failed commands\r\n")), true)
    else (s, false)

unfoldable pub answer_line : Moment → ℕ → Bytes → Served → Served × Bool
unfolding client_line scored
answer_line m n input s =
    scored m
      (after_line s (m.time n) (client_line m.version m.listener (m.answers n) s.client input))

unfoldable pub serve_line : Moment → Serve Served
unfolding answer_line
serve_line m n size input s =
    if leb (pop_max_line_length - 2) size
    then (say s (line "-ERR Line too long\r\n"), false)
    else answer_line m n input s

-- What network_read returns: less than 0, 0, or bytes, which fit behind the ones that are kept.
pub data Reading : Type 0 where
  failed : ReadError → Reading
  ended : Reading
  got : Bytes → Reading

-- The client and its buffer after one round, the result, and whether client_process returns with it.
pub record Round : Type 0 where
  pub served : Served
  pub input : Input
  pub rv : ℤ
  pub returns : Bool

abbrev return : Served → Input → ℤ → Round
return s i rv = record { served = s; input = i; rv = rv; returns = true }

-- by the mode and the error
unfoldable pub on_error : Moment → Served → Input → TlsMode → ReadError → Round
unfolding client_close
on_error m s i tls_none eagain = return s i (pos 0)
on_error m s i tls_none _ = return (close m s) i (negsuc 0)
on_error m s i tls_negotiate handshake_fatal = return (close m s) i (pos 0)
on_error m s i tls_negotiate _ = return s i (pos 0)
on_error m s i tls_only tls_interrupted = return s i (pos 0)
on_error m s i tls_only tls_again = return s i (pos 0)
on_error m s i tls_only _ = return (close m s) i (negsuc 0)

abbrev set_tls : Served → TlsMode → Served
set_tls s t = record s { client = record s.client { tls_mode = t } }

abbrev greet_tls : Moment → Served → TlsMode → Served
greet_tls m s tls_only = say s (with_text "+OK %s POP3 ready\r\n" m.announce_domain)
greet_tls m s _ = s

-- the end of the handshake, or of the connection
unfoldable pub on_end : Moment → Served → Input → TlsMode → Round
unfolding client_close
on_end m s i tls_negotiate = return (greet_tls m (set_tls s tls_only) m.listener.tls_mode) i (pos 0)
on_end m s i _ = return (close m s) i (pos 0)

abbrev pub from_lines : Served × (Bool × Input) → Round
from_lines r = record { served = r.0; input = r.1.1; rv = pos 0; returns = r.1.0 }

unfoldable pub read_round : Moment → Served → Input → Reading → Round
unfolding serve_line serve_read on_error on_end
read_round m s i (failed e) = on_error m s i s.client.tls_mode e
read_round m s i ended = on_end m s i s.client.tls_mode
read_round m s i (got bytes) = from_lines (serve_read (serve_line m) s (record i { fresh = bytes }))

unfoldable pub client_round : Moment → Served → Input → Reading → Round
unfolding client_close read_round
client_round m s i r =
    if ltb (cmail_receive_buffer_length - length i.kept) 2
    then return (close m (say s (line "-ERR Line too long\r\n"))) i (pos 0)
    else read_round m s i r

-- The rounds, the first of them in any case, and a further one while GnuTLS holds more data.
unfoldable pub client_process : Served → Input → Moment × Reading → List (Moment × Reading) → Round
unfolding client_round
client_process s i (m, r) [] = client_round m s i r
client_process s i (m, r) (next ∷ rest) =
    let now = client_round m s i r in
    let later = client_process now.served now.input next rest in
    if now.returns || not (is_only now.served.client.tls_mode) then now else later

-- The time since the last line; a clock that was set back does not count.
unfoldable pub client_timeout : Served → ℕ → Bool
client_timeout s now = ltb (s.last_action + pop_server_timeout) now
