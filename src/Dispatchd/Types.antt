-- ===== src/Dispatchd/Types.antt =====
-- cmail-dispatchd/dispatchd.h and smtplimits.h, and what the peer and the libraries answer.
use cmail.Base.{ℕ, Bool, false, List, Option, none, String, Bytes}
use cmail.Net.{TlsMode, tls_none, ReadError}

abbrev pub smtp_220_timeout : ℕ
smtp_220_timeout = 300

abbrev pub smtp_mail_timeout : ℕ
smtp_mail_timeout = 300

abbrev pub smtp_rcpt_timeout : ℕ
smtp_rcpt_timeout = 300

abbrev pub smtp_data_timeout : ℕ
smtp_data_timeout = 120

abbrev pub smtp_data_termination_timeout : ℕ
smtp_data_termination_timeout = 600

-- SMTPREPLY
pub record SmtpReply : Type 0 where
  pub code : ℕ
  pub multiline : Bool
  pub response_text : Option Bytes
  pub buffer_length : ℕ

-- One round of the loop in protocol_read: select fails; nothing comes, so many seconds after the
-- start of the read; or network_read returns bytes, an error, or 0.
pub data Event : Type 0 where
  select_failed : Event
  quiet : ℕ → Event
  received : Bytes → Event
  read_failed : ReadError → Event
  read_end : Event

-- client_send with its format and its argument, and client_send_raw
pub data Sent : Type 0 where
  line : String → Sent
  with_text : String → Bytes → Sent
  raw : Bytes → Sent

-- CONNECTION and CONNDATA. `recv_offset` is 0 from connection_reset on, since protocol_read sets it
-- to nothing else. `events` are the rounds to come, up to the signal that stops the daemon;
-- `memory` says for which texts realloc has room, and `handshake_ok` how tls_handshake ends.
pub record Conn : Type 0 where
  pub extensions_supported : Bool
  pub tls_mode : TlsMode
  pub reply : SmtpReply
  pub events : List Event
  pub sent : List Sent
  pub memory : Bytes → Bool
  pub handshake_ok : Bool

abbrev pub empty_reply : SmtpReply
empty_reply = record { code = 0; multiline = false; response_text = none; buffer_length = 0 }

-- connection_reset, for a connection with these events to come
abbrev pub connection_reset : Conn → Conn
connection_reset c = record c {
  extensions_supported = false;
  tls_mode = tls_none;
  reply = empty_reply;
}
