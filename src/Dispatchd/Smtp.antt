-- ===== src/Dispatchd/Smtp.antt =====
-- cmail-dispatchd/smtp.c: the commands of the SMTP client. Each returns 0 or an error; those of a mail
-- return 0 for accepted, 1 for a temporary and -1 for a permanent failure.
pub mod Wire
use cmail.Base.{
  ℕ, zero, suc, ◌%◌, true, not, ◌&&◌, List, [], ◌∷◌, ◌++◌, Option, none, some, ◌==◌, leb,
  if◌then◌else◌, length, codes, ℤ, pos, negsuc, Bytes, has_prefix,
}
use cmail.Net.{TlsMode, tls_only}
use cmail.Popd.Functions.{split_dot, is_none, is_only, is_negotiate}
use cmail.Dispatchd.Types.{
  Conn, Sent, line, with_text, raw, smtp_220_timeout, smtp_mail_timeout, smtp_rcpt_timeout,
  smtp_data_timeout, smtp_data_termination_timeout,
}
use cmail.Dispatchd.Protocol.{protocol_read, protocol_expect}

abbrev pub send : Conn → Sent → Conn
send c s = record c { sent = c.sent ++ s ∷ [] }

-- A command, and the code that it expects.
abbrev pub exchange : Conn → Sent → ℕ → ℕ → Conn × ℤ
exchange c s timeout code = protocol_expect (send c s) timeout code

-- 0 for the expected code, and -1 for all else
abbrev pub accepted : Conn × ℤ → Conn × ℤ
accepted (c, pos zero) = (c, pos 0)
accepted (c, _) = (c, negsuc 0)

abbrev helo : Bytes → Conn → Conn × ℤ
helo announce c = accepted (exchange c (with_text "HELO %s\r\n" announce) smtp_220_timeout 250)

abbrev greeted : Bytes → Conn × ℤ → Conn × ℤ
greeted announce (c, pos zero) = (record c { extensions_supported = true }, pos 0)
greeted announce (c, negsuc n) = (c, negsuc 0)
greeted announce (c, pos (suc n)) = helo announce c

unfoldable pub smtp_greet : Conn → Bytes → Conn × ℤ
unfolding protocol_expect
smtp_greet c announce =
    greeted announce (exchange c (with_text "EHLO %s\r\n" announce) smtp_220_timeout 250)

-- tls_handshake, for how it ends
unfoldable pub tls_handshake : Conn → Conn × ℤ
tls_handshake c =
    if c.handshake_ok then (record c { tls_mode = tls_only }, pos 0) else (c, negsuc 0)

abbrev shake : Conn × ℤ → Conn × ℤ
shake (c, pos zero) = tls_handshake c
shake (c, _) = (c, negsuc 0)

unfoldable pub smtp_starttls : Conn → Conn × ℤ
unfolding protocol_expect tls_handshake
smtp_starttls c =
    if not c.extensions_supported
    then (c, negsuc 0)
    else shake (exchange c (line "STARTTLS\r\n") smtp_220_timeout 220)

abbrev authenticate : Bytes → Conn × ℤ → Conn × ℤ
authenticate blob (c, pos zero) =
    accepted (exchange c (with_text "%s\r\n" blob) smtp_220_timeout 235)
authenticate blob (c, _) = (c, negsuc 0)

unfoldable pub smtp_auth : Conn → Bytes → Conn × ℤ
unfolding protocol_expect
smtp_auth c blob =
    if not c.extensions_supported
    then (c, negsuc 0)
    else authenticate blob (exchange c (line "AUTH PLAIN\r\n") smtp_220_timeout 334)

unfoldable pub or_empty : Option Bytes → Bytes
or_empty none = []
or_empty (some s) = s

-- Only a code from 500 to 599 is permanent, also where the read failed after a line with a code.
abbrev pub initiated : Conn × ℤ → Conn × ℤ
initiated (c, pos zero) = (c, pos 0)
initiated (c, _) = (c, if leb 500 c.reply.code && leb c.reply.code 599 then negsuc 0 else pos 1)

unfoldable pub smtp_initiate : Conn → Option Bytes → Conn × ℤ
unfolding protocol_expect or_empty
smtp_initiate c from =
    initiated (exchange c (with_text "MAIL FROM:<%s>\r\n" (or_empty from)) smtp_mail_timeout 250)

-- how a reply that was read as a whole, or not, is judged
unfoldable pub judged : Conn × ℤ → Conn × ℤ
judged (c, negsuc n) = (c, pos 1)
judged (c, pos n) =
    if c.reply.code == 250
    then (c, pos 0)
    else if leb 400 c.reply.code && leb c.reply.code 499
    then (c, pos 1)
    else (c, negsuc 0)

unfoldable pub smtp_rcpt : Conn → Bytes → Conn × ℤ
unfolding protocol_read judged
smtp_rcpt c path =
    judged (protocol_read (send c (with_text "RCPT TO:<%s>\r\n" path)) smtp_rcpt_timeout)

-- one round of the loop
abbrev pub send_piece : (Bytes → List Sent) → Bytes → Option (Bytes × Bytes) → List Sent
send_piece next text none = raw text ∷ []
send_piece next text (some (before, rest)) = raw before ∷ line "\r\n.." ∷ next rest

-- Each round consumes at least three bytes, so that the length is enough fuel.
unfoldable pub send_stuffed : ℕ → Bytes → List Sent
unfolding split_dot
send_stuffed zero text = []
send_stuffed (suc fuel) text = send_piece (send_stuffed fuel) text (split_dot text)

unfoldable pub mail_text : Bytes → List Sent
unfolding send_stuffed
mail_text text =
    (if has_prefix (codes ".") text then line "." ∷ [] else [])
    ++ (send_stuffed (suc (length text)) text ++ line "\r\n.\r\n" ∷ [])

abbrev pub transmit : Bytes → Conn × ℤ → Conn × ℤ
transmit text (c, pos zero) =
    judged
      (protocol_read (record c { sent = c.sent ++ mail_text text }) smtp_data_termination_timeout)
transmit text (c, _) = (c, negsuc 0)

unfoldable pub smtp_data : Conn → Bytes → Conn × ℤ
unfolding protocol_read protocol_expect judged mail_text
smtp_data c text = transmit text (exchange c (line "DATA\r\n") smtp_data_timeout 354)

unfoldable pub smtp_rset : Conn → Conn × ℤ
unfolding protocol_expect
smtp_rset c = accepted (exchange c (line "RSET\r\n") smtp_220_timeout 250)

unfoldable pub smtp_noop : Conn → Conn × ℤ
unfolding protocol_expect
smtp_noop c = accepted (exchange c (line "NOOP\r\n") 20 250)

-- MTA_SETTINGS, less what the daemon's loop uses; and what common_rand draws, if it does.
pub record Settings : Type 0 where
  pub helo_announce : Bytes
  pub tls_padding : ℕ
  pub random : Option ℕ

-- RSET for an even, NOOP for an odd counter
unfoldable pub pad : ℕ → Conn → Conn
unfolding smtp_noop smtp_rset
pad zero c = c
pad (suc u) c = pad u (if (suc u) % 2 == 0 then (smtp_rset c).0 else (smtp_noop c).0)

unfoldable pub padding : Settings → ℕ
padding s = elim s.random [ none ↦ s.tls_padding | some u ↦ u % s.tls_padding ]

-- the end of smtp_negotiate
abbrev log_in : Option Bytes → Conn → Conn × ℤ
log_in none c = (c, pos 0)
log_in (some blob) c = accepted (smtp_auth c blob)

abbrev pad_tls : Settings → Conn → Conn
pad_tls s c = if not (s.tls_padding == 0) && is_only c.tls_mode then pad (padding s) c else c

abbrev then_if : (Conn → Conn × ℤ) → Conn × ℤ → Conn × ℤ
then_if next (c, pos n) = next c
then_if next (c, negsuc n) = (c, negsuc 0)

-- STARTTLS and the second greeting
abbrev upgrade : Settings → TlsMode → Conn → Conn × ℤ
upgrade s port_mode c =
    if is_negotiate port_mode && is_none c.tls_mode
    then then_if (λ c'. smtp_greet c' s.helo_announce) (smtp_starttls c)
    else (c, pos 0)

abbrev first_handshake : TlsMode → Conn → Conn × ℤ
first_handshake port_mode c =
    if is_none c.tls_mode && is_only port_mode then tls_handshake c else (c, pos 0)

abbrev await_220 : Conn → Conn × ℤ
await_220 c = accepted (protocol_expect c smtp_220_timeout 220)

unfoldable pub smtp_negotiate : Settings → Conn → TlsMode → Option Bytes → Conn × ℤ
unfolding protocol_expect tls_handshake smtp_greet smtp_starttls smtp_auth pad padding
smtp_negotiate s c port_mode auth_data =
    then_if
      (λ c1.
        then_if
          (λ c2.
            then_if (λ c3. then_if (λ c4. log_in auth_data (pad_tls s c4)) (upgrade s port_mode c3))
              (smtp_greet c2 s.helo_announce))
          (await_220 c1))
      (first_handshake port_mode c)
