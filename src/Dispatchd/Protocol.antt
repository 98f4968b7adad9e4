-- ===== src/Dispatchd/Protocol.antt =====
-- cmail-dispatchd/protocol.c: reading a reply of the remote server.
pub mod Fuel
pub mod Replies
use cmail.Base.{
  ℕ, zero, suc, ◌%◌, Bool, true, false, not, ◌&&◌, ◌||◌, List, [], ◌∷◌, none, some, ◌==◌, leb, ltb,
  if◌then◌else◌, length, get_elem?, ℤ, pos, negsuc, Bytes, c_str, is_digit, strtoul,
}
use cmail.Net.{
  TlsMode, tls_none, tls_negotiate, tls_only, ReadError, eagain, handshake_fatal, tls_interrupted,
  tls_again,
}
use cmail.Dispatchd.Types.{
  SmtpReply, Event, select_failed, quiet, received, read_failed, read_end, Conn,
}

unfoldable pub protocol_reply_reset : SmtpReply → SmtpReply
protocol_reply_reset r = record r { code = 0; multiline = false }

-- The scan for the next CRLF: it is not there, the text does not begin with three digits, or it is
-- there, with what stands before it and behind it.
pub data Scan : Type 0 where
  incomplete bad_start : Scan
  sentence : Bytes → Bytes → Scan

abbrev behind : ℕ → Scan → Scan
behind c (sentence text rest) = sentence (c ∷ text) rest
behind c s = s

-- from position `i` on; the last byte is looked at only as the second of a pair
unfoldable pub scan_sentence : ℕ → Bytes → Scan
scan_sentence i [] = incomplete
scan_sentence i (c ∷ []) = incomplete
scan_sentence i (c ∷ d ∷ cs) =
    let later = scan_sentence (suc i) (d ∷ cs) in
    if ltb i 3 && not (is_digit c)
    then bad_start
    else if c == 13 && d == 10
    then sentence [] cs
    else behind c later

-- what a chunk or a sentence of it leads to: the read fails, the reply is complete, or more is read
pub data Verdict : Type 0 where
  failed complete more : Verdict

-- `recv_buffer[3] == '-'`
unfoldable pub is_multiline : Bytes → Bool
is_multiline text = elim (get_elem? text 3) [ none ↦ false | some c ↦ c == b'-' ]

abbrev code_of : Bytes → ℕ
code_of text = strtoul (c_str text) % 4294967296

abbrev set_code : SmtpReply → Bytes → SmtpReply
set_code r text = record r { code = code_of text }

abbrev flagged : SmtpReply → Bytes → SmtpReply
flagged r text = record (set_code r text) { multiline = r.multiline || is_multiline text }

-- The reply after realloc, if one is needed, succeeded or failed.
abbrev copied : SmtpReply → Bytes → SmtpReply
copied r text = record (flagged r text) { response_text = some (c_str text) }

abbrev lost : SmtpReply → Bytes → SmtpReply
lost r text = record (flagged r text) { response_text = none }

unfoldable pub take_sentence : (Bytes → Bool) → SmtpReply → Bytes → Verdict × SmtpReply
unfolding is_multiline
take_sentence memory r text =
    if ltb (length text) 4
    then (failed, r)
    else if ltb 999 (code_of text)
    then (failed, set_code r text)
    else if leb r.buffer_length (length (c_str text)) && not (memory (c_str text))
    then (failed, lost r text)
    else (if is_multiline text then more else complete, copied r text)

-- The loop over one chunk; what stands behind the last sentence, or behind the one that completes
-- the reply, is not kept. Each sentence is at least two bytes, so that the length is enough fuel.
abbrev pub on_verdict :
    (SmtpReply → Verdict × SmtpReply) → Verdict × SmtpReply → Verdict × SmtpReply
on_verdict next (more, r) = next r
on_verdict next (complete, r) = (complete, r)
on_verdict next (failed, r) = (failed, r)

abbrev pub on_scan :
    (SmtpReply → Bytes → Verdict × SmtpReply)
    → (Bytes → Bool)
    → SmtpReply
    → Scan
    → Verdict × SmtpReply
on_scan next memory r incomplete = (more, r)
on_scan next memory r bad_start = (failed, r)
on_scan next memory r (sentence text rest) =
    on_verdict (λ r'. next r' rest) (take_sentence memory r text)

unfoldable pub chunk_loop : ℕ → (Bytes → Bool) → SmtpReply → Bytes → Verdict × SmtpReply
unfolding scan_sentence take_sentence
chunk_loop zero memory r text = (more, r)
chunk_loop (suc fuel) memory r text =
    on_scan (chunk_loop fuel memory) memory r (scan_sentence 0 text)

unfoldable pub read_chunk : (Bytes → Bool) → SmtpReply → Bytes → Verdict × SmtpReply
unfolding chunk_loop
read_chunk memory r text = chunk_loop (suc (length text)) memory r text

-- the read errors after which the loop goes on
unfoldable pub retries : TlsMode → ReadError → Bool
retries tls_none eagain = true
retries tls_none _ = false
retries tls_negotiate handshake_fatal = false
retries tls_negotiate _ = true
retries tls_only tls_interrupted = true
retries tls_only tls_again = true
retries tls_only _ = false

pub record ReadResult : Type 0 where
  pub rv : ℤ
  pub tls_mode : TlsMode
  pub reply : SmtpReply
  pub events : List Event

abbrev stop : ℤ → TlsMode → SmtpReply → List Event → ReadResult
stop rv t r es = record { rv = rv; tls_mode = t; reply = r; events = es }

abbrev after_chunk :
    (SmtpReply → ReadResult) → TlsMode → List Event → Verdict × SmtpReply → ReadResult
after_chunk next t es (more, r) = next r
after_chunk next t es (complete, r) = stop (pos 0) t r es
after_chunk next t es (failed, r) = stop (negsuc 0) t r es

-- the end of a handshake, or of the connection
abbrev after_end : (TlsMode → ReadResult) → TlsMode → SmtpReply → List Event → ReadResult
after_end next tls_negotiate r es = next tls_only
after_end next t r es = stop (negsuc 0) t r es

unfoldable pub protocol_loop : ℕ → (Bytes → Bool) → TlsMode → SmtpReply → List Event → ReadResult
unfolding read_chunk retries
protocol_loop timeout memory t r [] = stop (negsuc 0) t r []
protocol_loop timeout memory t r (select_failed ∷ es) = stop (negsuc 0) t r es
protocol_loop timeout memory t r (quiet elapsed ∷ es) =
    let next = protocol_loop timeout memory t r es in
    if ltb timeout elapsed then stop (negsuc 0) t r es else next
protocol_loop timeout memory t r (received bytes ∷ es) =
    after_chunk (λ r'. protocol_loop timeout memory t r' es) t es (read_chunk memory r bytes)
protocol_loop timeout memory t r (read_failed e ∷ es) =
    let next = protocol_loop timeout memory t r es in
    if retries t e then next else stop (negsuc 0) t r es
protocol_loop timeout memory t r (read_end ∷ es) =
    after_end (λ t'. protocol_loop timeout memory t' r es) t r es

abbrev from_result : Conn → ReadResult → Conn × ℤ
from_result c res =
    (record c { tls_mode = res.tls_mode; reply = res.reply; events = res.events }, res.rv)

unfoldable pub protocol_read : Conn → ℕ → Conn × ℤ
unfolding protocol_reply_reset protocol_loop
protocol_read c timeout =
    from_result c
      (protocol_loop timeout c.memory c.tls_mode (protocol_reply_reset c.reply) c.events)

-- -1 for a failed read, 0 for the code, 1 for another one
abbrev matched : ℕ → Conn × ℤ → Conn × ℤ
matched code (c, negsuc n) = (c, negsuc 0)
matched code (c, pos n) = if c.reply.code == code then (c, pos 0) else (c, pos 1)

unfoldable pub protocol_expect : Conn → ℕ → ℕ → Conn × ℤ
unfolding protocol_read
protocol_expect c timeout code = matched code (protocol_read c timeout)
