-- ===== src/Smtpd/State/Data.antt =====
-- cmail-smtpd/smtpstatemachine.c, smtpstate_data: the lines of a mail. Routing it also writes the
-- message id, which mail_reset clears before the line is done.
use cmail.Base.{ℕ, ◌+◌, not, ◌&&◌, [], ◌∷◌, ◌==◌, ltb, if◌then◌else◌, Bytes, codes, pos, has_prefix}
use cmail.Smtpd.Types.{Mail, cmail_max_hops}
use cmail.Smtpd.Mail.{mail_line}
use cmail.Smtpd.Delivery.{mail_route, mail_originate}
use cmail.Smtpd.Session.{Session, Answers, Outcome, Reply, line, state_idle, is_authenticated}
use cmail.Smtpd.State.Idle.{reset_mail}

abbrev temporary_failure : Reply
temporary_failure =
    line
      "451 Temporary failure, please try again later. If the error persists, contact the administrator.\r\n"

-- the two switches on the result of routing
abbrev routed : ℕ → Reply
routed code =
    if code == 250
    then line "250 OK\r\n"
    else if code == 400
    then temporary_failure
    else line "554 Rejected\r\n"

abbrev route : Answers → Session → ℕ
route a s =
    if not (is_authenticated s)
    then mail_route a.delivery s.pool s.current_mail.forward_paths
    else mail_originate a.delivery s.pool s.originating_route s.current_mail.forward_paths

-- the reply to the line that ends the mail
unfoldable pub end_reply : Answers → Session → Reply
end_reply a s =
    if ltb 0 s.current_mail.data_max && ltb s.current_mail.data_max s.current_mail.data_offset
    then line "552 Size limit exceeded\r\n"
    else if ltb cmail_max_hops s.current_mail.hop_count
    then line "554 Too many hops\r\n"
    else routed (route a s)

unfoldable pub end_mail : Answers → Session → Outcome
unfolding end_reply reset_mail
end_mail a s = record {
  session = record (reset_mail s) { state = state_idle };
  sent = end_reply a s ∷ [];
  rv = pos 0;
}

abbrev quiet : Session → Mail → Outcome
quiet s m = record { session = record s { current_mail = m }; sent = []; rv = pos 0 }

-- the end of the header, and the hops on the way there
unfoldable pub scan_header : Mail → Bytes → Mail
scan_header m [] = if m.header_offset == 0 then record m { header_offset = m.data_offset } else m
scan_header m (c ∷ cs) =
    if m.header_offset == 0 && has_prefix (codes "Received: ") (c ∷ cs)
    then record m { hop_count = m.hop_count + 1 }
    else m

unfoldable pub text_line : Answers → Session → Bytes → Outcome
unfolding scan_header
text_line a s input = quiet s (mail_line a.heap (scan_header s.current_mail input) input).0

-- behind a leading dot
unfoldable pub dotted : Answers → Session → Bytes → Outcome
unfolding end_mail
dotted a s [] = end_mail a s
dotted a s (c ∷ cs) = quiet s (mail_line a.heap s.current_mail (c ∷ cs)).0

unfoldable pub smtpstate_data : Answers → Session → Bytes → Outcome
unfolding dotted text_line
smtpstate_data a s [] = text_line a s []
smtpstate_data a s (c ∷ cs) = if c == b'.' then dotted a s cs else text_line a s (c ∷ cs)
