-- ===== src/Smtpd/State/Recipients.antt =====
-- cmail-smtpd/smtpstatemachine.c, smtpstate_recipients: the recipients of a mail.
use cmail.Base.{
  ℕ, zero, suc, Bool, false, not, List, [], ◌∷◌, ◌++◌, ◌==◌, Option, none, some, if◌then◌else◌,
  Bytes, codes, ℤ, pos, negsuc, drop, is_some, length, get_elem?, c_str,
}
use cmail.Smtpd.Types.{MailPath, smtp_max_recipients, reset_path}
use cmail.Smtpd.Path.{Parse, fault, rejected, parsed, path_parse}
use cmail.Smtpd.PathPool.{PathPool, pathpool_get, pathpool_return, update}
use cmail.Smtpd.Mail.{mail_recvheader}
use cmail.Smtpd.Resolve.{path_resolve}
use cmail.Smtpd.Session.{
  Listener, Session, Answers, Outcome, line, with_text, reply, state_idle, state_data, is_word,
  rcpt_to, quit, noop, rset, auth, data_, is_authenticated,
}
use cmail.Smtpd.State.Close.{client_close}
use cmail.Smtpd.State.Idle.{reset_mail}

-- `*current_path = p`
unfoldable pub set_slot : Session → ℕ → MailPath → Session
set_slot s i p = record s { pool = record s.pool { paths = update s.pool.paths i (λ q. p) } }

unfoldable pub release : Session → ℕ → Session
release s i = record s { pool = pathpool_return s.pool i }

abbrev pub has_domain : MailPath → Bool
has_domain p = elim (get_elem? p.path p.delimiter_position) [ none ↦ false | some c ↦ c == b'@' ]

unfoldable pub accept_path : Session → ℕ → Outcome
accept_path s i =
    reply
      (record s {
        current_mail = record s.current_mail {
          forward_paths = s.current_mail.forward_paths ++ i ∷ [];
        };
      })
      (line "250 Accepted\r\n") (pos 1)

abbrev why_rejected : Option Bytes → Bytes
why_rejected none = codes "User does not accept mail"
why_rejected (some t) = t

-- the switch on the verdict of path_resolve, and the checks of a path that is not local
unfoldable pub on_forward : Session → ℕ → MailPath → ℤ → Outcome
unfolding accept_path release
on_forward s i p (pos zero) =
    if is_some p.route.router
    then accept_path s i
    else if not (has_domain p)
    then reply (release s i) (line "551 Non-local paths need domain part\r\n") (negsuc 0)
    else if not (is_authenticated s)
    then reply (release s i) (line "551 Unknown user\r\n") (negsuc 0)
    else accept_path s i
on_forward s i p (pos (suc zero)) =
    reply (release s i) (with_text "551 %s\r\n" (why_rejected p.route.argument)) (negsuc 0)
on_forward s i p _ = reply (release s i) (line "451 Path rejected\r\n") (pos 0)

unfoldable pub on_rcpt_path : Answers → Session → ℕ → Parse MailPath → Outcome
unfolding on_forward set_slot release
on_rcpt_path a s i fault = reply (release s i) (line "501 Path rejected\r\n") (negsuc 0)
on_rcpt_path a s i (rejected p) =
    reply (release (set_slot s i p) i) (line "501 Path rejected\r\n") (negsuc 0)
on_rcpt_path a s i (parsed p) =
    let (q, verdict) = path_resolve a.address none p in on_forward (set_slot s i q) i q verdict

abbrev pub path_at : PathPool → ℕ → MailPath
path_at pool i = elim (get_elem? pool.paths i) [ none ↦ reset_path | some p ↦ p ]

unfoldable pub on_slot : Answers → Option ℕ → Session → Bytes → Outcome
unfolding on_rcpt_path
on_slot a none s input = reply s (line "452 Recipients pool maxed out\r\n") (negsuc 0)
on_slot a (some i) s input = on_rcpt_path a s i (path_parse (drop 8 input) (path_at s.pool i))

-- `rcpt to:`; the array of forward paths is full at `smtp_max_recipients`
unfoldable pub rcpt : Answers → Session → Bytes → Outcome
unfolding on_slot
rcpt a s input =
    if length s.current_mail.forward_paths == smtp_max_recipients
    then reply s (line "452 Too many recipients\r\n") (negsuc 0)
    else let (slot, pool) = pathpool_get a.pool_alloc s.pool in
      on_slot a slot (record s { pool = pool }) input

-- the path that the Received: header names, if there is only one
abbrev only_path : PathPool → List ℕ → Option Bytes
only_path pool (i ∷ []) = some (c_str (path_at pool i).path)
only_path pool _ = none

unfoldable pub begin_data : Listener → Answers → Session → List ℕ → Outcome
begin_data l a s [] = reply s (line "503 No valid recipients\r\n") (negsuc 0)
begin_data l a s (i ∷ is) =
    let (m, rv) =
      mail_recvheader a.header s.current_mail l.announce_domain l.suppress_submitter
        (only_path s.pool (i ∷ is)) in
    reply (record s { state = state_data; current_mail = m }) (line "354 Go ahead\r\n") (pos 0)

abbrev close_outcome : Session → Outcome
close_outcome s =
    let (s', rv) = client_close s in
    record { session = s'; sent = line "221 OK Bye\r\n" ∷ []; rv = rv }

unfoldable pub smtpstate_recipients : Listener → Answers → Session → Bytes → Outcome
unfolding rcpt begin_data
smtpstate_recipients l a s input =
    if is_word input rcpt_to
    then rcpt a s input
    else if is_word input quit
    then close_outcome s
    else if is_word input noop
    then reply s (line "250 OK\r\n") (pos 0)
    else if is_word input rset
    then reply (reset_mail (record s { state = state_idle })) (line "250 Reset OK\r\n") (pos 0)
    else if is_word input auth
    then reply s (line "503 Bad sequence of commands\r\n") (negsuc 0)
    else if is_word input data_
    then begin_data l a s s.current_mail.forward_paths
    else reply s (line "500 Unknown command\r\n") (negsuc 0)
