-- ===== src/Smtpd/State/Idle.antt =====
-- cmail-smtpd/smtpstatemachine.c, smtpstate_idle: between two mails. A write of path_parse outside
-- its buffer counts as a rejected path.
use cmail.Base.{
  zero, suc, Bool, true, false, not, ◌&&◌, ◌||◌, [], ◌∷◌, Option, none, some, if◌then◌else◌, Bytes,
  codes, ℤ, pos, negsuc, drop, is_some,
}
use cmail.Net.{TlsMode, tls_none, tls_negotiate, tls_only}
use cmail.Smtpd.Types.{MailPath, MailRoute, Mail, AuthOffer, auth_none, auth_any, auth_tlsonly}
use cmail.Smtpd.Path.{Parse, fault, rejected, parsed, path_parse}
use cmail.Smtpd.PathPool.{path_reset}
use cmail.Smtpd.Mail.{mail_reset}
use cmail.Smtpd.Resolve.{path_resolve, router_is}
use cmail.Smtpd.Session.{
  Listener, Session, Answers, Outcome, line, with_text, reply, state_new, state_auth,
  state_recipients, is_word, noop, rset, starttls, auth_, xyzzy, quit, rcpt_, mail_from, vrfy_,
  expn_, is_authenticated,
}
use cmail.Smtpd.State.Auth.{smtpstate_auth}
use cmail.Smtpd.State.Close.{client_close}

abbrev set_mail : Session → Mail → Session
set_mail s m = record s { current_mail = m }

abbrev set_reverse : Session → MailPath → Session
set_reverse s p = set_mail s (record s.current_mail { reverse_path = p })

-- `mail_reset(&(client_data->current_mail))`
unfoldable pub reset_mail : Session → Session
reset_mail s =
    let (m, pool) = mail_reset s.current_mail s.pool in record s { current_mail = m; pool = pool }

abbrev is_plain : TlsMode → Bool
is_plain tls_none = true
is_plain _ = false

-- `starttls`
unfoldable pub idle_starttls : TlsMode → TlsMode → Answers → Session → Outcome
unfolding reset_mail
idle_starttls mode tls_negotiate a s =
    if is_plain mode
    then record {
      session = record (reset_mail s) { state = state_new; tls_mode = tls_negotiate };
      sent = line "220 Go ahead\r\n" ∷ [];
      rv = a.tls_init;
    }
    else reply s (line "503 Already in TLS session\r\n") (pos 0)
idle_starttls mode other a s =
    if is_plain mode
    then reply s (line "503 Not advertised\r\n") (negsuc 0)
    else reply s (line "503 Already in TLS session\r\n") (pos 0)

abbrev enter_auth : Listener → Answers → Session → Bytes → Outcome
enter_auth l a s input =
    if is_authenticated s
    then reply s (line "503 Already authenticated\r\n") (negsuc 0)
    else smtpstate_auth l a (record s { state = state_auth }) input

-- `auth `
unfoldable pub idle_auth : AuthOffer → TlsMode → Listener → Answers → Session → Bytes → Outcome
idle_auth auth_none mode l a s input = reply s (line "503 Not advertised\r\n") (negsuc 0)
idle_auth auth_tlsonly tls_only l a s input = enter_auth l a s input
idle_auth auth_tlsonly mode l a s input = reply s (line "504 Encryption required\r\n") (negsuc 0)
idle_auth auth_any mode l a s input = enter_auth l a s input

abbrev accept_mail : Session → Outcome
accept_mail s = reply (record s { state = state_recipients }) (line "250 OK\r\n") (pos 0)

abbrev refuse_path : Session → MailPath → Bytes → Outcome
refuse_path s p why = reply (set_reverse s (path_reset p)) (with_text "551 %s\r\n" why) (negsuc 0)

abbrev text_or : Option Bytes → Bytes → Bytes
text_or none d = d
text_or (some t) d = t

-- the `defined` router accepts only a path whose own route stores to the user
abbrev routes_to : MailRoute → Option Bytes → Bool
routes_to route none = false
routes_to route (some user) =
    router_is route.router (codes "store") && router_is route.argument user

abbrev not_allowed : Bytes
not_allowed = codes "User not allowed to use this path"

-- `case 0` behind path_resolve, for a session that is authenticated and authorized
unfoldable pub originate_path : Session → MailPath → Outcome
originate_path s p =
    if not (is_some s.originating_route.router)
      || router_is s.originating_route.router (codes "reject")
    then refuse_path s p (text_or s.originating_route.argument not_allowed)
    else if router_is s.originating_route.router (codes "any")
    then accept_mail (set_reverse s p)
    else if router_is s.originating_route.router (codes "defined")
        && not (routes_to p.route s.sasl.user.authorized)
    then refuse_path s p not_allowed
    else accept_mail (set_reverse s p)

-- the switch on the verdict of path_resolve
unfoldable pub on_reverse : Session → MailPath → ℤ → Outcome
unfolding originate_path
on_reverse s p (pos zero) =
    if is_authenticated s && is_some s.sasl.user.authorized
    then originate_path s p
    else accept_mail (set_reverse s p)
on_reverse s p (pos (suc zero)) = accept_mail (set_reverse s p)
on_reverse s p _ = reply (set_reverse s (path_reset p)) (line "451 Path rejected\r\n") (pos 0)

unfoldable pub on_mail_path : Answers → Session → Parse MailPath → Outcome
unfolding on_reverse
on_mail_path a s fault = reply s (line "501 Path rejected\r\n") (negsuc 0)
on_mail_path a s (rejected p) = reply (set_reverse s p) (line "501 Path rejected\r\n") (negsuc 0)
on_mail_path a s (parsed p) =
    let (q, verdict) = path_resolve a.address s.sasl.user.authorized p in on_reverse s q verdict

-- `mail from:`
unfoldable pub idle_mail : Listener → Answers → Session → Bytes → Outcome
unfolding on_mail_path
idle_mail l a s input =
    if l.auth_require && not (is_authenticated s)
    then reply s (line "530 Authentication required\r\n") (negsuc 0)
    else on_mail_path a s (path_parse (drop 10 input) s.current_mail.reverse_path)

abbrev close_outcome : Session → Outcome
close_outcome s =
    let (s', rv) = client_close s in
    record { session = s'; sent = line "221 OK Bye\r\n" ∷ []; rv = rv }

unfoldable pub smtpstate_idle : Listener → Answers → Session → Bytes → Outcome
unfolding idle_starttls idle_auth idle_mail reset_mail
smtpstate_idle l a s input =
    if is_word input noop
    then reply s (line "250 OK\r\n") (pos 0)
    else if is_word input rset
    then reply (reset_mail s) (line "250 Reset OK\r\n") (pos 0)
    else if is_word input starttls
    then idle_starttls s.tls_mode l.tls_mode a s
    else if is_word input auth_
    then idle_auth l.auth_offer s.tls_mode l a s input
    else if is_word input xyzzy
    then reply s (line "250 Nothing happens\r\n") (pos 0)
    else if is_word input quit
    then close_outcome s
    else if is_word input rcpt_
    then reply s (line "503 Bad sequence of commands\r\n") (negsuc 0)
    else if is_word input mail_from
    then idle_mail l a s input
    else if is_word input vrfy_ || is_word input expn_
    then reply s (line "502 Not implemented\r\n") (negsuc 0)
    else reply s (line "500 Unknown command\r\n") (negsuc 0)
