-- ===== src/Smtpd/State/Auth.antt =====
-- cmail-smtpd/smtpstatemachine.c, smtpstate_auth: the AUTH dialogue.
use cmail.Base.{
  Bool, true, false, [], ◌∷◌, Option, none, some, if◌then◌else◌, ◌==◌, Bytes, codes, str_eq, pos,
  negsuc, drop,
}
use cmail.Net.{TlsMode, tls_negotiate, tls_only}
use cmail.Auth.Credentials.{Validation, denied, granted, auth_validate}
use cmail.Sasl.{
  Sasl, SaslMethod, sasl_invalid, sasl_plain, SaslStatus, sasl_ok, sasl_error_processing,
  sasl_error_data, sasl_unknown_method, sasl_continue_, sasl_data_ok, sasl_continue, sasl_begin,
  sasl_cancel, sasl_reset_ctx, sasl_reset_user,
}
use cmail.Sasl as SaslModule
use cmail.Smtpd.Resolve.{route_query}
use cmail.Smtpd.Session.{
  Listener, Session, Answers, Outcome, line, with_text, reply, state_idle, is_word, auth_,
}

-- strtok with the delimiter " ": the next token, and what stands behind it
pub record Token : Type 0 where
  pub token : Bytes
  pub rest : Bytes

abbrev pub skip_blanks : Bytes → Bytes
skip_blanks [] = []
skip_blanks (c ∷ cs) = let rest = skip_blanks cs in if c == 32 then rest else c ∷ cs

abbrev pub until_blank : Bytes → Token
until_blank [] = record { token = []; rest = [] }
until_blank (c ∷ cs) =
    let later = until_blank cs in
    if c == 32 then record { token = []; rest = cs } else record later { token = c ∷ later.token }

first_token : Bytes → Option Token
first_token [] = none
first_token (c ∷ cs) = some (until_blank (c ∷ cs))

unfoldable pub strtok : Bytes → Option Token
unfolding first_token
strtok text = first_token (skip_blanks text)

abbrev token_of : Option Token → Option Bytes
token_of none = none
token_of (some t) = some t.token

unfoldable pub begin : Answers → Sasl → Option Token → Sasl × SaslModule.Reply
begin a s none = (s, record { status = sasl_unknown_method; response = none })
begin a s (some t) = sasl_begin a.sasl_alloc t.token (token_of (strtok t.rest)) s

abbrev with_sasl : Session → Sasl → Session
with_sasl s sasl = record s { sasl = sasl }

abbrev back_to_idle : Session → Session
back_to_idle s = record s { state = state_idle; sasl = sasl_reset_ctx s.sasl }

-- the protocol name of an authenticated session
abbrev esmtpa : TlsMode → TlsMode → Bytes
esmtpa tls_only mode = codes "sesmtpa"
esmtpa tls_negotiate tls_only = codes "esmtpsa"
esmtpa _ _ = codes "esmtpa"

abbrev logout : Session → Session
logout s = record s { sasl = record s.sasl { user = sasl_reset_user s.sasl.user } }

-- behind auth_validate: the failures, or the login
unfoldable pub finish_login : Listener → Answers → Session → Validation → Outcome
finish_login l a s denied = reply (logout s) (line "535 Authentication failed\r\n") (negsuc 0)
finish_login l a s (granted none) = reply (logout s) (line "454 Internal Error\r\n") (pos 0)
finish_login l a s (granted (some user)) =
    reply
      (record s {
        sasl = record s.sasl { user = record s.sasl.user { authorized = some user } };
        originating_route = route_query a.outbound (some user);
        current_mail = record s.current_mail { protocol = esmtpa l.tls_mode s.tls_mode };
      })
      (line "235 Authenticated\r\n") (pos 1)

abbrev or_empty : Option Bytes → Bytes
or_empty none = []
or_empty (some c) = c

-- the switch on the status, and what stands behind it
unfoldable pub on_status : Listener → Answers → Session → SaslStatus → Option Bytes → Outcome
unfolding finish_login
on_status l a s sasl_ok challenge = reply (back_to_idle s) (line "500 Invalid state\r\n") (negsuc 0)
on_status l a s sasl_error_processing challenge =
    reply (back_to_idle s) (line "454 Internal Error\r\n") (pos 0)
on_status l a s sasl_error_data challenge =
    reply (back_to_idle s) (line "501 Invalid data provided\r\n") (negsuc 0)
on_status l a s sasl_unknown_method challenge =
    reply (back_to_idle s) (line "504 Unknown mechanism\r\n") (negsuc 0)
on_status l a s sasl_continue_ challenge =
    reply s (with_text "334 %s\r\n" (or_empty challenge)) (pos 0)
on_status l a s sasl_data_ok challenge =
    finish_login l a (back_to_idle s)
      (auth_validate a.hash a.auth s.sasl.user.authenticated challenge)

unfoldable pub on_step : Listener → Answers → Session → Sasl × SaslModule.Reply → Outcome
unfolding on_status
on_step l a s (sasl, r) = on_status l a (with_sasl s sasl) r.status r.response

unfoldable pub is_active : SaslMethod → Bool
is_active sasl_invalid = false
is_active sasl_plain = true

unfoldable pub smtpstate_auth : Listener → Answers → Session → Bytes → Outcome
unfolding on_step begin is_active
smtpstate_auth l a s input =
    if is_active s.sasl.method
    then if str_eq input (codes "*")
      then reply (record s { state = state_idle; sasl = sasl_cancel s.sasl })
          (line "501 Authentication cancelled\r\n") (pos 0)
      else on_step l a s (sasl_continue a.sasl_alloc s.sasl.method input s.sasl)
    else if is_word input auth_
    then on_step l a s (begin a s.sasl (strtok (drop 5 input)))
    else reply (record s { state = state_idle }) (line "500 Invalid state\r\n") (negsuc 0)
