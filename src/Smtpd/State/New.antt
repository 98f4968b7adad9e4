-- ===== src/Smtpd/State/New.antt =====
-- cmail-smtpd/smtpstatemachine.c, smtpstate_new: before the greeting.
use cmail.Base.{
  Bool, true, false, List, [], ◌∷◌, ◌++◌, if◌then◌else◌, Bytes, codes, pos, negsuc, String,
}
use cmail.Net.{TlsMode, tls_none, tls_negotiate, tls_only}
use cmail.Smtpd.Types.{AuthOffer, auth_none, auth_any, auth_tlsonly}
use cmail.Smtpd.Session.{
  Listener, Session, Outcome, Reply, line, with_text, with_number, reply, state_idle, ehlo, helo,
  is_word, is_authenticated,
}

-- The protocol names: on a TLS-only listener, in a negotiated TLS session, and without TLS; each
-- with and without authentication.
unfoldable pub protocol :
    String → String → String → String → String → String → TlsMode → TlsMode → Bool → Bytes
protocol only only_a tls tls_a plain plain_a tls_only mode auth =
    codes (if auth then only_a else only)
protocol only only_a tls tls_a plain plain_a tls_negotiate tls_only auth =
    codes (if auth then tls_a else tls)
protocol only only_a tls tls_a plain plain_a _ _ auth = codes (if auth then plain_a else plain)

abbrev esmtp : TlsMode → TlsMode → Bool → Bytes
esmtp = protocol "sesmtp" "sesmtpa" "esmtps" "esmtpsa" "esmtp" "esmtpa"

abbrev smtp : TlsMode → TlsMode → Bool → Bytes
smtp = protocol "ssmtp" "ssmtpa" "smtps" "smtpsa" "smtp" "smtpa"

abbrev set_protocol : Session → Bytes → Session
set_protocol s name = record s {
  current_mail = record s.current_mail { protocol = name };
  state = state_idle;
}

unfoldable pub offers_auth : AuthOffer → TlsMode → Bool
offers_auth auth_none mode = false
offers_auth auth_tlsonly tls_only = true
offers_auth auth_tlsonly mode = false
offers_auth auth_any mode = true

unfoldable pub offers_starttls : TlsMode → TlsMode → Bool
offers_starttls tls_negotiate tls_none = true
offers_starttls _ _ = false

abbrev when : Bool → Reply → List Reply
when b r = if b then r ∷ [] else []

unfoldable pub smtpstate_new : Listener → Session → Bytes → Outcome
unfolding protocol offers_auth offers_starttls
smtpstate_new l s input =
    if is_word input ehlo
    then record {
      session = set_protocol s (esmtp l.tls_mode s.tls_mode (is_authenticated s));
      sent =
          with_text "250-%s ahoyhoy\r\n" l.announce_domain
          ∷ with_number "250-SIZE %d\r\n" l.max_size
          ∷ line "250-8BITMIME\r\n"
          ∷ line "250-SMTPUTF8\r\n"
          ∷ (when (offers_auth l.auth_offer s.tls_mode) (line "250-AUTH PLAIN\r\n")
              ++ (when (offers_starttls l.tls_mode s.tls_mode) (line "250-STARTTLS\r\n")
                  ++ line "250 XYZZY\r\n" ∷ []));
      rv = pos 0;
    }
    else if is_word input helo
    then reply (set_protocol s (smtp l.tls_mode s.tls_mode (is_authenticated s)))
        (with_text "250 %s ahoyhoy\r\n" l.announce_domain) (pos 0)
    else reply s (line "500 Unknown command\r\n") (negsuc 0)
