-- ===== src/Smtpd/State/Guards.antt =====
-- cmail-smtpd/smtpstatemachine.c: the guards of MAIL and AUTH.
pub mod Login
use cmail.Base.{
  ℕ, zero, suc, Bool, true, false, ◌||◌, [], ◌∷◌, Option, none, some, ◌≡◌, ◌≢◌, ◌⊎◌, is_some, refl,
  arith, Bytes, ℤ, pos, negsuc, if_both, if◌then◌else◌,
}
use cmail.Net.{TlsMode, tls_none, tls_negotiate, tls_only}
use cmail.Auth.Credentials.{Validation, denied, granted, auth_validate}
use cmail.Auth.Credentials.Exact.{Matches, auth_validate_sound}
use cmail.Sasl.{
  Sasl, SaslStatus, sasl_ok, sasl_error_processing, sasl_error_data, sasl_unknown_method,
  sasl_continue_, sasl_data_ok, SaslMethod, sasl_continue, sasl_begin, sasl_challenge,
  sasl_reset_user, sasl_reset_ctx,
}
use cmail.Sasl as SaslModule
use cmail.Smtpd.Types.{AuthOffer}
use cmail.Smtpd.Session.{
  Session, Listener, Answers, Outcome, state_new, state_idle, state_auth, state_recipients,
  state_data, SmtpState, is_authenticated, is_word, noop, rset, starttls, auth_, xyzzy, quit, rcpt_,
  mail_from, vrfy_, expn_,
}
use cmail.Smtpd.State.Auth.{smtpstate_auth, Token, on_status, on_step, finish_login, begin}
use cmail.Smtpd.State.Close.{client_close}
use cmail.Smtpd.State.New.{smtpstate_new}
use cmail.Smtpd.State.Idle.{smtpstate_idle, idle_starttls, idle_auth, idle_mail, reset_mail}

abbrev IsOutside : Outcome → Type 0
IsOutside o = o.session.state ≢ state_recipients

smtpstate_auth-IsOutside :
    (l : Listener) (a : Answers) (s : Session) (input : Bytes)
    → s.state ≡ state_auth
    → IsOutside (smtpstate_auth l a s input)
unfolding smtpstate_auth
smtpstate_auth-IsOutside l a s input e = ground arith

idle_auth-IsOutside :
    (o : AuthOffer) (mode : TlsMode) (l : Listener) (a : Answers) (s : Session) (input : Bytes)
    → s.state ≡ state_idle
    → IsOutside (idle_auth o mode l a s input)
unfolding idle_auth
idle_auth-IsOutside o mode l a s input e =
    ground (arith, smtpstate_auth-IsOutside l a (record s { state = state_auth }) input refl)

idle_starttls-IsOutside :
    (mode lmode : TlsMode) (a : Answers) (s : Session)
    → s.state ≡ state_idle
    → IsOutside (idle_starttls mode lmode a s)
unfolding idle_starttls
idle_starttls-IsOutside mode lmode a s e = ground arith

idle_mail-IsOutside :
    (l : Listener) (a : Answers) (s : Session) (input : Bytes)
    → s.state ≡ state_idle
    → l.auth_require ≡ true
    → is_authenticated s ≡ false
    → IsOutside (idle_mail l a s input)
unfolding idle_mail
idle_mail-IsOutside l a s input e r u = rw (r, u) (λ k. cc)

split : (b : Bool) (x y : Outcome) → IsOutside x → IsOutside y → IsOutside (if b then x else y)
split = if_both IsOutside

-- On a listener with auth_require, a line in the idle state of a session that is not authenticated
-- never opens a mail: the session is not in the recipients state afterwards.
pub auth_require_holds :
    (l : Listener) (a : Answers) (s : Session) (input : Bytes)
    → s.state ≡ state_idle
    → l.auth_require ≡ true
    → is_authenticated s ≡ false
    → (smtpstate_idle l a s input).session.state ≢ state_recipients
unfolding smtpstate_idle reset_mail client_close
auth_require_holds l a s input e r u =
    let calm : s.state ≢ state_recipients = λ k. cc in
    split (is_word input noop) _ _ calm (
      split (is_word input rset) _ _ calm (
        split (is_word input starttls) _ _ (idle_starttls-IsOutside s.tls_mode l.tls_mode a s e) (
          split (is_word input auth_) _ _
            (idle_auth-IsOutside l.auth_offer s.tls_mode l a s input e)
            (split (is_word input xyzzy) _ _ calm (
              split (is_word input quit) _ _ calm (
                split (is_word input rcpt_) _ _ calm (
                  split (is_word input mail_from) _ _ (idle_mail-IsOutside l a s input e r u)
                    (split (is_word input vrfy_ || is_word input expn_) _ _ calm calm))))))))
