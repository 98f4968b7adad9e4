-- ===== src/Smtpd/State/Guards/Login.antt =====
-- cmail-smtpd/smtpstatemachine.c: the ways in which a session becomes authenticated.
use cmail.Base.{
  ap, ◌∙◌, ◌≢◌, ℕ, Bool, true, false, ◌||◌, [], ◌∷◌, Option, none, some, ◌≡◌, ◌⊎◌, is_some, refl,
  arith, Bytes, pos, if_both, if◌then◌else◌, List, str_eq, codes, drop,
}
use cmail.Net.{TlsMode}
use cmail.Auth.Credentials.{Validation, denied, granted, auth_validate}
use cmail.Auth.Credentials.Exact.{Matches, auth_validate_sound}
use cmail.Sasl.{
  Sasl, SaslStatus, sasl_ok, sasl_error_processing, sasl_error_data, sasl_unknown_method,
  sasl_continue_, sasl_data_ok, SaslMethod, sasl_continue, sasl_begin, sasl_challenge,
  sasl_reset_user, sasl_reset_ctx, sasl_cancel,
}
use cmail.Sasl as SaslModule
use cmail.Smtpd.Types.{AuthOffer}
use cmail.Smtpd.Session.{
  Session, Listener, Answers, Outcome, state_new, state_idle, state_auth, state_recipients,
  state_data, SmtpState, is_authenticated, is_word, noop, rset, starttls, auth_, xyzzy, quit, rcpt_,
  mail_from, vrfy_, expn_, rcpt_to, auth, data_,
}
use cmail.Smtpd.State.{client_line, in_state}
use cmail.Smtpd.State.Auth.{
  smtpstate_auth, Token, on_status, on_step, finish_login, begin, is_active, strtok,
}
use cmail.Smtpd.State.Close.{client_close}
use cmail.Smtpd.State.New.{smtpstate_new}
use cmail.Smtpd.State.Idle.{smtpstate_idle, idle_starttls, idle_auth, idle_mail, reset_mail}
use cmail.Smtpd.State.Recipients.{smtpstate_recipients, rcpt, begin_data}
use cmail.Smtpd.State.Data.{smtpstate_data}

-- A session that is not authenticated becomes so only with a password that the user table confirms.
abbrev pub IsVerified : Answers → Session → Bytes → Type 0
IsVerified a s password =
    Matches a.hash a.auth password
    × (auth_validate a.hash a.auth s.sasl.user.authenticated (some password)
        ≡ granted s.sasl.user.authorized)

abbrev LoginIsChecked : Answers → Outcome → Type 0
LoginIsChecked a o =
    is_authenticated o.session ≡ true → (password : Bytes) × IsVerified a o.session password

no_user_denied :
    (a : Answers) (p : Option Bytes) {r : Option Bytes}
    → auth_validate a.hash a.auth none p ≢ granted r
unfolding auth_validate
no_user_denied a p e = absurd cc

no_password_denied :
    (a : Answers) (u : Bytes) {r : Option Bytes}
    → auth_validate a.hash a.auth (some u) none ≢ granted r
unfolding auth_validate
no_password_denied a u e = absurd cc

finish_login-LoginIsChecked :
    (l : Listener) (a : Answers) (s : Session) (user password : Option Bytes) (v : Validation)
    → s.sasl.user.authenticated ≡ user
    → auth_validate a.hash a.auth user password ≡ v
    → LoginIsChecked a (finish_login l a s v)
unfolding finish_login sasl_reset_user
finish_login-LoginIsChecked l a s user password denied q e = λ k. absurd cc
finish_login-LoginIsChecked l a s user password (granted none) q e = λ k. absurd cc
finish_login-LoginIsChecked l a s (some u) (some p) (granted (some r)) q e = λ k. (
  p,
  (
    auth_validate_sound a.hash a.auth u p {r = some r} e,
    ap (λ w. auth_validate a.hash a.auth w (some p)) q ∙ e,
  ),
)
finish_login-LoginIsChecked l a s none p (granted (some r)) q e = absurd (no_user_denied a p e)
finish_login-LoginIsChecked l a s (some u) none (granted (some r)) q e =
    absurd (no_password_denied a u e)

on_status-LoginIsChecked :
    (l : Listener) (a : Answers) (s : Session) (st : SaslStatus) (r : Option Bytes)
    → (st ≡ sasl_data_ok) ⊎ (is_authenticated s ≡ false)
    → LoginIsChecked a (on_status l a s st r)
unfolding on_status sasl_reset_ctx
on_status-LoginIsChecked l a s sasl_data_ok r h =
    finish_login-LoginIsChecked l a _ s.sasl.user.authenticated r _ refl refl
on_status-LoginIsChecked l a s sasl_ok r h = λ k. absurd (ground arith)
on_status-LoginIsChecked l a s sasl_error_processing r h = λ k. absurd (ground arith)
on_status-LoginIsChecked l a s sasl_error_data r h = λ k. absurd (ground arith)
on_status-LoginIsChecked l a s sasl_unknown_method r h = λ k. absurd (ground arith)
on_status-LoginIsChecked l a s sasl_continue_ r h = λ k. absurd (ground arith)

-- What a SASL call leaves: the status for complete data, or no authenticated user.
abbrev IsPending : Sasl × SaslModule.Reply → Type 0
IsPending r = (r.1.status ≡ sasl_data_ok) ⊎ (is_some r.0.user.authenticated ≡ false)

sasl_continue-IsPending :
    (alloc : Bool) (m : SaslMethod) (input : Bytes) (s : Sasl)
    → is_some s.user.authenticated ≡ false
    → IsPending (sasl_continue alloc m input s)
unfolding sasl_continue
sasl_continue-IsPending alloc m input s e = ground arith

begin-IsPending :
    (a : Answers) (s : Sasl) (t : Option Token)
    → is_some s.user.authenticated ≡ false
    → IsPending (begin a s t)
unfolding begin sasl_begin sasl_challenge sasl_continue
begin-IsPending a s t e = ground arith

split :
    (a : Answers) (b : Bool) (x y : Outcome)
    → LoginIsChecked a x
    → LoginIsChecked a y
    → LoginIsChecked a (if b then x else y)
split a = if_both (LoginIsChecked a)

on_step-LoginIsChecked :
    (l : Listener) (a : Answers) (s : Session) (r : Sasl × SaslModule.Reply)
    → IsPending r
    → LoginIsChecked a (on_step l a s r)
unfolding on_step
on_step-LoginIsChecked l a s (sasl, r) h =
    on_status-LoginIsChecked l a (record s { sasl = sasl }) r.status r.response h

smtpstate_auth-LoginIsChecked :
    (l : Listener) (a : Answers) (s : Session) (input : Bytes)
    → is_authenticated s ≡ false
    → LoginIsChecked a (smtpstate_auth l a s input)
unfolding smtpstate_auth sasl_cancel sasl_reset_ctx
smtpstate_auth-LoginIsChecked l a s input u =
    split a (is_active s.sasl.method) _ _
      (split a (str_eq input (codes "*")) _ _ (λ k. absurd cc)
        (on_step-LoginIsChecked l a s _
          (sasl_continue-IsPending a.sasl_alloc s.sasl.method input s.sasl u)))
      (split a (is_word input auth_) _ _
        (on_step-LoginIsChecked l a s _ (begin-IsPending a s.sasl (strtok (drop 5 input)) u))
        (λ k. absurd cc))

idle_auth-LoginIsChecked :
    (o : AuthOffer) (mode : TlsMode) (l : Listener) (a : Answers) (s : Session) (input : Bytes)
    → is_authenticated s ≡ false
    → LoginIsChecked a (idle_auth o mode l a s input)
unfolding idle_auth
idle_auth-LoginIsChecked o mode l a s input u =
    ground (arith, smtpstate_auth-LoginIsChecked l a (record s { state = state_auth }) input u)

-- the handlers that keep the authentication
module _ (l : Listener) (a : Answers) (s : Session) (input : Bytes)
    (u : is_authenticated s ≡ false) where
  idle_mail_keeps : is_authenticated (idle_mail l a s input).session ≡ false
  unfolding idle_mail
  idle_mail_keeps = ground arith

  rcpt_keeps : is_authenticated (rcpt a s input).session ≡ false
  unfolding rcpt
  rcpt_keeps = ground arith

  smtpstate_new_keeps : is_authenticated (smtpstate_new l s input).session ≡ false
  unfolding smtpstate_new
  smtpstate_new_keeps = ground arith

  smtpstate_data_keeps : is_authenticated (smtpstate_data a s input).session ≡ false
  unfolding smtpstate_data
  smtpstate_data_keeps = ground arith

  same : LoginIsChecked a (record { session = s; sent = []; rv = pos 0 })
  same = λ k. absurd cc

  kept : (o : Outcome) → is_authenticated o.session ≡ false → LoginIsChecked a o
  kept o e = λ k. absurd cc

  smtpstate_idle-LoginIsChecked : LoginIsChecked a (smtpstate_idle l a s input)
  unfolding smtpstate_idle reset_mail client_close idle_starttls sasl_reset_user
  smtpstate_idle-LoginIsChecked = split a (is_word input noop) _ _ same (
      split a (is_word input rset) _ _ same (
        split a (is_word input starttls) _ _
          (kept (idle_starttls s.tls_mode l.tls_mode a s) (ground arith))
          (split a (is_word input auth_) _ _
            (idle_auth-LoginIsChecked l.auth_offer s.tls_mode l a s input u)
            (split a (is_word input xyzzy) _ _ same (
              split a (is_word input quit) _ _ (λ k. absurd cc)
                (split a (is_word input rcpt_) _ _ same (
                  split a (is_word input mail_from) _ _
                    (kept (idle_mail l a s input) idle_mail_keeps)
                    (split a (is_word input vrfy_ || is_word input expn_) _ _ same same))))))))

  begin_data_keeps : (is : List ℕ) → is_authenticated (begin_data l a s is).session ≡ false
  unfolding begin_data
  begin_data_keeps [] = u
  begin_data_keeps (i ∷ is) = u

  smtpstate_recipients-LoginIsChecked : LoginIsChecked a (smtpstate_recipients l a s input)
  unfolding smtpstate_recipients reset_mail client_close sasl_reset_user
  smtpstate_recipients-LoginIsChecked =
      split a (is_word input rcpt_to) _ _ (kept (rcpt a s input) rcpt_keeps) (
        split a (is_word input quit) _ _ (λ k. absurd cc)
          (split a (is_word input noop) _ _ same (
            split a (is_word input rset) _ _ same (
              split a (is_word input auth) _ _ same (
                split a (is_word input data_) _ _
                  (kept (begin_data l a s s.current_mail.forward_paths)
                    (begin_data_keeps s.current_mail.forward_paths))
                  same)))))

  in_state-LoginIsChecked : (st : SmtpState) → LoginIsChecked a (in_state st l a s input)
  unfolding in_state
  in_state-LoginIsChecked state_new = kept (smtpstate_new l s input) smtpstate_new_keeps
  in_state-LoginIsChecked state_idle = smtpstate_idle-LoginIsChecked
  in_state-LoginIsChecked state_auth = smtpstate_auth-LoginIsChecked l a s input u
  in_state-LoginIsChecked state_recipients = smtpstate_recipients-LoginIsChecked
  in_state-LoginIsChecked state_data = kept (smtpstate_data a s input) smtpstate_data_keeps

-- If a line, in any state, leaves a session authenticated which was not so before, then there is a
-- password for which the row that the user table answered holds the salt and the digest, and with
-- which auth_validate grants the session's user the identity that the session is now authorized as.
pub login_is_checked :
    (l : Listener) (a : Answers) (s : Session) (input : Bytes)
    → is_authenticated s ≡ false
    → is_authenticated (client_line l a s input).session ≡ true
    → (password : Bytes) × IsVerified a (client_line l a s input).session password
unfolding client_line
login_is_checked l a s input u = in_state-LoginIsChecked l a s input u s.state
