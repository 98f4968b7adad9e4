-- ===== src/Smtpd/Relay/Quiet.antt =====
-- cmail-smtpd/smtpstatemachine.c: sessions without recipients.
use cmail.Base.{Bool, [], ◌≡◌, ◌≢◌, refl, arith, Bytes, if◌then◌else◌, if_both, ◌||◌}
use cmail.Net.{TlsMode}
use cmail.Smtpd.Types.{AuthOffer}
use cmail.Smtpd.Mail.{mail_reset}
use cmail.Smtpd.Session.{
  Session, Listener, Answers, Outcome, SmtpState, is_word, noop, rset, starttls, auth_, xyzzy, quit,
  rcpt_, mail_from, vrfy_, expn_, state_new, state_idle, state_auth, state_recipients, state_data,
}
use cmail.Smtpd.State.New.{smtpstate_new}
use cmail.Smtpd.State.Auth.{smtpstate_auth}
use cmail.Smtpd.State.Close.{client_close}
use cmail.Smtpd.State.Idle.{smtpstate_idle, reset_mail, idle_starttls, idle_auth, idle_mail}
use cmail.Smtpd.Relay.{Inv, Fits}

abbrev pub HasNone : Session → Type 0
HasNone s = (s.current_mail.forward_paths ≡ []) × (s.state ≢ state_data)

pub HasNone-Inv : (s : Session) → HasNone s → Inv s
HasNone-Inv s h = record { fits = fits s.state h.1; recipients = rw h.0 tt }
  where
    fits : (st : SmtpState) → st ≢ state_data → Fits st s.current_mail.forward_paths
    fits state_new n = h.0
    fits state_idle n = h.0
    fits state_auth n = h.0
    fits state_recipients n = tt
    fits state_data n = absurd (n refl)

pub smtpstate_new-HasNone :
    (l : Listener) (s : Session) (input : Bytes)
    → HasNone s
    → HasNone (smtpstate_new l s input).session
unfolding smtpstate_new
smtpstate_new-HasNone l s input h = ground arith

pub smtpstate_auth-HasNone :
    (l : Listener) (a : Answers) (s : Session) (input : Bytes)
    → HasNone s
    → HasNone (smtpstate_auth l a s input).session
unfolding smtpstate_auth
smtpstate_auth-HasNone l a s input h = ground arith

pub reset_mail-HasNone : (s : Session) → s.state ≢ state_data → HasNone (reset_mail s)
unfolding reset_mail mail_reset
reset_mail-HasNone s h = (refl, h)

pub client_close-HasNone : (s : Session) → s.state ≢ state_data → HasNone (client_close s).0
unfolding client_close mail_reset
client_close-HasNone s h = (refl, h)

idle_mail-HasNone :
    (l : Listener) (a : Answers) (s : Session) (input : Bytes)
    → HasNone s
    → HasNone (idle_mail l a s input).session
unfolding idle_mail
idle_mail-HasNone l a s input h = ground arith

idle_auth-HasNone :
    (o : AuthOffer) (mode : TlsMode) (l : Listener) (a : Answers) (s : Session) (input : Bytes)
    → HasNone s
    → HasNone (idle_auth o mode l a s input).session
unfolding idle_auth
idle_auth-HasNone o mode l a s input h = ground (
  arith,
  λ (k : HasNone (record s { state = state_auth })).
      smtpstate_auth-HasNone l a (record s { state = state_auth }) input k,
)

idle_starttls-HasNone :
    (mode lmode : TlsMode) (a : Answers) (s : Session)
    → HasNone s
    → HasNone (idle_starttls mode lmode a s).session
unfolding idle_starttls
idle_starttls-HasNone mode lmode a s h = ground (arith, reset_mail-HasNone s h.1)

-- what is left of a conditional where both branches leave no recipient
split :
    (b : Bool) (x y : Outcome)
    → HasNone x.session
    → HasNone y.session
    → HasNone (if b then x else y).session
split = if_both (λ o. HasNone o.session)

pub smtpstate_idle-HasNone :
    (l : Listener) (a : Answers) (s : Session) (input : Bytes)
    → HasNone s
    → HasNone (smtpstate_idle l a s input).session
unfolding smtpstate_idle
smtpstate_idle-HasNone l a s input h = split (is_word input noop) _ _ h (
    split (is_word input rset) _ _ (reset_mail-HasNone s h.1) (
      split (is_word input starttls) _ _ (idle_starttls-HasNone s.tls_mode l.tls_mode a s h) (
        split (is_word input auth_) _ _ (idle_auth-HasNone l.auth_offer s.tls_mode l a s input h) (
          split (is_word input xyzzy) _ _ h (
            split (is_word input quit) _ _ (client_close-HasNone s h.1) (
              split (is_word input rcpt_) _ _ h (
                split (is_word input mail_from) _ _ (idle_mail-HasNone l a s input h)
                  (split (is_word input vrfy_ || is_word input expn_) _ _ h h))))))))
