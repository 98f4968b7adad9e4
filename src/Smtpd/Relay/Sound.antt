-- ===== src/Smtpd/Relay/Sound.antt =====
-- cmail-smtpd/smtpstatemachine.c: the invariant of the recipients for a connection that may be closed in any
-- state.
use cmail.Base.{ℕ, false, [], ◌∷◌, ◌≡◌, ◌⊎◌, inl, inr, refl, ◌∙◌, Bytes, if_both, ◌==◌, ℤ}
use mathlib.Core.Path.{subst}
use cmail.Smtpd.Mail.{mail_reset}
use cmail.Smtpd.PathPool.{PathPool}
use cmail.Smtpd.Session.{
  Session, Listener, Answers, Outcome, SmtpState, state_new, state_idle, state_auth,
  state_recipients, state_data, is_authenticated, Delivery,
}
use cmail.Smtpd.Delivery.{mail_route}
use cmail.Smtpd.State.{client_line, in_state}
use cmail.Smtpd.State.Close.{client_close}
use cmail.Smtpd.State.Data.{smtpstate_data, text_line, dotted, scan_header}
use cmail.Smtpd.Relay.{Inv, AllMayReceive}
use cmail.Smtpd.Relay.Lines.{
  client_line-Inv, in_state-Inv, mail_line-forward_paths, scan_header-forward_paths,
}
use cmail.Smtpd.Relay.Quiet.{HasNone-Inv}
use cmail.Smtpd.Relay.Others.{Untouched, others-Inv, mail_route_from-local}

-- The invariant, or no recipients: a connection that is closed forgets them and stays in its state.
abbrev pub IsSound : Session → Type 0
IsSound s = Inv s ⊎ (s.current_mail.forward_paths ≡ [])

pub IsSound-recipients :
    (s : Session)
    → IsSound s
    → AllMayReceive (is_authenticated s) s.pool.paths s.current_mail.forward_paths
IsSound-recipients s (inl v) = v.recipients
IsSound-recipients s (inr e) = rw e tt

HasNo : Session → Type 0
HasNo s = s.current_mail.forward_paths ≡ []

text_line-HasNo :
    (a : Answers) (s : Session) (input : Bytes) → HasNo s → HasNo (text_line a s input).session
unfolding text_line HasNo
text_line-HasNo a s input e =
    mail_line-forward_paths a.heap (scan_header s.current_mail input) input
    ∙ scan_header-forward_paths s.current_mail input
    ∙ e

dotted-HasNo :
    (a : Answers) (s : Session) (input : Bytes) → HasNo s → HasNo (dotted a s input).session
unfolding dotted mail_reset HasNo
dotted-HasNo a s [] e = refl
dotted-HasNo a s (c ∷ cs) e = mail_line-forward_paths a.heap s.current_mail (c ∷ cs) ∙ e

smtpstate_data-HasNo :
    (a : Answers) (s : Session) (input : Bytes) → HasNo s → HasNo (smtpstate_data a s input).session
unfolding smtpstate_data
smtpstate_data-HasNo a s [] e = text_line-HasNo a s [] e
smtpstate_data-HasNo a s (c ∷ cs) e =
    if_both (λ (o : Outcome). HasNo o.session) (c == b'.') _ _ (dotted-HasNo a s cs e)
      (text_line-HasNo a s (c ∷ cs) e)

in_state-none :
    (st : SmtpState) (l : Listener) (a : Answers) (s : Session) (input : Bytes)
    → s.state ≡ st
    → HasNo s
    → IsSound (in_state st l a s input).session
unfolding in_state HasNo
in_state-none state_data l a s input e h = inr (smtpstate_data-HasNo a s input h)
in_state-none state_new l a s input e h =
    inl (in_state-Inv state_new l a s input e (HasNone-Inv s (h, λ k. cc)))
in_state-none state_idle l a s input e h =
    inl (in_state-Inv state_idle l a s input e (HasNone-Inv s (h, λ k. cc)))
in_state-none state_auth l a s input e h =
    inl (in_state-Inv state_auth l a s input e (HasNone-Inv s (h, λ k. cc)))
in_state-none state_recipients l a s input e h =
    inl (in_state-Inv state_recipients l a s input e (HasNone-Inv s (h, λ k. cc)))

pub client_line-IsSound :
    (l : Listener) (a : Answers) (s : Session) (input : Bytes)
    → IsSound s
    → IsSound (client_line l a s input).session
unfolding client_line HasNo
client_line-IsSound l a s input (inl v) = inl (client_line-Inv l a s input v)
client_line-IsSound l a s input (inr e) = in_state-none s.state l a s input refl e

pub client_close-IsSound : (s : Session) → IsSound (client_close s).0
unfolding client_close mail_reset
client_close-IsSound s = inr refl

-- Another pool, with the same paths in the slots of the session
pub others-IsSound :
    (l : Listener) (s : Session) (pool : PathPool)
    → Untouched s.pool.paths pool.paths s.current_mail.forward_paths
    → IsSound s
    → IsSound (record s { pool = pool })
others-IsSound l s pool u (inl v) = inl (others-Inv s pool u v)
others-IsSound l s pool u (inr e) = inr e

pub IsSound-mail_route :
    (s : Session) (d : Delivery) (f : ℕ → ℤ)
    → IsSound s
    → is_authenticated s ≡ false
    → mail_route (record d { outbox = f }) s.pool s.current_mail.forward_paths
      ≡ mail_route d s.pool s.current_mail.forward_paths
unfolding mail_route
IsSound-mail_route s d f h e = mail_route_from-local d f s.pool 0 s.current_mail.forward_paths (
    subst (λ b. AllMayReceive b s.pool.paths s.current_mail.forward_paths) e
      (IsSound-recipients s h))
