-- ===== src/Smtpd/Relay/Lines.antt =====
-- cmail-smtpd/smtpstatemachine.c: lines in every state, and the invariant.
use mathlib.Core.Path.{subst}
use cmail.Base.{
  ℕ, suc, Bool, true, false, List, [], ◌∷◌, Option, ◌≡◌, ◌≢◌, refl, sym, ◌∙◌, arith, Bytes, if_both,
  if◌then◌else◌, ◌==◌,
}
use cmail.Smtpd.Types.{Mail}
use cmail.Smtpd.Mail.{
  mail_reset, mail_line, mail_lines, fold_header, mail_recvheader, trace_header, store_header, Heap,
  HeaderAnswers,
}
use cmail.Smtpd.Session.{
  Session, Listener, Answers, Outcome, SmtpState, state_new, state_idle, state_auth,
  state_recipients, state_data, is_word, rcpt_to, quit, noop, rset, auth, data_, is_authenticated,
}
use cmail.Smtpd.State.{client_line, in_state}
use cmail.Smtpd.State.Recipients.{smtpstate_recipients, begin_data}
use cmail.Smtpd.State.Data.{smtpstate_data, text_line, dotted, scan_header}
use cmail.Smtpd.Relay.{Inv, Fits, AllMayReceive}
use cmail.Smtpd.Relay.Rcpt.{rcpt-Inv}
use cmail.Smtpd.Relay.Quiet.{
  HasNone, HasNone-Inv, smtpstate_new-HasNone, smtpstate_auth-HasNone, smtpstate_idle-HasNone,
  reset_mail-HasNone, client_close-HasNone,
}

-- the states before the first recipient
abbrev is_early : SmtpState → Bool
is_early state_recipients = false
is_early state_data = false
is_early _ = true

none_of : (s : Session) {st : SmtpState} → s.state ≡ st → Inv s → is_early st ≡ true → HasNone s
none_of s {st} e v o = (
  early_fits st s.current_mail.forward_paths o
      (subst (λ t. Fits t s.current_mail.forward_paths) e v.fits),
  λ d. cc,
)
  where
    early_fits : (t : SmtpState) (is : List ℕ) → is_early t ≡ true → Fits t is → is ≡ []
    early_fits state_new is o f = f
    early_fits state_idle is o f = f
    early_fits state_auth is o f = f
    early_fits state_recipients is o f = cc
    early_fits state_data is o f = cc

pub mail_line-forward_paths :
    (heap : Heap) (m : Mail) (input : Bytes)
    → (mail_line heap m input).0.forward_paths ≡ m.forward_paths
unfolding mail_line
mail_line-forward_paths heap m input = ground arith

mail_lines-forward_paths :
    (ls : List Bytes) (heaps : ℕ → Heap) (m : Mail)
    → (mail_lines heaps m ls).forward_paths ≡ m.forward_paths
unfolding mail_lines
mail_lines-forward_paths [] heaps m = refl
mail_lines-forward_paths (l ∷ ls) heaps m =
    mail_lines-forward_paths ls (λ n. heaps (suc n)) (mail_line (heaps 0) m l).0
    ∙ mail_line-forward_paths (heaps 0) m l

store_header-forward_paths :
    (b : Bool) (heaps : ℕ → Heap) (m : Mail) (header : Bytes)
    → (store_header b heaps m header).0.forward_paths ≡ m.forward_paths
unfolding store_header
store_header-forward_paths true heaps m header =
    mail_lines-forward_paths (fold_header header header 0 0 0) heaps m
store_header-forward_paths false heaps m header = refl

pub mail_recvheader-forward_paths :
    (h : HeaderAnswers) (m : Mail) (announce : Bytes) (b : Bool) (o : Option Bytes)
    → (mail_recvheader h m announce b o).0.forward_paths ≡ m.forward_paths
unfolding mail_recvheader
mail_recvheader-forward_paths h m announce b o =
    store_header-forward_paths h.header_alloc h.heaps m (trace_header h m announce b o)

-- A session with the same recipients, pool and authentication.
Inv-same :
    (s : Session) (m : Mail) (st : SmtpState)
    → m.forward_paths ≡ s.current_mail.forward_paths
    → Fits st s.current_mail.forward_paths
    → Inv s
    → Inv (record s { current_mail = m; state = st })
Inv-same s m st e f v = record {
  fits = rw e f;
  recipients = subst (AllMayReceive (is_authenticated s) s.pool.paths) (sym e) v.recipients;
}

begin_data-Inv :
    (l : Listener) (a : Answers) (s : Session) (is : List ℕ)
    → s.current_mail.forward_paths ≡ is
    → Inv s
    → Inv (begin_data l a s is).session
unfolding begin_data
begin_data-Inv l a s [] e v = v
begin_data-Inv l a s (i ∷ is) e v =
    Inv-same s _ state_data (mail_recvheader-forward_paths a.header s.current_mail _ _ _) (λ n. cc)
      v

split :
    (b : Bool) (x y : Outcome) → Inv x.session → Inv y.session → Inv (if b then x else y).session
split = if_both (λ o. Inv o.session)

smtpstate_recipients-Inv :
    (l : Listener) (a : Answers) (s : Session) (input : Bytes)
    → s.state ≡ state_recipients
    → Inv s
    → Inv (smtpstate_recipients l a s input).session
unfolding smtpstate_recipients
smtpstate_recipients-Inv l a s input st v =
    let calm : s.state ≢ state_data = λ e. cc in
    split (is_word input rcpt_to) _ _ (rcpt-Inv a s input st v) (
      split (is_word input quit) _ _ (HasNone-Inv _ (client_close-HasNone s calm)) (
        split (is_word input noop) _ _ v (
          split (is_word input rset) _ _
            (HasNone-Inv _ (reset_mail-HasNone (record s { state = state_idle }) (λ e. cc)))
            (split (is_word input auth) _ _ v
              (split (is_word input data_) _ _ (begin_data-Inv l a s _ refl v) v)))))

pub scan_header-forward_paths :
    (m : Mail) (input : Bytes) → (scan_header m input).forward_paths ≡ m.forward_paths
unfolding scan_header
scan_header-forward_paths m [] = ground arith
scan_header-forward_paths m (c ∷ cs) = ground arith

quiet-Inv :
    (s : Session) (m : Mail)
    → m.forward_paths ≡ s.current_mail.forward_paths
    → Inv s
    → Inv (record s { current_mail = m })
quiet-Inv s m e v = Inv-same s m s.state e v.fits v

text_line-Inv :
    (a : Answers) (s : Session) (input : Bytes) → Inv s → Inv (text_line a s input).session
unfolding text_line
text_line-Inv a s input v =
    quiet-Inv s _
      (mail_line-forward_paths a.heap (scan_header s.current_mail input) input
        ∙ scan_header-forward_paths s.current_mail input)
      v

dotted-Inv : (a : Answers) (s : Session) (input : Bytes) → Inv s → Inv (dotted a s input).session
unfolding dotted mail_reset
dotted-Inv a s [] v = HasNone-Inv _ (refl, λ e. cc)
dotted-Inv a s (c ∷ cs) v = quiet-Inv s _ (mail_line-forward_paths a.heap s.current_mail (c ∷ cs)) v

smtpstate_data-Inv :
    (a : Answers) (s : Session) (input : Bytes) → Inv s → Inv (smtpstate_data a s input).session
unfolding smtpstate_data
smtpstate_data-Inv a s [] v = text_line-Inv a s [] v
smtpstate_data-Inv a s (c ∷ cs) v =
    split (c == b'.') _ _ (dotted-Inv a s cs v) (text_line-Inv a s (c ∷ cs) v)

pub in_state-Inv :
    (st : SmtpState) (l : Listener) (a : Answers) (s : Session) (input : Bytes)
    → s.state ≡ st
    → Inv s
    → Inv (in_state st l a s input).session
unfolding in_state
in_state-Inv state_new l a s input st v =
    HasNone-Inv _ (smtpstate_new-HasNone l s input (none_of s st v refl))
in_state-Inv state_idle l a s input st v =
    HasNone-Inv _ (smtpstate_idle-HasNone l a s input (none_of s st v refl))
in_state-Inv state_auth l a s input st v =
    HasNone-Inv _ (smtpstate_auth-HasNone l a s input (none_of s st v refl))
in_state-Inv state_recipients l a s input st v = smtpstate_recipients-Inv l a s input st v
in_state-Inv state_data l a s input st v = smtpstate_data-Inv a s input v

-- Every line that a client sends, in any state and with any answers from outside, keeps the
-- invariant: outside a mail there are no recipients, a mail in the DATA state has at least one, and
-- each recipient's slot is in use, and has a router, or a domain while the session is authenticated.
pub client_line-Inv :
    (l : Listener) (a : Answers) (s : Session) (input : Bytes)
    → Inv s
    → Inv (client_line l a s input).session
unfolding client_line
client_line-Inv l a s input v = in_state-Inv s.state l a s input refl v
