-- ===== src/Smtpd/Relay.antt =====
-- cmail-smtpd/smtpstatemachine.c: the condition under which a recipient is accepted, as an invariant of
-- the session.
pub mod Rcpt
pub mod Quiet
pub mod Lines
pub mod Others
pub mod Foreign
pub mod Sound
use cmail.Base.{ℕ, Bool, true, List, [], Option, none, some, ◌≡◌, ◌≢◌, ◌⊎◌, All, get_elem?, is_some}
use cmail.Smtpd.Types.{MailPath}
use cmail.Smtpd.Session.{
  SmtpState, state_new, state_idle, state_auth, state_recipients, state_data, Session,
  is_authenticated,
}
use cmail.Smtpd.State.Recipients.{has_domain}

-- A recipient is local, or has a domain and was sent by an authenticated client.
abbrev pub MayReceive : Bool → Option MailPath → Type 0
MayReceive auth none = ⊥
MayReceive auth (some p) =
    (p.in_transaction ≡ true)
    × ((is_some p.route.router ≡ true) ⊎ ((has_domain p ≡ true) × (auth ≡ true)))

abbrev pub AllMayReceive : Bool → List MailPath → List ℕ → Type 0
AllMayReceive auth ps = All (λ i. MayReceive auth (get_elem? ps i))

-- The states in which a mail may have recipients, and the one in which it must.
abbrev pub Fits : SmtpState → List ℕ → Type 0
Fits state_recipients is = Unit
Fits state_data is = is ≢ []
Fits _ is = is ≡ []

pub record Inv (s : Session) : Type 0 where
  pub fits : Fits s.state s.current_mail.forward_paths
  pub recipients : AllMayReceive (is_authenticated s) s.pool.paths s.current_mail.forward_paths
