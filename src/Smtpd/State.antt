-- ===== src/Smtpd/State.antt =====
-- cmail-smtpd/smtpstatemachine.c: a function for each state, over the C string in the receive
-- buffer, and client_line of client.c, which chooses between them.
pub mod New
pub mod Auth
pub mod Idle
pub mod Recipients
pub mod Data
pub mod Close
pub mod Guards
use cmail.Base.{Bytes}
use cmail.Smtpd.Session.{
  Session, Listener, Answers, Outcome, SmtpState, state_new, state_idle, state_auth,
  state_recipients, state_data,
}
use New.{smtpstate_new}
use Auth.{smtpstate_auth}
use Idle.{smtpstate_idle}
use Recipients.{smtpstate_recipients}
use Data.{smtpstate_data}

unfoldable pub in_state : SmtpState → Listener → Answers → Session → Bytes → Outcome
in_state state_new l a s input = smtpstate_new l s input
in_state state_idle l a s input = smtpstate_idle l a s input
in_state state_auth l a s input = smtpstate_auth l a s input
in_state state_recipients l a s input = smtpstate_recipients l a s input
in_state state_data l a s input = smtpstate_data a s input

unfoldable pub client_line : Listener → Answers → Session → Bytes → Outcome
unfolding in_state
client_line l a s input = in_state s.state l a s input
