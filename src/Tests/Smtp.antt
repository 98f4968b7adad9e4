-- ===== src/Tests/Smtp.antt =====
-- The theorems about the SMTP server at concrete inputs.
use cmail.Base.{
  ℕ, true, false, [], ◌∷◌, ◌≢◌, some, ◌≡◌, refl, arith, Bytes, codes, length, All, get_elem?,
  has_prefix_ci, str_eq,
}
use cmail.Auth.Credentials.{auth_validate}
use cmail.Auth.Base64.{auth_base64decode}
use cmail.Sasl.{sasl_begin, sasl_scan_method}
use cmail.Smtpd.Types.{reset_path, MailPath, Mail, smtp_max_path_length}
use cmail.Smtpd.Path.{path_parse, rejected}
use cmail.Smtpd.Path.Bounds.{Outcome, path_parse-Outcome}
use cmail.Smtpd.Path.Address.Stale.{path_parse_stale}
use cmail.Smtpd.PathPool.{PathPool, pathpool_get}
use cmail.Smtpd.PathPool.Slots.{busy}
use cmail.Smtpd.Mail.{mail_reset}
use cmail.Smtpd.Mail.Lines.{HasRoom}
use cmail.Smtpd.Mail.Reset.{IsOutside, mail_reset_returns}
use cmail.Smtpd.Session.{Session, Listener, state_idle, state_recipients, is_authenticated, is_word}
use cmail.Smtpd.State.{client_line}
use cmail.Smtpd.State.Guards.{auth_require_holds}
use cmail.Smtpd.State.Guards.Login.{IsVerified, login_is_checked}
use cmail.Smtpd.State.Idle.{smtpstate_idle}
use cmail.Smtpd.State.New.{smtpstate_new}
use cmail.Smtpd.State.Recipients.{smtpstate_recipients}
use cmail.Smtpd.State.Auth.{smtpstate_auth, strtok}
use cmail.Smtpd.Resolve.{path_resolve, pick_row}
use cmail.Smtpd.Relay.{Inv}
use cmail.Smtpd.Relay.Quiet.{HasNone, HasNone-Inv}
use cmail.Smtpd.Relay.Lines.{client_line-Inv}
use cmail.Tests.Data.{fresh, listener, answers, no_mail}

abbrev open_listener : Listener
open_listener = record listener { auth_require = false }

-- behind EHLO, MAIL FROM and RCPT TO
abbrev greeted : Session
greeted = (client_line open_listener answers fresh (codes "EHLO x")).session

abbrev from_alice : Session
from_alice = (client_line open_listener answers greeted (codes "MAIL FROM:<alice@x>")).session

abbrev to_bob : Session
to_bob = (client_line open_listener answers from_alice (codes "RCPT TO:<bob@y>")).session

to_bob-recipients : to_bob.current_mail.forward_paths ≡ 0 ∷ []
unfolding client_line smtpstate_new is_word has_prefix_ci smtpstate_idle path_parse reset_path
    path_resolve pick_row str_eq smtpstate_recipients pathpool_get
to_bob-recipients = refl

to_bob-unknown : is_authenticated to_bob ≡ false
unfolding client_line smtpstate_new is_word has_prefix_ci smtpstate_idle path_parse reset_path
    path_resolve pick_row str_eq smtpstate_recipients pathpool_get
to_bob-unknown = refl

fresh-HasNone : HasNone fresh
fresh-HasNone = (refl, λ e. cc)

greeted-Inv : Inv greeted
greeted-Inv =
    client_line-Inv open_listener answers fresh (codes "EHLO x") (HasNone-Inv fresh fresh-HasNone)

from_alice-Inv : Inv from_alice
from_alice-Inv =
    client_line-Inv open_listener answers greeted (codes "MAIL FROM:<alice@x>") greeted-Inv

client_line-Inv_example : Inv to_bob
client_line-Inv_example =
    client_line-Inv open_listener answers from_alice (codes "RCPT TO:<bob@y>") from_alice-Inv

abbrev idle : Session
idle = record fresh { state = state_idle }

logged_in :
    is_authenticated (client_line listener answers idle (codes "AUTH PLAIN AHUAcHc=")).session
    ≡ true
unfolding client_line smtpstate_idle is_word has_prefix_ci smtpstate_auth strtok sasl_begin
    sasl_scan_method auth_base64decode auth_validate str_eq
logged_in = refl

login_is_checked_example :
    (password : Bytes) × IsVerified answers
      (client_line listener answers idle (codes "AUTH PLAIN AHUAcHc=")).session
      password
login_is_checked_example =
    login_is_checked listener answers idle (codes "AUTH PLAIN AHUAcHc=") refl logged_in

auth_require_holds_example :
    (smtpstate_idle listener answers idle (codes "MAIL FROM:<a@b>")).session.state
    ≢ state_recipients
auth_require_holds_example =
    auth_require_holds listener answers idle (codes "MAIL FROM:<a@b>") refl refl refl

reset_path-size : length reset_path.path ≡ smtp_max_path_length
unfolding reset_path
reset_path-size = refl

reset_path-clear : reset_path.delimiter_position ≡ 0
unfolding reset_path
reset_path-clear = refl

path_parse-Outcome_example : Outcome (path_parse (codes " <a(x)@b\\") reset_path)
path_parse-Outcome_example =
    path_parse-Outcome (codes " <a(x)@b\\") reset_path reset_path-size reset_path-clear

abbrev stale : MailPath
stale = record reset_path { delimiter_position = 4 }

path_parse_stale_example :
    (q : MailPath) × (path_parse (codes "<bob@y>") stale ≡ rejected q) × (q.delimiter_position ≡ 4)
path_parse_stale_example =
    path_parse_stale b'b' (codes "ob") (codes "y") [] stale reset_path-size
      (λ e. absurd (omega arith)) (ground arith) (omega arith)

abbrev one_path : PathPool
one_path = record { paths = record reset_path { in_transaction = true } ∷ []; lost = false }

second_slot : (pathpool_get answers.pool_alloc one_path).0 ≡ some 1
unfolding pathpool_get
second_slot = refl

-- a mail with the text `ab` in a block of eight bytes, for the recipient in slot 0
abbrev short_mail : Mail
short_mail = record no_mail {
  forward_paths = 0 ∷ [];
  data_allocated = 8;
  data_offset = 2;
  data_text = some (codes "ab");
}

short_mail-HasRoom : HasRoom short_mail
short_mail-HasRoom = record { allocated = omega arith; block = (refl, omega arith) }

mail_reset_returns_example :
    ((mail_reset short_mail one_path).0.forward_paths ≡ [])
    × All (λ i. busy (mail_reset short_mail one_path).1.paths i ≢ some true) (0 ∷ [])
    × ((i : ℕ)
        → IsOutside i (0 ∷ [])
        → get_elem? (mail_reset short_mail one_path).1.paths i ≡ get_elem? one_path.paths i)
    × HasRoom (mail_reset short_mail one_path).0
mail_reset_returns_example = mail_reset_returns short_mail one_path short_mail-HasRoom

after_reset : (mail_reset short_mail one_path).0.data_max ≡ 0
unfolding mail_reset
after_reset = refl
