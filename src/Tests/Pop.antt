-- ===== src/Tests/Pop.antt =====
-- The theorems about the POP3 server at concrete inputs.
use cmail.Base.{
  true, false, [], ◌∷◌, ◌++◌, some, none, ◌≡◌, refl, arith, Bytes, codes, pos, str_eq,
  has_prefix_ci,
}
use cmail.Net.{tls_none}
use cmail.Auth.Credentials.{auth_validate}
use cmail.Auth.Credentials.Exact.{Matches}
use cmail.Popd.Types.{Client, Listener, state_auth, state_transaction, empty_maildrop}
use cmail.Popd.Maildrop.{maildrop_read, maildrop_acquire, is_marked}
use cmail.Popd.Maildrop.Read.{mails_of, maildrop_read_appends}
use cmail.Popd.Maildrop.{maildrop_lock}
use cmail.Popd.Functions.Stuffing.{wire, unstuff, unstuff-send_mail}
use cmail.Popd.Types.{Database, done}
use cmail.Popd.Functions.{send_mail, pop_dele, pop_quit, may_log_in}
use cmail.Popd.Marks.{Agree, pop_dele-Agree}
use cmail.Popd.Marks.Quit.{Holds, keep, pop_quit_deletes}
use cmail.Popd.State.{client_line}
use cmail.Popd.Login.{pop_login_is_checked}
use cmail.Tests.Data.{pop_answers, pop_client, two_mails, hash, auth_query}

bob_agrees : Agree (codes "bob") pop_client
unfolding is_marked str_eq
bob_agrees = record { in_master = λ id. ground arith; in_user = λ id. ground arith }

pop_dele-Agree_example : Agree (codes "bob") (pop_dele pop_answers pop_client 1).client
pop_dele-Agree_example = pop_dele-Agree (codes "bob") pop_answers pop_client 1 refl refl bob_agrees

pop_quit_deletes_example : Holds (pop_quit pop_answers pop_client).client.database (7 ∷ []) (4 ∷ [])
unfolding keep
pop_quit_deletes_example =
    pop_quit_deletes (codes "bob") pop_answers pop_client refl refl refl refl refl bob_agrees

abbrev listener : Listener
listener = record { tls_mode = tls_none; tls_require = false }

-- behind USER bob
abbrev named : Client
named = record pop_client {
  state = state_auth;
  auth = record pop_client.auth {
    auth_ok = false;
    sasl = record pop_client.auth.sasl {
      user = record { authenticated = some (codes "bob"); authorized = none };
    };
  };
  maildrop = empty_maildrop;
  database = record pop_client.database {
    locks = record { pop_user = codes "bob"; pop_lock = false } ∷ [];
  };
}

enters :
    (client_line (codes "v") listener pop_answers named (codes "PASS pw")).client.state
    ≡ state_transaction
unfolding client_line has_prefix_ci auth_validate str_eq maildrop_acquire
enters = refl

pop_login_is_checked_example :
    (may_log_in listener named ≡ true) × ((password : Bytes) × Matches hash auth_query password)
pop_login_is_checked_example =
    pop_login_is_checked (codes "v") listener pop_answers named (codes "PASS pw") refl enters

maildrop_read_appends_example : maildrop_read pop_answers.list_master pop_client.maildrop true ≡ (
  record pop_client.maildrop { mails = two_mails ++ mails_of true pop_answers.list_master.rows },
  pos 101,
)
maildrop_read_appends_example =
    maildrop_read_appends pop_answers.list_master pop_client.maildrop true refl

unstuff-send_mail_example : unstuff 13 10 (wire (send_mail (codes "..a\r\n.b"))) ≡ codes "..a\r\n.b"
unstuff-send_mail_example = unstuff-send_mail (codes "..a\r\n.b")

abbrev unlocked : Database
unlocked = named.database

abbrev locked : Database
locked = (maildrop_lock done (some (codes "bob")) true unlocked).0

bob_locks : maildrop_lock done (some (codes "bob")) true unlocked ≡ (locked, pos 0)
unfolding maildrop_lock str_eq
bob_locks = refl
