-- ===== src/Popd/Types.antt =====
-- cmail-popd/popd.h and poplimits.h: the structures of the POP3 server, and the tables that its SQL
-- statements (in database.c and maildrop.c) work on.
use cmail.Base.{ℕ, Bool, false, List, [], ◌∷◌, Option, String, Bytes, ℤ}
use cmail.Net.{TlsMode}
use cmail.Auth.Credentials.{AuthQuery}
use cmail.Sasl.{Sasl, sasl_invalid, no_user}

abbrev pub pop_messageid_max : ℕ
pop_messageid_max = 70

abbrev pub cmail_maildrop_chunk : ℕ
cmail_maildrop_chunk = 10

-- POP_MAIL; `message_id` is the C string in the array. The ids and sizes are the table's, which are
-- not negative.
pub record PopMail : Type 0 where
  pub database_id : ℕ
  pub mail_size : ℕ
  pub flag_master : Bool
  pub flag_delete : Bool
  pub message_id : Bytes

-- MAILDROP: `count` is the length of `mails`, and `user_conn` says that a user database is open.
pub record Maildrop : Type 0 where
  pub mails : List PopMail
  pub user_conn : Bool

pub data AuthMethod : Type 0 where
  auth_user auth_sasl : AuthMethod

pub data PopState : Type 0 where
  state_auth state_transaction state_update : PopState

-- AUTH_DATA; the context `ctx` and the user stand together in `sasl`.
pub record AuthData : Type 0 where
  pub method : AuthMethod
  pub auth_ok : Bool
  pub sasl : Sasl

-- a row of `mailbox` as the list statements return it, and one of `temp.deletions`
pub record MailRow : Type 0 where
  pub mail_id : ℕ
  pub size : ℕ
  pub mail_ident : Option Bytes

pub record Mark : Type 0 where
  pub user : Bytes
  pub mail : ℕ

-- One database: the mails in it, and the table of deletions of this process.
pub record Table : Type 0 where
  pub mailbox : List ℕ
  pub deletions : List Mark

-- a row of the table `popd`
pub record Lock : Type 0 where
  pub pop_user : Bytes
  pub pop_lock : Bool

pub record Database : Type 0 where
  pub locks : List Lock
  pub master : Table
  pub user_table : Table

pub record Client : Type 0 where
  pub state : PopState
  pub tls_mode : TlsMode
  pub connected : Bool
  pub auth : AuthData
  pub maildrop : Maildrop
  pub database : Database

pub record Listener : Type 0 where
  pub tls_mode : TlsMode
  pub tls_require : Bool

-- How a statement ends: a parameter is not bound, the step fails, or it is done.
pub data Exec : Type 0 where
  bind_failed step_failed done : Exec

-- The rows of a list statement; `bound` is the result of sqlite3_bind_text.
pub record Listing : Type 0 where
  pub bound : Bool
  pub rows : List MailRow

-- How maildrop_user_attach ends: with the user's database, without one, or with an error, which may
-- leave the connection open.
pub data Attach : Type 0 where
  attached no_user_database : Attach
  attach_failed : Bool → Attach

-- What the libraries answer while one line is handled.
pub record Answers : Type 0 where
  pub hash : Bytes → Bytes → Bytes
  pub auth_query : AuthQuery
  pub sasl_alloc : Bool
  pub strdup_ok : Bool
  pub lock : Exec
  pub list_master : Listing
  pub attach : Attach
  pub list_user : Listing
  pub mark_deletion : Exec
  pub unmark_master : Exec
  pub unmark_user : Exec
  pub delete_master : Exec
  pub delete_user : Exec
  pub unlock : Exec
  pub fetch : Option (Option Bytes)
  pub tls_init : ℤ

-- client_send with its format and its arguments, and client_send_raw
pub data Reply : Type 0 where
  line : String → Reply
  with_text : String → Bytes → Reply
  with_numbers : String → ℕ → ℕ → Reply
  with_ident : String → ℕ → Bytes → Reply
  raw : Bytes → Reply

pub record Outcome : Type 0 where
  pub client : Client
  pub sent : List Reply
  pub rv : ℤ

abbrev pub reply : Client → Reply → ℤ → Outcome
reply c r rv = record { client = c; sent = r ∷ []; rv = rv }

-- cmail-popd/auth.c
unfoldable pub auth_reset : AuthData → AuthData
auth_reset d = record {
  method = auth_user;
  auth_ok = false;
  sasl = record { method = sasl_invalid; user = no_user };
}

abbrev pub empty_maildrop : Maildrop
empty_maildrop = record { mails = []; user_conn = false }
