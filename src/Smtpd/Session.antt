-- ===== src/Smtpd/Session.antt =====
-- The state of one SMTP connection (CLIENT and CONNECTION of smtpd.h and network.h), what the
-- commands are told from outside, and what they send. `connected` is `client->fd != -1`.
use cmail.Base.{ℕ, Bool, List, [], ◌∷◌, Option, String, Bytes, ℤ, codes, has_prefix_ci, is_some}
use cmail.Net.{TlsMode}
use cmail.Auth.Credentials.{AuthQuery}
use cmail.Sasl.{Sasl}
use cmail.Smtpd.Types.{Mail, MailRoute, AuthOffer}
use cmail.Smtpd.PathPool.{PathPool, PoolAlloc}
use cmail.Smtpd.Mail.{Heap, HeaderAnswers}
use cmail.Smtpd.Resolve.{AddressQuery, RouteQuery}

pub data SmtpState : Type 0 where
  state_new state_idle state_auth state_recipients state_data : SmtpState

pub record Listener : Type 0 where
  pub announce_domain : Bytes
  pub fixed_user : Option Bytes
  pub max_size : ℕ
  pub auth_require : Bool
  pub suppress_submitter : Bool
  pub auth_offer : AuthOffer
  pub tls_mode : TlsMode

-- The path pool is shared by all clients, and stands in the session of the one that is served.
pub record Session : Type 0 where
  pub state : SmtpState
  pub tls_mode : TlsMode
  pub connected : Bool
  pub current_mail : Mail
  pub originating_route : MailRoute
  pub sasl : Sasl
  pub pool : PathPool

-- The answers of mail_store_outbox and route_local_path for the recipient at each position.
pub record Delivery : Type 0 where
  pub outbox : ℕ → ℤ
  pub local : ℕ → ℤ

-- What the libraries answer while one line is handled.
pub record Answers : Type 0 where
  pub hash : Bytes → Bytes → Bytes
  pub auth : AuthQuery
  pub sasl_alloc : Bool
  pub outbound : RouteQuery
  pub address : AddressQuery
  pub pool_alloc : PoolAlloc
  pub header : HeaderAnswers
  pub heap : Heap
  pub delivery : Delivery
  pub tls_init : ℤ

-- client_send with its format, and its argument if it has one
pub data Reply : Type 0 where
  line : String → Reply
  with_text : String → Bytes → Reply
  with_number : String → ℕ → Reply

pub record Outcome : Type 0 where
  pub session : Session
  pub sent : List Reply
  pub rv : ℤ

abbrev pub reply : Session → Reply → ℤ → Outcome
reply s r rv = record { session = s; sent = r ∷ []; rv = rv }

-- the words that lines are compared with
pub data Word : Type 0 where
  ehlo helo noop rset starttls auth_ auth xyzzy quit rcpt_ mail_from vrfy_ expn_ rcpt_to data_ :
      Word

abbrev pub spelling : Word → String
spelling ehlo = "ehlo "
spelling helo = "helo "
spelling noop = "noop"
spelling rset = "rset"
spelling starttls = "starttls"
spelling auth_ = "auth "
spelling auth = "auth"
spelling xyzzy = "xyzzy"
spelling quit = "quit"
spelling rcpt_ = "rcpt "
spelling mail_from = "mail from:"
spelling vrfy_ = "vrfy "
spelling expn_ = "expn "
spelling rcpt_to = "rcpt to:"
spelling data_ = "data"

-- `!strncasecmp(client_data->recv_buffer, word, strlen(word))`
unfoldable pub is_word : Bytes → Word → Bool
is_word input w = has_prefix_ci (codes (spelling w)) input

abbrev pub is_authenticated : Session → Bool
is_authenticated s = is_some s.sasl.user.authenticated
