-- ===== src/Smtpd/Accept.antt =====
-- cmail-smtpd/client.c: client_accept and client_resolve.
pub mod Fresh
use cmail.Base.{
  ℕ, Bool, true, ◌&&◌, List, [], ◌∷◌, Option, none, some, if◌then◌else◌, Bytes, codes, ℤ, pos,
  negsuc,
}
use cmail.Net.{TlsMode, tls_none, tls_negotiate, tls_only}
use cmail.Auth.Credentials.{strdup}
use cmail.Sasl.{SaslUser, Sasl, sasl_invalid, no_user}
use cmail.Common.ConnPool.{Connection, ConnPool, pool_of}
use cmail.Common.Accept.{Incoming, Taken, undefined, refused, taken, take_slot, hold}
use cmail.Smtpd.Types.{Mail, MailRoute, reset_path, no_route}
use cmail.Smtpd.PathPool.{PathPool}
use cmail.Smtpd.Resolve.{RouteQuery, route_query}
use cmail.Smtpd.Session.{Session, Listener, Reply, with_text, state_new}
use cmail.Smtpd.Client.{Client}

abbrev pub cmail_max_concurrent_clients : ℕ
cmail_max_concurrent_clients = 64

-- What the libraries answer: the time, the name of the peer if it can be had, the copies of the fixed
-- user, its outbound route, and tls_init_serverpeer.
pub record Arrival : Type 0 where
  pub incoming : Incoming
  pub time : ℕ
  pub peer : Option Bytes
  pub copies_authenticated : Bool
  pub copies_authorized : Bool
  pub outbound : RouteQuery
  pub tls_init : ℤ

-- The name that client_resolve stores; without one it stays as it was set, empty.
unfoldable pub client_resolve : Option Bytes → Bytes
client_resolve none = []
client_resolve (some name) = name

-- The data block that the slot's client has left, with nothing in it
abbrev pub old_block : Option Client → Option Bytes
old_block none = none
old_block (some c) = elim c.session.current_mail.data_text [ none ↦ none | some t ↦ some [] ]

abbrev pub old_size : Option Client → ℕ
old_size none = 0
old_size (some c) = c.session.current_mail.data_allocated

abbrev pub fresh_mail : Listener → Bytes → Option Client → Mail
fresh_mail l peer_name old = record {
  reverse_path = reset_path;
  forward_paths = [];
  data_allocated = old_size old;
  data_offset = 0;
  data_text = old_block old;
  submitter = peer_name;
  protocol = codes "unknown";
  message_id = [];
  data_max = l.max_size;
  hop_count = 0;
  header_offset = 0;
}

-- The SASL user of a listener with a fixed one
abbrev pub user_of : Arrival → Option Bytes → SaslUser
user_of a none = no_user
user_of a (some fixed) = record {
  authenticated = strdup a.copies_authenticated fixed;
  authorized = strdup a.copies_authorized fixed;
}

-- The route of the fixed user, if both copies were made
abbrev pub route_of : Arrival → Option Bytes → MailRoute
route_of a none = no_route
route_of a (some fixed) =
    if a.copies_authenticated && a.copies_authorized
    then route_query a.outbound (some fixed)
    else no_route

abbrev pub first_mode : TlsMode → TlsMode
first_mode tls_only = tls_negotiate
first_mode mode = tls_none

unfoldable pub new_client : Listener → Arrival → PathPool → Option Client → Client
unfolding client_resolve route_query
new_client l a pool old = record {
  session = record {
    state = state_new;
    tls_mode = first_mode l.tls_mode;
    connected = true;
    current_mail = fresh_mail l (client_resolve a.peer) old;
    originating_route = route_of a l.fixed_user;
    sasl = record { method = sasl_invalid; user = user_of a l.fixed_user };
    pool = pool;
  };
  connection_score = pos 0;
  last_action = a.time;
  sent = [];
}

pub record Accepted : Type 0 where
  pub clients : ConnPool Client
  pub sent : List Reply
  pub rv : ℤ

abbrev pub greet : Listener → Arrival → TlsMode → List (Connection Client) → ℕ → Client → Accepted
greet l a tls_only cs i c = record {
  clients = pool_of (hold i c (some tls_negotiate) cs);
  sent = [];
  rv = a.tls_init;
}
greet l a mode cs i c = record {
  clients = pool_of (hold i c none cs);
  sent = with_text "220 %s ESMTP service ready\r\n" l.announce_domain ∷ [];
  rv = pos 0;
}

-- `none` where the behaviour of C is undefined
abbrev pub on_taken : Listener → Arrival → PathPool → Taken Client → Option Accepted
on_taken l a pool undefined = none
on_taken l a pool (refused clients rv) = some (record { clients = clients; sent = []; rv = rv })
on_taken l a pool (taken cs i old) = some (greet l a l.tls_mode cs i (new_client l a pool old))

unfoldable pub client_accept : Listener → Arrival → PathPool → ConnPool Client → Option Accepted
unfolding take_slot new_client hold
client_accept l a pool clients =
    on_taken l a pool (take_slot cmail_max_concurrent_clients clients a.incoming)
