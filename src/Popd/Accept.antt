-- ===== src/Popd/Accept.antt =====
-- cmail-popd/client.c: client_accept.
use cmail.Base.{ℕ, true, false, List, [], ◌∷◌, Option, none, some, Bytes, ℤ, pos}
use cmail.Net.{TlsMode, tls_none, tls_negotiate, tls_only}
use cmail.Common.ConnPool.{Connection, ConnPool, pool_of}
use cmail.Common.Accept.{Incoming, Taken, undefined, refused, taken, take_slot, hold}
use cmail.Sasl.{sasl_invalid, no_user}
use cmail.Popd.Types.{
  Listener, Database, AuthData, auth_user, Reply, with_text, state_auth, empty_maildrop,
}
use cmail.Popd.Client.{Served}

abbrev pub cmail_max_concurrent_clients : ℕ
cmail_max_concurrent_clients = 128

pub record Arrival : Type 0 where
  pub incoming : Incoming
  pub time : ℕ
  pub tls_init : ℤ

abbrev pub first_mode : TlsMode → TlsMode
first_mode tls_only = tls_negotiate
first_mode mode = tls_none

abbrev pub fresh_auth : AuthData
fresh_auth = record {
  method = auth_user;
  auth_ok = false;
  sasl = record { method = sasl_invalid; user = no_user };
}

-- Nothing of the slot's old client is kept.
unfoldable pub new_client : Listener → Arrival → Database → Served
new_client l a d = record {
  client = record {
    state = state_auth;
    tls_mode = first_mode l.tls_mode;
    connected = true;
    auth = fresh_auth;
    maildrop = empty_maildrop;
    database = d;
  };
  connection_score = pos 0;
  last_action = a.time;
  sent = [];
}

pub record Accepted : Type 0 where
  pub clients : ConnPool Served
  pub sent : List Reply
  pub rv : ℤ

abbrev pub greet : Bytes → Arrival → TlsMode → List (Connection Served) → ℕ → Served → Accepted
greet announce_domain a tls_only cs i c = record {
  clients = pool_of (hold i c (some tls_negotiate) cs);
  sent = [];
  rv = a.tls_init;
}
greet announce_domain a mode cs i c = record {
  clients = pool_of (hold i c none cs);
  sent = with_text "+OK %s POP3 ready\r\n" announce_domain ∷ [];
  rv = pos 0;
}

-- `none` where the behaviour of C is undefined
abbrev pub on_taken : Bytes → Listener → Arrival → Database → Taken Served → Option Accepted
on_taken announce_domain l a d undefined = none
on_taken announce_domain l a d (refused clients rv) =
    some (record { clients = clients; sent = []; rv = rv })
on_taken announce_domain l a d (taken cs i old) =
    some (greet announce_domain a l.tls_mode cs i (new_client l a d))

unfoldable pub client_accept :
    Bytes → Listener → Arrival → Database → ConnPool Served → Option Accepted
unfolding take_slot new_client hold
client_accept announce_domain l a d clients =
    on_taken announce_domain l a d (take_slot cmail_max_concurrent_clients clients a.incoming)
