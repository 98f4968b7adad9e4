-- ===== src/Tests/Data.antt =====
-- A server with one local user, and a client of it.
use cmail.Base.{true, false, [], ◌∷◌, none, some, Bytes, codes, pos, List}
use cmail.Net.{tls_none}
use cmail.Auth.Credentials.{row, AuthQuery}
use cmail.Sasl.{sasl_invalid, no_user, Sasl}
use cmail.Smtpd.Types.{auth_any, no_route, Mail, reset_path}
use cmail.Smtpd.Session.{Listener, Session, Answers, state_new}
use cmail.Popd.Types as Pop
use cmail.Popd.Types.{PopMail, Client, state_auth, state_transaction, auth_user, done, attached}

abbrev pub hash : Bytes → Bytes → Bytes
hash salt password = password

-- salt `s`, password `pw`
abbrev pub auth_query : AuthQuery
auth_query = record { bind_ok = true; answer = row (some (codes "s:pw")) none; strdup_ok = true }

abbrev pub listener : Listener
listener = record {
  announce_domain = codes "mx";
  fixed_user = none;
  max_size = 1000;
  auth_require = true;
  suppress_submitter = false;
  auth_offer = auth_any;
  tls_mode = tls_none;
}

abbrev pub answers : Answers
answers = record {
  hash = hash;
  auth = auth_query;
  sasl_alloc = true;
  outbound = record { bind_ok = true; answer = none; router_alloc = true; argument_alloc = true };
  address = record {
    bind_ok = true;
    rows = record { router = codes "store"; argument = some (codes "bob") } ∷ [];
    complete = true;
    router_alloc = true;
    argument_alloc = true;
  };
  pool_alloc = record { realloc_ok = true; calloc_ok = true };
  header = record {
    time_text = some (codes "now");
    header_alloc = true;
    heaps = λ n. record { realloc_ok = true; junk = λ k. 0 };
  };
  heap = record { realloc_ok = true; junk = λ k. 0 };
  delivery = record { outbox = λ n. pos 0; local = λ n. pos 0 };
  tls_init = pos 0;
}

abbrev pub no_mail : Mail
no_mail = record {
  reverse_path = reset_path;
  forward_paths = [];
  data_allocated = 0;
  data_offset = 0;
  data_text = none;
  submitter = codes "peer";
  protocol = codes "smtp";
  message_id = [];
  data_max = 10;
  hop_count = 0;
  header_offset = 0;
}

abbrev pub no_sasl : Sasl
no_sasl = record { method = sasl_invalid; user = no_user }

abbrev pub fresh : Session
fresh = record {
  state = state_new;
  tls_mode = tls_none;
  connected = true;
  current_mail = no_mail;
  originating_route = no_route;
  sasl = no_sasl;
  pool = record { paths = []; lost = false };
}

abbrev pub two_mails : List PopMail
two_mails =
    record {
      database_id = 7;
      mail_size = 100;
      flag_master = true;
      flag_delete = false;
      message_id = codes "a";
    }
    ∷ record {
      database_id = 9;
      mail_size = 50;
      flag_master = true;
      flag_delete = true;
      message_id = codes "b";
    }
    ∷ []

abbrev pub pop_answers : Pop.Answers
pop_answers = record {
  hash = hash;
  auth_query = auth_query;
  sasl_alloc = true;
  strdup_ok = true;
  lock = done;
  list_master = record {
    bound = true;
    rows = record { mail_id = 7; size = 100; mail_ident = some (codes "a") } ∷ [];
  };
  attach = attached;
  list_user = record { bound = true; rows = [] };
  mark_deletion = done;
  unmark_master = done;
  unmark_user = done;
  delete_master = done;
  delete_user = done;
  unlock = done;
  fetch = none;
  tls_init = pos 0;
}

-- a client in the transaction state, whose second mail is flagged
abbrev pub pop_client : Client
pop_client = record {
  state = state_transaction;
  tls_mode = tls_none;
  connected = true;
  auth = record {
    method = auth_user;
    auth_ok = true;
    sasl = record {
      method = sasl_invalid;
      user = record { authenticated = some (codes "bob"); authorized = some (codes "bob") };
    };
  };
  maildrop = record { mails = two_mails; user_conn = true };
  database = record {
    locks = record { pop_user = codes "bob"; pop_lock = true } ∷ [];
    master = record {
      mailbox = 7 ∷ 9 ∷ [];
      deletions = record { user = codes "bob"; mail = 9 } ∷ [];
    };
    user_table = record { mailbox = 4 ∷ []; deletions = [] };
  };
}
