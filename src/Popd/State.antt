-- ===== src/Popd/State.antt =====
-- cmail-popd/popstatemachine.c, and client_line of client.c.
use cmail.Base.{
  ℕ, ◌%◌, Bool, true, false, not, ◌&&◌, ◌||◌, [], Option, none, some, if◌then◌else◌, drop, codes,
  pos, negsuc, is_some, Bytes, str_eq, has_prefix_ci, String, strtoul, is_negative,
}
use cmail.Net.{tls_negotiate}
use cmail.Auth.Credentials.{Validation, denied, granted, auth_validate, strdup}
use cmail.Sasl.{
  Sasl, SaslMethod, sasl_invalid, sasl_plain, SaslStatus, sasl_ok, sasl_error_processing,
  sasl_error_data, sasl_unknown_method, sasl_continue_, sasl_data_ok, sasl_continue, sasl_begin,
  sasl_reset_ctx,
}
use cmail.Sasl as SaslModule
use cmail.Smtpd.State.Auth.{strtok, Token}
use cmail.Popd.Types.{
  Client, Listener, Answers, Outcome, line, with_text, reply, PopState, state_auth,
  state_transaction, state_update, AuthMethod, auth_user, auth_sasl, auth_reset,
}
use cmail.Popd.Maildrop.{maildrop_acquire}
use cmail.Popd.Functions.{
  is_none, is_negotiate, may_log_in, pop_capa, pop_stat, pop_list, pop_uidl, pop_dele, pop_rset,
  pop_retr, pop_quit,
}

-- `!strncasecmp(client_data->recv_buffer, word, strlen(word))`
abbrev pub is_command : Bytes → String → Bool
is_command input w = has_prefix_ci (codes w) input

-- the argument of a command of four letters, as the `unsigned` that it is passed as
unfoldable pub mail_number : Bytes → ℕ
unfolding strtoul
mail_number input = strtoul (drop 4 input) % 4294967296

abbrev reset_auth : Client → Client
reset_auth c = record c { auth = auth_reset c.auth }

abbrev set_sasl : Client → Sasl → Client
set_sasl c sasl = record c { auth = record c.auth { sasl = sasl } }

-- behind a granted validation; the two callers differ in the reply for a failed allocation
unfoldable pub log_in : Answers → Client → String → Option Bytes → Outcome
log_in a c failure none = reply (reset_auth c) (line failure) (pos 0)
log_in a c failure (some user) =
    let known = record c {
      auth = record c.auth {
        auth_ok = true;
        sasl = record c.auth.sasl { user = record c.auth.sasl.user { authorized = some user } };
      };
    } in
    let (db, (drop, rv)) = maildrop_acquire a c.database c.maildrop (some user) in
    let acquired = record known { database = db; maildrop = drop } in
    if is_negative rv
    then reply (reset_auth acquired) (line "-ERR Failed to lock the maildrop\r\n") (pos 0)
    else reply (record acquired { state = state_transaction }) (line "+OK Lock and load\r\n")
        (pos 1)

unfoldable pub validated : Answers → Client → String → String → Validation → Outcome
unfolding log_in
validated a c refusal failure denied = reply (reset_auth c) (line refusal) (negsuc 0)
validated a c refusal failure (granted user) = log_in a c failure user

abbrev or_empty : Option Bytes → Bytes
or_empty none = []
or_empty (some t) = t

abbrev sasl_refused : Client → String → Outcome
sasl_refused c text = reply (reset_auth c) (line text) (negsuc 0)

-- the switch on a status; sasl_begin and sasl_continue never answer SASL_OK
unfoldable pub on_outcome : Answers → Client → SaslStatus → Option Bytes → Outcome
unfolding validated sasl_reset_ctx
on_outcome a c sasl_error_processing challenge = sasl_refused c "-ERR SASL Internal Error\r\n"
on_outcome a c sasl_error_data challenge = sasl_refused c "-ERR SASL Invalid data provided\r\n"
on_outcome a c sasl_unknown_method challenge = sasl_refused c "-ERR Unknown SASL mechanism\r\n"
on_outcome a c sasl_continue_ challenge =
    reply c (with_text "+ %s\r\n" (or_empty challenge)) (pos 0)
on_outcome a c sasl_data_ok challenge =
    validated a (set_sasl c (sasl_reset_ctx c.auth.sasl)) "-ERR Authentication failed\r\n"
      "-ERR Failed to allocate memory\r\n"
      (auth_validate a.hash a.auth_query c.auth.sasl.user.authenticated challenge)
on_outcome a c sasl_ok challenge = record { client = c; sent = []; rv = negsuc 0 }

abbrev on_call : Answers → Client → Sasl × SaslModule.Reply → Outcome
on_call a c (sasl, r) = on_outcome a (set_sasl c sasl) r.status r.response

unfoldable pub sasl_start : Answers → Client → Option Token → Outcome
unfolding on_outcome
sasl_start a c none = on_outcome a c sasl_unknown_method none
sasl_start a c (some t) = on_call a c (
    sasl_begin a.sasl_alloc t.token (elim (strtok t.rest) [ none ↦ none | some p ↦ some p.token ])
      c.auth.sasl)

unfoldable pub give_user : Answers → Client → Bytes → Outcome
give_user a c name =
    if is_some c.auth.sasl.user.authenticated
    then reply c (line "-ERR User already set\r\n") (negsuc 0)
    else let known = record c {
      auth = record c.auth {
        method = auth_user;
        sasl = record c.auth.sasl {
          user = record c.auth.sasl.user { authenticated = strdup a.strdup_ok name };
        };
      };
    } in
      if a.strdup_ok
      then reply known (line "+OK Go ahead\r\n") (pos 0)
      else reply known (line "-ERR Out of memory\r\n") (negsuc 0)

abbrev pub is_sasl : AuthMethod → Bool
is_sasl auth_sasl = true
is_sasl auth_user = false

unfoldable pub give_pass : Answers → Client → Bytes → Outcome
unfolding validated
give_pass a c password =
    if not (is_some c.auth.sasl.user.authenticated) || is_sasl c.auth.method
    then reply c (line "-ERR Not possible now\r\n") (negsuc 0)
    else validated a c "-ERR Login failed\r\n" "-ERR Internal error\r\n"
        (auth_validate a.hash a.auth_query c.auth.sasl.user.authenticated (some password))

-- the commands that need no login
unfoldable pub without_login : Bytes → Listener → Answers → Client → Bytes → Outcome
without_login version l a c input =
    if is_command input "capa"
    then pop_capa version l c
    else if is_command input "quit"
    then pop_quit a c
    else if is_command input "stls"
    then (if not (is_none c.tls_mode) || not (is_negotiate l.tls_mode)
        then reply c (line "-ERR Not possible now\r\n") (negsuc 0)
        else reply (record c { tls_mode = tls_negotiate }) (line "+OK Start TLS negotiation\r\n")
            a.tls_init)
    else if is_command input "xyzzy"
    then reply c (line "+OK Nothing happens\r\n") (pos 0)
    else reply c (line "-ERR Unkown command\r\n") (negsuc 0)

abbrev pub has_method : SaslMethod → Bool
has_method sasl_invalid = false
has_method sasl_plain = true

unfoldable pub with_login : Bytes → Listener → Answers → Client → Bytes → Outcome
unfolding sasl_start on_outcome give_user give_pass without_login
with_login version l a c input =
    if is_sasl c.auth.method && not c.auth.auth_ok
    then (if str_eq input (codes "*")
        then reply (reset_auth c) (line "-ERR Authentication canceled\r\n") (pos 0)
        else if has_method c.auth.sasl.method
        then on_call a c (sasl_continue a.sasl_alloc c.auth.sasl.method input c.auth.sasl)
        else reply (reset_auth c) (line "-ERR Invalid state\r\n") (negsuc 0))
    else if is_command input "auth "
    then sasl_start a (record c { auth = record c.auth { method = auth_sasl } })
        (strtok (drop 5 input))
    else if is_command input "user "
    then give_user a c (drop 5 input)
    else if is_command input "pass "
    then give_pass a c (drop 5 input)
    else without_login version l a c input

unfoldable pub state_authorization : Bytes → Listener → Answers → Client → Bytes → Outcome
unfolding with_login without_login
state_authorization version l a c input =
    if may_log_in l c then with_login version l a c input else without_login version l a c input

unfoldable pub transaction_line : Bytes → Listener → Answers → Client → Bytes → Outcome
unfolding mail_number
transaction_line version l a c input =
    if is_command input "capa"
    then pop_capa version l c
    else if is_command input "quit"
    then pop_quit a c
    else if is_command input "xyzzy"
    then reply c (line "+OK Nothing happens\r\n") (pos 0)
    else if is_command input "stat"
    then pop_stat c
    else if is_command input "list"
    then pop_list c (mail_number input)
    else if is_command input "retr"
    then pop_retr a c (mail_number input)
    else if is_command input "dele"
    then pop_dele a c (mail_number input)
    else if is_command input "uidl"
    then pop_uidl c (mail_number input)
    else if is_command input "rset"
    then pop_rset a c
    else if is_command input "noop"
    then reply c (line "+OK Nothing happens\r\n") (pos 0)
    else reply c (line "-ERR Unkown command\r\n") (negsuc 0)

unfoldable pub state_update_line : Answers → Client → Bytes → Outcome
state_update_line a c input =
    if is_command input "quit"
    then pop_quit a c
    else reply c (line "-ERR Unkown command\r\n") (negsuc 0)

unfoldable pub in_state : PopState → Bytes → Listener → Answers → Client → Bytes → Outcome
unfolding state_authorization transaction_line state_update_line
in_state state_auth version l a c input = state_authorization version l a c input
in_state state_transaction version l a c input = transaction_line version l a c input
in_state state_update version l a c input = state_update_line a c input

unfoldable pub client_line : Bytes → Listener → Answers → Client → Bytes → Outcome
unfolding in_state
client_line version l a c input = in_state c.state version l a c input
