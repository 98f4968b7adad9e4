-- ===== src/Popd/Login.antt =====
-- cmail-popd/popstatemachine.c: the ways into the transaction state.
use mathlib.Core.Path.{subst}
use cmail.Base.{
  Bool, true, false, not, ◌&&◌, ◌||◌, Option, none, some, ◌≡◌, refl, arith, Bytes, if_both,
  if◌then◌else◌, codes, str_eq, drop, String, sym, negsuc, is_some,
}
use cmail.Auth.Credentials.{Validation, denied, granted, auth_validate}
use cmail.Auth.Credentials.Exact.{Matches, auth_validate_sound}
use cmail.Sasl.{
  SaslStatus, sasl_ok, sasl_error_processing, sasl_error_data, sasl_unknown_method, sasl_continue_,
  sasl_data_ok,
}
use cmail.Smtpd.State.Auth.{Token, strtok}
use cmail.Popd.Types.{
  Client, Listener, Answers, Outcome, state_auth, state_transaction, reply, line,
}
use cmail.Popd.Functions.{may_log_in, pop_capa, pop_quit, quit_in, client_close}
use cmail.Popd.State.{
  client_line, in_state, state_authorization, with_login, without_login, validated, on_outcome,
  sasl_start, give_user, give_pass, is_command, has_method, is_sasl,
}

-- If the line enters the transaction state, then with a password that fits the user table.
abbrev IsChecked : Answers → Outcome → Type 0
IsChecked a o =
    o.client.state ≡ state_transaction → (password : Bytes) × Matches a.hash a.auth_query password

split :
    (a : Answers) (b : Bool) (x y : Outcome)
    → IsChecked a x
    → IsChecked a y
    → IsChecked a (if b then x else y)
split a = if_both (IsChecked a)

out : (a : Answers) (o : Outcome) → o.client.state ≡ state_auth → IsChecked a o
out a o e = λ k. absurd cc

validated-IsChecked :
    (a : Answers) (c : Client) (refusal failure : String) (user password : Option Bytes)
    (v : Validation)
    → c.state ≡ state_auth
    → auth_validate a.hash a.auth_query user password ≡ v
    → IsChecked a (validated a c refusal failure v)
unfolding validated auth_validate
validated-IsChecked a c x y user password denied st e = λ k. absurd cc
validated-IsChecked a c x y (some u) (some p) (granted r) st e =
    λ k. (p, auth_validate_sound a.hash a.auth_query u p {r = r} e)
validated-IsChecked a c x y none p (granted r) st e = absurd cc
validated-IsChecked a c x y (some u) none (granted r) st e = absurd cc

on_outcome-IsChecked :
    (a : Answers) (c : Client) (s : SaslStatus) (r : Option Bytes)
    → c.state ≡ state_auth
    → IsChecked a (on_outcome a c s r)
unfolding on_outcome
on_outcome-IsChecked a c sasl_data_ok r st =
    validated-IsChecked a _ _ _ c.auth.sasl.user.authenticated r _ st refl
on_outcome-IsChecked a c sasl_ok r st = λ k. absurd cc
on_outcome-IsChecked a c sasl_error_processing r st = λ k. absurd cc
on_outcome-IsChecked a c sasl_error_data r st = λ k. absurd cc
on_outcome-IsChecked a c sasl_unknown_method r st = λ k. absurd cc
on_outcome-IsChecked a c sasl_continue_ r st = λ k. absurd cc

sasl_start-IsChecked :
    (a : Answers) (c : Client) (t : Option Token)
    → c.state ≡ state_auth
    → IsChecked a (sasl_start a c t)
unfolding sasl_start
sasl_start-IsChecked a c none st = on_outcome-IsChecked a c sasl_unknown_method none st
sasl_start-IsChecked a c (some t) st = on_outcome-IsChecked a _ _ _ st

give_user-stays :
    (a : Answers) (c : Client) (name : Bytes)
    → c.state ≡ state_auth
    → (give_user a c name).client.state ≡ state_auth
unfolding give_user
give_user-stays a c name st = ground arith

give_pass-IsChecked :
    (a : Answers) (c : Client) (password : Bytes)
    → c.state ≡ state_auth
    → IsChecked a (give_pass a c password)
unfolding give_pass
give_pass-IsChecked a c password st =
    split a (not (is_some c.auth.sasl.user.authenticated) || is_sasl c.auth.method) _ _
      (out a (reply c (line "-ERR Not possible now\r\n") (negsuc 0)) st)
      (validated-IsChecked a c _ _ c.auth.sasl.user.authenticated (some password) _ st refl)

pop_quit-stays :
    (a : Answers) (c : Client) → c.state ≡ state_auth → (pop_quit a c).client.state ≡ state_auth
unfolding pop_quit quit_in client_close
pop_quit-stays a c st = ground arith

without_login-stays :
    (version : Bytes) (l : Listener) (a : Answers) (c : Client) (input : Bytes)
    → c.state ≡ state_auth
    → (without_login version l a c input).client.state ≡ state_auth
unfolding without_login pop_capa
without_login-stays version l a c input st = ground (arith, pop_quit-stays a c st)

with_login-IsChecked :
    (version : Bytes) (l : Listener) (a : Answers) (c : Client) (input : Bytes)
    → c.state ≡ state_auth
    → IsChecked a (with_login version l a c input)
unfolding with_login
with_login-IsChecked version l a c input st =
    split a (is_sasl c.auth.method && not c.auth.auth_ok) _ _
      (split a (str_eq input (codes "*")) _ _ (λ k. absurd cc)
        (split a (has_method c.auth.sasl.method) _ _ (on_outcome-IsChecked a _ _ _ st)
          (λ k. absurd cc)))
      (split a (is_command input "auth ") _ _ (sasl_start-IsChecked a _ (strtok (drop 5 input)) st)
        (split a (is_command input "user ") _ _
          (out a (give_user a c (drop 5 input)) (give_user-stays a c (drop 5 input) st))
          (split a (is_command input "pass ") _ _ (give_pass-IsChecked a c (drop 5 input) st) (
            out a (without_login version l a c input)
              (without_login-stays version l a c input st)))))

-- A line in the authorization state that enters the transaction state was sent over TLS or to a
-- listener that does not require it; and the user table has answered with a row, and there is a
-- password for which the row holds the salt and the digest.
pub pop_login_is_checked :
    (version : Bytes) (l : Listener) (a : Answers) (c : Client) (input : Bytes)
    → c.state ≡ state_auth
    → (client_line version l a c input).client.state ≡ state_transaction
    → (may_log_in l c ≡ true) × ((password : Bytes) × Matches a.hash a.auth_query password)
unfolding client_line in_state state_authorization
pop_login_is_checked version l a c input st =
    subst (λ s. Goal (in_state s version l a c input)) (sym st)
      (authorization (may_log_in l c) refl)
  where
    Goal : Outcome → Type 0
    Goal o =
        o.client.state ≡ state_transaction
        → (may_log_in l c ≡ true) × ((password : Bytes) × Matches a.hash a.auth_query password)

    authorization :
        (b : Bool)
        → may_log_in l c ≡ b
        → Goal (if b then with_login version l a c input else without_login version l a c input)
    authorization true e k = (e, with_login-IsChecked version l a c input st k)
    authorization false e k = let stays = without_login-stays version l a c input st in absurd cc
