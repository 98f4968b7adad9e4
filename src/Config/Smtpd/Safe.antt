-- ===== src/Config/Smtpd/Safe.antt =====
-- cmail-smtpd/config.c: the listeners that a configuration file makes.
use cmail.Base.{
  ℕ, Bool, true, false, ◌||◌, List, [], ◌∷◌, Option, none, some, ◌≡◌, refl, arith, if_both, Bytes,
  codes, drop, str_eq, ℤ, is_some,
}
use cmail.Net.{TlsMode}
use cmail.Smtpd.Types.{auth_any}
use cmail.Config.File.{tokens, split_directive, config_parse}
use cmail.Config.File.Keeps.{config_parse-keeps}
use cmail.Config.Daemon.{Env, starts}
use cmail.Config.Listen.{Network, tls_settings, first, others}
use cmail.Config.Listen.Keeps.{AllListen, listen-keeps}
use cmail.Config.Listen.Tls.{HasCert, TlsOk, tls_settings-TlsOk}
use cmail.Config.Smtpd.{
  Settings, Configuration, Bind, empty_bind, auth_param, auth_params, auth_token, bind_param,
  on_port, bind_params, copy_user, copy_texts, copied_settings, on_tls, config_bind, config_line,
}

-- A listener with a user that is set requires authentication.
abbrev pub RequiresLogin : Settings → Type 0
RequiresLogin s = is_some s.fixed_user ≡ true → s.auth_require ≡ true

abbrev pub IsSafe : Settings → TlsMode → Type 0
IsSafe s m = RequiresLogin s × HasCert s.tls_cert m

auth_param-RequiresLogin :
    (s : Settings) (t : Bytes) → RequiresLogin s → RequiresLogin (auth_param s t)
unfolding auth_param
auth_param-RequiresLogin s t h = if_both RequiresLogin (str_eq t (codes "tlsonly")) _ _ h (
    if_both RequiresLogin (str_eq t (codes "strict")) _ _ (λ e. refl)
      (if_both RequiresLogin (str_eq t (codes "private")) _ _ h
        (if_both RequiresLogin (starts "fixed@" t) _ _ (λ e. refl) h)))

auth_params-RequiresLogin :
    (s : Settings) (ts : List Bytes) → RequiresLogin s → RequiresLogin (auth_params s ts)
unfolding auth_params
auth_params-RequiresLogin s [] h = h
auth_params-RequiresLogin s (t ∷ ts) h =
    auth_params-RequiresLogin (auth_param s t) ts (auth_param-RequiresLogin s t h)

auth_token-RequiresLogin :
    (s : Settings) (t : Bytes) → RequiresLogin s → RequiresLogin (auth_token s t)
unfolding auth_token
auth_token-RequiresLogin s t h =
    if_both RequiresLogin (starts "auth=" t) _ _
      (auth_params-RequiresLogin (record s { auth_offer = auth_any }) (tokens b',' (drop 5 t)) h) h

abbrev BindOk : Bind → Type 0
BindOk b = RequiresLogin b.settings

bind_param-BindOk : (b : Bind) (t : Bytes) → BindOk b → BindOk (bind_param b t)
unfolding bind_param
bind_param-BindOk b t h = if_both BindOk (starts "cert=" t) _ _ h (
    if_both BindOk (starts "key=" t) _ _ h (
      if_both BindOk (str_eq t (codes "tlsonly")) _ _ h (
        if_both BindOk (starts "ciphers=" t) _ _ h (
          if_both BindOk (starts "dhparams=" t) _ _ h (
            if_both BindOk (starts "auth" t) _ _ (auth_token-RequiresLogin b.settings t h) (
              if_both BindOk (starts "announce=" t) _ _ h
                (if_both BindOk (starts "size=" t) _ _ h h)))))))

bind_params-BindOk : (b : Bind) (ts : List Bytes) → BindOk b → BindOk (bind_params b ts)
unfolding bind_params
bind_params-BindOk b [] h = h
bind_params-BindOk b (t ∷ ts) h = bind_params-BindOk (on_port b t b.port) ts (go b.port)
  where
    go : (o : Option Bytes) → BindOk (on_port b t o)
    go none = h
    go (some p) = bind_param-BindOk b t h

copied_settings-IsSafe :
    (e : Env) (s : Settings) (m : TlsMode) → IsSafe s m → IsSafe (copied_settings e s).0 m
unfolding copied_settings
copied_settings-IsSafe e s m h = texts s.announce_domain
  where
    user : (o : Option Bytes) → IsSafe (copy_user e s o).0 m
    user none = h
    user (some u) =
        if_both (λ (r : Settings × Bool). IsSafe r.0 m) (e.strdup u) (s, true)
          (record s { fixed_user = none }, false) h ((λ k. ground (arith, k)), h.1)

    texts : (o : Option Bytes) → IsSafe (copy_texts e s o).0 m
    texts none = h
    texts (some domain) =
        if_both (λ (r : Settings × Bool). IsSafe r.0 m) (e.strdup domain)
          (copy_user e s s.fixed_user) (record s { announce_domain = none }, false)
          (user s.fixed_user) h

-- Every listener of a configuration is safe.
abbrev pub ListenersSafe : Configuration → Type 0
ListenersSafe c = AllListen IsSafe c.listeners.conns

config_bind-ListenersSafe :
    (e : Env) (n : Network) (c : Configuration) (params : Bytes)
    → ListenersSafe c
    → ListenersSafe (config_bind e n c params).0
unfolding config_bind
config_bind-ListenersSafe e n c params h =
    go (tls_settings n (bound).tls) (tls_settings-TlsOk n bound.tls)
  where
    words : List Bytes
    words = tokens b' ' params

    bound : Bind
    bound = bind_params empty_bind (others words)

    copied : TlsMode → Option ℕ → Settings × Bool
    copied m cert = copied_settings e (record bound.settings { tls_cert = cert })

    go :
        (r : Option (TlsMode × Option ℕ))
        → TlsOk r
        → ListenersSafe (on_tls e n c (first words) bound r).0
    go none k = h
    go (some (m, cert)) k =
        listen-keeps IsSafe (λ a m s. (s.0, tt)) n (first words) bound.port m (copied m cert).0
          (copied m cert).1 c.listeners h
          (copied_settings-IsSafe e (record bound.settings { tls_cert = cert }) m
            (bind_params-BindOk empty_bind (others words) (λ k. ground (arith, k)), k))

config_line-ListenersSafe :
    (e : Env) (n : Network) (c : Configuration) (line : Bytes)
    → ListenersSafe c
    → ListenersSafe (config_line e n c line).0
unfolding config_line
config_line-ListenersSafe e n c line h =
    let (directive, params) = split_directive line in
    if_both Safe (starts "bind" directive) _ _ (config_bind-ListenersSafe e n c params h) (
      if_both Safe (starts "user" directive || starts "group" directive) _ _ h (
        if_both Safe (starts "database" directive) _ _ h (
          if_both Safe (starts "verbosity" directive || starts "logfile" directive) _ _ h
            (if_both Safe (starts "pidfile" directive) _ _ h h))))
  where
    Safe : Configuration × ℤ → Type 0
    Safe r = ListenersSafe r.0

-- Whatever the file says and the system answers, each listener that is made speaks TLS only with
-- credentials, and requires authentication if its user is fixed; also where the file is refused.
pub config_parse-ListenersSafe :
    (e : Env) (n : Network) (errno : Bool) (file : Option Bytes) (c : Configuration)
    → ListenersSafe c
    → ListenersSafe (config_parse (config_line e n) errno file c).0
config_parse-ListenersSafe e n errno file c h =
    config_parse-keeps ListenersSafe (config_line e n) errno (config_line-ListenersSafe e n) file c
      h
