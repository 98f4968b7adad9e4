-- ===== src/Config/Popd/Safe.antt =====
-- cmail-popd/config.c: the listeners that a configuration file makes.
use cmail.Base.{ℕ, Bool, true, false, ◌||◌, List, Option, none, some, if_both, Bytes, ℤ}
use cmail.Net.{TlsMode}
use cmail.Config.File.{tokens, split_directive, config_parse}
use cmail.Config.File.Keeps.{config_parse-keeps}
use cmail.Config.Daemon.{Env, starts}
use cmail.Config.Listen.{Network, tls_settings, first, others}
use cmail.Config.Listen.Keeps.{AllListen, listen-keeps}
use cmail.Config.Listen.Tls.{HasCert, TlsOk, tls_settings-TlsOk}
use cmail.Config.Popd.{
  Settings, Configuration, Bind, empty_bind, bind_params, copy_texts, copied_settings, on_tls,
  config_bind, config_line,
}

abbrev pub IsSafe : Settings → TlsMode → Type 0
IsSafe s m = HasCert s.tls_cert m

abbrev pub ListenersSafe : Configuration → Type 0
ListenersSafe c = AllListen IsSafe c.listeners.conns

copied_settings-IsSafe :
    (e : Env) (s : Settings) (m : TlsMode) → IsSafe s m → IsSafe (copied_settings e s).0 m
unfolding copied_settings
copied_settings-IsSafe e s m h = texts s.announce_domain
  where
    texts : (o : Option Bytes) → IsSafe (copy_texts e s o).0 m
    texts none = h
    texts (some domain) =
        if_both (λ (r : Settings × Bool). IsSafe r.0 m) (e.strdup domain) (s, true)
          (record s { announce_domain = none }, false) h h

config_bind-ListenersSafe :
    (e : Env) (n : Network) (c : Configuration) (params : Bytes)
    → ListenersSafe c
    → ListenersSafe (config_bind e n c params).0
unfolding config_bind
config_bind-ListenersSafe e n c params h =
    go (tls_settings n bound.tls) (tls_settings-TlsOk n bound.tls)
  where
    words : List Bytes
    words = tokens b' ' params

    bound : Bind
    bound = bind_params empty_bind (others words)

    copied : Option ℕ → Settings × Bool
    copied cert = copied_settings e (record bound.settings { tls_cert = cert })

    go :
        (r : Option (TlsMode × Option ℕ))
        → TlsOk r
        → ListenersSafe (on_tls e n c (first words) bound r).0
    go none k = h
    go (some (m, cert)) k =
        listen-keeps IsSafe (λ a m s. tt) n (first words) bound.port m (copied cert).0
          (copied cert).1 c.listeners h
          (copied_settings-IsSafe e (record bound.settings { tls_cert = cert }) m k)

config_line-ListenersSafe :
    (e : Env) (n : Network) (c : Configuration) (line : Bytes)
    → ListenersSafe c
    → ListenersSafe (config_line e n c line).0
unfolding config_line
config_line-ListenersSafe e n c line h =
    let (directive, params) = split_directive line in
    if_both Safe (starts "bind" directive) _ _ (config_bind-ListenersSafe e n c params h) (
      if_both Safe (starts "user" directive || starts "group" directive) _ _ h (
        if_both Safe (starts "database" directive) _ _ h (
          if_both Safe (starts "verbosity" directive || starts "logfile" directive) _ _ h
            (if_both Safe (starts "pidfile" directive) _ _ h h))))
  where
    Safe : Configuration × ℤ → Type 0
    Safe r = ListenersSafe r.0

-- Whatever the file says and the system answers, a listener of the mailbox server speaks TLS only
-- with credentials; also where the file is refused.
pub config_parse-HasCert :
    (e : Env) (n : Network) (errno : Bool) (file : Option Bytes) (c : Configuration)
    → ListenersSafe c
    → ListenersSafe (config_parse (config_line e n) errno file c).0
config_parse-HasCert e n errno file c h =
    config_parse-keeps ListenersSafe (config_line e n) errno (config_line-ListenersSafe e n) file c
      h
