-- ===== src/Config/Popd.antt =====
-- cmail-popd/config.c: the directives of the mailbox server.
pub mod Safe
use cmail.Base.{
  ℕ, Bool, true, false, ◌||◌, List, [], ◌∷◌, Option, none, some, if◌then◌else◌, Bytes, codes,
  str_eq, drop, ℤ, pos, negsuc,
}
use cmail.Net.{TlsMode, tls_only}
use cmail.Common.ConnPool.{ConnPool}
use cmail.Config.File.{split_directive, tokens}
use cmail.Config.Daemon.{
  Env, Daemon, config_privileges, config_database, config_logger, config_pidfile, starts,
}
use cmail.Config.Listen.{TlsArgs, no_tls, Network, tls_settings, listen, first, others}

-- LISTENER, as for cmail-smtpd
pub record Settings : Type 0 where
  pub announce_domain : Option Bytes
  pub tls_require : Bool
  pub tls_cert : Option ℕ

pub record Configuration : Type 0 where
  pub daemon : Daemon
  pub listeners : ConnPool Settings

pub record Bind : Type 0 where
  pub port : Option Bytes
  pub tls : TlsArgs
  pub settings : Settings

abbrev pub empty_bind : Bind
empty_bind = record {
  port = none;
  tls = no_tls;
  settings = record {
    announce_domain = some (codes "cmail-popd");
    tls_require = false;
    tls_cert = none;
  };
}

unfoldable pub bind_param : Bind → Bytes → Bind
bind_param b token =
    if starts "announce=" token
    then record b { settings = record b.settings { announce_domain = some (drop 9 token) } }
    else if starts "cert=" token
    then record b { tls = record b.tls { certfile = some (drop 5 token) } }
    else if starts "key=" token
    then record b { tls = record b.tls { keyfile = some (drop 4 token) } }
    else if starts "ciphers=" token
    then record b { tls = record b.tls { priorities = some (drop 8 token) } }
    else if starts "dhparams=" token
    then record b { tls = record b.tls { dh_paramfile = some (drop 9 token) } }
    else if str_eq token (codes "tlsonly")
    then record b { tls = record b.tls { mode = tls_only } }
    else if str_eq token (codes "tlsrequire")
    then record b { settings = record b.settings { tls_require = true } }
    else b

abbrev pub on_port : Bind → Bytes → Option Bytes → Bind
on_port b token none = record b { port = some token }
on_port b token (some p) = bind_param b token

unfoldable pub bind_params : Bind → List Bytes → Bind
unfolding bind_param
bind_params b [] = b
bind_params b (t ∷ ts) = bind_params (on_port b t b.port) ts

abbrev pub copy_texts : Env → Settings → Option Bytes → Settings × Bool
copy_texts e s none = (s, false)
copy_texts e s (some domain) =
    if e.strdup domain then (s, true) else (record s { announce_domain = none }, false)

unfoldable pub copied_settings : Env → Settings → Settings × Bool
copied_settings e s = copy_texts e s s.announce_domain

abbrev pub with_listeners : Configuration → ConnPool Settings × ℤ → Configuration × ℤ
with_listeners c (pool, rv) = (record c { listeners = pool }, rv)

abbrev pub on_tls :
    Env
    → Network
    → Configuration
    → Option Bytes
    → Bind
    → Option (TlsMode × Option ℕ)
    → Configuration × ℤ
on_tls e n c host b none = (c, negsuc 0)
on_tls e n c host b (some (mode, cert)) = with_listeners c (
    listen n host b.port mode (copied_settings e (record b.settings { tls_cert = cert }))
      c.listeners)

unfoldable pub config_bind : Env → Network → Configuration → Bytes → Configuration × ℤ
unfolding bind_params tls_settings listen copied_settings tokens
config_bind e n c params =
    let words = tokens b' ' params in
    let b = bind_params empty_bind (others words) in
    on_tls e n c (first words) b (tls_settings n b.tls)

abbrev pub with_daemon : Configuration → Daemon × ℤ → Configuration × ℤ
with_daemon c (d, rv) = (record c { daemon = d }, rv)

unfoldable pub config_line : Env → Network → Configuration → Bytes → Configuration × ℤ
unfolding config_bind config_privileges config_database config_logger config_pidfile split_directive
config_line e n c line =
    let (directive, params) = split_directive line in
    if starts "bind" directive
    then config_bind e n c params
    else if starts "user" directive || starts "group" directive
    then with_daemon c (config_privileges e c.daemon directive params)
    else if starts "database" directive
    then with_daemon c (config_database e c.daemon params)
    else if starts "verbosity" directive || starts "logfile" directive
    then with_daemon c (config_logger e c.daemon directive params)
    else if starts "pidfile" directive
    then with_daemon c (config_pidfile e c.daemon params)
    else (c, negsuc 0)
