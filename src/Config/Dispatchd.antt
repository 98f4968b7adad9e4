-- ===== src/Config/Dispatchd.antt =====
-- cmail-dispatchd/config.c: the directives of the delivery daemon.
pub mod Ports
use cmail.Base.{
  ℕ, ◌+◌, ◌%◌, Bool, true, false, ◌||◌, List, [], ◌∷◌, ◌++◌, Option, none, some, if◌then◌else◌,
  ◌==◌, Bytes, codes, str_eq, take, length, strtoul, ℤ, pos, negsuc,
}
use cmail.Net.{TlsMode, tls_none, tls_negotiate, tls_only}
use cmail.Dispatchd.Remote.{RemotePort, no_port}
use cmail.Config.File.{split_directive, tokens}
use cmail.Config.Daemon.{
  Env, Daemon, config_privileges, config_database, config_logger, config_pidfile, starts, copied,
}

-- MTA_SETTINGS. The arrays have the sentinel that they end with: a port that is 0, and a NULL.
pub record Settings : Type 0 where
  pub helo_announce : Option Bytes
  pub port_list : Option (List RemotePort)
  pub check_interval : ℕ
  pub rate_limit : ℕ
  pub mail_retries : ℕ
  pub retry_interval : ℕ
  pub tls_padding : ℕ
  pub bounce_from : Option Bytes
  pub bounce_to : Option (List (Option Bytes))
  pub bind_host : Option Bytes
  pub trust_files : List Bytes

pub record Configuration : Type 0 where
  pub daemon : Daemon
  pub settings : Settings

-- `strtoul_end` gives the number and what stands behind it; the answers of realloc are for the number
-- of elements that are asked for.
pub record Memory : Type 0 where
  pub strtoul_end : Bytes → ℕ × Bytes
  pub realloc : ℕ → Bool

-- the port, and the mode that is written behind it
abbrev pub port_mode : Bytes → TlsMode
port_mode s =
    if str_eq s (codes "@tls")
    then tls_only
    else if str_eq s (codes "@starttls")
    then tls_negotiate
    else tls_none

unfoldable pub port_token : ℕ × Bytes → RemotePort
port_token (n, s) = record { port = n % 65536; tls_mode = port_mode s }

-- The loop over the tokens: what is written, or `none` where realloc fails.
abbrev pub add_port : Memory → List RemotePort → RemotePort → Option (List RemotePort)
add_port m written p =
    if p.port == 0
    then some written
    else if m.realloc (length written + 1)
    then some (written ++ p ∷ [])
    else none

abbrev pub then_read :
    Option (List RemotePort)
    → (List RemotePort → Option (List RemotePort))
    → Option (List RemotePort)
then_read none next = none
then_read (some more) next = next more

unfoldable pub read_ports : Memory → List RemotePort → List Bytes → Option (List RemotePort)
unfolding port_token
read_ports m written [] = some written
read_ports m written (t ∷ ts) =
    then_read (add_port m written (port_token (m.strtoul_end t))) (λ more. read_ports m more ts)

abbrev with_ports : Settings → Option (List RemotePort) → Settings
with_ports s ps = record s { port_list = ps }

abbrev pub on_ports : Memory → Settings → Option (List RemotePort) → Settings × ℤ
on_ports m s none = (with_ports s none, negsuc 0)
on_ports m s (some ps) =
    if m.realloc (length ps + 1)
    then (with_ports s (some (ps ++ no_port ∷ [])), pos 0)
    else (with_ports s none, negsuc 0)

unfoldable pub config_ports : Memory → Settings → Bytes → Settings × ℤ
unfolding read_ports tokens
config_ports m s params = on_ports m s (read_ports m [] (tokens b' ' params))

-- The recipients up to the NULL
abbrev take_some : Option Bytes → List (Option Bytes) → List (Option Bytes)
take_some none later = []
take_some (some r) later = some r ∷ later

abbrev pub before_null : List (Option Bytes) → List (Option Bytes)
before_null [] = []
before_null (r ∷ rs) = take_some r (before_null rs)

abbrev pub current : Option (List (Option Bytes)) → List (Option Bytes)
current none = []
current (some rs) = before_null rs

-- The loop: an array that ends with its NULL, and whether all went well. It is not replaced by a new
-- one while there is nothing to add.
abbrev on_bounce :
    Env
    → Memory
    → List (Option Bytes)
    → Bytes
    → (List (Option Bytes) → Settings × ℤ)
    → Settings
    → Settings × ℤ
on_bounce e m rs r next s =
    if m.realloc (length rs + 2)
    then (if e.strdup r
        then next (rs ++ some r ∷ [])
        else (record s { bounce_to = some (rs ++ none ∷ none ∷ []) }, negsuc 0))
    else (record s { bounce_to = none }, negsuc 0)

abbrev stored : Settings → List (Option Bytes) → Settings
stored s rs = record s { bounce_to = some (rs ++ none ∷ []) }

unfoldable pub add_bounces :
    Env → Memory → Settings → List (Option Bytes) → List Bytes → Settings × ℤ
add_bounces e m s rs [] = (s, pos 0)
add_bounces e m s rs (r ∷ ts) =
    on_bounce e m rs r (λ more. add_bounces e m (stored s more) more ts) s

unfoldable pub config_bounceto : Env → Memory → Settings → Bytes → Settings × ℤ
unfolding add_bounces tokens
config_bounceto e m s params = add_bounces e m s (current s.bounce_to) (tokens b' ' params)

-- A text that replaces the one before, which is freed first
abbrev replaced : Option Bytes → ℤ
replaced none = negsuc 0
replaced (some t) = pos 0

unfoldable pub config_announce : Env → Settings → Bytes → Settings × ℤ
config_announce e s params =
    (record s { helo_announce = copied e params }, replaced (copied e params))

unfoldable pub config_bindhost : Env → Settings → Bytes → Settings × ℤ
config_bindhost e s params = (record s { bind_host = copied e params }, replaced (copied e params))

unfoldable pub config_trustfile : Settings → Bytes → Settings × ℤ
config_trustfile s params = (record s { trust_files = params ∷ s.trust_files }, pos 0)

abbrev bounce_from_of : Env → Settings → Bytes → Settings × ℤ
bounce_from_of e s params = (record s { bounce_from = copied e params }, replaced (copied e params))

abbrev number : Bytes → ℕ
number params = strtoul params % 4294967296

abbrev with_daemon : Configuration → Daemon × ℤ → Configuration × ℤ
with_daemon c (d, rv) = (record c { daemon = d }, rv)

abbrev with_settings : Configuration → Settings × ℤ → Configuration × ℤ
with_settings c (s, rv) = (record c { settings = s }, rv)

-- the directives that set a number, in their place among the others
abbrev done : Configuration → Settings → Configuration × ℤ
done c s = (record c { settings = s }, pos 0)

abbrev pub last_directives : Env → Memory → Configuration → Bytes → Bytes → Configuration × ℤ
unfolding config_trustfile config_bounceto config_bindhost config_pidfile
last_directives e m c directive params =
    if starts "tls_trustfile" directive
    then with_settings c (config_trustfile c.settings params)
    else if starts "ratelimit" directive
    then done c (record c.settings { rate_limit = number params })
    else if starts "bounce_from" directive
    then with_settings c (bounce_from_of e c.settings params)
    else if starts "bounce_copy" directive
    then with_settings c (config_bounceto e m c.settings params)
    else if starts "bind" directive
    then with_settings c (config_bindhost e c.settings params)
    else if starts "pidfile" directive
    then with_daemon c (config_pidfile e c.daemon params)
    else (c, negsuc 0)

abbrev pub number_directives : Env → Memory → Configuration → Bytes → Bytes → Configuration × ℤ
number_directives e m c directive params =
    if starts "interval" directive
    then done c (record c.settings { check_interval = number params })
    else if starts "retries" directive
    then done c (record c.settings { mail_retries = number params })
    else if starts "retryinterval" directive
    then done c (record c.settings { retry_interval = number params })
    else if starts "tls_padding" directive
    then done c (record c.settings { tls_padding = number params })
    else last_directives e m c directive params

unfoldable pub config_line : Env → Memory → Configuration → Bytes → Configuration × ℤ
unfolding config_privileges config_database config_logger config_announce config_ports
    split_directive
config_line e m c line =
    let (directive, params) = split_directive line in
    if starts "user" directive || starts "group" directive
    then with_daemon c (config_privileges e c.daemon directive params)
    else if starts "database" directive
    then with_daemon c (config_database e c.daemon params)
    else if starts "verbosity" directive || starts "logfile" directive
    then with_daemon c (config_logger e c.daemon directive params)
    else if starts "announce" directive
    then with_settings c (config_announce e c.settings params)
    else if starts "portprio" directive
    then with_settings c (config_ports m c.settings params)
    else number_directives e m c directive params
