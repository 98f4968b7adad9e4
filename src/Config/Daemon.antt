-- ===== src/Config/Daemon.antt =====
-- The directives that all daemons have, with the same code in the config.c of each. What the C
-- library, SQLite and the disk answer is an argument.
use cmail.Base.{
  ℕ, ◌%◌, Bool, Option, none, some, if◌then◌else◌, Bytes, codes, str_eq, has_prefix, strtoul, ℤ,
  pos, negsuc, String,
}

-- `strdup` says for which texts there is memory, `database_open` gives the handle.
pub record Env : Type 0 where
  pub getpwnam : Bytes → Option (ℤ × ℤ)
  pub getgrnam : Bytes → Option ℤ
  pub database_open : Bytes → Option ℕ
  pub can_append : Bytes → Bool
  pub strdup : Bytes → Bool

pub record UserPrivs : Type 0 where
  pub uid : ℤ
  pub gid : ℤ

-- The part of CONFIGURATION that the daemons share, and the state of lib/logger.c
pub record Daemon : Type 0 where
  pub conn : Option ℕ
  pub privileges : UserPrivs
  pub pid_file : Option Bytes
  pub verbosity : ℕ
  pub log_file : Option Bytes

abbrev pub copied : Env → Bytes → Option Bytes
copied e s = if e.strdup s then some s else none

abbrev on_user : Daemon → Option (ℤ × ℤ) → Daemon × ℤ
on_user d none = (d, negsuc 0)
on_user d (some (u, g)) = (record d { privileges = record { uid = u; gid = g } }, pos 0)

abbrev on_group : Daemon → Option ℤ → Daemon × ℤ
on_group d none = (d, negsuc 0)
on_group d (some g) = (record d { privileges = record { uid = d.privileges.uid; gid = g } }, pos 0)

unfoldable pub config_privileges : Env → Daemon → Bytes → Bytes → Daemon × ℤ
config_privileges e d directive params =
    if str_eq directive (codes "user")
    then on_user d (e.getpwnam params)
    else if str_eq directive (codes "group")
    then on_group d (e.getgrnam params)
    else (d, negsuc 0)

abbrev on_open : Daemon → Option ℕ → Daemon × ℤ
on_open d none = (d, negsuc 0)
on_open d (some h) = (record d { conn = some h }, pos 0)

unfoldable pub config_database : Env → Daemon → Bytes → Daemon × ℤ
config_database e d params = elim d.conn [
  | some h ↦ (d, negsuc 0)
  | none ↦ on_open d (e.database_open params)
]

unfoldable pub config_logger : Env → Daemon → Bytes → Bytes → Daemon × ℤ
config_logger e d directive params =
    if str_eq directive (codes "verbosity")
    then (record d { verbosity = strtoul params % 4294967296 }, pos 0)
    else if str_eq directive (codes "logfile")
    then (if e.can_append params
        then (record d { log_file = some params }, pos 0)
        else (d, negsuc 0))
    else (d, negsuc 0)

abbrev on_copy : Daemon → Option Bytes → Daemon × ℤ
on_copy d none = (d, negsuc 0)
on_copy d (some s) = (record d { pid_file = some s }, pos 0)

unfoldable pub config_pidfile : Env → Daemon → Bytes → Daemon × ℤ
config_pidfile e d params = elim d.pid_file [
  | some f ↦ (d, negsuc 0)
  | none ↦ on_copy d (copied e params)
]

abbrev pub starts : String → Bytes → Bool
starts word line = has_prefix (codes word) line
