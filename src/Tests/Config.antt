-- ===== src/Tests/Config.antt =====
-- Configuration files at concrete inputs.
use cmail.Base.{
  ℕ, true, false, Bool, List, [], ◌∷◌, some, none, ◌≡◌, refl, arith, Bytes, codes, ℤ, pos, negsuc,
  if◌then◌else◌, inl, inr, length, All, ltb, ◌==◌, not, ◌&&◌, is_some,
}
use cmail.Config.File.{config_parse}
use cmail.Config.File.Lines.{unlines, handle_lines, config_parse-unlines}
use cmail.Config.Daemon.{Env, Daemon}
use cmail.Config.Listen.{Network}
use cmail.Config.Smtpd as Smtp
use cmail.Config.Smtpd.Safe.{ListenersSafe, config_parse-ListenersSafe}
use cmail.Config.Dispatchd as Dispatch
use cmail.Config.Dispatchd.Ports.{Terminated, config_parse-Terminated}

abbrev env : Env
env = record {
  getpwnam = λ name. some (pos 1000, pos 1001);
  getgrnam = λ name. none;
  database_open = λ path. some 3;
  can_append = λ path. true;
  strdup = λ text. true;
}

abbrev network : Network
network = record {
  tls_init_listener = λ cert key dh priorities. some 7;
  listener = λ host port. some 4;
  pool_alloc = λ fd. true;
  aux_alloc = λ fd. true;
}

abbrev daemon : Daemon
daemon = record {
  conn = none;
  privileges = record { uid = pos 0; gid = pos 0 };
  pid_file = none;
  verbosity = 0;
  log_file = none;
}

abbrev smtpd : Smtp.Configuration
smtpd = record { daemon = daemon; listeners = record { conns = none; count = 0 } }

abbrev no_ports : Dispatch.Settings
no_ports = record {
  helo_announce = none;
  port_list = none;
  check_interval = 30;
  rate_limit = 0;
  mail_retries = 0;
  retry_interval = 0;
  tls_padding = 0;
  bounce_from = none;
  bounce_to = none;
  bind_host = none;
  trust_files = [];
}

abbrev dispatchd : Dispatch.Configuration
dispatchd = record { daemon = daemon; settings = no_ports }

-- strtoul for the two words of the stanza below, and room for eight elements
abbrev memory : Dispatch.Memory
memory = record {
  strtoul_end = λ s. if ltb (length s) 3 then (25, []) else (25, codes "@starttls");
  realloc = λ n. ltb n 9;
}

abbrev smtpd_file : List Bytes
smtpd_file =
    codes "bind ::1 25 cert=c key=k auth=fixed@ann" ∷ codes "  # nothing" ∷ codes "user cmail" ∷ []

abbrev dispatchd_file : List Bytes
dispatchd_file =
    codes "portprio 25 25@starttls" ∷ codes "bounce_copy a@b c@d" ∷ codes "announc x" ∷ []

config_parse-ListenersSafe_example :
    ListenersSafe
      (config_parse (Smtp.config_line env network) true (some (unlines smtpd_file)) smtpd).0
config_parse-ListenersSafe_example =
    config_parse-ListenersSafe env network true (some (unlines smtpd_file)) smtpd tt

config_parse-Terminated_example :
    Terminated
      (config_parse
        (Dispatch.config_line env memory)
        true
        (some (unlines dispatchd_file))
        dispatchd).0.settings
config_parse-Terminated_example =
    config_parse-Terminated env memory true (some (unlines dispatchd_file)) dispatchd (tt, tt)

config_parse-unlines_example :
    config_parse (Smtp.config_line env network) true (some (unlines smtpd_file)) smtpd
    ≡ handle_lines (Smtp.config_line env network) true smtpd_file smtpd
unfolding cmail.Config.File.Lines.all_short
config_parse-unlines_example =
    config_parse-unlines (Smtp.config_line env network) true smtpd_file smtpd refl

smtpd_reads :
    (config_parse (Smtp.config_line env network) true (some (unlines smtpd_file)) smtpd).1 ≡ pos 0
unfolding config_parse Smtp.config_line cmail.Base.has_prefix cmail.Base.str_eq
smtpd_reads = refl
