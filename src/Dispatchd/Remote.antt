-- ===== src/Dispatchd/Remote.antt =====
-- cmail-dispatchd/remote.c: the servers to deliver to. strtoul with base 0 is a parameter, which gives
-- the number and what stands behind it.
use cmail.Base.{
  ℕ, ◌%◌, Bool, List, [], ◌∷◌, ◌++◌, Option, none, some, ◌==◌, if◌then◌else◌, codes, to_lower,
  str_eq, Bytes,
}
use cmail.Net.{TlsMode, tls_none, tls_negotiate, tls_only}
use cmail.Auth.Base64.{auth_base64encode}

pub data DeliveryMode : Type 0 where
  deliver_domain deliver_handoff : DeliveryMode

-- REMOTE_PORT; `{}` clears it.
pub record RemotePort : Type 0 where
  pub port : ℕ
  pub tls_mode : TlsMode

pub record Remote : Type 0 where
  pub host : Option Bytes
  pub mode : DeliveryMode
  pub remote_auth : Option Bytes
  pub forced_port : RemotePort
  pub remotespec : Option Bytes

abbrev pub no_port : RemotePort
no_port = record { port = 0; tls_mode = tls_none }

unfoldable pub remote_reset : Remote
remote_reset = record {
  host = none;
  mode = deliver_handoff;
  remote_auth = none;
  forced_port = no_port;
  remotespec = none;
}

-- `index(s, c)`: what stands before and behind the first one
unfoldable pub split_at : ℕ → Bytes → Option (Bytes × Bytes)
split_at c [] = none
split_at c (x ∷ xs) =
    let rest = split_at c xs in
    if x == c
    then some ([], xs)
    else elim rest [ none ↦ none | some (before, behind) ↦ some (x ∷ before, behind) ]

-- The authentication data, moved up by a byte whose place keeps its old value until the colon was
-- looked for, and with its terminator.
abbrev first_byte : Bytes → ℕ
first_byte [] = 0
first_byte (c ∷ cs) = c

abbrev clear_colon : Bytes → Option (Bytes × Bytes) → Bytes
clear_colon moved none = moved
clear_colon moved (some (before, behind)) = before ++ 0 ∷ behind

abbrev clear_first : Bytes → Bytes
clear_first [] = []
clear_first (c ∷ cs) = 0 ∷ cs

unfoldable pub sasl_response : Bytes → Bytes
unfolding split_at
sasl_response auth =
    clear_first (clear_colon (first_byte auth ∷ auth) (split_at b':' (first_byte auth ∷ auth)))
    ++ 0 ∷ []

-- the mode that follows a port: `!strcasecmp`
abbrev lower_all : Bytes → Bytes
lower_all [] = []
lower_all (c ∷ cs) = to_lower c ∷ lower_all cs

unfoldable pub mode_of : Bytes → TlsMode
mode_of s =
    if str_eq (lower_all s) (codes "/starttls")
    then tls_negotiate
    else if str_eq (lower_all s) (codes "/tls")
    then tls_only
    else tls_none

-- The port, if what follows the number is a mode or nothing.
unfoldable pub port_of : ℕ × Bytes → Option RemotePort
unfolding mode_of
port_of (n, []) = some (record { port = n % 65536; tls_mode = tls_none })
port_of (n, c ∷ cs) =
    if c == b'/' then some (record { port = n % 65536; tls_mode = mode_of (c ∷ cs) }) else none

abbrev with_port : Remote → Option RemotePort → Option Remote
with_port r none = none
with_port r (some p) = some (record r { forced_port = p })

abbrev set_host : Remote → Bytes → Remote
set_host r h = record r { host = some h }

-- the host with its port
abbrev on_colon : (Bytes → ℕ × Bytes) → Remote → Bytes → Option (Bytes × Bytes) → Option Remote
on_colon strtoul0 r host none = some (set_host r host)
on_colon strtoul0 r host (some (before, behind)) =
    with_port (set_host r before) (port_of (strtoul0 behind))

unfoldable pub parse_host : (Bytes → ℕ × Bytes) → Remote → Bytes → Option Remote
unfolding split_at port_of
parse_host strtoul0 r host = on_colon strtoul0 r host (split_at b':' host)

-- What remote_auth points to behind auth_base64encode, which leaves the bytes if it fails; their
-- first one ends the string then.
abbrev encoded : Option Bytes → Bytes
encoded none = []
encoded (some text) = text

-- the authentication before the host
abbrev on_at : (Bytes → ℕ × Bytes) → Bool → Remote → Bytes → Option (Bytes × Bytes) → Option Remote
on_at strtoul0 alloc r spec none = parse_host strtoul0 r spec
on_at strtoul0 alloc r spec (some (auth, host)) =
    parse_host strtoul0
      (record r { remote_auth = some (encoded (auth_base64encode alloc (sasl_response auth))) })
      host

abbrev new_remote : DeliveryMode → Bytes → Remote
new_remote mode spec = record remote_reset { host = some spec; mode = mode; remotespec = some spec }

-- what strdup and auth_base64encode find
pub record RemoteAlloc : Type 0 where
  pub strdup_ok : Bool
  pub encode_ok : Bool

abbrev parse_spec : (Bytes → ℕ × Bytes) → Bool → DeliveryMode → Bytes → Option Remote
parse_spec strtoul0 alloc deliver_domain spec = some (new_remote deliver_domain spec)
parse_spec strtoul0 alloc deliver_handoff spec =
    on_at strtoul0 alloc (new_remote deliver_handoff spec) spec (split_at b'@' spec)

-- `none` for -1, on which the caller resets the entry
unfoldable pub remote_parse :
    (Bytes → ℕ × Bytes) → RemoteAlloc → DeliveryMode → Bytes → Option Remote
unfolding remote_reset parse_host sasl_response
remote_parse strtoul0 alloc mode spec =
    if alloc.strdup_ok then parse_spec strtoul0 alloc.encode_ok mode spec else none

-- A row of the query: the remote, if it is given, or else the domain.
pub record HostRow : Type 0 where
  pub mail_remote : Option Bytes
  pub mail_host : Option Bytes

abbrev read_row :
    (Bytes → ℕ × Bytes) → (Bytes → RemoteAlloc) → Option Bytes → Option Bytes → Option Remote
read_row strtoul0 memory (some remote) host =
    remote_parse strtoul0 (memory remote) deliver_handoff remote
read_row strtoul0 memory none (some host) = remote_parse strtoul0 (memory host) deliver_domain host
read_row strtoul0 memory none none = some remote_reset

abbrev keep : Option Remote → List Remote → List Remote
keep none rs = rs
keep (some r) rs = r ∷ rs

-- The remotes of the rows; one that cannot be parsed is left out. The array has memory to grow.
unfoldable pub remotes_fetch :
    (Bytes → ℕ × Bytes) → (Bytes → RemoteAlloc) → List HostRow → List Remote
unfolding remote_parse remote_reset
remotes_fetch strtoul0 memory [] = []
remotes_fetch strtoul0 memory (x ∷ xs) =
    keep (read_row strtoul0 memory x.mail_remote x.mail_host) (remotes_fetch strtoul0 memory xs)
