-- ===== src/Config/Listen.antt =====
-- The parts of config_bind that cmail-smtpd/config.c and cmail-popd/config.c both have: the TLS
-- parameters of a listener, and the socket that is added to the pool of listeners.
pub mod Keeps
pub mod Tls
use cmail.Base.{
  ℕ, zero, suc, Bool, true, false, List, [], ◌∷◌, Option, none, some, if◌then◌else◌, Bytes, ℤ, pos,
  negsuc,
}
use cmail.Net.{TlsMode, tls_none, tls_negotiate, tls_only}
use cmail.Common.ConnPool.{Connection, ConnPool, connpool_add}

pub record TlsArgs : Type 0 where
  pub mode : TlsMode
  pub keyfile : Option Bytes
  pub certfile : Option Bytes
  pub priorities : Option Bytes
  pub dh_paramfile : Option Bytes

abbrev pub no_tls : TlsArgs
no_tls = record {
  mode = tls_none;
  keyfile = none;
  certfile = none;
  priorities = none;
  dh_paramfile = none;
}

-- What the rest of the system answers: `tls_init_listener` gives the credentials, `listener` the
-- socket; `pool_alloc` and `aux_alloc` say for which socket there is memory.
pub record Network : Type 0 where
  pub tls_init_listener : Bytes → Bytes → Option Bytes → Option Bytes → Option ℕ
  pub listener : Option Bytes → Option Bytes → Option ℕ
  pub pool_alloc : ℕ → Bool
  pub aux_alloc : ℕ → Bool

-- The mode and the credentials of the listener, or a failure
abbrev pub negotiable : TlsMode → TlsMode
negotiable tls_none = tls_negotiate
negotiable tls_negotiate = tls_negotiate
negotiable tls_only = tls_only

abbrev pub with_cert : TlsMode → Option ℕ → Option (TlsMode × Option ℕ)
with_cert m none = none
with_cert m (some cert) = some (negotiable m, some cert)

abbrev pub without_files : TlsMode → Option (TlsMode × Option ℕ)
without_files tls_none = some (tls_none, none)
without_files tls_negotiate = none
without_files tls_only = none

abbrev pub on_files : Network → TlsArgs → Option Bytes → Option Bytes → Option (TlsMode × Option ℕ)
on_files n t (some key) (some cert) =
    with_cert t.mode (n.tls_init_listener cert key t.dh_paramfile t.priorities)
on_files n t (some key) none = none
on_files n t none (some cert) = none
on_files n t none none = without_files t.mode

unfoldable pub tls_settings : Network → TlsArgs → Option (TlsMode × Option ℕ)
tls_settings n t = on_files n t t.keyfile t.certfile

module _ {ℓ} {A : Type ℓ} where
  abbrev pub in_slot : (Connection A → Connection A) → ℕ → List (Connection A) → List (Connection A)
  in_slot f i [] = []
  in_slot f zero (c ∷ cs) = f c ∷ cs
  in_slot f (suc i) (c ∷ cs) = c ∷ in_slot f i cs

  abbrev pub in_conns :
      (Connection A → Connection A) → ℕ → ConnPool A → Option (List (Connection A)) → ConnPool A
  in_conns f i pool none = pool
  in_conns f i pool (some cs) = record pool { conns = some (in_slot f i cs) }

  abbrev pub change_slot : (Connection A → Connection A) → ℕ → ConnPool A → ConnPool A
  change_slot f i pool = in_conns f i pool pool.conns

  -- calloc, and what the listener is told of; its texts are copied, or one of them is not
  abbrev pub no_aux : Connection A → Connection A
  no_aux c = record c { aux_data = none }

  abbrev pub with_aux : A → TlsMode → Connection A → Connection A
  with_aux a mode c = record c { aux_data = some a; tls_mode = mode }

  abbrev pub on_aux : Bool → TlsMode → A × Bool → ConnPool A × ℤ → ConnPool A × ℤ
  on_aux aux_alloc mode (a, copied) (pool, negsuc k) = (pool, negsuc 0)
  on_aux aux_alloc mode (a, copied) (pool, pos i) =
      if aux_alloc
      then (change_slot (with_aux a mode) i pool, if copied then pos 0 else negsuc 0)
      else (change_slot no_aux i pool, negsuc 0)

  abbrev pub on_socket : Network → TlsMode → A × Bool → ConnPool A → Option ℕ → ConnPool A × ℤ
  on_socket n mode a pool none = (pool, negsuc 0)
  on_socket n mode a pool (some fd) =
      on_aux (n.aux_alloc fd) mode a (connpool_add (n.pool_alloc fd) pool (some fd))

  unfoldable pub listen :
      Network → Option Bytes → Option Bytes → TlsMode → A × Bool → ConnPool A → ConnPool A × ℤ
  unfolding connpool_add
  listen n host port mode a pool = on_socket n mode a pool (n.listener host port)

abbrev pub first : List Bytes → Option Bytes
first [] = none
first (t ∷ ts) = some t

abbrev pub others : List Bytes → List Bytes
others [] = []
others (t ∷ ts) = ts
