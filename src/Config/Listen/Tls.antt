-- ===== src/Config/Listen/Tls.antt =====
-- The TLS parameters of a listener: no mode of TLS without a certificate and its key.
use cmail.Base.{ℕ, true, Option, none, some, ◌≡◌, refl, Bytes, is_some}
use cmail.Net.{TlsMode, tls_none, tls_negotiate, tls_only}
use cmail.Config.Listen.{Network, TlsArgs, with_cert, without_files, on_files, tls_settings}

-- There are credentials wherever TLS is spoken.
abbrev pub HasCert : Option ℕ → TlsMode → Type 0
HasCert cert tls_none = Unit
HasCert cert tls_negotiate = is_some cert ≡ true
HasCert cert tls_only = is_some cert ≡ true

-- What the TLS parameters come to
abbrev pub TlsOk : Option (TlsMode × Option ℕ) → Type 0
TlsOk none = Unit
TlsOk (some (m, cert)) = HasCert cert m

pub tls_settings-TlsOk : (n : Network) (t : TlsArgs) → TlsOk (tls_settings n t)
unfolding tls_settings
tls_settings-TlsOk n t = files t.keyfile t.certfile
  where
    cert_ok : (m : TlsMode) (c : Option ℕ) → TlsOk (with_cert m c)
    cert_ok m none = tt
    cert_ok tls_none (some c) = refl
    cert_ok tls_negotiate (some c) = refl
    cert_ok tls_only (some c) = refl

    no_files : (m : TlsMode) → TlsOk (without_files m)
    no_files tls_none = tt
    no_files tls_negotiate = tt
    no_files tls_only = tt

    files : (k c : Option Bytes) → TlsOk (on_files n t k c)
    files none none = no_files t.mode
    files none (some c) = tt
    files (some k) none = tt
    files (some k) (some c) = cert_ok t.mode (n.tls_init_listener c k t.dh_paramfile t.priorities)
