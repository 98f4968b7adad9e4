-- ===== src/Net.antt =====
-- lib/tls.h and lib/network.h: the TLS mode of a connection or a listener; and how network_read of
-- lib/network.c and the reads below it fail.
pub data TlsMode : Type 0 where
  tls_none tls_negotiate tls_only : TlsMode

-- Why a read returned less than 0: errno is EAGAIN, the handshake failed for good (-2) or not (-1),
-- GnuTLS was interrupted or would block, or anything else.
pub data ReadError : Type 0 where
  eagain handshake_fatal handshake_nonfatal tls_interrupted tls_again other_error : ReadError
