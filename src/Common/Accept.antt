-- ===== src/Common/Accept.antt =====
-- client_accept of cmail-smtpd/client.c and cmail-popd/client.c: the part that both have, which takes
-- a slot of the pool for a new client.
pub mod Limit
pub mod Seats
use cmail.Base.{
  ℕ, zero, suc, Bool, List, [], ◌∷◌, Option, none, some, if◌then◌else◌, leb, get_elem?, ℤ, pos,
  negsuc,
}
use cmail.Net.{TlsMode}
use cmail.Common.ConnPool.{Connection, ConnPool, connpool_add, connpool_active, pool_of}

-- The result of accept, and what malloc and realloc answer
pub record Incoming : Type 0 where
  pub fd : Option ℕ
  pub pool_alloc : Bool
  pub data_alloc : Bool

-- A slot is taken, with the connections, its number and what it held of a client before; or the
-- function returns.
pub data Taken {ℓ} (A : Type ℓ) : Type ℓ where
  undefined : Taken A
  refused : ConnPool A → ℤ → Taken A
  taken : List (Connection A) → ℕ → Option A → Taken A

abbrev pub mode_or : TlsMode → Option TlsMode → TlsMode
mode_or old none = old
mode_or old (some new) = new

module _ {ℓ} {A : Type ℓ} where
  abbrev pub with_data : Bool → ConnPool A → List (Connection A) → ℕ → Option A → Taken A
  with_data alloc pool cs i (some old) = taken cs i (some old)
  with_data alloc pool cs i none = if alloc then taken cs i none else refused pool (negsuc 0)

  abbrev pub in_slot : Bool → ConnPool A → List (Connection A) → ℕ → Option (Connection A) → Taken A
  in_slot alloc pool cs i none = undefined
  in_slot alloc pool cs i (some c) = with_data alloc pool cs i c.aux_data

  abbrev pub in_pool : Bool → ConnPool A → ℕ → Option (List (Connection A)) → Taken A
  in_pool alloc pool i none = undefined
  in_pool alloc pool i (some cs) = in_slot alloc pool cs i (get_elem? cs i)

  abbrev pub on_added : Bool → ConnPool A × ℤ → Taken A
  on_added alloc (pool, negsuc n) = refused pool (negsuc 0)
  on_added alloc (pool, pos i) = in_pool alloc pool i pool.conns

  abbrev pub on_active : ℕ → ConnPool A → Incoming → Option ℕ → Taken A
  on_active limit pool x none = undefined
  on_active limit pool x (some n) =
      if leb limit n
      then refused pool (pos 1)
      else on_added x.data_alloc (connpool_add x.pool_alloc pool x.fd)

  unfoldable pub take_slot : ℕ → ConnPool A → Incoming → Taken A
  unfolding connpool_add connpool_active
  take_slot limit pool x = on_active limit pool x (connpool_active pool)

  -- The client's data is stored in the slot, and the mode of TLS if it is changed.
  unfoldable pub hold : ℕ → A → Option TlsMode → List (Connection A) → List (Connection A)
  hold i a mode [] = []
  hold zero a mode (c ∷ cs) =
      record c { aux_data = some a; tls_mode = mode_or c.tls_mode mode } ∷ cs
  hold (suc i) a mode (c ∷ cs) = c ∷ hold i a mode cs
