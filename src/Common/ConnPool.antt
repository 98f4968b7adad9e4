-- ===== src/Common/ConnPool.antt =====
-- lib/connpool.c: the table of connections that the daemons share between their loop and their
-- clients. `fd` is `none` for -1, and `conns` for NULL, where `count` may still be what it was before
-- a realloc failed.
pub mod Active
use cmail.Base.{
  ℕ, zero, suc, ◌+◌, Bool, true, false, List, [], ◌∷◌, ◌++◌, Option, none, some, ◌==◌, length, set,
  if◌then◌else◌, ℤ, pos, negsuc,
}
use cmail.Net.{TlsMode, tls_none}

module _ {ℓ} (A : Type ℓ) where
  pub record Connection : Type ℓ where
    pub tls_mode : TlsMode
    pub fd : Option ℕ
    pub aux_data : Option A

  pub record ConnPool : Type ℓ where
    pub conns : Option (List Connection)
    pub count : ℕ

-- what the search finds first: the descriptor, a free slot with its data, or neither
pub data Slot {ℓ} (A : Type ℓ) : Type ℓ where
  held : ℕ → Slot A
  free : ℕ → Option A → Slot A
  missing : Slot A

abbrev pub is_fd : ℕ → Option ℕ → Bool
is_fd fd none = false
is_fd fd (some g) = g == fd

abbrev pub counts : Option ℕ → ℕ
counts none = 0
counts (some fd) = 1

abbrev pub closed_fd : Option ℕ → List ℕ → List ℕ
closed_fd none fds = fds
closed_fd (some fd) fds = fd ∷ fds

module _ {ℓ} {A : Type ℓ} where
  abbrev pub next_slot : Slot A → Slot A
  next_slot (held i) = held (suc i)
  next_slot (free i x) = free (suc i) x
  next_slot missing = missing

  abbrev pub on_fd : ℕ → Option ℕ → Option A → Slot A → Slot A
  on_fd fd none x later = free 0 x
  on_fd fd (some g) x later = if g == fd then held 0 else next_slot later

  unfoldable pub find_slot : ℕ → List (Connection A) → Slot A
  find_slot fd [] = missing
  find_slot fd (c ∷ cs) = on_fd fd c.fd c.aux_data (find_slot fd cs)

  abbrev pub new_connection : ℕ → Option A → Connection A
  new_connection fd x = record { tls_mode = tls_none; fd = some fd; aux_data = x }

  abbrev pub pool_of : List (Connection A) → ConnPool A
  pool_of cs = record { conns = some cs; count = length cs }

  abbrev pub on_slot : Bool → ℕ → List (Connection A) → Slot A → ConnPool A × ℤ
  on_slot alloc fd cs (held i) = (pool_of cs, pos i)
  on_slot alloc fd cs (free i x) = (pool_of (set cs i (new_connection fd x)), pos i)
  on_slot alloc fd cs missing =
      if alloc
      then (pool_of (cs ++ new_connection fd none ∷ []), pos (length cs))
      else (record { conns = none; count = length cs }, negsuc 126)

  abbrev pub add_to : Bool → ℕ → ConnPool A → Option (List (Connection A)) → ConnPool A × ℤ
  add_to alloc fd pool none =
      if alloc then (pool_of (new_connection fd none ∷ []), pos 0) else (pool, negsuc 126)
  add_to alloc fd pool (some cs) = on_slot alloc fd cs (find_slot fd cs)

  -- `alloc` says whether malloc or realloc succeeds.
  unfoldable pub connpool_add : Bool → ConnPool A → Option ℕ → ConnPool A × ℤ
  unfolding find_slot
  connpool_add alloc pool none = (pool, negsuc 0)
  connpool_add alloc pool (some fd) = add_to alloc fd pool pool.conns

  abbrev pub cleared : Connection A → Connection A
  cleared c = record c { fd = none }

  abbrev pub on_match :
      Bool → Connection A → List (Connection A) → List (Connection A) × ℤ → List (Connection A) × ℤ
  on_match true c cs later = (cleared c ∷ cs, pos 0)
  on_match false c cs (cs', rv) = (c ∷ cs', rv)

  -- the first connection with the descriptor
  unfoldable pub remove_from : ℕ → List (Connection A) → List (Connection A) × ℤ
  remove_from fd [] = ([], pos 1)
  remove_from fd (c ∷ cs) = on_match (is_fd fd c.fd) c cs (remove_from fd cs)

  abbrev pub remove_in : ℕ → ConnPool A → Option (List (Connection A)) → ConnPool A × ℤ
  remove_in fd pool none = (pool, negsuc 0)
  remove_in fd pool (some cs) =
      let (cs', rv) = remove_from fd cs in (record pool { conns = some cs' }, rv)

  unfoldable pub connpool_remove : ConnPool A → Option ℕ → ConnPool A × ℤ
  unfolding remove_from
  connpool_remove pool none = (pool, negsuc 0)
  connpool_remove pool (some fd) = remove_in fd pool pool.conns

  unfoldable pub active_in : List (Connection A) → ℕ
  active_in [] = 0
  active_in (c ∷ cs) = counts c.fd + active_in cs

  -- Without the table it is not defined unless `count` is 0.
  unfoldable pub connpool_active : ConnPool A → Option ℕ
  unfolding active_in
  connpool_active pool = elim pool.conns [
    | some cs ↦ some (active_in cs)
    | none ↦ if pool.count == 0 then some 0 else none
  ]

  -- the descriptors that are closed
  unfoldable pub fds_of : List (Connection A) → List ℕ
  fds_of [] = []
  fds_of (c ∷ cs) = closed_fd c.fd (fds_of cs)

  unfoldable pub connpool_free : ConnPool A → List ℕ × ConnPool A
  unfolding fds_of
  connpool_free pool = elim pool.conns [
    | some cs ↦ (fds_of cs, record { conns = none; count = 0 })
    | none ↦ ([], record { conns = none; count = 0 })
  ]
