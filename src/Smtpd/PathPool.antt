-- ===== src/Smtpd/PathPool.antt =====
-- cmail-smtpd/pathpool.c and path_reset of path.c. A pointer to a path is its slot in the pool.
-- `lost` says that `pool->paths` is NULL while `count` is not 0, which a failed realloc leaves: the
-- clients then still hold their paths, and the pool hands out no more.
pub mod Slots
use cmail.Base.{
  ℕ, zero, suc, Bool, true, false, not, List, [], ◌∷◌, ◌++◌, Option, none, some, if◌then◌else◌, ltb,
  length,
}
use cmail.Smtpd.Types.{MailPath, reset_path, cmail_max_pooled_paths}

pub record PathPool : Type 0 where
  pub paths : List MailPath
  pub lost : Bool

-- the answers of realloc and calloc
pub record PoolAlloc : Type 0 where
  pub realloc_ok : Bool
  pub calloc_ok : Bool

-- path_reset: frees the route and clears the structure.
unfoldable pub path_reset : MailPath → MailPath
unfolding reset_path
path_reset p = reset_path

-- `pool->paths[i]` is replaced.
unfoldable pub update : List MailPath → ℕ → (MailPath → MailPath) → List MailPath
update [] i f = []
update (p ∷ ps) zero f = f p ∷ ps
update (p ∷ ps) (suc i) f = p ∷ update ps i f

-- `for(i = 0; i < pool->count; i++) if(!pool->paths[i]->in_transaction)`: the first free slot
pub find_free : List MailPath → Option ℕ
find_free [] = none
find_free (p ∷ ps) =
    let rest = find_free ps in
    if p.in_transaction then elim rest [ none ↦ none | some i ↦ some (suc i) ] else some 0

abbrev pub mark : MailPath → MailPath
mark p = record p { in_transaction = true }

abbrev is_empty : List MailPath → Bool
is_empty [] = true
is_empty (_ ∷ _) = false

-- The slot that is handed out, if any, and the pool afterwards.
pub grow : PoolAlloc → List MailPath → Option ℕ × PathPool
grow a ps =
    if ltb (length ps) cmail_max_pooled_paths
    then if not a.realloc_ok
      then (none, record { paths = ps; lost = not (is_empty ps) })
      else if not a.calloc_ok
      then (none, record { paths = ps; lost = false })
      else (some (length ps), record { paths = ps ++ mark reset_path ∷ []; lost = false })
    else (none, record { paths = ps; lost = false })

-- what the search for a free path leads to
pub reuse : Option ℕ → PoolAlloc → PathPool → Option ℕ × PathPool
reuse (some i) a pool = (some i, record pool { paths = update pool.paths i mark })
reuse none a pool = grow a pool.paths

unfoldable pub pathpool_get : PoolAlloc → PathPool → Option ℕ × PathPool
unfolding find_free update grow reuse
pathpool_get a pool = if pool.lost then (none, pool) else reuse (find_free pool.paths) a pool

-- path_reset clears `in_transaction` too.
unfoldable pub pathpool_return : PathPool → ℕ → PathPool
unfolding path_reset update
pathpool_return pool i = record pool {
  paths = update pool.paths i (λ p. record (path_reset p) { in_transaction = false });
}

-- pathpool_free: each path is reset and freed, and then the array.
unfoldable pub pathpool_free : PathPool → PathPool
pathpool_free pool = record { paths = []; lost = false }
