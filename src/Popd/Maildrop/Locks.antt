-- ===== src/Popd/Maildrop/Locks.antt =====
-- cmail-popd/maildrop.c: the rows that maildrop_lock updates.
use cmail.Base.{Bool, true, false, List, [], ◌∷◌, some, ◌≡◌, refl, arith, Bytes, ℤ, negsuc}
use cmail.Popd.Types.{Lock, Database, done}
use cmail.Popd.Maildrop.{maildrop_lock, update_lock, count_locks}

count_locks-update_lock :
    (b : Bool) (user : Bytes) (ls : List Lock) → count_locks b user (update_lock b user ls) ≡ 0
unfolding count_locks update_lock
count_locks-update_lock b user [] = refl
count_locks-update_lock true user (l ∷ ls) = ground (arith, count_locks-update_lock true user ls)
count_locks-update_lock false user (l ∷ ls) = ground (arith, count_locks-update_lock false user ls)

-- After an update of a user's lock that the database has carried out, a second update to the same
-- value fails: a maildrop that is locked is not locked again.
pub maildrop_lock_excludes :
    (user : Bytes) (b : Bool) (d d' : Database) (rv : ℤ)
    → maildrop_lock done (some user) b d ≡ (d', rv)
    → (maildrop_lock done (some user) b d').1 ≡ negsuc 0
unfolding maildrop_lock
maildrop_lock_excludes user b d d' rv e = ground (arith, count_locks-update_lock b user d.locks)
