-- ===== src/Admin/Popd/Logins.antt =====
-- cmail-admin/popd and maildrop_lock of cmail-popd/maildrop.c: who can open a maildrop.
use cmail.Base.{
  ℕ, zero, ◌+◌, Bool, true, false, List, [], ◌∷◌, some, ◌≡◌, refl, arith, Bytes, str_eq, str_eq_iff,
  ◌==◌, if◌then◌else◌, ℤ, pos, negsuc,
}
use cmail.Popd.Types as Pop
use cmail.Popd.Types.{Lock, done}
use cmail.Popd.Maildrop.{maildrop_lock, count_locks}
use cmail.Admin.Statement.{Statement}
use cmail.Admin.Popd.{Table, has_lock, set_lock, without_lock, mode_add, mode_delete, mode_unlock}

-- The rows of a user
unfoldable pub rows_of : Bytes → List Lock → ℕ
rows_of user [] = 0
rows_of user (l ∷ ls) = (if str_eq l.pop_user user then 1 else 0) + rows_of user ls

count_locks-new :
    (user : Bytes) (ls : List Lock) → has_lock user ls ≡ false → count_locks true user ls ≡ 0
unfolding count_locks has_lock
count_locks-new user [] h = refl
count_locks-new user (l ∷ ls) h = ground (arith, count_locks-new user ls)

count_locks-set_lock :
    (user : Bytes) (ls : List Lock)
    → count_locks true user (set_lock false user ls) ≡ rows_of user ls
unfolding count_locks set_lock rows_of
count_locks-set_lock user [] = refl
count_locks-set_lock user (l ∷ ls) = ground (arith, count_locks-set_lock user ls)

count_locks-without_lock :
    (user : Bytes) (ls : List Lock) → count_locks true user (without_lock user ls) ≡ 0
unfolding count_locks without_lock
count_locks-without_lock user [] = refl
count_locks-without_lock user (l ∷ ls) = ground (arith, count_locks-without_lock user ls)

-- maildrop_lock on a database with these locks
abbrev pub lock_with : Pop.Database → Bytes → Table → ℤ
lock_with d user t = (maildrop_lock done (some user) true (record d { locks = t.locks })).1

-- What a login meets after a command; nothing is said of one that failed.
abbrev pub MeetsLock : Pop.Database → Bytes → ℤ → Table × ℤ → Type 0
MeetsLock d user rv (t, pos zero) = lock_with d user t ≡ rv
MeetsLock d user rv (t, status) = Unit

add-MeetsLock :
    (d : Pop.Database) (s : Statement) (t : Table) (user : Bytes)
    → MeetsLock d user (pos 0) (mode_add s t (user ∷ []))
unfolding mode_add maildrop_lock
add-MeetsLock d s t user = ground (arith, count_locks-new user t.locks, str_eq_iff user user)

unlock-MeetsLock :
    (d : Pop.Database) (b : Bool) (s : Statement) (t : Table) (user : Bytes)
    → MeetsLock d user
        (if rows_of user t.locks == 1 then pos 0 else negsuc 0)
        (mode_unlock b s t (user ∷ []))
unfolding mode_unlock maildrop_lock
unlock-MeetsLock d b s t user = ground (arith, count_locks-set_lock user t.locks)

delete-MeetsLock :
    (d : Pop.Database) (s : Statement) (t : Table) (user : Bytes)
    → MeetsLock d user (negsuc 0) (mode_delete s t (user ∷ []))
unfolding mode_delete maildrop_lock
delete-MeetsLock d s t user = ground (arith, count_locks-without_lock user t.locks)

-- What a POP3 login of a user meets after a command for the user that succeeded: after `enable` the
-- maildrop can be locked, after `unlock` it can just if the user has one row, and after `disable` it
-- can not.
pub commands-MeetsLock :
    (d : Pop.Database) (b : Bool) (s : Statement) (t : Table) (user : Bytes)
    → MeetsLock d user (pos 0) (mode_add s t (user ∷ []))
      × MeetsLock d user
          (if rows_of user t.locks == 1 then pos 0 else negsuc 0)
          (mode_unlock b s t (user ∷ []))
      × MeetsLock d user (negsuc 0) (mode_delete s t (user ∷ []))
commands-MeetsLock d b s t user =
    (add-MeetsLock d s t user, unlock-MeetsLock d b s t user, delete-MeetsLock d s t user)
