-- ===== src/Admin/Popd.antt =====
-- cmail-admin/popd: popd.c, and the commands of cmail-admin-popd.c, on the table `popd` of locks.
pub mod Logins
use cmail.Base.{
  Bool, true, false, not, ◌&&◌, ◌||◌, List, [], ◌∷◌, if◌then◌else◌, Bytes, codes, str_eq, is_one_of,
  ℤ, pos, negsuc,
}
use cmail.Popd.Types.{Lock}
use cmail.Admin.Statement.{Statement, Query, status_of}

-- The users, to whom the rows refer, and the rows
pub record Table : Type 0 where
  pub users : List Bytes
  pub locks : List Lock

unfoldable pub has_lock : Bytes → List Lock → Bool
has_lock user [] = false
has_lock user (l ∷ ls) = str_eq l.pop_user user || has_lock user ls

-- UPDATE popd SET pop_lock = ? WHERE pop_user = ?
unfoldable pub set_lock : Bool → Bytes → List Lock → List Lock
set_lock b user [] = []
set_lock b user (l ∷ ls) =
    (if str_eq l.pop_user user then record l { pop_lock = b } else l) ∷ set_lock b user ls

unfoldable pub without_lock : Bytes → List Lock → List Lock
without_lock user [] = []
without_lock user (l ∷ ls) =
    let rest = without_lock user ls in if str_eq l.pop_user user then rest else l ∷ rest

-- How a statement ends; `unbound` is the status where a parameter cannot be bound.
abbrev pub execute : Statement → ℤ → Bool → Table → List Lock → Table × ℤ
execute s unbound may t locks =
    if s.is_prepared
    then if s.is_bound
      then if s.is_executed && may then (record t { locks = locks }, pos 0) else (t, pos 5)
      else (t, unbound)
    else (t, pos 2)

-- sqlite_get_popd, and sqlite_get_all_popd with no parameter to bind
unfoldable pub sqlite_get_popd : Query Lock → List Lock × ℤ
sqlite_get_popd q =
    if q.is_prepared
    then if q.is_bound then (q.rows, status_of q.failure) else ([], pos 3)
    else ([], pos 2)

unfoldable pub sqlite_add_popd : Statement → Table → Bytes → Table × ℤ
unfolding has_lock
sqlite_add_popd s t user =
    execute s (pos 91) (is_one_of user t.users && not (has_lock user t.locks)) t
      (record { pop_user = user; pop_lock = false } ∷ t.locks)

-- 81 if the lock cannot be bound, and 82 for the user
unfoldable pub sqlite_update_popd : Bool → Statement → Table → Bytes → Bool → Table × ℤ
unfolding set_lock
sqlite_update_popd is_lock_bound s t user lock =
    execute s (if is_lock_bound then pos 82 else pos 81) true t (set_lock lock user t.locks)

unfoldable pub sqlite_delete_popd : Statement → Table → Bytes → Table × ℤ
unfolding without_lock
sqlite_delete_popd s t user = execute s (pos 3) true t (without_lock user t.locks)

-- The arguments stand behind the command's name.
unfoldable pub mode_add : Statement → Table → List Bytes → Table × ℤ
unfolding sqlite_add_popd
mode_add s t [] = (t, negsuc 0)
mode_add s t (user ∷ _) = sqlite_add_popd s t user

unfoldable pub mode_delete : Statement → Table → List Bytes → Table × ℤ
unfolding sqlite_delete_popd
mode_delete s t [] = (t, negsuc 0)
mode_delete s t (user ∷ _) = sqlite_delete_popd s t user

unfoldable pub mode_unlock : Bool → Statement → Table → List Bytes → Table × ℤ
unfolding sqlite_update_popd
mode_unlock is_lock_bound s t [] = (t, negsuc 0)
mode_unlock is_lock_bound s t (user ∷ _) = sqlite_update_popd is_lock_bound s t user false

unfoldable pub mode_list : (Bytes → Query Lock) → List Bytes → List Lock × ℤ
unfolding sqlite_get_popd
mode_list q [] = sqlite_get_popd (q (codes "%"))
mode_list q (filter ∷ _) = sqlite_get_popd (q filter)
