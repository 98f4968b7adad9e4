-- ===== src/Admin/Smtpd.antt =====
-- cmail-admin/smtpd: smtpd.c, and the commands of cmail-admin-smtpd.c, on the table `smtpd` of the
-- outbound routers.
use cmail.Base.{
  Bool, true, false, ◌&&◌, List, [], ◌∷◌, Option, none, some, if◌then◌else◌, Bytes, codes, str_eq,
  is_one_of, ℤ, pos, negsuc,
}
use cmail.Admin.Statement.{Statement, Query, status_of}

pub record Router : Type 0 where
  pub smtpd_user : Bytes
  pub smtpd_router : Bytes
  pub smtpd_route : Option Bytes

-- The users, to whom the rows refer, and the rows
pub record Table : Type 0 where
  pub users : List Bytes
  pub routers : List Router

unfoldable pub router_of : Bytes → List Router → Option Router
router_of user [] = none
router_of user (r ∷ rs) =
    let later = router_of user rs in if str_eq r.smtpd_user user then some r else later

unfoldable pub set_router : Bytes → Bytes → Option Bytes → List Router → List Router
set_router user router argument [] = []
set_router user router argument (r ∷ rs) =
    (if str_eq r.smtpd_user user
      then record r { smtpd_router = router; smtpd_route = argument }
      else r)
    ∷ set_router user router argument rs

unfoldable pub without_router : Bytes → List Router → List Router
without_router user [] = []
without_router user (r ∷ rs) =
    let rest = without_router user rs in if str_eq r.smtpd_user user then rest else r ∷ rest

abbrev pub is_new : Option Router → Bool
is_new none = true
is_new (some r) = false

-- How a statement ends; `unbound` is the status where a parameter cannot be bound.
abbrev pub execute : Statement → ℤ → Bool → Table → List Router → Table × ℤ
execute s unbound may t routers =
    if s.is_prepared
    then if s.is_bound
      then if s.is_executed && may then (record t { routers = routers }, pos 0) else (t, pos 5)
      else (t, unbound)
    else (t, pos 2)

unfoldable pub sqlite_get_msa : Query Router → List Router × ℤ
sqlite_get_msa q =
    if q.is_prepared
    then if q.is_bound then (q.rows, status_of q.failure) else ([], pos 3)
    else ([], pos 2)

unfoldable pub sqlite_update_msa : Statement → Table → Bytes → Bytes → Option Bytes → Table × ℤ
unfolding set_router
sqlite_update_msa s t user router argument =
    execute s (pos 72) true t (set_router user router argument t.routers)

unfoldable pub sqlite_delete_msa : Statement → Table → Bytes → Table × ℤ
unfolding without_router
sqlite_delete_msa s t user = execute s (pos 3) true t (without_router user t.routers)

-- The row of a user who is given no router: the default of the table, without an argument
abbrev pub router_row : Bytes → Option Bytes → Option Bytes → Router
router_row user none argument = record {
  smtpd_user = user;
  smtpd_router = codes "drop";
  smtpd_route = none;
}
router_row user (some router) argument = record {
  smtpd_user = user;
  smtpd_router = router;
  smtpd_route = argument;
}

unfoldable pub sqlite_add_msa : Statement → Table → Bytes → Option Bytes → Option Bytes → Table × ℤ
unfolding router_of
sqlite_add_msa s t user router argument =
    execute s (pos 3) (is_one_of user t.users && is_new (router_of user t.routers)) t
      (router_row user router argument ∷ t.routers)

-- The arguments stand behind the command's name.
unfoldable pub mode_add : Statement → Table → List Bytes → Table × ℤ
unfolding sqlite_add_msa
mode_add s t [] = (t, negsuc 0)
mode_add s t (user ∷ []) = sqlite_add_msa s t user none none
mode_add s t (user ∷ router ∷ []) = sqlite_add_msa s t user (some router) none
mode_add s t (user ∷ router ∷ argument ∷ _) = sqlite_add_msa s t user (some router) (some argument)

unfoldable pub mode_delete : Statement → Table → List Bytes → Table × ℤ
unfolding sqlite_delete_msa
mode_delete s t (user ∷ []) = sqlite_delete_msa s t user
mode_delete s t _ = (t, negsuc 0)

unfoldable pub mode_update : Statement → Table → List Bytes → Table × ℤ
unfolding sqlite_update_msa
mode_update s t (user ∷ router ∷ []) = sqlite_update_msa s t user router none
mode_update s t (user ∷ router ∷ argument ∷ _) = sqlite_update_msa s t user router (some argument)
mode_update s t _ = (t, negsuc 0)

unfoldable pub mode_list : (Bytes → Query Router) → List Bytes → List Router × ℤ
unfolding sqlite_get_msa
mode_list q [] = sqlite_get_msa (q (codes "%"))
mode_list q (filter ∷ _) = sqlite_get_msa (q filter)
