-- ===== src/Admin/Permissions.antt =====
-- cmail-admin/permissions: permissions.c, and the commands of cmail-admin-permissions.c. The tables
-- `api_access`, `api_address_delegates` and `api_user_delegates` are lists of their rows; no row
-- stands in one of them twice, and a user in a row stands in `users`.
pub mod Refine
use cmail.Base.{
  ℕ, zero, suc, ◌+◌, not, Bool, true, false, ◌&&◌, ◌||◌, List, [], ◌∷◌, ◌++◌, none, if◌then◌else◌,
  ltb, length, get_elem?, Bytes, codes, str_eq, is_one_of, ℤ, pos,
}
use cmail.Admin.Statement.{Statement, Query, status_of}

abbrev pub Row : Type 0
Row = Bytes × Bytes

pub record Api : Type 0 where
  pub users : List Bytes
  pub access : List Row
  pub address_delegates : List Row
  pub user_delegates : List Row

abbrev pub row_eq : Row → Row → Bool
row_eq (a, b) (c, d) = str_eq a c && str_eq b d

unfoldable pub has_row : Row → List Row → Bool
has_row r [] = false
has_row r (x ∷ xs) = row_eq x r || has_row r xs

-- DELETE ... WHERE both columns fit
unfoldable pub without_row : Row → List Row → List Row
without_row r [] = []
without_row r (x ∷ xs) = let rest = without_row r xs in if row_eq x r then rest else x ∷ rest

-- The statements of two parameters: 2 if not prepared, 3 if not bound, 5 if not carried out.
-- `may` is what the constraints say.
abbrev pub execute : Statement → Bool → List Row → List Row → List Row × ℤ
execute s may t t' =
    if s.is_prepared
    then if s.is_bound then if s.is_executed && may then (t', pos 0) else (t, pos 5) else (t, pos 3)
    else (t, pos 2)

unfoldable pub insert_row : Statement → Bool → Row → List Row → List Row × ℤ
unfolding has_row
insert_row s known r t = execute s (known && not (has_row r t)) t (r ∷ t)

unfoldable pub delete_row : Statement → Row → List Row → List Row × ℤ
unfolding without_row
delete_row s r t = execute s true t (without_row r t)

abbrev pub with_access : Api → List Row × ℤ → Api × ℤ
with_access d (t, status) = (record d { access = t }, status)

abbrev pub with_address_delegates : Api → List Row × ℤ → Api × ℤ
with_address_delegates d (t, status) = (record d { address_delegates = t }, status)

abbrev pub with_user_delegates : Api → List Row × ℤ → Api × ℤ
with_user_delegates d (t, status) = (record d { user_delegates = t }, status)

unfoldable pub sqlite_add_permission : Statement → Api → Bytes → Bytes → Api × ℤ
unfolding insert_row
sqlite_add_permission s d user permission =
    with_access d (insert_row s (is_one_of user d.users) (user, permission) d.access)

unfoldable pub sqlite_delegate_address : Statement → Api → Bytes → Bytes → Api × ℤ
unfolding insert_row
sqlite_delegate_address s d user expression =
    with_address_delegates d
      (insert_row s (is_one_of user d.users) (user, expression) d.address_delegates)

unfoldable pub sqlite_delegate_user : Statement → Api → Bytes → Bytes → Api × ℤ
unfolding insert_row
sqlite_delegate_user s d user delegated = with_user_delegates d (
    insert_row s (is_one_of user d.users && is_one_of delegated d.users) (user, delegated)
      d.user_delegates)

unfoldable pub sqlite_delete_permission : Statement → Api → Bytes → Bytes → Api × ℤ
unfolding delete_row
sqlite_delete_permission s d user permission =
    with_access d (delete_row s (user, permission) d.access)

unfoldable pub sqlite_delete_address_delegation : Statement → Api → Bytes → Bytes → Api × ℤ
unfolding delete_row
sqlite_delete_address_delegation s d user expression =
    with_address_delegates d (delete_row s (user, expression) d.address_delegates)

unfoldable pub sqlite_delete_user_delegation : Statement → Api → Bytes → Bytes → Api × ℤ
unfolding delete_row
sqlite_delete_user_delegation s d user delegate =
    with_user_delegates d (delete_row s (user, delegate) d.user_delegates)

-- The statement is prepared and bound, but never stepped.
unfoldable pub sqlite_delete_permissions : Statement → Api → Bytes → Api × ℤ
sqlite_delete_permissions s d user =
    (d, if s.is_prepared then if s.is_bound then pos 0 else pos 101 else pos 2)

-- The rows that are printed, and the result. The expressions with LIKE are evaluated by sqlite.
unfoldable pub sqlite_exec_select : Query Row → List Row × ℤ
sqlite_exec_select q = (q.rows, status_of q.failure)

-- sqlite_get_delegated_users, _addresses, sqlite_get_permissions and _by_permission
unfoldable pub select : Query Row → List Row × ℤ
unfolding sqlite_exec_select
select q =
    if q.is_prepared then if q.is_bound then sqlite_exec_select q else ([], pos 3) else ([], pos 2)

-- The second list is printed if the first one ended well.
abbrev pub and_then : List Row × ℤ → List Row × ℤ → List Row × ℤ
and_then (rows, pos zero) (rows', status) = (rows ++ rows', status)
and_then (rows, status) _ = (rows, status)

unfoldable pub sqlite_get_delegated : Query Row → Query Row → List Row × ℤ
unfolding select
sqlite_get_delegated users addresses = and_then (select users) (select addresses)

-- The arguments stand behind the command's name.
unfoldable pub mode_grant : Statement → Api → List Bytes → Api × ℤ
unfolding sqlite_add_permission
mode_grant s d (user ∷ permission ∷ _) = sqlite_add_permission s d user permission
mode_grant s d _ = (d, pos 20)

-- `if(!status)`
abbrev pub unless_failed : Api × ℤ → (Api → Api × ℤ) → Api × ℤ
unless_failed (d, pos zero) next = next d
unless_failed (d, status) next = (d, status)

-- `sql n` is the statement for the n-th permission.
unfoldable pub revoke_each : (ℕ → Statement) → Bytes → ℕ → List Bytes → Api → Api × ℤ
unfolding sqlite_delete_permission
revoke_each sql user n [] d = (d, pos 0)
revoke_each sql user n (p ∷ ps) d =
    unless_failed (sqlite_delete_permission (sql n) d user p) (revoke_each sql user (suc n) ps)

unfoldable pub mode_revoke : (ℕ → Statement) → Api → List Bytes → Api × ℤ
unfolding revoke_each sqlite_delete_permissions
mode_revoke sql d [] = (d, pos 20)
mode_revoke sql d (user ∷ []) = sqlite_delete_permissions (sql 0) d user
mode_revoke sql d (user ∷ p ∷ ps) = revoke_each sql user 0 (p ∷ ps) d

unfoldable pub mode_delete : Statement → Api → List Bytes → Api × ℤ
unfolding sqlite_delete_address_delegation sqlite_delete_user_delegation
mode_delete s d (kind ∷ user ∷ what ∷ _) =
    if str_eq kind (codes "expression")
    then sqlite_delete_address_delegation s d user what
    else if str_eq kind (codes "user")
    then sqlite_delete_user_delegation s d user what
    else (d, pos 120)
mode_delete s d _ = (d, pos 20)

-- What one command may print, and how it ends
pub record Output : Type 0 where
  pub api : Api
  pub printed : List Row
  pub status : ℤ

abbrev pub changed : Api × ℤ → Output
changed (d, status) = record { api = d; printed = []; status = status }

abbrev pub listed : Api → List Row × ℤ → Output
listed d (rows, status) = record { api = d; printed = rows; status = status }

-- The queries of the program, by what they are filtered with
pub record Queries : Type 0 where
  pub permissions : Bytes → Query Row
  pub users_with : Bytes → Query Row
  pub delegated_users : Bytes → Query Row
  pub delegated_addresses : Bytes → Query Row

-- "%" fits every text.
abbrev pub any : Bytes
any = codes "%"

unfoldable pub delegate_kind : Queries → Statement → Api → Bytes → List Bytes → Output
unfolding select sqlite_get_delegated sqlite_delegate_address sqlite_delegate_user
delegate_kind q s d kind [] =
    if str_eq kind (codes "address")
    then listed d (select (q.delegated_addresses any))
    else if str_eq kind (codes "user")
    then listed d (select (q.delegated_users any))
    else listed d (sqlite_get_delegated (q.delegated_users kind) (q.delegated_addresses kind))
delegate_kind q s d kind (user ∷ []) =
    if str_eq kind (codes "address")
    then listed d (select (q.delegated_addresses user))
    else if str_eq kind (codes "user")
    then listed d (select (q.delegated_users user))
    else listed d (sqlite_get_delegated (q.delegated_users kind) (q.delegated_addresses kind))
delegate_kind q s d kind (user ∷ what ∷ _) =
    if str_eq kind (codes "address")
    then changed (sqlite_delegate_address s d user what)
    else if str_eq kind (codes "user")
    then changed (sqlite_delegate_user s d user what)
    else listed d (sqlite_get_delegated (q.delegated_users kind) (q.delegated_addresses kind))

unfoldable pub mode_delegate : Queries → Statement → Api → List Bytes → Output
unfolding delegate_kind
mode_delegate q s d [] =
    listed d (sqlite_get_delegated (q.delegated_users any) (q.delegated_addresses any))
mode_delegate q s d (kind ∷ args) = delegate_kind q s d kind args

unfoldable pub mode_list : Queries → Api → List Bytes → Output
unfolding select
mode_list q d [] = listed d (select (q.permissions any))
mode_list q d (filter ∷ _) = listed d (select (q.permissions filter))

unfoldable pub mode_rlist : Queries → Api → List Bytes → Output
unfolding select
mode_rlist q d [] = changed (d, pos 20)
mode_rlist q d (permission ∷ _) = listed d (select (q.users_with permission))

-- The commands of `main`; an unknown one prints the usage, with status 0.
unfoldable pub run_command : (ℕ → Statement) → Queries → Api → Bytes → List Bytes → Output
unfolding mode_grant mode_revoke mode_delete mode_delegate mode_list mode_rlist
run_command sql q d name args =
    if str_eq name (codes "grant")
    then changed (mode_grant (sql 0) d args)
    else if str_eq name (codes "revoke")
    then changed (mode_revoke sql d args)
    else if str_eq name (codes "delete")
    then changed (mode_delete (sql 0) d args)
    else if str_eq name (codes "delegate")
    then mode_delegate q (sql 0) d args
    else if str_eq name (codes "list")
    then mode_list q d args
    else if str_eq name (codes "rlist")
    then mode_rlist q d args
    else changed (d, pos 0)
