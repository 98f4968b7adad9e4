-- ===== src/Admin/Address.antt =====
-- cmail-admin/address: address.c, and the commands of cmail-admin-address.c. The table `addresses` is
-- the list of its rows, in which the order of a row is its primary key.
pub mod Swap
use cmail.Base.{
  ℕ, zero, Bool, true, false, ◌&&◌, ◌||◌, not, List, [], ◌∷◌, Option, none, some, ◌==◌,
  if◌then◌else◌, Bytes, codes, str_eq, ℤ, pos, negsuc, int_eq,
}
use cmail.Admin.Statement.{Statement, Query, status_of}

-- What a row says, but for its order
pub record Entry : Type 0 where
  pub address_expression : Bytes
  pub address_router : Bytes
  pub address_route : Option Bytes

abbrev pub Table : Type 0
Table = List (ℤ × Entry)

abbrev pub succeeded : ℤ → Bool
succeeded (pos zero) = true
succeeded _ = false

unfoldable pub router_valid : Bytes → Bool
router_valid router =
    str_eq router (codes "store")
    || str_eq router (codes "drop")
    || (str_eq router (codes "redirect") || str_eq router (codes "handoff"))
    || str_eq router (codes "reject")

-- the first row of an order; there is at most one
unfoldable pub entry_at : ℤ → Table → Option Entry
entry_at o [] = none
entry_at o ((k, e) ∷ t) = let rest = entry_at o t in if int_eq k o then some e else rest

abbrev pub is_free : ℤ → Table → Bool
is_free o t = elim (entry_at o t) [ none ↦ true | some e ↦ false ]

-- DELETE FROM addresses WHERE address_order = ?
unfoldable pub without_order : ℤ → Table → Table
without_order o [] = []
without_order o ((k, e) ∷ t) =
    let rest = without_order o t in if int_eq k o then rest else (k, e) ∷ rest

-- UPDATE addresses SET address_order = first WHERE address_order = second
unfoldable pub renumber : ℤ → ℤ → Table → Table
renumber first second [] = []
renumber first second ((k, e) ∷ t) =
    (if int_eq k second then first else k, e) ∷ renumber first second t

-- UPDATE addresses SET address_router = ?, address_route = ? WHERE address_order = ?
unfoldable pub reroute : ℤ → Bytes → Option Bytes → Table → Table
reroute o router route [] = []
reroute o router route ((k, e) ∷ t) =
    (k, if int_eq k o then record e { address_router = router; address_route = route } else e)
    ∷ reroute o router route t

unfoldable pub sqlite_get_address : Query (ℤ × Entry) → Table × ℤ
sqlite_get_address q =
    if q.is_prepared
    then if q.is_bound then (q.rows, status_of q.failure) else ([], pos 3)
    else ([], pos 2)

unfoldable pub sqlite_update_address : Statement → Table → ℤ → Bytes → Option Bytes → Table × ℤ
unfolding reroute
sqlite_update_address s t o router route =
    if s.is_prepared
    then if s.is_bound
      then if s.is_executed then (reroute o router route t, pos 0) else (t, pos 5)
      else (t, pos 3)
    else (t, pos 2)

-- The result is 0 also if the statement could not be bound or carried out.
unfoldable pub sqlite_delete_address : Statement → Table → ℤ → Table × ℤ
unfolding without_order
sqlite_delete_address s t o =
    if s.is_prepared
    then (if s.is_bound && s.is_executed then without_order o t else t, pos 0)
    else (t, pos 2)

-- A NULL expression breaks a constraint, as a taken order does.
abbrev pub insert_entry : Statement → Table → ℤ → Option Entry → Table × ℤ
insert_entry s t o none = (t, if s.is_prepared then if s.is_bound then pos 5 else pos 4 else pos 2)
insert_entry s t o (some e) =
    if s.is_prepared
    then if s.is_bound
      then if s.is_executed && is_free o t then ((o, e) ∷ t, pos 0) else (t, pos 5)
      else (t, pos 4)
    else (t, pos 2)

unfoldable pub sqlite_add_address_order : Statement → Table → ℤ → Option Entry → Table × ℤ
unfolding entry_at
sqlite_add_address_order s t o e = insert_entry s t o e

-- The database chooses the order.
unfoldable pub sqlite_add_address : Statement → ℤ → Table → Entry → Table × ℤ
unfolding entry_at
sqlite_add_address s chosen t e = insert_entry s t chosen (some e)

-- how the query for the first row ends, and whether the copies of its texts have memory
pub data Fetch : Type 0 where
  fetched : Bool → Fetch
  fetch_failed : Fetch

pub record SwapSql : Type 0 where
  pub are_prepared : Bool
  pub is_fetch_bound : Bool
  pub fetch : Fetch
  pub begins : Bool
  pub deletion : Statement
  pub is_update_bound : Bool
  pub is_update_executed : Bool
  pub insertion : Statement
  pub commits : Bool

-- The row that was found and the status. A failure of the query itself is none.
abbrev pub fetch_entry : Fetch → Option Entry → Option Entry × ℤ
fetch_entry (fetched has_memory) (some e) = if has_memory then (some e, pos 0) else (none, pos 19)
fetch_entry (fetched has_memory) none = (none, pos 20)
fetch_entry fetch_failed found = (none, pos 0)

-- The update is stepped whatever the status is; without its parameters it changes no row.
abbrev pub swap_update : SwapSql → ℤ → ℤ → Table × ℤ → Table × ℤ
swap_update q first second (t, pos zero) =
    if not q.is_update_executed
    then (t, pos 23)
    else if not q.is_update_bound
    then (t, pos 22)
    else if is_free second t
    then (t, pos 0)
    else if is_free first t || int_eq first second
    then (renumber first second t, pos 0)
    else (t, pos 23)
swap_update q first second (t, status) = (t, if q.is_update_executed then status else pos 23)

abbrev pub swap_delete : SwapSql → ℤ → Table → Table × ℤ
swap_delete q first t =
    let (t', status) = sqlite_delete_address q.deletion t first in
    (t', if succeeded status then pos 0 else pos 21)

abbrev pub swap_insert : SwapSql → ℤ → Option Entry → Table × ℤ → Table × ℤ
swap_insert q second e (t, pos zero) =
    let (t', status) = sqlite_add_address_order q.insertion t second e in
    (t', if succeeded status then pos 0 else pos 24)
swap_insert q second e (t, status) = (t, status)

-- ROLLBACK and COMMIT, and what they do if BEGIN or COMMIT failed
abbrev pub end_swap : SwapSql → Table → Table × ℤ → Table × ℤ
end_swap q t (t', pos zero) = (if q.begins && not q.commits then t else t', pos 0)
end_swap q t (t', status) = (if q.begins then t else t', status)

abbrev pub swap_entry : SwapSql → ℤ → ℤ → Table → Option Entry × ℤ → Table × ℤ
swap_entry q first second t (e, pos zero) =
    end_swap q t (swap_insert q second e (swap_update q first second (swap_delete q first t)))
swap_entry q first second t (e, status) = (t, status)

unfoldable pub sqlite_swap : SwapSql → Table → ℤ → ℤ → Table × ℤ
unfolding entry_at renumber sqlite_delete_address sqlite_add_address_order
sqlite_swap q t first second =
    if q.are_prepared && q.is_fetch_bound
    then swap_entry q first second t (fetch_entry q.fetch (entry_at first t))
    else (t, negsuc 0)

-- The arguments stand behind the command's name; `strtol` is that of the C library, as an int.
unfoldable pub mode_add : (Bytes → ℤ) → Statement → ℤ → Table → List Bytes → Table × ℤ
unfolding sqlite_add_address sqlite_add_address_order
mode_add strtol s chosen t (expression ∷ router ∷ []) =
    sqlite_add_address s chosen t
      (record { address_expression = expression; address_router = router; address_route = none })
mode_add strtol s chosen t (expression ∷ router ∷ route ∷ []) =
    sqlite_add_address s chosen t (record {
      address_expression = expression;
      address_router = router;
      address_route = some route;
    })
mode_add strtol s chosen t (expression ∷ router ∷ route ∷ order ∷ []) =
    sqlite_add_address_order s t (strtol order) (
      some (record {
        address_expression = expression;
        address_router = router;
        address_route = some route;
      }))
mode_add strtol s chosen t _ = (t, negsuc 0)

unfoldable pub mode_delete : (Bytes → ℤ) → Statement → Table → List Bytes → Table × ℤ
unfolding sqlite_delete_address
mode_delete strtol s t [] = (t, negsuc 0)
mode_delete strtol s t (order ∷ _) = sqlite_delete_address s t (strtol order)

unfoldable pub mode_swap : (Bytes → ℤ) → SwapSql → Table → List Bytes → Table × ℤ
unfolding sqlite_swap
mode_swap strtol q t (first ∷ second ∷ _) = sqlite_swap q t (strtol first) (strtol second)
mode_swap strtol q t _ = (t, negsuc 0)

unfoldable pub mode_update : (Bytes → ℤ) → Statement → Table → List Bytes → Table × ℤ
unfolding sqlite_update_address
mode_update strtol s t (order ∷ router ∷ []) = sqlite_update_address s t (strtol order) router none
mode_update strtol s t (order ∷ router ∷ route ∷ _) =
    sqlite_update_address s t (strtol order) router (some route)
mode_update strtol s t _ = (t, negsuc 0)

-- mode_list and mode_test, which differ in the text of their query
unfoldable pub mode_list : (Bytes → Query (ℤ × Entry)) → List Bytes → Table × ℤ
unfolding sqlite_get_address
mode_list q [] = sqlite_get_address (q (codes "%"))
mode_list q (filter ∷ _) = sqlite_get_address (q filter)
