-- ===== src/Admin/Permissions/Refine.antt =====
-- cmail-admin/permissions: the permissions after any commands.
use cmail.Base.{
  ℕ, suc, Bool, true, false, ◌&&◌, ◌||◌, not, List, [], ◌∷◌, ◌≡◌, refl, ap, ◌∙◌, ◌⊎◌, arith, Bytes,
  str_eq, str_eq_iff, is_one_of, Bool-cases, inl, inr,
}
use cmail.Admin.Statement.{succeeds}
use cmail.Admin.Permissions.{
  Api, Row, row_eq, has_row, without_row, insert_row, delete_row, sqlite_delete_permission,
  mode_grant, mode_revoke, revoke_each,
}

-- A command that changes permissions
pub data Command : Type 0 where
  grant : Bytes → Bytes → Command
  revoke : Bytes → List Bytes → Command

abbrev pub run : Command → Api → Api
run (grant user permission) d = (mode_grant succeeds d (user ∷ permission ∷ [])).0
run (revoke user permissions) d = (mode_revoke (λ n. succeeds) d (user ∷ permissions)).0

abbrev pub run_all : List Command → Api → Api
run_all [] d = d
run_all (c ∷ cs) d = run_all cs (run c d)

-- Whether a user has a permission, as a switch: a grant to a user that exists sets it, and a revoke that
-- names the permission clears it.
abbrev pub switched : List Bytes → Bytes → Bytes → Command → Bool → Bool
switched users u p (grant user permission) before =
    (is_one_of u users && (str_eq user u && str_eq permission p)) || before
switched users u p (revoke user permissions) before =
    not (str_eq user u && is_one_of p permissions) && before

abbrev pub switched_all : List Bytes → Bytes → Bytes → List Command → Bool → Bool
switched_all users u p [] before = before
switched_all users u p (c ∷ cs) before = switched_all users u p cs (switched users u p c before)

has_row-without_row :
    (r s : Row) (t : List Row) → has_row s (without_row r t) ≡ (not (row_eq r s) && has_row s t)
unfolding has_row without_row
has_row-without_row r s [] = ground arith
has_row-without_row (a, b) (c, d) ((x, y) ∷ t) = ground (
  arith,
  has_row-without_row (a, b) (c, d) t,
  str_eq_iff x a,
  str_eq_iff y b,
  str_eq_iff x c,
  str_eq_iff y d,
  str_eq_iff a c,
  str_eq_iff b d,
)

row_eq-eq : (r s : Row) → row_eq r s ≡ true → r ≡ s
row_eq-eq (a, b) (c, d) h =
    let p = (str_eq_iff a c).0 (ground arith) in let q = (str_eq_iff b d).0 (ground arith) in cc

has_row-insert_row :
    (known : Bool) (r s : Row) (t : List Row)
    → has_row s (insert_row succeeds known r t).0 ≡ ((known && row_eq r s) || has_row s t)
unfolding insert_row has_row
has_row-insert_row false r s t = refl
has_row-insert_row true r s t = elim (Bool-cases (has_row r t)) [
  | inl old ↦ elim (Bool-cases (row_eq r s)) [
    | inl same ↦ rw (old, same) (rw (← row_eq-eq r s same) old)
    | inr other ↦ rw (old, other) refl
  ]
  | inr new ↦ rw new refl
]

unfoldable pub has : Api → Bytes → Bytes → Bool
has d u p = has_row (u, p) d.access

grant-switched :
    (d : Api) (u p user permission : Bytes)
    → has (run (grant user permission) d) u p
      ≡ switched d.users u p (grant user permission) (has d u p)
unfolding has mode_grant
grant-switched d u p user permission =
    has_row-insert_row (is_one_of user d.users) (user, permission) (u, p) d.access
    ∙ ap (λ b. b || has_row (u, p) d.access) (known_same (Bool-cases (str_eq user u)))
  where
    known_same :
        (str_eq user u ≡ true) ⊎ (str_eq user u ≡ false)
        → (is_one_of user d.users && (str_eq user u && str_eq permission p))
          ≡ (is_one_of u d.users && (str_eq user u && str_eq permission p))
    known_same (inl e) =
        ap (λ x. is_one_of x d.users && (str_eq user u && str_eq permission p))
          ((str_eq_iff user u).0 e)
    known_same (inr e) = rw e (ground arith)

revoke_each-switched :
    (d : Api) (u p user : Bytes) (n : ℕ) (ps : List Bytes)
    → let d' = (revoke_each (λ n. succeeds) user n ps d).0 in
      (has d' u p ≡ (not (str_eq user u && is_one_of p ps) && has d u p)) × (d'.users ≡ d.users)
unfolding revoke_each has sqlite_delete_permission delete_row
revoke_each-switched d u p user n [] = (ground arith, refl)
revoke_each-switched d u p user n (x ∷ ps) =
    let d' = record d { access = without_row (user, x) d.access } in
    let (later, users) = revoke_each-switched d' u p user (suc n) ps in
    (later ∙ rw (has_row-without_row (user, x) (u, p) d.access) (ground arith), users)

run-switched :
    (c : Command) (d : Api) (u p : Bytes)
    → (has (run c d) u p ≡ switched d.users u p c (has d u p)) × ((run c d).users ≡ d.users)
unfolding mode_grant mode_revoke
run-switched (grant user permission) d u p = (grant-switched d u p user permission, refl)
run-switched (revoke user []) d u p = (ground arith, refl)
run-switched (revoke user (x ∷ ps)) d u p = revoke_each-switched d u p user 0 (x ∷ ps)

-- If all statements succeed, then after any commands a user has a permission just if the switch for
-- it is on: a grant to a user that exists sets it, a revoke that names it clears it, and a revoke
-- that names none, which is to take them all, does nothing.
pub run_all-switched :
    (cs : List Command) (d : Api) (u p : Bytes)
    → has (run_all cs d) u p ≡ switched_all d.users u p cs (has d u p)
run_all-switched [] d u p = refl
run_all-switched (c ∷ cs) d u p =
    let (now, users) = run-switched c d u p in
    run_all-switched cs (run c d) u p ∙ rw users (ap (switched_all d.users u p cs) now)
