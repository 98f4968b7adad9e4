-- ===== src/Smtpd/Resolve.antt =====
-- cmail-smtpd/path.c, path_resolve, and route.c, route_query: what the address tables say of a path
-- or of a user. The answers of sqlite and calloc are arguments. Comparing a missing argument column
-- is undefined in the source; here it is no match.
use cmail.Base.{
  Bool, false, ◌&&◌, List, [], ◌∷◌, Option, none, some, if◌then◌else◌, Bytes, codes, str_eq, ℤ, pos,
  negsuc, is_some,
}
use cmail.Auth.Credentials.{strdup}
use cmail.Smtpd.Types.{MailPath, MailRoute, no_route}

pub record Row : Type 0 where
  pub router : Bytes
  pub argument : Option Bytes

-- `rows` are the rows that sqlite3_step yields; `complete` says that SQLITE_DONE follows them.
pub record AddressQuery : Type 0 where
  pub bind_ok : Bool
  pub rows : List Row
  pub complete : Bool
  pub router_alloc : Bool
  pub argument_alloc : Bool

abbrev pub points_to : Bytes → Row → Bool
points_to user r =
    str_eq r.router (codes "store") && (elim r.argument [ none ↦ false | some a ↦ str_eq user a ])

-- the loop over the rows; `is_reverse` makes no difference to it
unfoldable pub pick_row : Option Bytes → List Row → Option Row
pick_row originating_user [] = none
pick_row none (r ∷ rs) = some r
pick_row (some user) (r ∷ rs) =
    let rest = pick_row (some user) rs in if points_to user r then some r else rest

abbrev copy_argument : Bool → Option Bytes → Option Bytes
copy_argument ok none = none
copy_argument ok (some a) = strdup ok a

abbrev pub router_is : Option Bytes → Bytes → Bool
router_is none name = false
router_is (some r) name = str_eq r name

abbrev set_route : AddressQuery → Row → MailPath → MailPath
set_route q r p = record p {
  route = record {
    router = strdup q.router_alloc r.router;
    argument = copy_argument q.argument_alloc r.argument;
  };
}

resolve_row : AddressQuery → Option Row → MailPath → MailPath × ℤ
resolve_row q none p = (p, if q.complete then pos 0 else negsuc 0)
resolve_row q (some r) p =
    let p' = set_route q r p in
    (
      p',
      if q.router_alloc
          then if router_is p'.route.router (codes "reject") then pos 1 else pos 0
          else negsuc 0,
    )

unfoldable pub path_resolve : AddressQuery → Option Bytes → MailPath → MailPath × ℤ
unfolding resolve_row
path_resolve q originating_user p =
    if is_some p.route.router
    then (p, pos 0)
    else if q.bind_ok
    then resolve_row q (pick_row originating_user q.rows) p
    else (p, negsuc 0)

-- what sqlite3_step answers to the query of the outbound router
pub record RouteQuery : Type 0 where
  pub bind_ok : Bool
  pub answer : Option Row
  pub router_alloc : Bool
  pub argument_alloc : Bool

route_of : RouteQuery → Option Row → MailRoute
route_of q none = no_route
route_of q (some r) = record {
  router = strdup q.router_alloc r.router;
  argument = copy_argument q.argument_alloc r.argument;
}

unfoldable pub route_query : RouteQuery → Option Bytes → MailRoute
unfolding route_of
route_query q none = no_route
route_query q (some user) = if q.bind_ok then route_of q q.answer else no_route
