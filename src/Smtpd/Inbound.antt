-- ===== src/Smtpd/Inbound.antt =====
-- cmail-smtpd/route.c, route_local_path: what becomes of a mail for a local recipient.
pub mod Once
pub mod Every
use cmail.Base.{
  ℕ, Bool, true, false, ◌&&◌, List, [], ◌∷◌, Option, none, some, if◌then◌else◌, ltb, ◌+◌, length, ℤ,
  pos, negsuc, ◌==◌, ◌-◌, ◌||◌, zero, suc, is_negative, Bytes, codes, c_str, take, drop, get_elem?,
}
use cmail.Common.Strrepl.{common_strrepl}
use cmail.Smtpd.Types.{MailPath, MailRoute, smtp_max_path_length}
use cmail.Smtpd.Resolve.{router_is}
use cmail.Smtpd.Delivery.{Insert, done, mail_store}

-- A row of mail_store_inbox, in the master database or in that of a user, or of mail_store_outbox.
pub data Entry : Type 0 where
  master : MailPath → Entry
  user_database : Bytes → MailPath → Entry
  outbox : Option Bytes → Bytes → Entry

-- how the query for the user of a route ends
pub data UserAnswer : Type 0 where
  bind_failed no_user step_failed : UserAnswer
  user_row : Option Bytes → UserAnswer

-- An insert statement: whether its parameters are bound, and its status.
pub record Insertion : Type 0 where
  pub is_bound : Bool
  pub status : Insert

-- What the databases answer. `retry` is the last statement on the master database.
pub record Storage : Type 0 where
  pub user : Bytes → UserAnswer
  pub attached : Bytes → Bool
  pub attached_after_refresh : Bytes → Bool
  pub insert : Entry → Insertion
  pub retry : Insertion

-- The rows that were stored and the result, or the behaviour of C is undefined.
pub data Routed : Type 0 where
  undefined : Routed
  routed : List Entry → ℤ → Routed

abbrev pub stored_by : Entry → Bool → Insert → List Entry
stored_by e true done = e ∷ []
stored_by e _ _ = []

unfoldable pub attempt : Entry → Insertion → Routed
unfolding mail_store
attempt e i = routed (stored_by e i.is_bound i.status) (mail_store i.is_bound i.status)

abbrev pub store_at : Storage → MailPath → Bytes → Routed
store_at q p name =
    if q.attached name
    then attempt (user_database name p) (q.insert (user_database name p))
    else if q.attached_after_refresh name
    then attempt (user_database name p) (q.insert (user_database name p))
    else attempt (master p) (q.insert (master p))

unfoldable pub store_for : Storage → MailPath → UserAnswer → Routed
unfolding attempt
store_for q p (user_row (some name)) = store_at q p name
store_for q p (user_row none) = attempt (master p) (q.insert (master p))
store_for q p _ = routed [] (negsuc 0)

-- `if(rv)`: one more statement, on the master database
unfoldable pub or_retry : Storage → MailPath → Routed → Routed
unfolding attempt
or_retry q p undefined = undefined
or_retry q p (routed stored (pos zero)) = routed stored (pos 0)
or_retry q p (routed stored _) = attempt (master p) q.retry

-- The part of a path behind its delimiter, or behind that and `skip` bytes.
abbrev pub domain_of : MailPath → ℕ → Bytes
domain_of p skip = c_str (drop (p.delimiter_position + skip) p.path)

abbrev pub local_of : MailPath → Bytes
local_of p = take p.delimiter_position (c_str p.path)

-- `current_path->path[current_path->delimiter_position] ? 1:0`
abbrev pub delimiter_length : MailPath → ℕ
delimiter_length p = elim (get_elem? p.path p.delimiter_position) [
  | none ↦ 0
  | some c ↦ if c == 0 then 0 else 1
]

-- A replacement in the envelope, unless one before it failed.
abbrev pub replace : Bytes → Bytes → Bytes × ℤ → Bytes × ℤ
replace variable replacement (s, pos n) = common_strrepl s smtp_max_path_length variable replacement
replace variable replacement (s, negsuc n) = (s, negsuc 0)

-- The third test of the domain looks at the recipient where it means the sender.
unfoldable pub envelope : MailPath → MailPath → Bytes → Bytes × ℤ
unfolding common_strrepl
envelope reverse p argument =
    replace (codes "(from-domain)") (domain_of reverse (delimiter_length p)) (
      replace (codes "(from-local)") (local_of reverse) (
        replace (codes "(to-domain)") (domain_of p (delimiter_length p))
          (replace (codes "(to-local)") (local_of p) (argument, pos 0))))

abbrev pub send_to : Storage → Bytes × ℤ → Routed
send_to q (to, pos n) = attempt (outbox none to) (q.insert (outbox none to))
send_to q (to, negsuc n) = routed [] (negsuc 0)

-- The argument leaves forward_path terminated, and the delimiters stand inside path_replacement.
unfoldable pub fits : MailPath → MailPath → Bytes → Bool
fits reverse p argument =
    ltb (length argument) (smtp_max_path_length - 1)
    && (ltb p.delimiter_position smtp_max_path_length
        && ltb reverse.delimiter_position smtp_max_path_length)

-- The router with an argument; one that is not known does nothing.
unfoldable pub route_with : Storage → MailPath → MailPath → Bytes → Bytes → Routed
unfolding fits envelope or_retry store_for attempt
route_with q reverse p router argument =
    if router_is (some router) (codes "store")
    then or_retry q p (store_for q p (q.user argument))
    else if router_is (some router) (codes "redirect")
    then if fits reverse p argument then send_to q (envelope reverse p argument) else undefined
    else if router_is (some router) (codes "handoff")
    then attempt (outbox (some argument) (c_str p.path))
        (q.insert (outbox (some argument) (c_str p.path)))
    else if router_is (some router) (codes "reject")
    then routed [] (negsuc 0)
    else routed [] (pos 0)

unfoldable pub needs_argument : Bytes → Bool
needs_argument router =
    router_is (some router) (codes "store")
    || router_is (some router) (codes "redirect")
    || router_is (some router) (codes "handoff")

unfoldable pub route_without : Bytes → Routed
unfolding needs_argument
route_without router =
    if needs_argument router
    then routed [] (negsuc 0)
    else if router_is (some router) (codes "reject")
    then routed [] (negsuc 0)
    else routed [] (pos 0)

unfoldable pub route_by : Storage → MailPath → MailPath → Option Bytes → Option Bytes → Routed
unfolding route_with route_without
route_by q reverse p none argument = routed [] (negsuc 0)
route_by q reverse p (some router) none = route_without router
route_by q reverse p (some router) (some argument) = route_with q reverse p router argument

unfoldable pub route_local_path : Storage → MailPath → MailPath → Routed
unfolding route_by
route_local_path q reverse p = route_by q reverse p p.route.router p.route.argument
