-- ===== src/Smtpd/Delivery.antt =====
-- cmail-smtpd/mail.c, mail_route and mail_originate, and the contract of mail_store_inbox and
-- mail_store_outbox: 0 for stored, 1 to defer, -1 to fail.
pub mod Verdicts
use cmail.Base.{
  ℕ, suc, Bool, true, false, ◌||◌, not, zero, List, [], ◌∷◌, Option, none, some, if◌then◌else◌,
  Bytes, codes, ℤ, pos, negsuc, get_elem?, is_some, ◌+◌,
}
use cmail.Smtpd.Types.{MailPath, MailRoute}
use cmail.Smtpd.PathPool.{PathPool}
use cmail.Smtpd.Resolve.{router_is}
use cmail.Smtpd.Session.{Delivery}

-- the status of sqlite3_step on an insert statement
pub data Insert : Type 0 where
  done too_big constraint range other : Insert

unfoldable pub mail_store : Bool → Insert → ℤ
mail_store false status = negsuc 0
mail_store true done = pos 0
mail_store true too_big = negsuc 0
mail_store true constraint = negsuc 0
mail_store true range = negsuc 0
mail_store true other = pos 1

-- The switch on a recipient's verdict; `later` is the rest of the loop.
abbrev pub on_verdict : ℤ → ℕ → ℕ
on_verdict (pos zero) later = later
on_verdict (pos (suc zero)) later = 400
on_verdict _ later = 500

abbrev pub has_router : PathPool → ℕ → Bool
has_router pool slot = elim (get_elem? pool.paths slot) [
  | none ↦ false
  | some p ↦ is_some p.route.router
]

abbrev pub verdict : Delivery → PathPool → ℕ → ℕ → ℤ
verdict d pool slot i = if has_router pool slot then d.local i else d.outbox i

unfoldable pub mail_route_from : Delivery → PathPool → ℕ → List ℕ → ℕ
mail_route_from d pool i [] = 250
mail_route_from d pool i (slot ∷ slots) =
    on_verdict (verdict d pool slot i) (mail_route_from d pool (i + 1) slots)

unfoldable pub mail_route : Delivery → PathPool → List ℕ → ℕ
unfolding mail_route_from
mail_route d pool slots = mail_route_from d pool 0 slots

handoff_from : Delivery → ℕ → List ℕ → ℕ
handoff_from d i [] = 250
handoff_from d i (slot ∷ slots) = on_verdict (d.outbox i) (handoff_from d (i + 1) slots)

unfoldable pub mail_originate : Delivery → PathPool → MailRoute → List ℕ → ℕ
unfolding handoff_from mail_route
mail_originate d pool route slots =
    if not (is_some route.router)
    then 500
    else if router_is route.router (codes "drop")
    then 250
    else if router_is route.router (codes "handoff")
    then if is_some route.argument then handoff_from d 0 slots else 250
    else mail_route d pool slots
