-- ===== src/Smtpd/Inbound/Every.antt =====
-- cmail-smtpd/mail.c, mail_route, with the results of route_local_path of route.c.
use mathlib.Core.Path.{subst}
use cmail.Base.{
  ℕ, ◌+◌, Bool, true, false, ◌&&◌, List, [], ◌∷◌, Option, none, some, ◌≡◌, refl, sym, ap, ◌∙◌,
  arith, length, Bool-cases, inl, inr, if◌then◌else◌, ℤ, pos, is_some, get_elem?,
}
use cmail.Smtpd.Types.{MailPath}
use cmail.Smtpd.PathPool.{PathPool}
use cmail.Smtpd.Session.{Delivery}
use cmail.Smtpd.Delivery.{mail_route}
use cmail.Smtpd.Delivery.Verdicts.{AllStored, mail_route_ok}
use cmail.Smtpd.Inbound.{Entry, Storage, Routed, routed, route_local_path}
use cmail.Smtpd.Inbound.Once.{IsOnce, Settles, is_handled, is_bounded, route_local_path-Settles}

-- The result is that of route_local_path, whose copies stay in their arrays.
abbrev pub IsResult : Storage → MailPath → ℤ → Option MailPath → Type 0
IsResult q reverse rv none = Unit
IsResult q reverse rv (some p) =
    (is_bounded reverse p p.route.argument ≡ true)
    × (stored : List Entry) × (route_local_path q reverse p ≡ routed stored rv)

abbrev pub AreResults : (ℕ → Storage) → MailPath → Delivery → PathPool → ℕ → List ℕ → Type 0
AreResults q reverse d pool i [] = Unit
AreResults q reverse d pool i (slot ∷ slots) =
    IsResult (q i) reverse (d.local i) (get_elem? pool.paths slot)
    × AreResults q reverse d pool (i + 1) slots

-- One row, if there is to be one
abbrev pub Stores : Bool → Routed → Type 0
Stores true r = (e : Entry) × (r ≡ routed (e ∷ []) (pos 0))
Stores false r = Unit

-- The recipient is local, and its router is neither "drop" nor unknown.
abbrev pub is_to_store : MailPath → Bool
is_to_store p = is_some p.route.router && is_handled p.route.router

abbrev pub IsStored : Storage → MailPath → Option MailPath → Type 0
IsStored q reverse none = Unit
IsStored q reverse (some p) = Stores (is_to_store p) (route_local_path q reverse p)

abbrev pub AllRowsStored : (ℕ → Storage) → MailPath → PathPool → ℕ → List ℕ → Type 0
AllRowsStored q reverse pool i [] = Unit
AllRowsStored q reverse pool i (slot ∷ slots) =
    IsStored (q i) reverse (get_elem? pool.paths slot) × AllRowsStored q reverse pool (i + 1) slots

one_entry : (s : List Entry) → length s ≡ 1 → (e : Entry) × (s ≡ e ∷ [])
one_entry [] h = absurd (omega (arith, h))
one_entry (e ∷ []) h = (e, refl)
one_entry (e ∷ f ∷ s) h = absurd (omega (arith, h))

Settles-Stores :
    (s h : Bool) (r : Routed) (stored : List Entry)
    → r ≡ routed stored (pos 0)
    → Settles h r
    → Stores (s && h) r
unfolding Settles IsOnce
Settles-Stores false h r stored e k = tt
Settles-Stores true false r stored e k = tt
Settles-Stores true true r stored e k =
    let one = one_entry stored (subst (λ x. IsOnce x) e k) in
    (one.0, e ∙ ap (λ s. routed s (pos 0)) one.1)

result-IsStored :
    (q : Storage) (reverse p : MailPath) (local queued : ℤ)
    → IsResult q reverse local (some p)
    → (if is_some p.route.router then local else queued) ≡ pos 0
    → Stores (is_to_store p) (route_local_path q reverse p)
result-IsStored q reverse p local queued (bounded, stored, result) ok =
    elim (Bool-cases (is_some p.route.router)) [
      | inl is_local ↦
          Settles-Stores (is_some p.route.router) (is_handled p.route.router)
            (route_local_path q reverse p) stored
            (result
              ∙ ap (λ v. routed stored v)
                  (sym (ap (λ b. if b then local else queued) is_local) ∙ ok))
            (route_local_path-Settles q reverse p bounded)
      | inr elsewhere ↦ rw elsewhere tt
    ]

-- The verdict of mail_route on what stands in a slot
abbrev pub verdict_on : Delivery → ℕ → Option MailPath → ℤ
verdict_on d i p =
    if (elim p [ none ↦ false | some p' ↦ is_some p'.route.router ]) then d.local i else d.outbox i

slot-IsStored :
    (q : ℕ → Storage) (reverse : MailPath) (d : Delivery) (i : ℕ) (p : Option MailPath)
    → IsResult (q i) reverse (d.local i) p
    → verdict_on d i p ≡ pos 0
    → IsStored (q i) reverse p
slot-IsStored q reverse d i none results ok = tt
slot-IsStored q reverse d i (some p) results ok =
    result-IsStored (q i) reverse p (d.local i) (d.outbox i) results ok

stored-AllRowsStored :
    (q : ℕ → Storage) (reverse : MailPath) (d : Delivery) (pool : PathPool) (i : ℕ) (slots : List ℕ)
    → AreResults q reverse d pool i slots
    → AllStored d pool i slots
    → AllRowsStored q reverse pool i slots
stored-AllRowsStored q reverse d pool i [] results ok = tt
stored-AllRowsStored q reverse d pool i (slot ∷ slots) results ok = (
  slot-IsStored q reverse d i (get_elem? pool.paths slot) results.0 ok.0,
  stored-AllRowsStored q reverse d pool (i + 1) slots results.1 ok.1,
)

-- If the results for the recipients are those of route_local_path, whose copies stay in their arrays,
-- and mail_route answers 250, then there is one row for each local recipient whose router is
-- neither "drop" nor unknown.
pub mail_route_stores_rows :
    (q : ℕ → Storage) (reverse : MailPath) (d : Delivery) (pool : PathPool) (slots : List ℕ)
    → AreResults q reverse d pool 0 slots
    → mail_route d pool slots ≡ 250
    → AllRowsStored q reverse pool 0 slots
mail_route_stores_rows q reverse d pool slots results ok =
    stored-AllRowsStored q reverse d pool 0 slots results ((mail_route_ok d pool slots).0 ok)
