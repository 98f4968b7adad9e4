-- ===== src/Smtpd/Relay/Others.antt =====
-- The recipients of a session while other clients work on other slots of the path pool, and what
-- mail_route answers for them.
use cmail.Base.{
  ℕ, ◌+◌, Bool, true, false, List, [], ◌∷◌, Option, none, some, ◌≡◌, refl, sym, ap, All, get_elem?,
  ℤ, if◌then◌else◌, inl, inr,
}
use mathlib.Core.Path.{subst}
use cmail.Smtpd.Types.{MailPath}
use cmail.Smtpd.PathPool.{PathPool}
use cmail.Smtpd.Delivery.{mail_route_from, has_router, on_verdict}
use cmail.Smtpd.Session.{Session, Delivery, is_authenticated}
use cmail.Smtpd.Relay.{Inv, AllMayReceive, MayReceive}

-- The others leave the slots alone that this connection holds.
abbrev pub Untouched : List MailPath → List MailPath → List ℕ → Type 0
Untouched ps qs = All (λ i. get_elem? qs i ≡ get_elem? ps i)

AllMayReceive-Untouched :
    (auth : Bool) (ps qs : List MailPath) (is : List ℕ)
    → Untouched ps qs is
    → AllMayReceive auth ps is
    → AllMayReceive auth qs is
AllMayReceive-Untouched auth ps qs [] u m = tt
AllMayReceive-Untouched auth ps qs (i ∷ is) u m =
    (subst (MayReceive auth) (sym u.0) m.0, AllMayReceive-Untouched auth ps qs is u.1 m.1)

pub others-Inv :
    (s : Session) (pool : PathPool)
    → Untouched s.pool.paths pool.paths s.current_mail.forward_paths
    → Inv s
    → Inv (record s { pool = pool })
others-Inv s pool u v = record {
  fits = v.fits;
  recipients =
      AllMayReceive-Untouched (is_authenticated s) s.pool.paths pool.paths
        s.current_mail.forward_paths u v.recipients;
}

local_router :
    (pool : PathPool) (i : ℕ) (o : Option MailPath)
    → get_elem? pool.paths i ≡ o
    → MayReceive false o
    → has_router pool i ≡ true
local_router pool i none e m = absurd m
local_router pool i (some p) e m = elim (m.1) [ inl r ↦ rw (e, has_router) r | inr h ↦ absurd cc ]

verdict_local :
    (b : Bool) (v x y : ℤ) {m n : ℕ}
    → b ≡ true
    → m ≡ n
    → on_verdict (if b then v else x) m ≡ on_verdict (if b then v else y) n
verdict_local true v x y e later = ap (on_verdict v) later
verdict_local false v x y e later = cc

pub mail_route_from-local :
    (d : Delivery) (f : ℕ → ℤ) (pool : PathPool) (i : ℕ) (slots : List ℕ)
    → AllMayReceive false pool.paths slots
    → mail_route_from (record d { outbox = f }) pool i slots ≡ mail_route_from d pool i slots
unfolding mail_route_from
mail_route_from-local d f pool i [] m = refl
mail_route_from-local d f pool i (slot ∷ slots) m =
    verdict_local (has_router pool slot) (d.local i) (f i) (d.outbox i)
      (local_router pool slot (get_elem? pool.paths slot) refl m.0)
      (mail_route_from-local d f pool (i + 1) slots m.1)
