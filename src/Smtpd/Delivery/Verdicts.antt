-- ===== src/Smtpd/Delivery/Verdicts.antt =====
-- cmail-smtpd/mail.c: the result of mail_route, from the verdicts on the recipients.
use cmail.Base.{ℕ, zero, suc, ◌+◌, List, [], ◌∷◌, ◌≡◌, ◌↔◌, refl, arith, ℤ, pos, negsuc}
use cmail.Smtpd.PathPool.{PathPool}
use cmail.Smtpd.Delivery.{mail_route, mail_route_from, on_verdict, verdict}
use cmail.Smtpd.Session.{Delivery}

-- Each recipient, from position `i` on, is stored.
abbrev pub AllStored : Delivery → PathPool → ℕ → List ℕ → Type 0
AllStored d pool i [] = Unit
AllStored d pool i (slot ∷ slots) = (verdict d pool slot i ≡ pos 0) × AllStored d pool (i + 1) slots

on_verdict_ok : (v : ℤ) (n : ℕ) → on_verdict v n ≡ 250 ↔ ((v ≡ pos 0) × (n ≡ 250))
on_verdict_ok (pos zero) n = (λ e. (refl, e), λ e. e.1)
on_verdict_ok (pos (suc zero)) n = (λ e. absurd (omega arith), λ e. absurd cc)
on_verdict_ok (pos (suc (suc k))) n = (λ e. absurd (omega arith), λ e. absurd cc)
on_verdict_ok (negsuc k) n = (λ e. absurd (omega arith), λ e. absurd cc)

mail_route_from_ok :
    (d : Delivery) (pool : PathPool) (i : ℕ) (slots : List ℕ)
    → mail_route_from d pool i slots ≡ 250 ↔ AllStored d pool i slots
unfolding mail_route_from
mail_route_from_ok d pool i [] = (λ e. tt, λ e. refl)
mail_route_from_ok d pool i (slot ∷ slots) =
    let this = on_verdict_ok (verdict d pool slot i) (mail_route_from d pool (i + 1) slots) in
    let later = mail_route_from_ok d pool (i + 1) slots in
    (λ e. ((this.0 e).0, later.0 (this.0 e).1), λ s. this.1 (s.0, later.1 s.1))

-- mail_route answers 250 exactly when every recipient's mail was stored: by route_local_path for a
-- recipient with a router, in the outbound queue for any other.
pub mail_route_ok :
    (d : Delivery) (pool : PathPool) (slots : List ℕ)
    → mail_route d pool slots ≡ 250 ↔ AllStored d pool 0 slots
unfolding mail_route
mail_route_ok d pool slots = mail_route_from_ok d pool 0 slots
