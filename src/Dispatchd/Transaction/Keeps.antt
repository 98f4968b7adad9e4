-- ===== src/Dispatchd/Transaction/Keeps.antt =====
-- cmail-dispatchd/mail.c and logic.c: what leaves the outbox as it is.
use cmail.Base.{
  ℕ, zero, suc, Bool, true, false, not, List, [], ◌∷◌, Option, none, some, ◌≡◌, refl, ◌∙◌, arith,
  if_both, ℤ, pos, negsuc, Bytes,
}
use cmail.Dispatchd.Types.{Conn}
use cmail.Dispatchd.Outbox.{Database, Sql, mail_failure}
use cmail.Dispatchd.Transaction.{
  Status, rcpt_ready, rcpt_ok, rcpt_fail_temporary, rcpt_fail_permanent, Rcpt, OutboundMail, World,
  ask, Asked, on_answer, on_path, ask_all, fail_accepted, fail_entry, Dispatch, on_data,
  after_rcpts, on_initiate, mail_dispatch,
}

-- Nothing but mail_delete changes the outbox.
pub mail_failure-outbox :
    (sql : Sql) (d : Database) (dbid : ℕ) (message : Option Bytes) (fatal : Bool)
    → (mail_failure sql d dbid message fatal).0.outbox ≡ d.outbox
unfolding mail_failure
mail_failure-outbox sql d dbid message fatal = ground arith

abbrev pub Keeps : World → World → Type 0
Keeps w w' = w'.database.outbox ≡ w.database.outbox

on_answer-Keeps :
    (sql : Sql) (r : Rcpt) (w : World) (x : Conn × ℤ) → Keeps w (on_answer sql r w.database x).world
on_answer-Keeps sql r w (c, pos zero) = refl
on_answer-Keeps sql r w (c, pos (suc n)) = mail_failure-outbox sql w.database r.dbid _ _
on_answer-Keeps sql r w (c, negsuc n) = mail_failure-outbox sql w.database r.dbid _ _

on_path-Keeps :
    (sql : Sql) (r : Rcpt) (w : World) (o : Option Bytes) → Keeps w (on_path sql r w o).world
on_path-Keeps sql r w none = refl
on_path-Keeps sql r w (some path) = on_answer-Keeps sql r w _

ask-Keeps : (sql : Sql) (r : Rcpt) (w : World) → Keeps w (ask sql r w).world
unfolding ask
ask-Keeps sql r w =
    if_both (λ (a : Asked). Keeps w a.world) (not (sql.rcpt_bound r.dbid)) _ _ refl
      (if_both (λ (a : Asked). Keeps w a.world) (not (sql.rcpt_queried r.dbid)) _ _ refl
        (on_path-Keeps sql r w _))

ask_all-Keeps : (sql : Sql) (rs : List Rcpt) (w : World) → Keeps w (ask_all sql rs w).world
unfolding ask_all
ask_all-Keeps sql [] w = refl
ask_all-Keeps sql (r ∷ rs) w = ask_all-Keeps sql rs (ask sql r w).world ∙ ask-Keeps sql r w

fail_entry-Keeps :
    (next : World → Dispatch) (sql : Sql) (permanent : Bool) (s : Status) (r : Rcpt) (w : World)
    → ((w' : World) → Keeps w' (next w').world)
    → Keeps w (fail_entry next sql permanent s r w).world
fail_entry-Keeps next sql permanent rcpt_ok r w h =
    h _ ∙ mail_failure-outbox sql w.database r.dbid _ _
fail_entry-Keeps next sql permanent rcpt_ready r w h = h w
fail_entry-Keeps next sql permanent rcpt_fail_temporary r w h = h w
fail_entry-Keeps next sql permanent rcpt_fail_permanent r w h = h w

fail_accepted-Keeps :
    (sql : Sql) (permanent : Bool) (rs : List Rcpt) (w : World)
    → Keeps w (fail_accepted sql permanent rs w).world
unfolding fail_accepted
fail_accepted-Keeps sql permanent [] w = refl
fail_accepted-Keeps sql permanent (r ∷ rs) w =
    fail_entry-Keeps (fail_accepted sql permanent rs) sql permanent r.status r w
      (fail_accepted-Keeps sql permanent rs)

on_data-Keeps :
    (sql : Sql) (w : World) (rs : List Rcpt) (x : Conn × ℤ)
    → Keeps w (on_data sql w.database rs x).world
on_data-Keeps sql w rs (c, pos zero) = refl
on_data-Keeps sql w rs (c, pos (suc n)) = fail_accepted-Keeps sql false rs _
on_data-Keeps sql w rs (c, negsuc n) = fail_accepted-Keeps sql true rs _

after_rcpts-Keeps :
    (sql : Sql) (text : Bytes) (rs : List Rcpt) (w : World)
    → Keeps w (after_rcpts sql text (ask_all sql rs w)).world
after_rcpts-Keeps sql text rs w =
    if_both (λ (d : Dispatch). Keeps w d.world) (not (ask_all sql rs w).continue_data) _ _
      (ask_all-Keeps sql rs w)
      (on_data-Keeps sql (ask_all sql rs w).world _ _ ∙ ask_all-Keeps sql rs w)

on_initiate-Keeps :
    (sql : Sql) (w : World) (m : OutboundMail) (x : Conn × ℤ)
    → Keeps w (on_initiate sql w.database m x).world
on_initiate-Keeps sql w m (c, negsuc n) = refl
on_initiate-Keeps sql w m (c, pos (suc n)) = refl
on_initiate-Keeps sql w m (c, pos zero) = after_rcpts-Keeps sql m.text m.rcpt _

pub mail_dispatch-Keeps :
    (sql : Sql) (m : OutboundMail) (w : World) → Keeps w (mail_dispatch sql m w).world
unfolding mail_dispatch
mail_dispatch-Keeps sql m w = on_initiate-Keeps sql w m _
