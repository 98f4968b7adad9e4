-- ===== src/Dispatchd/Transaction/Outcome.antt =====
-- cmail-dispatchd/mail.c and logic.c: what becomes of each recipient of a transaction.
use cmail.Base.{
  is_negative, ℕ, zero, suc, Bool, true, false, not, List, [], ◌∷◌, Option, none, some, ◌==◌, ◌≡◌,
  refl, ap, ap₂, ◌∙◌, ◌⊎◌, inl, inr, arith, if◌then◌else◌, if_cases, if_both, All, ℤ, pos, negsuc,
  Bytes, is_some, Bool-cases,
}
use cmail.Popd.Types.{Exec, done, bind_failed, step_failed}
use cmail.Dispatchd.Types.{Conn}
use cmail.Dispatchd.Smtp.{smtp_data}
use cmail.Dispatchd.Outbox.{
  Database, Row, Failure, Sql, failure, insert_failure, mail_failure, mail_delete, delete_row,
  recipient_path, without, without_failures,
}
use cmail.Dispatchd.Transaction.{
  Status, rcpt_ready, rcpt_ok, rcpt_fail_temporary, rcpt_fail_permanent, Rcpt, OutboundMail, World,
  failed_with, ask, Asked, on_answer, on_path, ask_all, Round, fail_accepted, fail_entry, Dispatch,
  on_data, after_rcpts, on_initiate, mail_dispatch, settle, settle_entry, Settled,
  logic_handle_transaction, reset_conn,
}
use cmail.Dispatchd.Transaction.Taken.{AllReady, is_ready}

pub has_failure : ℕ → List Failure → Bool
has_failure x [] = false
has_failure x (f ∷ fs) = let rest = has_failure x fs in if f.fail_mail == x then true else rest

-- The mail has left the outbox, or a failure of it is logged.
abbrev pub IsHandled : Database → ℕ → Type 0
IsHandled d x = (recipient_path x d.outbox ≡ none) ⊎ (has_failure x d.faillog ≡ true)

abbrev pub AllSucceed : Sql → ℕ → Type 0
AllSucceed sql x =
    (sql.rcpt_bound x ≡ true)
    × (sql.rcpt_queried x ≡ true)
    × (sql.insert_reason x ≡ done)
    × (sql.delete x ≡ done)

path-without :
    (x y : ℕ) (xs : List Row) → recipient_path x xs ≡ none → recipient_path x (without y xs) ≡ none
unfolding recipient_path without
path-without x y [] h = refl
path-without x y (r ∷ rs) h = ground (arith, path-without x y rs)

path-without_self : (x : ℕ) (xs : List Row) → recipient_path x (without x xs) ≡ none
unfolding recipient_path without
path-without_self x [] = refl
path-without_self x (r ∷ rs) = ground (arith, path-without_self x rs)

path-without_same : (x y : ℕ) (xs : List Row) → y ≡ x → recipient_path x (without y xs) ≡ none
path-without_same x y xs e = rw e (path-without_self x xs)

failure-without :
    (x y : ℕ) (fs : List Failure)
    → (y == x) ≡ false
    → has_failure x (without_failures y fs) ≡ has_failure x fs
unfolding has_failure without_failures
failure-without x y [] h = refl
failure-without x y (f ∷ fs) h = ground (arith, failure-without x y fs h)

delete_row-IsHandled :
    (x y : ℕ) (e : Exec) (d : Database) → IsHandled d x → IsHandled (delete_row e d y).0 x
delete_row-IsHandled x y done d (inl h) = inl (path-without x y d.outbox h)
delete_row-IsHandled x y done d (inr h) = elim (Bool-cases (y == x)) [
  | inl e ↦ inl (path-without_same x y d.outbox (ground arith))
  | inr e ↦ inr (failure-without x y d.faillog e ∙ h)
]
delete_row-IsHandled x y bind_failed d h = h
delete_row-IsHandled x y step_failed d h = h

logged_more :
    (x : ℕ) (d : Database) (f : Failure)
    → IsHandled d x
    → IsHandled (record d { faillog = f ∷ d.faillog }) x
unfolding has_failure
logged_more x d f (inl h) = inl h
logged_more x d f (inr h) = inr (ground arith)

insert_failure-IsHandled :
    (x : ℕ) (e : Exec) (d : Database) (f : Failure)
    → IsHandled d x
    → IsHandled (insert_failure e d f).0 x
unfolding has_failure
insert_failure-IsHandled x done d f h =
    if_both (λ (p : Database × ℤ). IsHandled p.0 x) (is_some (recipient_path f.fail_mail d.outbox))
      _ _ (logged_more x d f h) h
insert_failure-IsHandled x bind_failed d f h = h
insert_failure-IsHandled x step_failed d f h = h

insert_failure_logs :
    (d : Database) (f : Failure) → IsHandled (insert_failure done d f).0 f.fail_mail
unfolding has_failure
insert_failure_logs d f =
    if_cases (λ (p : Database × ℤ). IsHandled p.0 f.fail_mail)
      (is_some (recipient_path f.fail_mail d.outbox)) _ _ (λ e. inr (ground arith))
      (λ e. inl (ground arith))

unfoldable pub ids : List Rcpt → List ℕ
ids [] = []
ids (r ∷ rs) = r.dbid ∷ ids rs

module _ (sql : Sql) where
  pub mail_failure-IsHandled :
      (x : ℕ) (d : Database) (y : ℕ) (message : Option Bytes) (fatal : Bool)
      → IsHandled d x
      → IsHandled (mail_failure sql d y message fatal).0 x
  unfolding mail_failure
  mail_failure-IsHandled x d y message fatal h =
      insert_failure-IsHandled x (sql.insert_reason y) d _ h

  mail_delete-IsHandled :
      (x : ℕ) (d : Database) (y : ℕ) → IsHandled d x → IsHandled (mail_delete sql d y).0 x
  unfolding mail_delete
  mail_delete-IsHandled x d y h = delete_row-IsHandled x y (sql.delete y) d h

  pub failure_handles :
      (x : ℕ) (d : Database) (message : Option Bytes) (fatal : Bool)
      → AllSucceed sql x
      → IsHandled (mail_failure sql d x message fatal).0 x
  unfolding mail_failure
  failure_handles x d message fatal (_, _, e, _) =
      rw e (insert_failure_logs d (failure x message fatal))

  delete_handles : (x : ℕ) (d : Database) → AllSucceed sql x → IsHandled (mail_delete sql d x).0 x
  unfolding mail_delete
  delete_handles x d (_, _, _, e) = rw e (inl (path-without_self x d.outbox))

  -- What was handled stays handled.
  abbrev pub Steady : Database → Database → Type 0
  Steady d d' = (x : ℕ) → IsHandled d x → IsHandled d' x

  failed_with-Steady :
      (w : World) (y : ℕ) (fatal : Bool) → Steady w.database (failed_with sql w y fatal).database
  failed_with-Steady w y fatal x h = mail_failure-IsHandled x w.database y _ fatal h

  -- An entry is still to be settled, or its mail is handled.
  abbrev pub is_pending : Status → Bool
  is_pending rcpt_ready = true
  is_pending rcpt_ok = true
  is_pending _ = false

  abbrev pub IsOpen : Database → Rcpt → Type 0
  IsOpen d r = (is_pending r.status ≡ true) ⊎ IsHandled d r.dbid

  IsOpen-Steady : (w w' : Database) (r : Rcpt) → Steady w w' → IsOpen w r → IsOpen w' r
  IsOpen-Steady w w' r s (inl h) = inl h
  IsOpen-Steady w w' r s (inr h) = inr (s r.dbid h)

  All-Steady :
      (w w' : Database) (rs : List Rcpt) → Steady w w' → All (IsOpen w) rs → All (IsOpen w') rs
  All-Steady w w' [] s h = tt
  All-Steady w w' (r ∷ rs) s (h, hs) = (IsOpen-Steady w w' r s h, All-Steady w w' rs s hs)

  abbrev pub Succeeding : List Rcpt → Type 0
  Succeeding rs = All (AllSucceed sql) (ids rs)

  -- asking one recipient
  abbrev IsAsked : Rcpt → World → Asked → Type 0
  IsAsked r w a =
      Steady w.database a.world.database × IsOpen a.world.database a.rcpt × (a.rcpt.dbid ≡ r.dbid)

  on_answer-IsAsked :
      (r : Rcpt) (w : World) (x : Conn × ℤ)
      → AllSucceed sql r.dbid
      → IsAsked r w (on_answer sql r w.database x)
  on_answer-IsAsked r w (c, pos zero) g = ((λ y h. h), inl refl, refl)
  on_answer-IsAsked r w (c, pos (suc n)) g = (
    failed_with-Steady (record w { conn = c }) r.dbid false,
    inr (failure_handles r.dbid w.database _ false g),
    refl,
  )
  on_answer-IsAsked r w (c, negsuc n) g = (
    failed_with-Steady (record w { conn = c }) r.dbid true,
    inr (failure_handles r.dbid w.database _ true g),
    refl,
  )

  on_path-IsAsked :
      (r : Rcpt) (w : World) (o : Option Bytes)
      → recipient_path r.dbid w.database.outbox ≡ o
      → AllSucceed sql r.dbid
      → IsAsked r w (on_path sql r w o)
  on_path-IsAsked r w none e g = ((λ y h. h), inr (inl e), refl)
  on_path-IsAsked r w (some path) e g = on_answer-IsAsked r w _ g

  ask-IsAsked : (r : Rcpt) (w : World) → AllSucceed sql r.dbid → IsAsked r w (ask sql r w)
  unfolding ask
  ask-IsAsked r w g = rw (g.0, g.1) (on_path-IsAsked r w _ refl g)

  -- a stage of mail_dispatch: from entries to entries, and from world to world
  abbrev pub IsStage : List Rcpt → World → List Rcpt → World → Type 0
  IsStage rs w rs' w' =
      Steady w.database w'.database × All (IsOpen w'.database) rs' × (ids rs' ≡ ids rs)

  ask_all-IsStage :
      (rs : List Rcpt) (w : World)
      → Succeeding rs
      → IsStage rs w (ask_all sql rs w).rcpts (ask_all sql rs w).world
  unfolding ask_all ids
  ask_all-IsStage [] w g = ((λ y h. h), tt, refl)
  ask_all-IsStage (r ∷ rs) w (g, gs) =
      let (s, o, e) = ask-IsAsked r w g in
      let (s', os, es) = ask_all-IsStage rs (ask sql r w).world gs in
      ((λ y h. s' y (s y h)), (IsOpen-Steady _ _ (ask sql r w).rcpt s' o, os), ap₂ ◌∷◌ e es)

  fail_entry-IsStage :
      (next : World → Dispatch) (permanent : Bool) (st : Status) (r : Rcpt) (rs : List Rcpt)
      (w : World)
      → r.status ≡ st
      → AllSucceed sql r.dbid
      → IsOpen w.database r
      → ((w' : World)
          → Steady w.database w'.database
          → IsStage rs w' (next w').rcpts (next w').world)
      → let d = fail_entry next sql permanent st r w in IsStage (r ∷ rs) w d.rcpts d.world
  unfolding ids
  fail_entry-IsStage next permanent rcpt_ok r rs w e g o h =
      let failing = failed_with-Steady w r.dbid permanent in
      let (s, os, es) = h (failed_with sql w r.dbid permanent) failing in
      (
        (λ y k. s y (failing y k)),
        (inr (s r.dbid (failure_handles r.dbid w.database _ permanent g)), os),
        ap (◌∷◌ r.dbid) es,
      )
  fail_entry-IsStage next permanent rcpt_ready r rs w e g o h =
      let (s, os, es) = h w (λ y k. k) in (s, (IsOpen-Steady _ _ r s o, os), ap (◌∷◌ r.dbid) es)
  fail_entry-IsStage next permanent rcpt_fail_temporary r rs w e g o h =
      let (s, os, es) = h w (λ y k. k) in (s, (IsOpen-Steady _ _ r s o, os), ap (◌∷◌ r.dbid) es)
  fail_entry-IsStage next permanent rcpt_fail_permanent r rs w e g o h =
      let (s, os, es) = h w (λ y k. k) in (s, (IsOpen-Steady _ _ r s o, os), ap (◌∷◌ r.dbid) es)

  fail_accepted-IsStage :
      (permanent : Bool) (rs : List Rcpt) (w : World)
      → Succeeding rs
      → All (IsOpen w.database) rs
      → let d = fail_accepted sql permanent rs w in IsStage rs w d.rcpts d.world
  unfolding fail_accepted ids
  fail_accepted-IsStage permanent [] w g o = ((λ y h. h), tt, refl)
  fail_accepted-IsStage permanent (r ∷ rs) w (g, gs) (o, os) =
      fail_entry-IsStage (fail_accepted sql permanent rs) permanent r.status r rs w refl g o
        (λ w' s.
          fail_accepted-IsStage permanent rs w' gs (All-Steady w.database w'.database rs s os))

  on_data-IsStage :
      (rs : List Rcpt) (w : World) (x : Conn × ℤ)
      → Succeeding rs
      → All (IsOpen w.database) rs
      → let d = on_data sql w.database rs x in IsStage rs w d.rcpts d.world
  on_data-IsStage rs w (c, pos zero) g o = ((λ y h. h), o, refl)
  on_data-IsStage rs w (c, pos (suc n)) g o =
      fail_accepted-IsStage false rs (record w { conn = c }) g o
  on_data-IsStage rs w (c, negsuc n) g o = fail_accepted-IsStage true rs (record w { conn = c }) g o

  chain :
      (rs rs' rs'' : List Rcpt) (w w' w'' : World)
      → IsStage rs w rs' w'
      → IsStage rs' w' rs'' w''
      → IsStage rs w rs'' w''
  chain rs rs' rs'' w w' w'' (s, o, e) (s', o', e') = ((λ y h. s' y (s y h)), o', e' ∙ e)

  after_round-IsStage :
      (text : Bytes) (rs : List Rcpt) (w : World) (round : Round)
      → Succeeding rs
      → IsStage rs w round.rcpts round.world
      → let d = after_rcpts sql text round in IsStage rs w d.rcpts d.world
  after_round-IsStage text rs w round g asked =
      let sent = smtp_data round.world.conn text in
      if_both (λ (d : Dispatch). IsStage rs w d.rcpts d.world) (not round.continue_data) _ _ asked
        (chain rs round.rcpts (on_data sql round.world.database round.rcpts sent).rcpts w
          round.world (on_data sql round.world.database round.rcpts sent).world asked
          (on_data-IsStage round.rcpts round.world sent (rw asked.2 g) asked.1))

  after_rcpts-IsStage :
      (text : Bytes) (rs : List Rcpt) (w : World)
      → Succeeding rs
      → let d = after_rcpts sql text (ask_all sql rs w) in IsStage rs w d.rcpts d.world
  after_rcpts-IsStage text rs w g =
      after_round-IsStage text rs w (ask_all sql rs w) g (ask_all-IsStage rs w g)

  ready_pending : (s : Status) → is_ready s ≡ true → is_pending s ≡ true
  ready_pending rcpt_ready e = refl
  ready_pending rcpt_ok e = refl
  ready_pending rcpt_fail_temporary e = absurd cc
  ready_pending rcpt_fail_permanent e = absurd cc

  AllReady-IsOpen : (rs : List Rcpt) (w : World) → AllReady rs → All (IsOpen w.database) rs
  AllReady-IsOpen [] w h = tt
  AllReady-IsOpen (r ∷ rs) w (h, hs) = (inl (ready_pending r.status h), AllReady-IsOpen rs w hs)

  on_initiate-IsStage :
      (m : OutboundMail) (w : World) (x : Conn × ℤ)
      → AllReady m.rcpt
      → Succeeding m.rcpt
      → let d = on_initiate sql w.database m x in IsStage m.rcpt w d.rcpts d.world
  on_initiate-IsStage m w (c, negsuc n) h g = ((λ y k. k), AllReady-IsOpen m.rcpt w h, refl)
  on_initiate-IsStage m w (c, pos (suc n)) h g = ((λ y k. k), AllReady-IsOpen m.rcpt w h, refl)
  on_initiate-IsStage m w (c, pos zero) h g =
      after_rcpts-IsStage m.text m.rcpt (record w { conn = c }) g

  pub mail_dispatch-IsStage :
      (m : OutboundMail) (w : World)
      → AllReady m.rcpt
      → Succeeding m.rcpt
      → let d = mail_dispatch sql m w in IsStage m.rcpt w d.rcpts d.world
  unfolding mail_dispatch
  mail_dispatch-IsStage m w h g = on_initiate-IsStage m w _ h g

  -- the loop that settles the entries
  abbrev pub Settles : List Rcpt → World → Settled → Type 0
  Settles rs w s = Steady w.database s.world.database × All (IsHandled s.world.database) (ids rs)

  settle_entry-Settles :
      (next : World → Settled) (fatal : Bool) (r : Rcpt) (rs : List Rcpt) (st : Status) (w : World)
      → r.status ≡ st
      → AllSucceed sql r.dbid
      → IsOpen w.database r
      → ((w' : World) → Steady w.database w'.database → Settles rs w' (next w'))
      → Settles (r ∷ rs) w (settle_entry next sql fatal st r.dbid w)
  unfolding ids
  settle_entry-Settles next fatal r rs rcpt_ok w e g o h =
      let deleting = λ (x : ℕ). mail_delete-IsHandled x w.database r.dbid in
      let (s, hs) = h (record w { database = (mail_delete sql w.database r.dbid).0 }) deleting in
      ((λ y k. s y (deleting y k)), (s r.dbid (delete_handles r.dbid w.database g), hs))
  settle_entry-Settles next fatal r rs rcpt_ready w e g o h =
      let failing = failed_with-Steady w r.dbid fatal in
      let (s, hs) = h (failed_with sql w r.dbid fatal) failing in
      ((λ y k. s y (failing y k)), (s r.dbid (failure_handles r.dbid w.database _ fatal g), hs))
  settle_entry-Settles next fatal r rs rcpt_fail_temporary w e g (inl p) h = absurd (ground arith)
  settle_entry-Settles next fatal r rs rcpt_fail_temporary w e g (inr k) h =
      let (s, hs) = h w (λ y k'. k') in (s, (s r.dbid k, hs))
  settle_entry-Settles next fatal r rs rcpt_fail_permanent w e g (inl p) h = absurd (ground arith)
  settle_entry-Settles next fatal r rs rcpt_fail_permanent w e g (inr k) h =
      let (s, hs) = h w (λ y k'. k') in (s, (s r.dbid k, hs))

  pub settle-Settles :
      (fatal : Bool) (rs : List Rcpt) (w : World)
      → Succeeding rs
      → All (IsOpen w.database) rs
      → Settles rs w (settle sql fatal rs w)
  unfolding settle ids
  settle-Settles fatal [] w g o = ((λ y h. h), tt)
  settle-Settles fatal (r ∷ rs) w (g, gs) (o, os) =
      settle_entry-Settles (settle sql fatal rs) fatal r rs r.status w refl g o
        (λ w' s. settle-Settles fatal rs w' gs (All-Steady w.database w'.database rs s os))

-- one transaction
pub transaction-IsHandled :
    (sql : Sql) (m : OutboundMail) (w : World)
    → AllReady m.rcpt
    → Succeeding sql m.rcpt
    → let after = (logic_handle_transaction sql m w).world.database in
      Steady sql w.database after × All (IsHandled after) (ids m.rcpt)
unfolding logic_handle_transaction
transaction-IsHandled sql m w h g =
    let (s, o, e) = mail_dispatch-IsStage sql m w h g in
    let d = mail_dispatch sql m w in
    let (s', hs) = settle-Settles sql (is_negative d.rv) d.rcpts (reset_conn d.world) (rw e g) o in
    ((λ y k. s' y (s y k)), rw (← e) hs)

-- If the statements about its recipients succeed, then behind a transaction each recipient of it
-- has left the outbox, or has a failure in the log, whatever the remote server did.
pub no_recipient_forgotten :
    (sql : Sql) (m : OutboundMail) (w : World)
    → AllReady m.rcpt
    → All (AllSucceed sql) (ids m.rcpt)
    → All (IsHandled (logic_handle_transaction sql m w).world.database) (ids m.rcpt)
no_recipient_forgotten sql m w h g = (transaction-IsHandled sql m w h g).1
