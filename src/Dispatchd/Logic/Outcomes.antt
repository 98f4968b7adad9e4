-- ===== src/Dispatchd/Logic/Outcomes.antt =====
-- cmail-dispatchd/logic.c, logic_handle_remote: what becomes of the recipients of a remote.
use mathlib.Core.Path.{subst}
use cmail.Base.{
  ℕ, zero, suc, ◌+◌, ◌≤◌, Bool, true, List, [], ◌∷◌, ◌++◌, Option, none, some, ◌≡◌, refl, sym,
  arith, if◌then◌else◌, if_both, if_cases, ltb, leb, length, All, Bytes, ℤ, not, negsuc,
}
use cmail.Dispatchd.Types.{Conn}
use cmail.Dispatchd.Smtp.{Settings}
use cmail.Dispatchd.Outbox.{Database, Sql, mail_failure}
use cmail.Dispatchd.Transaction.{Rcpt, OutboundMail, World, logic_handle_transaction}
use cmail.Dispatchd.Transaction.Taken.{AllReady}
use cmail.Dispatchd.Transaction.Outcome.{
  IsHandled, AllSucceed, ids, Steady, Succeeding, transaction-IsHandled, mail_failure-IsHandled,
  failure_handles,
}
use cmail.Dispatchd.Remote.{Remote, RemotePort}
use cmail.Dispatchd.Logic.{
  TransactionRow, read_ids, mail_dbread, clear_slots, read_transactions, Network, Plan, plan_for,
  deliver, fail_rcpts, fail_mails, on_connection, on_plan, on_host, logic_handle_remote, with_room,
  transactions_of, entries,
}

-- All recipients of all transactions are handled.
abbrev pub AllHandled : Database → List OutboundMail → Type 0
AllHandled d = All (λ m. All (IsHandled d) (ids m.rcpt))

Ready : List OutboundMail → Type 0
Ready = All (λ m. AllReady m.rcpt)

read_ids-AllReady : (n : ℕ) (text : Bytes) → AllReady (read_ids n text)
unfolding read_ids
read_ids-AllReady zero text = tt
read_ids-AllReady (suc n) text = (refl, read_ids-AllReady n _)

clear_slots-Ready : (n : ℕ) (ms : List OutboundMail) → Ready ms → Ready (clear_slots n ms)
unfolding clear_slots Ready
clear_slots-Ready zero ms h = h
clear_slots-Ready (suc n) [] h = tt
clear_slots-Ready (suc n) (m ∷ ms) (h, hs) = (tt, clear_slots-Ready n ms hs)

append-Ready :
    (ms : List OutboundMail) (m : OutboundMail) → Ready ms → AllReady m.rcpt → Ready (ms ++ m ∷ [])
unfolding Ready
append-Ready [] m h r = (r, tt)
append-Ready (x ∷ xs) m (h, hs) r = (h, append-Ready xs m hs r)

with_room-Ready :
    (allocated : ℕ) (ms : List OutboundMail) → Ready ms → Ready (with_room allocated ms).0
with_room-Ready allocated ms h =
    if_both (λ (x : List OutboundMail × ℕ). Ready x.0) (leb allocated (length ms))
      (clear_slots 10 ms, allocated + 10) (ms, allocated) (clear_slots-Ready 10 ms h) h

read_transactions-Ready :
    (junk : ℕ → Option Bytes) (allocated : ℕ) (ms : List OutboundMail) (rs : List TransactionRow)
    → Ready ms
    → Ready (read_transactions junk allocated ms rs)
unfolding read_transactions mail_dbread
read_transactions-Ready junk allocated ms [] h = h
read_transactions-Ready junk allocated ms (r ∷ rs) h =
    let ms' = (with_room allocated ms).0 in
    let stale = if ltb (length ms') 10 then none else junk (length ms') in
    read_transactions-Ready junk (with_room allocated ms).1 (ms' ++ mail_dbread stale r ∷ []) rs (
      append-Ready ms' (mail_dbread stale r) (with_room-Ready allocated ms h)
        (read_ids-AllReady (entries r.mail_idlist) r.mail_idlist))

module _ (sql : Sql) (works : (x : ℕ) → AllSucceed sql x) where
  succeeding : (rs : List Rcpt) → Succeeding sql rs
  unfolding ids
  succeeding [] = tt
  succeeding (r ∷ rs) = (works r.dbid, succeeding rs)

  All-Steady :
      (d d' : Database) (xs : List ℕ)
      → Steady sql d d'
      → All (IsHandled d) xs
      → All (IsHandled d') xs
  All-Steady d d' [] s h = tt
  All-Steady d d' (x ∷ xs) s (h, hs) = (s x h, All-Steady d d' xs s hs)

  deliver-AllHandled :
      (ms : List OutboundMail) (w : World)
      → Ready ms
      → let after = (deliver sql ms w).world.database in
        Steady sql w.database after × AllHandled after ms
  unfolding deliver Ready
  deliver-AllHandled [] w h = ((λ y k. k), tt)
  deliver-AllHandled (m ∷ ms) w (h, hs) =
      let next = (logic_handle_transaction sql m w).world in
      let (s, now) = transaction-IsHandled sql m w h (succeeding m.rcpt) in
      let (s', later) = deliver-AllHandled ms next hs in
      (
        (λ y k. s' y (s y k)),
        (All-Steady next.database (deliver sql ms next).world.database (ids m.rcpt) s' now, later),
      )

  module _ (reason : Bytes) (fatal : Bool) where
    fail_rcpts-AllHandled :
        (rs : List Rcpt) (d : Database)
        → let after = fail_rcpts sql reason fatal rs d in
          Steady sql d after × All (IsHandled after) (ids rs)
    unfolding fail_rcpts ids
    fail_rcpts-AllHandled [] d = ((λ y k. k), tt)
    fail_rcpts-AllHandled (r ∷ rs) d =
        let (s, later) =
          fail_rcpts-AllHandled rs (mail_failure sql d r.dbid (some reason) fatal).0 in
        (
          (λ y k. s y (mail_failure-IsHandled sql y d r.dbid (some reason) fatal k)),
          (s r.dbid (failure_handles sql r.dbid d (some reason) fatal (works r.dbid)), later),
        )

    fail_mails-AllHandled :
        (ms : List OutboundMail) (d : Database)
        → let after = fail_mails sql reason fatal ms d in Steady sql d after × AllHandled after ms
    unfolding fail_mails
    fail_mails-AllHandled [] d = ((λ y k. k), tt)
    fail_mails-AllHandled (m ∷ ms) d =
        let next = fail_rcpts sql reason fatal m.rcpt d in
        let (s, now) = fail_rcpts-AllHandled m.rcpt d in
        let (s', later) = fail_mails-AllHandled ms next in
        (
          (λ y k. s' y (s y k)),
          (All-Steady next (fail_mails sql reason fatal ms next) (ids m.rcpt) s' now, later),
        )

  on_connection-AllHandled :
      (p : Plan) (ms : List OutboundMail) (d : Database) (o : Option Conn)
      → Ready ms
      → AllHandled (on_connection sql p ms d o).0 ms
  on_connection-AllHandled p ms d none h = (fail_mails-AllHandled _ p.fatal ms d).1
  on_connection-AllHandled p ms d (some c) h = (deliver-AllHandled ms _ h).1

-- What logic_handle_remote reads into its array is handled.
pub logic_handle_remote-AllHandled :
    (s : Settings) (ports : List RemotePort) (sql : Sql) (net : Network) (r : Remote) (d : Database)
    (host : Bytes) (p : Plan)
    → ((x : ℕ) → AllSucceed sql x)
    → r.host ≡ some host
    → 2 ≤ length host
    → plan_for r.mode host net.dns ≡ some p
    → net.bound ≡ true
    → AllHandled (logic_handle_remote s ports sql net r d).0 (transactions_of net)
unfolding logic_handle_remote Ready
logic_handle_remote-AllHandled s ports sql net r d host p works e long plan bound =
    let P : Database × ℤ → Type 0 = λ x. AllHandled x.0 (transactions_of net) in
    let planned : P (on_plan s ports sql net r d (some p)) =
      if_cases P (not net.bound) (d, negsuc 0) _ (λ no. absurd (ground arith))
        (λ _.
          on_connection-AllHandled sql works p (transactions_of net) d _
            (read_transactions-Ready net.junk 0 [] net.transactions tt)) in
    let hosted : P (on_host s ports sql net r d (some host)) =
      if_cases P (ltb (length host) 2) (d, negsuc 0) _ (λ short. absurd (ground arith))
        (λ _. subst (λ o. P (on_plan s ports sql net r d o)) (sym plan) planned) in
    subst (λ o. P (on_host s ports sql net r d o)) (sym e) hosted
