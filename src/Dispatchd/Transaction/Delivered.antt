-- ===== src/Dispatchd/Transaction/Delivered.antt =====
-- cmail-dispatchd/mail.c and logic.c: what leaves the outbox.
use cmail.Base.{
  ℕ, Bool, true, false, List, [], ◌∷◌, Option, ◌==◌, ◌≡◌, refl, ap, ◌∙◌, ◌⊎◌, inl, inr, arith, All,
  Bytes,
}
use cmail.Popd.Types.{Exec, done, bind_failed, step_failed}
use cmail.Dispatchd.Outbox.{Database, Row, Sql, delete_row, mail_delete, recipient_path, without}
use cmail.Dispatchd.Transaction.{
  Status, rcpt_ready, rcpt_ok, rcpt_fail_temporary, rcpt_fail_permanent, Rcpt, OutboundMail, World,
  mail_dispatch, settle, settle_entry, Settled, logic_handle_transaction,
}
use cmail.Dispatchd.Transaction.Taken.{is_ok, AllReady, NoneOk, IsTaken, mail_dispatch-IsHonest}
use cmail.Dispatchd.Transaction.Keeps.{Keeps, mail_failure-outbox, mail_dispatch-Keeps}

module _ (sql : Sql) (fail_permanently : Bool) where
  abbrev settled : List Rcpt → World → Settled
  settled = settle sql fail_permanently

  settle_entry-NoneOk :
      (next : World → Settled) (s : Status) (dbid : ℕ) (w : World)
      → is_ok s ≡ false
      → ((w' : World) → Keeps w' (next w').world)
      → Keeps w (settle_entry next sql fail_permanently s dbid w).world
  settle_entry-NoneOk next rcpt_ok dbid w e h = absurd cc
  settle_entry-NoneOk next rcpt_ready dbid w e h = h _ ∙ mail_failure-outbox sql w.database dbid _ _
  settle_entry-NoneOk next rcpt_fail_temporary dbid w e h = h w
  settle_entry-NoneOk next rcpt_fail_permanent dbid w e h = h w

  settle-NoneOk : (rs : List Rcpt) (w : World) → NoneOk rs → Keeps w (settled rs w).world
  unfolding settle
  settle-NoneOk [] w h = refl
  settle-NoneOk (r ∷ rs) w (h, hs) =
      settle_entry-NoneOk (settled rs) r.status r.dbid w h (λ w'. settle-NoneOk rs w' hs)

  -- The mail `x` is not among the accepted ones.
  abbrev IsSpared : ℕ → Rcpt → Type 0
  IsSpared x r = (is_ok r.status ≡ true) → (r.dbid == x) ≡ false

  abbrev path_of : ℕ → World → Option Bytes
  path_of x w = recipient_path x w.database.outbox

  without_lem :
      (x dbid : ℕ) (xs : List Row)
      → (dbid == x) ≡ false
      → recipient_path x (without dbid xs) ≡ recipient_path x xs
  unfolding recipient_path without
  without_lem x dbid [] h = refl
  without_lem x dbid (y ∷ ys) h = ground (arith, without_lem x dbid ys h)

  delete_row_lem :
      (x dbid : ℕ) (d : Database) (e : Exec)
      → (dbid == x) ≡ false
      → recipient_path x (delete_row e d dbid).0.outbox ≡ recipient_path x d.outbox
  delete_row_lem x dbid d done h = without_lem x dbid d.outbox h
  delete_row_lem x dbid d bind_failed h = refl
  delete_row_lem x dbid d step_failed h = refl

  mail_delete_lem :
      (x dbid : ℕ) (d : Database)
      → (dbid == x) ≡ false
      → recipient_path x (mail_delete sql d dbid).0.outbox ≡ recipient_path x d.outbox
  unfolding mail_delete
  mail_delete_lem x dbid d h = delete_row_lem x dbid d (sql.delete dbid) h

  settle_entry-IsSpared :
      (next : World → Settled) (x : ℕ) (s : Status) (dbid : ℕ) (w : World)
      → (is_ok s ≡ true → (dbid == x) ≡ false)
      → ((w' : World) → path_of x (next w').world ≡ path_of x w')
      → path_of x (settle_entry next sql fail_permanently s dbid w).world ≡ path_of x w
  settle_entry-IsSpared next x rcpt_ok dbid w e h = h _ ∙ mail_delete_lem x dbid w.database (e refl)
  settle_entry-IsSpared next x rcpt_ready dbid w e h =
      h _ ∙ ap (recipient_path x) (mail_failure-outbox sql w.database dbid _ _)
  settle_entry-IsSpared next x rcpt_fail_temporary dbid w e h = h w
  settle_entry-IsSpared next x rcpt_fail_permanent dbid w e h = h w

  settle-IsSpared :
      (x : ℕ) (rs : List Rcpt) (w : World)
      → All (IsSpared x) rs
      → path_of x (settled rs w).world ≡ path_of x w
  unfolding settle
  settle-IsSpared x [] w h = refl
  settle-IsSpared x (r ∷ rs) w (h, hs) =
      settle_entry-IsSpared (settled rs) x r.status r.dbid w h (λ w'. settle-IsSpared x rs w' hs)

-- A transaction leaves the outbox as it is, or the remote server has answered 250 to the whole text
-- of the mail, and then each mail that is not one of its accepted recipients is still queued.
pub deletes_only_delivered :
    (sql : Sql) (m : OutboundMail) (w : World)
    → AllReady m.rcpt
    → let after = (logic_handle_transaction sql m w).world.database.outbox in
      let tried = mail_dispatch sql m w in
      (after ≡ w.database.outbox)
      ⊎ (IsTaken m.text tried.world.conn
          × ((x : ℕ)
              → All (λ r. is_ok r.status ≡ true → (r.dbid == x) ≡ false) tried.rcpts
              → recipient_path x after ≡ recipient_path x w.database.outbox))
unfolding logic_handle_transaction
deletes_only_delivered sql m w h = elim (mail_dispatch-IsHonest sql m w h) [
  | inl none_ok ↦ inl (settle-NoneOk sql _ _ _ none_ok ∙ mail_dispatch-Keeps sql m w)
  | inr taken ↦ inr (
    taken,
    λ x spared.
        settle-IsSpared sql _ x _ _ spared ∙ ap (recipient_path x) (mail_dispatch-Keeps sql m w),
  )
]
