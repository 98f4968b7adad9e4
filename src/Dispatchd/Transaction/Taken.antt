-- ===== src/Dispatchd/Transaction/Taken.antt =====
-- cmail-dispatchd/mail.c and logic.c: what a mail is accepted by.
use cmail.Base.{
  zero, suc, Bool, true, false, not, ◌||◌, List, [], ◌∷◌, ◌++◌, Option, none, some, ◌≡◌, refl, ap,
  ◌∙◌, ◌⊎◌, inl, inr, arith, if_cases, if_both, All, ℤ, pos, negsuc, Bytes,
}
use cmail.Dispatchd.Types.{Conn, Sent, line, smtp_data_timeout}
use cmail.Dispatchd.Protocol.{protocol_read}
use cmail.Dispatchd.Smtp.{judged, smtp_data, mail_text, transmit, exchange}
use cmail.Dispatchd.Outbox.{Database, Sql}
use cmail.Dispatchd.Transaction.{
  Status, rcpt_ready, rcpt_ok, rcpt_fail_temporary, rcpt_fail_permanent, Rcpt, OutboundMail, World,
  ask, Asked, on_answer, on_path, ask_all, fail_accepted, fail_entry, Dispatch, on_data,
  after_rcpts, on_initiate, mail_dispatch,
}

abbrev pub is_ok : Status → Bool
is_ok rcpt_ok = true
is_ok _ = false

abbrev pub is_ready : Status → Bool
is_ready rcpt_ready = true
is_ready _ = false

abbrev pub AllReady : List Rcpt → Type 0
AllReady = All (λ r. is_ready r.status ≡ true)

abbrev pub NoneOk : List Rcpt → Type 0
NoneOk = All (λ r. is_ok r.status ≡ false)

-- The last reply has code 250, and the last text sent is this one with its terminator.
pub record IsTaken (text : Bytes) (c : Conn) : Type 0 where
  pub code_250 : c.reply.code ≡ 250
  pub earlier : List Sent
  pub text_sent : c.sent ≡ earlier ++ mail_text text

judged_ok : (x : Conn × ℤ) → (judged x).1 ≡ pos 0 → (judged x).0.reply.code ≡ 250
unfolding judged
judged_ok (c, pos n) h = ground arith
judged_ok (c, negsuc n) h = absurd (ground arith)

judged_same : (x : Conn × ℤ) → (judged x).0 ≡ x.0
unfolding judged
judged_same (c, pos n) = ground arith
judged_same (c, negsuc n) = refl

transmit_ok :
    (text : Bytes) (x : Conn × ℤ) → (transmit text x).1 ≡ pos 0 → IsTaken text (transmit text x).0
unfolding protocol_read
transmit_ok text (c, pos zero) h = record {
  code_250 = judged_ok _ h;
  earlier = c.sent;
  text_sent = ap (λ c'. c'.sent) (judged_same _);
}
transmit_ok text (c, pos (suc n)) h = absurd (ground arith)
transmit_ok text (c, negsuc n) h = absurd (ground arith)

smtp_data-IsTaken :
    (c : Conn) (text : Bytes) → (smtp_data c text).1 ≡ pos 0 → IsTaken text (smtp_data c text).0
unfolding smtp_data
smtp_data-IsTaken c text h = transmit_ok text (exchange c (line "DATA\r\n") smtp_data_timeout 354) h

ready_not_ok : (s : Status) → is_ready s ≡ true → is_ok s ≡ false
ready_not_ok rcpt_ready h = refl
ready_not_ok rcpt_ok h = absurd cc
ready_not_ok rcpt_fail_temporary h = refl
ready_not_ok rcpt_fail_permanent h = refl

AllReady-NoneOk : (rs : List Rcpt) → AllReady rs → NoneOk rs
AllReady-NoneOk [] h = tt
AllReady-NoneOk (r ∷ rs) (h, hs) = (ready_not_ok r.status h, AllReady-NoneOk rs hs)

fail_entry-NoneOk :
    (next : World → Dispatch) (sql : Sql) (permanent : Bool) (s : Status) (r : Rcpt) (w : World)
    → r.status ≡ s
    → ((w' : World) → NoneOk (next w').rcpts)
    → NoneOk (fail_entry next sql permanent s r w).rcpts
fail_entry-NoneOk next sql true rcpt_ok r w e h = (refl, h _)
fail_entry-NoneOk next sql false rcpt_ok r w e h = (refl, h _)
fail_entry-NoneOk next sql permanent rcpt_ready r w e h = (ap is_ok e, h w)
fail_entry-NoneOk next sql permanent rcpt_fail_temporary r w e h = (ap is_ok e, h w)
fail_entry-NoneOk next sql permanent rcpt_fail_permanent r w e h = (ap is_ok e, h w)

fail_accepted-NoneOk :
    (sql : Sql) (permanent : Bool) (rs : List Rcpt) (w : World)
    → NoneOk (fail_accepted sql permanent rs w).rcpts
unfolding fail_accepted
fail_accepted-NoneOk sql permanent [] w = tt
fail_accepted-NoneOk sql permanent (r ∷ rs) w =
    fail_entry-NoneOk (fail_accepted sql permanent rs) sql permanent r.status r w refl
      (fail_accepted-NoneOk sql permanent rs)

-- A recipient is accepted just where its entry becomes RCPT_OK.
abbrev IsAnswered : Asked → Type 0
IsAnswered a = is_ok a.rcpt.status ≡ a.accepted

on_answer-IsAnswered :
    (sql : Sql) (r : Rcpt) (d : Database) (x : Conn × ℤ) → IsAnswered (on_answer sql r d x)
on_answer-IsAnswered sql r d (c, pos zero) = refl
on_answer-IsAnswered sql r d (c, pos (suc n)) = refl
on_answer-IsAnswered sql r d (c, negsuc n) = refl

on_path-IsAnswered :
    (sql : Sql) (r : Rcpt) (w : World) (o : Option Bytes) → IsAnswered (on_path sql r w o)
on_path-IsAnswered sql r w none = refl
on_path-IsAnswered sql r w (some path) = on_answer-IsAnswered sql r _ _

ask-IsAnswered :
    (sql : Sql) (r : Rcpt) (w : World) → is_ready r.status ≡ true → IsAnswered (ask sql r w)
unfolding ask
ask-IsAnswered sql r w h =
    if_both IsAnswered (not (sql.rcpt_bound r.dbid)) _ _ (ready_not_ok r.status h) (
      if_both IsAnswered (not (sql.rcpt_queried r.dbid)) _ _ (ready_not_ok r.status h)
        (on_path-IsAnswered sql r w _))

refused : (a : Bool) (b : Bool) → (a || b) ≡ false → (a ≡ false) × (b ≡ false)
refused false b h = (refl, h)
refused true b h = absurd cc

ask_all-NoneOk :
    (sql : Sql) (rs : List Rcpt) (w : World)
    → AllReady rs
    → (ask_all sql rs w).continue_data ≡ false
    → NoneOk (ask_all sql rs w).rcpts
unfolding ask_all
ask_all-NoneOk sql [] w h e = tt
ask_all-NoneOk sql (r ∷ rs) w (h, hs) e =
    let (now, later) = refused (ask sql r w).accepted _ e in
    (ask-IsAnswered sql r w h ∙ now, ask_all-NoneOk sql rs (ask sql r w).world hs later)

-- what mail_dispatch ends with
abbrev pub IsHonest : Bytes → Dispatch → Type 0
IsHonest text d = NoneOk d.rcpts ⊎ IsTaken text d.world.conn

on_data-IsHonest :
    (sql : Sql) (d : Database) (rs : List Rcpt) (text : Bytes) (x : Conn × ℤ)
    → (x.1 ≡ pos 0 → IsTaken text x.0)
    → IsHonest text (on_data sql d rs x)
on_data-IsHonest sql d rs text (c, pos zero) h = inr (h refl)
on_data-IsHonest sql d rs text (c, pos (suc n)) h = inl (fail_accepted-NoneOk sql false rs _)
on_data-IsHonest sql d rs text (c, negsuc n) h = inl (fail_accepted-NoneOk sql true rs _)

after_rcpts-IsHonest :
    (sql : Sql) (text : Bytes) (rs : List Rcpt) (w : World)
    → AllReady rs
    → IsHonest text (after_rcpts sql text (ask_all sql rs w))
after_rcpts-IsHonest sql text rs w h =
    if_cases (IsHonest text) (not (ask_all sql rs w).continue_data) _ _
      (λ e. inl (ask_all-NoneOk sql rs w h (ground arith)))
      (λ e. on_data-IsHonest sql _ _ text _ (smtp_data-IsTaken _ text))

on_initiate-IsHonest :
    (sql : Sql) (d : Database) (m : OutboundMail) (x : Conn × ℤ)
    → AllReady m.rcpt
    → IsHonest m.text (on_initiate sql d m x)
on_initiate-IsHonest sql d m (c, negsuc n) h = inl (AllReady-NoneOk m.rcpt h)
on_initiate-IsHonest sql d m (c, pos (suc n)) h = inl (AllReady-NoneOk m.rcpt h)
on_initiate-IsHonest sql d m (c, pos zero) h = after_rcpts-IsHonest sql m.text m.rcpt _ h

pub mail_dispatch-IsHonest :
    (sql : Sql) (m : OutboundMail) (w : World)
    → AllReady m.rcpt
    → IsHonest m.text (mail_dispatch sql m w)
unfolding mail_dispatch
mail_dispatch-IsHonest sql m w h = on_initiate-IsHonest sql w.database m _ h
