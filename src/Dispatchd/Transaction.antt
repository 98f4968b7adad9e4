-- ===== src/Dispatchd/Transaction.antt =====
-- cmail-dispatchd/mail.c, mail_dispatch, and logic.c, logic_handle_transaction: one mail, given to the
-- remote server for several recipients.
pub mod Taken
pub mod Keeps
pub mod Delivered
pub mod Outcome
use cmail.Base.{
  ℕ, zero, suc, Bool, true, false, ◌||◌, not, List, [], ◌∷◌, Option, none, some, if◌then◌else◌, ℤ,
  pos, negsuc, Bytes, is_negative,
}
use cmail.Dispatchd.Types.{Conn}
use cmail.Dispatchd.Smtp.{smtp_initiate, smtp_rcpt, smtp_data, smtp_rset}
use cmail.Dispatchd.Outbox.{Database, Sql, mail_failure, mail_delete, recipient_path}

-- RCPTSTATUS
pub data Status : Type 0 where
  rcpt_ready rcpt_ok rcpt_fail_temporary rcpt_fail_permanent : Status

-- MAIL_RCPT
pub record Rcpt : Type 0 where
  pub dbid : ℕ
  pub status : Status

-- MAIL; `recipients` is the length of `rcpt`.
pub record OutboundMail : Type 0 where
  pub rcpt : List Rcpt
  pub envelopefrom : Option Bytes
  pub text : Bytes

pub record World : Type 0 where
  pub database : Database
  pub conn : Conn

abbrev pub failed_with : Sql → World → ℕ → Bool → World
failed_with sql w dbid fatal = record w {
  database = (mail_failure sql w.database dbid w.conn.reply.response_text fatal).0;
}

abbrev pub with_status : Rcpt → Status → Rcpt
with_status r s = record r { status = s }

-- What became of a recipient: its entry, and whether its path was accepted.
pub record Asked : Type 0 where
  pub rcpt : Rcpt
  pub world : World
  pub accepted : Bool

-- the switch on the result of smtp_rcpt
abbrev on_answer : Sql → Rcpt → Database → Conn × ℤ → Asked
on_answer sql r d (c, pos zero) = record {
  rcpt = with_status r rcpt_ok;
  world = record { database = d; conn = c };
  accepted = true;
}
on_answer sql r d (c, pos (suc n)) = record {
  rcpt = with_status r rcpt_fail_temporary;
  world = failed_with sql (record { database = d; conn = c }) r.dbid false;
  accepted = false;
}
on_answer sql r d (c, negsuc n) = record {
  rcpt = with_status r rcpt_fail_permanent;
  world = failed_with sql (record { database = d; conn = c }) r.dbid true;
  accepted = false;
}

abbrev on_path : Sql → Rcpt → World → Option Bytes → Asked
on_path sql r w none = record {
  rcpt = with_status r rcpt_fail_permanent;
  world = w;
  accepted = false;
}
on_path sql r w (some path) = on_answer sql r w.database (smtp_rcpt w.conn path)

unfoldable pub ask : Sql → Rcpt → World → Asked
unfolding smtp_rcpt mail_failure recipient_path
ask sql r w =
    if not (sql.rcpt_bound r.dbid)
    then record { rcpt = r; world = w; accepted = false }
    else if not (sql.rcpt_queried r.dbid)
    then record { rcpt = r; world = w; accepted = false }
    else on_path sql r w (recipient_path r.dbid w.database.outbox)

-- the entries, the world, and `continue_data`
pub record Round : Type 0 where
  pub rcpts : List Rcpt
  pub world : World
  pub continue_data : Bool

abbrev pub joined : Asked → Round → Round
joined a later = record {
  rcpts = a.rcpt ∷ later.rcpts;
  world = later.world;
  continue_data = a.accepted || later.continue_data;
}

unfoldable pub ask_all : Sql → List Rcpt → World → Round
unfolding ask
ask_all sql [] w = record { rcpts = []; world = w; continue_data = false }
ask_all sql (r ∷ rs) w = joined (ask sql r w) (ask_all sql rs (ask sql r w).world)

-- The accepted recipients fail, if the mail is not accepted.
abbrev pub fail_status : Bool → Status
fail_status permanent = if permanent then rcpt_fail_permanent else rcpt_fail_temporary

pub record Dispatch : Type 0 where
  pub rcpts : List Rcpt
  pub world : World
  pub rv : ℤ

abbrev pub prefixed : Rcpt → Dispatch → Dispatch
prefixed r d = record d { rcpts = r ∷ d.rcpts }

-- by the status of the entry
abbrev pub fail_entry : (World → Dispatch) → Sql → Bool → Status → Rcpt → World → Dispatch
fail_entry next sql permanent rcpt_ok r w =
    prefixed (with_status r (fail_status permanent)) (next (failed_with sql w r.dbid permanent))
fail_entry next sql permanent _ r w = prefixed r (next w)

unfoldable pub fail_accepted : Sql → Bool → List Rcpt → World → Dispatch
unfolding mail_failure
fail_accepted sql permanent [] w = record {
  rcpts = [];
  world = w;
  rv = if permanent then negsuc 0 else pos 0;
}
fail_accepted sql permanent (r ∷ rs) w =
    fail_entry (fail_accepted sql permanent rs) sql permanent r.status r w

abbrev pub on_data : Sql → Database → List Rcpt → Conn × ℤ → Dispatch
on_data sql d rs (c, pos zero) = record {
  rcpts = rs;
  world = record { database = d; conn = c };
  rv = pos 0;
}
on_data sql d rs (c, pos (suc n)) = fail_accepted sql false rs (record { database = d; conn = c })
on_data sql d rs (c, negsuc n) = fail_accepted sql true rs (record { database = d; conn = c })

abbrev pub after_rcpts : Sql → Bytes → Round → Dispatch
after_rcpts sql text round =
    if not round.continue_data
    then record { rcpts = round.rcpts; world = round.world; rv = pos 0 }
    else on_data sql round.world.database round.rcpts (smtp_data round.world.conn text)

abbrev pub on_initiate : Sql → Database → OutboundMail → Conn × ℤ → Dispatch
on_initiate sql d m (c, negsuc n) = record {
  rcpts = m.rcpt;
  world = record { database = d; conn = c };
  rv = negsuc 0;
}
on_initiate sql d m (c, pos (suc n)) = record {
  rcpts = m.rcpt;
  world = record { database = d; conn = c };
  rv = pos 0;
}
on_initiate sql d m (c, pos zero) =
    after_rcpts sql m.text (ask_all sql m.rcpt (record { database = d; conn = c }))

unfoldable pub mail_dispatch : Sql → OutboundMail → World → Dispatch
unfolding smtp_initiate smtp_data ask_all fail_accepted
mail_dispatch sql m w = on_initiate sql w.database m (smtp_initiate w.conn m.envelopefrom)

-- The loop behind the dispatch: it deletes what was delivered, and logs what was not tried.
pub record Settled : Type 0 where
  pub world : World
  pub delivered : ℕ

abbrev pub counted : Settled → Settled
counted s = record s { delivered = suc s.delivered }

abbrev pub settle_entry : (World → Settled) → Sql → Bool → Status → ℕ → World → Settled
settle_entry next sql fail_permanently rcpt_ok dbid w =
    counted (next (record w { database = (mail_delete sql w.database dbid).0 }))
settle_entry next sql fail_permanently rcpt_ready dbid w =
    next (failed_with sql w dbid fail_permanently)
settle_entry next sql fail_permanently _ dbid w = next w

unfoldable pub settle : Sql → Bool → List Rcpt → World → Settled
unfolding mail_delete mail_failure
settle sql fail_permanently [] w = record { world = w; delivered = 0 }
settle sql fail_permanently (r ∷ rs) w =
    settle_entry (settle sql fail_permanently rs) sql fail_permanently r.status r.dbid w

abbrev pub reset_conn : World → World
reset_conn w = record w { conn = (smtp_rset w.conn).0 }

abbrev pub settle_all : Sql → Dispatch → Settled
settle_all sql d = settle sql (is_negative d.rv) d.rcpts (reset_conn d.world)

unfoldable pub logic_handle_transaction : Sql → OutboundMail → World → Settled
unfolding mail_dispatch smtp_rset settle
logic_handle_transaction sql m w = settle_all sql (mail_dispatch sql m w)
