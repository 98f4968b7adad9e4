-- ===== src/Dispatchd/Bounce.antt =====
-- cmail-dispatchd/logic.c, logic_generate_bounces: the reports on mails that could not be delivered.
-- common_strappf finds memory, and keeps the text that it appends to.
pub mod Reports
use cmail.Base.{
  ℕ, zero, suc, ◌+◌, Bool, true, false, ◌&&◌, List, [], ◌∷◌, ◌++◌, Option, none, some,
  if◌then◌else◌, ℤ, pos, negsuc, Bytes,
}
use cmail.Dispatchd.Outbox.{Database, Sql, mail_delete}

-- a row of the query for candidates, and of the query for the reasons of one
pub record Candidate : Type 0 where
  pub mail_id : ℕ
  pub mail_envelopefrom : Option Bytes
  pub mail_envelopeto : Bytes
  pub mail_submission : ℕ
  pub mail_data : Bytes

pub record Reason : Type 0 where
  pub fail_time : ℕ
  pub fail_message : Bytes
  pub fail_fatal : Bool

-- The pieces of a report, each with the arguments of its format.
pub data Part : Type 0 where
  head : Bytes → Bytes → Bytes → Bytes → ℕ → Bytes → Part
  attempt : Reason → Part
  original : Part

-- a row that is inserted into the outbox, with the parts of `? || ?`
pub record BounceRow : Type 0 where
  pub envelope_to : Bytes
  pub report : List Part
  pub appended : Bytes

-- MTA_SETTINGS, and what the run meets: the time as text, the message id and the reasons of each mail,
-- and how the statements end, for each mail and each of its bounce recipients.
pub record BounceSettings : Type 0 where
  pub bounce_from : Bytes
  pub bounce_to : List Bytes

pub record BounceAnswers : Type 0 where
  pub time_text : Bytes
  pub message_id : ℕ → Bytes
  pub reasons : ℕ → List Reason
  pub report_bound : ℕ → Bool
  pub inserted : ℕ → ℕ → Bool
  pub recipient_bound : ℕ → ℕ → Bool

unfoldable pub attempts : List Reason → List Part
attempts [] = []
attempts (r ∷ rs) = attempt r ∷ attempts rs

-- what is appended for one candidate, with its sender
unfoldable pub report_of : BounceSettings → BounceAnswers → Candidate → Bytes → List Part
unfolding attempts
report_of b a c sender =
    head b.bounce_from sender a.time_text (a.message_id c.mail_id) c.mail_submission
      c.mail_envelopeto
    ∷ (attempts (a.reasons c.mail_id) ++ original ∷ [])

abbrev pub row_for : Candidate → List Part → Bytes → BounceRow
row_for c report to = record { envelope_to = to; report = report; appended = c.mail_data }

-- the row that the statement inserts, if it succeeds
abbrev row_if : Bool → BounceRow → List BounceRow
row_if true row = row ∷ []
row_if false row = []

-- The loop over the recipients of a bounce, of which `current` is bound; `ok` is `rv == 0`.
unfoldable pub insert_bounces :
    BounceAnswers → Candidate → List Part → ℕ → Bytes → List Bytes → Bool → List BounceRow × Bool
insert_bounces a c report i current [] ok =
    (row_if (a.inserted c.mail_id i) (row_for c report current), ok && a.inserted c.mail_id i)
insert_bounces a c report i current (next ∷ rest) ok =
    let now = row_if (a.inserted c.mail_id i) (row_for c report current) in
    let ok' = (ok && a.inserted c.mail_id i) && a.recipient_bound c.mail_id i in
    let (later, end) = insert_bounces a c report (i + 1) next rest ok' in
    if ok' then (now ++ later, end) else (now, false)

-- `ok` is `rv == 0`, which nothing sets again, and `message` the report in `bounce_message`.
pub record Bouncing : Type 0 where
  pub database : Database
  pub rows : List BounceRow
  pub message : List Part
  pub bounces : ℕ
  pub ok : Bool

abbrev delete_original : Sql → Candidate → Bouncing → Bouncing
delete_original sql c s = record s { database = (mail_delete sql s.database c.mail_id).0 }

-- behind the loop over the recipients
abbrev settle : Sql → Candidate → Bouncing → List BounceRow × Bool → Bouncing
settle sql c s (rows, false) = record s { rows = s.rows ++ rows; ok = false }
settle sql c s (rows, true) = record (delete_original sql c s) {
  rows = s.rows ++ rows;
  bounces = suc s.bounces;
  ok = true;
}

-- by the sender of the candidate; bounces of bounces are dropped
unfoldable pub bounce_one :
    BounceSettings → BounceAnswers → Sql → Candidate → Option Bytes → Bouncing → Bouncing
unfolding report_of insert_bounces mail_delete
bounce_one b a sql c none s = delete_original sql c s
bounce_one b a sql c (some sender) s =
    let report = s.message ++ report_of b a c sender in
    let s' = record s { message = report } in
    if a.report_bound c.mail_id
    then settle sql c s' (insert_bounces a c report 0 sender b.bounce_to s.ok)
    else s'

unfoldable pub bounce_all :
    BounceSettings → BounceAnswers → Sql → List Candidate → Bouncing → Bouncing
unfolding bounce_one
bounce_all b a sql [] s = s
bounce_all b a sql (c ∷ cs) s = bounce_all b a sql cs (bounce_one b a sql c c.mail_envelopefrom s)

abbrev pub no_bounces : Database → Bouncing
no_bounces d = record { database = d; rows = []; message = []; bounces = 0; ok = true }

-- The candidates, and whether the query for them ended well; it may not be bound at all.
unfoldable pub logic_generate_bounces :
    BounceSettings → BounceAnswers → Sql → Option (List Candidate × Bool) → Database → Bouncing × ℤ
unfolding bounce_all
logic_generate_bounces b a sql none d = (no_bounces d, negsuc 0)
logic_generate_bounces b a sql (some (cs, complete)) d =
    let s = bounce_all b a sql cs (no_bounces d) in
    (s, if s.ok && complete then pos s.bounces else negsuc 0)
