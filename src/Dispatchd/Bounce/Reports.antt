-- ===== src/Dispatchd/Bounce/Reports.antt =====
-- cmail-dispatchd/logic.c, logic_generate_bounces: who gets which report.
use mathlib.Core.List.{append_assoc, append-nil}
use cmail.Base.{
  ℕ, ◌+◌, true, List, [], ◌∷◌, ◌++◌, Option, none, some, ◌≡◌, refl, sym, ap, ap₂, ◌∙◌, Bytes,
}
use cmail.Dispatchd.Outbox.{Database, Sql}
use cmail.Dispatchd.Bounce.{
  Candidate, Part, BounceRow, BounceSettings, BounceAnswers, report_of, insert_bounces, Bouncing,
  bounce_one, bounce_all, no_bounces, logic_generate_bounces,
}

-- the rows of one mail: the same report for each recipient
pub rows_for : List Part → Bytes → List Bytes → List BounceRow
rows_for report text [] = []
rows_for report text (r ∷ rs) =
    record { envelope_to = r; report = report; appended = text } ∷ rows_for report text rs

-- The rows for one candidate with this sender, behind the reports `earlier` in the run; the mail of
-- a candidate without a sender is not reported.
abbrev pub rows_from :
    (List Part → List BounceRow)
    → BounceSettings
    → BounceAnswers
    → List Part
    → Candidate
    → Option Bytes
    → List BounceRow
rows_from next b a earlier c none = next earlier
rows_from next b a earlier c (some sender) =
    rows_for (earlier ++ report_of b a c sender) c.mail_data (sender ∷ b.bounce_to)
    ++ next (earlier ++ report_of b a c sender)

pub rows_of : BounceSettings → BounceAnswers → List Part → List Candidate → List BounceRow
rows_of b a earlier [] = []
rows_of b a earlier (c ∷ cs) =
    rows_from (λ parts. rows_of b a parts cs) b a earlier c c.mail_envelopefrom

module _ (b : BounceSettings) (a : BounceAnswers) (sql : Sql)
    (bound : (n : ℕ) → a.report_bound n ≡ true) (inserted : (n i : ℕ) → a.inserted n i ≡ true)
    (each : (n i : ℕ) → a.recipient_bound n i ≡ true) where
  insert_bounces_lem :
      (c : Candidate) (report : List Part) (i : ℕ) (current : Bytes) (rest : List Bytes)
      → insert_bounces a c report i current rest true
        ≡ (rows_for report c.mail_data (current ∷ rest), true)
  unfolding insert_bounces rows_for
  insert_bounces_lem c report i current [] = rw (inserted c.mail_id i) refl
  insert_bounces_lem c report i current (next ∷ rest) =
      rw (inserted c.mail_id i, each c.mail_id i, insert_bounces_lem c report (i + 1) next rest)
        refl

  -- what a run adds to one that has met no error
  abbrev Adds : Bouncing → List BounceRow → List Part → Bouncing → Type 0
  Adds s rows report s' = (s'.rows ≡ s.rows ++ rows) × (s'.ok ≡ true) × (s'.message ≡ report)

  bounce_one_lem :
      (c : Candidate) (sender : Bytes) (s : Bouncing)
      → s.ok ≡ true
      → let report = s.message ++ report_of b a c sender in
        Adds s
          (rows_for report c.mail_data (sender ∷ b.bounce_to))
          report
          (bounce_one b a sql c (some sender) s)
  unfolding bounce_one
  bounce_one_lem c sender s ok =
      rw
        (
          bound c.mail_id,
          ok,
          insert_bounces_lem c (s.message ++ report_of b a c sender) 0 sender b.bounce_to,
        )
        (refl, refl, refl)

  abbrev IsRun : List Candidate → Bouncing → List BounceRow → Type 0
  IsRun cs s rows =
      ((bounce_all b a sql cs s).rows ≡ s.rows ++ rows) × ((bounce_all b a sql cs s).ok ≡ true)

  bounce_next :
      (c : Candidate) (cs : List Candidate) (s : Bouncing) (o : Option Bytes)
      → s.ok ≡ true
      → ((s' : Bouncing) → s'.ok ≡ true → IsRun cs s' (rows_of b a s'.message cs))
      → let r = bounce_all b a sql cs (bounce_one b a sql c o s) in
        (r.rows ≡ s.rows ++ rows_from (λ parts. rows_of b a parts cs) b a s.message c o)
        × (r.ok ≡ true)
  unfolding bounce_one
  bounce_next c cs s none ok h = h _ ok
  bounce_next c cs s (some sender) ok h =
      let (rows, ok', message) = bounce_one_lem c sender s ok in
      let (run, end) = h (bounce_one b a sql c (some sender) s) ok' in
      (
        run ∙ ap₂ ◌++◌ rows (ap (λ parts. rows_of b a parts cs) message) ∙ append_assoc s.rows _ _,
        end,
      )

  bounce_all_lem :
      (cs : List Candidate) (s : Bouncing) → s.ok ≡ true → IsRun cs s (rows_of b a s.message cs)
  unfolding bounce_all rows_of
  bounce_all_lem [] s ok = (sym (append-nil s.rows), ok)
  bounce_all_lem (c ∷ cs) s ok =
      bounce_next c cs s c.mail_envelopefrom ok (λ s' e. bounce_all_lem cs s' e)

-- If the statements succeed, a run inserts for each candidate with a sender, in order, one row for
-- this sender and one for each address of `bounce_to`, with the candidate's mail behind the report;
-- and the report of a candidate stands behind those of all candidates before it in the run.
pub bounces_accumulate :
    (b : BounceSettings) (a : BounceAnswers) (sql : Sql) (cs : List Candidate) (d : Database)
    → ((n : ℕ) → a.report_bound n ≡ true)
    → ((n i : ℕ) → a.inserted n i ≡ true)
    → ((n i : ℕ) → a.recipient_bound n i ≡ true)
    → (logic_generate_bounces b a sql (some (cs, true)) d).0.rows ≡ rows_of b a [] cs
unfolding logic_generate_bounces
bounces_accumulate b a sql cs d bound inserted each =
    (bounce_all_lem b a sql bound inserted each cs (no_bounces d) refl).0
