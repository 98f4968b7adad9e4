-- ===== src/Admin/Statement.antt =====
-- How the SQL statements of cmail-admin end: sqlite is not code of the repository.
use cmail.Base.{Bool, true, List, Option, none, some, ℕ, ℤ, pos}

-- Whether the statement is prepared, its parameters are bound, and it is carried out if the
-- constraints of its table allow it.
pub record Statement : Type 0 where
  pub is_prepared : Bool
  pub is_bound : Bool
  pub is_executed : Bool

abbrev pub succeeds : Statement
succeeds = record { is_prepared = true; is_bound = true; is_executed = true }

-- A query: the rows that it returns, and the status at their end, `none` for SQLITE_DONE.
pub record Query {ℓ} (A : Type ℓ) : Type ℓ where
  pub is_prepared : Bool
  pub is_bound : Bool
  pub rows : List A
  pub failure : Option ℕ

abbrev pub status_of : Option ℕ → ℤ
status_of none = pos 0
status_of (some status) = pos status
