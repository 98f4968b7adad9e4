-- ===== src/Dispatchd/Outbox.antt =====
-- cmail-dispatchd/mail.c, mail_failure and mail_delete: the tables `outbox` and `faillog`.
use cmail.Base.{
  ℕ, Bool, List, [], ◌∷◌, Option, none, some, ◌==◌, if◌then◌else◌, ℤ, pos, negsuc, Bytes, codes,
  is_some,
}
use cmail.Popd.Types.{Exec, done}

-- a row of `outbox`
pub record Row : Type 0 where
  pub mail_id : ℕ
  pub mail_envelopefrom : Option Bytes
  pub mail_envelopeto : Bytes
  pub mail_data : Bytes

-- a row of `faillog`; its time is not modelled
pub record Failure : Type 0 where
  pub fail_mail : ℕ
  pub fail_message : Bytes
  pub fail_fatal : Bool

pub record Database : Type 0 where
  pub outbox : List Row
  pub faillog : List Failure

-- How the statements end, for each mail that they are about.
pub record Sql : Type 0 where
  pub rcpt_bound : ℕ → Bool
  pub rcpt_queried : ℕ → Bool
  pub insert_reason : ℕ → Exec
  pub delete : ℕ → Exec

unfoldable pub or_no_response : Option Bytes → Bytes
or_no_response none = codes "No server response"
or_no_response (some message) = message

abbrev pub failure : ℕ → Option Bytes → Bool → Failure
failure dbid message fatal = record {
  fail_mail = dbid;
  fail_message = or_no_response message;
  fail_fatal = fatal;
}

-- SELECT mail_envelopeto FROM main.outbox WHERE mail_id=?
unfoldable pub recipient_path : ℕ → List Row → Option Bytes
recipient_path dbid [] = none
recipient_path dbid (x ∷ xs) =
    let rest = recipient_path dbid xs in if x.mail_id == dbid then some x.mail_envelopeto else rest

-- `fail_mail` refers to a row of `outbox`, and foreign keys are enforced.
abbrev pub insert_failure : Exec → Database → Failure → Database × ℤ
insert_failure done d f =
    if is_some (recipient_path f.fail_mail d.outbox)
    then (record d { faillog = f ∷ d.faillog }, pos 0)
    else (d, negsuc 0)
insert_failure _ d f = (d, negsuc 0)

unfoldable pub mail_failure : Sql → Database → ℕ → Option Bytes → Bool → Database × ℤ
unfolding or_no_response recipient_path
mail_failure sql d dbid message fatal =
    insert_failure (sql.insert_reason dbid) d (failure dbid message fatal)

-- DELETE FROM main.outbox WHERE mail_id=?
unfoldable pub without : ℕ → List Row → List Row
without dbid [] = []
without dbid (x ∷ xs) = let rest = without dbid xs in if x.mail_id == dbid then rest else x ∷ rest

-- ON DELETE CASCADE
unfoldable pub without_failures : ℕ → List Failure → List Failure
without_failures dbid [] = []
without_failures dbid (f ∷ fs) =
    let rest = without_failures dbid fs in if f.fail_mail == dbid then rest else f ∷ rest

abbrev pub delete_row : Exec → Database → ℕ → Database × ℤ
delete_row done d dbid =
    (record d { outbox = without dbid d.outbox; faillog = without_failures dbid d.faillog }, pos 0)
delete_row _ d dbid = (d, negsuc 0)

unfoldable pub mail_delete : Sql → Database → ℕ → Database × ℤ
unfolding without without_failures
mail_delete sql d dbid = delete_row (sql.delete dbid) d dbid
