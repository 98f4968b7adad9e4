-- ===== src/Popd/Marks.antt =====
-- cmail-popd: the flags of the mails and the rows of the deletion tables.
pub mod Quit
use mathlib.Core.Path.{subst}
use cmail.Base.{
  ℕ, zero, suc, Bool, true, false, ◌&&◌, ◌||◌, List, [], ◌∷◌, Option, none, some, ◌≡◌, refl, sym,
  ap, ◌∙◌, arith, ◌==◌, if◌then◌else◌, Bytes, str_eq, str_eq_iff, set, get_elem?, is_some, if_cases,
  if_both, ℤ,
}
use cmail.Popd.Types.{
  PopMail, Maildrop, Mark, Table, Database, Client, Answers, Exec, done, bind_failed, step_failed,
  Outcome, state_transaction,
}
use cmail.Popd.Maildrop.{
  is_marked, delete_marked, drop_marks, eq_bool, mark_in, maildrop_mark, maildrop_unmark,
  maildrop_delete, maildrop_update, maildrop_release, maildrop_lock,
}
use cmail.Popd.Functions.{
  pop_dele, dele_mail, pop_rset, pop_quit, quit_in, clear_flags, client_close,
}

-- a mail with this id is flagged, in the master database or in the user's
abbrev pub is_flagged : Bool → List PopMail → ℕ → Bool
is_flagged master [] id = false
is_flagged master (m ∷ ms) id =
    (m.flag_delete && (eq_bool m.flag_master master && m.database_id == id))
    || is_flagged master ms id

abbrev pub AgreeIn : Bool → Bytes → List Mark → List PopMail → Type 0
AgreeIn master user ks ms = (id : ℕ) → is_marked user ks id ≡ is_flagged master ms id

-- The deletion tables hold exactly the mails that are flagged.
pub record Agree (user : Bytes) (c : Client) : Type 0 where
  pub in_master : AgreeIn true user c.database.master.deletions c.maildrop.mails
  pub in_user : AgreeIn false user c.database.user_table.deletions c.maildrop.mails

-- flagging a mail that was not flagged
is_flagged-set :
    (b : Bool) (ms : List PopMail) (i : ℕ) (m : PopMail) (id : ℕ)
    → get_elem? ms i ≡ some m
    → m.flag_delete ≡ false
    → is_flagged b (set ms i (record m { flag_delete = true })) id
      ≡ ((eq_bool m.flag_master b && m.database_id == id) || is_flagged b ms id)
is_flagged-set b [] i m id e f = absurd cc
is_flagged-set b (x ∷ ms) zero m id e f = let q : x.flag_delete ≡ false = cc in rw q refl
is_flagged-set b (x ∷ ms) (suc i) m id e f = ground (arith, is_flagged-set b ms i m id e f)

is_flagged_clear :
    (b : Bool) (ms : List PopMail) (id : ℕ) → is_flagged b (clear_flags ms) id ≡ false
unfolding clear_flags
is_flagged_clear b [] id = refl
is_flagged_clear b (m ∷ ms) id = is_flagged_clear b ms id

is_marked_drop :
    (user : Bytes) (ks : List Mark) (id : ℕ) → is_marked user (drop_marks user ks) id ≡ false
unfolding is_marked drop_marks
is_marked_drop user [] id = refl
is_marked_drop user (k ∷ ks) id = ground (arith, is_marked_drop user ks id)

str_eq_refl : (s : Bytes) → str_eq s s ≡ true
str_eq_refl s = (str_eq_iff s s).1 refl

mark_in_master :
    (user : Bytes) (x : Exec) (w : Option Bytes) (m : PopMail) (d : Database) (id : ℕ)
    → w ≡ some user
    → x ≡ done
    → is_marked user (maildrop_mark x w m d).0.master.deletions id ≡ (
        (eq_bool m.flag_master true && m.database_id == id) || is_marked user d.master.deletions id)
unfolding maildrop_mark mark_in is_marked
mark_in_master user x w m d id u e = ground (arith, str_eq_refl user)

mark_in_user :
    (user : Bytes) (x : Exec) (w : Option Bytes) (m : PopMail) (d : Database) (id : ℕ)
    → w ≡ some user
    → x ≡ done
    → is_marked user (maildrop_mark x w m d).0.user_table.deletions id ≡ (
        (eq_bool m.flag_master false && m.database_id == id)
        || is_marked user d.user_table.deletions id)
unfolding maildrop_mark mark_in is_marked
mark_in_user user x w m d id u e = ground (arith, str_eq_refl user)

-- what dele_mail makes of a mail that is not flagged
flag_mail : Client → ℕ → PopMail → Database → Client
flag_mail c i m d = record c {
  maildrop = record c.maildrop { mails = set c.maildrop.mails i (record m { flag_delete = true }) };
  database = d;
}

flag_mail-Agree :
    (user : Bytes) (x : Exec) (w : Option Bytes) (c : Client) (i : ℕ) (m : PopMail)
    → w ≡ some user
    → x ≡ done
    → get_elem? c.maildrop.mails i ≡ some m
    → m.flag_delete ≡ false
    → Agree user c
    → Agree user (flag_mail c i m (maildrop_mark x w m c.database).0)
unfolding flag_mail
flag_mail-Agree user x w c i m u d e f g = record {
  in_master = λ id.
      mark_in_master user x w m c.database id u d
      ∙ ap (λ b. (eq_bool m.flag_master true && m.database_id == id) || b) (g.in_master id)
      ∙ sym (is_flagged-set true c.maildrop.mails i m id e f);
  in_user = λ id.
      mark_in_user user x w m c.database id u d
      ∙ ap (λ b. (eq_bool m.flag_master false && m.database_id == id) || b) (g.in_user id)
      ∙ sym (is_flagged-set false c.maildrop.mails i m id e f);
}

dele_mail-Agree :
    (user : Bytes) (a : Answers) (c : Client) (i : ℕ) (o : Option PopMail)
    → get_elem? c.maildrop.mails i ≡ o
    → c.auth.sasl.user.authorized ≡ some user
    → a.mark_deletion ≡ done
    → Agree user c
    → Agree user (dele_mail a c i o).client
unfolding dele_mail flag_mail
dele_mail-Agree user a c i none e u d g = g
dele_mail-Agree user a c i (some m) e u d g =
    if_cases (λ (o : Outcome). Agree user o.client) m.flag_delete _ _ (λ f. g)
      (λ f. flag_mail-Agree user a.mark_deletion _ c i m u d e f g)

-- DELE of an authorized user, with any number, keeps the deletion tables equal to the flags if marking
-- succeeds.
pub pop_dele-Agree :
    (user : Bytes) (a : Answers) (c : Client) (n : ℕ)
    → c.auth.sasl.user.authorized ≡ some user
    → a.mark_deletion ≡ done
    → Agree user c
    → Agree user (pop_dele a c n).client
unfolding pop_dele
pop_dele-Agree user a c zero u d g = g
pop_dele-Agree user a c (suc i) u d g = dele_mail-Agree user a c i _ refl u d g

no_marks :
    (user : Bytes) (b : Bool) (ks : List Mark) (ms : List PopMail)
    → AgreeIn b user (drop_marks user ks) (clear_flags ms)
no_marks user b ks ms id = is_marked_drop user ks id ∙ sym (is_flagged_clear b ms id)

-- RSET of an authorized user with a user database, if its statements succeed on both databases, leaves
-- the deletion tables equal to the flags, whatever they were.
pub pop_rset-Agree :
    (user : Bytes) (a : Answers) (c : Client)
    → c.auth.sasl.user.authorized ≡ some user
    → a.unmark_master ≡ done
    → a.unmark_user ≡ done
    → c.maildrop.user_conn ≡ true
    → Agree user (pop_rset a c).client
unfolding pop_rset maildrop_unmark
pop_rset-Agree user a c u m n conn =
    rw (u, m, n, conn)
      (record {
        in_master = no_marks user true c.database.master.deletions c.maildrop.mails;
        in_user = no_marks user false c.database.user_table.deletions c.maildrop.mails;
      })
