-- ===== src/Popd/Marks/Quit.antt =====
-- cmail-popd/popfunctions.c: pop_quit and the mailboxes.
use mathlib.Core.Path.{subst}
use cmail.Base.{
  ℕ, Bool, true, false, ◌&&◌, List, [], ◌∷◌, Option, none, some, ◌≡◌, refl, sym, ap, ◌∙◌,
  if◌then◌else◌, Bytes, is_some, if_cases, if_both, ℤ,
}
use cmail.Popd.Types.{
  Maildrop, Mark, Table, Database, Client, Answers, Exec, done, bind_failed, step_failed,
  state_transaction,
}
use cmail.Popd.Maildrop.{
  is_marked, delete_marked, maildrop_unmark, maildrop_delete, maildrop_update, maildrop_release,
  maildrop_lock,
}
use cmail.Popd.Functions.{pop_quit, quit_in, client_close}
use cmail.Popd.Marks.{is_flagged, AgreeIn, Agree}

-- the ids that are not flagged
unfoldable pub keep : (ℕ → Bool) → List ℕ → List ℕ
keep f [] = []
keep f (id ∷ ids) = let rest = keep f ids in if f id then rest else id ∷ rest

delete_marked-keep :
    (user : Bytes) (ks : List Mark) (f : ℕ → Bool) (ids : List ℕ)
    → ((id : ℕ) → is_marked user ks id ≡ f id)
    → delete_marked user ks ids ≡ keep f ids
unfolding delete_marked keep
delete_marked-keep user ks f [] h = refl
delete_marked-keep user ks f (id ∷ ids) h = rw (h id, delete_marked-keep user ks f ids h) refl

maildrop_unmark-mailbox :
    (x : Exec) (w : Option Bytes) (t : Table) → (maildrop_unmark x w t).0.mailbox ≡ t.mailbox
unfolding maildrop_unmark
maildrop_unmark-mailbox bind_failed w t = refl
maildrop_unmark-mailbox step_failed w t = refl
maildrop_unmark-mailbox done none t = refl
maildrop_unmark-mailbox done (some user) t = refl

maildrop_lock-tables :
    (x : Exec) (w : Option Bytes) (b : Bool) (d : Database)
    → ((maildrop_lock x w b d).0.master ≡ d.master)
      × ((maildrop_lock x w b d).0.user_table ≡ d.user_table)
unfolding maildrop_lock
maildrop_lock-tables bind_failed w b d = (refl, refl)
maildrop_lock-tables step_failed w b d = (refl, refl)
maildrop_lock-tables done none b d = (refl, refl)
maildrop_lock-tables done (some user) b d = (refl, refl)

-- The mailboxes of a database.
abbrev pub Holds : Database → List ℕ → List ℕ → Type 0
Holds d master user = (d.master.mailbox ≡ master) × (d.user_table.mailbox ≡ user)

maildrop_release-Holds :
    (a : Answers) (d : Database) (drop : Maildrop) (w : Option Bytes) {m : List ℕ} {u : List ℕ}
    → Holds d m u
    → Holds (maildrop_release a d drop w).0 m u
unfolding maildrop_release
maildrop_release-Holds a d drop w h =
    let m' = maildrop_unmark-mailbox a.unmark_master w d.master in
    let u' = maildrop_unmark-mailbox a.unmark_user w d.user_table in
    let locked = maildrop_lock-tables a.unlock w false (record d {
      master = (maildrop_unmark a.unmark_master w d.master).0;
      user_table =
          if drop.user_conn then (maildrop_unmark a.unmark_user w d.user_table).0 else d.user_table;
    }) in
    (
      ap (λ (t : Table). t.mailbox) locked.0 ∙ m' ∙ h.0,
      ap (λ (t : Table). t.mailbox) locked.1
          ∙ if_both (λ (t : Table). t.mailbox ≡ d.user_table.mailbox) drop.user_conn _ _ u' refl
          ∙ h.1,
    )

client_close-Holds :
    (a : Answers) (c : Client) {m : List ℕ} {u : List ℕ}
    → Holds c.database m u
    → Holds (client_close a c).0.database m u
unfolding client_close
client_close-Holds a c {m} {u} h =
    if_cases (λ (r : Client × ℤ). Holds r.0.database m u)
      (c.auth.auth_ok && is_some c.auth.sasl.user.authenticated) _ _
      (λ e. maildrop_release-Holds a c.database c.maildrop c.auth.sasl.user.authorized h) (λ e. h)

maildrop_update-Holds :
    (a : Answers) (d : Database) (drop : Maildrop) (w : Option Bytes) (user : Bytes)
    → w ≡ some user
    → a.delete_master ≡ done
    → a.delete_user ≡ done
    → drop.user_conn ≡ true
    → AgreeIn true user d.master.deletions drop.mails
    → AgreeIn false user d.user_table.deletions drop.mails
    → Holds
        (maildrop_update a d drop w).0
        (keep (is_flagged true drop.mails) d.master.mailbox)
        (keep (is_flagged false drop.mails) d.user_table.mailbox)
unfolding maildrop_update maildrop_delete
maildrop_update-Holds a d drop w user e m u conn am au =
    rw (e, m, u, conn)
      (
        delete_marked-keep user d.master.deletions _ d.master.mailbox am,
        delete_marked-keep user d.user_table.deletions _ d.user_table.mailbox au,
      )

-- QUIT in the transaction state, with a user database and with statements that succeed, removes from
-- each database exactly the mails whose flag is set, if the deletion tables agree with the flags.
pub pop_quit_deletes :
    (user : Bytes) (a : Answers) (c : Client)
    → c.state ≡ state_transaction
    → c.auth.sasl.user.authorized ≡ some user
    → a.delete_master ≡ done
    → a.delete_user ≡ done
    → c.maildrop.user_conn ≡ true
    → Agree user c
    → Holds
        (pop_quit a c).client.database
        (keep (is_flagged true c.maildrop.mails) c.database.master.mailbox)
        (keep (is_flagged false c.maildrop.mails) c.database.user_table.mailbox)
unfolding pop_quit quit_in
pop_quit_deletes user a c st e m u conn g =
    subst
      (λ s.
        Holds (quit_in s a c).client.database
          (keep (is_flagged true c.maildrop.mails) c.database.master.mailbox)
          (keep (is_flagged false c.maildrop.mails) c.database.user_table.mailbox))
      (sym st) now
  where
    now :
        Holds
          (quit_in state_transaction a c).client.database
          (keep (is_flagged true c.maildrop.mails) c.database.master.mailbox)
          (keep (is_flagged false c.maildrop.mails) c.database.user_table.mailbox)
    now = client_close-Holds a _ (
        maildrop_update-Holds a c.database c.maildrop c.auth.sasl.user.authorized user e m u conn
          g.in_master g.in_user)
