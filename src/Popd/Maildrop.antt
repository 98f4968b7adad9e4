-- ===== src/Popd/Maildrop.antt =====
-- cmail-popd/maildrop.c: a user's mails, their deletion marks and the lock of the maildrop. The
-- statements do what their SQL text says if they end with `done`, and nothing otherwise; a NULL user
-- fits no row, and can not be marked.
pub mod Read
pub mod Locks
use cmail.Base.{
  ℕ, zero, suc, ◌+◌, Bool, true, false, not, ◌&&◌, ◌||◌, List, [], ◌∷◌, ◌++◌, Option, none, some,
  ◌==◌, leb, if◌then◌else◌, Bytes, str_eq, c_str, length, take, set, replicate, get_elem?, ℤ, pos,
  negsuc, is_negative,
}
use cmail.Popd.Types.{
  PopMail, Maildrop, MailRow, Mark, Table, Lock, Database, Exec, bind_failed, step_failed, done,
  Listing, Attach, attached, no_user_database, attach_failed, Answers, pop_messageid_max,
  cmail_maildrop_chunk, empty_maildrop,
}

abbrev pub eq_bool : Bool → Bool → Bool
eq_bool true b = b
eq_bool false b = not b

-- `empty_mail`, and what one row stores in it
abbrev pub empty_mail : Bool → PopMail
empty_mail is_master = record {
  database_id = 0;
  mail_size = 0;
  flag_master = is_master;
  flag_delete = false;
  message_id = [];
}

-- strncpy into an array whose last byte is and stays 0
unfoldable pub fill_mail : MailRow → PopMail → PopMail
fill_mail r m = record m {
  database_id = r.mail_id;
  mail_size = r.size;
  message_id = elim r.mail_ident [
    | none ↦ m.message_id
    | some t ↦ take pop_messageid_max (c_str t)
  ];
}

-- The array grows by a chunk when it is full.
unfoldable pub expand : Bool → List PopMail → ℕ → List PopMail
expand is_master mails index =
    if leb (length mails) index
    then mails ++ replicate cmail_maildrop_chunk (empty_mail is_master)
    else mails

abbrev pub at_or : PopMail → Option PopMail → PopMail
at_or d none = d
at_or d (some m) = m

-- `mails[index]` is filled from the row
unfoldable pub store_row : Bool → MailRow → List PopMail → ℕ → List PopMail
unfolding fill_mail
store_row is_master r mails index =
    set mails index (fill_mail r (at_or (empty_mail is_master) (get_elem? mails index)))

-- The loop over the rows; `mails` is the whole array, of which `index` elements are in use. Behind
-- it, `maildrop->count = index`.
unfoldable pub read_rows : Bool → List MailRow → List PopMail → ℕ → List PopMail
unfolding expand store_row
read_rows is_master [] mails index = take index mails
read_rows is_master (r ∷ rs) mails index =
    read_rows is_master rs (store_row is_master r (expand is_master mails index) index) (index + 1)

unfoldable pub maildrop_read : Listing → Maildrop → Bool → Maildrop × ℤ
unfolding read_rows
maildrop_read l drop is_master =
    if l.bound
    then (
      record drop { mails = read_rows is_master l.rows drop.mails (length drop.mails) },
      pos 101,
    )
    else (drop, negsuc 0)

-- `UPDATE OR FAIL main.popd SET pop_lock=? WHERE pop_user = ? AND pop_lock = ?`
abbrev pub fits_lock : Bytes → Bool → Lock → Bool
fits_lock user b l = str_eq l.pop_user user && eq_bool l.pop_lock b

unfoldable pub update_lock : Bool → Bytes → List Lock → List Lock
update_lock b user [] = []
update_lock b user (l ∷ ls) =
    (if fits_lock user (not b) l then record l { pop_lock = b } else l) ∷ update_lock b user ls

unfoldable pub count_locks : Bool → Bytes → List Lock → ℕ
count_locks b user [] = 0
count_locks b user (l ∷ ls) = (if fits_lock user (not b) l then 1 else 0) + count_locks b user ls

unfoldable pub maildrop_lock : Exec → Option Bytes → Bool → Database → Database × ℤ
unfolding update_lock count_locks
maildrop_lock bind_failed user b d = (d, negsuc 0)
maildrop_lock step_failed user b d = (d, pos 1)
maildrop_lock done none b d = (d, negsuc 0)
maildrop_lock done (some user) b d = (
  record d { locks = update_lock b user d.locks },
  if count_locks b user d.locks == 1 then pos 0 else negsuc 0,
)

-- behind maildrop_user_attach; `status` is the one of the master's list
unfoldable pub read_user : Attach → Listing → Maildrop → ℤ → Maildrop × ℤ
unfolding maildrop_read
read_user no_user_database l drop status = (drop, status)
read_user (attach_failed conn) l drop status = (record drop { user_conn = conn }, negsuc 0)
read_user attached l drop status =
    let (drop', rv) = maildrop_read l (record drop { user_conn = true }) false in
    (drop', if is_negative rv then negsuc 0 else status)

-- the deletion table of the user's database is new when it is attached
abbrev attach_table : Attach → Database → Database
attach_table attached d = record d { user_table = record d.user_table { deletions = [] } }
attach_table other d = d

unfoldable pub maildrop_acquire :
    Answers → Database → Maildrop → Option Bytes → Database × (Maildrop × ℤ)
unfolding maildrop_lock maildrop_read read_user
maildrop_acquire a d drop user =
    let (d', locked) = maildrop_lock a.lock user true d in
    let (drop', master) = maildrop_read a.list_master drop true in
    if is_negative locked then (d', (drop, negsuc 0)) else (
      attach_table a.attach d',
      read_user a.attach a.list_user drop' (if is_negative master then negsuc 0 else pos 0),
    )

-- `INSERT INTO temp.deletions (user, mail) VALUES (?, ?)`
unfoldable pub mark_in : Exec → Option Bytes → ℕ → Table → Table × ℤ
mark_in done (some user) id t =
    (record t { deletions = record { user = user; mail = id } ∷ t.deletions }, pos 0)
mark_in _ user id t = (t, negsuc 0)

unfoldable pub maildrop_mark : Exec → Option Bytes → PopMail → Database → Database × ℤ
unfolding mark_in
maildrop_mark e user m d =
    if m.flag_master
    then (let (t, rv) = mark_in e user m.database_id d.master in (record d { master = t }, rv))
    else let (t, rv) = mark_in e user m.database_id d.user_table in
      (record d { user_table = t }, rv)

-- `DELETE FROM temp.deletions WHERE user = ?`
unfoldable pub drop_marks : Bytes → List Mark → List Mark
drop_marks user [] = []
drop_marks user (k ∷ ks) =
    let rest = drop_marks user ks in if str_eq k.user user then rest else k ∷ rest

unfoldable pub maildrop_unmark : Exec → Option Bytes → Table → Table × ℤ
unfolding drop_marks
maildrop_unmark done none t = (t, pos 0)
maildrop_unmark done (some user) t = (record t { deletions = drop_marks user t.deletions }, pos 0)
maildrop_unmark _ user t = (t, negsuc 0)

-- `DELETE FROM main.mailbox WHERE mail_id IN (SELECT mail FROM temp.deletions WHERE user = ?)`
unfoldable pub is_marked : Bytes → List Mark → ℕ → Bool
is_marked user [] id = false
is_marked user (k ∷ ks) id = (str_eq k.user user && k.mail == id) || is_marked user ks id

unfoldable pub delete_marked : Bytes → List Mark → List ℕ → List ℕ
unfolding is_marked
delete_marked user ks [] = []
delete_marked user ks (id ∷ ids) =
    let rest = delete_marked user ks ids in if is_marked user ks id then rest else id ∷ rest

unfoldable pub maildrop_delete : Exec → Option Bytes → Table → Table × ℤ
unfolding delete_marked
maildrop_delete done none t = (t, pos 0)
maildrop_delete done (some user) t =
    (record t { mailbox = delete_marked user t.deletions t.mailbox }, pos 0)
maildrop_delete _ user t = (t, negsuc 0)

unfoldable pub maildrop_update : Answers → Database → Maildrop → Option Bytes → Database × ℤ
unfolding maildrop_delete
maildrop_update a d drop user =
    let (m, rv) = maildrop_delete a.delete_master user d.master in
    let (u, rv') = maildrop_delete a.delete_user user d.user_table in
    if drop.user_conn
    then (
      record d { master = m; user_table = u },
      if is_negative rv || is_negative rv' then negsuc 0 else pos 0,
    )
    else (record d { master = m }, if is_negative rv then negsuc 0 else pos 0)

unfoldable pub maildrop_release :
    Answers → Database → Maildrop → Option Bytes → Database × (Maildrop × ℤ)
unfolding maildrop_unmark maildrop_lock
maildrop_release a d drop user =
    let (m, rv) = maildrop_unmark a.unmark_master user d.master in
    let (u, rv') = maildrop_unmark a.unmark_user user d.user_table in
    let u' : Table = if drop.user_conn then u else d.user_table in
    let (d', locked) =
      maildrop_lock a.unlock user false (record d { master = m; user_table = u' }) in
    (
      d',
      (
        empty_maildrop,
        if is_negative rv || (drop.user_conn && is_negative rv') then negsuc 0 else pos 0,
      ),
    )
