-- ===== src/Popd/Functions.antt =====
-- cmail-popd/popfunctions.c, and client_close of client.c.
pub mod Stuffing
use cmail.Base.{
  ℕ, zero, suc, ◌+◌, Bool, true, false, not, ◌&&◌, ◌||◌, List, [], ◌∷◌, ◌++◌, Option, none, some,
  if◌then◌else◌, length, get_elem?, set, codes, ℤ, pos, negsuc, is_some, Bytes, ◌%◌, String,
  has_prefix, drop, c_str, is_negative,
}
use cmail.Net.{TlsMode, tls_none, tls_negotiate, tls_only}
use cmail.Popd.Types.{
  PopMail, Client, Listener, Answers, Outcome, Reply, line, with_text, with_numbers, with_ident,
  raw, reply, PopState, state_transaction, auth_reset,
}
use cmail.Popd.Maildrop.{maildrop_mark, maildrop_unmark, maildrop_update, maildrop_release}

abbrev pub is_none : TlsMode → Bool
is_none tls_none = true
is_none _ = false

abbrev pub is_only : TlsMode → Bool
is_only tls_only = true
is_only _ = false

abbrev pub is_negotiate : TlsMode → Bool
is_negotiate tls_negotiate = true
is_negotiate _ = false

-- `client->tls_mode == TLS_ONLY || !listener_data->tls_require`
abbrev pub may_log_in : Listener → Client → Bool
may_log_in l c = is_only c.tls_mode || not l.tls_require

unfoldable pub pop_capa : Bytes → Listener → Client → Outcome
pop_capa version l c = record {
  client = c;
  sent =
      line "+OK Capability listing\r\n"
      ∷ ((if may_log_in l c
            then line "UIDL\r\n" ∷ line "USER\r\n" ∷ line "SASL LOGIN\r\n" ∷ []
            else [])
          ++ ((if is_none c.tls_mode && is_negotiate l.tls_mode then line "STLS\r\n" ∷ [] else [])
              ++ with_text "IMPLEMENTATION %s\r\n" version ∷ line "XYZZY\r\n" ∷ line ".\r\n" ∷ []));
  rv = pos 0;
}

-- an unsigned sum, of 32 bits
unfoldable pub total_size : List PopMail → ℕ
total_size [] = 0
total_size (m ∷ ms) = (m.mail_size + total_size ms) % 4294967296

unfoldable pub pop_stat : Client → Outcome
unfolding total_size
pop_stat c =
    reply c (with_numbers "+OK %d %d\r\n" (length c.maildrop.mails) (total_size c.maildrop.mails))
      (pos 0)

-- the lines for all mails but those that are marked; `i` counts from 1
unfoldable pub scan_lines : (ℕ → PopMail → Reply) → ℕ → List PopMail → List Reply
scan_lines f i [] = []
scan_lines f i (m ∷ ms) =
    let later = scan_lines f (i + 1) ms in if m.flag_delete then later else f i m ∷ later

-- `mails[mail - 1]`, for the tests `mail == 0` and `mail <= count`
unfoldable pub mail_at : List PopMail → ℕ → Option PopMail
mail_at ms zero = none
mail_at ms (suc i) = get_elem? ms i

-- what list and uidl answer for one mail
unfoldable pub list_one : (ℕ → PopMail → Reply) → Client → ℕ → Option PopMail → Outcome
list_one f c n none = reply c (line "-ERR No such mail\r\n") (negsuc 0)
list_one f c n (some m) =
    if m.flag_delete
    then reply c (line "-ERR Mail marked for deletion\r\n") (negsuc 0)
    else reply c (f n m) (pos 0)

unfoldable pub list_all : String → (ℕ → PopMail → Reply) → Client → Outcome
unfolding scan_lines
list_all header f c = record {
  client = c;
  sent = line header ∷ (scan_lines f 1 c.maildrop.mails ++ line ".\r\n" ∷ []);
  rv = pos 0;
}

abbrev size_line : String → ℕ → PopMail → Reply
size_line f i m = with_numbers f i m.mail_size

abbrev ident_line : String → ℕ → PopMail → Reply
ident_line f i m = with_ident f i m.message_id

unfoldable pub pop_list : Client → ℕ → Outcome
unfolding list_all list_one mail_at
pop_list c zero = list_all "+OK Scan listing follows\r\n" (size_line "%d %d\r\n") c
pop_list c (suc i) =
    list_one (size_line "+OK %d %d\r\n") c (suc i) (mail_at c.maildrop.mails (suc i))

unfoldable pub pop_uidl : Client → ℕ → Outcome
unfolding list_all list_one mail_at
pop_uidl c zero = list_all "+OK UID listing follows\r\n" (ident_line "%d %s\r\n") c
pop_uidl c (suc i) =
    list_one (ident_line "+OK %d %s\r\n") c (suc i) (mail_at c.maildrop.mails (suc i))

abbrev mark_mail : PopMail → PopMail
mark_mail m = record m { flag_delete = true }

-- a mail that can be marked; the result of maildrop_mark is only logged
unfoldable pub dele_mail : Answers → Client → ℕ → Option PopMail → Outcome
dele_mail a c i none = reply c (line "-ERR No such mail\r\n") (negsuc 0)
dele_mail a c i (some m) =
    let (db, rv) = maildrop_mark a.mark_deletion c.auth.sasl.user.authorized m c.database in
    if m.flag_delete
    then reply c (line "-ERR Message already deleted\r\n") (negsuc 0)
    else reply
        (record c {
          maildrop = record c.maildrop { mails = set c.maildrop.mails i (mark_mail m) };
          database = db;
        })
        (line "+OK Marked for deletion\r\n") (pos 0)

unfoldable pub pop_dele : Answers → Client → ℕ → Outcome
unfolding dele_mail
pop_dele a c zero = reply c (line "-ERR No such mail\r\n") (negsuc 0)
pop_dele a c (suc i) = dele_mail a c i (get_elem? c.maildrop.mails i)

abbrev unmark_mail : PopMail → PopMail
unmark_mail m = record m { flag_delete = false }

unfoldable pub clear_flags : List PopMail → List PopMail
clear_flags [] = []
clear_flags (m ∷ ms) = unmark_mail m ∷ clear_flags ms

abbrev resetting : Reply
resetting = line "-ERR Internal error resetting\r\n"

unfoldable pub pop_rset : Answers → Client → Outcome
unfolding clear_flags
pop_rset a c =
    let (m, rv) = maildrop_unmark a.unmark_master c.auth.sasl.user.authorized c.database.master in
    let (u, rv') =
      maildrop_unmark a.unmark_user c.auth.sasl.user.authorized c.database.user_table in
    let master_done = record c { database = record c.database { master = m } } in
    let both_done = record c { database = record c.database { master = m; user_table = u } } in
    let drop = record c.maildrop { mails = clear_flags c.maildrop.mails } in
    if is_negative rv
    then reply c resetting (pos 0)
    else if not c.maildrop.user_conn
    then reply (record master_done { maildrop = drop }) (line "+OK Deletion flags cleared\r\n")
        (pos 0)
    else if is_negative rv'
    then reply master_done resetting (pos 0)
    else reply (record both_done { maildrop = drop }) (line "+OK Deletion flags cleared\r\n")
        (pos 0)

-- The maildrop is released only after a login; the state is left as it is.
unfoldable pub client_close : Answers → Client → Client × ℤ
unfolding auth_reset
client_close a c =
    let (db, (drop, rv)) = maildrop_release a c.database c.maildrop c.auth.sasl.user.authorized in
    let closed = record c { tls_mode = tls_none; connected = false; auth = auth_reset c.auth } in
    if c.auth.auth_ok && is_some c.auth.sasl.user.authenticated
    then (record closed { database = db; maildrop = drop }, pos 0)
    else (closed, pos 0)

abbrev close_with : Answers → Client → Reply → Outcome
close_with a c r = let (c', rv) = client_close a c in record { client = c'; sent = r ∷ []; rv = rv }

unfoldable pub quit_in : PopState → Answers → Client → Outcome
quit_in state_transaction a c =
    let (db, rv) = maildrop_update a c.database c.maildrop c.auth.sasl.user.authorized in
    close_with a (record c { database = db })
      (if is_negative rv
        then line "-ERR Failed to update the maildrop\r\n"
        else line "+OK Maildrop updated\r\n")
quit_in _ a c = close_with a c (line "+OK No change\r\n")

unfoldable pub pop_quit : Answers → Client → Outcome
unfolding quit_in
pop_quit a c = quit_in c.state a c

-- `strstr(mail_data, "\r\n.")`: what stands before and behind the first one
unfoldable pub split_dot : Bytes → Option (Bytes × Bytes)
split_dot [] = none
split_dot (c ∷ cs) =
    let rest = split_dot cs in
    if has_prefix (codes "\r\n.") (c ∷ cs)
    then some ([], drop 2 cs)
    else elim rest [ none ↦ none | some (before, behind) ↦ some (c ∷ before, behind) ]

-- one round of the loop; `next` sends what stands behind the dot
abbrev pub send_piece : (Bytes → List Reply) → Bytes → Option (Bytes × Bytes) → List Reply
send_piece next text none = raw text ∷ []
send_piece next text (some (before, behind)) = raw before ∷ line "\r\n.." ∷ next behind

-- The loop of pop_retr; each round consumes at least three bytes, so that the length is enough fuel.
unfoldable pub send_stuffed : ℕ → Bytes → List Reply
unfolding split_dot
send_stuffed zero text = []
send_stuffed (suc fuel) text = send_piece (send_stuffed fuel) text (split_dot text)

unfoldable pub send_mail : Bytes → List Reply
unfolding send_stuffed
send_mail text =
    (if has_prefix (codes ".") text then line "." ∷ [] else [])
    ++ send_stuffed (suc (length text)) text

unfoldable pub fetched : Option (Option Bytes) → List Reply
unfolding send_mail
fetched none = []
fetched (some none) = line "-ERR Failed to fetch mail\r\n" ∷ []
fetched (some (some text)) = line "+OK Here it comes\r\n" ∷ send_mail (c_str text)

unfoldable pub retr_mail : Answers → Client → Option PopMail → Outcome
unfolding fetched
retr_mail a c none = reply c (line "-ERR No such mail\r\n") (negsuc 0)
retr_mail a c (some m) =
    if m.flag_delete
    then reply c (line "-ERR Mail marked for deletion\r\n") (negsuc 0)
    else record { client = c; sent = fetched a.fetch ++ line "\r\n.\r\n" ∷ []; rv = pos 0 }

unfoldable pub pop_retr : Answers → Client → ℕ → Outcome
unfolding retr_mail mail_at
pop_retr a c n = retr_mail a c (mail_at c.maildrop.mails n)
