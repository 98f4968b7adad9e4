-- ===== src/Smtpd/Mail.antt =====
-- cmail-smtpd/mail.c: the mail that a client is building. `heap` says whether realloc succeeds, and
-- what the memory that it returns holds.
pub mod Lines
pub mod Reset
use cmail.Base.{
  ℕ, zero, suc, ◌+◌, ◌-◌, Bool, true, false, not, ◌&&◌, ◌||◌, List, [], ◌∷◌, ◌++◌, Option, none,
  some, ◌==◌, leb, ltb, if◌then◌else◌, Bytes, codes, c_str, length, take, drop, replicate, ℤ, pos,
  negsuc, is_some,
}
use cmail.Smtpd.Types.{MailPath, Mail, reset_path}
use cmail.Smtpd.PathPool.{PathPool, path_reset, pathpool_return}

pub record Heap : Type 0 where
  pub realloc_ok : Bool
  pub junk : ℕ → ℕ

abbrev pub junk_bytes : Heap → ℕ → Bytes
junk_bytes heap zero = []
junk_bytes heap (suc n) = heap.junk n ∷ junk_bytes heap n

-- The bytes up to `data_offset` in a block that is at least as large.
pub text_of : Heap → ℕ → Option Bytes → Bytes
text_of heap n none = junk_bytes heap n
text_of heap n (some t) = t

abbrev needs_room : Mail → Bytes → Bool
needs_room m line =
    not (is_some m.data_text) || ltb m.data_allocated (m.data_offset + length line + 3)

-- the part behind the reallocation
pub append_line : Bytes → Mail → Bytes → Mail
append_line text m line =
    let crlf = if m.data_offset == 0 then [] else b'\r' ∷ b'\n' ∷ [] in
    record m {
      data_text = some (text ++ (crlf ++ line));
      data_offset = m.data_offset + length crlf + length line;
    }

unfoldable pub mail_line : Heap → Mail → Bytes → Mail × ℤ
unfolding text_of append_line
mail_line heap m line =
    if ltb 0 m.data_max && leb m.data_max m.data_offset
    then (m, negsuc 0)
    else if not (needs_room m line)
    then (append_line (text_of heap m.data_offset m.data_text) m line, pos 0)
    else if not heap.realloc_ok
    then (record m { data_text = none }, negsuc 0)
    else (
      append_line (text_of heap m.data_offset m.data_text)
          (record m { data_allocated = m.data_allocated + length line + 3 }) line,
      pos 0,
    )

abbrev smtp_header_line_max : ℕ
smtp_header_line_max = 80

-- The loop of mail_recvheader that folds the header: `mark` is the last space, `off` the start of
-- the line. It scans `rest`, which stands at position `i` of `header`.
unfoldable pub fold_header : Bytes → Bytes → ℕ → ℕ → ℕ → List Bytes
fold_header header [] i mark off = drop off header ∷ []
fold_header header (c ∷ rest) i mark off =
    let mark' = if c == 32 then i else mark in
    let full = leb smtp_header_line_max (i - off) && ltb off mark' in
    let later = fold_header header rest (i + 1) mark' (if full then mark' else off) in
    if full then take (mark' - off) (drop off header) ∷ later else later

-- `mail_line` for each line, its result ignored; each call has its own answer of realloc.
unfoldable pub mail_lines : (ℕ → Heap) → Mail → List Bytes → Mail
mail_lines heaps m [] = m
mail_lines heaps m (l ∷ ls) = mail_lines (λ n. heaps (suc n)) (mail_line (heaps 0) m l).0 ls

-- What mail_recvheader gets from outside: the time as text if common_tprintf succeeds, and whether
-- the header can be allocated.
pub record HeaderAnswers : Type 0 where
  pub time_text : Option Bytes
  pub header_alloc : Bool
  pub heaps : ℕ → Heap

abbrev pub recv_header : Bytes → Bytes → Option Bytes → Bytes → Bytes → Bytes
recv_header from announce forward protocol time =
    codes "Received: from "
    ++ (from
        ++ (codes " by "
            ++ (announce
                ++ (elim forward [ none ↦ [] | some p ↦ codes " for " ++ p ]
                    ++ (codes " with " ++ (protocol ++ (codes "; " ++ time)))))))

abbrev pub trace_header : HeaderAnswers → Mail → Bytes → Bool → Option Bytes → Bytes
trace_header a m announce suppress_submitter forward =
    let time : Bytes = elim a.time_text [ none ↦ codes "Time failed" | some t ↦ t ] in
    let from = if suppress_submitter then codes "remote" else m.submitter in
    recv_header from announce forward m.protocol time

-- The header's lines, if the header was allocated.
unfoldable pub store_header : Bool → (ℕ → Heap) → Mail → Bytes → Mail × ℤ
unfolding fold_header mail_lines
store_header true heaps m header = (mail_lines heaps m (fold_header header header 0 0 0), pos 0)
store_header false heaps m header = (m, negsuc 0)

-- `forward` is the one forward path, if there is just one.
unfoldable pub mail_recvheader : HeaderAnswers → Mail → Bytes → Bool → Option Bytes → Mail × ℤ
unfolding store_header
mail_recvheader a m announce suppress_submitter forward =
    store_header a.header_alloc a.heaps m (trace_header a m announce suppress_submitter forward)

-- `for(i = 0; …; i++) pathpool_return(mail->forward_paths[i])`
unfoldable pub return_all : PathPool → List ℕ → PathPool
return_all pool [] = pool
return_all pool (i ∷ is) = return_all (pathpool_return pool i) is

-- mail_reset: `data_max` has no initialiser in the source, and is 0.
unfoldable pub mail_reset : Mail → PathPool → Mail × PathPool
unfolding path_reset
mail_reset m pool = (
  record m {
    reverse_path = path_reset m.reverse_path;
    forward_paths = [];
    data_offset = 0;
    data_text = elim m.data_text [ none ↦ none | some t ↦ some [] ];
    message_id = [];
    data_max = 0;
    hop_count = 0;
    header_offset = 0;
  },
  return_all pool m.forward_paths,
)
