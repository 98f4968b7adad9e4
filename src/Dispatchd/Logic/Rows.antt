-- ===== src/Dispatchd/Logic/Rows.antt =====
-- cmail-dispatchd/mail.c, mail_dbread, and logic.c, logic_handle_remote: the rows of the transaction
-- query, whose id lists are numbers with commas between them.
use mathlib.Core.List.{map, append_assoc, append-nil}
use cmail.Base.{
  ℕ, suc, ◌+◌, ◌*◌, ◌-◌, ◌<◌, ◌≤◌, ◌%◌, true, false, List, [], ◌∷◌, ◌++◌, Option, none, ◌≡◌, refl,
  ap, ap₂, ◌∙◌, sym, length-append, arith, if_cases, if◌then◌else◌, length, All, Bytes, is_digit,
  digits, strtoul, saturated, drop, ltb, leb,
}
use cmail.Dispatchd.Protocol.Replies.{strtoul_digit}
use cmail.Dispatchd.Transaction.{OutboundMail}
use cmail.Dispatchd.Transaction.Outcome.{ids}
use cmail.Dispatchd.Logic.{
  TransactionRow, entries, after_digits, read_ids, mail_dbread, clear_slots, read_transactions,
}

-- the number that digits spell
abbrev pub decimal : ℕ → Bytes → ℕ
decimal n [] = n
decimal n (c ∷ cs) = decimal (n * 10 + (c - 48)) cs

abbrev AllDigits : Bytes → Type 0
AllDigits = All (λ c. is_digit c ≡ true)

-- The id of a mail as the database prints it, of at most 32 bits.
abbrev pub IsId : Bytes → Type 0
IsId t = AllDigits t × (0 < length t) × (decimal 0 t < 4294967296)

abbrev pub with_commas : Bytes → List Bytes → Bytes
with_commas t [] = t
with_commas t (u ∷ us) = t ++ 44 ∷ with_commas u us

-- A row by the ids of its mails: there is at least one.
pub record Group : Type 0 where
  pub first : Bytes
  pub others : List Bytes
  pub envelopefrom : Option Bytes
  pub text : Bytes

abbrev pub row_of : Group → TransactionRow
row_of g = record {
  mail_idlist = with_commas g.first g.others;
  mail_envelopefrom = g.envelopefrom;
  mail_data = g.text;
}

-- the mails of a group
abbrev pub numbers : Group → List ℕ
numbers g = map (decimal 0) (g.first ∷ g.others)

abbrev pub IsGroup : Group → Type 0
IsGroup g = All IsId (g.first ∷ g.others)

-- What stands behind an id: nothing, or a comma.
abbrev IsStop : Bytes → Type 0
IsStop [] = Unit
IsStop (c ∷ cs) = is_digit c ≡ false

digits-decimal :
    (t rest : Bytes) (n : ℕ) → AllDigits t → IsStop rest → digits (t ++ rest) n ≡ decimal n t
unfolding digits
digits-decimal [] [] n h s = refl
digits-decimal [] (c ∷ cs) n h s = rw s refl
digits-decimal (c ∷ cs) rest n (h, hs) s = rw h (digits-decimal cs rest (n * 10 + (c - 48)) hs s)

after_digits-append : (t rest : Bytes) → AllDigits t → IsStop rest → after_digits (t ++ rest) ≡ rest
unfolding after_digits
after_digits-append [] [] h s = refl
after_digits-append [] (c ∷ cs) h s = rw s refl
after_digits-append (c ∷ cs) rest (h, hs) s = rw h (after_digits-append cs rest hs s)

saturated_id : (n : ℕ) → n < 4294967296 → saturated n % 4294967296 ≡ n
saturated_id n lt = ground arith

strtoul-id :
    (t rest : Bytes) → IsId t → IsStop rest → strtoul (t ++ rest) % 4294967296 ≡ decimal 0 t
strtoul-id [] rest (_, some_, _) s = absurd (omega arith)
strtoul-id (c ∷ cs) rest ((h, hs), _, lt) s =
    ap (λ n. n % 4294967296)
      (strtoul_digit c (cs ++ rest) (ground arith) (ground arith)
        ∙ ap (λ n. saturated n) (digits-decimal (c ∷ cs) rest 0 (h, hs) s))
    ∙ saturated_id (decimal 0 (c ∷ cs)) lt

entries-digits : (t rest : Bytes) → AllDigits t → entries (t ++ rest) ≡ entries rest
unfolding entries
entries-digits [] rest h = refl
entries-digits (c ∷ cs) rest (h, hs) = ground (arith, entries-digits cs rest hs)

entries-with_commas :
    (t : Bytes) (us : List Bytes) → All IsId (t ∷ us) → entries (with_commas t us) ≡ suc (length us)
unfolding entries
entries-with_commas t [] (h, _) = ap entries (sym (append-nil t)) ∙ entries-digits t [] h.0
entries-with_commas t (u ∷ us) (h, hs) =
    entries-digits t (44 ∷ with_commas u us) h.0 ∙ ap suc (entries-with_commas u us hs)

-- the first id that is read, and what is left to read
read_ids-id :
    (n : ℕ) (t rest : Bytes)
    → IsId t
    → IsStop rest
    → ids (read_ids (suc n) (t ++ rest)) ≡ decimal 0 t ∷ ids (read_ids n (drop 1 rest))
unfolding read_ids ids
read_ids-id n t rest h s =
    ap₂ (λ x more. x ∷ ids (read_ids n (drop 1 more))) (strtoul-id t rest h s)
      (after_digits-append t rest h.0 s)

read_ids-with_commas :
    (t : Bytes) (us : List Bytes)
    → All IsId (t ∷ us)
    → ids (read_ids (suc (length us)) (with_commas t us)) ≡ map (decimal 0) (t ∷ us)
unfolding read_ids ids
read_ids-with_commas t [] (h, _) =
    ap (λ s. ids (read_ids 1 s)) (sym (append-nil t)) ∙ read_ids-id 0 t [] h tt
read_ids-with_commas t (u ∷ us) (h, hs) =
    read_ids-id (suc (length us)) t (44 ∷ with_commas u us) h refl
    ∙ ap (λ xs. decimal 0 t ∷ xs) (read_ids-with_commas u us hs)

-- mail_dbread reads the mails of a group.
pub mail_dbread-numbers :
    (stale : Option Bytes) (g : Group)
    → IsGroup g
    → ids (mail_dbread stale (row_of g)).rcpt ≡ numbers g
unfolding mail_dbread
mail_dbread-numbers stale g h =
    ap (λ n. ids (read_ids n (with_commas g.first g.others)))
      (entries-with_commas g.first g.others h)
    ∙ read_ids-with_commas g.first g.others h

-- In the first chunk the array keeps the rows that were read.
read_more :
    (junk : ℕ → Option Bytes) (ms : List OutboundMail) (rs : List TransactionRow)
    → length ms + length rs ≤ 10
    → read_transactions junk 10 ms rs ≡ ms ++ map (mail_dbread none) rs
unfolding read_transactions
read_more junk ms [] le = sym (append-nil ms)
read_more junk ms (r ∷ rs) le =
    let rest : List OutboundMail = map (mail_dbread none) rs in
    let read : List OutboundMail → ℕ → Option Bytes → List OutboundMail =
      λ ms' n stale. read_transactions junk n (ms' ++ mail_dbread stale r ∷ []) rs in
    let next : read ms 10 none ≡ ms ++ mail_dbread none r ∷ rest =
      read_more junk (ms ++ mail_dbread none r ∷ []) rs
        (omega (arith, le, length-append ms (mail_dbread none r ∷ [])))
      ∙ append_assoc ms (mail_dbread none r ∷ []) rest in
    if_cases
      (λ (x : List OutboundMail × ℕ).
        read x.0 x.1 (if ltb (length x.0) 10 then none else junk (length x.0))
        ≡ ms ++ mail_dbread none r ∷ rest)
      (leb 10 (length ms)) _ (ms, 10) (λ full. absurd (ground arith))
      (λ _.
        if_cases (λ stale. read ms 10 stale ≡ ms ++ mail_dbread none r ∷ rest) (ltb (length ms) 10)
          none (junk (length ms)) (λ _. next) (λ full. absurd (ground arith)))

pub read_transactions-few :
    (junk : ℕ → Option Bytes) (rs : List TransactionRow)
    → length rs ≤ 10
    → read_transactions junk 0 [] rs ≡ map (mail_dbread none) rs
unfolding read_transactions clear_slots
read_transactions-few junk [] le = refl
read_transactions-few junk (r ∷ rs) le =
    read_more junk (mail_dbread none r ∷ []) rs (omega (arith, le))
