-- ===== src/Smtpd/Path.antt =====
-- cmail-smtpd/path.c, path_parse: the address parser, over the bytes of `pathspec`.
-- The nested loops of the source become a mode: `routing` is the inner loop that skips a source
-- route, `escaped` the byte behind a backslash. The bound on `out_pos` is tested in `plain` mode
-- only, where the outer loop tests it. A write outside the buffer is `fault`.
pub mod Bounds
pub mod Address
pub mod Frame
use cmail.Base.{
  ℕ, suc, ◌-◌, Bool, true, false, not, ◌&&◌, ◌||◌, Option, none, some, [], ◌∷◌, ◌==◌, ltb,
  if◌then◌else◌, Bytes, get_elem?, set, length, c_str, is_print, skip_spaces,
}
use cmail.Smtpd.Types.{MailPath, smtp_max_path_length}

pub data Mode : Type 0 where
  plain routing escaped : Mode

pub record Scan : Type 0 where
  pub mode : Mode
  pub quotes : Bool
  pub comment : Bool
  pub done_parsing : Bool
  pub out_pos : ℕ
  pub target : MailPath

-- `rejected` is the return value -1, with the structure as it was left.
pub data Parse {ℓ} (A : Type ℓ) : Type ℓ where
  fault : Parse A
  rejected : MailPath → Parse A
  parsed : A → Parse A

infixl 5 ◌>>=◌
abbrev pub ◌>>=◌ {ℓ κ} : {A : Type ℓ} {B : Type κ} → Parse A → (A → Parse B) → Parse B
fault >>= f = fault
rejected p >>= f = rejected p
parsed a >>= f = f a

-- `path->path[i] = c`
abbrev write : MailPath → ℕ → ℕ → Parse MailPath
write p i c = if ltb i (length p.path) then parsed (record p { path = set p.path i c }) else fault

-- `path->path[out_pos++] = c`
pub put : Scan → ℕ → Parse Scan
put s c = do
  p ← write s.target s.out_pos c
  parsed (record s { target = p; out_pos = suc s.out_pos })

pub put_printable : Scan → ℕ → Parse Scan
put_printable s c = if is_print c then put s c else parsed s

abbrev starts_with_at : MailPath → Bool
starts_with_at p = elim (get_elem? p.path 0) [ none ↦ false | some c ↦ c == b'@' ]

-- `case '@'`
pub on_at : Scan → Parse Scan
on_at s =
    if s.out_pos == 0
    then parsed (record s { mode = routing })
    else if s.quotes
    then put s b'@'
    else if s.target.delimiter_position == 0 && not (starts_with_at s.target)
    then put (record s { target = record s.target { delimiter_position = s.out_pos } }) b'@'
    else rejected s.target

-- one round of the outer loop outside a comment
pub step_plain : Scan → ℕ → Parse Scan
step_plain s c =
    if c == b'@'
    then on_at s
    else if c == b'"'
    then parsed (record s { quotes = not s.quotes })
    else if c == b'\\'
    then parsed (record s { mode = escaped })
    else if c == b'('
    then parsed (record s { comment = true })
    else if c == b')'
    then rejected s.target
    else if c == b'<' && not s.quotes
    then parsed s
    else if c == b'>' && not s.quotes
    then parsed (record s { done_parsing = true })
    else put_printable s c

step_comment : Scan → ℕ → Parse Scan
step_comment s c = parsed (if c == b')' then record s { comment = false } else s)

pub step_in : Mode → Scan → ℕ → Parse Scan
unfolding step_comment
step_in plain s c = if s.comment then step_comment s c else step_plain s c
step_in routing s c = parsed (if c == b':' then record s { mode = plain } else s)
step_in escaped s c = put_printable (record s { mode = plain }) c

-- the condition of the outer loop, without the end of the input
abbrev pub continues_in : Mode → Scan → Bool
continues_in plain s = not s.done_parsing && ltb s.out_pos (smtp_max_path_length - 1)
continues_in routing s = true
continues_in escaped s = true

pub loop : Scan → Bytes → Parse Scan
loop s [] = parsed s
loop s (c ∷ cs) =
    if continues_in s.mode s then (do s' ← step_in s.mode s c; loop s' cs) else parsed s

-- what follows the loop
pub finish : Scan → Parse MailPath
finish s = do
  p ← write s.target s.out_pos 0
  if s.comment
      then rejected p
      else parsed (record p {
        delimiter_position =
            if p.delimiter_position == 0 then length (c_str p.path) else p.delimiter_position;
      })

abbrev pub initial : MailPath → Scan
initial p = record {
  mode = plain;
  quotes = false;
  comment = false;
  done_parsing = false;
  out_pos = 0;
  target = p;
}

unfoldable pub path_parse : Bytes → MailPath → Parse MailPath
unfolding loop step_in step_plain on_at put_printable put finish step_comment
path_parse pathspec p = do s ← loop (initial p) (skip_spaces pathspec); finish s
