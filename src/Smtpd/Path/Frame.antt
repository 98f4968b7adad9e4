-- ===== src/Smtpd/Path/Frame.antt =====
-- cmail-smtpd/path.c: the fields of a path beside its buffer and delimiter.
use cmail.Base.{ℕ, [], ◌∷◌, ◌≡◌, inl, inr, refl, arith, Bytes, Bool-cases, skip_spaces}
use cmail.Smtpd.Types.{MailPath}
use cmail.Smtpd.Path.{
  Mode, plain, routing, escaped, Scan, Parse, fault, rejected, parsed, ◌>>=◌, step_in, continues_in,
  step_plain, on_at, put, put_printable, loop, finish, initial, path_parse,
}

-- The fields that path_parse does not touch.
abbrev Same : MailPath → MailPath → Type 0
Same p q = (q.in_transaction ≡ p.in_transaction) × (q.route ≡ p.route)

abbrev ScanKeeps : MailPath → Parse Scan → Type 0
ScanKeeps p fault = Unit
ScanKeeps p (rejected q) = Same p q
ScanKeeps p (parsed s) = Same p s.target

abbrev pub Keeps : MailPath → Parse MailPath → Type 0
Keeps p fault = Unit
Keeps p (rejected q) = Same p q
Keeps p (parsed q) = Same p q

step_in-Keeps :
    (m : Mode) (p : MailPath) (s : Scan) (c : ℕ) → Same p s.target → ScanKeeps p (step_in m s c)
unfolding step_in step_plain on_at put put_printable
step_in-Keeps plain p s c k = ground arith
step_in-Keeps routing p s c k = ground arith
step_in-Keeps escaped p s c k = ground arith

ScanKeeps-bind :
    (p : MailPath) (m : Parse Scan) (f : Scan → Parse Scan)
    → ScanKeeps p m
    → ((s : Scan) → Same p s.target → ScanKeeps p (f s))
    → ScanKeeps p (m >>= f)
ScanKeeps-bind p fault f h k = h
ScanKeeps-bind p (rejected q) f h k = h
ScanKeeps-bind p (parsed s) f h k = k s h

loop-Keeps : (cs : Bytes) (p : MailPath) (s : Scan) → Same p s.target → ScanKeeps p (loop s cs)
unfolding loop
loop-Keeps [] p s k = k
loop-Keeps (c ∷ cs) p s k = elim (Bool-cases (continues_in s.mode s)) [
  | inl e ↦ rw e (
      ScanKeeps-bind p (step_in s.mode s c) (λ s'. loop s' cs) (step_in-Keeps s.mode p s c k)
        (λ s' k'. loop-Keeps cs p s' k'))
  | inr e ↦ rw e k
]

finish-Keeps : (p : MailPath) (s : Scan) → Same p s.target → Keeps p (finish s)
unfolding finish
finish-Keeps p s k = ground arith

Keeps-bind :
    (p : MailPath) (m : Parse Scan) (f : Scan → Parse MailPath)
    → ScanKeeps p m
    → ((s : Scan) → Same p s.target → Keeps p (f s))
    → Keeps p (m >>= f)
Keeps-bind p fault f h k = h
Keeps-bind p (rejected q) f h k = h
Keeps-bind p (parsed s) f h k = k s h

-- path_parse, whether it accepts or rejects, leaves the route and the transaction flag of its path as
-- they were.
pub path_parse-Keeps : (spec : Bytes) (p : MailPath) → Keeps p (path_parse spec p)
unfolding path_parse
path_parse-Keeps spec p =
    Keeps-bind p (loop (initial p) (skip_spaces spec)) finish
      (loop-Keeps (skip_spaces spec) p (initial p) (refl, refl)) (finish-Keeps p)
