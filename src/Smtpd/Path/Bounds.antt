-- ===== src/Smtpd/Path/Bounds.antt =====
-- cmail-smtpd/path.c: the buffer of path_parse.
use cmail.Base.{
  ℕ, zero, suc, ◌≤◌, ◌<◌, true, [], ◌∷◌, some, ◌≡◌, refl, ap, ◌∙◌, ◌⊎◌, inl, inr, arith, ◌==◌,
  if◌then◌else◌, Bytes, Bool-cases, c_str, is_print, All, length, take, set, get_elem?, length-set,
  get_elem?-set_ne, get_elem?-set_self, skip_spaces,
}
use cmail.Smtpd.Types.{MailPath, smtp_max_path_length}
use cmail.Smtpd.Path.{
  continues_in, Mode, plain, routing, escaped, Scan, Parse, fault, rejected, parsed, ◌>>=◌, put,
  put_printable, on_at, step_plain, step_in, loop, finish, initial, path_parse,
}

abbrev pub IsPrintable : Bytes → Type 0
IsPrintable = All (λ c. is_print c ≡ true)

IsPrintable-take-set :
    (p : Bytes) (n c : ℕ)
    → n < length p
    → is_print c ≡ true
    → IsPrintable (take n p)
    → IsPrintable (take (suc n) (set p n c))
IsPrintable-take-set [] n c h e q = elim h [ ]
IsPrintable-take-set (x ∷ p) zero c h e q = (e, tt)
IsPrintable-take-set (x ∷ p) (suc n) c h e q = (q.0, IsPrintable-take-set p n c (omega arith) e q.1)

pub c_str-set :
    (p : Bytes) (n : ℕ) → n < length p → IsPrintable (take n p) → c_str (set p n 0) ≡ take n p
c_str-set [] n h q = elim h [ ]
c_str-set (x ∷ p) zero h q = refl
c_str-set (x ∷ p) (suc n) h q = ground (arith, c_str-set p n)

pub length-take_of_lt : (p : Bytes) (n : ℕ) → n < length p → length (take n p) ≡ n
length-take_of_lt [] n h = elim h [ ]
length-take_of_lt (x ∷ p) zero h = refl
length-take_of_lt (x ∷ p) (suc n) h = ap suc (length-take_of_lt p n (omega arith))

-- A delimiter that is set marks an `@` among the bytes written so far.
abbrev pub MarksAt : ℕ → ℕ → Bytes → Type 0
MarksAt d n p = (d ≡ 0) ⊎ ((d < n) × (get_elem? p d ≡ some b'@'))

MarksAt-set : (d n c : ℕ) (p : Bytes) → MarksAt d n p → MarksAt d (suc n) (set p n c)
MarksAt-set d n c p (inl z) = inl z
MarksAt-set d n c p (inr (lt, e)) =
    inr (omega arith, get_elem?-set_ne p n d c (λ q. omega arith) ∙ e)

abbrev Room : Mode → ℕ → Type 0
Room plain n = n ≤ 299
Room routing n = n ≡ 0
Room escaped n = n < 299

pub record Inv (s : Scan) : Type 0 where
  pub size : length s.target.path ≡ smtp_max_path_length
  pub fits : Room s.mode s.out_pos
  pub text : IsPrintable (take s.out_pos s.target.path)
  pub marks : MarksAt s.target.delimiter_position s.out_pos s.target.path

abbrev pub Ensures : (Scan → Type 0) → Parse Scan → Type 0
Ensures P fault = ⊥
Ensures P (rejected p) = length p.path ≡ smtp_max_path_length
Ensures P (parsed s) = P s

pub put_lem :
    (s : Scan) (c : ℕ)
    → s.out_pos < length s.target.path
    → put s c
      ≡ parsed (record s {
        target = record s.target { path = set s.target.path s.out_pos c };
        out_pos = suc s.out_pos;
      })
unfolding put
put_lem s c h = ground arith

put-Inv :
    (s : Scan) (c : ℕ)
    → length s.target.path ≡ smtp_max_path_length
    → s.mode ≡ plain
    → s.out_pos < 299
    → is_print c ≡ true
    → IsPrintable (take s.out_pos s.target.path)
    → MarksAt s.target.delimiter_position (suc s.out_pos) (set s.target.path s.out_pos c)
    → Ensures Inv (put s c)
put-Inv s c size m lt e text marks = rw (put_lem s c (omega arith)) (record {
  size = length-set s.target.path s.out_pos c ∙ size;
  fits = rw m (omega arith);
  text = IsPrintable-take-set s.target.path s.out_pos c (omega arith) e text;
  marks = marks;
})

put_printable-Inv :
    (s : Scan) (c : ℕ) → s.mode ≡ plain → s.out_pos < 299 → Inv s → Ensures Inv (put_printable s c)
unfolding put_printable
put_printable-Inv s c m lt v = elim (Bool-cases (is_print c)) [
  | inl e ↦ rw e (
      put-Inv s c v.size m lt e v.text
        (MarksAt-set s.target.delimiter_position s.out_pos c s.target.path v.marks))
  | inr e ↦ rw e v
]

on_at-Inv : (s : Scan) → s.mode ≡ plain → s.out_pos < 299 → Inv s → Ensures Inv (on_at s)
unfolding on_at
on_at-Inv s m lt v = ground (
  arith,
  put-Inv s b'@' v.size m lt refl v.text
      (MarksAt-set s.target.delimiter_position s.out_pos b'@' s.target.path v.marks),
  put-Inv (record s { target = record s.target { delimiter_position = s.out_pos } }) b'@' v.size m
      lt refl v.text
      (inr (omega arith, get_elem?-set_self s.target.path s.out_pos b'@' (omega arith))),
)

step_plain-Inv :
    (s : Scan) (c : ℕ) → s.mode ≡ plain → s.out_pos < 299 → Inv s → Ensures Inv (step_plain s c)
unfolding step_plain
step_plain-Inv s c m lt v = ground (arith, on_at-Inv s m lt v, put_printable-Inv s c m lt v)

step_in-Inv :
    (m : Mode) (s : Scan) (c : ℕ)
    → s.mode ≡ m
    → continues_in m s ≡ true
    → Inv s
    → Ensures Inv (step_in m s c)
unfolding step_in
step_in-Inv plain s c m k v = ground (arith, step_plain-Inv s c m (ground arith) v)
step_in-Inv routing s c m k v = ground arith
step_in-Inv escaped s c m k v =
    put_printable-Inv (record s { mode = plain }) c refl (rw m at v.fits)
      (record {
        size = v.size;
        fits = let h : s.out_pos < 299 = rw m at v.fits in omega arith;
        text = v.text;
        marks = v.marks;
      })

Ensures-bind :
    (P Q : Scan → Type 0) (m : Parse Scan) (f : Scan → Parse Scan)
    → Ensures P m
    → ((s : Scan) → P s → Ensures Q (f s))
    → Ensures Q (m >>= f)
Ensures-bind P Q fault f h k = h
Ensures-bind P Q (rejected p) f h k = h
Ensures-bind P Q (parsed s) f h k = k s h

loop-Inv : (cs : Bytes) (s : Scan) → Inv s → Ensures Inv (loop s cs)
unfolding loop
loop-Inv [] s v = v
loop-Inv (c ∷ cs) s v = elim (Bool-cases (continues_in s.mode s)) [
  | inl k ↦ rw k (
      Ensures-bind Inv Inv (step_in s.mode s c) (λ s'. loop s' cs) (step_in-Inv s.mode s c refl k v)
        (λ s' v'. loop-Inv cs s' v'))
  | inr k ↦ rw k v
]

-- The bytes of a finished path, and where its domain begins.
pub record IsPath (p : MailPath) : Type 0 where
  pub size : length p.path ≡ smtp_max_path_length
  pub short : length (c_str p.path) < smtp_max_path_length
  pub text : IsPrintable (c_str p.path)
  pub delimited :
      (p.delimiter_position ≡ length (c_str p.path))
      ⊎ ((p.delimiter_position < length (c_str p.path))
          × (get_elem? p.path p.delimiter_position ≡ some b'@'))

abbrev pub Outcome : Parse MailPath → Type 0
Outcome fault = ⊥
Outcome (rejected p) = length p.path ≡ smtp_max_path_length
Outcome (parsed p) = IsPath p

Room-lt : (m : Mode) (n : ℕ) → Room m n → n < 300
Room-lt plain n h = omega arith
Room-lt routing n h = omega arith
Room-lt escaped n h = omega arith

terminated-IsPath :
    (s : Scan)
    → Inv s
    → let q = set s.target.path s.out_pos 0 in
      IsPath (record s.target {
        delimiter_position =
            if s.target.delimiter_position == 0
            then length (c_str q)
            else s.target.delimiter_position;
        path = q;
      })
terminated-IsPath s v =
    let lt : s.out_pos < length s.target.path =
      omega (arith, v.size, Room-lt s.mode s.out_pos v.fits) in
    let e = c_str-set s.target.path s.out_pos lt v.text in
    let l = ap length e ∙ length-take_of_lt s.target.path s.out_pos lt in
    record {
      size = length-set s.target.path s.out_pos 0 ∙ v.size;
      short = omega (arith, l, v.size);
      text = rw e v.text;
      delimited = ground (
        arith,
        l,
        v.marks,
        get_elem?-set_ne s.target.path s.out_pos s.target.delimiter_position 0,
      );
    }

finish-Outcome : (s : Scan) → Inv s → Outcome (finish s)
unfolding finish
finish-Outcome s v = ground (
  arith,
  Room-lt s.mode s.out_pos v.fits,
  terminated-IsPath s v,
  length-set s.target.path s.out_pos 0,
)

Outcome-bind :
    (m : Parse Scan) (f : Scan → Parse MailPath)
    → Ensures Inv m
    → ((s : Scan) → Inv s → Outcome (f s))
    → Outcome (m >>= f)
Outcome-bind fault f h k = h
Outcome-bind (rejected p) f h k = h
Outcome-bind (parsed s) f h k = k s h

-- From a path structure whose delimiter is clear, path_parse never writes outside the buffer of
-- 300 bytes, whatever the client sends. A path that it accepts is terminated inside the buffer, is
-- printable, and its delimiter is the position of an `@` in it, or else its length.
pub path_parse-Outcome :
    (spec : Bytes) (p : MailPath)
    → length p.path ≡ smtp_max_path_length
    → p.delimiter_position ≡ 0
    → Outcome (path_parse spec p)
unfolding path_parse
path_parse-Outcome spec p size fresh =
    let start : Inv (initial p) = record {
      size = size;
      fits = omega arith;
      text = tt;
      marks = inl fresh;
    } in
    Outcome-bind (loop (initial p) (skip_spaces spec)) finish
      (loop-Inv (skip_spaces spec) (initial p) start) finish-Outcome
