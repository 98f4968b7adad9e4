-- ===== src/Popd/Maildrop/Read.antt =====
-- cmail-popd/maildrop.c: the loop of maildrop_read over the rows.
use cmail.Base.{
  ℕ, zero, suc, ◌+◌, Bool, true, false, List, [], ◌∷◌, ◌++◌, some, ◌≡◌, refl, sym, ap, ◌∙◌, arith,
  leb, length, take, set, replicate, get_elem?, length-append, pos, if◌then◌else◌,
}
use cmail.Popd.Types.{PopMail, MailRow, Maildrop, Listing}
use cmail.Popd.Maildrop.{read_rows, expand, store_row, fill_mail, empty_mail, at_or, maildrop_read}

if_true {ℓ} : {A : Type ℓ} (b : Bool) (x y : A) → b ≡ true → (if b then x else y) ≡ x
if_true b x y e = rw e refl

if_false {ℓ} : {A : Type ℓ} (b : Bool) (x y : A) → b ≡ false → (if b then x else y) ≡ y
if_false b x y e = rw e refl

module _ {ℓ} {A : Type ℓ} where
  append_nil : (xs : List A) → xs ++ [] ≡ xs
  append_nil [] = refl
  append_nil (x ∷ xs) = ap (◌∷◌ x) (append_nil xs)

  append_snoc : (xs : List A) (y : A) (ys : List A) → (xs ++ y ∷ []) ++ ys ≡ xs ++ y ∷ ys
  append_snoc [] y ys = refl
  append_snoc (x ∷ xs) y ys = ap (◌∷◌ x) (append_snoc xs y ys)

  take-length : (xs ys : List A) → take (length xs) (xs ++ ys) ≡ xs
  take-length [] ys = refl
  take-length (x ∷ xs) ys = ap (◌∷◌ x) (take-length xs ys)

  get_elem?-length : (xs ys : List A) (y : A) → get_elem? (xs ++ y ∷ ys) (length xs) ≡ some y
  get_elem?-length [] ys y = refl
  get_elem?-length (x ∷ xs) ys y = get_elem?-length xs ys y

  set-length : (xs ys : List A) (y v : A) → set (xs ++ y ∷ ys) (length xs) v ≡ xs ++ v ∷ ys
  set-length [] ys y v = refl
  set-length (x ∷ xs) ys y v = ap (◌∷◌ x) (set-length xs ys y v)

  length-snoc : (xs : List A) (y : A) → length (xs ++ y ∷ []) ≡ length xs + 1
  length-snoc xs y = omega (arith, length-append xs (y ∷ []))

pub mails_of : Bool → List MailRow → List PopMail
mails_of b [] = []
mails_of b (r ∷ rs) = fill_mail r (empty_mail b) ∷ mails_of b rs

-- how many elements of the array are left, behind the one for the next row
abbrev spare : ℕ → ℕ
spare zero = 9
spare (suc k) = k

expand_lem :
    (b : Bool) (used : List PopMail) (k : ℕ)
    → expand b (used ++ replicate k (empty_mail b)) (length used)
      ≡ used ++ empty_mail b ∷ replicate (spare k) (empty_mail b)
unfolding expand
expand_lem b used zero =
    ap (λ us. if leb (length us) (length used) then us ++ replicate 10 (empty_mail b) else us)
      (append_nil used)
    ∙ if_true (leb (length used) (length used)) _ _ (ground arith)
expand_lem b used (suc k) =
    if_false (leb (length (used ++ replicate (suc k) (empty_mail b))) (length used)) _ _
      (ground (arith, length-append used (replicate (suc k) (empty_mail b))))

store_row_lem :
    (b : Bool) (r : MailRow) (used rest : List PopMail)
    → store_row b r (used ++ empty_mail b ∷ rest) (length used)
      ≡ (used ++ fill_mail r (empty_mail b) ∷ []) ++ rest
unfolding store_row
store_row_lem b r used rest =
    ap (λ o. set (used ++ empty_mail b ∷ rest) (length used) (fill_mail r (at_or (empty_mail b) o)))
      (get_elem?-length used rest (empty_mail b))
    ∙ set-length used rest (empty_mail b) (fill_mail r (empty_mail b))
    ∙ sym (append_snoc used (fill_mail r (empty_mail b)) rest)

read_rows_lem :
    (b : Bool) (rs : List MailRow) (used : List PopMail) (k : ℕ)
    → read_rows b rs (used ++ replicate k (empty_mail b)) (length used) ≡ used ++ mails_of b rs
unfolding read_rows mails_of
read_rows_lem b [] used k = take-length used _ ∙ sym (append_nil used)
read_rows_lem b (r ∷ rs) used k =
    let v = fill_mail r (empty_mail b) in
    ap (λ ms. read_rows b rs (store_row b r ms (length used)) (length used + 1))
      (expand_lem b used k)
    ∙ ap (λ ms. read_rows b rs ms (length used + 1))
        (store_row_lem b r used (replicate (spare k) (empty_mail b)))
    ∙ ap (read_rows b rs ((used ++ v ∷ []) ++ replicate (spare k) (empty_mail b)))
        (sym (length-snoc used v))
    ∙ read_rows_lem b rs (used ++ v ∷ []) (spare k)
    ∙ append_snoc used v (mails_of b rs)

-- maildrop_read, for any number of rows, leaves the mails that the maildrop had, and behind them one
-- mail for each row in the order of the rows, neither flagged nor with anything of an older mail: the
-- growth by chunks of ten leaves no gap and loses no row.
pub maildrop_read_appends :
    (l : Listing) (drop : Maildrop) (b : Bool)
    → l.bound ≡ true
    → maildrop_read l drop b ≡ (record drop { mails = drop.mails ++ mails_of b l.rows }, pos 101)
unfolding maildrop_read
maildrop_read_appends l drop b h =
    if_true l.bound _ _ h
    ∙ ap (λ ms. (record drop { mails = ms }, pos 101))
        (ap (λ ms. read_rows b l.rows ms (length drop.mails)) (sym (append_nil drop.mails))
          ∙ read_rows_lem b l.rows drop.mails 0)
