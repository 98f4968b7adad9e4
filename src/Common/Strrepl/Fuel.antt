-- ===== src/Common/Strrepl/Fuel.antt =====
-- lib/common.c, common_strrepl: the rounds of its loop.
use cmail.Base.{
  ℕ, zero, suc, ◌<◌, ◌++◌, Option, none, some, ◌≡◌, refl, ap, arith, if◌then◌else◌, length, ℤ,
  negsuc, Bytes,
}
use cmail.Common.Strrepl.{find_variable, is_too_long, on_variable, strrepl_loop}
use cmail.Common.Strrepl.Fits.{IsSplit, find_variable-IsSplit}

module _ (size : ℕ) (variable replacement : Bytes) (nonempty : 0 < length variable) where
  on_variable-fuel :
      (next next' : Bytes → Bytes → Bytes × ℤ) (done text : Bytes) (o : Option (Bytes × Bytes))
      → IsSplit variable text o
      → ((d t : Bytes) → length t < length text → next d t ≡ next' d t)
      → on_variable next size variable replacement done text o
        ≡ on_variable next' size variable replacement done text o
  unfolding IsSplit
  on_variable-fuel next next' done text none s h = refl
  on_variable-fuel next next' done text (some (front, rest)) s h =
      ap
        (λ r.
          if is_too_long size variable replacement (done ++ front) rest
          then (done ++ text, negsuc 0)
          else r)
        (h ((done ++ front) ++ replacement) rest (omega (arith, s, nonempty)))

  -- With a variable that is not empty, any two amounts of fuel above the length of the rest give
  -- the same result: the loop ends before its fuel does.
  pub strrepl_loop-fuel :
      (f f' : ℕ) (done text : Bytes)
      → length text < f
      → length text < f'
      → strrepl_loop f size variable replacement done text
        ≡ strrepl_loop f' size variable replacement done text
  unfolding strrepl_loop
  strrepl_loop-fuel zero f' done text lt lt' = absurd (omega (arith, lt))
  strrepl_loop-fuel (suc f) zero done text lt lt' = absurd (omega (arith, lt'))
  strrepl_loop-fuel (suc f) (suc f') done text lt lt' =
      on_variable-fuel (strrepl_loop f size variable replacement)
        (strrepl_loop f' size variable replacement) done text (find_variable variable text)
        (find_variable-IsSplit variable text)
        (λ d t less.
          strrepl_loop-fuel f f' d t (omega (arith, lt, less)) (omega (arith, lt', less)))
