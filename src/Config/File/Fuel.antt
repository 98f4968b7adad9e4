-- ===== src/Config/File/Fuel.antt =====
-- lib/config.c: the loop over a file ends; one round for each byte of it is enough.
use cmail.Base.{
  ℕ, zero, suc, ◌-◌, ◌<◌, ◌≤◌, Bool, [], ◌∷◌, ◌≡◌, refl, arith, if_both, ◌==◌, Bytes, c_str, length,
  ℤ,
}
use cmail.Config.File.{max_cfgline, in_line, prepared, fgets, parse_loop}
use cmail.Config.File.Lines.{on_line-next}

fgets_rest : (n : ℕ) (file : Bytes) → length (fgets n file).1 ≤ length file
unfolding fgets
fgets_rest zero file = omega arith
fgets_rest (suc n) [] = omega arith
fgets_rest (suc n) (c ∷ cs) =
    if_both (λ (r : Bytes × Bytes). length r.1 ≤ suc (length cs)) (c == 10) (c ∷ [], cs)
      (in_line c (fgets n cs)) (omega arith) (omega (arith, fgets_rest n cs))

fgets_shorter : (n c : ℕ) (cs : Bytes) → length (fgets (suc n) (c ∷ cs)).1 < suc (length cs)
unfolding fgets
fgets_shorter n c cs =
    if_both (λ (r : Bytes × Bytes). length r.1 < suc (length cs)) (c == 10) (c ∷ [], cs)
      (in_line c (fgets n cs)) (omega arith) (omega (arith, fgets_rest n cs))

one_less : (a b f : ℕ) → a < suc b → suc b < suc f → a < f
one_less a b f h k = omega arith

-- With more fuel than bytes, the fuel does not matter.
pub parse_loop_ends {ℓ} :
    {C : Type ℓ} (config_line : C → Bytes → C × ℤ) (errno : Bool) (f g : ℕ) (file : Bytes) (c : C)
    → length file < f
    → length file < g
    → parse_loop f config_line errno file c ≡ parse_loop g config_line errno file c
unfolding parse_loop
parse_loop_ends config_line errno zero g file c h k = absurd (omega arith)
parse_loop_ends config_line errno (suc f) zero file c h k = absurd (omega arith)
parse_loop_ends config_line errno (suc f) (suc g) [] c h k = refl
parse_loop_ends config_line errno (suc f) (suc g) (x ∷ xs) c h k =
    let (chunk, rest) = fgets (max_cfgline - 1) (x ∷ xs) in
    on_line-next config_line errno (parse_loop f config_line errno rest)
      (parse_loop g config_line errno rest) c (prepared (c_str chunk))
      (λ d.
        parse_loop_ends config_line errno f g rest d
          (one_less (length rest) (length xs) f (fgets_shorter 2046 x xs) h)
          (one_less (length rest) (length xs) g (fgets_shorter 2046 x xs) k))
