-- ===== src/Config/File/Keeps.antt =====
-- lib/config.c: what every line of a file keeps, the file keeps, on success and on failure.
use cmail.Base.{
  ℕ, zero, suc, ◌-◌, Bool, [], ◌∷◌, Option, none, some, Bytes, c_str, length, ℤ, pos, negsuc,
}
use cmail.Config.File.{max_cfgline, prepared, fgets, after, on_line, parse_loop, config_parse}

module _ {ℓ} {C : Type ℓ} (P : C → Type ℓ) (config_line : C → Bytes → C × ℤ) (errno : Bool)
    (line_keeps : (c : C) (l : Bytes) → P c → P (config_line c l).0) where
  after-keeps :
      (next : C → C × ℤ) (r : C × ℤ) → P r.0 → ((c : C) → P c → P (next c).0) → P (after next r).0
  after-keeps next (c, pos n) h k = k c h
  after-keeps next (c, negsuc n) h k = h

  on_line-keeps :
      (next : C → C × ℤ) (c : C) (l : Bytes)
      → P c
      → ((d : C) → P d → P (next d).0)
      → P (on_line config_line next c l).0
  on_line-keeps next c [] h k = k c h
  on_line-keeps next c (x ∷ xs) h k =
      after-keeps next (config_line c (x ∷ xs)) (line_keeps c (x ∷ xs) h) k

  parse_loop-keeps :
      (fuel : ℕ) (file : Bytes) (c : C) → P c → P (parse_loop fuel config_line errno file c).0
  unfolding parse_loop
  parse_loop-keeps zero file c h = h
  parse_loop-keeps (suc fuel) [] c h = h
  parse_loop-keeps (suc fuel) (x ∷ xs) c h =
      let chunk = fgets (max_cfgline - 1) (x ∷ xs) in
      on_line-keeps (parse_loop fuel config_line errno chunk.1) c (prepared (c_str chunk.0)) h
        (parse_loop-keeps fuel chunk.1)

  pub config_parse-keeps :
      (file : Option Bytes) (c : C) → P c → P (config_parse config_line errno file c).0
  unfolding config_parse
  config_parse-keeps none c h = h
  config_parse-keeps (some file) c h = parse_loop-keeps (suc (length file)) file c h
