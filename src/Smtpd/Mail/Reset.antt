-- ===== src/Smtpd/Mail/Reset.antt =====
-- cmail-smtpd/mail.c: mail_reset and the pool.
use cmail.Base.{
  ℕ, true, List, [], ◌∷◌, Option, none, some, ◌≡◌, ◌≢◌, inl, inr, refl, sym, ◌∙◌, arith, Bytes,
  get_elem?, pos, Bool-cases, ◌==◌, ==_iff, All,
}
use cmail.Smtpd.Types.{Mail}
use cmail.Smtpd.PathPool.{PathPool, pathpool_return}
use cmail.Smtpd.PathPool.Slots.{busy, busy_cong, pathpool_return_frees}
use cmail.Smtpd.Mail.{Heap, mail_line, mail_reset, return_all}
use cmail.Smtpd.Mail.Lines.{HasRoom, IsBlock}

-- `i` is none of the slots.
abbrev pub IsOutside : ℕ → List ℕ → Type 0
IsOutside i is = All (λ j. i ≢ j) is

pub return_all_others :
    (is : List ℕ) (pool : PathPool) (i : ℕ)
    → IsOutside i is
    → get_elem? (return_all pool is).paths i ≡ get_elem? pool.paths i
unfolding return_all
return_all_others [] pool i h = refl
return_all_others (j ∷ is) pool i h =
    return_all_others is (pathpool_return pool j) i h.1 ∙ (pathpool_return_frees pool j).1 i h.0

-- A slot that is free stays free when others are returned.
busy-return_all :
    (is : List ℕ) (pool : PathPool) (i : ℕ)
    → busy pool.paths i ≢ some true
    → busy (return_all pool is).paths i ≢ some true
unfolding return_all
busy-return_all [] pool i h = h
busy-return_all (j ∷ is) pool i h =
    busy-return_all is (pathpool_return pool j) i (elim (Bool-cases (i == j)) [
      | inl e ↦ rw ((==_iff i j).0 e) (pathpool_return_frees pool j).0
      | inr e ↦
          let ne : i ≢ j = λ q. absurd (ground arith) in
          let same =
            busy_cong (pathpool_return pool j).paths pool.paths i
              ((pathpool_return_frees pool j).1 i ne) in
          λ b. h (sym same ∙ b)
    ])

pub return_all_frees :
    (is : List ℕ) (pool : PathPool) → All (λ i. busy (return_all pool is).paths i ≢ some true) is
unfolding return_all
return_all_frees [] pool = tt
return_all_frees (j ∷ is) pool = (
  busy-return_all is (pathpool_return pool j) j (pathpool_return_frees pool j).0,
  return_all_frees is (pathpool_return pool j),
)

-- mail_reset forgets the recipients: their slots are free in the pool, all other slots are as they
-- were, and the data block is empty and still large enough.
pub mail_reset_returns :
    (m : Mail) (pool : PathPool)
    → HasRoom m
    → ((mail_reset m pool).0.forward_paths ≡ [])
      × All (λ i. busy (mail_reset m pool).1.paths i ≢ some true) m.forward_paths
      × ((i : ℕ)
          → IsOutside i m.forward_paths
          → get_elem? (mail_reset m pool).1.paths i ≡ get_elem? pool.paths i)
      × HasRoom (mail_reset m pool).0
unfolding mail_reset
mail_reset_returns m pool h = (
  refl,
  return_all_frees m.forward_paths pool,
  λ i out. return_all_others m.forward_paths pool i out,
  record { allocated = omega arith; block = reset_block m.data_text h.block },
)
  where
    reset_block :
        (o : Option Bytes)
        → IsBlock o m.data_offset m.data_allocated
        → IsBlock (elim o [ none ↦ none | some t ↦ some [] ]) 0 m.data_allocated
    reset_block none b = tt
    reset_block (some t) b = (refl, omega (arith, b.1))

-- mail_reset also forgets the size limit: in a mail with the limit that it leaves, no line is ever
-- refused while memory lasts, however long the mail has become.
pub mail_reset_unlimits :
    (m m' : Mail) (pool : PathPool) (heap : Heap) (line : Bytes)
    → m'.data_max ≡ (mail_reset m pool).0.data_max
    → heap.realloc_ok ≡ true
    → (mail_line heap m' line).1 ≡ pos 0
unfolding mail_reset mail_line
mail_reset_unlimits m m' pool heap line e ok = ground arith
