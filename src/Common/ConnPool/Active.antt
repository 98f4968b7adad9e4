-- ===== src/Common/ConnPool/Active.antt =====
-- lib/connpool.c: the pool as the bag of the descriptors that are open.
use cmail.Base.{
  ℕ, ◌+◌, ◌-◌, Bool, true, false, List, [], ◌∷◌, ◌++◌, Option, none, some, ◌≡◌, refl, sym, ap, ◌∙◌,
  arith, ◌==◌, set, ℤ, if_cases, Bool-cases, ◌⊎◌, inl, inr,
}
use cmail.Common.ConnPool.{
  Connection, ConnPool, Slot, held, free, missing, find_slot, on_fd, new_connection, on_slot,
  add_to, connpool_add, remove_from, connpool_remove, next_slot, is_fd, remove_in, on_match,
}

abbrev pub one_if : Bool → ℕ
one_if true = 1
one_if false = 0

-- whether this is the descriptor of a connection
abbrev pub copies_at : ℕ → Option ℕ → ℕ
copies_at g none = 0
copies_at g (some fd) = one_if (fd == g)

-- the calls of a daemon, and what they do to a bag
pub data Call : Type 0 where
  opens closes : ℕ → Call

abbrev pub opened : (ℕ → ℕ) → ℕ → ℕ → ℕ
opened bag fd g = one_if (fd == g) + bag g

abbrev pub closed : (ℕ → ℕ) → ℕ → ℕ → ℕ
closed bag fd g = bag g - one_if (fd == g)

pub run_bag : (ℕ → ℕ) → List Call → ℕ → ℕ
run_bag bag [] g = bag g
run_bag bag (opens fd ∷ cs) g = run_bag (opened bag fd) cs g
run_bag bag (closes fd ∷ cs) g = run_bag (closed bag fd) cs g

-- Each descriptor that is added is not open before.
unfoldable pub AreFresh : (ℕ → ℕ) → List Call → Type 0
AreFresh bag [] = Unit
AreFresh bag (opens fd ∷ cs) = (bag fd ≡ 0) × AreFresh (opened bag fd) cs
AreFresh bag (closes fd ∷ cs) = AreFresh (closed bag fd) cs

closed_lem : (fd g : ℕ) (o : Option ℕ) → is_fd fd o ≡ true → copies_at g o ≡ one_if (fd == g)
closed_lem fd g none e = absurd cc
closed_lem fd g (some f) e = ground arith

other_lem :
    (fd g : ℕ) (o : Option ℕ) → is_fd fd o ≡ false → (one_if (fd == g) ≡ 0) ⊎ (copies_at g o ≡ 0)
other_lem fd g none e = inr refl
other_lem fd g (some f) e = elim (Bool-cases (fd == g)) [
  | inl same ↦ inr (ground arith)
  | inr different ↦ inl (ap one_if different)
]

module _ {ℓ} {A : Type ℓ} where
  -- the abstract view: how often a descriptor is open
  unfoldable pub copies : ℕ → List (Connection A) → ℕ
  copies g [] = 0
  copies g (c ∷ cs) = copies_at g c.fd + copies g cs

  abbrev copies_of : ℕ → Option (List (Connection A)) → ℕ
  copies_of g none = 0
  copies_of g (some cs) = copies g cs

  abbrev pub pool_copies : ℕ → ConnPool A → ℕ
  pool_copies g pool = copies_of g pool.conns

  -- the connections after the descriptor was put into the slot that was found
  abbrev placed : ℕ → List (Connection A) → Slot A → List (Connection A)
  placed fd cs (held i) = cs
  placed fd cs (free i x) = set cs i (new_connection fd x)
  placed fd cs missing = cs ++ new_connection fd none ∷ []

  abbrev IsPlaced : ℕ → ℕ → List (Connection A) → Slot A → Type 0
  IsPlaced fd g cs s = copies g (placed fd cs s) ≡ one_if (fd == g) + copies g cs

  next_slot-IsPlaced :
      (fd g : ℕ) (c : Connection A) (cs : List (Connection A)) (s : Slot A)
      → IsPlaced fd g cs s
      → IsPlaced fd g (c ∷ cs) (next_slot s)
  unfolding copies
  next_slot-IsPlaced fd g c cs (held i) h = omega (arith, h)
  next_slot-IsPlaced fd g c cs (free i x) h = omega (arith, h)
  next_slot-IsPlaced fd g c cs missing h = omega (arith, h)

  -- the first connection of the table
  on_fd-IsPlaced :
      (fd g : ℕ) (c : Connection A) (cs : List (Connection A)) (o : Option ℕ) (x : Option A)
      (s : Slot A)
      → c.fd ≡ o
      → copies_at fd o ≡ 0
      → IsPlaced fd g cs s
      → IsPlaced fd g (c ∷ cs) (on_fd fd o x s)
  unfolding copies
  on_fd-IsPlaced fd g c cs none x s e z h = omega (arith, ap (copies_at g) e)
  on_fd-IsPlaced fd g c cs (some f) x s e z h =
      if_cases (IsPlaced fd g (c ∷ cs)) (f == fd) (held 0) (next_slot s)
        (λ same. absurd (ground arith)) (λ _. next_slot-IsPlaced fd g c cs s h)

  find_slot-IsPlaced :
      (fd g : ℕ) (cs : List (Connection A)) → copies fd cs ≡ 0 → IsPlaced fd g cs (find_slot fd cs)
  unfolding copies find_slot
  find_slot-IsPlaced fd g [] z = refl
  find_slot-IsPlaced fd g (c ∷ cs) z =
      on_fd-IsPlaced fd g c cs c.fd c.aux_data (find_slot fd cs) refl (omega arith)
        (find_slot-IsPlaced fd g cs (omega arith))

  on_slot_lem :
      (fd g : ℕ) (cs : List (Connection A)) (s : Slot A)
      → pool_copies g (on_slot true fd cs s).0 ≡ copies g (placed fd cs s)
  on_slot_lem fd g cs (held i) = refl
  on_slot_lem fd g cs (free i x) = refl
  on_slot_lem fd g cs missing = refl

  add_to_lem :
      (fd g : ℕ) (pool : ConnPool A) (o : Option (List (Connection A)))
      → copies_of fd o ≡ 0
      → pool_copies g (add_to true fd pool o).0 ≡ one_if (fd == g) + copies_of g o
  unfolding copies
  add_to_lem fd g pool none z = refl
  add_to_lem fd g pool (some cs) z =
      on_slot_lem fd g cs (find_slot fd cs) ∙ find_slot-IsPlaced fd g cs z

  -- With memory, a descriptor that is not open is opened once.
  connpool_add_opens :
      (pool : ConnPool A) (fd g : ℕ)
      → pool_copies fd pool ≡ 0
      → pool_copies g (connpool_add true pool (some fd)).0 ≡ one_if (fd == g) + pool_copies g pool
  unfolding connpool_add
  connpool_add_opens pool fd g z = add_to_lem fd g pool pool.conns z

  remove_at :
      (fd g : ℕ) (c : Connection A) (cs : List (Connection A)) (later : List (Connection A) × ℤ)
      (b : Bool)
      → is_fd fd c.fd ≡ b
      → copies g later.0 ≡ copies g cs - one_if (fd == g)
      → copies g (on_match b c cs later).0 ≡ copies g (c ∷ cs) - one_if (fd == g)
  unfolding copies
  remove_at fd g c cs later true e h = omega (arith, closed_lem fd g c.fd e)
  remove_at fd g c cs (cs', rv) false e h = omega (arith, h, other_lem fd g c.fd e)

  remove_from_lem :
      (fd g : ℕ) (cs : List (Connection A))
      → copies g (remove_from fd cs).0 ≡ copies g cs - one_if (fd == g)
  unfolding copies remove_from
  remove_from_lem fd g [] = omega arith
  remove_from_lem fd g (c ∷ cs) =
      remove_at fd g c cs (remove_from fd cs) (is_fd fd c.fd) refl (remove_from_lem fd g cs)

  remove_in_lem :
      (fd g : ℕ) (pool : ConnPool A) (o : Option (List (Connection A)))
      → pool.conns ≡ o
      → pool_copies g (remove_in fd pool o).0 ≡ pool_copies g pool - one_if (fd == g)
  remove_in_lem fd g pool none e = omega (arith, ap (copies_of g) e)
  remove_in_lem fd g pool (some cs) e =
      remove_from_lem fd g cs ∙ sym (ap (λ o. copies_of g o - one_if (fd == g)) e)

  connpool_remove_closes :
      (pool : ConnPool A) (fd g : ℕ)
      → pool_copies g (connpool_remove pool (some fd)).0 ≡ pool_copies g pool - one_if (fd == g)
  unfolding connpool_remove
  connpool_remove_closes pool fd g = remove_in_lem fd g pool pool.conns refl

  -- the calls, and the pool behind them
  pub run_pool : ConnPool A → List Call → ConnPool A
  run_pool pool [] = pool
  run_pool pool (opens fd ∷ cs) = run_pool (connpool_add true pool (some fd)).0 cs
  run_pool pool (closes fd ∷ cs) = run_pool (connpool_remove pool (some fd)).0 cs

  -- With memory, a pool on which descriptors are added that are not open at that time, as the kernel
  -- hands them out, and any are removed, has open after each sequence of such calls just the
  -- descriptors of a bag on which the same is done: adding disturbs none that is open, whether a slot
  -- is used again, the table grows or is made, and removing closes that one alone.
  pub run_pool_refines :
      (cs : List Call) (pool : ConnPool A) (bag : ℕ → ℕ) (g : ℕ)
      → ((x : ℕ) → pool_copies x pool ≡ bag x)
      → AreFresh bag cs
      → pool_copies g (run_pool pool cs) ≡ run_bag bag cs g
  unfolding run_pool run_bag AreFresh
  run_pool_refines [] pool bag g h fresh = h g
  run_pool_refines (opens fd ∷ cs) pool bag g h (new, fresh) =
      run_pool_refines cs (connpool_add true pool (some fd)).0 (opened bag fd) g
        (λ x. connpool_add_opens pool fd x (h fd ∙ new) ∙ ap (λ n. one_if (fd == x) + n) (h x))
        fresh
  run_pool_refines (closes fd ∷ cs) pool bag g h fresh =
      run_pool_refines cs (connpool_remove pool (some fd)).0 (closed bag fd) g
        (λ x. connpool_remove_closes pool fd x ∙ ap (λ n. n - one_if (fd == x)) (h x)) fresh
