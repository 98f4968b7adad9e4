-- ===== src/Common/Accept/Seats.antt =====
-- client_accept: who sits in the slots of the pool. Taking a slot moves nobody.
use cmail.Base.{
  ℕ, zero, suc, Bool, true, false, List, [], ◌∷◌, ◌++◌, Option, none, some, ◌≡◌, ◌≢◌, ◌⊎◌, inl, inr,
  refl, ap, set, get_elem?, if_both, leb, ◌==◌, ℤ, pos, negsuc,
}
use cmail.Net.{TlsMode}
use cmail.Common.ConnPool.{
  Connection, ConnPool, connpool_add, connpool_active, add_to, on_slot, find_slot, held, free,
  missing, Slot, on_fd, next_slot, new_connection,
}
use cmail.Common.Accept.{
  Incoming, Taken, undefined, refused, taken, take_slot, on_active, on_added, in_pool, in_slot,
  with_data, hold,
}
use cmail.Common.Accept.Limit.{data_at}

module _ {ℓ} {A : Type ℓ} where
  abbrev pub seat : Option (List (Connection A)) → ℕ → Option A
  seat none i = none
  seat (some cs) i = data_at i cs

  -- Each slot has who it had, or nobody.
  abbrev pub Stay : (ℕ → Option A) → Option (List (Connection A)) → Type ℓ
  Stay before o = (j : ℕ) → (seat o j ≡ before j) ⊎ (seat o j ≡ none)

  abbrev pub TakenStay : (ℕ → Option A) → Taken A → Type ℓ
  TakenStay before undefined = Unit
  TakenStay before (refused pool rv) = Stay before pool.conns
  TakenStay before (taken cs i old) = Stay before (some cs)

  pub data_at-set_self :
      (cs : List (Connection A)) (i : ℕ) (c d : Connection A)
      → get_elem? cs i ≡ some c
      → data_at i (set cs i d) ≡ d.aux_data
  unfolding data_at
  data_at-set_self [] i c d h = cc
  data_at-set_self (e ∷ cs) zero c d h = refl
  data_at-set_self (e ∷ cs) (suc i) c d h = data_at-set_self cs i c d h

  pub data_at-set_ne :
      (cs : List (Connection A)) (i j : ℕ) (d : Connection A)
      → j ≢ i
      → data_at j (set cs i d) ≡ data_at j cs
  unfolding data_at
  data_at-set_ne [] i j d h = refl
  data_at-set_ne (e ∷ cs) zero zero d h = absurd (h refl)
  data_at-set_ne (e ∷ cs) zero (suc j) d h = refl
  data_at-set_ne (e ∷ cs) (suc i) zero d h = refl
  data_at-set_ne (e ∷ cs) (suc i) (suc j) d h = data_at-set_ne cs i j d (λ k. h (ap suc k))

  pub data_at-get :
      (cs : List (Connection A)) (i : ℕ) (c : Connection A)
      → get_elem? cs i ≡ some c
      → data_at i cs ≡ c.aux_data
  unfolding data_at
  data_at-get [] i c h = cc
  data_at-get (e ∷ cs) zero c h = cc
  data_at-get (e ∷ cs) (suc i) c h = data_at-get cs i c h

  -- A new connection takes over what its slot holds.
  abbrev SlotStays : List (Connection A) → Slot A → Type ℓ
  SlotStays cs (held i) = Unit
  SlotStays cs (free i x) =
      (j : ℕ) (fd : ℕ) → data_at j (set cs i (new_connection fd x)) ≡ data_at j cs
  SlotStays cs missing = Unit

  find_slot-SlotStays : (fd : ℕ) (cs : List (Connection A)) → SlotStays cs (find_slot fd cs)
  unfolding find_slot data_at
  find_slot-SlotStays fd [] = tt
  find_slot-SlotStays fd (c ∷ cs) = go c.fd (find_slot fd cs) (find_slot-SlotStays fd cs)
    where
      first :
          (j g : ℕ)
          → data_at j (set (c ∷ cs) zero (new_connection g c.aux_data)) ≡ data_at j (c ∷ cs)
      first zero g = refl
      first (suc j) g = refl

      shifted :
          (i : ℕ) (x : Option A) (j g : ℕ)
          → SlotStays cs (free i x)
          → data_at j (set (c ∷ cs) (suc i) (new_connection g x)) ≡ data_at j (c ∷ cs)
      shifted i x zero g h = refl
      shifted i x (suc j) g h = h j g

      later : (s : Slot A) → SlotStays cs s → SlotStays (c ∷ cs) (next_slot s)
      later (held i) h = tt
      later missing h = tt
      later (free i x) h = λ j g. shifted i x j g h

      go :
          (o : Option ℕ) (s : Slot A)
          → SlotStays cs s
          → SlotStays (c ∷ cs) (on_fd fd o c.aux_data s)
      go none s h = first
      go (some g) s h = if_both (SlotStays (c ∷ cs)) (g == fd) (held 0) (next_slot s) tt (later s h)

  data_at-append :
      (cs : List (Connection A)) (fd j : ℕ)
      → data_at j (cs ++ new_connection fd none ∷ []) ≡ data_at j cs
  unfolding data_at
  data_at-append [] fd zero = refl
  data_at-append [] fd (suc j) = refl
  data_at-append (c ∷ cs) fd zero = refl
  data_at-append (c ∷ cs) fd (suc j) = data_at-append cs fd j

  on_slot-Stay :
      (alloc : Bool) (fd : ℕ) (cs : List (Connection A)) (s : Slot A)
      → SlotStays cs s
      → Stay (seat (some cs)) (on_slot alloc fd cs s).0.conns
  on_slot-Stay alloc fd cs (held i) h j = inl refl
  on_slot-Stay alloc fd cs (free i x) h j = inl (h j fd)
  on_slot-Stay true fd cs missing h j = inl (data_at-append cs fd j)
  on_slot-Stay false fd cs missing h j = inr refl

  add_to-Stay :
      (alloc : Bool) (fd : ℕ) (pool : ConnPool A) (o : Option (List (Connection A)))
      → pool.conns ≡ o
      → Stay (seat o) (add_to alloc fd pool o).0.conns
  unfolding data_at
  add_to-Stay true fd pool none e zero = inr refl
  add_to-Stay true fd pool none e (suc j) = inr refl
  add_to-Stay false fd pool none e j = rw e (inr refl)
  add_to-Stay alloc fd pool (some cs) e j =
      on_slot-Stay alloc fd cs (find_slot fd cs) (find_slot-SlotStays fd cs) j

  connpool_add-Stay :
      (alloc : Bool) (pool : ConnPool A) (fd : Option ℕ)
      → Stay (seat pool.conns) (connpool_add alloc pool fd).0.conns
  unfolding connpool_add
  connpool_add-Stay alloc pool none j = inl refl
  connpool_add-Stay alloc pool (some fd) j = add_to-Stay alloc fd pool pool.conns refl j

  with_data-Stay :
      (alloc : Bool) (before : ℕ → Option A) (pool : ConnPool A) (cs : List (Connection A)) (i : ℕ)
      (x : Option A)
      → Stay before pool.conns
      → Stay before (some cs)
      → TakenStay before (with_data alloc pool cs i x)
  with_data-Stay alloc before pool cs i (some old) h k = k
  with_data-Stay true before pool cs i none h k = k
  with_data-Stay false before pool cs i none h k = h

  in_slot-Stay :
      (alloc : Bool) (before : ℕ → Option A) (pool : ConnPool A) (cs : List (Connection A)) (i : ℕ)
      (c : Option (Connection A))
      → Stay before pool.conns
      → Stay before (some cs)
      → TakenStay before (in_slot alloc pool cs i c)
  in_slot-Stay alloc before pool cs i none h k = tt
  in_slot-Stay alloc before pool cs i (some c) h k =
      with_data-Stay alloc before pool cs i c.aux_data h k

  on_added-Stay :
      (alloc : Bool) (before : ℕ → Option A) (r : ConnPool A × ℤ)
      → Stay before r.0.conns
      → TakenStay before (on_added alloc r)
  on_added-Stay alloc before (pool, negsuc n) h = h
  on_added-Stay alloc before (pool, pos i) h = go pool.conns h
    where
      go :
          (o : Option (List (Connection A)))
          → Stay before o
          → TakenStay before (in_pool alloc pool i o)
      go none k = tt
      go (some cs) k = in_slot-Stay alloc before pool cs i (get_elem? cs i) h k

  -- Whatever take_slot ends with, each slot of the pool has who it had, or nobody.
  pub take_slot-Stay :
      (limit : ℕ) (pool : ConnPool A) (x : Incoming)
      → TakenStay (seat pool.conns) (take_slot limit pool x)
  unfolding take_slot
  take_slot-Stay limit pool x = go (connpool_active pool)
    where
      go : (o : Option ℕ) → TakenStay (seat pool.conns) (on_active limit pool x o)
      go none = tt
      go (some n) =
          if_both (TakenStay (seat pool.conns)) (leb limit n) (refused pool (pos 1))
            (on_added x.data_alloc (connpool_add x.pool_alloc pool x.fd)) (λ j. inl refl)
            (on_added-Stay x.data_alloc (seat pool.conns) (connpool_add x.pool_alloc pool x.fd)
              (connpool_add-Stay x.pool_alloc pool x.fd))

  pub data_at-hold_cases :
      (i : ℕ) (a : A) (mode : Option TlsMode) (cs : List (Connection A)) (j : ℕ)
      → (data_at j (hold i a mode cs) ≡ data_at j cs) ⊎ (data_at j (hold i a mode cs) ≡ some a)
  unfolding data_at hold
  data_at-hold_cases i a mode [] j = inl refl
  data_at-hold_cases zero a mode (c ∷ cs) zero = inr refl
  data_at-hold_cases zero a mode (c ∷ cs) (suc j) = inl refl
  data_at-hold_cases (suc i) a mode (c ∷ cs) zero = inl refl
  data_at-hold_cases (suc i) a mode (c ∷ cs) (suc j) = data_at-hold_cases i a mode cs j
