-- ===== src/Common/Accept/Limit.antt =====
-- client_accept: the number of clients stays under its limit.
use cmail.Base.{
  ℕ, zero, suc, ◌+◌, ◌<◌, ◌≤◌, Bool, true, false, List, [], ◌∷◌, ◌++◌, Option, none, some, ◌≡◌, ◌⊎◌,
  refl, arith, leb, set, get_elem?, length, length-set, length-append, if_cases, is_some,
  Option-cases, inl, inr, ℤ, pos, negsuc,
}
use cmail.Net.{TlsMode}
use cmail.Common.ConnPool.{
  Connection, ConnPool, active_in, counts, connpool_add, connpool_active, add_to, on_slot,
  find_slot, held, free, missing, Slot, on_fd, new_connection,
}
use cmail.Common.Accept.{
  Incoming, Taken, undefined, refused, taken, take_slot, on_added, in_pool, in_slot, with_data,
  hold,
}

module _ {ℓ} {A : Type ℓ} where
  active_in-set :
      (cs : List (Connection A)) (i : ℕ) (c : Connection A)
      → active_in (set cs i c) ≤ active_in cs + counts c.fd
  unfolding active_in
  active_in-set [] i c = omega arith
  active_in-set (x ∷ cs) zero c = omega arith
  active_in-set (x ∷ cs) (suc i) c = omega (arith, active_in-set cs i c)

  active_in-append :
      (cs ds : List (Connection A)) → active_in (cs ++ ds) ≡ active_in cs + active_in ds
  unfolding active_in
  active_in-append [] ds = omega arith
  active_in-append (c ∷ cs) ds = omega (arith, active_in-append cs ds)

  pub active_in-hold :
      (i : ℕ) (a : A) (mode : Option TlsMode) (cs : List (Connection A))
      → active_in (hold i a mode cs) ≡ active_in cs
  unfolding active_in hold
  active_in-hold i a mode [] = refl
  active_in-hold zero a mode (c ∷ cs) = refl
  active_in-hold (suc i) a mode (c ∷ cs) = omega (arith, active_in-hold i a mode cs)

  -- The connections of a pool, where they are known, number at most `n`.
  abbrev pub AtMost : ℕ → Option (List (Connection A)) → Type 0
  AtMost n none = Unit
  AtMost n (some cs) = active_in cs ≤ n

  abbrev AddedIn : ℕ → ℕ → Option (List (Connection A)) → Type 0
  AddedIn n i none = false ≡ true
  AddedIn n i (some cs) = (active_in cs ≤ n) × (i < length cs)

  -- The slot of a search stands in the table.
  abbrev IsInside : ℕ → Slot A → Type 0
  IsInside n (held i) = i < n
  IsInside n (free i x) = i < n
  IsInside n missing = Unit

  find_slot-IsInside : (fd : ℕ) (cs : List (Connection A)) → IsInside (length cs) (find_slot fd cs)
  unfolding find_slot
  find_slot-IsInside fd [] = tt
  find_slot-IsInside fd (c ∷ cs) =
      on_fd-IsInside c.fd c.aux_data (find_slot fd cs) (find_slot-IsInside fd cs)
    where
      on_fd-IsInside :
          (o : Option ℕ) (x : Option A) (later : Slot A)
          → IsInside (length cs) later
          → IsInside (suc (length cs)) (on_fd fd o x later)
      on_fd-IsInside none x later h = omega arith
      on_fd-IsInside (some g) x (held i) h = ground arith
      on_fd-IsInside (some g) x (free i y) h = ground arith
      on_fd-IsInside (some g) x missing h = ground arith

  -- What connpool_add leaves: at most `n` connections, and a slot of the table or a failure
  abbrev IsAdded : ℕ → ConnPool A × ℤ → Type 0
  IsAdded n (pool, negsuc k) = AtMost n pool.conns
  IsAdded n (pool, pos i) = AddedIn n i pool.conns

  on_slot-IsAdded :
      (alloc : Bool) (fd : ℕ) (cs : List (Connection A)) (s : Slot A)
      → IsInside (length cs) s
      → IsAdded (active_in cs + 1) (on_slot alloc fd cs s)
  unfolding active_in
  on_slot-IsAdded alloc fd cs (held i) h = (omega arith, h)
  on_slot-IsAdded alloc fd cs (free i x) h = (
    omega (arith, active_in-set cs i (new_connection fd x)),
    omega (arith, h, length-set cs i (new_connection fd x)),
  )
  on_slot-IsAdded true fd cs missing h = (
    omega (arith, active_in-append cs (new_connection fd none ∷ [])),
    omega (arith, length-append cs (new_connection fd none ∷ [])),
  )
  on_slot-IsAdded false fd cs missing h = tt

  active_lem : (pool : ConnPool A) (n : ℕ) → connpool_active pool ≡ some n → AtMost n pool.conns
  unfolding connpool_active
  active_lem pool n h = elim (Option-cases pool.conns) [
    | inl e ↦ rw e tt
    | inr (cs, e) ↦ rw e (ground (arith, e))
  ]

  AtMost-mono : (m n : ℕ) (o : Option (List (Connection A))) → m ≤ n → AtMost m o → AtMost n o
  AtMost-mono m n none le h = tt
  AtMost-mono m n (some cs) le h = omega arith

  IsAdded-mono : (m n : ℕ) (r : ConnPool A × ℤ) → m ≤ n → IsAdded m r → IsAdded n r
  IsAdded-mono m n (pool, negsuc k) le h = AtMost-mono m n pool.conns le h
  IsAdded-mono m n (pool, pos i) le h = go pool.conns h
    where
      go : (o : Option (List (Connection A))) → AddedIn m i o → AddedIn n i o
      go none h = h
      go (some cs) h = omega arith

  add_to-IsAdded :
      (alloc : Bool) (fd : ℕ) (pool : ConnPool A) (n : ℕ) (o : Option (List (Connection A)))
      → pool.conns ≡ o
      → AtMost n o
      → IsAdded (n + 1) (add_to alloc fd pool o)
  unfolding active_in
  add_to-IsAdded true fd pool n none e h = omega arith
  add_to-IsAdded false fd pool n none e h = rw e tt
  add_to-IsAdded alloc fd pool n (some cs) e h =
      IsAdded-mono (active_in cs + 1) (n + 1) (on_slot alloc fd cs (find_slot fd cs)) (omega arith)
        (on_slot-IsAdded alloc fd cs (find_slot fd cs) (find_slot-IsInside fd cs))

  connpool_add-IsAdded :
      (alloc : Bool) (pool : ConnPool A) (fd : Option ℕ) (n : ℕ)
      → AtMost n pool.conns
      → IsAdded (n + 1) (connpool_add alloc pool fd)
  unfolding connpool_add
  connpool_add-IsAdded alloc pool none n h = AtMost-mono n (n + 1) pool.conns (omega arith) h
  connpool_add-IsAdded alloc pool (some fd) n h = add_to-IsAdded alloc fd pool n pool.conns refl h

  -- A slot was found, or the function has returned, and there are no more clients than the limit.
  abbrev pub IsWithin : ℕ → Taken A → Type 0
  IsWithin limit undefined = false ≡ true
  IsWithin limit (refused pool rv) = AtMost limit pool.conns × ((rv ≡ pos 1) ⊎ (rv ≡ negsuc 0))
  IsWithin limit (taken cs i old) = (active_in cs ≤ limit) × (i < length cs)

  get_elem?-lt :
      (cs : List (Connection A)) (i : ℕ) → i < length cs → is_some (get_elem? cs i) ≡ true
  get_elem?-lt [] i h = absurd (omega arith)
  get_elem?-lt (c ∷ cs) zero h = refl
  get_elem?-lt (c ∷ cs) (suc i) h = get_elem?-lt cs i (omega arith)

  on_added-IsWithin :
      (limit : ℕ) (alloc : Bool) (r : ConnPool A × ℤ)
      → IsAdded limit r
      → IsWithin limit (on_added alloc r)
  on_added-IsWithin limit alloc (pool, negsuc k) h = (h, inr refl)
  on_added-IsWithin limit alloc (pool, pos i) h = go pool.conns refl h
    where
      go :
          (o : Option (List (Connection A)))
          → pool.conns ≡ o
          → AddedIn limit i o
          → IsWithin limit (in_pool alloc pool i o)
      go none e h = h
      go (some cs) e h = found (get_elem? cs i) (get_elem?-lt cs i h.1)
        where
          found :
              (c : Option (Connection A))
              → is_some c ≡ true
              → IsWithin limit (in_slot alloc pool cs i c)
          found none bad = cc
          found (some c) ok = data_of c.aux_data
            where
              data_of : (x : Option A) → IsWithin limit (with_data alloc pool cs i x)
              data_of (some old) = h
              data_of none =
                  if_cases (IsWithin limit) alloc (taken cs i none) (refused pool (negsuc 0))
                    (λ _. h) (λ _. (rw e h.0, inr refl))

  -- With a table that is known, client_accept finds a slot or returns, and it never lets the number of
  -- clients grow over its limit.
  pub take_slot-IsWithin :
      (limit : ℕ) (pool : ConnPool A) (x : Incoming) (n : ℕ)
      → connpool_active pool ≡ some n
      → n ≤ limit
      → IsWithin limit (take_slot limit pool x)
  unfolding take_slot
  take_slot-IsWithin limit pool x n active le = rw active (
      if_cases (IsWithin limit) (leb limit n) (refused pool (pos 1))
        (on_added x.data_alloc (connpool_add x.pool_alloc pool x.fd))
        (λ _. (AtMost-mono n limit pool.conns le (active_lem pool n active), inl refl))
        (λ room. on_added-IsWithin limit x.data_alloc (connpool_add x.pool_alloc pool x.fd) (
          IsAdded-mono (n + 1) limit (connpool_add x.pool_alloc pool x.fd) (ground arith)
            (connpool_add-IsAdded x.pool_alloc pool x.fd n (active_lem pool n active)))))

  -- What a slot holds of a client
  unfoldable pub data_at : ℕ → List (Connection A) → Option A
  data_at i [] = none
  data_at zero (c ∷ cs) = c.aux_data
  data_at (suc i) (c ∷ cs) = data_at i cs

  pub data_at-hold :
      (i : ℕ) (a : A) (mode : Option TlsMode) (cs : List (Connection A))
      → i < length cs
      → data_at i (hold i a mode cs) ≡ some a
  unfolding data_at hold
  data_at-hold i a mode [] h = absurd (omega arith)
  data_at-hold zero a mode (c ∷ cs) h = refl
  data_at-hold (suc i) a mode (c ∷ cs) h = data_at-hold i a mode cs (omega arith)
