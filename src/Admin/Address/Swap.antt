-- ===== src/Admin/Address/Swap.antt =====
-- cmail-admin/address: the swap of two orders is atomic.
use cmail.Base.{
  true, false, ◌&&◌, ◌||◌, not, [], ◌∷◌, Option, none, some, ◌≡◌, refl, arith, if◌then◌else◌,
  if_cases, Option-cases, inl, inr, zero, suc, ℤ, pos, negsuc, int_eq, int_eq_iff,
}
use cmail.Admin.Address.{
  Entry, Table, entry_at, is_free, without_order, renumber, sqlite_delete_address,
  sqlite_add_address_order, SwapSql, Fetch, fetch_entry, fetched, fetch_failed, swap_update,
  swap_delete, swap_insert, end_swap, swap_entry, sqlite_swap, succeeded,
}

-- The entry that an order has when two orders are swapped
unfoldable pub swapped : ℤ → ℤ → Table → ℤ → Option Entry
unfolding entry_at
swapped first second t o =
    if int_eq second o
    then entry_at first t
    else if int_eq first o
    then entry_at second t
    else entry_at o t

entry_at-without_order :
    (k o : ℤ) (t : Table)
    → entry_at o (without_order k t) ≡ (if int_eq k o then none else entry_at o t)
unfolding entry_at without_order
entry_at-without_order k o [] = ground arith
entry_at-without_order k o ((j, e) ∷ t) =
    ground (arith, entry_at-without_order k o t, int_eq_iff j k, int_eq_iff j o, int_eq_iff k o)

entry_at-renumber :
    (first second o : ℤ) (t : Table)
    → entry_at first t ≡ none
    → entry_at o (renumber first second t) ≡ (
        if int_eq first o
        then entry_at second t
        else if int_eq second o
        then none
        else entry_at o t)
unfolding entry_at renumber
entry_at-renumber first second o [] h = ground arith
entry_at-renumber first second o ((j, e) ∷ t) h = ground (
  arith,
  entry_at-renumber first second o t,
  int_eq_iff j first,
  int_eq_iff j second,
  int_eq_iff j o,
  int_eq_iff first o,
  int_eq_iff second o,
)

is_free_lem : (o : ℤ) (t : Table) → is_free o t ≡ true → entry_at o t ≡ none
is_free_lem o t h = elim (Option-cases (entry_at o t)) [
  | inl e ↦ e
  | inr (a, e) ↦ absurd (ground arith)
]

module _ (q : SwapSql) (first second o : ℤ) (t : Table) (e : Entry)
    (found : entry_at first t ≡ some e) where
  -- Once the moved row is inserted, the table is the swapped one; nothing is said of a failure.
  abbrev Stage : Table × ℤ → Type 0
  Stage (t', pos zero) =
      (if int_eq second o then some e else entry_at o t') ≡ swapped first second t o
  Stage (t', status) = Unit

  abbrev Inserted : Table × ℤ → Type 0
  Inserted (t', pos zero) = entry_at o t' ≡ swapped first second t o
  Inserted (t', status) = Unit

  abbrev rest : Table
  rest = without_order first t

  moved-Stage : Stage (
      if is_free second rest
      then (rest, pos 0)
      else if is_free first rest || int_eq first second
      then (renumber first second rest, pos 0)
      else (rest, pos 23))
  unfolding swapped
  moved-Stage =
      let drop_o = entry_at-without_order first o t in
      let drop_second = entry_at-without_order first second t in
      if_cases Stage (is_free second rest) (rest, pos 0)
        (if is_free first rest || int_eq first second
          then (renumber first second rest, pos 0)
          else (rest, pos 23))
        (λ free. ground (
          arith,
          found,
          drop_o,
          drop_second,
          is_free_lem second rest free,
          int_eq_iff first second,
          int_eq_iff second o,
          int_eq_iff first o,
        ))
        (λ taken.
          let gone : entry_at first rest ≡ none =
            ground (arith, entry_at-without_order first first t, int_eq_iff first first) in
          if_cases Stage (is_free first rest || int_eq first second)
            (renumber first second rest, pos 0) (rest, pos 23)
            (λ _. ground (
              arith,
              found,
              drop_o,
              drop_second,
              entry_at-renumber first second o rest gone,
              int_eq_iff first second,
              int_eq_iff second o,
              int_eq_iff first o,
            ))
            (λ _. tt))

  swap_update-Stage :
      (q.deletion.is_bound && q.deletion.is_executed) ≡ true
      → Stage (swap_update q first second (swap_delete q first t))
  unfolding sqlite_delete_address
  swap_update-Stage deletes =
      if_cases
        (λ (r : Table × ℤ).
          Stage (swap_update q first second (r.0, if succeeded r.1 then pos 0 else pos 21)))
        q.deletion.is_prepared
        (if q.deletion.is_bound && q.deletion.is_executed then rest else t, pos 0) (t, pos 2)
        (λ _. rw deletes (
          if_cases Stage (not q.is_update_executed) (rest, pos 23) _ (λ _. tt)
            (λ _.
              if_cases Stage (not q.is_update_bound) (rest, pos 22) _ (λ _. tt)
                (λ _. moved-Stage))))
        (λ _.
          if_cases (λ s. Stage (t, s)) q.is_update_executed (pos 21) (pos 23) (λ _. tt) (λ _. tt))

  swap_insert-Inserted : (r : Table × ℤ) → Stage r → Inserted (swap_insert q second (some e) r)
  unfolding sqlite_add_address_order entry_at
  swap_insert-Inserted (t', pos zero) h = ground arith
  swap_insert-Inserted (t', pos (suc n)) h = tt
  swap_insert-Inserted (t', negsuc n) h = tt

-- What the swap has done, by its status
abbrev pub Swaps : ℤ → ℤ → ℤ → Table → Table × ℤ → Type 0
Swaps first second o t (t', pos zero) = entry_at o t' ≡ swapped first second t o
Swaps first second o t (t', status) = entry_at o t' ≡ entry_at o t

end_swap-Swaps :
    (q : SwapSql) (first second o : ℤ) (t : Table) (e : Entry) (found : entry_at first t ≡ some e)
    → q.begins ≡ true
    → q.commits ≡ true
    → (r : Table × ℤ) → Inserted q first second o t e found r
    → Swaps first second o t (end_swap q t r)
end_swap-Swaps q first second o t e found begins commits (t', pos zero) h = rw (begins, commits) h
end_swap-Swaps q first second o t e found begins commits (t', pos (suc n)) h = rw begins refl
end_swap-Swaps q first second o t e found begins commits (t', negsuc n) h = rw begins refl

-- Without its row nothing can be inserted, and the transaction is taken back.
swap_insert_nothing :
    (q : SwapSql) (first second o : ℤ) (t : Table) (r : Table × ℤ)
    → q.begins ≡ true
    → Swaps first second o t (end_swap q t (swap_insert q second none r))
unfolding sqlite_add_address_order entry_at
swap_insert_nothing q first second o t (t', pos zero) begins = ground arith
swap_insert_nothing q first second o t (t', pos (suc n)) begins = rw begins refl
swap_insert_nothing q first second o t (t', negsuc n) begins = rw begins refl

swap_entry-Swaps :
    (q : SwapSql) (first second o : ℤ) (t : Table) (found : Option Entry)
    → entry_at first t ≡ found
    → q.begins ≡ true
    → q.commits ≡ true
    → (q.deletion.is_bound && q.deletion.is_executed) ≡ true
    → Swaps first second o t (swap_entry q first second t (fetch_entry q.fetch found))
swap_entry-Swaps q first second o t found same begins commits deletes = go q.fetch found same
  where
    nothing : Swaps first second o t (swap_entry q first second t (none, pos 0))
    nothing =
        swap_insert_nothing q first second o t (swap_update q first second (swap_delete q first t))
          begins

    go :
        (f : Fetch) (found : Option Entry)
        → entry_at first t ≡ found
        → Swaps first second o t (swap_entry q first second t (fetch_entry f found))
    go (fetched true) (some e) same =
        end_swap-Swaps q first second o t e same begins commits
          (swap_insert q second (some e) (swap_update q first second (swap_delete q first t)))
          (swap_insert-Inserted q first second o t e same
            (swap_update q first second (swap_delete q first t))
            (swap_update-Stage q first second o t e same deletes))
    go (fetched false) (some e) same = refl
    go (fetched b) none same = refl
    go fetch_failed (some e) same = nothing
    go fetch_failed none same = nothing

-- If the transaction can begin and be committed, and the deletion is carried out once it is
-- prepared, then the swap of two orders either succeeds, and each order has the entry that it has in
-- the swapped table, or it fails, and each order has the entry that it had.
pub sqlite_swap-Swaps :
    (q : SwapSql) (first second o : ℤ) (t : Table)
    → q.begins ≡ true
    → q.commits ≡ true
    → (q.deletion.is_bound && q.deletion.is_executed) ≡ true
    → Swaps first second o t (sqlite_swap q t first second)
unfolding sqlite_swap
sqlite_swap-Swaps q first second o t begins commits deletes =
    if_cases (Swaps first second o t) (q.are_prepared && q.is_fetch_bound)
      (swap_entry q first second t (fetch_entry q.fetch (entry_at first t))) (t, negsuc 0)
      (λ _. swap_entry-Swaps q first second o t (entry_at first t) refl begins commits deletes)
      (λ _. refl)
