-- ===== src/Smtpd/PathPool/Slots.antt =====
-- cmail-smtpd/pathpool.c: the slots of the pool.
use cmail.Base.{
  ℕ, zero, suc, ◌≤◌, ◌<◌, Bool, true, false, List, [], ◌∷◌, ◌++◌, Option, none, some, ◌≡◌, ◌≢◌,
  refl, sym, ap, ◌∙◌, arith, get_elem?, length, length-append, Bool-cases, ltb, ◌&&◌, inl, inr,
}
use cmail.Smtpd.Types.{MailPath, reset_path, cmail_max_pooled_paths}
use cmail.Smtpd.PathPool.{
  path_reset, PathPool, PoolAlloc, find_free, mark, update, reuse, grow, pathpool_get,
  pathpool_return,
}

-- Slot `i` holds a path that is in a transaction, or one that is free.
abbrev pub busy : List MailPath → ℕ → Option Bool
busy [] i = none
busy (p ∷ ps) zero = some p.in_transaction
busy (p ∷ ps) (suc i) = busy ps i

find_free-some : (ps : List MailPath) (i : ℕ) → find_free ps ≡ some i → busy ps i ≡ some false
unfolding find_free
find_free-some [] i h = cc
find_free-some (p ∷ ps) zero h = ground arith
find_free-some (p ∷ ps) (suc i) h = ground (arith, find_free-some ps i)

busy-update_self :
    (ps : List MailPath) (i : ℕ) (f : MailPath → MailPath) (b c : Bool)
    → busy ps i ≡ some b
    → ((p : MailPath) → (f p).in_transaction ≡ c)
    → busy (update ps i f) i ≡ some c
unfolding update
busy-update_self [] i f b c h k = cc
busy-update_self (p ∷ ps) zero f b c h k = ap some (k p)
busy-update_self (p ∷ ps) (suc i) f b c h k = busy-update_self ps i f b c h k

pub busy-update_freed :
    (ps : List MailPath) (i : ℕ) (f : MailPath → MailPath)
    → ((p : MailPath) → (f p).in_transaction ≡ false)
    → busy (update ps i f) i ≢ some true
unfolding update
busy-update_freed [] i f k = cc
busy-update_freed (p ∷ ps) zero f k = let e = k p in cc
busy-update_freed (p ∷ ps) (suc i) f k = busy-update_freed ps i f k

pub get_elem?-update_ne :
    (ps : List MailPath) (i j : ℕ) (f : MailPath → MailPath)
    → j ≢ i
    → get_elem? (update ps i f) j ≡ get_elem? ps j
unfolding update
get_elem?-update_ne [] i j f h = refl
get_elem?-update_ne (p ∷ ps) zero zero f h = absurd (h refl)
get_elem?-update_ne (p ∷ ps) zero (suc j) f h = refl
get_elem?-update_ne (p ∷ ps) (suc i) zero f h = refl
get_elem?-update_ne (p ∷ ps) (suc i) (suc j) f h = get_elem?-update_ne ps i j f (λ e. h (ap suc e))

pub length-update :
    (ps : List MailPath) (i : ℕ) (f : MailPath → MailPath) → length (update ps i f) ≡ length ps
unfolding update
length-update [] i f = refl
length-update (p ∷ ps) zero f = refl
length-update (p ∷ ps) (suc i) f = ap suc (length-update ps i f)

busy-length : (ps : List MailPath) → busy ps (length ps) ≡ none
busy-length [] = refl
busy-length (p ∷ ps) = busy-length ps

busy-append_self :
    (ps : List MailPath) (p : MailPath) → busy (ps ++ p ∷ []) (length ps) ≡ some p.in_transaction
busy-append_self [] p = refl
busy-append_self (q ∷ ps) p = busy-append_self ps p

get_elem?-append_ne :
    (ps : List MailPath) (p : MailPath) (j : ℕ)
    → j ≢ length ps
    → get_elem? (ps ++ p ∷ []) j ≡ get_elem? ps j
get_elem?-append_ne [] p zero h = absurd (h refl)
get_elem?-append_ne [] p (suc j) h = refl
get_elem?-append_ne (q ∷ ps) p zero h = refl
get_elem?-append_ne (q ∷ ps) p (suc j) h = get_elem?-append_ne ps p j (λ e. h (ap suc e))

state_of : Option MailPath → Option Bool
state_of none = none
state_of (some p) = some p.in_transaction

busy-state_of : (ps : List MailPath) (i : ℕ) → busy ps i ≡ state_of (get_elem? ps i)
unfolding state_of
busy-state_of [] i = refl
busy-state_of (p ∷ ps) zero = refl
busy-state_of (p ∷ ps) (suc i) = busy-state_of ps i

pub busy_cong :
    (ps qs : List MailPath) (i : ℕ) → get_elem? ps i ≡ get_elem? qs i → busy ps i ≡ busy qs i
busy_cong ps qs i e = busy-state_of ps i ∙ ap state_of e ∙ sym (busy-state_of qs i)

-- What a caller of pathpool_get may rely on.
pub record Handed (ps : List MailPath) (i : ℕ) (ps' : List MailPath) : Type 0 where
  pub was_free : busy ps i ≢ some true
  pub now_busy : busy ps' i ≡ some true
  pub others : (j : ℕ) → j ≢ i → get_elem? ps' j ≡ get_elem? ps j
  pub bounded : length ps ≤ cmail_max_pooled_paths → length ps' ≤ cmail_max_pooled_paths

update-Handed :
    (ps : List MailPath) (i : ℕ) → busy ps i ≡ some false → Handed ps i (update ps i mark)
update-Handed ps i h = record {
  was_free = cc;
  now_busy = busy-update_self ps i mark false true h (λ p. refl);
  others = λ j ne. get_elem?-update_ne ps i j mark ne;
  bounded = λ le. omega (arith, length-update ps i mark);
}

append-Handed :
    (ps : List MailPath) (p : MailPath)
    → length ps < cmail_max_pooled_paths
    → p.in_transaction ≡ true
    → Handed ps (length ps) (ps ++ p ∷ [])
append-Handed ps p room b = record {
  was_free = let e = busy-length ps in cc;
  now_busy = busy-append_self ps p ∙ ap some b;
  others = λ j ne. get_elem?-append_ne ps p j ne;
  bounded = λ le. omega (arith, length-append {0} ps (p ∷ []));
}

grow-Handed :
    (a : PoolAlloc) (ps : List MailPath) (i : ℕ)
    → (grow a ps).0 ≡ some i
    → Handed ps i (grow a ps).1.paths
unfolding grow
grow-Handed a ps i h = elim (Bool-cases (ltb (length ps) cmail_max_pooled_paths)) [
  | inr e ↦ absurd (ground arith)
  | inl e ↦ elim (Bool-cases (a.realloc_ok && a.calloc_ok)) [
    | inr r ↦ absurd (ground arith)
    | inl r ↦
        let same : length ps ≡ i = ground arith in
        let result : (grow a ps).1.paths ≡ ps ++ mark reset_path ∷ [] = ground arith in
        rw (result, ← same) (append-Handed ps (mark reset_path) (ground arith) refl)
  ]
]

reuse-Handed :
    (o : Option ℕ) (a : PoolAlloc) (pool : PathPool) (i : ℕ)
    → find_free pool.paths ≡ o
    → (reuse o a pool).0 ≡ some i
    → Handed pool.paths i (reuse o a pool).1.paths
unfolding reuse
reuse-Handed (some j) a pool i e h =
    let same : j ≡ i = cc in
    rw same (update-Handed pool.paths i (find_free-some pool.paths i (e ∙ h)))
reuse-Handed none a pool i e h = grow-Handed a pool.paths i h

-- pathpool_get hands out a slot that was not in a transaction, marks it, changes no other slot and
-- keeps the pool within its limit.
pub pathpool_get-Handed :
    (a : PoolAlloc) (pool : PathPool) (i : ℕ)
    → (pathpool_get a pool).0 ≡ some i
    → Handed pool.paths i (pathpool_get a pool).1.paths
unfolding pathpool_get
pathpool_get-Handed a pool i h = ground (arith, reuse-Handed (find_free pool.paths) a pool i refl)

-- pathpool_return frees its slot, and changes no other.
pub pathpool_return_frees :
    (pool : PathPool) (i : ℕ)
    → (busy (pathpool_return pool i).paths i ≢ some true)
      × ((j : ℕ) → j ≢ i → get_elem? (pathpool_return pool i).paths j ≡ get_elem? pool.paths j)
unfolding pathpool_return
pathpool_return_frees pool i = (
  busy-update_freed pool.paths i (λ p. record (path_reset p) { in_transaction = false })
      (λ p. refl),
  λ j ne.
      get_elem?-update_ne pool.paths i j (λ p. record (path_reset p) { in_transaction = false }) ne,
)

-- Where no slot is handed out, the paths stay as they are.
pub pathpool_get_refused :
    (a : PoolAlloc) (pool : PathPool)
    → (pathpool_get a pool).0 ≡ none
    → (pathpool_get a pool).1.paths ≡ pool.paths
unfolding pathpool_get
pathpool_get_refused a pool h = ground arith
