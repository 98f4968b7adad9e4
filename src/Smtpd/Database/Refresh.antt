-- ===== src/Smtpd/Database/Refresh.antt =====
-- cmail-smtpd/database.c: which databases are attached after database_refresh.
use cmail.Base.{
  Bool, true, false, not, ◌&&◌, ◌||◌, List, [], ◌∷◌, Option, none, some, ◌≡◌, refl, sym, ap, ◌∙◌,
  arith, if◌then◌else◌, Bytes, str_eq, str_eq_iff, is_one_of, is_some, Option-cases, inl, inr, pos,
}
use cmail.Smtpd.Database.{
  UserDatabase, empty_db, Opening, attach_in, database_userdb, find_in, is_named, activate,
  deactivate, detach_inactive, refresh_rows, database_refresh,
}

-- Whether a database of this name is attached, and whether one that is attached is active
unfoldable pub holds : Bytes → List UserDatabase → Bool
holds name [] = false
holds name (u ∷ us) = is_named name u.file_name || holds name us

unfoldable pub has_active : Bytes → List UserDatabase → Bool
has_active name [] = false
has_active name (u ∷ us) = (u.active && is_named name u.file_name) || has_active name us

-- A slot that is not open has no name and is not active.
abbrev pub IsTidy : List UserDatabase → Type 0
IsTidy [] = Unit
IsTidy (u ∷ us) = ((u.is_open || (not (is_some u.file_name) && not u.active)) ≡ true) × IsTidy us

abbrev pub all_ok : Opening
all_ok = record {
  users_alloc = true;
  realloc_ok = true;
  entry_alloc = true;
  opens = true;
  prepares = true;
  copies = true;
}

-- What attaching does if nothing fails
abbrev added : Bytes → List UserDatabase → List UserDatabase
added name [] = record empty_db { is_open = true; file_name = some name } ∷ []
added name (u ∷ us) =
    let later = added name us in
    if u.is_open then u ∷ later else record u { is_open = true; file_name = some name } ∷ us

attach_in-ok :
    (name : Bytes) (us : List UserDatabase)
    → attach_in all_ok name us ≡ (some (added name us), pos 0)
unfolding attach_in
attach_in-ok name [] = refl
attach_in-ok name (u ∷ us) = rw (attach_in-ok name us) (ground arith)

added-IsTidy : (name : Bytes) (us : List UserDatabase) → IsTidy us → IsTidy (added name us)
added-IsTidy name [] h = (refl, tt)
added-IsTidy name (u ∷ us) h = ground (arith, added-IsTidy name us h.1)

holds-added :
    (n name : Bytes) (us : List UserDatabase)
    → IsTidy us
    → holds n (added name us) ≡ (holds n us || str_eq name n)
unfolding holds
holds-added n name [] h = ground arith
holds-added n name (u ∷ us) h = ground (arith, holds-added n name us h.1)

has_active-added :
    (n name : Bytes) (us : List UserDatabase)
    → IsTidy us
    → has_active n (added name us) ≡ has_active n us
unfolding has_active
has_active-added n name [] h = refl
has_active-added n name (u ∷ us) h = ground (arith, has_active-added n name us h.1)

activate-IsTidy : (name : Bytes) (us : List UserDatabase) → IsTidy us → IsTidy (activate name us)
unfolding activate
activate-IsTidy name [] h = tt
activate-IsTidy name (u ∷ us) h = ground (arith, activate-IsTidy name us h.1)

holds-activate : (n name : Bytes) (us : List UserDatabase) → holds n (activate name us) ≡ holds n us
unfolding holds activate
holds-activate n name [] = refl
holds-activate n name (u ∷ us) = ground (arith, holds-activate n name us)

same_name :
    (n name : Bytes) (o : Option Bytes) → is_named name o ≡ true → is_named n o ≡ str_eq name n
same_name n name none h = absurd cc
same_name n name (some f) h = ap (λ x. str_eq x n) ((str_eq_iff f name).0 h)

has_active-activate :
    (n name : Bytes) (us : List UserDatabase)
    → holds name us ≡ true
    → has_active n (activate name us) ≡ (has_active n us || str_eq name n)
unfolding holds has_active activate
has_active-activate n name [] h = absurd cc
has_active-activate n name (u ∷ us) h =
    ground (arith, has_active-activate n name us, same_name n name u.file_name)

deactivate-IsTidy : (us : List UserDatabase) → IsTidy us → IsTidy (deactivate us)
unfolding deactivate
deactivate-IsTidy [] h = tt
deactivate-IsTidy (u ∷ us) h = ground (arith, deactivate-IsTidy us h.1)

holds-deactivate : (n : Bytes) (us : List UserDatabase) → holds n (deactivate us) ≡ holds n us
unfolding holds deactivate
holds-deactivate n [] = refl
holds-deactivate n (u ∷ us) = ground (arith, holds-deactivate n us)

has_active-deactivate : (n : Bytes) (us : List UserDatabase) → has_active n (deactivate us) ≡ false
unfolding has_active deactivate
has_active-deactivate n [] = refl
has_active-deactivate n (u ∷ us) = ground (arith, has_active-deactivate n us)

holds-detach_inactive :
    (n : Bytes) (us : List UserDatabase) → holds n (detach_inactive us) ≡ has_active n us
unfolding holds has_active detach_inactive
holds-detach_inactive n [] = refl
holds-detach_inactive n (u ∷ us) = ground (arith, holds-detach_inactive n us)

find_in-holds : (n : Bytes) (us : List UserDatabase) → is_some (find_in n us) ≡ holds n us
unfolding find_in holds
find_in-holds n [] = refl
find_in-holds n (u ∷ us) = ground (arith, find_in-holds n us)

same_holds :
    (name n : Bytes) (us : List UserDatabase) → str_eq name n ≡ true → holds n us ≡ holds name us
same_holds name n us e = ap (λ x. holds x us) (sym ((str_eq_iff name n).0 e))

new_name :
    (s a o h hn : Bool)
    → (s ≡ true → h ≡ hn)
    → hn ≡ false
    → ((a || s) || (o && not (h || s))) ≡ (a || ((s || o) && not h))
new_name true a o h hn e f = rw (e refl, f) (ground arith)
new_name false a o h hn e f = ground arith

old_name : (s o h hn : Bool) → (s ≡ true → h ≡ hn) → hn ≡ true → (h || o) ≡ (h || (s || o))
old_name true o h hn e f = rw (e refl, f) refl
old_name false o h hn e f = refl

old_active :
    (s a o h hn : Bool)
    → (s ≡ true → h ≡ hn)
    → hn ≡ true
    → (a || (o && not h)) ≡ (a || ((s || o) && not h))
old_active true a o h hn e f = rw (e refl, f) (ground arith)
old_active false a o h hn e f = refl

-- What the loop over the rows has made of an array, if no statement and no allocation fails
record IsRefreshed (names : List Bytes) (us us' : List UserDatabase) : Type 0 where
  tidy : IsTidy us'
  kept : (n : Bytes) → holds n us' ≡ (holds n us || is_one_of n names)
  active :
      (n : Bytes) → has_active n us' ≡ (has_active n us || (is_one_of n names && not (holds n us)))

refresh_rows-IsRefreshed :
    (o : Bytes → Opening) (names : List Bytes) (us : List UserDatabase)
    → ((n : Bytes) → o n ≡ all_ok)
    → IsTidy us
    → (us' : List UserDatabase) × (refresh_rows o names true (some us) ≡ (some us', pos 0))
      × IsRefreshed names us us'
unfolding refresh_rows
refresh_rows-IsRefreshed o [] us ok h =
    (us, refl, record { tidy = h; kept = λ n. ground arith; active = λ n. ground arith })
refresh_rows-IsRefreshed o (name ∷ names) us ok h = elim (Option-cases (find_in name us)) [
  | inl new ↦
      let us1 = activate name (added name us) in
      let out : holds name us ≡ false = rw (← find_in-holds name us, new) refl in
      let here : holds name (added name us) ≡ true =
        rw (holds-added name name us h) (ground (arith, str_eq_iff name name)) in
      let (us', run, r) =
        refresh_rows-IsRefreshed o names us1 ok
          (activate-IsTidy name (added name us) (added-IsTidy name us h)) in
      (
        us',
        rw (new, ok name, attach_in-ok name us) run,
        record {
          tidy = r.tidy;
          kept = λ n.
              r.kept n
              ∙ rw (holds-activate n name (added name us), holds-added n name us h) (ground arith);
          active = λ n.
              r.active n
              ∙ rw
                  (
                    has_active-activate n name (added name us) here,
                    has_active-added n name us h,
                    holds-activate n name (added name us),
                    holds-added n name us h,
                  )
                  (new_name (str_eq name n) (has_active n us) (is_one_of n names) (holds n us)
                    (holds name us) (same_holds name n us) out);
        },
      )
  | inr (u, old) ↦
      let is_in : holds name us ≡ true = rw (← find_in-holds name us, old) refl in
      let (us', run, r) = refresh_rows-IsRefreshed o names us ok h in
      (
        us',
        rw old run,
        record {
          tidy = r.tidy;
          kept = λ n.
              r.kept n
              ∙ old_name (str_eq name n) (is_one_of n names) (holds n us) (holds name us)
                  (same_holds name n us) is_in;
          active = λ n.
              r.active n
              ∙ old_active (str_eq name n) (has_active n us) (is_one_of n names) (holds n us)
                  (holds name us) (same_holds name n us) is_in;
        },
      )
]

-- If nothing fails, then after database_refresh just those databases are attached which the query
-- names and which were not attached before: each one that was is closed, named or not.
pub database_refresh_toggles :
    (o : Bytes → Opening) (names : List Bytes) (us : List UserDatabase) (n : Bytes)
    → ((m : Bytes) → o m ≡ all_ok)
    → IsTidy us
    → is_some (database_userdb (database_refresh o true names true (some us)).0 n)
      ≡ (is_one_of n names && not (holds n us))
unfolding database_refresh database_userdb
database_refresh_toggles o names us n ok h =
    let (us', run, r) =
      refresh_rows-IsRefreshed o names (deactivate us) ok (deactivate-IsTidy us h) in
    rw run (
      find_in-holds n (detach_inactive us')
      ∙ holds-detach_inactive n us'
      ∙ r.active n
      ∙ rw (has_active-deactivate n us, holds-deactivate n us) refl)
