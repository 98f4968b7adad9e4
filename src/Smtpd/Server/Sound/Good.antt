-- ===== src/Smtpd/Server/Sound/Good.antt =====
-- cmail-smtpd/coreloop.c: the clients in the slots of their pool, and the slots of the pool of paths that
-- they hold.
use cmail.Base.{
  ℕ, Bool, true, List, [], ◌∷◌, Option, none, some, ◌≡◌, ◌≢◌, ◌⊎◌, inl, inr, refl, sym, ◌∙◌, arith,
  get_elem?, Bool-cases, ◌==◌, ==_iff,
}
use mathlib.Core.Path.{subst}
use cmail.Common.Accept.Seats.{seat}
use cmail.Smtpd.Types.{MailPath}
use cmail.Smtpd.PathPool.{PathPool}
use cmail.Smtpd.Mail.Reset.{IsOutside}
use cmail.Smtpd.Session.{Session, Listener, is_authenticated}
use cmail.Smtpd.Relay.{MayReceive, AllMayReceive}
use cmail.Smtpd.Relay.Others.{Untouched}
use cmail.Smtpd.Relay.Foreign.{IsForeign}
use cmail.Smtpd.Relay.Sound.{IsSound, IsSound-recipients, others-IsSound}
use cmail.Smtpd.Client.{Client}
use cmail.Smtpd.Server.{Server, with_pool}

-- `x` is one of the slots.
abbrev pub Holds : ℕ → List ℕ → Type 0
Holds x [] = ⊥
Holds x (i ∷ is) = (x ≡ i) ⊎ Holds x is

IsOutside-of : (x : ℕ) (is : List ℕ) → (Holds x is → ⊥) → IsOutside x is
IsOutside-of x [] h = tt
IsOutside-of x (i ∷ is) h = (λ e. h (inl e), IsOutside-of x is (λ k. h (inr k)))

not_inside : (x : ℕ) (is : List ℕ) → IsOutside x is → Holds x is → ⊥
not_inside x [] h k = absurd k
not_inside x (i ∷ is) h (inl e) = h.0 e
not_inside x (i ∷ is) h (inr k) = not_inside x is h.1 k

received_at :
    (auth : Bool) (ps : List MailPath) (is : List ℕ) (x : ℕ)
    → AllMayReceive auth ps is
    → Holds x is
    → MayReceive auth (get_elem? ps x)
received_at auth ps [] x m k = absurd k
received_at auth ps (i ∷ is) x m (inl e) = subst (λ j. MayReceive auth (get_elem? ps j)) (sym e) m.0
received_at auth ps (i ∷ is) x m (inr k) = received_at auth ps is x m.1 k

Untouched-of :
    (ps qs : List MailPath) (is : List ℕ)
    → ((x : ℕ) → Holds x is → get_elem? qs x ≡ get_elem? ps x)
    → Untouched ps qs is
Untouched-of ps qs [] h = tt
Untouched-of ps qs (i ∷ is) h = (h i (inl refl), Untouched-of ps qs is (λ x k. h x (inr k)))

abbrev pub client_at : Server → ℕ → Option Client
client_at sv i = seat sv.clients.conns i

abbrev pub recipients : Option Client → List ℕ
recipients none = []
recipients (some c) = c.session.current_mail.forward_paths

-- A client with the pool of paths as it is
abbrev pub OnSound : PathPool → Option Client → Type 0
OnSound pool none = Unit
OnSound pool (some c) = IsSound (with_pool c pool).session

-- All clients are sound, and no two of them hold the same slot.
pub record IsGood (pool : PathPool) (who : ℕ → Option Client) : Type 0 where
  pub sound : (i : ℕ) → OnSound pool (who i)
  pub apart : (i j x : ℕ) → i ≢ j → Holds x (recipients (who i)) → Holds x (recipients (who j)) → ⊥

-- A client that leaves the slots of others alone
abbrev pub Respects : Session → Session → Type 0
Respects s t =
    (x : ℕ) (p : MailPath) (used : p.in_transaction ≡ true)
    → IsForeign x p used s
    → IsForeign x p used t

-- What another client holds is foreign.
foreign_slot :
    (auth : Bool) (s : Session) (x : ℕ) (o : Option MailPath)
    → get_elem? s.pool.paths x ≡ o
    → MayReceive auth o
    → (Holds x s.current_mail.forward_paths → ⊥)
    → (t : Session) → Respects s t
    → (get_elem? t.pool.paths x ≡ get_elem? s.pool.paths x)
      × (Holds x t.current_mail.forward_paths → ⊥)
foreign_slot auth s x none e m h t r = absurd m
foreign_slot auth s x (some p) e m h t r =
    let k =
      r x p m.0 (record { held = e; outside = IsOutside-of x s.current_mail.forward_paths h }) in
    (k.held ∙ sym e, not_inside x t.current_mail.forward_paths k.outside)

other_slot :
    (s : Session) (o : Option Client) (t : Session)
    → OnSound s.pool o
    → ((x : ℕ) → Holds x (recipients o) → Holds x s.current_mail.forward_paths → ⊥)
    → Respects s t
    → (x : ℕ) → Holds x (recipients o)
    → (get_elem? t.pool.paths x ≡ get_elem? s.pool.paths x)
      × (Holds x t.current_mail.forward_paths → ⊥)
other_slot s none t h apart r x k = absurd k
other_slot s (some c) t h apart r x k =
    foreign_slot (is_authenticated c.session) s x (get_elem? s.pool.paths x) refl
      (received_at (is_authenticated c.session) s.pool.paths c.session.current_mail.forward_paths x
        (IsSound-recipients (with_pool c s.pool).session h) k)
      (apart x k) t r

other_sound :
    (s : Session) (o : Option Client) (t : Session) (l : Listener)
    → OnSound s.pool o
    → ((x : ℕ) → Holds x (recipients o) → get_elem? t.pool.paths x ≡ get_elem? s.pool.paths x)
    → OnSound t.pool o
other_sound s none t l h u = tt
other_sound s (some c) t l h u =
    others-IsSound l (with_pool c s.pool).session t.pool
      (Untouched-of s.pool.paths t.pool.paths c.session.current_mail.forward_paths u) h

same_or : (j i : ℕ) → (j ≡ i) ⊎ (j ≢ i)
same_or j i = elim (Bool-cases (j == i)) [
  | inl e ↦ inl ((==_iff j i).0 e)
  | inr e ↦ inr (λ k. absurd (ground (arith, e, k)))
]

-- One client is served, and respects what the others hold.
module _ (l : Listener) (pool : PathPool) (who who' : ℕ → Option Client) (i : ℕ) (c d : Client)
    (e : who i ≡ some c) (e' : who' i ≡ some d) (others : (j : ℕ) → j ≢ i → who' j ≡ who j)
    (sound : IsSound (with_pool c pool).session → IsSound d.session)
    (respects : Respects (with_pool c pool).session d.session) (g : IsGood pool who) where
  kept_slot :
      (j : ℕ)
      → j ≢ i
      → (x : ℕ) → Holds x (recipients (who j))
      → (get_elem? d.session.pool.paths x ≡ get_elem? pool.paths x)
        × (Holds x d.session.current_mail.forward_paths → ⊥)
  kept_slot j ne =
      other_slot (with_pool c pool).session (who j) d.session (g.sound j)
        (λ x a b. g.apart j i x ne a (subst (λ o. Holds x (recipients o)) (sym e) b)) respects

  sound_at : (j : ℕ) → (j ≡ i) ⊎ (j ≢ i) → OnSound d.session.pool (who' j)
  sound_at j (inl k) =
      subst (λ m. OnSound d.session.pool (who' m)) (sym k)
        (subst (OnSound d.session.pool) (sym e') (sound (subst (OnSound pool) e (g.sound i))))
  sound_at j (inr k) = subst (OnSound d.session.pool) (sym (others j k)) (
      other_sound (with_pool c pool).session (who j) d.session l (g.sound j)
        (λ x h. (kept_slot j k x h).0))

  as_before : (j x : ℕ) → j ≢ i → Holds x (recipients (who' j)) → Holds x (recipients (who j))
  as_before j x k = subst (λ o. Holds x (recipients o)) (others j k)

  served-Holds :
      (j x : ℕ)
      → j ≡ i
      → Holds x (recipients (who' j))
      → Holds x d.session.current_mail.forward_paths
  served-Holds j x k h =
      subst (λ o. Holds x (recipients o)) e' (subst (λ m. Holds x (recipients (who' m))) k h)

  apart_at :
      (a b x : ℕ)
      → a ≢ b
      → (a ≡ i) ⊎ (a ≢ i)
      → (b ≡ i) ⊎ (b ≢ i)
      → Holds x (recipients (who' a))
      → Holds x (recipients (who' b))
      → ⊥
  apart_at a b x ne (inl k) (inl m) h h' = ne (k ∙ sym m)
  apart_at a b x ne (inl k) (inr m) h h' =
      (kept_slot b m x (as_before b x m h')).1 (served-Holds a x k h)
  apart_at a b x ne (inr k) (inl m) h h' =
      (kept_slot a k x (as_before a x k h)).1 (served-Holds b x m h')
  apart_at a b x ne (inr k) (inr m) h h' = g.apart a b x ne (as_before a x k h) (as_before b x m h')

  pub served-IsGood : IsGood d.session.pool who'
  served-IsGood = record {
    sound = λ j. sound_at j (same_or j i);
    apart = λ a b x ne. apart_at a b x ne (same_or a i) (same_or b i);
  }

-- Each slot has who it had, or nobody with recipients.
abbrev pub IsIdle : Option Client → Type 0
IsIdle none = Unit
IsIdle (some c) = c.session.current_mail.forward_paths ≡ []

idle_sound : (pool : PathPool) (o : Option Client) → IsIdle o → OnSound pool o
idle_sound pool none h = tt
idle_sound pool (some c) h = inr h

idle_empty : (o : Option Client) (x : ℕ) → IsIdle o → Holds x (recipients o) → ⊥
idle_empty none x h k = k
idle_empty (some c) x h k = subst (Holds x) h k

pub seated-IsGood :
    (pool : PathPool) (who who' : ℕ → Option Client)
    → ((j : ℕ) → (who' j ≡ who j) ⊎ IsIdle (who' j))
    → IsGood pool who
    → IsGood pool who'
seated-IsGood pool who who' h g = record {
  sound = λ j. sound_at j (h j);
  apart = λ a b x ne. apart_at a b x ne (h a) (h b);
}
  where
    sound_at : (j : ℕ) → (who' j ≡ who j) ⊎ IsIdle (who' j) → OnSound pool (who' j)
    sound_at j (inl e) = subst (OnSound pool) (sym e) (g.sound j)
    sound_at j (inr k) = idle_sound pool (who' j) k

    apart_at :
        (a b x : ℕ)
        → a ≢ b
        → (who' a ≡ who a) ⊎ IsIdle (who' a)
        → (who' b ≡ who b) ⊎ IsIdle (who' b)
        → Holds x (recipients (who' a))
        → Holds x (recipients (who' b))
        → ⊥
    apart_at a b x ne (inr k) m p q = idle_empty (who' a) x k p
    apart_at a b x ne (inl k) (inr m) p q = idle_empty (who' b) x m q
    apart_at a b x ne (inl k) (inl m) p q =
        g.apart a b x ne (subst (λ o. Holds x (recipients o)) k p)
          (subst (λ o. Holds x (recipients o)) m q)
