-- ===== src/Popd/Functions/Stuffing.antt =====
-- cmail-popd/popfunctions.c, pop_retr: the mail on the wire.
use mathlib.Core.List.{append-nil}
use cmail.Base.{
  ℕ, zero, suc, ◌<◌, Bool, true, false, ◌&&◌, List, [], ◌∷◌, ◌++◌, none, some, ◌≡◌, refl, sym, ap,
  ◌∙◌, arith, ◌==◌, if◌then◌else◌, codes, Bytes, has_prefix, length, Option-cases, Bool-cases, inl,
  inr,
}
use cmail.Popd.Types.{Reply, line, raw}
use cmail.Popd.Functions.{split_dot, send_piece, send_stuffed, send_mail}

-- What the replies of a mail put on the wire; the others do not occur there.
unfoldable pub wire : List Reply → Bytes
wire [] = []
wire (line f ∷ rs) = codes f ++ wire rs
wire (raw b ∷ rs) = b ++ wire rs
wire (_ ∷ rs) = wire rs

abbrev pub is_break : ℕ → ℕ → Bool
is_break a b = a == 13 && b == 10

-- Byte by byte, behind the bytes `a` and `b`: a dot that begins a line is doubled.
unfoldable pub stuff : ℕ → ℕ → Bytes → Bytes
stuff a b [] = []
stuff a b (c ∷ cs) =
    let rest = stuff b c cs in if is_break a b && c == 46 then 46 ∷ 46 ∷ rest else c ∷ rest

abbrev starts : Bytes → Bool
starts = has_prefix (codes "\r\n.")

-- No break with a dot reaches from `a` and `b` into the text.
abbrev IsApart : ℕ → ℕ → Bytes → Type 0
IsApart a b text = (starts (a ∷ b ∷ text) ≡ false) × (starts (b ∷ text) ≡ false)

stuff_without :
    (a b : ℕ) (text : Bytes) → split_dot text ≡ none → IsApart a b text → stuff a b text ≡ text
unfolding split_dot stuff has_prefix
stuff_without a b [] e h = refl
stuff_without a b (c ∷ cs) e h = ground (arith, stuff_without b c cs)

abbrev IsSplit : ℕ → ℕ → Bytes → Bytes → Bytes → Type 0
IsSplit a b text x y =
    (stuff a b text ≡ x ++ (13 ∷ 10 ∷ 46 ∷ 46 ∷ stuff 10 46 y)) × (length y < length text)

split_later :
    (c : ℕ) (cs x y : Bytes)
    → starts (c ∷ cs) ≡ false
    → split_dot (c ∷ cs) ≡ some (x, y)
    → (x' : Bytes) × (split_dot cs ≡ some (x', y)) × (x ≡ c ∷ x')
unfolding split_dot
split_later c cs x y n e = elim (Option-cases (split_dot cs)) [
  | inl z ↦ absurd (ground arith)
  | inr (p, z) ↦ (p.0, ground arith, ground arith)
]

split_now :
    (c : ℕ) (cs x y : Bytes)
    → starts (c ∷ cs) ≡ true
    → split_dot (c ∷ cs) ≡ some (x, y)
    → (x ≡ []) × (c ∷ cs ≡ 13 ∷ 10 ∷ 46 ∷ y)
unfolding split_dot has_prefix
split_now c [] x y s e = absurd (ground arith)
split_now c (d ∷ []) x y s e = absurd (ground arith)
split_now c (d ∷ f ∷ t) x y s e = ground arith

stuff_now : (a b : ℕ) (y : Bytes) → stuff a b (13 ∷ 10 ∷ 46 ∷ y) ≡ 13 ∷ 10 ∷ 46 ∷ 46 ∷ stuff 10 46 y
unfolding stuff
stuff_now a b y = ground arith

stuff_apart :
    (a b c : ℕ) (cs : Bytes) → IsApart a b (c ∷ cs) → stuff a b (c ∷ cs) ≡ c ∷ stuff b c cs
unfolding stuff has_prefix
stuff_apart a b c cs h = ground arith

stuff_at :
    (a b : ℕ) (text x y : Bytes)
    → split_dot text ≡ some (x, y)
    → IsApart a b text
    → IsSplit a b text x y
unfolding split_dot
stuff_at a b [] x y e h = absurd cc
stuff_at a b (c ∷ cs) x y e h = elim (Bool-cases (starts (c ∷ cs))) [
  | inl s ↦
      let (p, q) = split_now c cs x y s e in
      (
        ap (stuff a b) q
            ∙ stuff_now a b y
            ∙ ap (λ z. z ++ (13 ∷ 10 ∷ 46 ∷ 46 ∷ stuff 10 46 y)) (sym p),
        omega (arith, ap length q),
      )
  | inr s ↦
      let (x', e', p) = split_later c cs x y s e in
      let (later, lt) = stuff_at b c cs x' y e' (h.1, s) in
      (
        stuff_apart a b c cs h
            ∙ ap (◌∷◌ c) later
            ∙ ap (λ z. z ++ (13 ∷ 10 ∷ 46 ∷ 46 ∷ stuff 10 46 y)) (sym p),
        omega (arith, lt),
      )
]

send_stuffed_lem :
    (fuel a b : ℕ) (text : Bytes)
    → length text < fuel
    → IsApart a b text
    → wire (send_stuffed fuel text) ≡ stuff a b text
unfolding send_stuffed wire has_prefix
send_stuffed_lem zero a b text lt h = absurd (omega arith)
send_stuffed_lem (suc fuel) a b text lt h = elim (Option-cases (split_dot text)) [
  | inl e ↦
      ap (λ o. wire (send_piece (send_stuffed fuel) text o)) e
      ∙ append-nil text
      ∙ sym (stuff_without a b text e h)
  | inr ((x, y), e) ↦
      let (s, shorter) = stuff_at a b text x y e h in
      ap (λ o. wire (send_piece (send_stuffed fuel) text o)) e
      ∙ ap (λ z. x ++ (13 ∷ 10 ∷ 46 ∷ 46 ∷ z))
          (send_stuffed_lem fuel 10 46 y (omega arith) (ground arith))
      ∙ sym s
]

stuff_frame :
    (a a' b : ℕ) (text : Bytes)
    → (a == 13) ≡ false
    → (a' == 13) ≡ false
    → stuff a b text ≡ stuff a' b text
unfolding stuff
stuff_frame a a' b [] h k = refl
stuff_frame a a' b (c ∷ cs) h k = rw (h, k) refl

wire_first :
    (b : Bool) (rs : List Reply)
    → wire ((if b then line "." ∷ [] else []) ++ rs) ≡ (if b then 46 ∷ wire rs else wire rs)
unfolding wire
wire_first true rs = refl
wire_first false rs = refl

stuff_first :
    (c : ℕ) (cs s : Bytes)
    → s ≡ c ∷ stuff 10 c cs
    → (if has_prefix (codes ".") (c ∷ cs) then 46 ∷ s else s) ≡ stuff 13 10 (c ∷ cs)
unfolding stuff has_prefix
stuff_first c cs s e = ground arith

sent_stuffed :
    (c : ℕ) (cs : Bytes) → wire (send_stuffed (suc (length (c ∷ cs))) (c ∷ cs)) ≡ c ∷ stuff 10 c cs
unfolding has_prefix
sent_stuffed c cs =
    send_stuffed_lem (suc (length (c ∷ cs))) 0 0 (c ∷ cs) (omega arith) (refl, refl)
    ∙ stuff_apart 0 0 c cs (refl, refl)
    ∙ ap (◌∷◌ c) (stuff_frame 0 10 c cs refl refl)

-- pop_retr puts the mail on the wire as it is, but for each dot at the start of the mail or behind a
-- line break, which is sent twice.
pub send_mail-stuff : (text : Bytes) → wire (send_mail text) ≡ stuff 13 10 text
unfolding send_mail has_prefix stuff
send_mail-stuff [] = send_stuffed_lem 1 0 0 [] (omega arith) (refl, refl)
send_mail-stuff (c ∷ cs) =
    wire_first (has_prefix (codes ".") (c ∷ cs)) (send_stuffed (suc (length (c ∷ cs))) (c ∷ cs))
    ∙ stuff_first c cs _ (sent_stuffed c cs)

-- Byte by byte, behind the bytes `a` and `b`: a dot that begins a line is left out.
pub unstuff : ℕ → ℕ → Bytes → Bytes
unstuff a b [] = []
unstuff a b (c ∷ cs) =
    let rest = unstuff b c cs in if is_break a b && c == 46 then rest else c ∷ rest

unstuff_frame :
    (a a' b : ℕ) (text : Bytes)
    → (a == 13) ≡ false
    → (a' == 13) ≡ false
    → unstuff a b text ≡ unstuff a' b text
unfolding unstuff
unstuff_frame a a' b [] h k = refl
unstuff_frame a a' b (c ∷ cs) h k = rw (h, k) refl

unstuff-stuff : (a b : ℕ) (text : Bytes) → unstuff a b (stuff a b text) ≡ text
unfolding unstuff stuff
unstuff-stuff a b [] = refl
unstuff-stuff a b (c ∷ cs) =
    ground (arith, unstuff-stuff b c cs, unstuff_frame 46 10 46 (stuff 10 46 cs) refl refl)

-- A client that leaves out the dot at the start of each line gets from pop_retr the very mail, with
-- every dot that began a line of it.
pub unstuff-send_mail : (text : Bytes) → unstuff 13 10 (wire (send_mail text)) ≡ text
unstuff-send_mail text = ap (unstuff 13 10) (send_mail-stuff text) ∙ unstuff-stuff 13 10 text
