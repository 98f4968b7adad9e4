-- ===== src/Sasl/Plain.antt =====
-- lib/sasl.c: the PLAIN message of RFC 4616, [authzid] NUL authcid NUL passwd.
use native.Mathlib.Nat.{add_assoc}
use mathlib.Core.List.{append_assoc}
use cmail.Base.{
  ℕ, zero, suc, ◌+◌, ◌<◌, true, false, [], ◌∷◌, ◌++◌, some, ◌≡◌, ◌≢◌, refl, ap, ◌∙◌, arith, Bytes,
  c_str, length, drop, All, length-append, replicate, ltb, drop_add,
}
use cmail.Auth.Base64.RoundTrip.{AreBytes, pads, auth_base64decode-encode}
use cmail.Auth.Base64.{auth_base64encode}
use cmail.Sasl.{Sasl, sasl_plain, sasl_data_ok, sasl_continue, accept_offsets, find_offsets}

abbrev pub NoNul : Bytes → Type 0
NoNul = All (λ c. (c ≢ 0) × (c < 256))

c_str-append : (xs rest : Bytes) → NoNul xs → c_str (xs ++ (0 ∷ rest)) ≡ xs
c_str-append [] rest h = refl
c_str-append (x ∷ xs) rest h = ground (arith, c_str-append xs rest)

drop-append : (n : ℕ) (xs rest : Bytes) → n ≡ length xs + 1 → drop n (xs ++ (0 ∷ rest)) ≡ rest
drop-append zero xs rest h = absurd (omega arith)
drop-append (suc n) [] rest h = let e : n ≡ 0 = omega arith in rw e
drop-append (suc n) (x ∷ xs) rest h = drop-append n xs rest (omega arith)

-- the buffer behind a decoded message
abbrev message : Bytes → Bytes → Bytes → Bytes → Bytes
message az user pass zeros = az ++ (0 ∷ (user ++ (0 ∷ (pass ++ (0 ∷ zeros)))))

abbrev user_at : Bytes → ℕ
user_at az = length az + 1

abbrev pass_at : Bytes → Bytes → ℕ
pass_at az user = user_at az + length user + 1

module _ (az user pass zeros : Bytes) (ha : NoNul az) (hu : NoNul user) (hp : NoNul pass) where
  abbrev buffer : Bytes
  buffer = message az user pass zeros

  drop-user_at : drop (user_at az) buffer ≡ user ++ (0 ∷ (pass ++ (0 ∷ zeros)))
  drop-user_at = drop-append (user_at az) az _ refl

  drop-pass_at : drop (pass_at az user) buffer ≡ pass ++ (0 ∷ zeros)
  drop-pass_at =
      ap (λ n. drop n buffer) (add_assoc (user_at az) (length user) 1)
      ∙ drop_add (user_at az) (length user + 1) buffer
      ∙ ap (drop (length user + 1)) drop-user_at
      ∙ drop-append (length user + 1) user _ refl

  find_offsets_message :
      (len : ℕ)
      → 0 < length user
      → len ≡ pass_at az user + length pass + 1
      → find_offsets len buffer
        ≡ some (record { off_user = user_at az; off_pass = pass_at az user })
  unfolding find_offsets
  find_offsets_message len nonempty e = ground (
    arith,
    ap length (c_str-append az (user ++ (0 ∷ (pass ++ (0 ∷ zeros)))) ha),
    ap (λ t. length (c_str t)) drop-user_at,
    ap length (c_str-append user (pass ++ (0 ∷ zeros)) hu),
    ap (λ t. length (c_str t)) drop-pass_at,
    ap length (c_str-append pass zeros hp),
  )

  accept_offsets_message :
      (len : ℕ) (s : Sasl)
      → 0 < length user
      → len ≡ pass_at az user + length pass + 1
      → accept_offsets true buffer (find_offsets len buffer) s ≡ (
        record s { user = record s.user { authenticated = some user } },
        record { status = sasl_data_ok; response = some pass },
      )
  unfolding accept_offsets
  accept_offsets_message len s nonempty e = rw (find_offsets_message len nonempty e) (
      rw (
        drop-user_at,
        drop-pass_at,
        c_str-append user (pass ++ (0 ∷ zeros)) hu,
        c_str-append pass zeros hp,
      ))

abbrev snoc : Bytes → ℕ → Bytes
snoc xs x = xs ++ x ∷ []

replicate-snoc : (k : ℕ) → snoc (replicate k 0) 0 ≡ 0 ∷ replicate k 0
replicate-snoc zero = refl
replicate-snoc (suc k) = ap (◌∷◌ 0) (replicate-snoc k)

AreBytes-append : (xs ys : Bytes) → AreBytes xs → AreBytes ys → AreBytes (xs ++ ys)
AreBytes-append [] ys p q = q
AreBytes-append (x ∷ xs) ys p q = (p.0, AreBytes-append xs ys p.1 q)

NoNul-AreBytes : (xs : Bytes) → NoNul xs → AreBytes xs
NoNul-AreBytes [] h = tt
NoNul-AreBytes (x ∷ xs) h = (h.0.1, NoNul-AreBytes xs h.1)

abbrev pub plain_message : Bytes → Bytes → Bytes → Bytes
plain_message az user pass = az ++ (0 ∷ (user ++ (0 ∷ pass)))

padded_message :
    (az user pass : Bytes) (k : ℕ)
    → (plain_message az user pass ++ replicate k 0) ++ 0 ∷ [] ≡ message az user pass (replicate k 0)
padded_message az user pass k = simp append_assoc (rw (replicate-snoc k))

length-plain_message :
    (az user pass : Bytes)
    → length (plain_message az user pass) + 1 ≡ pass_at az user + length pass + 1
length-plain_message az user pass =
    omega
      (arith, length-append {0} az (0 ∷ (user ++ (0 ∷ pass))), length-append {0} user (0 ∷ pass))

plain_message-AreBytes :
    (az user pass : Bytes)
    → NoNul az
    → NoNul user
    → NoNul pass
    → AreBytes (plain_message az user pass)
plain_message-AreBytes az user pass ha hu hp =
    AreBytes-append az (0 ∷ (user ++ (0 ∷ pass))) (NoNul-AreBytes az ha) (
      omega arith,
      AreBytes-append user (0 ∷ pass) (NoNul-AreBytes user hu)
          (omega arith, NoNul-AreBytes pass hp),
    )

-- PLAIN reads the message of RFC 4616 as it is meant: a client that sends the base64 text of an
-- authorization identity, a user name that is not empty and a password, none of them with a NUL,
-- is taken to be that user with that password, if the copy of the name can be allocated. Nothing
-- is authorized yet.
pub sasl_continue_plain :
    (az user pass text : Bytes) (s : Sasl)
    → NoNul az
    → NoNul user
    → NoNul pass
    → 0 < length user
    → auth_base64encode true (plain_message az user pass) ≡ some text
    → sasl_continue true sasl_plain text s ≡ (
      record s { user = record s.user { authenticated = some user } },
      record { status = sasl_data_ok; response = some pass },
    )
unfolding sasl_continue
sasl_continue_plain az user pass text s ha hu hp nonempty e =
    let msg = plain_message az user pass in
    let l = length-plain_message az user pass in
    let bytes = plain_message-AreBytes az user pass ha hu hp in
    let decoded =
      auth_base64decode-encode msg text (λ n. absurd (omega (arith, l, ap length n))) bytes e in
    let sized : ltb (length msg + 1) 4 ≡ false = ground arith in
    rw decoded (
      rw (sized, padded_message az user pass (pads msg))
        (accept_offsets_message az user pass _ ha hu hp (length msg + 1) s nonempty l))
