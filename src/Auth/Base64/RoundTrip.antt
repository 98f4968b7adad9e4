-- ===== src/Auth/Base64/RoundTrip.antt =====
-- lib/auth.c: decoding what was encoded.
use cmail.Base.{
  ℕ, zero, suc, ◌+◌, ◌*◌, ◌/◌, ◌%◌, ◌<◌, ◌≤◌, Bool, true, false, [], ◌∷◌, ◌++◌, none, some, ◌≡◌,
  ◌≢◌, refl, arith, All, Bytes, length, ◌==◌, ◌&&◌, ◌||◌, not, if◌then◌else◌, replicate, ◌-◌,
}
use cmail.Auth.Base64.{
  push_index, scan, index_of, letter, join_groups, encode_triplets, auth_base64decode,
  auth_base64encode, base64_alphabet,
}

is_inverse : ℕ → Bool
is_inverse i = elim (index_of (letter i) base64_alphabet) [
  | none ↦ false
  | some j ↦ j == i && (if letter i == b'=' then false else true)
]

-- Is each letter of an index below `n` found again?
alphabet_works : ℕ → Bool
alphabet_works zero = true
alphabet_works (suc n) = if is_inverse n then alphabet_works n else false

alphabet_works-is_inverse : (i n : ℕ) → i < n → alphabet_works n ≡ true → is_inverse i ≡ true
unfolding alphabet_works
alphabet_works-is_inverse i (suc n) lt works = ground (arith, alphabet_works-is_inverse i n)
alphabet_works-is_inverse i zero lt works = absurd (omega arith)

letter_table : alphabet_works 64 ≡ true
unfolding alphabet_works is_inverse index_of letter
letter_table = refl

index_of-letter : (i : ℕ) → i < 64 → index_of (letter i) base64_alphabet ≡ some i
unfolding is_inverse
index_of-letter i h = ground (arith, alphabet_works-is_inverse i 64 h letter_table)

letter-ne-pad : (i : ℕ) → i < 64 → (letter i == b'=') ≡ false
unfolding is_inverse
letter-ne-pad i h = ground (arith, alphabet_works-is_inverse i 64 h letter_table)

scan-letter : (i : ℕ) (cs : Bytes) → i < 64 → scan (letter i ∷ cs) ≡ push_index (some i) (scan cs)
unfolding scan
scan-letter i cs h = rw (letter-ne-pad i h, index_of-letter i h)

-- The indices of the letters that encode a text, with 0 for padding, and the bytes of padding.
sextets : Bytes → Bytes
sextets [] = []
sextets (x ∷ []) = let b = x * 65536 in (b / 262144) ∷ (b / 4096 % 64) ∷ 0 ∷ 0 ∷ []
sextets (x ∷ y ∷ []) =
    let b = x * 65536 + y * 256 in (b / 262144) ∷ (b / 4096 % 64) ∷ (b / 64 % 64) ∷ 0 ∷ []
sextets (x ∷ y ∷ z ∷ rest) =
    let b = x * 65536 + y * 256 + z in
    (b / 262144) ∷ (b / 4096 % 64) ∷ (b / 64 % 64) ∷ (b % 64) ∷ sextets rest

abbrev pub pads : Bytes → ℕ
pads [] = 0
pads (x ∷ []) = 2
pads (x ∷ y ∷ []) = 1
pads (x ∷ y ∷ z ∷ rest) = pads rest

abbrev pub AreBytes : Bytes → Type 0
AreBytes = All (λ c. c < 256)

scan-encode_triplets :
    (bs : Bytes)
    → AreBytes bs
    → scan (encode_triplets bs) ≡ some (record { indices = sextets bs; padded_bytes = 3 - pads bs })
unfolding encode_triplets sextets
scan-encode_triplets [] h = unfold scan in refl
scan-encode_triplets (x ∷ []) h =
    rw (scan-letter (x * 65536 / 262144) _ (omega arith))
      (rw (scan-letter (x * 65536 / 4096 % 64) _ (omega arith)) (unfold scan in refl))
scan-encode_triplets (x ∷ y ∷ []) h =
    let b = x * 65536 + y * 256 in
    rw (scan-letter (b / 262144) _ (omega arith)) (
      rw (scan-letter (b / 4096 % 64) _ (omega arith))
        (rw (scan-letter (b / 64 % 64) _ (omega arith)) (unfold scan in refl)))
scan-encode_triplets (x ∷ y ∷ z ∷ rest) h =
    let b = x * 65536 + y * 256 + z in
    rw (scan-letter (b / 262144) _ (omega arith)) (
      rw (scan-letter (b / 4096 % 64) _ (omega arith)) (
        rw (scan-letter (b / 64 % 64) _ (omega arith)) (
          rw (scan-letter (b % 64) _ (omega arith)) (rw (scan-encode_triplets rest h.1.1.1) refl))))

∷_cong₃ :
    {a b c a' b' c' : ℕ} {r r' : Bytes}
    → a ≡ a'
    → b ≡ b'
    → c ≡ c'
    → r ≡ r'
    → a ∷ b ∷ c ∷ r ≡ a' ∷ b' ∷ c' ∷ r'
∷_cong₃ p q s t = cc

join_groups-sextets :
    (bs : Bytes) → AreBytes bs → join_groups (sextets bs) ≡ bs ++ replicate (pads bs) 0
unfolding join_groups sextets
join_groups-sextets [] h = refl
join_groups-sextets (x ∷ []) h = ∷_cong₃ (omega arith) (omega arith) (omega arith) refl
join_groups-sextets (x ∷ y ∷ []) h = ∷_cong₃ (omega arith) (omega arith) (omega arith) refl
join_groups-sextets (x ∷ y ∷ z ∷ rest) h =
    ∷_cong₃ (omega arith) (omega arith) (omega arith) (join_groups-sextets rest h.1.1.1)

-- The encoded text has four letters for each triplet.
length-encode_triplets :
    (bs : Bytes) → (n : ℕ) × (length (encode_triplets bs) ≡ 4 * n) × (3 * n ≡ length bs + pads bs)
unfolding encode_triplets
length-encode_triplets [] = (0, refl, refl)
length-encode_triplets (x ∷ []) = (1, refl, refl)
length-encode_triplets (x ∷ y ∷ []) = (1, refl, refl)
length-encode_triplets (x ∷ y ∷ z ∷ rest) =
    let (n, e, f) = length-encode_triplets rest in (suc n, omega arith, omega arith)

pads_le : (bs : Bytes) → pads bs ≤ 2
pads_le [] = omega arith
pads_le (x ∷ []) = omega arith
pads_le (x ∷ y ∷ []) = omega arith
pads_le (x ∷ y ∷ z ∷ rest) = pads_le rest

well_sized :
    (k n l p : ℕ) → k ≡ 4 * n → 3 * n ≡ l + p → 0 < l → (not (k % 4 == 0) || k == 0) ≡ false
well_sized k n l p e g q = ground arith

decoded_len :
    (n k p l : ℕ) → k ≡ 4 * n → 3 * n ≡ l + p → p ≤ 2 → 0 < l → (k / 4 - 1) * 3 + (3 - p) ≡ l
decoded_len n k p l f g h q = omega arith

-- Decoding an encoded text that is not empty gives the text back: the return value is its length,
-- and the buffer holds it with the zero bytes of the padding behind it.
pub auth_base64decode-encode :
    (bs text : Bytes)
    → bs ≢ []
    → AreBytes bs
    → auth_base64encode true bs ≡ some text
    → auth_base64decode text
      ≡ some (record { len = length bs; bytes = bs ++ replicate (pads bs) 0 })
unfolding auth_base64decode auth_base64encode
auth_base64decode-encode [] text ne h e = absurd (ne refl)
auth_base64decode-encode (b ∷ bs) text ne h e =
    let same : encode_triplets (b ∷ bs) ≡ text = cc in
    let (n, l, g) = length-encode_triplets (b ∷ bs) in
    let sized = well_sized (length (encode_triplets (b ∷ bs))) n _ _ l g (omega arith) in
    let len =
      decoded_len n (length (encode_triplets (b ∷ bs))) _ _ l g (pads_le (b ∷ bs)) (omega arith) in
    rw (← same) (rw (sized, scan-encode_triplets (b ∷ bs) h, len, join_groups-sextets (b ∷ bs) h))
