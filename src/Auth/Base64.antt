-- ===== src/Auth/Base64.antt =====
-- lib/auth.c, auth_base64decode and auth_base64encode. Both work in place; here they map bytes to
-- bytes. Decoding group g writes the bytes 3 g to 3 g + 3 and the groups behind it are read from
-- 4 g + 4 on; encoding runs from the last triplet to the first, which it writes from 4 t on and
-- reads up to 3 t + 2: neither overwrites what it has still to read. The `|` of the source joins
-- numbers with no common bit, and is `+` here.
pub mod RoundTrip
use cmail.Base.{
  ℕ, zero, suc, ◌+◌, ◌-◌, ◌*◌, ◌/◌, ◌%◌, Bool, true, false, not, ◌&&◌, ◌||◌, List, [], ◌∷◌, ◌++◌,
  Option, none, some, String, ◌==◌, leb, ltb, if◌then◌else◌, Bytes, codes, length, get_elem?, take,
  replicate,
}

abbrev pub base64_alphabet : Bytes
base64_alphabet = codes "ABCDEFGHIJKLMNOPQRSTUVWXYZabcdefghijklmnopqrstuvwxyz0123456789+/"

-- `index(base64_alphabet, c) - base64_alphabet`
unfoldable pub index_of : ℕ → Bytes → Option ℕ
index_of c [] = none
index_of c (a ∷ as') =
    let rest = index_of c as' in
    if a == c then some 0 else elim rest [ none ↦ none | some i ↦ some (suc i) ]

-- the inner loop over the padding: only `=` may follow the first `=`
unfoldable pub all_pads : Bytes → Bool
all_pads [] = true
all_pads (c ∷ cs) = c == b'=' && all_pads cs

pub record Scanned : Type 0 where
  pub indices : Bytes
  pub padded_bytes : ℕ

-- at the first `=`, with `left` bytes from it to the end
abbrev pub scan_pads : ℕ → Bytes → Option Scanned
scan_pads left cs =
    if leb left 2 && all_pads cs
    then some (record { indices = replicate left 0; padded_bytes = 3 - left })
    else none

abbrev pub push_index : Option ℕ → Option Scanned → Option Scanned
push_index none r = none
push_index (some i) none = none
push_index (some i) (some r) = some (record r { indices = i ∷ r.indices })

-- the loop that replaces each byte by its index in the alphabet
unfoldable pub scan : Bytes → Option Scanned
unfolding index_of all_pads
scan [] = some (record { indices = []; padded_bytes = 3 })
scan (c ∷ cs) =
    let rest = scan cs in
    if c == b'='
    then scan_pads (suc (length cs)) cs
    else push_index (index_of c base64_alphabet) rest

-- the loop over the groups of four indices
unfoldable pub join_groups : Bytes → Bytes
join_groups (a ∷ b ∷ c ∷ d ∷ rest) =
    let decode_buffer = a * 262144 + b * 4096 + c * 64 + d in
    (decode_buffer / 65536 % 256)
    ∷ (decode_buffer / 256 % 256)
    ∷ (decode_buffer % 256)
    ∷ join_groups rest
join_groups _ = []

-- What decoding leaves: the return value, and the bytes of all the groups. A 0 follows these in
-- the buffer.
pub record Decoded : Type 0 where
  pub len : ℕ
  pub bytes : Bytes

abbrev pub to_decoded : ℕ → Option Scanned → Option Decoded
to_decoded n none = none
to_decoded n (some s) =
    some (record { len = (n / 4 - 1) * 3 + s.padded_bytes; bytes = join_groups s.indices })

-- `none` is the return value -1.
unfoldable pub auth_base64decode : Bytes → Option Decoded
unfolding scan join_groups
auth_base64decode input =
    if not (length input % 4 == 0) || length input == 0
    then none
    else to_decoded (length input) (scan input)

-- `base64_alphabet[i]`
unfoldable pub letter : ℕ → ℕ
letter i = elim (get_elem? base64_alphabet i) [ none ↦ 0 | some c ↦ c ]

-- One triplet. The bytes behind the data are 0, and padding replaces the letters that they give.
unfoldable pub encode_triplets : Bytes → Bytes
unfolding letter
encode_triplets [] = []
encode_triplets (x ∷ []) =
    let b = x * 65536 in letter (b / 262144) ∷ letter (b / 4096 % 64) ∷ b'=' ∷ b'=' ∷ []
encode_triplets (x ∷ y ∷ []) =
    let b = x * 65536 + y * 256 in
    letter (b / 262144) ∷ letter (b / 4096 % 64) ∷ letter (b / 64 % 64) ∷ b'=' ∷ []
encode_triplets (x ∷ y ∷ z ∷ rest) =
    let b = x * 65536 + y * 256 + z in
    letter (b / 262144)
    ∷ letter (b / 4096 % 64)
    ∷ letter (b / 64 % 64)
    ∷ letter (b % 64)
    ∷ encode_triplets rest

-- `alloc` is the answer of realloc; `none` is the return value -1.
unfoldable pub auth_base64encode : Bool → Bytes → Option Bytes
unfolding encode_triplets
auth_base64encode alloc input = if alloc then some (encode_triplets input) else none
