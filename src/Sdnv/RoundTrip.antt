-- ===== src/Sdnv/RoundTrip.antt =====
-- `decode` reads back what `encode` wrote.
use ns3_dtn.Prelude.{ℕ, zero, suc, ◌+◌, ◌/◌, ◌%◌, ◌^◌, ◌≤◌, ◌<◌, ◌≡◌, ap, ◌∙◌}
use ns3_dtn.Prelude.{List, [], ◌∷◌, ◌++◌, arith}
use ns3_dtn.Prelude.{some, All, All-append, true, false}
use ns3_dtn.Prelude.Bits.{bit_and-low7, bit_and-high}
use ns3_dtn.Sdnv.{IsU64, encode, is_last, decode_loop, decode_vector, take_number, decode}
use ns3_dtn.Sdnv.Encode.{high_groups, groups, encode-groups}
use native.Mathlib.Nat.{pow-suc}
use mathlib.Core.List.{append_assoc}

-- A byte with its top bit set.
abbrev IsInner : ℕ → Type 0
IsInner b = (128 ≤ b) × (b < 256)

is_last-last : (b : ℕ) → b < 128 → is_last b ≡ true
unfolding is_last
is_last-last b h = ground (arith, bit_and-high b)

is_last-inner : (b : ℕ) → IsInner b → is_last b ≡ false
unfolding is_last
is_last-inner b h = ground (arith, bit_and-high b)

high_groups-IsInner : (k v : ℕ) → All IsInner (high_groups k v)
unfolding high_groups
high_groups-IsInner zero v = tt
high_groups-IsInner (suc k) v = ground (
  arith,
  All-append IsInner (high_groups k (v / 128)) ((v % 128 + 128) ∷ [])
      (high_groups-IsInner k (v / 128)) (omega arith, tt),
)

take_number-inner :
    (high : List ℕ) (vec : List ℕ) (l : ℕ) (start : List ℕ)
    → All IsInner high
    → l < 128
    → take_number vec (high ++ (l ∷ start)) ≡ some (vec ++ (high ++ (l ∷ [])), start)
unfolding take_number
take_number-inner [] vec l start hs hl = rw (is_last-last l hl)
take_number-inner (b ∷ high) vec l start (hb, hs) hl = rw (is_last-inner b hb) (
    take_number-inner high (vec ++ (b ∷ [])) l start hs hl
    ∙ ap (λ (t : List ℕ). some (t, start)) (append_assoc vec (b ∷ []) (high ++ (l ∷ []))))

-- One round of the loop, on a byte that is not the last and on one that is.
decode_loop-inner :
    (v : ℕ) (rest : List ℕ)
    → IsU64 v
    → decode_loop (v / 128) ((v % 128 + 128) ∷ rest) ≡ decode_loop v rest
unfolding decode_loop
decode_loop-inner v rest fits =
    rw (is_last-inner (v % 128 + 128) (omega arith), bit_and-low7 (v % 128 + 128))
      (ap (λ (t : ℕ). decode_loop t rest) (omega arith))

decode_loop-last : (v : ℕ) → IsU64 v → decode_loop (v / 128) (v % 128 ∷ []) ≡ v
unfolding decode_loop
decode_loop-last v fits =
    rw (is_last-last (v % 128) (omega arith), bit_and-low7 (v % 128)) (omega arith)

decode_loop-high :
    (k v : ℕ) (rest : List ℕ)
    → v < 128 ^ k
    → IsU64 v
    → decode_loop 0 (high_groups k v ++ rest) ≡ decode_loop v rest
unfolding high_groups
decode_loop-high zero v rest h fits = ap (λ (t : ℕ). decode_loop t rest) (omega arith)
decode_loop-high (suc k) v rest h fits = ground (
  arith,
  append_assoc (high_groups k (v / 128)) ((v % 128 + 128) ∷ []) rest,
  decode_loop-high k (v / 128) ((v % 128 + 128) ∷ rest) (omega (arith, pow-suc 128 k))
      (omega arith),
  decode_loop-inner v rest fits,
)

decode_vector-groups : (v : ℕ) → IsU64 v → decode_vector (groups v) ≡ v
unfolding decode_vector groups
decode_vector-groups v fits =
    decode_loop-high 10 (v / 128) (v % 128 ∷ []) (omega arith) (omega arith)
    ∙ decode_loop-last v fits

-- `Decode` on a vector returns the 64-bit value that `Encode` was given.
pub decode_vector-encode : (v : ℕ) → IsU64 v → decode_vector (encode v) ≡ v
decode_vector-encode v fits = rw (encode-groups v) (decode_vector-groups v fits)

-- `Decode` on an iterator returns the 64-bit value that `Encode` was given, and leaves the bytes
-- behind it unread.
pub decode-encode : (v : ℕ) (rest : List ℕ) → IsU64 v → decode (encode v ++ rest) ≡ some (v, rest)
unfolding decode groups
decode-encode v rest fits =
    rw
      (
        encode-groups v,
        append_assoc (high_groups 10 (v / 128)) (v % 128 ∷ []) rest,
        take_number-inner (high_groups 10 (v / 128)) [] (v % 128) rest
            (high_groups-IsInner 10 (v / 128)) (omega arith),
      )
      (ap (λ (t : ℕ). some (t, rest)) (decode_vector-groups v fits))
