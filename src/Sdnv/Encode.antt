-- ===== src/Sdnv/Encode.antt =====
-- What `encode` writes, in plain arithmetic.
use ns3_dtn.Prelude.{ℕ, zero, suc, ◌+◌, ◌/◌, ◌%◌, ◌^◌, ◌≤◌, ◌<◌, ◌≡◌, refl}
use ns3_dtn.Prelude.{List, [], ◌∷◌, ◌++◌, ◌==◌, if◌then◌else◌, arith, bit_and, bit_or}
use ns3_dtn.Prelude.{length, length-append, All, All-append}
use ns3_dtn.Prelude.Bits.{bit_and-low7, bit_or-high}
use ns3_dtn.Sdnv.{IsByte, IsU64, encode_loop, encode}
use native.Mathlib.Nat.{pow-suc, one-le-pow}
use mathlib.Core.List.{reverse, reverse-append, append_assoc}

-- The groups of seven bits of `v` in front of the last one, highest first.
unfoldable pub high_groups : ℕ → ℕ → List ℕ
high_groups zero v = []
high_groups (suc k) v =
    let rest = high_groups k (v / 128) ++ ((v % 128 + 128) ∷ []) in if v == 0 then [] else rest

-- All groups of `v`, highest first.
unfoldable pub groups : ℕ → List ℕ
unfolding high_groups
groups v = high_groups 10 (v / 128) ++ (v % 128 ∷ [])

inner_byte : (v : ℕ) → bit_or (bit_and v 0x7f) 0x80 ≡ v % 128 + 128
inner_byte v = rw (bit_and-low7) (bit_or-high (v % 128) (omega arith))

reverse-encode_loop :
    (k v : ℕ) (out : List ℕ) → reverse (encode_loop k v out) ≡ high_groups k v ++ reverse out
unfolding encode_loop high_groups
reverse-encode_loop zero v out = refl
reverse-encode_loop (suc k) v out = ground (
  arith,
  inner_byte v,
  reverse-encode_loop k (v / 128) (out ++ ((v % 128 + 128) ∷ [])),
  reverse-append out ((v % 128 + 128) ∷ []),
  append_assoc (high_groups k (v / 128)) ((v % 128 + 128) ∷ []) (reverse out),
)

pub encode-groups : (v : ℕ) → encode v ≡ groups v
unfolding encode groups high_groups
encode-groups v = ground (arith, bit_and-low7 v, reverse-encode_loop 10 (v / 128) (v % 128 ∷ []))

high_groups-IsByte : (k v : ℕ) → All IsByte (high_groups k v)
unfolding high_groups
high_groups-IsByte zero v = tt
high_groups-IsByte (suc k) v = ground (
  arith,
  All-append IsByte (high_groups k (v / 128)) ((v % 128 + 128) ∷ [])
      (high_groups-IsByte k (v / 128)) (omega arith, tt),
)

-- A value below `128 ^ j` has at most `j` groups, however much fuel there is.
length-high_groups : (k j v : ℕ) → v < 128 ^ j → length (high_groups k v) ≤ j
unfolding high_groups
length-high_groups zero j v h = omega arith
length-high_groups (suc k) zero v h = ground arith
length-high_groups (suc k) (suc j) v h = ground (
  arith,
  length-append (high_groups k (v / 128)) ((v % 128 + 128) ∷ []),
  length-high_groups k j (v / 128) (omega (arith, pow-suc 128 j)),
)

-- `encode` writes bytes only, and one to ten of them for a 64-bit value.
pub encode_shape :
    (v : ℕ) → IsU64 v → All IsByte (encode v) × (1 ≤ length (encode v)) × (length (encode v) ≤ 10)
unfolding groups
encode_shape v fits = rw (encode-groups v) (
  All-append IsByte (high_groups 10 (v / 128)) (v % 128 ∷ []) (high_groups-IsByte 10 (v / 128))
      (omega arith, tt),
  omega (arith, length-append (high_groups 10 (v / 128)) (v % 128 ∷ [])),
  omega (
    arith,
    length-append (high_groups 10 (v / 128)) (v % 128 ∷ []),
    length-high_groups 10 9 (v / 128) (omega arith),
  ),
)

high_groups_long : (k j v : ℕ) → 128 ^ j ≤ v → j < k → j < length (high_groups k v)
unfolding high_groups
high_groups_long zero j v h hj = absurd (omega arith)
high_groups_long (suc k) zero v h hj =
    ground (arith, length-append (high_groups k (v / 128)) ((v % 128 + 128) ∷ []))
high_groups_long (suc k) (suc j) v h hj = ground (
  arith,
  length-append (high_groups k (v / 128)) ((v % 128 + 128) ∷ []),
  pow-suc 128 j,
  one-le-pow j 128,
  high_groups_long k j (v / 128) (omega (arith, pow-suc 128 j)),
)

-- The length of an encoding tells the size of the value: `j + 1` bytes hold what is below
-- `128 ^ (j + 1)`, and no more.
pub length-encode-le : (j v : ℕ) → v < 128 ^ suc j → length (encode v) ≤ suc j
unfolding groups
length-encode-le j v h = rw (encode-groups v) (
    omega (
      arith,
      length-append (high_groups 10 (v / 128)) (v % 128 ∷ []),
      length-high_groups 10 j (v / 128) (omega (arith, pow-suc 128 j)),
    ))

pub length-encode-ge : (j v : ℕ) → 128 ^ suc j ≤ v → j < 10 → suc (suc j) ≤ length (encode v)
unfolding groups
length-encode-ge j v h hj = rw (encode-groups v) (
    omega (
      arith,
      length-append (high_groups 10 (v / 128)) (v % 128 ∷ []),
      high_groups_long 10 j (v / 128) (omega (arith, pow-suc 128 j)) hj,
    ))
