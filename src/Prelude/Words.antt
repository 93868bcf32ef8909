-- ===== src/Prelude/Words.antt =====
-- Flag words of 32 and 8 bits: `word |= mask`, `word &= ~mask` and the test `word & mask`.
use ns3_dtn.Prelude.Bits.{bit, bit-le-one, bit-bit_or, bit-bit_and, bit_and-two_pow}
use ns3_dtn.Prelude.Tests.{◌==◌, if◌then◌else◌}
use Prim.Native.Nat.{ℕ, zero, suc, ◌-◌, ◌*◌, ◌^◌, ◌≤◌, ◌<◌}
use Prim.Native.Nat.{bit_and, bit_or}
use mathlib.Core.Path.{◌≡◌, refl, ap}
use mathlib.Core.Logic.{◌⊎◌, inl, inr}
use mathlib.Core.Bool.{Bool, true, false, not, ◌&&◌}
use native.Mathlib.Omega.{arith}
use native.Mathlib.Nat.{one-le-pow}

-- The word of `w` ones.
abbrev pub ones : ℕ → ℕ
ones w = 2 ^ w - 1

-- `if (value) word |= mask; else word &= ~mask;` on a word of `w` bits.
unfoldable pub put_mask : ℕ → ℕ → Bool → ℕ → ℕ
put_mask w mask value word = if value then bit_or word mask else bit_and word (ones w - mask)

-- `word & mask`, converted to `bool`.
unfoldable pub has_mask : ℕ → ℕ → Bool
has_mask mask word = not (bit_and word mask == 0)

-- Whether a test holds of every index of a word of `w` bits, and what that says of one of them.
at_every_bit : (ℕ → Bool) → ℕ → Bool
at_every_bit test zero = true
at_every_bit test (suc w) = at_every_bit test w && test w

at_bit : (test : ℕ → Bool) (i w : ℕ) → i < w → at_every_bit test w ≡ true → test i ≡ true
unfolding at_every_bit
at_bit test i zero inside holds = absurd (omega arith)
at_bit test i (suc w) inside holds = ground (arith, at_bit test i w)

-- Bit `j` of the mask `1 << i` and of its complement in `w` bits.
mask_row : ℕ → ℕ → ℕ → Bool
mask_row w i j =
    (bit j (2 ^ i) == (if i == j then 1 else 0))
    && (bit j (ones w - 2 ^ i) == (if i == j then 0 else 1))

mask_table : ℕ → Bool
unfolding at_every_bit mask_row
mask_table w = at_every_bit (λ i. at_every_bit (mask_row w i) w) w

mask_row_of_table : (w i j : ℕ) → mask_table w ≡ true → i < w → j < w → mask_row w i j ≡ true
unfolding mask_table
mask_row_of_table w i j e hi hj =
    at_bit (mask_row w i) j w hj (at_bit (λ i. at_every_bit (mask_row w i) w) i w hi e)

pub data IsWordSize : ℕ → Type 0 where
  eight : {w : ℕ} → w ≡ 8 → IsWordSize w
  thirty_two : {w : ℕ} → w ≡ 32 → IsWordSize w

mask_table_holds : {w : ℕ} → IsWordSize w → mask_table w ≡ true
unfolding mask_table
mask_table_holds (eight e) = rw e refl
mask_table_holds (thirty_two e) = rw e refl

module _ {w : ℕ} (size : IsWordSize w) (i j : ℕ) (hi : i < w) (hj : j < w) where
  row : mask_row w i j ≡ true
  row = mask_row_of_table w i j (mask_table_holds size) hi hj

  bit-mask : bit j (2 ^ i) ≡ (if i == j then 1 else 0)
  unfolding mask_row
  bit-mask = ground (arith, row)

  bit-complement : bit j (ones w - 2 ^ i) ≡ (if i == j then 0 else 1)
  unfolding mask_row
  bit-complement = ground (arith, row)

  pub bit-put_mask :
      (value : Bool) (word : ℕ)
      → bit j (put_mask w (2 ^ i) value word)
        ≡ (if i == j then (if value then 1 else 0) else bit j word)
  unfolding put_mask
  bit-put_mask true word = ground (arith, bit-bit_or j word (2 ^ i), bit-mask, bit-le-one j word)
  bit-put_mask false word =
      ground (arith, bit-bit_and j word (ones w - 2 ^ i), bit-complement, bit-le-one j word)

-- The test of a flag reads its bit.
pub has_mask-bit : (j word : ℕ) → has_mask (2 ^ j) word ≡ (bit j word == 1)
unfolding has_mask
has_mask-bit j word = elim (zero_or_one (bit-le-one j word)) [
  | inl e ↦ ground (arith, bit_and-two_pow j word, ap (λ (t : ℕ). t * 2 ^ j) e)
  | inr e ↦ ground (arith, bit_and-two_pow j word, ap (λ (t : ℕ). t * 2 ^ j) e, one-le-pow j 2)
]
  where
    zero_or_one : {b : ℕ} → b ≤ 1 → (b ≡ 0) ⊎ (b ≡ 1)
    zero_or_one h = omega arith

-- One flag reads as it was written, and every other flag as before.
pub has_mask-put_mask :
    {w : ℕ}
    → IsWordSize w
    → (i j : ℕ) → i < w
    → j < w
    → (value : Bool) (word : ℕ)
    → has_mask (2 ^ j) (put_mask w (2 ^ i) value word)
      ≡ (if i == j then value else has_mask (2 ^ j) word)
has_mask-put_mask {w} size i j hi hj value word =
    rw (has_mask-bit, has_mask-bit, bit-put_mask size i j hi hj value word) (ground arith)
