-- ===== src/Prelude/Bits.antt =====
-- Single bits of a number, and what `bit_and` and `bit_or` do to them.
use Prim.Native.Nat.{ℕ, zero, suc, ◌+◌, ◌*◌, ◌/◌, ◌%◌, ◌^◌, ◌≤◌, ◌<◌, min, max}
use Prim.Native.Nat.{bit_and, bit_or, digits, bitwise, bit_and-bitwise, bit_or-bitwise}
use mathlib.Core.Path.{◌≡◌, refl, ap, sym, ◌∙◌}
use native.Mathlib.Omega.{arith}
use native.Mathlib.Nat.{pow-suc}

-- The native operations stand for a recursion on fuel; the value does not depend on it.
module _ (ends : ℕ → ℕ) (digit : ℕ → ℕ → ℕ) where
  run : ℕ → ℕ → ℕ → ℕ
  run = digits ends digit

  run-zero : (b k : ℕ) → run k zero b ≡ ends b
  unfolding run
  run-zero b zero = refl
  run-zero b (suc k) = refl

  run-any : (b x k l : ℕ) → x ≤ k → x ≤ l → run k x b ≡ run l x b
  unfolding run
  run-any b zero k l hk hl = run-zero b k ∙ sym (run-zero b l)
  run-any b (suc x) zero l hk hl = absurd (omega arith)
  run-any b (suc x) (suc k) zero hk hl = absurd (omega arith)
  run-any b (suc x) (suc k) (suc l) hk hl =
      ap (λ (high : ℕ). high * 2 + digit (suc x % 2) (b % 2))
        (run-any (b / 2) (suc x / 2) k l (omega arith) (omega arith))

  bitwise_low :
      (x b : ℕ)
      → bitwise ends digit (suc x) b
        ≡ bitwise ends digit (suc x / 2) (b / 2) * 2 + digit (suc x % 2) (b % 2)
  unfolding run
  bitwise_low x b =
      ap (λ (high : ℕ). high * 2 + digit (suc x % 2) (b % 2))
        (run-any (b / 2) (suc x / 2) x (suc x / 2) (omega arith) (omega arith))

-- The lowest digit of a disjunction and of a conjunction, and the digits above it.
pub bit_or_split : (x y : ℕ) → bit_or x y ≡ max (x % 2) (y % 2) + bit_or (x / 2) (y / 2) * 2
bit_or_split zero y = simp bit_or-bitwise (omega arith)
bit_or_split (suc x) y = omega (
  arith,
  bit_or-bitwise (suc x) y,
  bit_or-bitwise (suc x / 2) (y / 2),
  bitwise_low (λ rest. rest) max x y,
)

pub bit_and_split : (x y : ℕ) → bit_and x y ≡ min (x % 2) (y % 2) + bit_and (x / 2) (y / 2) * 2
bit_and_split zero y = simp bit_and-bitwise (omega arith)
bit_and_split (suc x) y = omega (
  arith,
  bit_and-bitwise (suc x) y,
  bit_and-bitwise (suc x / 2) (y / 2),
  bitwise_low (λ rest. 0) min x y,
)

-- Bit `i` of a number, 0 or 1.
abbrev pub bit : ℕ → ℕ → ℕ
bit zero x = x % 2
bit (suc i) x = bit i (x / 2)

pub bit-le-one : (i x : ℕ) → bit i x ≤ 1
bit-le-one zero x = omega arith
bit-le-one (suc i) x = bit-le-one i (x / 2)

pub bit-bit_or : (i a b : ℕ) → bit i (bit_or a b) ≡ max (bit i a) (bit i b)
bit-bit_or zero a b = omega (arith, bit_or_split a b)
bit-bit_or (suc i) a b = ap (bit i) half ∙ bit-bit_or i (a / 2) (b / 2)
  where
    half : bit_or a b / 2 ≡ bit_or (a / 2) (b / 2)
    half = omega (arith, bit_or_split a b)

pub bit-bit_and : (i a b : ℕ) → bit i (bit_and a b) ≡ min (bit i a) (bit i b)
bit-bit_and zero a b = omega (arith, bit_and_split a b)
bit-bit_and (suc i) a b = ap (bit i) half ∙ bit-bit_and i (a / 2) (b / 2)
  where
    half : bit_and a b / 2 ≡ bit_and (a / 2) (b / 2)
    half = omega (arith, bit_and_split a b)

no_bits : (bound x : ℕ) → x < bound → bit_and x 0 ≡ 0
no_bits zero x inside = absurd (omega arith)
no_bits (suc bound) zero inside = refl
no_bits (suc bound) (suc x) inside =
    omega (arith, no_bits bound (suc x / 2) (omega arith), bit_and_split (suc x) 0)

pub bit_and-zero : (x : ℕ) → bit_and x 0 ≡ 0
bit_and-zero x = no_bits (suc x) x (omega arith)

-- A mask with one bit tests that bit.
pub bit_and-two_pow : (i a : ℕ) → bit_and a (2 ^ i) ≡ bit i a * 2 ^ i
bit_and-two_pow zero a = omega (arith, bit_and_split a 1, bit_and-zero (a / 2))
bit_and-two_pow (suc i) a = omega (arith, step, bit_and-two_pow i (a / 2), scaled)
  where
    halves : 2 ^ suc i / 2 ≡ 2 ^ i
    halves = omega (arith, pow-suc 2 i)

    even : 2 ^ suc i % 2 ≡ 0
    even = omega (arith, pow-suc 2 i)

    step : bit_and a (2 ^ suc i) ≡ bit_and (a / 2) (2 ^ i) * 2
    step = omega (arith, bit_and_split a (2 ^ suc i), even, ap (bit_and (a / 2)) halves)

    scaled : bit i (a / 2) * 2 ^ suc i ≡ bit i (a / 2) * (2 ^ i * 2)
    scaled = ap (λ (t : ℕ). bit i (a / 2) * t) (omega (arith, pow-suc 2 i))

low_one : (a : ℕ) → bit_and a 1 ≡ a % 2
low_one a = omega (arith, bit_and_split a 1, bit_and-zero (a / 2))

low_two : (a : ℕ) → bit_and a 3 ≡ a % 4
low_two a = omega (arith, bit_and_split a 3, low_one (a / 2))

low_three : (a : ℕ) → bit_and a 7 ≡ a % 8
low_three a = omega (arith, bit_and_split a 7, low_two (a / 2))

low_four : (a : ℕ) → bit_and a 15 ≡ a % 16
low_four a = omega (arith, bit_and_split a 15, low_three (a / 2))

low_five : (a : ℕ) → bit_and a 31 ≡ a % 32
low_five a = omega (arith, bit_and_split a 31, low_four (a / 2))

low_six : (a : ℕ) → bit_and a 63 ≡ a % 64
low_six a = omega (arith, bit_and_split a 63, low_five (a / 2))

-- A mask of seven ones.
pub bit_and-low7 : (a : ℕ) → bit_and a 127 ≡ a % 128
bit_and-low7 a = omega (arith, bit_and_split a 127, low_six (a / 2))

zero-bit_or : (b : ℕ) → bit_or 0 b ≡ b
zero-bit_or b = bit_or-bitwise 0 b

top_zero : (a : ℕ) → a < 1 → bit_or a 1 ≡ a + 1
top_zero zero h = zero-bit_or 1
top_zero (suc a) h = absurd (omega arith)

top_one : (a : ℕ) → a < 2 → bit_or a 2 ≡ a + 2
top_one a h = omega (arith, bit_or_split a 2, top_zero (a / 2) (omega arith))

top_two : (a : ℕ) → a < 4 → bit_or a 4 ≡ a + 4
top_two a h = omega (arith, bit_or_split a 4, top_one (a / 2) (omega arith))

top_three : (a : ℕ) → a < 8 → bit_or a 8 ≡ a + 8
top_three a h = omega (arith, bit_or_split a 8, top_two (a / 2) (omega arith))

top_four : (a : ℕ) → a < 16 → bit_or a 16 ≡ a + 16
top_four a h = omega (arith, bit_or_split a 16, top_three (a / 2) (omega arith))

top_five : (a : ℕ) → a < 32 → bit_or a 32 ≡ a + 32
top_five a h = omega (arith, bit_or_split a 32, top_four (a / 2) (omega arith))

top_six : (a : ℕ) → a < 64 → bit_or a 64 ≡ a + 64
top_six a h = omega (arith, bit_or_split a 64, top_five (a / 2) (omega arith))

-- The top bit of a byte, set over seven bits.
pub bit_or-high : (a : ℕ) → a < 128 → bit_or a 128 ≡ a + 128
bit_or-high a h = omega (arith, bit_or_split a 128, top_six (a / 2) (omega arith))

-- A byte passes the test of its top bit from 128 on.
pub bit_and-high : (a : ℕ) → bit_and a 0x80 ≡ bit 7 a * 128
bit_and-high a = bit_and-two_pow 7 a
