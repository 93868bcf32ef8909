-- ===== src/Prelude/Decimal/RoundTrip.antt =====
-- `sscanf` reads the numbers that `sprintf` has written.
use ns3_dtn.Prelude.Tests.{ltb, ◌==◌, Bool-cases}
use ns3_dtn.Prelude.Lists.{All, All-append, length, length-append}
use ns3_dtn.Prelude.Decimal.{
  digits_of, print_unsigned, is_digit, is_space, skip_spaces, scan_digits, scan_number, scan_signed,
  scan_int, behind_dot, scan_first, scan_second, signed_digits, scan_long,
}
use Prim.Native.Nat.{ℕ, zero, suc, ◌+◌, ◌*◌, ◌/◌, ◌%◌, ◌^◌, ◌<◌, ◌≤◌}
use native.Mathlib.Omega.{arith}
use native.Mathlib.Nat.{pow-suc}
use mathlib.Core.Path.{◌≡◌, refl, sym, ap, ◌∙◌}
use mathlib.Core.Logic.{inl, inr, ◌≢◌}
use mathlib.Core.Bool.{true, false}
use mathlib.Core.List.{List, [], ◌∷◌, ◌++◌, append_assoc, append-nil}
use mathlib.Core.Option.{Option, some}

abbrev IsDigit : ℕ → Type 0
IsDigit c = is_digit c ≡ true

-- A text that does not go on with a digit.
abbrev pub Stops : List ℕ → Type 0
Stops [] = Unit {0}
Stops (c ∷ s) = is_digit c ≡ false

-- A digit is in front.
digits_of-first : (f n : ℕ) → (c : ℕ) × (s : List ℕ) × (digits_of f n ≡ c ∷ s) × IsDigit c
unfolding digits_of
digits_of-first zero n = (b'0' + n % 10, [], refl, ground arith)
digits_of-first (suc f) n = elim (Bool-cases (ltb n 10)) [
  | inl e ↦ (b'0' + n, [], rw e refl, ground arith)
  | inr e ↦
      let (c, s, split, digit) = digits_of-first f (n / 10) in
      (
        c,
        s ++ ((b'0' + n % 10) ∷ []),
        rw e (ap (λ (ds : List ℕ). ds ++ ((b'0' + n % 10) ∷ [])) split),
        digit,
      )
]

scan_digits-digit :
    (acc d n : ℕ) (t : List ℕ)
    → d < 10
    → acc * 10 + d ≡ n
    → scan_digits acc ((b'0' + d) ∷ t) ≡ scan_digits n t
unfolding scan_digits
scan_digits-digit acc d n t h e = rw digit (ap (λ (k : ℕ). scan_digits k t) (omega (arith, e)))
  where
    digit : is_digit (b'0' + d) ≡ true
    digit = ground (arith, h)

scan_digits-digits_of :
    (f n : ℕ) (t : List ℕ) → n < 10 ^ suc f → scan_digits 0 (digits_of f n ++ t) ≡ scan_digits n t
unfolding digits_of
scan_digits-digits_of zero n t h = scan_digits-digit 0 (n % 10) n t (omega arith) (omega arith)
scan_digits-digits_of (suc f) n t h = elim (Bool-cases (ltb n 10)) [
  | inl e ↦ rw e (scan_digits-digit 0 n n t (ground arith) (omega arith))
  | inr e ↦ rw e (
      ap (scan_digits 0) (append_assoc (digits_of f (n / 10)) _ t)
      ∙ scan_digits-digits_of f (n / 10) _ (omega (arith, pow-suc 10 (suc f), h))
      ∙ scan_digits-digit (n / 10) (n % 10) n t (omega arith) (omega arith))
]

scan_digits-Stops : (n : ℕ) (t : List ℕ) → Stops t → scan_digits n t ≡ (n, t)
unfolding scan_digits
scan_digits-Stops n [] h = refl
scan_digits-Stops n (c ∷ t) h = rw h refl

-- The number and the text behind it.
abbrev narrowed : ℕ × List ℕ → Option (ℕ × List ℕ)
narrowed (n, r) = some (n % 2 ^ 32, r)

scan_int-IsDigit :
    (c : ℕ) (s : List ℕ) → IsDigit c → scan_int (c ∷ s) ≡ narrowed (scan_digits 0 (c ∷ s))
unfolding scan_int skip_spaces scan_signed scan_number scan_digits
scan_int-IsDigit c s digit = rw no_space (rw (no_minus, no_plus) (rw digit refl))
  where
    no_space : is_space c ≡ false
    no_space = ground (arith, digit)

    no_minus : (c == b'-') ≡ false
    no_minus = ground (arith, digit)

    no_plus : (c == b'+') ≡ false
    no_plus = ground (arith, digit)

scan_long-IsDigit :
    (c : ℕ) (s : List ℕ) → IsDigit c → scan_long (c ∷ s) ≡ (false, (scan_digits 0 (c ∷ s)).0)
unfolding scan_long skip_spaces signed_digits scan_digits
scan_long-IsDigit c s digit = rw no_space (rw (no_minus, no_plus) refl)
  where
    no_space : is_space c ≡ false
    no_space = ground (arith, digit)

    no_minus : (c == b'-') ≡ false
    no_minus = ground (arith, digit)

    no_plus : (c == b'+') ≡ false
    no_plus = ground (arith, digit)

scan_int-print_unsigned :
    (n : ℕ) (t : List ℕ) → n < 2 ^ 32 → Stops t → scan_int (print_unsigned n ++ t) ≡ some (n, t)
unfolding print_unsigned
scan_int-print_unsigned n t small stops =
    let (c, s, split, digit) = digits_of-first 9 n in
    let front = ap (λ (ds : List ℕ). ds ++ t) split in
    ap scan_int front
    ∙ scan_int-IsDigit c (s ++ t) digit
    ∙ ap (λ (ds : List ℕ). narrowed (scan_digits 0 ds)) (sym front)
    ∙ ap narrowed (scan_digits-digits_of 9 n t (omega (arith, small)) ∙ scan_digits-Stops n t stops)
    ∙ ap (λ (k : ℕ). some (k, t)) (omega (arith, small))

-- `sscanf` with "%d.%d" reads back two numbers of 32 bits that `sprintf` has written with "%u.%u".
pub scan-print_unsigned :
    (node service : ℕ)
    → node < 2 ^ 32
    → service < 2 ^ 32
    → let text = print_unsigned node ++ (b'.' ∷ print_unsigned service) in
      (scan_first text ≡ some node) × (scan_second text ≡ some service)
unfolding scan_first scan_second behind_dot
scan-print_unsigned node service small fits =
    let first = scan_int-print_unsigned node (b'.' ∷ print_unsigned service) small refl in
    let second =
      ap scan_int (sym (append-nil (print_unsigned service)))
      ∙ scan_int-print_unsigned service [] fits tt in
    (rw first refl, rw first (rw second refl))

-- `strtoll` reads it as well.
pub scan_long-print_unsigned :
    (n : ℕ) (t : List ℕ) → n < 2 ^ 32 → Stops t → scan_long (print_unsigned n ++ t) ≡ (false, n)
unfolding print_unsigned
scan_long-print_unsigned n t small stops =
    let (c, s, split, digit) = digits_of-first 9 n in
    let front = ap (λ (ds : List ℕ). ds ++ t) split in
    ap scan_long front
    ∙ scan_long-IsDigit c (s ++ t) digit
    ∙ ap (λ (ds : List ℕ). (false, (scan_digits 0 ds).0)) (sym front)
    ∙ ap (λ (p : ℕ × List ℕ). (false, p.0))
        (scan_digits-digits_of 9 n t (omega (arith, small)) ∙ scan_digits-Stops n t stops)

digits_of-other : (x f n : ℕ) → x < b'0' → All (λ c. c ≢ x) (digits_of f n)
unfolding digits_of
digits_of-other x zero n low = (λ e. absurd (omega (arith, e, low)), tt)
digits_of-other x (suc f) n low = elim (Bool-cases (ltb n 10)) [
  | inl e ↦ rw e (λ z. absurd (omega (arith, z, low)), tt)
  | inr e ↦ rw e (
      All-append (λ c. c ≢ x) (digits_of f (n / 10)) _ (digits_of-other x f (n / 10) low)
        (λ z. absurd (omega (arith, z, low)), tt))
]

-- Such a text is of digits only, so no byte in front of them in ASCII is in it.
pub print_unsigned-other : (x n : ℕ) → x < b'0' → All (λ c. c ≢ x) (print_unsigned n)
unfolding print_unsigned
print_unsigned-other x n low = digits_of-other x 9 n low

pub print_unsigned-nonzero : (n : ℕ) → All (λ c. c ≢ 0) (print_unsigned n)
print_unsigned-nonzero n = print_unsigned-other 0 n (omega arith)

digits_of-length : (f n : ℕ) → (1 ≤ length (digits_of f n)) × (length (digits_of f n) ≤ suc f)
unfolding digits_of
digits_of-length zero n = (omega arith, omega arith)
digits_of-length (suc f) n = elim (Bool-cases (ltb n 10)) [
  | inl e ↦ rw e (omega arith, omega arith)
  | inr e ↦ rw e (
    omega (arith, length-append (digits_of f (n / 10)) ((b'0' + n % 10) ∷ [])),
    omega (
      arith,
      length-append (digits_of f (n / 10)) ((b'0' + n % 10) ∷ []),
      digits_of-length f (n / 10),
    ),
  )
]

pub length-print_unsigned :
    (n : ℕ) → (1 ≤ length (print_unsigned n)) × (length (print_unsigned n) ≤ 10)
unfolding print_unsigned
length-print_unsigned n = digits_of-length 9 n
