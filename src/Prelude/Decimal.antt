-- ===== src/Prelude/Decimal.antt =====
-- Decimal numbers as C's `printf ("%u")` and `sscanf ("%d.%d")` treat them.
pub mod RoundTrip
use ns3_dtn.Prelude.Tests.{ltb, leb, ◌==◌, if◌then◌else◌, ◌>>=◌}
use Prim.Native.Nat.{ℕ, zero, suc, ◌+◌, ◌-◌, ◌*◌, ◌/◌, ◌%◌, ◌^◌}
use mathlib.Core.Bool.{Bool, true, false, ◌&&◌, ◌||◌}
use mathlib.Core.List.{List, [], ◌∷◌, ◌++◌}
use mathlib.Core.Option.{Option, none, some}

-- At most `f + 1` digits, the highest first.
unfoldable pub digits_of : ℕ → ℕ → List ℕ
digits_of zero n = (b'0' + n % 10) ∷ []
digits_of (suc f) n =
    let front = digits_of f (n / 10) in
    if ltb n 10 then (b'0' + n) ∷ [] else front ++ ((b'0' + n % 10) ∷ [])

-- `%u` of a 32-bit number, which has at most ten digits.
unfoldable pub print_unsigned : ℕ → List ℕ
unfolding digits_of
print_unsigned n = digits_of 9 n

abbrev pub is_digit : ℕ → Bool
is_digit c = leb b'0' c && leb c b'9'

-- White space of the C locale, which `%d` skips.
abbrev pub is_space : ℕ → Bool
is_space c = c == b' ' || (leb 9 c && leb c 13)

skip_spaces : List ℕ → List ℕ
skip_spaces [] = []
skip_spaces (c ∷ s) = let rest = skip_spaces s in if is_space c then rest else c ∷ s

-- The digits at the front, on top of `acc`, and the text behind them.
scan_digits : ℕ → List ℕ → ℕ × List ℕ
scan_digits acc [] = (acc, [])
scan_digits acc (c ∷ s) =
    let rest = scan_digits (acc * 10 + (c - b'0')) s in if is_digit c then rest else (acc, c ∷ s)

-- One digit at least.
scan_number : List ℕ → Option (ℕ × List ℕ)
unfolding scan_digits
scan_number [] = none
scan_number (c ∷ s) = if is_digit c then some (scan_digits 0 (c ∷ s)) else none

-- A sign at the front, and the number behind it, in 32 bits.
scan_signed : List ℕ → Option (ℕ × List ℕ)
unfolding scan_number
scan_signed [] = none
scan_signed (c ∷ s) =
    if c == b'-'
    then (scan_number s >>= λ (n, r). some ((2 ^ 32 - n % 2 ^ 32) % 2 ^ 32, r))
    else if c == b'+'
    then (scan_number s >>= λ (n, r). some (n % 2 ^ 32, r))
    else (scan_number (c ∷ s) >>= λ (n, r). some (n % 2 ^ 32, r))

-- `%d` into an `unsigned`: white space, a sign, digits. A number that `int` cannot hold is
-- undefined in C; it wraps here.
scan_int : List ℕ → Option (ℕ × List ℕ)
unfolding skip_spaces scan_signed
scan_int s = scan_signed (skip_spaces s)

-- The text behind a dot, where the format asks for one.
behind_dot : List ℕ → Option (List ℕ)
behind_dot [] = none
behind_dot (c ∷ s) = if c == b'.' then some s else none

-- The two numbers of `sscanf (s, "%d.%d", &n, &s)`; `none` where it leaves the variable unset. A
-- number that an `int` cannot hold, for which C++ defines nothing, wraps around.
unfoldable pub scan_first : List ℕ → Option ℕ
unfolding scan_int
scan_first s = scan_int s >>= λ (n, r). some n

unfoldable pub scan_second : List ℕ → Option ℕ
unfolding scan_int behind_dot
scan_second s = scan_int s >>= λ (n, r). behind_dot r >>= λ t. scan_int t >>= λ (m, u). some m

-- A sign and the number of the digits, 0 if there are none.
signed_digits : List ℕ → Bool × ℕ
unfolding scan_digits
signed_digits [] = (false, 0)
signed_digits (c ∷ s) =
    if c == b'-'
    then (true, (scan_digits 0 s).0)
    else if c == b'+'
    then (false, (scan_digits 0 s).0)
    else (false, (scan_digits 0 (c ∷ s)).0)

-- `strtoll (s, NULL, 10)`: whether it is negative, and its size, not yet cut to 64 bits.
unfoldable pub scan_long : List ℕ → Bool × ℕ
unfolding skip_spaces signed_digits
scan_long s = signed_digits (skip_spaces s)
