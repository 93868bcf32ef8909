-- ===== src/Sdnv.antt =====
-- model/sdnv.cc: self-delimiting numeric values, seven bits a byte, the highest group first, with
-- the top bit set on every byte but the last.
pub mod Encode
pub mod RoundTrip
pub mod Truncated
use ns3_dtn.Prelude.{ℕ, zero, suc, ◌+◌, ◌*◌, ◌/◌, ◌%◌, ◌^◌, ◌<◌, ◌≡◌, Bool, true, false}
use ns3_dtn.Prelude.{List, [], ◌∷◌, ◌++◌, Option, none, some, ◌>>=◌, bit_and, bit_or}
use ns3_dtn.Prelude.{◌==◌, if◌then◌else◌, arith}
use mathlib.Core.List.{reverse}

abbrev pub IsByte : ℕ → Type 0
IsByte b = b < 256

abbrev pub IsU64 : ℕ → Type 0
IsU64 v = v < 2 ^ 64

-- `while (val) { … data.push_back (encoded); }`. Every round drops seven bits of a 64-bit value, so
-- ten rounds of fuel are enough.
encode_loop : ℕ → ℕ → List ℕ → List ℕ
encode_loop zero val data' = data'
encode_loop (suc fuel) val data' =
    let rest = encode_loop fuel (val / 2 ^ 7) (data' ++ (bit_or (bit_and val 0x7f) 0x80 ∷ [])) in
    if val == 0 then data' else rest

unfoldable pub encode : ℕ → List ℕ
unfolding encode_loop
encode val =
    if val == 0 then 0 ∷ [] else reverse (encode_loop 10 (val / 2 ^ 7) (bit_and val 0x7f ∷ []))

-- `(val & 0x80) == 0`, also the test in the loop of `Decode`.
unfoldable pub is_last : ℕ → Bool
is_last val = bit_and val 0x80 == 0

-- The loop of `Decode` over a vector; `decoded <<= 7` and `+=` wrap at 64 bits.
decode_loop : ℕ → List ℕ → ℕ
decode_loop decoded [] = decoded
decode_loop decoded (b ∷ val) =
    let decoded' = (decoded * 2 ^ 7 % 2 ^ 64 + bit_and b 0x7f) % 2 ^ 64 in
    let rest = decode_loop decoded' val in if is_last b then decoded' else rest

unfoldable pub decode_vector : List ℕ → ℕ
unfolding decode_loop
decode_vector val = decode_loop 0 val

-- The bytes up to the last byte of a number, and the bytes behind it. `none` is a read past the end
-- of the buffer.
take_number : List ℕ → List ℕ → Option (List ℕ × List ℕ)
take_number vec [] = none
take_number vec (val ∷ start) =
    let rest = take_number (vec ++ (val ∷ [])) start in
    if is_last val then some (vec ++ (val ∷ []), start) else rest

-- `Decode` on an iterator, given as the bytes that it has left.
unfoldable pub decode : List ℕ → Option (ℕ × List ℕ)
unfolding take_number decode_vector
decode start = take_number [] start >>= λ (vec, rest). some (decode_vector vec, rest)
