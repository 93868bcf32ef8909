-- ===== src/Cbor.antt =====
-- model/codec.h is a copy of the library cbor-lite. What the headers of version 7 call of it is a
-- parameter: the functions that append an item to a vector, by the bytes appended, and those that
-- read one, by the value and the bytes left, with `none` for the exception. Every one of them
-- returns the number of bytes that it appends or reads.
use ns3_dtn.Prelude.{ℕ, ◌^◌, ◌<◌, ◌≤◌, ◌≡◌, ◌≢◌, List, [], ◌∷◌, ◌++◌, Option, some, length}

pub record Cbor : Type 0 where
  pub encode_array_size : ℕ → List ℕ
  pub encode_integer : ℕ → List ℕ
  pub encode_bytes : List ℕ → List ℕ
  pub decode_array_size : List ℕ → Option (ℕ × List ℕ)
  -- Into a type of so many bits.
  pub decode_unsigned : ℕ → List ℕ → Option (ℕ × List ℕ)
  pub decode_bytes : List ℕ → Option (List ℕ × List ℕ)

-- What RFC 8949 says of them: an item that was written is read back, the integer 0 is the byte 0,
-- and a byte string starts with another byte.
pub record IsCodec (c : Cbor) : Type 0 where
  pub array_size_back :
      (n : ℕ) (rest : List ℕ)
      → n < 2 ^ 64
      → c.decode_array_size (c.encode_array_size n ++ rest) ≡ some (n, rest)
  pub unsigned_back :
      (bits n : ℕ) (rest : List ℕ)
      → bits ≤ 64
      → n < 2 ^ bits
      → c.decode_unsigned bits (c.encode_integer n ++ rest) ≡ some (n, rest)
  pub bytes_back :
      (bytes rest : List ℕ)
      → length bytes < 2 ^ 64
      → c.decode_bytes (c.encode_bytes bytes ++ rest) ≡ some (bytes, rest)
  pub zero_byte : c.encode_integer 0 ≡ 0 ∷ []
  pub bytes_start :
      (bytes : List ℕ) → (b : ℕ) × (rest : List ℕ) × (c.encode_bytes bytes ≡ b ∷ rest) × (b ≢ 0)
