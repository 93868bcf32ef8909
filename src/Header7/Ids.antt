-- ===== src/Header7/Ids.antt =====
-- The ids of the header: which of them survive `EncodeEID` and `DecodeEID`.
use ns3_dtn.Prelude.{
  ℕ, ◌%◌, ◌^◌, ◌<◌, ◌≡◌, ◌≢◌, refl, ap, sym, ◌∙◌, arith, false, List, [], ◌∷◌, ◌++◌, some, length,
  All, All-append, ◌==◌, bytes_eq, bytes_eq_iff,
}
use mathlib.Core.List.{append_assoc}
use ns3_dtn.Prelude.Decimal.{print_unsigned, digits_of}
use ns3_dtn.Prelude.Decimal.RoundTrip.{scan-print_unsigned, print_unsigned-nonzero}
use ns3_dtn.Header6.Dictionary.{c_str, ipn_node, ipn_service, ipn_ssp}
use ns3_dtn.Cbor.{Cbor, IsCodec}
use ns3_dtn.Header7.{Eid7}
use ns3_dtn.Header7.Wire.{none_text, encode_dtn, encode_eid, decode_ssp, decode_eid}

-- An id that the format can hold: a text other than "none", or two numbers.
pub data Sendable : Eid7 → Type 0 where
  dtn_text : {e : Eid7} → e.uri_code ≡ 1 → e.ssp ≢ none_text → length e.ssp < 2 ^ 64 → Sendable e
  two_numbers :
      {e : Eid7} (node service : ℕ)
      → e.uri_code ≡ 2
      → e.ssp ≡ ipn_ssp node service
      → node < 2 ^ 32
      → service < 2 ^ 32
      → Sendable e

c_str-nonzero : (s : List ℕ) → All (λ c. c ≢ 0) s → c_str s ≡ s
unfolding c_str
c_str-nonzero [] all = refl
c_str-nonzero (c ∷ s) (positive, all) = ground (arith, c_str-nonzero s all, positive)

-- The numbers of a text with two numbers.
pub ipn_node-ipn_ssp :
    (node service : ℕ)
    → node < 2 ^ 32
    → service < 2 ^ 32
    → (ipn_node (ipn_ssp node service) ≡ some node)
      × (ipn_service (ipn_ssp node service) ≡ some service)
ipn_node-ipn_ssp node service small fits =
    rw (c_str-nonzero (ipn_ssp node service) nonzero) (scan-print_unsigned node service small fits)
  where
    nonzero : All (λ c. c ≢ 0) (ipn_ssp node service)
    nonzero =
        All-append (λ c. c ≢ 0) (print_unsigned node) _ (print_unsigned-nonzero node)
          ((λ z. absurd (omega (arith, z))), print_unsigned-nonzero service)

module _ (c : Cbor) (codec : IsCodec c) where
  decode_ssp-encode_bytes :
      (uri : ℕ) (bytes rest : List ℕ)
      → length bytes < 2 ^ 64
      → decode_ssp c uri [] (c.encode_bytes bytes ++ rest)
        ≡ some (record { uri_code = uri; ssp = bytes }, rest)
  unfolding decode_ssp
  decode_ssp-encode_bytes uri bytes rest fits =
      let (b, more, start, other) = codec.bytes_start bytes in
      let front = ap (λ (bs : List ℕ). bs ++ rest) start in
      ap (decode_ssp c uri []) front
      ∙ text_branch b (more ++ rest) other
          (ap c.decode_bytes (sym front) ∙ codec.bytes_back bytes rest fits)
    where
      text_branch :
          (b : ℕ) (i : List ℕ)
          → b ≢ 0
          → c.decode_bytes (b ∷ i) ≡ some (bytes, rest)
          → decode_ssp c uri [] (b ∷ i) ≡ some (record { uri_code = uri; ssp = bytes }, rest)
      text_branch b i other reads =
          let not_zero : (b == 0) ≡ false = ground (arith, other) in rw not_zero (rw reads refl)

  -- What `EncodeEID` writes for such an id is read back, with any bytes behind it.
  pub encode_eid-Sendable :
      (e : Eid7)
      → Sendable e
      → (bs : List ℕ) × (encode_eid c e ≡ some (bs, length bs % 2 ^ 8))
        × ((rest : List ℕ) → decode_eid c [] (bs ++ rest) ≡ some (e, rest))
  unfolding encode_eid decode_eid encode_dtn
  encode_eid-Sendable e (dtn_text code text fits) = (
    c.encode_array_size 2 ++ (c.encode_integer 1 ++ c.encode_bytes e.ssp),
    rw code (rw not_none refl),
    λ rest.
        simp
          (
            append_assoc,
            codec.array_size_back 2 _ (omega arith),
            codec.unsigned_back 16 1 _ (omega arith) (omega arith),
            decode_ssp-encode_bytes 1 e.ssp rest fits,
          )
          (ap (λ (k : ℕ). some (record { uri_code = k; ssp = e.ssp }, rest)) (sym code)),
  )
    where
      not_none : bytes_eq e.ssp none_text ≡ false
      not_none = ground (arith, bytes_eq_iff e.ssp none_text, text)
  encode_eid-Sendable e (two_numbers node service code text small fits) = (
    c.encode_array_size 2
        ++ (c.encode_integer 2
            ++ (c.encode_array_size 2 ++ (c.encode_integer node ++ c.encode_integer service))),
    rw code (
        rw text (
          rw (ipn_node-ipn_ssp node service small fits).0
            (rw (ipn_node-ipn_ssp node service small fits).1 refl))),
    λ rest.
        simp
          (
            append_assoc,
            codec.array_size_back 2 _ (omega arith),
            codec.unsigned_back 16 2 _ (omega arith) (omega arith),
            codec.unsigned_back 32 node _ (omega arith) small,
            codec.unsigned_back 32 service _ (omega arith) fits,
          )
          (ap (λ (f : Eid7). some (f, rest))
            (ap (λ (k : ℕ). record { uri_code = k; ssp = ipn_ssp node service }) (sym code)
              ∙ ap (λ (t : List ℕ). record { uri_code = e.uri_code; ssp = t }) (sym text))),
  )

  zero_back : (rest : List ℕ) → c.decode_unsigned 64 (0 ∷ rest) ≡ some (0, rest)
  zero_back rest =
      ap (λ (bs : List ℕ). c.decode_unsigned 64 (bs ++ rest)) (sym codec.zero_byte)
      ∙ codec.unsigned_back 64 0 rest (omega arith) (omega arith)

  -- The text "none" is written as the integer 0, and is read back as the text "0".
  pub encode_eid-none :
      (bs : List ℕ) × (encode_eid c (record { uri_code = 1; ssp = none_text })
        ≡ some (bs, length bs % 2 ^ 8))
      × ((rest : List ℕ)
          → decode_eid c [] (bs ++ rest) ≡ some (record { uri_code = 1; ssp = b'0' ∷ [] }, rest))
  unfolding encode_eid decode_eid encode_dtn decode_ssp print_unsigned digits_of
  encode_eid-none = (
    c.encode_array_size 2 ++ (c.encode_integer 1 ++ c.encode_integer 0),
    refl,
    λ rest.
        simp
          (
            append_assoc,
            codec.array_size_back 2 _ (omega arith),
            codec.unsigned_back 16 1 _ (omega arith) (omega arith),
          )
          (ap (λ (bs : List ℕ). decode_ssp c 1 [] (bs ++ rest)) codec.zero_byte
            ∙ rw (zero_back rest) refl),
  )
