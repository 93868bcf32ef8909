-- ===== src/Header7/Wire.antt =====
-- The bytes of the header: `EncodeEID`, `DecodeEID`, `SerializeAndGetSize` and `Deserialize`.
-- `get_milli` is `Time::GetMilliSeconds` of a time that is not negative, and `milli` is
-- `MilliSeconds`.
use ns3_dtn.Prelude.{
  ℕ, ◌+◌, ◌-◌, ◌%◌, ◌^◌, List, [], ◌∷◌, ◌++◌, Option, none, some, ◌>>=◌, length, if◌then◌else◌,
  ◌==◌, ltb, bytes_eq,
}
use ns3_dtn.Prelude.Decimal.{print_unsigned}
use ns3_dtn.Header.{Header, is_fragment}
use ns3_dtn.Header6.Dictionary.{ipn_node, ipn_service, ipn_ssp}
use ns3_dtn.Cbor.{Cbor}
use ns3_dtn.Header7.{Header7, Eid7}

-- "none"
abbrev pub none_text : List ℕ
none_text = b'n' ∷ b'o' ∷ b'n' ∷ b'e' ∷ []

-- `std::to_string ((int) n)`
abbrev pub print_int : ℕ → List ℕ
print_int n =
    if ltb (n % 2 ^ 32) (2 ^ 31)
    then print_unsigned (n % 2 ^ 32)
    else b'-' ∷ print_unsigned (2 ^ 32 - n % 2 ^ 32)

-- Bytes with the length that is counted for them.
abbrev pub sized : List ℕ → List ℕ × ℕ
sized bs = (bs, length bs)

-- What is written, and what is counted, one behind the other.
abbrev pub written : List (List ℕ × ℕ) → List ℕ
written [] = []
written ((bs, n) ∷ ps) = bs ++ written ps

abbrev pub counted7 : List (List ℕ × ℕ) → ℕ
counted7 [] = 0
counted7 ((bs, n) ∷ ps) = (n + counted7 ps) % 2 ^ 32

module _ (c : Cbor) where
  unfoldable pub encode_dtn : List ℕ → List ℕ
  encode_dtn ssp = if bytes_eq ssp none_text then c.encode_integer 0 else c.encode_bytes ssp

  abbrev pub encode_eid_bytes : Eid7 → Option (List ℕ)
  encode_eid_bytes e =
      if e.uri_code == 1
      then some (c.encode_array_size 2 ++ (c.encode_integer 1 ++ encode_dtn e.ssp))
      else (ipn_node e.ssp >>= λ n. ipn_service e.ssp >>= λ s. some (
          c.encode_array_size 2
          ++ (c.encode_integer 2
              ++ (c.encode_array_size 2 ++ (c.encode_integer n ++ c.encode_integer s)))))

  -- `EncodeEID`, whose length is a `uint8_t`.
  unfoldable pub encode_eid : Eid7 → Option (List ℕ × ℕ)
  encode_eid e = encode_eid_bytes e >>= λ bs. some (bs, length bs % 2 ^ 8)

  -- The last branches of `DecodeEID`, which look at the next byte; `decodeBytes` appends to the
  -- text that is there.
  unfoldable pub decode_ssp : ℕ → List ℕ → List ℕ → Option (Eid7 × List ℕ)
  decode_ssp uri old [] = none
  decode_ssp uri old (b ∷ i) =
      if b == 0
      then (c.decode_unsigned 64 (b ∷ i) >>= λ (n, i).
          some (record { uri_code = uri; ssp = print_int n }, i))
      else (c.decode_bytes (b ∷ i) >>= λ (bs, i).
          some (record { uri_code = uri; ssp = old ++ bs }, i))

  -- `DecodeEID`, over a text.
  unfoldable pub decode_eid : List ℕ → List ℕ → Option (Eid7 × List ℕ)
  decode_eid old i = do
    (parts, i) ← c.decode_array_size i
    (uri, i) ← c.decode_unsigned 16 i
    if uri == 2
        then (do
          (parts, i) ← c.decode_array_size i
          (node, i) ← c.decode_unsigned 32 i
          (service, i) ← c.decode_unsigned 32 i
          some (record { uri_code = uri; ssp = ipn_ssp node service }, i))
        else decode_ssp uri old i

  module _ {Time : Type 0} (get_milli : Time → ℕ) where
    -- What is only there in a fragment.
    abbrev pub fragment_items : Header Time → List (List ℕ × ℕ)
    fragment_items h =
        if is_fragment h
        then sized (c.encode_integer h.frag_offset) ∷ sized (c.encode_integer h.adu_length) ∷ []
        else []

    -- The items in the order of the code; the third integer is the CRC type's place holder.
    abbrev pub items : List ℕ × ℕ → List ℕ × ℕ → List ℕ × ℕ → Header Time → List (List ℕ × ℕ)
    items dst src report h =
        sized (c.encode_array_size (if is_fragment h then 10 else 8))
        ∷ sized (c.encode_integer h.version)
        ∷ sized (c.encode_integer h.processing_flags)
        ∷ sized (c.encode_integer 0)
        ∷ dst
        ∷ src
        ∷ report
        ∷ sized (c.encode_array_size 2)
        ∷ sized (c.encode_integer h.create_timestamp)
        ∷ sized (c.encode_integer h.timestamp_seq_num)
        ∷ sized (c.encode_integer (get_milli h.life_time))
        ∷ fragment_items h

    unfoldable pub serialize_and_get_size7 : Header7 Time → Option (ℕ × List ℕ)
    serialize_and_get_size7 h = do
      dst ← encode_eid h.dst_eid
      src ← encode_eid h.src_eid
      report ← encode_eid h.report_eid
      some (counted7 (items dst src report h.base), written (items dst src report h.base))

    -- `GetSerializedSize` and `Serialize`
    unfoldable pub get_serialized_size7 : Header7 Time → Option ℕ
    get_serialized_size7 h = serialize_and_get_size7 h >>= λ (size, bs). some size

    unfoldable pub serialize7 : Header7 Time → Option (List ℕ)
    serialize7 h = serialize_and_get_size7 h >>= λ (size, bs). some bs

  module _ {Time : Type 0} (milli : ℕ → Time) where
    -- The end of a fragment's header, over the header `h`.
    abbrev pub decode_fragment : ℕ → Header Time → List ℕ → Option (Header Time × List ℕ)
    decode_fragment data_size h i =
        if ltb 8 data_size
        then (do
          (offset, i) ← c.decode_unsigned 32 i
          (adu_length, i) ← c.decode_unsigned 32 i
          some (record h { frag_offset = offset; adu_length = adu_length }, i))
        else some (h, i)

    -- `Deserialize` over `h`, with the number of bytes read.
    unfoldable pub deserialize7 : Header7 Time → List ℕ → Option (Header7 Time × ℕ)
    deserialize7 h start = do
      (data_size, i) ← c.decode_array_size start
      (version, i) ← c.decode_unsigned 8 i
      (flags, i) ← c.decode_unsigned 32 i
      (crc_type, i) ← c.decode_unsigned 64 i
      (dst, i) ← decode_eid h.dst_eid.ssp i
      (src, i) ← decode_eid h.src_eid.ssp i
      (report, i) ← decode_eid h.report_eid.ssp i
      (parts, i) ← c.decode_array_size i
      (timestamp, i) ← c.decode_unsigned 32 i
      (seq_num, i) ← c.decode_unsigned 32 i
      (life_time, i) ← c.decode_unsigned 32 i
      (base, i) ←
          decode_fragment data_size
            (record h.base {
              version = version;
              processing_flags = flags;
              create_timestamp = timestamp;
              timestamp_seq_num = seq_num;
              life_time = milli life_time;
            })
            i
      some (
        record h { base = base; dst_eid = dst; src_eid = src; report_eid = report },
        length start - length i,
      )
