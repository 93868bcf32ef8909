-- ===== src/Header6/Wire.antt =====
-- The bytes of the header: `SerializeAndGetSize`, `GetSerializedSize`, `Serialize` and
-- `Deserialize`. The buffer behind an iterator is the list of bytes that are written to it, or that
-- it has left to read; `none` is a read past its end. `get_seconds` is the conversion of
-- `Time::GetSeconds` to 64 bits and `seconds` is `Seconds`.
use ns3_dtn.Prelude.{ℕ, zero, suc, ◌+◌, ◌-◌, ◌%◌, ◌^◌, Bool, true, false}
use ns3_dtn.Prelude.{List, [], ◌∷◌, ◌++◌, Option, none, some, ◌>>=◌, length, if◌then◌else◌}
use ns3_dtn.Header6.{Header6}
use ns3_dtn.Sdnv.{encode, decode}
use mathlib.Core.List.{foldl}

-- One value written, or only measured: the length so far, in 32 bits, and the bytes so far.
abbrev pub put_bytes : Bool → ℕ × List ℕ → List ℕ → ℕ × List ℕ
put_bytes for_real (len, out) temp =
    ((len + length temp) % 2 ^ 32, if for_real then out ++ temp else out)

-- `ReadU8`
abbrev pub read_u8 : List ℕ → Option (ℕ × List ℕ)
read_u8 [] = none
read_u8 (b ∷ rest) = some (b, rest)

-- The loop that reads the dictionary, one byte a round.
unfoldable pub read_bytes : ℕ → List ℕ → Option (List ℕ × List ℕ)
read_bytes zero i = some ([], i)
read_bytes (suc k) [] = none
read_bytes (suc k) (b ∷ i) = read_bytes k i >>= λ (s, rest). some (b ∷ s, rest)

module _ {Time : Type 0} (get_seconds : Time → ℕ) where
  -- What follows the version, in the order of the code.
  abbrev pub chunks : Header6 Time → List (List ℕ)
  chunks h =
      encode h.processing_flags
      ∷ encode h.block_length
      ∷ encode h.dst_place.scheme_offset
      ∷ encode h.dst_place.ssp_offset
      ∷ encode h.src_place.scheme_offset
      ∷ encode h.src_place.ssp_offset
      ∷ encode h.report_place.scheme_offset
      ∷ encode h.report_place.ssp_offset
      ∷ encode h.cust_place.scheme_offset
      ∷ encode h.cust_place.ssp_offset
      ∷ encode h.create_timestamp
      ∷ encode h.timestamp_seq_num
      ∷ encode (get_seconds h.life_time)
      ∷ encode (length h.dictionary)
      ∷ h.dictionary
      ∷ encode h.frag_offset
      ∷ encode h.adu_length
      ∷ []

  unfoldable pub serialize_and_get_size : Bool → Header6 Time → ℕ × List ℕ
  serialize_and_get_size for_real h =
      foldl (put_bytes for_real) (1, if for_real then h.version ∷ [] else []) (chunks h)

  unfoldable pub get_serialized_size : Header6 Time → ℕ
  get_serialized_size h = (serialize_and_get_size false h).0

  unfoldable pub serialize : Header6 Time → List ℕ
  serialize h = (serialize_and_get_size true h).1

module _ {Time : Type 0} (seconds : ℕ → Time) where
  -- The header that is read over `h`, and the number of bytes read. `m_cbhe` stays as it is. The
  -- buffer of the dictionary, `std::string (" ", m_dictLength)`, is taken to have that length.
  unfoldable pub deserialize : Header6 Time → List ℕ → Option (Header6 Time × ℕ)
  unfolding read_bytes
  deserialize h start = do
    (version, i) ← read_u8 start
    (flags, i) ← decode i
    (block_length, i) ← decode i
    (dst_scheme, i) ← decode i
    (dst_ssp, i) ← decode i
    (src_scheme, i) ← decode i
    (src_ssp, i) ← decode i
    (report_scheme, i) ← decode i
    (report_ssp, i) ← decode i
    (cust_scheme, i) ← decode i
    (cust_ssp, i) ← decode i
    (timestamp, i) ← decode i
    (seq_num, i) ← decode i
    (life_time, i) ← decode i
    (dict_length, i) ← decode i
    (dictionary, i) ← read_bytes (dict_length % 2 ^ 32) i
    (frag_offset, i) ← decode i
    (adu_length, i) ← decode i
    some (
      record {
        base = record {
          version = version;
          processing_flags = flags % 2 ^ 32;
          create_timestamp = timestamp % 2 ^ 32;
          timestamp_seq_num = seq_num % 2 ^ 32;
          life_time = seconds life_time;
          frag_offset = frag_offset % 2 ^ 32;
          adu_length = adu_length % 2 ^ 32;
          cbhe = h.cbhe;
        };
        block_length = block_length % 2 ^ 32;
        dst_place = record { scheme_offset = dst_scheme % 2 ^ 16; ssp_offset = dst_ssp % 2 ^ 16 };
        src_place = record { scheme_offset = src_scheme % 2 ^ 16; ssp_offset = src_ssp % 2 ^ 16 };
        report_place = record {
          scheme_offset = report_scheme % 2 ^ 16;
          ssp_offset = report_ssp % 2 ^ 16;
        };
        cust_place = record {
          scheme_offset = cust_scheme % 2 ^ 16;
          ssp_offset = cust_ssp % 2 ^ 16;
        };
        dictionary = dictionary;
      },
      length start - length i,
    )
