-- ===== src/Examples/Version7.antt =====
-- A bundle of version 7 from "dtn:a" to a node of two numbers, with a codec that writes every number
-- as a self-delimiting numeric value.
use ns3_dtn.Prelude.{
  ℕ, false, ◌%◌, ◌^◌, ◌+◌, ◌*◌, ◌/◌, ◌<◌, ◌≤◌, ◌≡◌, refl, ap, sym, ◌∙◌, arith, List, [], ◌∷◌, ◌++◌,
  Option, some, none, ◌>>=◌, length,
}
use mathlib.Core.List.{append_assoc}
use native.Mathlib.Nat.{mod-eq_of_lt, pow-le-pow_right}
use ns3_dtn.Prelude.Decimal.{print_unsigned, scan_first, scan_second}
use ns3_dtn.Sdnv
use ns3_dtn.Sdnv.RoundTrip.{decode-encode}
use ns3_dtn.Header6.Dictionary.{c_str, ipn_ssp}
use ns3_dtn.Header6.Wire.{read_bytes}
use ns3_dtn.Header6.RoundTrip.{read_bytes-append}
use ns3_dtn.Cbor.{Cbor, IsCodec}
use ns3_dtn.Header7.{Header7, Eid7}
use ns3_dtn.Header7.Wire.{
  encode_eid, serialize7, get_serialized_size7, deserialize7, serialize_and_get_size7, encode_dtn,
}
use ns3_dtn.Header7.Ids.{dtn_text, two_numbers}
use ns3_dtn.Header7.RoundTrip.Size.{get_serialized_size7-length}
use ns3_dtn.Header7.RoundTrip.{Fits7, received, deserialize7-serialize7}
use ns3_dtn.BlockHeader.{bundle_payload_block}
use ns3_dtn.BlockHeader7.{
  BlockHeader7, new_block_header7, serialize_block7, serialize_and_get_size_block7,
}
use ns3_dtn.Header.{flag}
use ns3_dtn.Prelude.Words.{has_mask}
use mathlib.Core.Option.{some-injective}
use ns3_dtn.Examples.Data.{zeros, length-zeros}
use ns3_dtn.Bundle7.{Bundle7, blank_header, serialize_bundle, deserialize_bundle}
use ns3_dtn.Bundle7.RoundTrip.{IsShort, deserialize_bundle-serialize_bundle}

decode_text : List ℕ → Option (List ℕ × List ℕ)
decode_text [] = none
decode_text (b ∷ i) = Sdnv.decode i >>= λ (n, i). read_bytes n i

decode_number : ℕ → List ℕ → Option (ℕ × List ℕ)
decode_number bits i = Sdnv.decode i >>= λ (n, i). some (n % 2 ^ bits, i)

abbrev codec : Cbor
codec = record {
  encode_array_size = Sdnv.encode;
  encode_integer = Sdnv.encode;
  encode_bytes = λ bytes. 64 ∷ (Sdnv.encode (length bytes) ++ bytes);
  decode_array_size = Sdnv.decode;
  decode_unsigned = decode_number;
  decode_bytes = decode_text;
}

encode-zero : Sdnv.encode 0 ≡ 0 ∷ []
unfolding Sdnv.encode
encode-zero = refl

codec-IsCodec : IsCodec codec
unfolding decode_number decode_text
codec-IsCodec = record {
  array_size_back = λ n rest small. decode-encode n rest small;
  unsigned_back = λ bits n rest few small.
      let wide : 2 ^ bits ≤ 2 ^ 64 = pow-le-pow_right (omega arith) few in
      rw (decode-encode n rest (omega (arith, small, wide)))
        (ap (λ (k : ℕ). some (k, rest)) (mod-eq_of_lt small));
  bytes_back = λ bytes rest small.
      rw (append_assoc (Sdnv.encode (length bytes)) bytes rest)
        (rw (decode-encode (length bytes) (bytes ++ rest) small) (read_bytes-append bytes rest));
  zero_byte = encode-zero;
  bytes_start =
      λ bytes. (64, Sdnv.encode (length bytes) ++ bytes, refl, λ e. absurd (omega (arith, e)));
}

abbrev to_numbers : Eid7
to_numbers = record { uri_code = 2; ssp = ipn_ssp 5 1 }

abbrev from_text : Eid7
from_text = record { uri_code = 1; ssp = b'a' ∷ [] }

-- The last three bytes of five.
abbrev sample7 : Header7 ℕ
sample7 = record {
  base = record {
    version = 7;
    processing_flags = 1;
    create_timestamp = 700;
    timestamp_seq_num = 3;
    life_time = 86400;
    frag_offset = 2;
    adu_length = 5;
    cbhe = false;
  };
  dst_eid = to_numbers;
  src_eid = from_text;
  report_eid = from_text;
  block_length = 3;
}

abbrev millis : ℕ → ℕ
millis t = t

sample7-Fits7 : Fits7 millis millis sample7
sample7-Fits7 = record {
  version_fits = omega arith;
  flags_fit = omega arith;
  timestamp_fits = omega arith;
  seq_fits = omega arith;
  life_fits = omega arith;
  whole_milli = refl;
  offset_fits = omega arith;
  adu_fits = omega arith;
  dst_sendable = two_numbers 5 1 refl refl (omega arith) (omega arith);
  src_sendable = dtn_text refl (λ e. absurd (cc e)) (omega arith);
  report_sendable = dtn_text refl (λ e. absurd (cc e)) (omega arith);
}

abbrev blank7 : Header7 ℕ
blank7 = blank_header 0 1 0

deserialize7-serialize7_example :
    (bs : List ℕ) × (serialize7 codec millis sample7 ≡ some bs)
    × ((rest : List ℕ)
        → deserialize7 codec millis blank7 (bs ++ rest) ≡ some (received blank7 sample7, length bs))
deserialize7-serialize7_example =
    deserialize7-serialize7 codec codec-IsCodec millis millis sample7 sample7-Fits7 blank7
      (record { no_dst = refl; no_src = refl; no_report = refl })

-- What is written of the header.
abbrev written7 : List ℕ
written7 =
    10 ∷ 7 ∷ 1 ∷ 0 ∷ 2 ∷ 2 ∷ 2 ∷ 5 ∷ 1 ∷ 2 ∷ 1 ∷ 64 ∷ 1 ∷ 97 ∷ 2 ∷ 1 ∷ 64 ∷ 1 ∷ 97 ∷ 2 ∷ 133 ∷ 60
    ∷ 3 ∷ 133 ∷ 163 ∷ 0 ∷ 2 ∷ 5 ∷ []

serialize7-written7 : serialize7 codec millis sample7 ≡ some written7
unfolding serialize7 serialize_and_get_size7 encode_eid encode_dtn Sdnv.encode c_str scan_first
    scan_second print_unsigned flag has_mask
serialize7-written7 = refl

get_serialized_size7-length_example :
    (size : ℕ) × (a b d : List ℕ) × (get_serialized_size7 codec millis sample7 ≡ some size)
    × (encode_eid codec to_numbers ≡ some (a, length a % 2 ^ 8))
    × (encode_eid codec from_text ≡ some (b, length b % 2 ^ 8))
    × (encode_eid codec from_text ≡ some (d, length d % 2 ^ 8))
    × (size + 256 * (length a / 256 + length b / 256 + length d / 256) ≡ length written7)
get_serialized_size7-length_example =
    get_serialized_size7-length codec codec-IsCodec millis millis sample7 sample7-Fits7 written7
      serialize7-written7 (omega arith)

to_numbers-IsShort : IsShort codec to_numbers
unfolding encode_eid encode_dtn Sdnv.encode c_str scan_first scan_second print_unsigned
to_numbers-IsShort bs n runs = omega (
  arith,
  ap (λ (p : List ℕ × ℕ). length p.0) (some-injective (2 ∷ 2 ∷ 2 ∷ 5 ∷ 1 ∷ [], 5) (bs, n) runs),
)

from_text-IsShort : IsShort codec from_text
unfolding encode_eid encode_dtn Sdnv.encode
from_text-IsShort bs n runs = omega (
  arith,
  ap (λ (p : List ℕ × ℕ). length p.0) (some-injective (2 ∷ 1 ∷ 64 ∷ 1 ∷ 97 ∷ [], 5) (bs, n) runs),
)

abbrev payload7 : BlockHeader7
payload7 = record (new_block_header7 bundle_payload_block) {
  block_number = 1;
  processing_control_flags = 8;
}

abbrev bundle7 : Bundle7 ℕ
bundle7 = record {
  header = sample7;
  payload_header = payload7;
  adu = 11 ∷ 12 ∷ 13 ∷ 14 ∷ 15 ∷ [];
  retention_constraints = 0;
}

headers-fit :
    (header : List ℕ)
    → serialize7 codec millis sample7 ≡ some header
    → 1 + length header + length (serialize_block7 codec payload7) < 2 ^ 32
unfolding serialize_block7 serialize_and_get_size_block7 Sdnv.encode
headers-fit header runs =
    omega (arith, ap length (some-injective written7 header (sym serialize7-written7 ∙ runs)))

deserialize_bundle-serialize_bundle_example :
    (packet : List ℕ) × (serialize_bundle codec zeros millis bundle7 ≡ some packet)
    × (deserialize_bundle codec 0 1 0 millis packet
        ≡ some (record {
          header = received blank7 sample7;
          payload_header = payload7;
          adu = 13 ∷ 14 ∷ 15 ∷ [];
          retention_constraints = 0;
        }))
deserialize_bundle-serialize_bundle_example =
    deserialize_bundle-serialize_bundle codec codec-IsCodec 0 1 0 zeros length-zeros millis millis
      bundle7 sample7-Fits7
      (record {
        type_fits = omega arith;
        number_fits = omega arith;
        flags_fit = omega arith;
        crc_fits = omega arith;
      })
      to_numbers-IsShort from_text-IsShort from_text-IsShort (13 ∷ 14 ∷ 15 ∷ []) refl (omega arith)
      headers-fit
