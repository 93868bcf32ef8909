-- ===== src/Examples/Bytes.antt =====
-- Round trips at concrete headers and numbers.
use ns3_dtn.Prelude.{
  take, none, leb, ℕ, ◌/◌, ◌∷◌, [], true, ◌^◌, ◌++◌, ◌≡◌, ◌<◌, refl, some, length, arith,
}
use ns3_dtn.Sdnv
use ns3_dtn.Sdnv.{IsByte, decode, decode_vector}
use ns3_dtn.Sdnv.RoundTrip.{decode-encode}
use ns3_dtn.Header6.Wire
use ns3_dtn.Header6.RoundTrip
use ns3_dtn.Header6.RoundTrip.{deserialize-serialize, get_serialized_size-length}
use ns3_dtn.BlockHeader
use ns3_dtn.BlockHeader.Laws.{serialize_room}
use ns3_dtn.CustodySignal
use ns3_dtn.CustodySignal.{CustodySignal, encode}
use ns3_dtn.CustodySignal.Laws.{deserialize-encode}
use ns3_dtn.Sdnv.Truncated.{decode-take}
use ns3_dtn.Header6.Truncated.{deserialize-take}
use ns3_dtn.Examples.Data.{whole_seconds, sample, fresh, payload}

sample-Fits : RoundTrip.Fits whole_seconds sample
sample-Fits = record {
  version_fits = omega arith;
  flags_fits = omega arith;
  block_fits = omega arith;
  dst_fits = record { scheme_fits = omega arith; ssp_fits = omega arith };
  src_fits = record { scheme_fits = omega arith; ssp_fits = omega arith };
  report_fits = record { scheme_fits = omega arith; ssp_fits = omega arith };
  cust_fits = record { scheme_fits = omega arith; ssp_fits = omega arith };
  timestamp_fits = omega arith;
  seq_fits = omega arith;
  life_fits = omega arith;
  dictionary_fits = omega arith;
  offset_fits = omega arith;
  adu_fits = omega arith;
}

deserialize-serialize_example :
    Wire.deserialize whole_seconds fresh (Wire.serialize whole_seconds sample ++ (1 ∷ 8 ∷ []))
    ≡ some (sample, length (Wire.serialize whole_seconds sample))
deserialize-serialize_example =
    deserialize-serialize whole_seconds whole_seconds sample fresh (1 ∷ 8 ∷ []) sample-Fits refl

short : length (Wire.serialize whole_seconds sample) < 2 ^ 32
unfolding Wire.serialize Wire.serialize_and_get_size Sdnv.encode
short = omega arith

get_serialized_size-length_example :
    Wire.get_serialized_size whole_seconds sample ≡ length (Wire.serialize whole_seconds sample)
get_serialized_size-length_example = get_serialized_size-length whole_seconds sample short

decode-encode_example : decode (Sdnv.encode 300 ++ (7 ∷ [])) ≡ some (300, 7 ∷ [])
decode-encode_example = decode-encode 300 (7 ∷ []) (omega arith)

serialize_room_example :
    leb (length (BlockHeader.serialize payload)) (BlockHeader.get_serialized_size payload) ≡ true
serialize_room_example = serialize_room payload refl (omega arith) (omega arith)

-- A signal about a bundle from "dtn:a".
abbrev signal : CustodySignal ℕ
signal = record {
  status = 128;
  fragment_offset = 0;
  fragment_length = 0;
  time_of_signal = 5000;
  creation_timestamp = 700;
  seq_no = 3;
  src_eid_len = 5;
  src_eid = b'd' ∷ b't' ∷ b'n' ∷ b':' ∷ b'a' ∷ [];
}

-- Times in milliseconds: the conversion to seconds, and the time that the reader makes of seconds.
abbrev milli_seconds : ℕ → ℕ
milli_seconds ms = ms / 1000

deserialize-encode_example :
    CustodySignal.deserialize milli_seconds whole_seconds (encode milli_seconds signal ++ [])
    ≡ some (
      record signal { time_of_signal = 5 },
      CustodySignal.get_serialized_size milli_seconds (record signal { time_of_signal = 5 }),
    )
deserialize-encode_example = deserialize-encode milli_seconds whole_seconds signal [] (record {
  offset_fits = omega arith;
  length_fits = omega arith;
  time_fits = omega arith;
  timestamp_fits = omega arith;
  seq_fits = omega arith;
  eid_fits = omega arith;
  eid_length = refl;
})

-- The first of two bytes, and the first 20 bytes of a header.
decode-take_example : decode (take 1 (Sdnv.encode 300)) ≡ none
unfolding Sdnv.encode
decode-take_example = decode-take 300 1 (omega arith) (omega arith)

deserialize-take_example :
    Wire.deserialize whole_seconds fresh (take 20 (Wire.serialize whole_seconds sample)) ≡ none
unfolding Wire.serialize Wire.serialize_and_get_size Sdnv.encode
deserialize-take_example =
    deserialize-take whole_seconds whole_seconds sample fresh 20 sample-Fits refl (omega arith)
