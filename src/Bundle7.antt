-- ===== src/Bundle7.antt =====
-- model/bp-bundle-7.cc, and `SerializeBundle` and `DeserializeBundle` of model/bp-cla.cc: a bundle of
-- version 7 as one packet. A buffer of ns-3 is the list of its bytes; what fresh bytes hold is a
-- parameter. `none` also stands for a write behind the end of a buffer.
pub mod Writes
pub mod RoundTrip
use ns3_dtn.Prelude.{
  ℕ, ◌+◌, ◌-◌, ◌%◌, ◌^◌, false, List, [], ◌∷◌, ◌++◌, Option, none, some, ◌>>=◌, length, take, drop,
  leb, if◌then◌else◌, ◌==◌,
}
use ns3_dtn.Prelude.Decimal.{print_unsigned}
use ns3_dtn.EndpointId.{EndpointId, default_eid}
use ns3_dtn.Cbor.{Cbor}
use ns3_dtn.Header7.{Header7, Role7, destination, source, report_to, new_header7, set_eid7}
use ns3_dtn.Header7.Wire.{serialize7, get_serialized_size7, deserialize7}
use ns3_dtn.BlockHeader.{bundle_payload_block}
use ns3_dtn.BlockHeader7.{
  BlockHeader7, new_block_header7, block_crc_type, block_crc, get_serialized_size_block7,
  serialize_block7, deserialize_block7,
}

pub record Bundle7 (Time : Type 0) : Type 0 where
  pub header : Header7 Time
  pub payload_header : BlockHeader7
  pub adu : List ℕ
  pub retention_constraints : ℕ

-- Bytes written at a position of a buffer.
unfoldable pub write_at : ℕ → List ℕ → List ℕ → Option (List ℕ)
write_at pos bs buffer =
    if leb (pos + length bs) (length buffer)
    then some (take pos buffer ++ (bs ++ drop (pos + length bs) buffer))
    else none

-- `CreateFragment`
abbrev pub create_fragment : ℕ → ℕ → List ℕ → Option (List ℕ)
create_fragment start len bytes =
    if leb (start + len) (length bytes) then some (take len (drop start bytes)) else none

module _ {Time : Type 0} (zero_time : Time) (code len : ℕ) where
  -- The headers that the constructor of a bundle makes; `code` and `len` are what it leaves unset.
  abbrev pub blank_header : Header7 Time
  blank_header = new_header7 zero_time code len false

  -- `Bundle7 (adu)`
  unfoldable pub new_bundle7 : List ℕ → Option (Bundle7 Time)
  new_bundle7 adu = do
    h ← set_eid7 source default_eid blank_header
    h ← set_eid7 destination default_eid h
    h ← set_eid7 report_to default_eid h
    some (record {
      header = h;
      payload_header = new_block_header7 bundle_payload_block;
      adu = adu;
      retention_constraints = 0;
    })

-- The two branches on the CRC ask for `BlockCrcType` and `BlockCrc`, which are always 0.
abbrev pub encode_crc : Cbor → BlockHeader7 → List ℕ
encode_crc c b = if block_crc_type b == 0 then [] else c.encode_bytes (print_unsigned (block_crc b))

module _ (c : Cbor) {Time : Type 0} where
  -- `SerializeBundle`, whose buffer grows at the end by what is written there.
  unfoldable pub serialize_bundle : (ℕ → List ℕ) → (Time → ℕ) → Bundle7 Time → Option (List ℕ)
  serialize_bundle fill get_milli b = do
    size ← get_serialized_size7 c get_milli b.header
    header ← serialize7 c get_milli b.header
    let header_size = (1 + size + get_serialized_size_block7 c b.payload_header) % 2 ^ 32
    data1 ← write_at 0 (0x9f ∷ []) (fill header_size)
    data2 ← write_at 1 header data1
    data3 ← write_at (1 + size) (serialize_block7 c b.payload_header) data2
    adu ← create_fragment b.header.base.frag_offset b.header.block_length b.adu
    some (data3 ++ ((c.encode_bytes adu ++ encode_crc c b.payload_header) ++ (0xff ∷ [])))

  -- `DeserializeBundle`; the bundle's constraints are those of a new one.
  unfoldable pub deserialize_bundle : Time → ℕ → ℕ → (ℕ → Time) → List ℕ → Option (Bundle7 Time)
  deserialize_bundle zero_time code len milli packet = do
    let packet = drop 1 packet
    let packet = take (length packet - 1) packet
    (h, size) ← deserialize7 c milli (blank_header zero_time code len) packet
    let packet = drop size packet
    (payload, size) ← deserialize_block7 c (new_block_header7 bundle_payload_block) packet
    (adu, rest) ← c.decode_bytes (drop size packet)
    some (record { header = h; payload_header = payload; adu = adu; retention_constraints = 0 })
