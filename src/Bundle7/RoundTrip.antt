-- ===== src/Bundle7/RoundTrip.antt =====
-- A bundle of version 7 that arrives as it was sent.
use ns3_dtn.Prelude.{
  ℕ, ◌+◌, ◌-◌, ◌%◌, ◌^◌, ◌<◌, ◌≡◌, refl, ap, sym, ◌∙◌, arith, List, [], ◌∷◌, ◌++◌, some, length,
  length-append, take, take-append, drop, drop-append,
}
use mathlib.Core.List.{append_assoc, append-nil}
use native.Mathlib.Nat.{mod-eq_of_lt}
use ns3_dtn.Cbor.{Cbor, IsCodec}
use ns3_dtn.Header7.{Header7, Eid7}
use ns3_dtn.Header7.Wire.{encode_eid, serialize7, get_serialized_size7, deserialize7}
use ns3_dtn.Header7.RoundTrip.Size.{get_serialized_size7-length}
use ns3_dtn.Header7.RoundTrip.{Fits7, IsBlank, received, deserialize7-serialize7}
use ns3_dtn.BlockHeader.{bundle_payload_block}
use ns3_dtn.BlockHeader7.{
  new_block_header7, get_serialized_size_block7, serialize_block7, deserialize_block7,
}
use ns3_dtn.BlockHeader7.Laws
use ns3_dtn.BlockHeader7.Laws.{deserialize_block7-serialize_block7}
use ns3_dtn.Bundle7.{Bundle7, create_fragment, blank_header, serialize_bundle, deserialize_bundle}
use ns3_dtn.Bundle7.Writes.{write_at-three}

-- The length of an id's bytes fits the 8 bits in which it is counted.
abbrev pub IsShort : Cbor → Eid7 → Type 0
IsShort c e = (bs : List ℕ) (n : ℕ) → encode_eid c e ≡ some (bs, n) → length bs < 2 ^ 8

module _ (c : Cbor) (codec : IsCodec c) {Time : Type 0} (zero_time : Time) (code len : ℕ)
    (fill : ℕ → List ℕ) (filled : (n : ℕ) → length (fill n) ≡ n) (get_milli : Time → ℕ)
    (milli : ℕ → Time) (b : Bundle7 Time) (fits : Fits7 get_milli milli b.header)
    (block_fits : Laws.Fits b.payload_header) (short_dst : IsShort c b.header.dst_eid)
    (short_src : IsShort c b.header.src_eid) (short_report : IsShort c b.header.report_eid) where
  g : Header7 Time
  g = blank_header zero_time code len

  blank : IsBlank g
  unfolding g
  blank = record { no_dst = refl; no_src = refl; no_report = refl }

  block : List ℕ
  block = serialize_block7 c b.payload_header

  -- The size that is announced is the right one.
  announced :
      (header : List ℕ)
      → serialize7 c get_milli b.header ≡ some header
      → length header < 2 ^ 32
      → get_serialized_size7 c get_milli b.header ≡ some (length header)
  announced header runs small =
      let (size, x, y, z, gives, dst, src, report, whole) =
        get_serialized_size7-length c codec get_milli milli b.header fits header runs small in
      gives
      ∙ ap some
          (omega (arith, whole, short_dst x _ dst, short_src y _ src, short_report z _ report))

  -- All but the first and the last byte.
  inner_bytes :
      (first last : ℕ) (inner : List ℕ)
      → let packet = drop 1 (first ∷ (inner ++ (last ∷ []))) in
        take (length packet - 1) packet ≡ inner
  inner_bytes first last inner =
      ap (λ (n : ℕ). take n (inner ++ (last ∷ []))) one_less ∙ take-append inner (last ∷ [])
    where
      one_less : length (inner ++ (last ∷ [])) - 1 ≡ length inner
      one_less = omega (arith, length-append inner (last ∷ []))

  packet_of7 : List ℕ → List ℕ → List ℕ
  packet_of7 header bytes =
      (0x9f ∷ (header ++ block)) ++ ((c.encode_bytes bytes ++ []) ++ (0xff ∷ []))

  block_size : length block < 2 ^ 32 → get_serialized_size_block7 c b.payload_header ≡ length block
  unfolding block
  block_size small =
      (deserialize_block7-serialize_block7 c b.payload_header b.payload_header [] codec block_fits
        small).1

  serialize_bundle-packet :
      (header bytes : List ℕ)
      → serialize7 c get_milli b.header ≡ some header
      → 1 + length header + length block < 2 ^ 32
      → create_fragment b.header.base.frag_offset b.header.block_length b.adu ≡ some bytes
      → serialize_bundle c fill get_milli b ≡ some (packet_of7 header bytes)
  unfolding serialize_bundle packet_of7 block
  serialize_bundle-packet header bytes runs small cut =
      let size : length header < 2 ^ 32 = omega (arith, small) in
      let room : (1 + length header + get_serialized_size_block7 c b.payload_header) % 2 ^ 32
          ≡ 1 + length header + length block =
        ap (λ (n : ℕ). (1 + length header + n) % 2 ^ 32) (block_size (omega (arith, small)))
        ∙ mod-eq_of_lt small in
      let (data1, data2, first, second, third) =
        write_at-three 0x9f header block (fill (1 + length header + length block)) (filled _) in
      rw (announced header runs size)
        (rw runs (rw room (rw first (rw second (rw third (rw cut refl))))))

  deserialize_bundle-packet :
      (header bytes : List ℕ)
      → ((rest : List ℕ)
          → deserialize7 c milli g (header ++ rest) ≡ some (received g b.header, length header))
      → length block < 2 ^ 32
      → length bytes < 2 ^ 64
      → deserialize_bundle c zero_time code len milli (packet_of7 header bytes)
        ≡ some (record {
          header = received g b.header;
          payload_header = record b.payload_header { crc = 0 };
          adu = bytes;
          retention_constraints = 0;
        })
  unfolding deserialize_bundle packet_of7 block g
  deserialize_bundle-packet header bytes reads small_block small =
      let inner : List ℕ = header ++ (block ++ c.encode_bytes bytes) in
      let whole : header ++ (block ++ ((c.encode_bytes bytes ++ []) ++ (0xff ∷ [])))
          ≡ inner ++ (0xff ∷ []) =
        ap (λ (ys : List ℕ). header ++ (block ++ (ys ++ (0xff ∷ []))))
          (append-nil (c.encode_bytes bytes))
        ∙ ap (λ (ys : List ℕ). header ++ ys)
            (sym (append_assoc block (c.encode_bytes bytes) (0xff ∷ [])))
        ∙ sym (append_assoc header (block ++ c.encode_bytes bytes) (0xff ∷ [])) in
      let read : deserialize_block7 c (new_block_header7 bundle_payload_block)
            (block ++ c.encode_bytes bytes)
          ≡ some (record b.payload_header { crc = 0 }, length block) =
        (deserialize_block7-serialize_block7 c b.payload_header
          (new_block_header7 bundle_payload_block) (c.encode_bytes bytes) codec block_fits
          small_block).0 in
      let back : c.decode_bytes (c.encode_bytes bytes) ≡ some (bytes, []) =
        ap (λ (ys : List ℕ). c.decode_bytes ys) (sym (append-nil (c.encode_bytes bytes)))
        ∙ codec.bytes_back bytes [] small in
      let trimmed : take (length (inner ++ (0xff ∷ [])) - 1) (inner ++ (0xff ∷ [])) ≡ inner =
        inner_bytes 0x9f 0xff inner in
      rw (append_assoc header block ((c.encode_bytes bytes ++ []) ++ (0xff ∷ []))) (
        rw whole (
          rw trimmed (
            rw (reads (block ++ c.encode_bytes bytes)) (
              rw (drop-append header (block ++ c.encode_bytes bytes))
                (rw read (rw (drop-append block (c.encode_bytes bytes)) (rw back refl)))))))

  -- A bundle of version 7 that `SerializeBundle` sends is the one that `DeserializeBundle` makes of
  -- the packet, less what is not transmitted: the header is restored as by `Deserialize`, the header of
  -- the payload but for its CRC, and the data is the piece that the bundle's offset and length name in
  -- its ADU. The codec keeps its promises, the fields lie in the ranges of their types, each id is
  -- sendable in fewer than 256 bytes, the headers have 32 bits of bytes at most and the piece lies
  -- within the ADU.
  pub deserialize_bundle-serialize_bundle :
      (bytes : List ℕ)
      → create_fragment b.header.base.frag_offset b.header.block_length b.adu ≡ some bytes
      → length bytes < 2 ^ 64
      → ((header : List ℕ)
          → serialize7 c get_milli b.header ≡ some header
          → 1 + length header + length (serialize_block7 c b.payload_header) < 2 ^ 32)
      → (packet : List ℕ) × (serialize_bundle c fill get_milli b ≡ some packet)
        × (deserialize_bundle c zero_time code len milli packet
            ≡ some (record {
              header = received (blank_header zero_time code len) b.header;
              payload_header = record b.payload_header { crc = 0 };
              adu = bytes;
              retention_constraints = 0;
            }))
  unfolding g block
  deserialize_bundle-serialize_bundle bytes cut small small_headers =
      let (header, runs, reads) =
        deserialize7-serialize7 c codec get_milli milli b.header fits g blank in
      let bounded : 1 + length header + length block < 2 ^ 32 = small_headers header runs in
      (
        packet_of7 header bytes,
        serialize_bundle-packet header bytes runs bounded cut,
        deserialize_bundle-packet header bytes reads (omega (arith, bounded)) small,
      )
