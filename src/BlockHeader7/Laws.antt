-- ===== src/BlockHeader7/Laws.antt =====
-- The bytes of a block header of version 7.
use ns3_dtn.Prelude.{
  ℕ, ◌^◌, ◌<◌, ◌≡◌, ap, arith, List, ◌++◌, some, length, length-append, if◌then◌else◌, ◌==◌,
}
use mathlib.Core.List.{append_assoc}
use native.Mathlib.Nat.{mod-eq_of_lt}
use ns3_dtn.Cbor.{Cbor, IsCodec}
use ns3_dtn.BlockHeader7.{
  BlockHeader7, serialize_and_get_size_block7, get_serialized_size_block7, serialize_block7,
  deserialize_block7,
}

-- The ranges of the fields' types.
pub record Fits (b : BlockHeader7) : Type 0 where
  pub type_fits : b.block_type < 2 ^ 8
  pub number_fits : b.block_number < 2 ^ 8
  pub flags_fit : b.processing_control_flags < 2 ^ 8
  pub crc_fits : b.crc_type < 2 ^ 8

-- `Serialize` and then `Deserialize` over any header, with any bytes behind, restores the type, the
-- number, the flags and the kind of CRC, and returns the number of bytes written, with any codec that
-- keeps its promises; and `GetSerializedSize` announces that number, if it is of 32 bits.
pub deserialize_block7-serialize_block7 :
    (c : Cbor) (b g : BlockHeader7) (rest : List ℕ)
    → IsCodec c
    → Fits b
    → length (serialize_block7 c b) < 2 ^ 32
    → (deserialize_block7 c g (serialize_block7 c b ++ rest)
        ≡ some (record b { crc = g.crc }, length (serialize_block7 c b)))
      × (get_serialized_size_block7 c b ≡ length (serialize_block7 c b))
unfolding deserialize_block7 serialize_block7 get_serialized_size_block7
    serialize_and_get_size_block7
deserialize_block7-serialize_block7 c b g rest codec fits short = (
  simp
      (
        append_assoc,
        codec.array_size_back (if b.crc_type == 0 then 5 else 6) _ few,
        codec.unsigned_back 8 b.block_type _ (omega arith) fits.type_fits,
        codec.unsigned_back 8 b.block_number _ (omega arith) fits.number_fits,
        codec.unsigned_back 8 b.processing_control_flags _ (omega arith) fits.flags_fit,
        codec.unsigned_back 8 b.crc_type _ (omega arith) fits.crc_fits,
      )
      (ap (λ (n : ℕ). some (record b { crc = g.crc }, n)) (simp length-append (omega arith))),
  mod-eq_of_lt short,
)
  where
    few : (if b.crc_type == 0 then 5 else 6) < 2 ^ 64
    few = ground arith
