-- ===== src/BlockHeader7.antt =====
-- model/bp-block-header-7.cc: the header of a block in version 7, less the field `m_length`, which
-- nothing reads; most of its setters and getters are not implemented.
pub mod Laws
use ns3_dtn.Prelude.{
  ℕ, ◌+◌, ◌-◌, ◌%◌, ◌^◌, List, [], ◌∷◌, ◌++◌, Option, none, some, ◌>>=◌, length, if◌then◌else◌,
  ◌==◌,
}
use ns3_dtn.Cbor.{Cbor}

pub record BlockHeader7 : Type 0 where
  pub block_type : ℕ
  pub processing_control_flags : ℕ
  pub crc_type : ℕ
  pub crc : ℕ
  pub block_number : ℕ

-- `BpBlockHeader7 (blockType)`
abbrev pub new_block_header7 : ℕ → BlockHeader7
new_block_header7 block_type = record {
  block_type = block_type;
  processing_control_flags = 0;
  crc_type = 0;
  crc = 0;
  block_number = 0;
}

-- `SetBlockCrcType` and `SetBlockNumber`, which do nothing, and `SetBlockCrc`.
abbrev pub set_block_crc_type : ℕ → BlockHeader7 → BlockHeader7
set_block_crc_type crc_type b = b

abbrev pub set_block_number : ℕ → BlockHeader7 → BlockHeader7
set_block_number number b = b

abbrev pub set_block_crc : ℕ → BlockHeader7 → BlockHeader7
set_block_crc crc b = record b { crc = crc }

-- `BlockCrcType`, `BlockCrc` and `BlockNumber`, whatever was set.
abbrev pub block_crc_type : BlockHeader7 → ℕ
block_crc_type b = 0

abbrev pub block_crc : BlockHeader7 → ℕ
block_crc b = 0

abbrev pub block_number_of : BlockHeader7 → ℕ
block_number_of b = 0

module _ (c : Cbor) where
  -- `SerializeAndGetSize`
  unfoldable pub serialize_and_get_size_block7 : BlockHeader7 → ℕ × List ℕ
  serialize_and_get_size_block7 b =
      let bs =
        c.encode_array_size (if b.crc_type == 0 then 5 else 6)
        ++ (c.encode_integer b.block_type
            ++ (c.encode_integer b.block_number
                ++ (c.encode_integer b.processing_control_flags ++ c.encode_integer b.crc_type))) in
      (length bs % 2 ^ 32, bs)

  unfoldable pub get_serialized_size_block7 : BlockHeader7 → ℕ
  get_serialized_size_block7 b = (serialize_and_get_size_block7 b).0

  unfoldable pub serialize_block7 : BlockHeader7 → List ℕ
  serialize_block7 b = (serialize_and_get_size_block7 b).1

  -- `Deserialize` over `b`, with the number of bytes read.
  unfoldable pub deserialize_block7 : BlockHeader7 → List ℕ → Option (BlockHeader7 × ℕ)
  deserialize_block7 b start = do
    (items, i) ← c.decode_array_size start
    (block_type, i) ← c.decode_unsigned 8 i
    (block_number, i) ← c.decode_unsigned 8 i
    (flags, i) ← c.decode_unsigned 8 i
    (crc_type, i) ← c.decode_unsigned 8 i
    let read : BlockHeader7 = record b {
      block_type = block_type;
      block_number = block_number;
      processing_control_flags = flags;
      crc_type = crc_type;
    }
    some (read, length start - length i)
