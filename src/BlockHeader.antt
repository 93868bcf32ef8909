-- ===== src/BlockHeader.antt =====
-- model/bp-block-header.cc and bp-block-header-6.cc: the header of a block, its processing control
-- flags, and its bytes in version 6.
pub mod Laws
use ns3_dtn.Prelude.{ℕ, ◌+◌, ◌%◌, ◌^◌, Bool, List, [], ◌∷◌, ◌++◌, Option, none, some, ◌>>=◌}
use ns3_dtn.Prelude.Words.{put_mask, has_mask}
use ns3_dtn.Header6.Wire.{read_u8}
use ns3_dtn.Sdnv.{encode, decode}

-- `BpBlockHeader6` with the fields of `BpBlockHeader`.
pub record BlockHeader6 : Type 0 where
  pub header_length : ℕ
  pub block_type : ℕ
  pub processing_control_flags : ℕ
  pub block_length : ℕ

abbrev pub bundle_payload_block : ℕ
bundle_payload_block = 1

-- `BpBlockHeader6 (blockType)`
abbrev pub new_block_header6 : ℕ → BlockHeader6
new_block_header6 block_type = record {
  header_length = 6;
  block_type = block_type;
  processing_control_flags = 0;
  block_length = 0;
}

-- `ProcessingControlFlags` and, from `last_block` on, `ProcessingControlFlags6`.
pub data BlockFlag : Type 0 where
  block_replicate tx_status_report delete_block discard_block : BlockFlag
  last_block forward_without_process eid_reference : BlockFlag

abbrev pub shift : BlockFlag → ℕ
shift block_replicate = 0
shift tx_status_report = 1
shift delete_block = 2
shift discard_block = 4
shift last_block = 3
shift forward_without_process = 5
shift eid_reference = 6

-- The body that the setters share, on the 8-bit word of flags.
unfoldable pub set_flag : BlockFlag → Bool → BlockHeader6 → BlockHeader6
set_flag f value b = record b {
  processing_control_flags = put_mask 8 (2 ^ shift f) value b.processing_control_flags;
}

-- The body that the getters share.
unfoldable pub flag : BlockFlag → BlockHeader6 → Bool
flag f b = has_mask (2 ^ shift f) b.processing_control_flags

abbrev pub set_block_replicate : Bool → BlockHeader6 → BlockHeader6
set_block_replicate = set_flag block_replicate

abbrev pub set_tx_status_report : Bool → BlockHeader6 → BlockHeader6
set_tx_status_report = set_flag tx_status_report

abbrev pub set_delete_block : Bool → BlockHeader6 → BlockHeader6
set_delete_block = set_flag delete_block

abbrev pub set_discard_block : Bool → BlockHeader6 → BlockHeader6
set_discard_block = set_flag discard_block

abbrev pub set_last_block : Bool → BlockHeader6 → BlockHeader6
set_last_block = set_flag last_block

abbrev pub set_forward_without_process : Bool → BlockHeader6 → BlockHeader6
set_forward_without_process = set_flag forward_without_process

abbrev pub set_eid_reference : Bool → BlockHeader6 → BlockHeader6
set_eid_reference = set_flag eid_reference

abbrev pub set_block_length : ℕ → BlockHeader6 → BlockHeader6
set_block_length len b = record b { block_length = len }

-- `GetSerializedSize`
abbrev pub get_serialized_size : BlockHeader6 → ℕ
get_serialized_size b = b.header_length

-- `Serialize`, as the bytes that it writes.
unfoldable pub serialize : BlockHeader6 → List ℕ
serialize b = b.block_type ∷ (encode b.processing_control_flags ++ encode b.block_length)

-- `Deserialize` over `b`, with the length that it returns; `none` is a read past the end.
unfoldable pub deserialize : BlockHeader6 → List ℕ → Option (BlockHeader6 × ℕ)
deserialize b start = do
  (block_type, i) ← read_u8 start
  (flags, i) ← decode i
  (block_length, i) ← decode i
  let read : BlockHeader6 = record b {
    block_type = block_type;
    processing_control_flags = flags % 2 ^ 8;
    block_length = block_length % 2 ^ 32;
  }
  some (read, get_serialized_size read)
