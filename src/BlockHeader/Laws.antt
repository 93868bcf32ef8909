-- ===== src/BlockHeader/Laws.antt =====
-- The flags of a block header, and its bytes.
use ns3_dtn.Prelude.{ltb, leb, Bool-cases, inl, inr}
use ns3_dtn.Prelude.{ℕ, ◌^◌, ◌<◌, ◌≤◌, ◌≡◌, refl, Bool, true, false, arith, length, length-append}
use ns3_dtn.Prelude.{List, ◌++◌, some, ◌==◌, if◌then◌else◌}
use ns3_dtn.Prelude.Words.{has_mask-put_mask, eight}
use ns3_dtn.BlockHeader.{
  BlockHeader6, BlockFlag, shift, set_flag, flag, serialize, deserialize, get_serialized_size,
}
use ns3_dtn.Sdnv.{encode}
use ns3_dtn.Sdnv.Encode.{length-encode-le, length-encode-ge, encode_shape}
use ns3_dtn.Sdnv.RoundTrip.{decode-encode}
use mathlib.Core.List.{append_assoc}
use native.Mathlib.Nat.{mod-eq_of_lt}

-- Whether two flags are the same; their bits tell.
abbrev pub same_flag : BlockFlag → BlockFlag → Bool
same_flag f g = shift f == shift g

shift-lt : (f : BlockFlag) → shift f < 8
shift-lt f = ground arith

-- After a setter of a block's flag its getter returns the value that was set, every other getter
-- of a flag returns what it returned before, and the other fields are unchanged.
pub flag-set_flag_block :
    (f g : BlockFlag) (value : Bool) (b : BlockHeader6)
    → (flag g (set_flag f value b) ≡ (if same_flag f g then value else flag g b))
      × (record (set_flag f value b) { processing_control_flags = b.processing_control_flags } ≡ b)
unfolding flag set_flag
flag-set_flag_block f g value b = (
  has_mask-put_mask (eight refl) (shift f) (shift g) (shift-lt f) (shift-lt g) value
      b.processing_control_flags,
  refl,
)

pub record Fits (b : BlockHeader6) : Type 0 where
  pub flags_fit : b.processing_control_flags < 2 ^ 8
  pub length_fits : b.block_length < 2 ^ 32

-- `Deserialize` on what `Serialize` wrote, with any bytes behind it, restores the type, the flags
-- and the block length of a header whose fields lie in their types' ranges.
pub deserialize-serialize_block :
    (b g : BlockHeader6) (rest : List ℕ)
    → Fits b
    → deserialize g (serialize b ++ rest)
      ≡ some (record b { header_length = g.header_length }, g.header_length)
unfolding deserialize serialize
deserialize-serialize_block b g rest f = simp (
  append_assoc,
  decode-encode b.processing_control_flags (encode b.block_length ++ rest)
      (omega (arith, f.flags_fit)),
  decode-encode b.block_length rest (omega (arith, f.length_fits)),
  mod-eq_of_lt f.flags_fit,
  mod-eq_of_lt f.length_fits,
)

-- A header that announces six bytes, as a new one does, writes at most six exactly if the block
-- length is below 2 ^ 28; its flags are those that the setters can set.
pub serialize_room :
    (b : BlockHeader6)
    → b.header_length ≡ 6
    → b.processing_control_flags < 2 ^ 7
    → b.block_length < 2 ^ 32
    → leb (length (serialize b)) (get_serialized_size b) ≡ ltb b.block_length (2 ^ 28)
unfolding serialize
serialize_room b six flags fits = elim (Bool-cases (ltb b.block_length (2 ^ 28))) [
  | inl e ↦ rw e (within _ (small (ground arith)))
  | inr e ↦ rw e (beyond _ (large (ground arith)))
]
  where
    within : (n : ℕ) → n ≤ b.header_length → leb n b.header_length ≡ true
    within n h = ground arith

    beyond : (n : ℕ) → b.header_length < n → leb n b.header_length ≡ false
    beyond n h = ground arith

    small : b.block_length < 2 ^ 28 → length (serialize b) ≤ b.header_length
    small h = omega (
      arith,
      length-append (encode b.processing_control_flags) (encode b.block_length),
      length-encode-le 0 b.processing_control_flags (omega arith),
      length-encode-le 3 b.block_length (omega arith),
    )

    large : 2 ^ 28 ≤ b.block_length → b.header_length < length (serialize b)
    large h = omega (
      arith,
      length-append (encode b.processing_control_flags) (encode b.block_length),
      (encode_shape b.processing_control_flags (omega arith)).1,
      length-encode-ge 3 b.block_length (omega arith) (omega arith),
    )
