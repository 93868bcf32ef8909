-- ===== src/Flowstats/Tag.antt =====
-- `BpFlowProbeTag`: what the probe of a node writes on a bundle. `TagBuffer` belongs to ns-3: the
-- bytes that it writes, and what it reads with the bytes left, `none` for a read past the end.
use ns3_dtn.Prelude.{
  ℕ, zero, suc, ◌+◌, ◌-◌, ◌%◌, ◌^◌, ◌<◌, ◌≡◌, List, [], ◌∷◌, ◌++◌, Option, none, some, ◌>>=◌,
  length, if◌then◌else◌, ltb, ◌==◌,
}
use ns3_dtn.EndpointId.{EndpointId, empty_eid, from_uri}

pub record TagBuffer : Type 0 where
  pub write_u32 : ℕ → List ℕ
  pub write : List ℕ → List ℕ
  pub read_u32 : List ℕ → Option (ℕ × List ℕ)
  pub read : ℕ → List ℕ → Option (List ℕ × List ℕ)

-- What ns-3 says of it: what was written is read back, and takes the bytes that it has.
pub record IsTagBuffer (t : TagBuffer) : Type 0 where
  pub u32_back :
      (n : ℕ) (rest : List ℕ) → n < 2 ^ 32 → t.read_u32 (t.write_u32 n ++ rest) ≡ some (n, rest)
  pub bytes_back :
      (bytes rest : List ℕ) → t.read (length bytes) (t.write bytes ++ rest) ≡ some (bytes, rest)
  pub u32_size : (n : ℕ) → length (t.write_u32 n) ≡ 4
  pub bytes_size : (bytes : List ℕ) → length (t.write bytes) ≡ length bytes

pub record BpFlowProbeTag : Type 0 where
  pub flow_id : ℕ
  pub packet_id : ℕ
  pub packet_size : ℕ
  pub src : EndpointId
  pub dst : EndpointId

-- `BpFlowProbeTag ()`; what it leaves unset is an argument.
abbrev pub empty_tag : ℕ → ℕ → ℕ → BpFlowProbeTag
empty_tag flow_id packet_id packet_size = record {
  flow_id = flow_id;
  packet_id = packet_id;
  packet_size = packet_size;
  src = empty_eid;
  dst = empty_eid;
}

-- `SetFlowId`, `SetPacketId` and `SetPacketSize`
abbrev pub set_flow_id : ℕ → BpFlowProbeTag → BpFlowProbeTag
set_flow_id id tag = record tag { flow_id = id }

abbrev pub set_packet_id : ℕ → BpFlowProbeTag → BpFlowProbeTag
set_packet_id id tag = record tag { packet_id = id }

abbrev pub set_packet_size : ℕ → BpFlowProbeTag → BpFlowProbeTag
set_packet_size size tag = record tag { packet_size = size }

abbrev pub zeros : ℕ → List ℕ
zeros zero = []
zeros (suc n) = 0 ∷ zeros n

-- `std::string ((char*) strbuf)`; without a NUL the read leaves the buffer, which is `none`.
unfoldable pub text_of : List ℕ → Option (List ℕ)
text_of [] = none
text_of (x ∷ s) =
    let rest = text_of s in if x == 0 then some [] else (rest >>= λ text. some (x ∷ text))

-- The buffer of 1024 bytes after a read of `bytes`, which is `none` if they do not fit.
abbrev pub strbuf : List ℕ → Option (List ℕ)
strbuf bytes = if ltb 1024 (length bytes) then none else some (bytes ++ zeros (1024 - length bytes))

module _ (t : TagBuffer) where
  unfoldable pub serialize_tag : BpFlowProbeTag → List ℕ
  serialize_tag tag =
      t.write_u32 tag.flow_id
      ++ (t.write_u32 tag.packet_id
          ++ (t.write_u32 tag.packet_size
              ++ (t.write_u32 (length tag.src.uri % 2 ^ 32)
                  ++ (t.write tag.src.uri
                      ++ (t.write_u32 (length tag.dst.uri % 2 ^ 32) ++ t.write tag.dst.uri)))))

  -- A text with its length in front.
  unfoldable pub read_eid : List ℕ → Option (EndpointId × List ℕ)
  unfolding text_of
  read_eid i = do
    (sz, i) ← t.read_u32 i
    (bytes, i) ← t.read sz i
    buf ← strbuf bytes
    str ← text_of buf
    eid ← from_uri str
    some (eid, i)

  -- `Deserialize`, which sets every field.
  unfoldable pub deserialize_tag : List ℕ → Option BpFlowProbeTag
  unfolding read_eid
  deserialize_tag i = do
    (flow_id, i) ← t.read_u32 i
    (packet_id, i) ← t.read_u32 i
    (packet_size, i) ← t.read_u32 i
    (src, i) ← read_eid i
    (dst, i) ← read_eid i
    some (record {
      flow_id = flow_id;
      packet_id = packet_id;
      packet_size = packet_size;
      src = src;
      dst = dst;
    })

-- `GetSerializedSize`
unfoldable pub get_serialized_size_tag : BpFlowProbeTag → ℕ
get_serialized_size_tag tag = (4 + 4 + 4 + 4 + length tag.src.uri + 4 + length tag.dst.uri) % 2 ^ 32
