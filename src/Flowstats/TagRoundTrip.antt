-- ===== src/Flowstats/TagRoundTrip.antt =====
-- A tag that a node reads as another one wrote it.
use ns3_dtn.Prelude.{
  ℕ, suc, ◌-◌, ◌%◌, ◌^◌, ◌<◌, ◌≡◌, ◌≢◌, refl, ap, sym, ◌∙◌, arith, List, [], ◌∷◌, ◌++◌, some,
  length, length-append, All,
}
use mathlib.Core.List.{append-nil}
use native.Mathlib.Nat.{mod-eq_of_lt}
use ns3_dtn.EndpointId.{EndpointId, from_uri}
use ns3_dtn.EndpointId.Total.{from_uri-some}
use ns3_dtn.Flowstats.Tag.{
  TagBuffer, IsTagBuffer, BpFlowProbeTag, zeros, text_of, strbuf, serialize_tag, read_eid,
  deserialize_tag, get_serialized_size_tag,
}

-- A text of the buffer with a NUL behind it.
text_of-zeros : (s : List ℕ) (n : ℕ) → All (λ x. x ≢ 0) s → text_of (s ++ zeros (suc n)) ≡ some s
unfolding text_of
text_of-zeros [] n no_nul = refl
text_of-zeros (x ∷ s) n (here, no_nul) = rw (text_of-zeros s n no_nul) (ground (arith, here))

-- A URI that the buffer of 1024 bytes can hold.
pub record IsHeld (uri : List ℕ) : Type 0 where
  pub no_nul : All (λ x. x ≢ 0) uri
  pub short : length uri < 1024

strbuf-text :
    (s : List ℕ) → IsHeld s → (buf : List ℕ) × (strbuf s ≡ some buf) × (text_of buf ≡ some s)
strbuf-text s held = (
  s ++ zeros (suc (1023 - length s)),
  ground (arith, held.short, enough),
  text_of-zeros s (1023 - length s) held.no_nul,
)
  where
    enough : 1024 - length s ≡ suc (1023 - length s)
    enough = omega (arith, held.short)

module _ (t : TagBuffer) (is : IsTagBuffer t) where
  read_eid-uri :
      (uri rest : List ℕ) (eid : EndpointId)
      → IsHeld uri
      → from_uri uri ≡ some eid
      → read_eid t (t.write_u32 (length uri % 2 ^ 32) ++ (t.write uri ++ rest)) ≡ some (eid, rest)
  unfolding read_eid
  read_eid-uri uri rest eid held made =
      let fits : length uri < 2 ^ 32 = omega (arith, held.short) in
      let (buf, filled, read) = strbuf-text uri held in
      rw (mod-eq_of_lt fits) (
        rw (is.u32_back (length uri) (t.write uri ++ rest) fits)
          (rw (is.bytes_back uri rest) (rw filled (rw read (rw made refl)))))

  -- What `Serialize` writes of a tag, `Deserialize` reads as a tag with the same numbers and with
  -- ids of the same URIs, and `GetSerializedSize` is the number of bytes: the numbers have 32 bits, and
  -- each URI has fewer than 1024 bytes, none of them NUL.
  pub deserialize_tag-serialize_tag :
      (tag : BpFlowProbeTag)
      → tag.flow_id < 2 ^ 32
      → tag.packet_id < 2 ^ 32
      → tag.packet_size < 2 ^ 32
      → IsHeld tag.src.uri
      → IsHeld tag.dst.uri
      → ((src dst : EndpointId) × (deserialize_tag t (serialize_tag t tag)
            ≡ some (record tag { src = src; dst = dst }))
          × (src.uri ≡ tag.src.uri)
          × (dst.uri ≡ tag.dst.uri))
        × (length (serialize_tag t tag) ≡ get_serialized_size_tag tag)
  unfolding deserialize_tag serialize_tag get_serialized_size_tag
  deserialize_tag-serialize_tag tag flow packet size src_held dst_held =
      let dst_bytes : List ℕ = t.write_u32 (length tag.dst.uri % 2 ^ 32) ++ t.write tag.dst.uri in
      let (src, src_made, src_uri) = from_uri-some tag.src.uri (omega (arith, src_held.short)) in
      let (dst, dst_made, dst_uri) = from_uri-some tag.dst.uri (omega (arith, dst_held.short)) in
      let read_dst : read_eid t dst_bytes ≡ some (dst, []) =
        ap (λ (ys : List ℕ). read_eid t (t.write_u32 (length tag.dst.uri % 2 ^ 32) ++ ys))
          (sym (append-nil (t.write tag.dst.uri)))
        ∙ read_eid-uri tag.dst.uri [] dst dst_held dst_made in
      (
        (
          src,
          dst,
          rw (is.u32_back tag.flow_id _ flow) (
              rw (is.u32_back tag.packet_id _ packet) (
                rw (is.u32_back tag.packet_size _ size) (
                  rw (read_eid-uri tag.src.uri dst_bytes src src_held src_made)
                    (rw read_dst refl)))),
          src_uri,
          dst_uri,
        ),
        simp (length-append, is.u32_size, is.bytes_size)
            (omega (arith, src_held.short, dst_held.short)),
      )
