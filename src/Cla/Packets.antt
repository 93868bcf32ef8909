-- ===== src/Cla/Packets.antt =====
-- What arrives is what was sent.
use ns3_dtn.Prelude.{
  ℕ, ◌-◌, ◌^◌, ◌<◌, ◌≡◌, ◌≤◌, refl, ap, sym, ◌∙◌, arith, Bool, List, [], ◌∷◌, ◌++◌, Option, some,
  ◌>>=◌, length, drop, map, All, length-append,
}
use mathlib.Core.List.{append_assoc}
use ns3_dtn.Header6.{Unset, new_header6}
use ns3_dtn.Header6.Wire
use ns3_dtn.Header6.RoundTrip
use ns3_dtn.Header6.RoundTrip.{deserialize-serialize, get_serialized_size-length}
use ns3_dtn.BlockHeader
use ns3_dtn.BlockHeader.{new_block_header6, bundle_payload_block}
use ns3_dtn.BlockHeader.Laws.{deserialize-serialize_block, serialize_room}
use ns3_dtn.Forward.{Sent}
use ns3_dtn.Agent.Reassembly.Pieces.{bundle_of}
use ns3_dtn.Cla.{add_header, packet_of, bundle_from, data_recv}

-- A packet's headers have fields in their types' ranges, a lifetime of whole seconds, and a payload
-- block that its header has room to announce; both sides use the same kind of header.
pub record CanSend {Time : Type 0} (get_seconds : Time → ℕ) (seconds : ℕ → Time) (cbhe : Bool)
    (s : Sent Time) : Type 0 where
  pub header_fits : RoundTrip.Fits get_seconds s.header
  pub header_length : length (Wire.serialize get_seconds s.header) < 2 ^ 32
  pub whole_seconds : seconds (get_seconds s.header.life_time) ≡ s.header.life_time
  pub same_kind : s.header.cbhe ≡ cbhe
  pub six_bytes : s.payload_header.header_length ≡ 6
  pub flags_fit : s.payload_header.processing_control_flags < 2 ^ 7
  pub piece_fits : s.payload_header.block_length < 2 ^ 28

drop-append : (xs ys : List ℕ) → drop (length xs) (xs ++ ys) ≡ ys
drop-append [] ys = refl
drop-append (x ∷ xs) ys = drop-append xs ys

-- The room of a header, with what is written in it.
add_header-room :
    (fill : ℕ → List ℕ) (announced : ℕ) (written packet : List ℕ)
    → length written ≤ announced
    → add_header fill announced written packet
      ≡ some (written ++ (fill (announced - length written) ++ packet))
add_header-room fill announced written packet room = ground (arith, room)

drop-room :
    (fill : ℕ → List ℕ) (announced : ℕ) (written packet : List ℕ)
    → ((n : ℕ) → length (fill n) ≡ n)
    → length written ≤ announced
    → drop announced (written ++ (fill (announced - length written) ++ packet)) ≡ packet
drop-room fill announced written packet filled room =
    ap (λ (bs : List ℕ). drop announced bs) (sym (append_assoc written left packet))
    ∙ ap (λ (n : ℕ). drop n ((written ++ left) ++ packet)) whole
    ∙ drop-append (written ++ left) packet
  where
    left : List ℕ
    left = fill (announced - length written)

    whole : announced ≡ length (written ++ left)
    whole = omega (arith, length-append written left, filled (announced - length written), room)

module _ {Time : Type 0} (zero_time : Time) (get_seconds : Time → ℕ) (seconds : ℕ → Time)
    (unset : Unset) (fill : ℕ → List ℕ) (filled : (n : ℕ) → length (fill n) ≡ n) (cbhe : Bool) where
  -- What follows the primary header.
  behind : Sent Time → List ℕ
  behind s =
      BlockHeader.serialize s.payload_header
      ++ (fill (6 - length (BlockHeader.serialize s.payload_header)) ++ s.piece)

  bytes_of : Sent Time → List ℕ
  bytes_of s = Wire.serialize get_seconds s.header ++ (fill 0 ++ behind s)

  room :
      (s : Sent Time)
      → CanSend get_seconds seconds cbhe s
      → length (BlockHeader.serialize s.payload_header) ≤ 6
  room s can = ground (
    arith,
    serialize_room s.payload_header can.six_bytes can.flags_fit (omega (arith, can.piece_fits)),
    can.piece_fits,
    can.six_bytes,
  )

  packet_of-bytes :
      (s : Sent Time)
      → CanSend get_seconds seconds cbhe s
      → packet_of fill get_seconds s ≡ some (bytes_of s)
  unfolding packet_of bytes_of behind
  packet_of-bytes s can =
      ap
        (λ (n : ℕ).
          add_header fill n (BlockHeader.serialize s.payload_header) s.piece
          >>= add_header fill (Wire.get_serialized_size get_seconds s.header) written)
        can.six_bytes
      ∙ ap
          (λ (o : Option (List ℕ)).
            o >>= add_header fill (Wire.get_serialized_size get_seconds s.header) written)
          (add_header-room fill 6 (BlockHeader.serialize s.payload_header) s.piece (room s can))
      ∙ ap (λ (n : ℕ). add_header fill n written (behind s))
          (get_serialized_size-length get_seconds s.header can.header_length)
      ∙ add_header-room fill (length written) written (behind s) (omega arith)
      ∙ ap (λ (n : ℕ). some (written ++ (fill n ++ behind s))) (omega arith)
    where
      written : List ℕ
      written = Wire.serialize get_seconds s.header

  reads_header :
      (s : Sent Time)
      → CanSend get_seconds seconds cbhe s
      → Wire.deserialize seconds (new_header6 zero_time unset cbhe) (bytes_of s)
        ≡ some (s.header, length (Wire.serialize get_seconds s.header))
  unfolding bytes_of
  reads_header s can =
      deserialize-serialize get_seconds seconds s.header (new_header6 zero_time unset cbhe)
        (fill 0 ++ behind s) can.header_fits can.whole_seconds
      ∙ ap
          (λ (b : Bool). some (
            record s.header { base = record s.header.base { cbhe = b } },
            length (Wire.serialize get_seconds s.header),
          ))
          (sym can.same_kind)

  after_header :
      (s : Sent Time) → drop (length (Wire.serialize get_seconds s.header)) (bytes_of s) ≡ behind s
  unfolding bytes_of
  after_header s =
      drop-append (Wire.serialize get_seconds s.header) (fill 0 ++ behind s)
      ∙ ap (λ (bs : List ℕ). bs ++ behind s) (no_bytes (fill 0) (filled 0))
    where
      no_bytes : (bs : List ℕ) → length bs ≡ 0 → bs ≡ []
      no_bytes [] e = refl
      no_bytes (b ∷ bs) e = absurd (omega (arith, e))

  reads_payload :
      (s : Sent Time)
      → CanSend get_seconds seconds cbhe s
      → BlockHeader.deserialize (new_block_header6 bundle_payload_block) (behind s)
        ≡ some (s.payload_header, 6)
  unfolding behind
  reads_payload s can =
      deserialize-serialize_block s.payload_header (new_block_header6 bundle_payload_block) _
        (record {
          flags_fit = omega (arith, can.flags_fit);
          length_fits = omega (arith, can.piece_fits);
        })
      ∙ ap (λ (n : ℕ). some (record s.payload_header { header_length = n }, 6)) (sym can.six_bytes)

  after_payload : (s : Sent Time) → CanSend get_seconds seconds cbhe s → drop 6 (behind s) ≡ s.piece
  unfolding behind
  after_payload s can =
      drop-room fill 6 (BlockHeader.serialize s.payload_header) s.piece filled (room s can)

  bundle_from-bytes :
      (s : Sent Time)
      → CanSend get_seconds seconds cbhe s
      → bundle_from zero_time seconds unset cbhe (bytes_of s) ≡ some (bundle_of s)
  unfolding bundle_from
  bundle_from-bytes s can =
      rw (reads_header s can)
        (rw (after_header s) (rw (reads_payload s can) (rw (after_payload s can) refl)))

  -- `DataRecv` on the packets that `SendBundle` has made restores the bundles that were sent, in
  -- order: both headers with all their fields, and the pieces of data, whatever the bytes are that
  -- fill the room that a payload header announces and does not use. The lifetimes are whole seconds,
  -- the pieces below 2 ^ 28 bytes, the fields in their ranges, and both sides use CBHE or neither.
  pub data_recv-packet_of :
      (sent : List (Sent Time))
      → All (CanSend get_seconds seconds cbhe) sent
      → (packets : List (List ℕ)) × (map (packet_of fill get_seconds) sent ≡ map some packets)
        × (data_recv zero_time seconds unset cbhe packets ≡ some (map bundle_of sent))
  unfolding data_recv
  data_recv-packet_of [] can = ([], refl, refl)
  data_recv-packet_of (s ∷ ss) (can, more) =
      let (packets, made, read) = data_recv-packet_of ss more in
      (
        bytes_of s ∷ packets,
        rw (packet_of-bytes s can, made) refl,
        rw (bundle_from-bytes s can) (rw read refl),
      )
