-- ===== src/Header7/RoundTrip.antt =====
-- `Deserialize` reads back what `Serialize` wrote, with any codec that keeps its promises.
pub mod Size
use ns3_dtn.Prelude.{
  ℕ, ◌+◌, ◌-◌, ◌*◌, ◌/◌, ◌%◌, ◌^◌, ◌<◌, ◌≤◌, ◌≡◌, refl, ap, sym, ◌∙◌, arith, Bool, true, false,
  List, [], ◌∷◌, ◌++◌, some, length, length-append, All, if◌then◌else◌,
}
use mathlib.Core.List.{append_assoc}
use mathlib.Core.Option.{some-injective}
use ns3_dtn.Header.{is_fragment}
use ns3_dtn.Cbor.{Cbor, IsCodec}
use ns3_dtn.Header7.{Header7}
use ns3_dtn.Header7.Wire.{
  written, counted7, encode_eid, decode_eid, items, serialize_and_get_size7, get_serialized_size7,
  serialize7, deserialize7,
}
use ns3_dtn.Header7.Ids.{Sendable, encode_eid-Sendable}

-- The ranges of the fields' types, a lifetime of 32 bits of milliseconds, and ids that the format
-- can hold.
pub record Fits7 {Time : Type 0} (get_milli : Time → ℕ) (milli : ℕ → Time) (h : Header7 Time)
    : Type 0 where
  pub version_fits : h.base.version < 2 ^ 8
  pub flags_fit : h.base.processing_flags < 2 ^ 32
  pub timestamp_fits : h.base.create_timestamp < 2 ^ 32
  pub seq_fits : h.base.timestamp_seq_num < 2 ^ 32
  pub life_fits : get_milli h.base.life_time < 2 ^ 32
  pub whole_milli : milli (get_milli h.base.life_time) ≡ h.base.life_time
  pub offset_fits : h.base.frag_offset < 2 ^ 32
  pub adu_fits : h.base.adu_length < 2 ^ 32
  pub dst_sendable : Sendable h.dst_eid
  pub src_sendable : Sendable h.src_eid
  pub report_sendable : Sendable h.report_eid

-- What a receiver that starts with `g` knows of a header: all that is transmitted, which the offset
-- and the length of a bundle that is no fragment are not.
abbrev pub received : {Time : Type 0} → Header7 Time → Header7 Time → Header7 Time
received g h = record h {
  base = record h.base {
    frag_offset = if is_fragment h.base then h.base.frag_offset else g.base.frag_offset;
    adu_length = if is_fragment h.base then h.base.adu_length else g.base.adu_length;
    cbhe = g.base.cbhe;
  };
  block_length = g.block_length;
}

-- A header that has no texts yet.
pub record IsBlank {Time : Type 0} (g : Header7 Time) : Type 0 where
  pub no_dst : g.dst_eid.ssp ≡ []
  pub no_src : g.src_eid.ssp ≡ []
  pub no_report : g.report_eid.ssp ≡ []

module _ (c : Cbor) (codec : IsCodec c) {Time : Type 0} (get_milli : Time → ℕ) (milli : ℕ → Time)
    (h : Header7 Time) (fits : Fits7 get_milli milli h) where
  -- The bytes of the three ids.
  pub dst : List ℕ
  dst = (encode_eid-Sendable c codec h.dst_eid fits.dst_sendable).0

  pub src : List ℕ
  src = (encode_eid-Sendable c codec h.src_eid fits.src_sendable).0

  pub report : List ℕ
  report = (encode_eid-Sendable c codec h.report_eid fits.report_sendable).0

  pub all_items : List (List ℕ × ℕ)
  all_items =
      items c get_milli (dst, length dst % 2 ^ 8) (src, length src % 2 ^ 8)
        (report, length report % 2 ^ 8) h.base

  pub serialize_and_get_size7-items :
      serialize_and_get_size7 c get_milli h ≡ some (counted7 all_items, written all_items)
  unfolding serialize_and_get_size7 dst src report all_items
  serialize_and_get_size7-items = rw (encode_eid-Sendable c codec h.dst_eid fits.dst_sendable).1 (
      rw (encode_eid-Sendable c codec h.src_eid fits.src_sendable).1
        (rw (encode_eid-Sendable c codec h.report_eid fits.report_sendable).1 refl))

  module _ (g : Header7 Time) (blank : IsBlank g) (rest : List ℕ) where
    reads_dst : (i : List ℕ) → decode_eid c g.dst_eid.ssp (dst ++ i) ≡ some (h.dst_eid, i)
    unfolding dst
    reads_dst i = rw blank.no_dst ((encode_eid-Sendable c codec h.dst_eid fits.dst_sendable).2 i)

    reads_src : (i : List ℕ) → decode_eid c g.src_eid.ssp (src ++ i) ≡ some (h.src_eid, i)
    unfolding src
    reads_src i = rw blank.no_src ((encode_eid-Sendable c codec h.src_eid fits.src_sendable).2 i)

    reads_report :
        (i : List ℕ) → decode_eid c g.report_eid.ssp (report ++ i) ≡ some (h.report_eid, i)
    unfolding report
    reads_report i =
        rw blank.no_report ((encode_eid-Sendable c codec h.report_eid fits.report_sendable).2 i)

    deserialize7-items :
        (fragment : Bool)
        → is_fragment h.base ≡ fragment
        → deserialize7 c milli g (written all_items ++ rest)
          ≡ some (received g h, length (written all_items ++ rest) - length rest)
    unfolding deserialize7 all_items
    deserialize7-items true e = rw e (
        simp (
          append_assoc,
          codec.array_size_back 10 _ (omega arith),
          codec.unsigned_back 8 h.base.version _ (omega arith) fits.version_fits,
          codec.unsigned_back 32 h.base.processing_flags _ (omega arith) fits.flags_fit,
          codec.unsigned_back 64 0 _ (omega arith) (omega arith),
          reads_dst,
          reads_src,
          reads_report,
          codec.array_size_back 2 _ (omega arith),
          codec.unsigned_back 32 h.base.create_timestamp _ (omega arith) fits.timestamp_fits,
          codec.unsigned_back 32 h.base.timestamp_seq_num _ (omega arith) fits.seq_fits,
          codec.unsigned_back 32 (get_milli h.base.life_time) _ (omega arith) fits.life_fits,
          codec.unsigned_back 32 h.base.frag_offset _ (omega arith) fits.offset_fits,
          codec.unsigned_back 32 h.base.adu_length _ (omega arith) fits.adu_fits,
          fits.whole_milli,
        ))
    deserialize7-items false e = rw e (
        simp (
          append_assoc,
          codec.array_size_back 8 _ (omega arith),
          codec.unsigned_back 8 h.base.version _ (omega arith) fits.version_fits,
          codec.unsigned_back 32 h.base.processing_flags _ (omega arith) fits.flags_fit,
          codec.unsigned_back 64 0 _ (omega arith) (omega arith),
          reads_dst,
          reads_src,
          reads_report,
          codec.array_size_back 2 _ (omega arith),
          codec.unsigned_back 32 h.base.create_timestamp _ (omega arith) fits.timestamp_fits,
          codec.unsigned_back 32 h.base.timestamp_seq_num _ (omega arith) fits.seq_fits,
          codec.unsigned_back 32 (get_milli h.base.life_time) _ (omega arith) fits.life_fits,
          fits.whole_milli,
        ))

  pub serialize7-items : serialize7 c get_milli h ≡ some (written all_items)
  unfolding serialize7
  serialize7-items = rw serialize_and_get_size7-items refl

  -- `Serialize` and then `Deserialize` over a header without texts, with any bytes behind it,
  -- restores all that is transmitted and returns the number of bytes written, with any codec that
  -- keeps its promises: the fields lie in the ranges of their types, the lifetime is one of 32 bits of
  -- milliseconds, and each id is a text other than "none" or a pair of numbers.
  pub deserialize7-serialize7 :
      (g : Header7 Time)
      → IsBlank g
      → (bs : List ℕ) × (serialize7 c get_milli h ≡ some bs)
        × ((rest : List ℕ) → deserialize7 c milli g (bs ++ rest) ≡ some (received g h, length bs))
  deserialize7-serialize7 g blank = (
    written all_items,
    serialize7-items,
    λ rest.
        deserialize7-items g blank rest (is_fragment h.base) refl
        ∙ ap (λ (n : ℕ). some (received g h, n))
            (omega (arith, length-append (written all_items) rest)),
  )
