-- ===== src/Header7/RoundTrip/Size.antt =====
-- How many bytes `GetSerializedSize` announces.
use ns3_dtn.Prelude.{
  ℕ, ◌+◌, ◌-◌, ◌*◌, ◌/◌, ◌%◌, ◌^◌, ◌<◌, ◌≤◌, ◌≡◌, refl, ap, sym, ◌∙◌, arith, Bool, true, false,
  List, [], ◌∷◌, some, length, length-append, All,
}
use mathlib.Core.Option.{some-injective}
use ns3_dtn.Header.{is_fragment}
use ns3_dtn.Cbor.{Cbor, IsCodec}
use ns3_dtn.Header7.{Header7}
use ns3_dtn.Header7.Wire.{written, counted7, encode_eid, get_serialized_size7, serialize7}
use ns3_dtn.Header7.Ids.{encode_eid-Sendable}
use ns3_dtn.Header7.RoundTrip.{
  Fits7, dst, src, report, all_items, serialize_and_get_size7-items, serialize7-items,
}

sub_self : (n : ℕ) → n - n ≡ 0
sub_self n = omega arith

sub_mod : (n : ℕ) → n - n % 2 ^ 8 ≡ 256 * (n / 256)
sub_mod n = omega arith

-- What is written and not counted.
abbrev lost : List (List ℕ × ℕ) → ℕ
lost [] = 0
lost ((bs, n) ∷ ps) = (length bs - n) + lost ps

counted7-lost :
    (ps : List (List ℕ × ℕ))
    → All (λ p. p.1 ≤ length p.0) ps
    → length (written ps) < 2 ^ 32
    → counted7 ps + lost ps ≡ length (written ps)
counted7-lost [] all short = refl
counted7-lost ((bs, n) ∷ ps) (less, all) short = omega (
  arith,
  length-append bs (written ps),
  less,
  counted7-lost ps all (omega (arith, length-append bs (written ps))),
)

module _ (c : Cbor) (codec : IsCodec c) {Time : Type 0} (get_milli : Time → ℕ) (milli : ℕ → Time)
    (h : Header7 Time) (fits : Fits7 get_milli milli h) where
  dst_bytes : List ℕ
  dst_bytes = dst c codec get_milli milli h fits

  src_bytes : List ℕ
  src_bytes = src c codec get_milli milli h fits

  report_bytes : List ℕ
  report_bytes = report c codec get_milli milli h fits

  wire : List (List ℕ × ℕ)
  wire = all_items c codec get_milli milli h fits

  wire-lost :
      (fragment : Bool)
      → is_fragment h.base ≡ fragment
      → All (λ p. p.1 ≤ length p.0) wire
        × (lost wire
            ≡ 256 * (length dst_bytes / 256 + length src_bytes / 256 + length report_bytes / 256))
  unfolding wire all_items dst_bytes src_bytes report_bytes dst src report
  wire-lost true e = rw e (ground arith, simp (sub_self, sub_mod) (omega arith))
  wire-lost false e = rw e (ground arith, simp (sub_self, sub_mod) (omega arith))

  -- `GetSerializedSize` announces the number of bytes that `Serialize` writes, if that is of 32
  -- bits, less 256 for every 256 bytes of each of the three ids, since `EncodeEID` returns its length
  -- in 8 bits. The codec keeps its promises, the fields lie in the ranges of their types, the lifetime
  -- is one of 32 bits of milliseconds, and each id is a text other than "none" or a pair of numbers.
  pub get_serialized_size7-length :
      (bs : List ℕ)
      → serialize7 c get_milli h ≡ some bs
      → length bs < 2 ^ 32
      → (size : ℕ) × (a b d : List ℕ) × (get_serialized_size7 c get_milli h ≡ some size)
        × (encode_eid c h.dst_eid ≡ some (a, length a % 2 ^ 8))
        × (encode_eid c h.src_eid ≡ some (b, length b % 2 ^ 8))
        × (encode_eid c h.report_eid ≡ some (d, length d % 2 ^ 8))
        × (size + 256 * (length a / 256 + length b / 256 + length d / 256) ≡ length bs)
  unfolding get_serialized_size7 dst_bytes src_bytes report_bytes wire dst src report
  get_serialized_size7-length bs runs short = (
    counted7 wire,
    dst_bytes,
    src_bytes,
    report_bytes,
    rw (serialize_and_get_size7-items c codec get_milli milli h fits) refl,
    (encode_eid-Sendable c codec h.dst_eid fits.dst_sendable).1,
    (encode_eid-Sendable c codec h.src_eid fits.src_sendable).1,
    (encode_eid-Sendable c codec h.report_eid fits.report_sendable).1,
    lengths,
  )
    where
      same : written wire ≡ bs
      same = some-injective _ _ (sym (serialize7-items c codec get_milli milli h fits) ∙ runs)

      lengths :
          counted7 wire
            + 256 * (length dst_bytes / 256 + length src_bytes / 256 + length report_bytes / 256)
          ≡ length bs
      lengths =
          let (all, losses) = wire-lost (is_fragment h.base) refl in
          omega (
            arith,
            losses,
            ap length same,
            counted7-lost wire all (omega (arith, ap length same, short)),
          )
