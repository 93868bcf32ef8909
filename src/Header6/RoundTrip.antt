-- ===== src/Header6/RoundTrip.antt =====
-- `Deserialize` reads back what `Serialize` wrote.
use ns3_dtn.Prelude.{ℕ, ◌+◌, ◌-◌, ◌%◌, ◌^◌, ◌<◌, ◌≡◌, true, false, refl, ap, sym, ◌∙◌, arith}
use ns3_dtn.Prelude.{List, [], ◌∷◌, ◌++◌, some, length, length-append}
use ns3_dtn.Header6.{Header6, Place}
use ns3_dtn.Header6.Wire.{
  put_bytes, read_bytes, chunks, serialize_and_get_size, get_serialized_size, serialize,
  deserialize,
}
use ns3_dtn.Sdnv.{encode, decode, IsU64}
use ns3_dtn.Sdnv.RoundTrip.{decode-encode}
use mathlib.Core.List.{foldl, append_assoc, append-nil}
use native.Mathlib.Nat.{mod-eq_of_lt}

pub read_bytes-append : (s rest : List ℕ) → read_bytes (length s) (s ++ rest) ≡ some (s, rest)
unfolding read_bytes
read_bytes-append [] rest = refl
read_bytes-append (b ∷ s) rest = rw (read_bytes-append s rest)

-- All chunks, one behind the other.
abbrev joined : List (List ℕ) → List ℕ
joined [] = []
joined (c ∷ cs) = c ++ joined cs

foldl-written :
    (cs : List (List ℕ)) (len : ℕ) (out : List ℕ)
    → (foldl (put_bytes true) (len, out) cs).1 ≡ out ++ joined cs
foldl-written [] len out = sym (append-nil out)
foldl-written (c ∷ cs) len out =
    foldl-written cs ((len + length c) % 2 ^ 32) (out ++ c) ∙ append_assoc out c (joined cs)

foldl-measured :
    (cs : List (List ℕ)) (len : ℕ) (out : List ℕ)
    → len + length (joined cs) < 2 ^ 32
    → (foldl (put_bytes false) (len, out) cs).0 ≡ len + length (joined cs)
foldl-measured [] len out h = omega arith
foldl-measured (c ∷ cs) len out h =
    ap (λ (t : ℕ). (foldl (put_bytes false) (t, out) cs).0) fits
    ∙ foldl-measured cs (len + length c) out (omega (arith, length-append c (joined cs)))
    ∙ omega (arith, length-append c (joined cs))
  where
    fits : (len + length c) % 2 ^ 32 ≡ len + length c
    fits = mod-eq_of_lt (omega (arith, length-append c (joined cs)))

joined_before :
    (cs : List (List ℕ)) (rest : List ℕ) → joined cs ++ rest ≡ joined (cs ++ (rest ∷ []))
joined_before [] rest = sym (append-nil rest)
joined_before (c ∷ cs) rest =
    append_assoc c (joined cs) rest ∙ ap (λ (t : List ℕ). c ++ t) (joined_before cs rest)

pub reads : (v : ℕ) → IsU64 v → (rest : List ℕ) → decode (encode v ++ rest) ≡ some (v, rest)
reads v fits rest = decode-encode v rest fits

pub narrow32 : {v : ℕ} → v < 2 ^ 32 → IsU64 v
narrow32 h = omega arith

narrow16 : {v : ℕ} → v < 2 ^ 16 → IsU64 v
narrow16 h = omega arith

-- The ranges of the fields' types.
pub record FitsPlace (p : Place) : Type 0 where
  pub scheme_fits : p.scheme_offset < 2 ^ 16
  pub ssp_fits : p.ssp_offset < 2 ^ 16

module _ {Time : Type 0} (get_seconds : Time → ℕ) where
  pub record Fits (h : Header6 Time) : Type 0 where
    pub version_fits : h.version < 256
    pub flags_fits : h.processing_flags < 2 ^ 32
    pub block_fits : h.block_length < 2 ^ 32
    pub dst_fits : FitsPlace h.dst_place
    pub src_fits : FitsPlace h.src_place
    pub report_fits : FitsPlace h.report_place
    pub cust_fits : FitsPlace h.cust_place
    pub timestamp_fits : h.create_timestamp < 2 ^ 32
    pub seq_fits : h.timestamp_seq_num < 2 ^ 32
    pub life_fits : get_seconds h.life_time < 2 ^ 64
    pub dictionary_fits : length h.dictionary < 2 ^ 31
    pub offset_fits : h.frag_offset < 2 ^ 32
    pub adu_fits : h.adu_length < 2 ^ 32

  serialize-joined :
      (h : Header6 Time) → serialize get_seconds h ≡ h.version ∷ joined (chunks get_seconds h)
  unfolding serialize serialize_and_get_size
  serialize-joined h = foldl-written (chunks get_seconds h) 1 (h.version ∷ [])

  -- The number of bytes that `GetSerializedSize` announces is the number that `Serialize` writes,
  -- for a header of less than 2 ^ 32 bytes.
  pub get_serialized_size-length :
      (h : Header6 Time)
      → length (serialize get_seconds h) < 2 ^ 32
      → get_serialized_size get_seconds h ≡ length (serialize get_seconds h)
  unfolding get_serialized_size serialize_and_get_size
  get_serialized_size-length h fits =
      foldl-measured (chunks get_seconds h) 1 []
        (omega (arith, fits, ap length (serialize-joined h)))
      ∙ omega (arith, ap length (serialize-joined h))

module _ {Time : Type 0} (get_seconds : Time → ℕ) (seconds : ℕ → Time) where
  read_back :
      (h g : Header6 Time) (rest : List ℕ)
      → Fits get_seconds h
      → seconds (get_seconds h.life_time) ≡ h.life_time
      → deserialize seconds g (h.version ∷ joined (chunks get_seconds h ++ (rest ∷ [])))
        ≡ some (
          record h { base = record h.base { cbhe = g.cbhe } },
          length (h.version ∷ joined (chunks get_seconds h ++ (rest ∷ []))) - length (rest ++ []),
        )
  unfolding deserialize
  read_back h g rest f whole =
      simp
        (
          reads h.processing_flags (narrow32 f.flags_fits),
          reads h.block_length (narrow32 f.block_fits),
          reads h.dst_place.scheme_offset (narrow16 f.dst_fits.scheme_fits),
          reads h.dst_place.ssp_offset (narrow16 f.dst_fits.ssp_fits),
          reads h.src_place.scheme_offset (narrow16 f.src_fits.scheme_fits),
          reads h.src_place.ssp_offset (narrow16 f.src_fits.ssp_fits),
          reads h.report_place.scheme_offset (narrow16 f.report_fits.scheme_fits),
          reads h.report_place.ssp_offset (narrow16 f.report_fits.ssp_fits),
          reads h.cust_place.scheme_offset (narrow16 f.cust_fits.scheme_fits),
          reads h.cust_place.ssp_offset (narrow16 f.cust_fits.ssp_fits),
          reads h.create_timestamp (narrow32 f.timestamp_fits),
          reads h.timestamp_seq_num (narrow32 f.seq_fits),
          reads (get_seconds h.life_time) f.life_fits,
          reads (length h.dictionary) (omega (arith, f.dictionary_fits)),
          dictionary_kept,
          read_bytes-append h.dictionary,
          reads h.frag_offset (narrow32 f.offset_fits),
          reads h.adu_length (narrow32 f.adu_fits),
        )
        (simp (
          mod-eq_of_lt f.flags_fits,
          mod-eq_of_lt f.block_fits,
          mod-eq_of_lt f.dst_fits.scheme_fits,
          mod-eq_of_lt f.dst_fits.ssp_fits,
          mod-eq_of_lt f.src_fits.scheme_fits,
          mod-eq_of_lt f.src_fits.ssp_fits,
          mod-eq_of_lt f.report_fits.scheme_fits,
          mod-eq_of_lt f.report_fits.ssp_fits,
          mod-eq_of_lt f.cust_fits.scheme_fits,
          mod-eq_of_lt f.cust_fits.ssp_fits,
          mod-eq_of_lt f.timestamp_fits,
          mod-eq_of_lt f.seq_fits,
          mod-eq_of_lt f.offset_fits,
          mod-eq_of_lt f.adu_fits,
          whole,
        ))
    where
      dictionary_kept : length h.dictionary % 2 ^ 32 ≡ length h.dictionary
      dictionary_kept = mod-eq_of_lt (omega (arith, f.dictionary_fits))

  -- `Deserialize` on what `Serialize` wrote, with any bytes behind it, restores every field but
  -- `m_cbhe`, which the receiver keeps, and returns the number of bytes written; the fields lie in
  -- the ranges of their types and the lifetime is a whole number of seconds.
  pub deserialize-serialize :
      (h g : Header6 Time) (rest : List ℕ)
      → Fits get_seconds h
      → seconds (get_seconds h.life_time) ≡ h.life_time
      → deserialize seconds g (serialize get_seconds h ++ rest)
        ≡ some
            (record h { base = record h.base { cbhe = g.cbhe } }, length (serialize get_seconds h))
  deserialize-serialize h g rest f whole =
      ap (deserialize seconds g) input
      ∙ read_back h g rest f whole
      ∙ ap (λ (n : ℕ). some (record h { base = record h.base { cbhe = g.cbhe } }, n)) distance
    where
      input :
          serialize get_seconds h ++ rest ≡ h.version ∷ joined (chunks get_seconds h ++ (rest ∷ []))
      input =
          ap (λ (t : List ℕ). t ++ rest) (serialize-joined get_seconds h)
          ∙ ap (◌∷◌ h.version) (joined_before (chunks get_seconds h) rest)

      distance :
          length (h.version ∷ joined (chunks get_seconds h ++ (rest ∷ []))) - length (rest ++ [])
          ≡ length (serialize get_seconds h)
      distance = omega (
        arith,
        ap length input,
        length-append (serialize get_seconds h) rest,
        length-append rest [],
      )
