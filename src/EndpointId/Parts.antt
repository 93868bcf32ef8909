-- ===== src/EndpointId/Parts.antt =====
-- The parts of an endpoint id against the URI that it was built from.
use ns3_dtn.Prelude.{ℕ, ◌+◌, ◌%◌, ◌≤◌, ◌≡◌, ◌≢◌, ◌⊎◌, inl, inr, refl}
use ns3_dtn.Prelude.{List, [], ◌∷◌, ◌++◌, some, arith, false}
use ns3_dtn.Prelude.{ltb, ◌==◌, length, drop, All}
use ns3_dtn.Prelude.{length-append, take-all, take-append}
use native.Mathlib.Numerals.{add-one}
use ns3_dtn.EndpointId.{
  EndpointId, size_mod, npos, substr, find_from, parse_component, from_parts, from_uri, scheme, ssp,
  size_sub, default_parts, cut_parts, parse_uri, uri_or_default,
}

-- The URI of two parts, `scheme:ssp`.
abbrev pub uri_of : List ℕ → List ℕ → List ℕ
uri_of a b = a ++ (b':' ∷ b)

-- Parts that `ParseComponent` takes as they are.
pub record IsPart (s : List ℕ) : Type 0 where
  pub some_bytes : 1 ≤ length s
  pub in_limit : length s ≤ 1023

abbrev pub NoColon : List ℕ → Type 0
NoColon = All (λ c. c ≢ b':')

drop_behind : (a b : List ℕ) → drop (length a + 1) (uri_of a b) ≡ b
drop_behind [] b = refl
drop_behind (x ∷ a) b = rw add-one (rw add-one at (drop_behind a b))

-- An object that carries the URI and places the parts in it reads both back. The length of the ssp
-- may be too large, since `substr` stops at the end.
read_parts :
    (a b : List ℕ) (e : EndpointId)
    → e.uri ≡ uri_of a b
    → e.scheme_part.offset ≡ 0
    → e.scheme_part.length' ≡ length a
    → e.ssp_part.offset ≡ length a + 1
    → length b ≤ e.ssp_part.length'
    → (scheme e ≡ some a) × (ssp e ≡ some b)
unfolding scheme ssp
read_parts a b e hu ho hl hs hb = (
  rw (hu, ho, hl) (ground (arith, take-append a (b':' ∷ b))),
  rw (hu, hs, drop_behind a b)
      (ground (arith, length-append a (b':' ∷ b), take-all e.ssp_part.length' b hb)),
)

some_test : (n : ℕ) → 1 ≤ n → (n == 0) ≡ false
some_test n h = ground arith

limit_test : (n : ℕ) → n ≤ 1023 → ltb 1023 n ≡ false
limit_test n h = ground arith

module _ (a b : List ℕ) (ha : IsPart a) (hb : IsPart b) where
  parts_kept : cut_parts (default_parts a b) ≡ (a, b)
  unfolding cut_parts default_parts
  parts_kept =
      rw (some_test (length a) ha.some_bytes, some_test (length b) hb.some_bytes)
        (rw (limit_test (length a) ha.in_limit, limit_test (length b) hb.in_limit))

  length-uri_of : length (uri_of a b) ≡ length a + length b + 1
  length-uri_of = omega (arith, length-append a (b':' ∷ b))

  -- What `ParseComponent` places in an object whose URI is, or will be, `scheme:ssp`.
  parse_component-read :
      (m_uri : List ℕ)
      → (m_uri ≡ []) ⊎ (m_uri ≡ uri_of a b)
      → let e = record (parse_component m_uri a b) { uri = uri_of a b } in
        (scheme e ≡ some a) × (ssp e ≡ some b)
  unfolding parse_component
  parse_component-read m_uri h =
      read_parts a b (record (parse_component m_uri a b) { uri = uri_of a b }) refl refl
        (rw parts_kept) (rw parts_kept) (rw parts_kept (room h))
    where
      room : (m_uri ≡ []) ⊎ (m_uri ≡ uri_of a b) → length b ≤ size_sub (length m_uri) (length a + 1)
      room (inl e) = rw e (omega (arith, ha.in_limit, hb.in_limit))
      room (inr e) = rw e (omega (arith, length-uri_of, ha.in_limit, hb.in_limit))

  -- An id built from two parts of 1 to 1023 bytes has the URI `scheme:ssp`, and `Scheme` and `Ssp`
  -- return the parts.
  pub from_parts-read :
      ((from_parts a b).uri ≡ uri_of a b)
      × (scheme (from_parts a b) ≡ some a)
      × (ssp (from_parts a b) ≡ some b)
  unfolding from_parts
  from_parts-read = let (s, t) = parse_component-read (uri_of a b) (inr refl) in (refl, s, t)

-- A search stops at the first colon, and never before it.
find_from-colon : (i : ℕ) (a b : List ℕ) → NoColon a → find_from i (uri_of a b) b':' ≡ i + length a
unfolding find_from
find_from-colon i [] b h = omega arith
find_from-colon i (x ∷ a) b h = ground (arith, find_from-colon (i + 1) a b h.1)

pub find_from-none : (i : ℕ) (a : List ℕ) → NoColon a → find_from i a b':' ≡ npos
unfolding find_from
find_from-none i [] h = refl
find_from-none i (x ∷ a) h = ground (arith, find_from-none (i + 1) a h.1)

module _ (a b : List ℕ) (ha : IsPart a) (hb : IsPart b) (no_colon : NoColon a) where
  uri_kept : uri_or_default (uri_of a b) (length a) ≡ uri_of a b
  unfolding uri_or_default
  uri_kept =
      rw (some_test (length (uri_of a b)) (omega (arith, length-uri_of a b ha hb)), npos_test)
    where
      npos_test : (length a == npos) ≡ false
      npos_test = ground (arith, ha.in_limit)

  colon_at : find_from 0 (uri_of a b) b':' ≡ length a
  colon_at = omega (arith, find_from-colon 0 a b no_colon)

  behind_at : (length a + 1) % size_mod ≡ length a + 1
  behind_at = omega (arith, ha.in_limit)

  scheme_at : substr (uri_of a b) 0 (length a) ≡ some a
  unfolding substr
  scheme_at = ground (arith, take-append a (b':' ∷ b))

  ssp_at :
      substr (uri_of a b) (length a + 1) (size_sub (length (uri_of a b)) (length a + 1)) ≡ some b
  unfolding substr
  ssp_at =
      rw (drop_behind a b) (
        ground
          (arith, length-append a (b':' ∷ b), take-all _ b (enough (length (uri_of a b)) refl)))
    where
      enough : (n : ℕ) → n ≡ length (uri_of a b) → length b ≤ size_sub n (length a + 1)
      enough n e = omega (arith, e, length-uri_of a b ha hb, ha.in_limit, hb.in_limit)

  parse_uri-uri_of : parse_uri (uri_of a b) ≡ some (parse_component [] a b)
  unfolding parse_uri
  parse_uri-uri_of = rw (colon_at) (rw (uri_kept) (rw (behind_at) (rw (scheme_at, ssp_at))))

  -- The same id comes from its URI, if the scheme holds no colon: construction succeeds, the URI is
  -- kept, and `Scheme` and `Ssp` return the text in front of the first colon and behind it.
  pub from_uri-read :
      (e : EndpointId) × (from_uri (uri_of a b) ≡ some e)
      × (e.uri ≡ uri_of a b)
      × (scheme e ≡ some a)
      × (ssp e ≡ some b)
  unfolding from_uri
  from_uri-read =
      let (s, t) = parse_component-read a b ha hb [] (inl refl) in
      (record (parse_component [] a b) { uri = uri_of a b }, rw parse_uri-uri_of, refl, s, t)
