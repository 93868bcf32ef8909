-- ===== src/EndpointId/Total.antt =====
-- `BpEndpointId (uri)` never throws.
use ns3_dtn.Prelude.{
  ℕ, ◌+◌, ◌%◌, ◌^◌, ◌<◌, ◌≤◌, ◌≡◌, ◌⊎◌, inl, inr, refl, List, [], ◌∷◌, some, arith, length, take,
  drop,
}
use ns3_dtn.EndpointId.{
  EndpointId, npos, dtn_none, substr, find_from, parse_component, from_uri, parse_uri,
  uri_or_default, size_sub,
}

-- A search fails or ends within the text.
find_from-within :
    (i : ℕ) (s : List ℕ) (x : ℕ) → (find_from i s x ≡ npos) ⊎ (find_from i s x < i + length s)
unfolding find_from
find_from-within i [] x = inl refl
find_from-within i (y ∷ s) x = ground (arith, find_from-within (i + 1) s x)

substr-some : (s : List ℕ) (pos n : ℕ) → pos ≤ length s → (t : List ℕ) × (substr s pos n ≡ some t)
unfolding substr
substr-some s pos n within = (take n (drop pos s), ground (arith, within))

uri_replaced : (u : List ℕ) → uri_or_default u npos ≡ dtn_none
unfolding uri_or_default
uri_replaced u = ground arith

uri_kept :
    (u : List ℕ) (colon : ℕ) → colon < length u → length u < 2 ^ 63 → uri_or_default u colon ≡ u
unfolding uri_or_default
uri_kept u colon within fits = ground (arith, within, fits)

-- The text that is parsed has both of its parts.
abbrev HasParts : List ℕ → ℕ → Type 0
HasParts v colon =
    ((a : List ℕ) × (substr v 0 colon ≡ some a))
    × ((n : ℕ) → (b : List ℕ) × (substr v ((colon + 1) % 2 ^ 64) n ≡ some b))

parts-some :
    (u : List ℕ) (colon : ℕ)
    → (colon ≡ npos) ⊎ (colon < 0 + length u)
    → length u < 2 ^ 63
    → HasParts (uri_or_default u colon) colon
parts-some u colon (inl e) fits = rw e (
    rw (uri_replaced u)
      (substr-some dtn_none 0 npos (omega arith), λ n. substr-some dtn_none 0 n (omega arith)))
parts-some u colon (inr within) fits =
    rw (uri_kept u colon (omega (arith, within)) fits)
      (substr-some u 0 colon (omega arith), λ n. substr-some u _ n (omega (arith, within, fits)))

parse_uri-some : (u : List ℕ) → length u < 2 ^ 63 → (e : EndpointId) × (parse_uri u ≡ some e)
unfolding parse_uri
parse_uri-some u fits =
    let ((a, first), rest) = parts-some u _ (find_from-within 0 u b':') fits in
    let colon : ℕ = find_from 0 u b':' in
    let (b, second) = rest (size_sub (length (uri_or_default u colon)) ((colon + 1) % 2 ^ 64)) in
    (parse_component [] a b, rw first (rw second refl))

-- Every URI makes an id, which keeps it.
pub from_uri-some :
    (u : List ℕ) → length u < 2 ^ 63 → (e : EndpointId) × (from_uri u ≡ some e) × (e.uri ≡ u)
unfolding from_uri
from_uri-some u fits =
    let (e, made) = parse_uri-some u fits in (record e { uri = u }, rw made refl, refl)
