-- ===== src/EndpointId/Malformed.antt =====
-- Endpoint ids built from text that `ParseUri` and `ParseComponent` warn of. The parts are placed
-- as in "dtn:none", and the URI is kept as given, so the places do not fit it.
use ns3_dtn.Prelude.{ℕ, ◌+◌, ◌^◌, ◌≤◌, ◌<◌, ◌≡◌, ◌⊎◌, inl, inr, refl, ap}
use ns3_dtn.Prelude.{List, [], Option, none, some, arith}
use ns3_dtn.Prelude.{
  ltb, ◌==◌, if◌then◌else◌, length, take, drop, take-all, length-drop, Bool-cases,
}
use ns3_dtn.EndpointId.{
  EndpointId, npos, dtn, none_ssp, dtn_none, substr, parse_component, from_parts, from_uri, scheme,
  ssp, size_sub, default_parts, cut_parts, parse_uri, uri_or_default,
}
use ns3_dtn.EndpointId.Parts.{uri_of, NoColon, find_from-none}

-- `Ssp` on an object whose ssp starts at `at` and ends with the URI.
abbrev pub rest_or_throw : ℕ → List ℕ → Option (List ℕ)
rest_or_throw at u = if ltb (length u) at then none else some (drop at u)

substr-rest : (u : List ℕ) (at n : ℕ) → length u ≤ at + n → substr u at n ≡ rest_or_throw at u
unfolding substr
substr-rest u at n h =
    ap (λ (t : List ℕ). if ltb (length u) at then none else some t)
      (take-all n (drop at u) (omega (arith, length-drop at u)))

default_uri : (u : List ℕ) → uri_or_default u npos ≡ dtn_none
unfolding uri_or_default
default_uri u = elim (Bool-cases (length u == 0)) [ inl e ↦ rw e | inr e ↦ rw e ]

-- Where the second guard of `ParseUri` applies, the whole of "dtn:none" becomes the scheme.
parse_uri-none :
    (u : List ℕ) → NoColon u → parse_uri u ≡ some (parse_component [] dtn_none dtn_none)
unfolding parse_uri substr
parse_uri-none u h = rw (find_from-none 0 u h) (rw (default_uri u))

-- A URI with no colon is accepted and kept. `Scheme` is then its first eight bytes, and `Ssp` is
-- what follows the ninth byte, or throws if there are fewer than nine: "dtn:none" does not show.
pub from_uri-NoColon :
    (u : List ℕ)
    → NoColon u
    → length u < 2 ^ 32
    → (e : EndpointId) × (from_uri u ≡ some e)
      × (e.uri ≡ u)
      × (scheme e ≡ some (take 8 u))
      × (ssp e ≡ rest_or_throw 9 u)
unfolding from_uri
from_uri-NoColon u h fits = (
  record (parse_component [] dtn_none dtn_none) { uri = u },
  rw (parse_uri-none u h),
  refl,
  unfold scheme parse_component default_parts cut_parts in unfold substr in ground arith,
  unfold ssp parse_component default_parts cut_parts in
      substr-rest u 9 (size_sub 0 9) (omega arith),
)

no_part : (a b : List ℕ) → (a ≡ []) ⊎ (b ≡ []) → default_parts a b ≡ (dtn, none_ssp)
unfolding default_parts
no_part a b (inl e) = rw e
no_part a b (inr e) = rw e (ground arith)

-- Likewise with an empty part: the URI is `scheme:ssp` as given, `Scheme` is its first three bytes,
-- and `Ssp` is what follows its fourth byte, or throws.
pub from_parts-empty :
    (a b : List ℕ)
    → (a ≡ []) ⊎ (b ≡ [])
    → length (uri_of a b) < 2 ^ 32
    → let e = from_parts a b in
      (e.uri ≡ uri_of a b)
      × (scheme e ≡ some (take 3 (uri_of a b)))
      × (ssp e ≡ rest_or_throw 4 (uri_of a b))
unfolding from_parts cut_parts
from_parts-empty a b h fits = (
  refl,
  rw (no_part a b h) (unfold scheme in unfold substr in ground arith),
  rw (no_part a b h)
      (unfold ssp in substr-rest (uri_of a b) 4 _ (reaches (length (uri_of a b)) fits)),
)
  where
    reaches : (n : ℕ) → n < 2 ^ 32 → n ≤ 4 + size_sub n 4
    reaches n hn = omega arith
