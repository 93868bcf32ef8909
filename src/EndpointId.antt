-- ===== src/EndpointId.antt =====
-- model/bp-endpoint-id.cc and bp-endpoint-id.h: an endpoint id is a URI with the places of its
-- scheme and of its scheme specific part (ssp). Text is a list of bytes, `size_t` has 64 bits, and
-- `none` is a thrown `std::out_of_range`.
pub mod Parts
pub mod Malformed
pub mod Total
pub mod Cbhe
use ns3_dtn.Prelude.{ℕ, zero, suc, ◌+◌, ◌-◌, ◌%◌, ◌^◌, ◌<◌, ◌≡◌, Bool, true, false, ◌||◌}
use ns3_dtn.Prelude.{List, [], ◌∷◌, ◌++◌, Option, none, some, ◌>>=◌, arith}
use ns3_dtn.Prelude.{ltb, ◌==◌, if◌then◌else◌, length, take, drop, bytes_eq}
use Prim.Native.Nat.{compare, Ordering}

abbrev pub size_mod : ℕ
size_mod = 2 ^ 64

-- `std::string::npos`
abbrev pub npos : ℕ
npos = size_mod - 1

abbrev pub dtn : List ℕ
dtn = b'd' ∷ b't' ∷ b'n' ∷ []

abbrev pub none_ssp : List ℕ
none_ssp = b'n' ∷ b'o' ∷ b'n' ∷ b'e' ∷ []

abbrev pub dtn_none : List ℕ
dtn_none = dtn ++ (b':' ∷ none_ssp)

-- `a - b` on `size_t`
abbrev pub size_sub : ℕ → ℕ → ℕ
size_sub a b = (a + size_mod - b) % size_mod

-- `std::string::substr`
unfoldable pub substr : List ℕ → ℕ → ℕ → Option (List ℕ)
substr s pos n = if ltb (length s) pos then none else some (take n (drop pos s))

-- `std::string::find` of one character, with the index of the first character left.
unfoldable pub find_from : ℕ → List ℕ → ℕ → ℕ
find_from i [] c = npos
find_from i (x ∷ s) c = let rest = find_from (i + 1) s c in if x == c then i else rest

-- `std::string::operator<`, which compares the characters as unsigned bytes.
unfoldable pub bytes_lt : List ℕ → List ℕ → Bool
bytes_lt s [] = false
bytes_lt [] (y ∷ t) = true
bytes_lt (x ∷ s) (y ∷ t) =
    let rest = bytes_lt s t in
    elim (compare x y) [ Ordering.lt ↦ true | Ordering.eq ↦ rest | Ordering.gt ↦ false ]

pub record Component : Type 0 where
  pub offset : ℕ
  pub length' : ℕ

pub record EndpointId : Type 0 where
  pub uri : List ℕ
  pub scheme_part : Component
  pub ssp_part : Component

-- `BpEndpointId ()`
abbrev pub empty_eid : EndpointId
empty_eid = record {
  uri = [];
  scheme_part = record { offset = 0; length' = 0 };
  ssp_part = record { offset = 0; length' = 0 };
}

-- The two guards of `ParseComponent`, in order.
default_parts : List ℕ → List ℕ → List ℕ × List ℕ
default_parts scheme ssp =
    if length scheme == 0 || length ssp == 0 then (dtn, none_ssp) else (scheme, ssp)

cut_parts : List ℕ × List ℕ → List ℕ × List ℕ
cut_parts (scheme, ssp) =
    if ltb 1023 (length scheme) || ltb 1023 (length ssp)
    then (take 1023 scheme, take 1023 ssp)
    else (scheme, ssp)

-- `ParseComponent`, on an object whose `m_uri` is `uri` at the call.
unfoldable pub parse_component : List ℕ → List ℕ → List ℕ → EndpointId
unfolding default_parts cut_parts
parse_component uri scheme ssp =
    let parts = cut_parts (default_parts scheme ssp) in
    let ssp_offset = length parts.0 + 1 in
    record {
      uri = uri;
      scheme_part = record { offset = 0; length' = length parts.0 };
      ssp_part = record { offset = ssp_offset; length' = size_sub (length uri) ssp_offset };
    }

-- `BpEndpointId (scheme, ssp)`
unfoldable pub from_parts : List ℕ → List ℕ → EndpointId
unfolding parse_component
from_parts scheme ssp = parse_component (scheme ++ (b':' ∷ ssp)) scheme ssp

-- The two guards of `ParseUri`: an empty URI and one with no colon both become "dtn:none".
uri_or_default : List ℕ → ℕ → List ℕ
uri_or_default uri colon =
    if length uri == 0 then dtn_none else if colon == npos then dtn_none else uri

-- `ParseUri`, called while `m_uri` is still empty.
parse_uri : List ℕ → Option EndpointId
unfolding find_from substr parse_component uri_or_default
parse_uri uri =
    let colon = find_from 0 uri b':' in
    let uri_str = uri_or_default uri colon in
    let behind = (colon + 1) % size_mod in
    substr uri_str 0 colon >>= λ scheme.
    substr uri_str behind (size_sub (length uri_str) behind) >>= λ ssp.
    some (parse_component [] scheme ssp)

-- `BpEndpointId (uri)`
unfoldable pub from_uri : List ℕ → Option EndpointId
unfolding parse_uri
from_uri uri = parse_uri uri >>= λ eid. some (record eid { uri = uri })

-- `Scheme`, `Ssp` and `Uri`
unfoldable pub scheme : EndpointId → Option (List ℕ)
unfolding substr
scheme eid = substr eid.uri eid.scheme_part.offset eid.scheme_part.length'

unfoldable pub ssp : EndpointId → Option (List ℕ)
unfolding substr
ssp eid = substr eid.uri eid.ssp_part.offset eid.ssp_part.length'

-- `operator ==` and `operator <`
abbrev pub eid_eq : EndpointId → EndpointId → Bool
eid_eq a b = bytes_eq a.uri b.uri

unfoldable pub eid_lt : EndpointId → EndpointId → Bool
unfolding bytes_lt
eid_lt a b = bytes_lt a.uri b.uri

-- `defaultEid`, which is `BpEndpointId ("dtn:none")`
abbrev pub default_eid : EndpointId
default_eid = record {
  uri = dtn_none;
  scheme_part = record { offset = 0; length' = 3 };
  ssp_part = record { offset = 4; length' = size_sub 0 4 };
}
