-- ===== src/Examples/Ids.antt =====
-- Endpoint ids, alone and in a header's dictionary.
use ns3_dtn.Prelude.{not, ◌&&◌, ◌==◌, some, arith}
use ns3_dtn.Header6.Dictionary.{ipn, ipn_ssp}
use ns3_dtn.EndpointId.Cbhe.{is_ipn_cbhe, is_ipn_cbhe-ipn_ssp}
use ns3_dtn.Prelude.{ℕ, ◌∷◌, [], List, ◌≡◌, refl, some, none, arith}
use ns3_dtn.EndpointId.{EndpointId, dtn, from_parts, from_uri, scheme, ssp}
use ns3_dtn.EndpointId.Parts.{IsPart, uri_of, from_uri-read}
use ns3_dtn.EndpointId.Malformed.{from_uri-NoColon}
use ns3_dtn.Header6.{Header6, Role, dst, src, report}
use ns3_dtn.Header6.Dictionary.{get_eid}
use ns3_dtn.Header6.Settings.{Setting, IsGood, set_all, get_eid-set_all}
use ns3_dtn.Prelude.{true}
use ns3_dtn.Header6.Dictionary.{place}
use ns3_dtn.Header6.Cbhe.{Numbers, set_numbers, latest_place, get_eid-set_numbers}
use ns3_dtn.Examples.Data.{node_a, node_b, fresh}

dtn-IsPart : IsPart dtn
dtn-IsPart = record { some_bytes = omega arith; in_limit = omega arith }

node_a-IsPart : IsPart node_a
node_a-IsPart = record { some_bytes = omega arith; in_limit = omega arith }

node_b-IsPart : IsPart node_b
node_b-IsPart = record { some_bytes = omega arith; in_limit = omega arith }

from_uri-read_example :
    (e : EndpointId) × (from_uri (uri_of dtn node_b) ≡ some e)
    × (e.uri ≡ uri_of dtn node_b)
    × (scheme e ≡ some dtn)
    × (ssp e ≡ some node_b)
from_uri-read_example =
    from_uri-read dtn node_b dtn-IsPart node_b-IsPart
      (ground arith, (ground arith, (ground arith, tt)))

-- "host", which throws.
abbrev host : List ℕ
host = b'h' ∷ b'o' ∷ b's' ∷ b't' ∷ []

from_uri-NoColon_example :
    (e : EndpointId) × (from_uri host ≡ some e)
    × (e.uri ≡ host)
    × (scheme e ≡ some host)
    × (ssp e ≡ none)
from_uri-NoColon_example =
    from_uri-NoColon host (ground arith, (ground arith, (ground arith, (ground arith, tt))))
      (omega arith)

-- Source and report are set, then the destination, then the source again.
abbrev settings : List Setting
settings =
    record { role = src; scheme = dtn; ssp = node_b }
    ∷ record { role = report; scheme = dtn; ssp = node_b }
    ∷ record { role = dst; scheme = dtn; ssp = node_b }
    ∷ record { role = src; scheme = dtn; ssp = node_a }
    ∷ []

IsGood-node_b : (r : Role) → IsGood (record { role = r; scheme = dtn; ssp = node_b })
IsGood-node_b r = record {
  scheme_part = dtn-IsPart;
  ssp_part = node_b-IsPart;
  scheme_clean = (ground arith, (ground arith, (ground arith, tt)));
  ssp_clean = (ground arith, tt);
}

IsGood-node_a : (r : Role) → IsGood (record { role = r; scheme = dtn; ssp = node_a })
IsGood-node_a r = record {
  scheme_part = dtn-IsPart;
  ssp_part = node_a-IsPart;
  scheme_clean = (ground arith, (ground arith, (ground arith, tt)));
  ssp_clean = (ground arith, tt);
}

get_eid-set_all_example :
    (h' : Header6 ℕ) × (set_all settings fresh ≡ some h')
    × (get_eid src h' ≡ some (from_parts dtn node_a))
get_eid-set_all_example =
    get_eid-set_all settings fresh src dtn node_a
      (IsGood-node_b src, (IsGood-node_b report, (IsGood-node_b dst, (IsGood-node_a src, tt)))) refl
      (omega arith) refl

is_ipn_cbhe-ipn_ssp_example :
    is_ipn_cbhe (from_parts ipn (ipn_ssp 5 1)) ≡ some (not (5 == 0) && not (1 == 0))
is_ipn_cbhe-ipn_ssp_example = is_ipn_cbhe-ipn_ssp 5 1 (omega arith) (omega arith)

-- Node 65536 of the destination is lost, and the report goes to node 7.
abbrev numbers : List Numbers
numbers =
    record { role = dst; node = 65536; service = 9 }
    ∷ record { role = report; node = 7; service = 1 }
    ∷ []

abbrev cbhe_header : Header6 ℕ
cbhe_header = record fresh { base = record fresh.base { cbhe = true } }

get_eid-set_numbers_example :
    (h' : Header6 ℕ) × (set_numbers numbers cbhe_header ≡ some h')
    × (h'.dictionary ≡ cbhe_header.dictionary)
    × (let p = latest_place dst numbers (place dst cbhe_header) in
        get_eid dst h' ≡ some (from_parts ipn (ipn_ssp p.scheme_offset p.ssp_offset)))
get_eid-set_numbers_example =
    get_eid-set_numbers numbers cbhe_header dst
      (
        record { node_fits = omega arith; service_fits = omega arith },
        (record { node_fits = omega arith; service_fits = omega arith }, tt),
      )
      refl
