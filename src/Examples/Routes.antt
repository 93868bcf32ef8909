-- ===== src/Examples/Routes.antt =====
-- Two routes to "dtn:b", the second of which is the fail-over.
use ns3_dtn.Prelude.{◌∷◌, [], true, ◌≡◌, refl, some, none, if◌then◌else◌}
use ns3_dtn.EndpointId.{EndpointId, dtn, from_parts, eid_eq, default_eid}
use ns3_dtn.Routing.{
  Route, Routes, find, add_route, next_hop_eid, chosen, down_route, hop_of, first_up, matches,
  no_note,
}
use ns3_dtn.Routing.Laws.{next_hop_eid-add_route, next_hop_eid-down_route}
use ns3_dtn.Examples.Data.{node_a, node_b}

abbrev to_b : EndpointId
to_b = from_parts dtn node_b

abbrev via_a : EndpointId
via_a = from_parts dtn node_a

abbrev via_c : EndpointId
via_c = from_parts dtn (b'c' ∷ [])

abbrev route : EndpointId → Route
route hop = record {
  dst_eid = to_b;
  nxt_hop = hop;
  up = true;
  addr = 167772161;
  port = 4556;
  cla = none;
  note = no_note;
}

abbrev two_routes : Routes
two_routes = (to_b, route via_a ∷ route via_c ∷ []) ∷ []

next_hop_eid-add_route_example :
    next_hop_eid to_b (add_route to_b via_a true 167772161 4556 none none []) ≡ (
      if eid_eq to_b to_b
      then (elim (chosen to_b []) [
        | none ↦ if true then via_a else default_eid
        | some r ↦ r.nxt_hop
      ])
      else next_hop_eid to_b [])
next_hop_eid-add_route_example =
    next_hop_eid-add_route to_b via_a true 167772161 4556 none none to_b []

known : find to_b two_routes ≡ some (route via_a ∷ route via_c ∷ [])
unfolding find from_parts
known = refl

first_matches : matches via_a none (route via_a) ≡ true
unfolding matches from_parts
first_matches = refl

nothing_usable : first_up [] ≡ none
unfolding first_up
nothing_usable = refl

next_hop_eid-down_route_example :
    (m' : Routes) × (down_route to_b via_a none two_routes ≡ some m')
    × (next_hop_eid to_b m' ≡ hop_of (first_up (route via_c ∷ [])))
next_hop_eid-down_route_example =
    next_hop_eid-down_route to_b via_a none [] (route via_a) (route via_c ∷ []) two_routes known
      nothing_usable tt first_matches
