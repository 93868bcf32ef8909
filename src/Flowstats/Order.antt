-- ===== src/Flowstats/Order.antt =====
-- The order of flows: two keys that `std::map` takes for the same have equal URIs.
use ns3_dtn.Prelude.{
  ℕ, ◌≡◌, ◌↔◌, refl, arith, true, ◌&&◌, not, List, [], ◌∷◌, bytes_eq, bytes_eq_iff,
}
use ns3_dtn.EndpointId.{eid_lt, bytes_lt}
use ns3_dtn.Flowstats.{BpFlowId, flow_lt, flow_eq, same_key}

-- Of two texts, one is below the other or they are equal, and only one of the three.
bytes_lt_total : (s t : List ℕ) → (not (bytes_lt s t) && not (bytes_lt t s)) ≡ bytes_eq s t
unfolding bytes_lt
bytes_lt_total [] [] = refl
bytes_lt_total [] (y ∷ t) = refl
bytes_lt_total (x ∷ s) [] = refl
bytes_lt_total (x ∷ s) (y ∷ t) = ground (arith, bytes_lt_total s t)

bytes_eq_sym : (s t : List ℕ) → bytes_eq s t ≡ bytes_eq t s
bytes_eq_sym [] [] = refl
bytes_eq_sym [] (y ∷ t) = refl
bytes_eq_sym (x ∷ s) [] = refl
bytes_eq_sym (x ∷ s) (y ∷ t) = ground (arith, bytes_eq_sym s t)

-- Two keys that `std::map` takes for the same, since neither is below the other, are the keys that
-- `operator ==` finds equal, and these are the ones with equal URIs.
pub same_key-flow_eq :
    (f1 f2 : BpFlowId)
    → (same_key f1 f2 ≡ flow_eq f1 f2)
      × ((flow_eq f1 f2 ≡ true)
          ↔ ((f1.src_eid.uri ≡ f2.src_eid.uri) × (f1.dst_eid.uri ≡ f2.dst_eid.uri)))
unfolding same_key flow_lt flow_eq eid_lt
same_key-flow_eq f1 f2 = (
  ground (
    arith,
    bytes_lt_total f1.src_eid.uri f2.src_eid.uri,
    bytes_lt_total f1.dst_eid.uri f2.dst_eid.uri,
    bytes_eq_sym f1.src_eid.uri f2.src_eid.uri,
  ),
  ground (
    arith,
    bytes_eq_iff f1.src_eid.uri f2.src_eid.uri,
    bytes_eq_iff f1.dst_eid.uri f2.dst_eid.uri,
  ),
)
