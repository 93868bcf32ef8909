-- ===== src/Examples/Sending.antt =====
-- A bundle of five bytes, sent in pieces of two.
use ns3_dtn.Prelude.{ℕ, ◌∷◌, [], List, true, false, ◌^◌, ◌≡◌, refl, some, arith, ◌==◌}
use ns3_dtn.Prelude.Words.{has_mask}
use ns3_dtn.EndpointId.{dtn, from_parts, substr}
use ns3_dtn.Header6.{dst, cust_tx_req}
use ns3_dtn.Header6.Dictionary.{get_eid, dictionary_eid, c_str}
use ns3_dtn.Forward.{Bundle6, Sent, Outcome, forward, send_pieces}
use ns3_dtn.Forward.Fragments.{pieces, Chain, send_pieces-pieces}
use ns3_dtn.Forward.Retention.{forward-ready}
use ns3_dtn.Examples.Data.{node_b, sample, payload}

abbrev five : List ℕ
five = 1 ∷ 2 ∷ 3 ∷ 4 ∷ 5 ∷ []

-- Bundle to "dtn:b" with dispatch pending.
abbrev bundle : Bundle6 ℕ
bundle = record {
  header = sample;
  payload_header = payload;
  adu = five;
  retention_constraints = 1;
  acks = [];
}

send_pieces-pieces_example :
    (last : Bundle6 ℕ) × (sent : List (Sent ℕ)) × (send_pieces 2 bundle ≡ some (last, sent))
    × (pieces sent ≡ five)
    × Chain 2 true 0 sent
    × (last.adu ≡ five)
    × (last.retention_constraints ≡ 1)
send_pieces-pieces_example = send_pieces-pieces 2 bundle (omega arith)

destination : get_eid dst sample ≡ some (from_parts dtn node_b)
unfolding get_eid dictionary_eid c_str substr
destination = refl

forward-ready_example :
    (o : Outcome ℕ) × (forward (λ eid. some true) 2 bundle ≡ some o)
    × (pieces o.sent ≡ five)
    × Chain 2 true 0 o.sent
    × (o.bundle.adu ≡ five)
    × (o.retransmission ≡ cust_tx_req sample)
    × (has_mask (2 ^ 0) o.bundle.retention_constraints ≡ false)
    × (o.removed ≡ (o.bundle.retention_constraints == 0))
forward-ready_example =
    forward-ready (λ eid. some true) 2 bundle (from_parts dtn node_b) 0 (omega arith) destination
      refl (omega arith)
