-- ===== src/Examples/Reassembling.antt =====
-- A bundle of five bytes that arrives in pieces of at most two.
use ns3_dtn.Prelude.{ℕ, ◌≡◌, refl, inr, arith, List, [], ◌∷◌, some}
use ns3_dtn.Prelude.Words.{has_mask}
use ns3_dtn.EndpointId.{from_parts, substr}
use ns3_dtn.Header.{flag}
use ns3_dtn.Header6.{Unset, priority, cust_tx_req}
use ns3_dtn.Header6.Dictionary.{get_eid, dictionary_eid, c_str}
use ns3_dtn.Registration.{find_info}
use ns3_dtn.Forward.{Bundle6, Sent, send_pieces}
use ns3_dtn.Agent.{Agent}
use ns3_dtn.Agent.Receiving.{receive}
use ns3_dtn.Agent.Reassembly.{Agrees, InOrder, IsLocal, IsAlive, receive_all}
use ns3_dtn.Agent.Reassembly.Pieces.{arrivals}
use ns3_dtn.Agent.Reassembly.Delivered.{receive-receive_all}
use ns3_dtn.Agent.Reassembly.Across.{receive-send_pieces}
use ns3_dtn.Examples.Data.{none_yet}
use ns3_dtn.Examples.Node.{to_a, to_b, sim, plain, five, letter, active, node}

abbrev unset : Unset
unset = record { at_dst = none_yet; at_src = none_yet; at_report = none_yet; at_cust = none_yet }

agrees : Agrees to_a to_b plain plain
unfolding get_eid dictionary_eid c_str substr cust_tx_req flag has_mask
agrees = record {
  same_priority = refl;
  same_timestamp = refl;
  same_number = refl;
  same_length = refl;
  from = refl;
  to = refl;
  no_custody = refl;
}

here : IsLocal to_b active node
unfolding find_info from_parts
here = record { registered = refl; active = refl; not_agent = refl }

alive : (n : ℕ) → IsAlive sim 800 plain
alive n = inr refl

receive-send_pieces_example :
    (last : Bundle6 ℕ) × (sent : List (Sent ℕ)) × (a' : Agent ℕ) × (send_pieces 2 letter
      ≡ some (last, sent))
    × (receive_all sim unset 0 (arrivals (λ n. 800) 0 sent) node ≡ some a')
    × ((receive sim to_b a').1 ≡ some five)
    × ((receive sim to_b a').0.bundle_store.m_store ≡ [])
receive-send_pieces_example =
    receive-send_pieces sim unset 0 (λ n. 800) to_a to_b active 2 letter node (omega arith) refl
      (omega arith) agrees alive here refl (omega arith)

-- Its fragments of two and of three bytes.
abbrev piece_of : ℕ → List ℕ → Bundle6 ℕ
piece_of offset adu = record letter {
  header = record plain {
    base = record plain.base { processing_flags = 0x11; frag_offset = offset };
  };
  adu = adu;
}

abbrev two : Bundle6 ℕ
two = piece_of 0 (1 ∷ 2 ∷ [])

abbrev three : Bundle6 ℕ
three = piece_of 2 (3 ∷ 4 ∷ 5 ∷ [])

Agrees-piece_of : (offset : ℕ) (adu : List ℕ) → Agrees to_a to_b plain (piece_of offset adu).header
unfolding get_eid dictionary_eid c_str substr cust_tx_req flag has_mask priority
Agrees-piece_of offset adu = record {
  same_priority = refl;
  same_timestamp = refl;
  same_number = refl;
  same_length = refl;
  from = refl;
  to = refl;
  no_custody = refl;
}

order : InOrder sim to_a to_b plain 0 ((800, two) ∷ (801, three) ∷ [])
unfolding flag has_mask
order = (
  record {
    agrees = Agrees-piece_of 0 (1 ∷ 2 ∷ []);
    fragment = refl;
    offset = refl;
    some_bytes = omega arith;
    within = omega arith;
  },
  inr refl,
  (
    record {
      agrees = Agrees-piece_of 2 (3 ∷ 4 ∷ 5 ∷ []);
      fragment = refl;
      offset = refl;
      some_bytes = omega arith;
      within = omega arith;
    },
    inr refl,
    tt,
  ),
)

receive-receive_all_example :
    (a' : Agent ℕ) × (receive_all sim unset 0 ((800, two) ∷ (801, three) ∷ []) node ≡ some a')
    × ((receive sim to_b a').1 ≡ some five)
    × ((receive sim to_b a').0.bundle_store.m_store ≡ [])
receive-receive_all_example =
    receive-receive_all sim unset 0 to_a to_b plain active 800 two ((801, three) ∷ []) node
      (omega arith) order (omega arith) refl here refl
