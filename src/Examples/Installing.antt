-- ===== src/Examples/Installing.antt =====
-- A helper installs agents for "dtn:b" on the nodes 5 and 6.
use ns3_dtn.Prelude.{ℕ, ◌<◌, ◌≡◌, refl, List, [], ◌∷◌, some, length, get_elem?}
use ns3_dtn.Agent.Setup.{new_agent}
use ns3_dtn.Helper.{
  World, Helper, Container, get_n, get, install_all, new_helper, set_bp_endpoint_id,
  set_routing_agent,
}
use ns3_dtn.Helper.Installing.{ready_agent, set_up, install_all-set_up}
use ns3_dtn.EndpointId.{from_parts}
use ns3_dtn.Examples.Node.{sim, to_b}

abbrev helper : Helper
helper = set_routing_agent 3 (set_bp_endpoint_id to_b new_helper)

abbrev empty_world : World ℕ
empty_world = record { agents = λ p. new_agent sim; unused = 0; initializes = [] }

abbrev nodes : List ℕ
nodes = 5 ∷ 6 ∷ []

install_all-set_up_example :
    (w' : World ℕ) × (c : Container) × (install_all sim helper nodes empty_world ≡ some (w', c))
    × (get_n c ≡ length nodes)
    × ((i node : ℕ)
        → get_elem? nodes i ≡ some node
        → (p : ℕ) × (get c i ≡ some p)
          × ((set_up sim 2 50 c w').agents p ≡ ready_agent sim helper.eid 3 node 2 50))
    × ((q : ℕ) → q < empty_world.unused → (set_up sim 2 50 c w').agents q ≡ empty_world.agents q)
unfolding from_parts
install_all-set_up_example = install_all-set_up sim helper 3 nodes 2 50 empty_world refl refl refl
