-- ===== src/Examples/Registering.antt =====
-- An application registers "dtn:b" on a node with two convergence layers.
use ns3_dtn.Prelude.{none, ◌⊎◌, ℕ, true, ◌≡◌, List, [], ◌∷◌, some}
use ns3_dtn.EndpointId.{EndpointId, dtn, from_parts}
use ns3_dtn.Registration.{RegisterInfo, ClaCall, BpRegistration, find_info}
use ns3_dtn.Registration.Runs.{
  Call, registers, unregisters, binds, closes, Registered, run_calls, replay_calls,
}
use ns3_dtn.Registration.Runs.Refinement.{IsValid, run_calls-replay_calls}
use ns3_dtn.Registration.{Layers}
use ns3_dtn.Routing.{no_address}
use ns3_dtn.Examples.Data.{node_a, node_b}

abbrev to_a : EndpointId
to_a = from_parts dtn node_a

abbrev to_b : EndpointId
to_b = from_parts dtn node_b

abbrev active : RegisterInfo ℕ
active = record { lifetime = 60; state = true }

abbrev clas : Layers
clas = record { numbers = 1 ∷ 2 ∷ []; get_eid_address = λ eid. no_address }

abbrev known_a : BpRegistration ℕ
known_a = (to_a, active) ∷ []

-- Both ids are registered, one goes passive and active again, and the other is closed.
abbrev calls : List (Call ℕ)
calls =
    registers to_a active ∷ registers to_b active ∷ unregisters to_b ∷ binds to_b ∷ closes to_a ∷ []

run_calls-replay_calls_example :
    ((run_calls clas calls [] ≡ none) × (replay_calls clas calls (λ q. none) ≡ none))
    ⊎ ((m : BpRegistration ℕ) × (f : Registered ℕ) × (asked : List ClaCall) × (run_calls clas calls
            []
          ≡ some (m, asked))
        × (replay_calls clas calls (λ q. none) ≡ some (f, asked))
        × IsValid m
        × ((q : EndpointId) → find_info q m ≡ f q))
run_calls-replay_calls_example = run_calls-replay_calls clas calls
