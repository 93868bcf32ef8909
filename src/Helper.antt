-- ===== src/Helper.antt =====
-- helper/bp-agent-container.cc and bp-agent-helper.cc: agents are made on nodes and set up. The
-- agents are objects at addresses, which the containers and the scheduled events share.
pub mod Installing
use ns3_dtn.Prelude.{ℕ, ◌+◌, Bool, List, [], ◌∷◌, ◌++◌, Option, none, some, ◌>>=◌}
use ns3_dtn.Prelude.{if◌then◌else◌, ◌==◌, bytes_eq, length, get_elem?}
use ns3_dtn.EndpointId.{EndpointId, default_eid, dtn_none}
use ns3_dtn.Agent.{Simulator}
use ns3_dtn.Agent.Setup
use ns3_dtn.Agent.Setup.{BpAgent6, new_agent, open_on, set_start_time, set_stop_time}
use ns3_dtn.Agent.Setup.{initialize_agent}

-- The objects of the simulation: the agents, the first address that has none, and the agents whose
-- `Initialize` is scheduled after 0 seconds.
pub record World (Time : Type 0) : Type 0 where
  pub agents : ℕ → BpAgent6 Time
  pub unused : ℕ
  pub initializes : List ℕ

-- `BpAgentContainer`
abbrev pub Container : Type 0
Container = List ℕ

-- `BpAgentContainer (bpAgent)` and `Add (bpAgent)`, and both with a name, where `names` is
-- `Names::Find`
unfoldable pub container_of : ℕ → Container
container_of p = p ∷ []

unfoldable pub container_named : (List ℕ → ℕ) → List ℕ → Container
unfolding container_of
container_named names name = container_of (names name)

unfoldable pub add_agent : ℕ → Container → Container
add_agent p c = c ++ (p ∷ [])

unfoldable pub add_named : (List ℕ → ℕ) → List ℕ → Container → Container
unfolding add_agent
add_named names name c = add_agent (names name) c

-- `Add (other)`
unfoldable pub add_container : Container → Container → Container
unfolding add_agent
add_container [] c = c
add_container (p ∷ other) c = add_container other (add_agent p c)

-- `GetN`, and `Get`; `none` is a read behind the end.
abbrev pub get_n : Container → ℕ
get_n c = length c

abbrev pub get : Container → ℕ → Option ℕ
get c i = get_elem? c i

-- `BpAgentHelper`
pub record Helper : Type 0 where
  pub eid : EndpointId
  pub routing_agent : Option ℕ

abbrev pub new_helper : Helper
new_helper = record { eid = default_eid; routing_agent = none }

abbrev pub set_bp_endpoint_id : EndpointId → Helper → Helper
set_bp_endpoint_id eid h = record h { eid = eid }

abbrev pub set_routing_agent : ℕ → Helper → Helper
set_routing_agent routing h = record h { routing_agent = some routing }

module _ {Time : Type 0} where
  -- A call of a method of the agent at an address.
  abbrev pub call : (BpAgent6 Time → BpAgent6 Time) → ℕ → World Time → World Time
  call f p w = record w { agents = λ q. if p == q then f (w.agents q) else w.agents q }

  -- The loops of `Start` and `Stop`.
  unfoldable pub call_each : (BpAgent6 Time → BpAgent6 Time) → Container → World Time → World Time
  call_each f [] w = w
  call_each f (p ∷ c) w = call_each f c (call f p w)

  abbrev pub start : Time → Container → World Time → World Time
  start t = call_each (set_start_time t)

  abbrev pub stop : Time → Container → World Time → World Time
  stop t = call_each (set_stop_time t)

  module _ (sim : Simulator Time) where
    -- The agent that `InstallPriv` makes.
    abbrev pub installed : EndpointId → ℕ → ℕ → BpAgent6 Time
    installed eid routing node =
        Setup.set_routing_agent routing
          (Setup.set_bp_endpoint_id eid (open_on node (new_agent sim)))

    -- `InstallPriv`; `none` is one of its two fatal errors.
    unfoldable pub install_priv : Helper → ℕ → World Time → Option (World Time × ℕ)
    install_priv h node w =
        if bytes_eq h.eid.uri dtn_none
        then none
        else h.routing_agent >>= λ routing. some (
          record {
            agents = λ q. if w.unused == q then installed h.eid routing node else w.agents q;
            unused = w.unused + 1;
            initializes = w.initializes ++ (w.unused ∷ []);
          },
          w.unused,
        )

    -- `Install` on one node, also on one of a name, and the loop of `Install` on several.
    unfoldable pub install : Helper → ℕ → World Time → Option (World Time × Container)
    unfolding install_priv container_of
    install h node w = install_priv h node w >>= λ (w, p). some (w, container_of p)

    unfoldable pub install_named :
        (List ℕ → ℕ) → Helper → List ℕ → World Time → Option (World Time × Container)
    unfolding install
    install_named names h name w = install h (names name) w

    unfoldable pub install_loop :
        Helper → List ℕ → World Time → Container → Option (World Time × Container)
    unfolding install_priv add_agent
    install_loop h [] w apps = some (w, apps)
    install_loop h (node ∷ nodes) w apps =
        install_priv h node w >>= λ (w, p). install_loop h nodes w (add_agent p apps)

    abbrev pub install_all : Helper → List ℕ → World Time → Option (World Time × Container)
    install_all h nodes w = install_loop h nodes w []

    -- The scheduled calls of `Initialize` run.
    unfoldable pub run_initializes : World Time → World Time
    unfolding call_each
    run_initializes w = record (call_each (initialize_agent sim) w.initializes w) {
      initializes = [];
    }
