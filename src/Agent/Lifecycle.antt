-- ===== src/Agent/Lifecycle.antt =====
-- model/bp-agent.cc: what the simulator and the scripts call to set up, start and stop an agent.
use ns3_dtn.Prelude.{ℕ, ◌≡◌, refl, ◌∙◌, ap, List, [], ◌∷◌, Option, none, some, ◌>>=◌, if◌then◌else◌}
use ns3_dtn.EndpointId.{EndpointId, from_parts, from_uri}
use ns3_dtn.Registration.{Layers, RegisterInfo, ClaCall, find_info, register, close}
use ns3_dtn.Registration.Lookups.{find_info-close-register}
use ns3_dtn.Routing.{Routes, get_route}
use ns3_dtn.Agent.{Agent, Simulator}

-- What `DoInitialize` schedules.
pub data LifeEvent (Time : Type 0) : Type 0 where
  starts stops : Time → LifeEvent Time

module _ {Time : Type 0} where
  -- `SetBpEndpointId`, `BuildBpEndpointId` from parts and from a URI, and `SetRoutingAgent`
  abbrev pub set_bp_endpoint_id : EndpointId → Agent Time → Agent Time
  set_bp_endpoint_id eid a = record a { eid = eid }

  abbrev pub build_bp_endpoint_id : List ℕ → List ℕ → Agent Time → Agent Time
  build_bp_endpoint_id scheme ssp a = set_bp_endpoint_id (from_parts scheme ssp) a

  abbrev pub build_from_uri : List ℕ → Agent Time → Option (Agent Time)
  build_from_uri uri a = from_uri uri >>= λ eid. some (set_bp_endpoint_id eid a)

  abbrev pub set_routing_agent : Routes → Agent Time → Agent Time
  set_routing_agent routes a = record a { routes = routes }

  -- `DoInitialize`, with `m_startTime` and `m_stopTime`.
  abbrev pub do_initialize : Simulator Time → Time → Time → List (LifeEvent Time)
  do_initialize sim start stop =
      starts start ∷ (if sim.clock.is_zero stop then [] else stops stop ∷ [])

  -- What `Register`, `Unregister` and `Bind` call.
  abbrev pub layers : Agent Time → Layers
  layers a = record { numbers = a.clas; get_eid_address = λ eid. get_route eid a.routes }

  -- `StartBpAgent`, with `m_bpRegInfo`; `none` is the fatal error of `Register`.
  unfoldable pub start_bp_agent :
      RegisterInfo Time → Agent Time → Option (Agent Time × List ClaCall)
  start_bp_agent info a = register (layers a) a.eid info a.registration >>= λ (m, calls).
      some (record a { registration = m }, calls)

  -- `StopBpAgent`, which ignores the result of `Close`.
  abbrev pub after_close : Agent Time → Option (List (EndpointId × RegisterInfo Time)) → Agent Time
  after_close a none = a
  after_close a (some m) = record a { registration = m }

  unfoldable pub stop_bp_agent : Agent Time → Agent Time
  stop_bp_agent a = after_close a (close a.eid a.registration)

  -- An agent whose own id is not registered starts, and when it stops, every id has the
  -- registration that it had before.
  start_bp_agent-stop_bp_agent :
      (info : RegisterInfo Time) (q : EndpointId) (a : Agent Time)
      → find_info a.eid a.registration ≡ none
      → (a' : Agent Time) × (calls : List ClaCall) × (start_bp_agent info a ≡ some (a', calls))
        × (find_info q (stop_bp_agent a').registration ≡ find_info q a.registration)
  unfolding start_bp_agent stop_bp_agent
  start_bp_agent-stop_bp_agent info q a fresh =
      let (m', m'', calls, runs, closes, same) =
        find_info-close-register (layers a) a.eid q info a.registration fresh in
      (
        record a { registration = m' },
        calls,
        rw runs refl,
        ap
              (λ (o : Option (List (EndpointId × RegisterInfo Time))).
                find_info q (after_close (record a { registration = m' }) o).registration)
              closes
            ∙ same,
      )
