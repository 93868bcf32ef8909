-- ===== src/Agent/Setup.antt =====
-- model/bp-agent.cc and bp-agent-6.cc: an agent from its construction to its disposal, as far as
-- the helpers and the scripts see it. Nodes, routing agents and convergence layers are addresses.
use ns3_dtn.Prelude.{ℕ, Bool, true, false, List, [], Option, none, some, get_elem?}
use ns3_dtn.EndpointId.{EndpointId, default_eid}
use ns3_dtn.Registration.{RegisterInfo, BpRegistration}
use ns3_dtn.Agent.{Simulator}
use ns3_dtn.Agent.Lifecycle.{LifeEvent, do_initialize}

-- The members of a `BpAgent6` that set-up and disposal read or write. `pending` holds what
-- `m_startEvent` and `m_stopEvent` are to call.
pub record BpAgent6 (Time : Type 0) : Type 0 where
  pub node : Option ℕ
  pub clas : List ℕ
  pub bundle_size : ℕ
  pub registration : BpRegistration Time
  pub seq : ℕ
  pub eid : EndpointId
  pub reg_info : RegisterInfo Time
  pub routing_agent : Option ℕ
  pub start_time : Time
  pub stop_time : Time
  pub pending : List (LifeEvent Time)
  pub bundles_delivered : ℕ
  pub bytes_delivered : ℕ
  pub acs_enabled : Bool

module _ {Time : Type 0} where
  -- `BpRegisterInfo ()`, whose lifetime is 0.
  abbrev pub new_register_info : Simulator Time → RegisterInfo Time
  new_register_info sim = record { lifetime = sim.zero_time; state = true }

  -- `CreateObject<BpAgent6> ()`: the constructors of both classes, and the attributes.
  abbrev pub new_agent : Simulator Time → BpAgent6 Time
  new_agent sim = record {
    node = none;
    clas = [];
    bundle_size = 512;
    registration = [];
    seq = 0;
    eid = default_eid;
    reg_info = new_register_info sim;
    routing_agent = none;
    start_time = sim.zero_time;
    stop_time = sim.zero_time;
    pending = [];
    bundles_delivered = 0;
    bytes_delivered = 0;
    acs_enabled = false;
  }

  -- `Open`, `GetNode`, `SetBpRegisterInfo`, `SetStartTime` and `SetStopTime`
  abbrev pub open_on : ℕ → BpAgent6 Time → BpAgent6 Time
  open_on n a = record a { node = some n }

  abbrev pub get_node : BpAgent6 Time → Option ℕ
  get_node a = a.node

  abbrev pub set_bp_register_info : RegisterInfo Time → BpAgent6 Time → BpAgent6 Time
  set_bp_register_info info a = record a { reg_info = info }

  abbrev pub set_start_time : Time → BpAgent6 Time → BpAgent6 Time
  set_start_time start a = record a { start_time = start }

  abbrev pub set_stop_time : Time → BpAgent6 Time → BpAgent6 Time
  set_stop_time stop a = record a { stop_time = stop }

  -- `SetBpEndpointId` and `SetRoutingAgent` of the object
  abbrev pub set_bp_endpoint_id : EndpointId → BpAgent6 Time → BpAgent6 Time
  set_bp_endpoint_id eid a = record a { eid = eid }

  abbrev pub set_routing_agent : ℕ → BpAgent6 Time → BpAgent6 Time
  set_routing_agent routing a = record a { routing_agent = some routing }

  -- `DoInitialize`, with the two events that it keeps.
  unfoldable pub initialize_agent : Simulator Time → BpAgent6 Time → BpAgent6 Time
  initialize_agent sim a = record a { pending = do_initialize sim a.start_time a.stop_time }

  -- `DoDispose`; the events are cancelled.
  unfoldable pub do_dispose : BpAgent6 Time → BpAgent6 Time
  do_dispose a = record a {
    node = none;
    clas = [];
    registration = [];
    routing_agent = none;
    pending = [];
  }

  -- `GetCla`; `none` is the `std::out_of_range` of `at`.
  abbrev pub get_cla : ℕ → BpAgent6 Time → Option ℕ
  get_cla n a = get_elem? a.clas n
