-- ===== src/Agent.antt =====
-- model/bp-agent.cc, bp-agent.h and bp-agent-6.cc: a node's agent. The bundles are objects at
-- addresses, which the store, the events and the lists of fragments share, so what one operation
-- changes in a bundle every other one sees. `none` is an exception that nothing catches, a
-- dereference of a null pointer, or a loop that does not end: the simulation is over.
pub mod Sending
pub mod Fragments
pub mod Custody
pub mod Receiving
pub mod Reassembly
pub mod Lifecycle
pub mod Setup
pub mod Timers
pub mod Version7
use ns3_dtn.Prelude.{
  ℕ, ◌+◌, ◌%◌, ◌^◌, Bool, true, false, List, [], ◌∷◌, ◌++◌, map, Option, none, some,
}
use ns3_dtn.Prelude.{if◌then◌else◌, ◌==◌}
use ns3_dtn.EndpointId.{EndpointId, eid_eq, default_eid}
use ns3_dtn.Header.{is_fragment}
use ns3_dtn.Header6.{Header6, Role, dst, src, priority}
use ns3_dtn.Header6.Dictionary.{get_eid}
use ns3_dtn.BundleStore.{BundleStore, View, TimeApi, remove, store}
use ns3_dtn.Routing.{Routes, SocketAddress, next_hop_eid, next_hop_cla}
use ns3_dtn.Registration.{BpRegistration}
use ns3_dtn.Forward.{Bundle6, Sent}

-- What the agent uses of the simulator: times, `GetSeconds` in 64 bits, `Seconds (n / 1000.0)`, and
-- the order of `SequenceNumber32`.
pub record Simulator (Time : Type 0) : Type 0 where
  pub clock : TimeApi Time
  pub zero_time : Time
  pub get_seconds : Time → ℕ
  pub milli : ℕ → Time
  pub seq_lt : ℕ → ℕ → Bool

-- What the agent asks of its convergence layers and of the simulator, in order.
pub data Event (Time : Type 0) : Type 0 where
  sends : Option ℕ → SocketAddress → Sent Time → Event Time
  schedules_forward : ℕ → Event Time
  schedules_expire : ℕ → Time → Event Time
  clears_events : ℕ → Event Time

-- `BpAgent6`. A convergence layer is its number, as in the routes, and `ready` is its `m_ready`.
pub record Agent (Time : Type 0) : Type 0 where
  pub heap : ℕ → Bundle6 Time
  pub unused : ℕ
  pub bundle_store : BundleStore
  pub registration : BpRegistration Time
  pub routes : Routes
  pub clas : List ℕ
  pub ready : ℕ → Bool
  pub seq : ℕ
  pub eid : EndpointId
  pub bundle_size : ℕ
  pub bundles_delivered : ℕ
  pub bytes_delivered : ℕ
  pub acs_enabled : Bool
  pub events : List (Event Time)

-- The loop of `RemoveCla`.
unfoldable pub without : ℕ → List ℕ → List ℕ
without cla [] = []
without cla (c ∷ cs) = let rest = without cla cs in if c == cla then cs else c ∷ rest

-- The results 0 and -1.
pub data Code : Type 0 where
  succeeded failed : Code

abbrev pub eid_or_default : Option EndpointId → EndpointId
eid_or_default none = default_eid
eid_or_default (some eid) = eid

module _ {Time : Type 0} where
  -- An id of a header as the store's comparison and searches read it. An offset behind the
  -- dictionary throws in the code; arrivals with such an id are refused before.
  abbrev pub id_of : Role → Header6 Time → EndpointId
  id_of r h = eid_or_default (get_eid r h)

  abbrev pub view : Bundle6 Time → View Time
  view b = record {
    priority = priority b.header;
    create_timestamp = b.header.create_timestamp;
    sequence_number = b.header.timestamp_seq_num;
    frag_offset = b.header.frag_offset;
    source = id_of src b.header;
    destination = id_of dst b.header;
    is_fragment = is_fragment b.header.base;
    life_time = b.header.life_time;
    retention_constraints = b.retention_constraints;
    adu = b.adu;
  }

  abbrev pub look : Agent Time → ℕ → View Time
  look a p = view (a.heap p)

  -- A change of the bundle at an address.
  abbrev pub write : ℕ → Bundle6 Time → Agent Time → Agent Time
  write p b a = record a { heap = λ q. if p == q then b else a.heap q }

  abbrev pub tell : List (Event Time) → Agent Time → Agent Time
  tell es a = record a { events = a.events ++ es }

  -- `Create<Bundle6>`, at an address that no bundle had.
  abbrev pub allocate : Bundle6 Time → Agent Time → Agent Time
  allocate b a = write a.unused b (record a { unused = a.unused + 1 })

  -- `OutgoingCla`
  abbrev pub outgoing_cla : Agent Time → EndpointId → Option ℕ
  outgoing_cla a dst_eid =
      let next_hop = next_hop_eid dst_eid a.routes in
      if eid_eq next_hop default_eid then none else next_hop_cla next_hop a.routes

  -- `IsReady` of a convergence layer, if there is one.
  abbrev pub is_ready : Agent Time → Option ℕ → Option Bool
  is_ready a none = none
  is_ready a (some cla) = some (a.ready cla)

  -- `AddCla` and `RemoveCla`; an unknown layer is not removed.
  abbrev pub add_cla : ℕ → Agent Time → Agent Time
  add_cla cla a = record a { clas = a.clas ++ (cla ∷ []) }

  abbrev pub remove_cla : ℕ → Agent Time → Agent Time
  remove_cla cla a = record a { clas = without cla a.clas }

  -- `SetReady`, `EnableACS` and `DisableACS`
  abbrev pub set_ready : ℕ → Bool → Agent Time → Agent Time
  set_ready cla value a = record a { ready = λ c. if c == cla then value else a.ready c }

  abbrev pub enable_acs : Agent Time → Agent Time
  enable_acs a = record a { acs_enabled = true }

  abbrev pub disable_acs : Agent Time → Agent Time
  disable_acs a = record a { acs_enabled = false }

  module _ (sim : Simulator Time) where
    -- `m_bundleStore.Remove`, with the events of the bundle.
    abbrev pub remove_at : ℕ → Agent Time → Agent Time
    remove_at p a =
        tell (clears_events p ∷ [])
          (record a { bundle_store = remove (look a) sim.seq_lt p a.bundle_store })

    abbrev pub expiry : ℕ → Option Time → List (Event Time)
    expiry p none = []
    expiry p (some delay) = schedules_expire p delay ∷ []

    -- `m_bundleStore.Store`
    abbrev pub store_at : Time → ℕ → Agent Time → Agent Time
    store_at now p a =
        let (s, delay) = store (look a) sim.seq_lt sim.clock now p a.bundle_store in
        tell (expiry p delay) (record a { bundle_store = s })
