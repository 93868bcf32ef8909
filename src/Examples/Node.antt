-- ===== src/Examples/Node.antt =====
-- A node with an application at "dtn:b", and a bundle for it from "dtn:a".
use ns3_dtn.Prelude.{ℕ, ◌+◌, ◌-◌, true, false, List, [], ◌∷◌, ltb, ◌==◌}
use ns3_dtn.EndpointId.{EndpointId, dtn, from_parts}
use ns3_dtn.Header6.{Header6}
use ns3_dtn.BundleStore.{new_store}
use ns3_dtn.Registration.{RegisterInfo}
use ns3_dtn.Forward.{Bundle6}
use ns3_dtn.Agent.{Simulator, Agent}
use ns3_dtn.Examples.Data.{node_a, node_b, sample, payload}

abbrev pub to_a : EndpointId
to_a = from_parts dtn node_a

abbrev pub to_b : EndpointId
to_b = from_parts dtn node_b

-- Times are whole seconds, and numbers are compared without a wrap.
abbrev pub sim : Simulator ℕ
sim = record {
  clock = record {
    is_zero = λ t. t == 0;
    seconds = λ s. s;
    add = λ s t. s + t;
    sub = λ s t. s - t;
    is_positive = λ t. ltb 0 t;
  };
  zero_time = 0;
  get_seconds = λ t. t;
  milli = λ n. n;
  seq_lt = λ m n. ltb m n;
}

-- No custody transfer.
abbrev pub plain : Header6 ℕ
plain = record sample { base = record sample.base { processing_flags = 0x10 } }

abbrev pub five : List ℕ
five = 1 ∷ 2 ∷ 3 ∷ 4 ∷ 5 ∷ []

abbrev pub letter : Bundle6 ℕ
letter = record {
  header = plain;
  payload_header = payload;
  adu = five;
  retention_constraints = 1;
  acks = [];
}

abbrev pub active : RegisterInfo ℕ
active = record { lifetime = 60; state = true }

-- The agent of node b, where nothing has arrived.
abbrev pub node : Agent ℕ
node = record {
  heap = λ p. letter;
  unused = 0;
  bundle_store = new_store 0;
  registration = (to_b, active) ∷ [];
  routes = [];
  clas = [];
  ready = λ c. false;
  seq = 0;
  eid = from_parts dtn (b'n' ∷ []);
  bundle_size = 2;
  bundles_delivered = 0;
  bytes_delivered = 0;
  acs_enabled = false;
  events = [];
}
