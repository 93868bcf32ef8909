-- ===== src/Agent/Version7.antt =====
-- model/bp-agent-7.cc: the agent of version 7, whose methods are not written yet. The state of the
-- agent stays as it is, and the results are 0.
use ns3_dtn.Prelude.{ℕ, Bool, List}
use ns3_dtn.EndpointId.{EndpointId}
use ns3_dtn.Agent.{Code, succeeded}

-- `Send`, of application data from one id to another, with a lifetime, custody and a priority
abbrev pub send7 :
    {State Time : Type 0}
    → List ℕ
    → EndpointId
    → EndpointId
    → Time
    → Bool
    → ℕ
    → State
    → Code × State
send7 adu source dest lifetime custody priority a = (succeeded, a)

-- `Forward`, `EnqueueForDeliveryToApplication` and `Deliver`
abbrev pub forward7 : {State Bundle : Type 0} → Bundle → State → State
forward7 b a = a

abbrev pub enqueue7 : {State Bundle : Type 0} → Bundle → State → Code × State
enqueue7 b a = (succeeded, a)

abbrev pub deliver7 : {State Bundle : Type 0} → Bundle → State → State
deliver7 b a = a
