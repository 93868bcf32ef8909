-- ===== src/Flowstats/Install.antt =====
-- `Install` and the constructor of `BpFlowProbe`: the probe connects its four functions to the
-- traces of an agent. `connects` is the callback that connects a trace, by its name in `GetTypeId`.
use ns3_dtn.Prelude.{Bool, List, [], ◌∷◌, Option, none, some, ◌>>=◌, if◌then◌else◌}

-- The traces of `BpAgent::GetTypeId`.
pub data AgentTrace : Type 0 where
  send_outgoing unicast_forward local_deliver drop : AgentTrace

-- The constructor's tests, in order, with the traces that it connects; `none` is one of the fatal
-- errors.
unfoldable pub connect_all : (AgentTrace → Bool) → List AgentTrace → Option (List AgentTrace)
connect_all connects [] = some []
connect_all connects (trace ∷ traces) =
    let rest = connect_all connects traces in
    if connects trace then (rest >>= λ more. some (trace ∷ more)) else none

-- `BpFlowProbe (monitor, classifier, node, connect)` and `Install`
unfoldable pub new_probe : (AgentTrace → Bool) → Option (List AgentTrace)
unfolding connect_all
new_probe connects =
    connect_all connects (send_outgoing ∷ unicast_forward ∷ local_deliver ∷ drop ∷ [])

unfoldable pub install_probe : (AgentTrace → Bool) → Option (List AgentTrace)
unfolding new_probe
install_probe connects = new_probe connects
