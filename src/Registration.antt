-- ===== src/Registration.antt =====
-- model/bp-agent.cc, `Register`, `Unregister`, `Bind`, `IsNodeMember` and `Close`: the endpoint ids
-- that applications have registered with a node. The map is an association list whose keys are
-- compared by URI. What the agent calls on its convergence layers is a list of calls; they are the
-- agent's `m_clas`, by number; the agent has a routing agent, and what the layers return is ignored by the code.
pub mod Lookups
pub mod Runs
use ns3_dtn.Prelude.{ℕ, Bool, true, false, List, [], ◌∷◌, ◌++◌, map, Option, none, some, ◌>>=◌}
use ns3_dtn.Prelude.{if◌then◌else◌}
use ns3_dtn.EndpointId.{EndpointId, eid_eq}
use ns3_dtn.Routing.{SocketAddress}

-- `BpRegisterInfo`, whose lifetime is a `double`.
pub record RegisterInfo (Time : Type 0) : Type 0 where
  pub lifetime : Time
  pub state : Bool

-- A call, with the agent's own node, of `EnableReceive` or `DisableReceive` on one convergence layer.
pub data ClaCall : Type 0 where
  enable_receive : ℕ → EndpointId → SocketAddress → ClaCall
  disable_receive : ℕ → EndpointId → ClaCall

-- What the agent calls: `m_clas`, and `GetEidAddress`, which reads the routes of its routing agent.
pub record Layers : Type 0 where
  pub numbers : List ℕ
  pub get_eid_address : EndpointId → SocketAddress

-- `BpRegistration`
abbrev pub BpRegistration : Type 0 → Type 0
BpRegistration Time = List (EndpointId × RegisterInfo Time)

module _ {Time : Type 0} where
  unfoldable pub find_info : EndpointId → BpRegistration Time → Option (RegisterInfo Time)
  find_info eid [] = none
  find_info eid ((k, info) ∷ m) =
      let rest = find_info eid m in if eid_eq k eid then some info else rest

  -- `(*it).second.state = value`, at the entry that was found.
  unfoldable pub set_state : Bool → EndpointId → BpRegistration Time → BpRegistration Time
  set_state value eid [] = []
  set_state value eid ((k, info) ∷ m) =
      let rest = set_state value eid m in
      if eid_eq k eid then (k, record info { state = value }) ∷ m else (k, info) ∷ rest

  unfoldable pub erase_info : EndpointId → BpRegistration Time → BpRegistration Time
  erase_info eid [] = []
  erase_info eid ((k, info) ∷ m) =
      let rest = erase_info eid m in if eid_eq k eid then m else (k, info) ∷ rest

  unfoldable pub is_node_member : EndpointId → BpRegistration Time → Bool
  unfolding find_info
  is_node_member eid m = elim (find_info eid m) [ none ↦ false | some info ↦ true ]

  -- `Register`; `none` is the fatal error on an id that is registered.
  unfoldable pub register :
      Layers
      → EndpointId
      → RegisterInfo Time
      → BpRegistration Time
      → Option (BpRegistration Time × List ClaCall)
  unfolding find_info
  register clas eid info m = elim (find_info eid m) [
    | some old ↦ none
    | none ↦ some (
      m ++ ((eid, info) ∷ []),
      if info.state
          then map (λ c. enable_receive c eid (clas.get_eid_address eid)) clas.numbers
          else [],
    )
  ]

  -- `Unregister`; `none` is the result -1.
  unfoldable pub unregister :
      Layers → EndpointId → BpRegistration Time → Option (BpRegistration Time × List ClaCall)
  unfolding find_info set_state
  unregister clas eid m = find_info eid m >>= λ info.
      some (set_state false eid m, map (λ c. disable_receive c eid) clas.numbers)

  -- `Bind`; `none` is the result -1.
  unfoldable pub bind :
      Layers → EndpointId → BpRegistration Time → Option (BpRegistration Time × List ClaCall)
  unfolding find_info set_state
  bind clas eid m = find_info eid m >>= λ info. some (
    set_state true eid m,
    map (λ c. enable_receive c eid (clas.get_eid_address eid)) clas.numbers,
  )

  -- `Close`; `none` is the result -1.
  unfoldable pub close : EndpointId → BpRegistration Time → Option (BpRegistration Time)
  unfolding find_info erase_info
  close eid m = find_info eid m >>= λ info. some (erase_info eid m)
