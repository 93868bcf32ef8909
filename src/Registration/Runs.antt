-- ===== src/Registration/Runs.antt =====
-- Any sequence of calls on the registrations, against a map that is a function of the id.
pub mod Refinement
use ns3_dtn.Prelude.{
  ℕ, Bool, true, false, ◌≡◌, ◌⊎◌, inl, inr, refl, sym, ap, ◌∙◌, List, [], ◌∷◌, ◌++◌, map, Option,
  none, some, ◌>>=◌, Option-cases, Bool-cases, if◌then◌else◌, arith, bytes_eq_iff,
}
use ns3_dtn.EndpointId.{EndpointId, eid_eq}
use ns3_dtn.Registration.{
  RegisterInfo, Layers, ClaCall, enable_receive, disable_receive, BpRegistration, find_info,
  set_state, erase_info, register, unregister, bind, close,
}
use ns3_dtn.Registration.Lookups.{find_info-added, find_info-set_state}

-- A call of an application.
pub data Call (Time : Type 0) : Type 0 where
  registers : EndpointId → RegisterInfo Time → Call Time
  unregisters binds closes : EndpointId → Call Time

-- A call that fails with -1 changes nothing.
abbrev pub or_unchanged {ℓ} : {S : Type ℓ} → S → Option (S × List ClaCall) → S × List ClaCall
or_unchanged m none = (m, [])
or_unchanged m (some result) = result

-- What is registered, for every id.
abbrev pub Registered : Type 0 → Type 0
Registered Time = EndpointId → Option (RegisterInfo Time)

module _ {Time : Type 0} where
  -- The call, and what it asks of the convergence layers; `none` is a fatal error.
  unfoldable pub run_call :
      Layers → Call Time → BpRegistration Time → Option (BpRegistration Time × List ClaCall)
  run_call clas (registers eid info) m = register clas eid info m
  run_call clas (unregisters eid) m = some (or_unchanged m (unregister clas eid m))
  run_call clas (binds eid) m = some (or_unchanged m (bind clas eid m))
  run_call clas (closes eid) m = some (or_unchanged m (close eid m >>= λ m'. some (m', [])))

  unfoldable pub run_calls :
      Layers → List (Call Time) → BpRegistration Time → Option (BpRegistration Time × List ClaCall)
  run_calls clas [] m = some (m, [])
  run_calls clas (call ∷ calls) m = run_call clas call m >>= λ (m, asked).
      run_calls clas calls m >>= λ (m, more). some (m, asked ++ more)

  abbrev pub assign : EndpointId → Option (RegisterInfo Time) → Registered Time → Registered Time
  assign eid info f q = if eid_eq eid q then info else f q

  -- The state of a registration is set, if there is one.
  abbrev pub set_registered :
      (ℕ → ClaCall)
      → Bool
      → List ℕ
      → EndpointId
      → Option (RegisterInfo Time)
      → Registered Time
      → Registered Time × List ClaCall
  set_registered ask value clas eid none f = (f, [])
  set_registered ask value clas eid (some info) f =
      (assign eid (some (record info { state = value })) f, map ask clas)

  abbrev pub add_registered :
      Layers
      → EndpointId
      → RegisterInfo Time
      → Option (RegisterInfo Time)
      → Registered Time
      → Option (Registered Time × List ClaCall)
  add_registered clas eid info (some old) f = none
  add_registered clas eid info none f = some (
    assign eid (some info) f,
    if info.state
        then map (λ c. enable_receive c eid (clas.get_eid_address eid)) clas.numbers
        else [],
  )

  -- The same calls on the function.
  abbrev pub replay_call :
      Layers → Call Time → Registered Time → Option (Registered Time × List ClaCall)
  replay_call clas (registers eid info) f = add_registered clas eid info (f eid) f
  replay_call clas (unregisters eid) f =
      some (set_registered (λ c. disable_receive c eid) false clas.numbers eid (f eid) f)
  replay_call clas (binds eid) f = some (
      set_registered (λ c. enable_receive c eid (clas.get_eid_address eid)) true clas.numbers eid
        (f eid) f)
  replay_call clas (closes eid) f = some (assign eid none f, [])

  unfoldable pub replay_calls :
      Layers → List (Call Time) → Registered Time → Option (Registered Time × List ClaCall)
  replay_calls clas [] f = some (f, [])
  replay_calls clas (call ∷ calls) f = replay_call clas call f >>= λ (f, asked).
      replay_calls clas calls f >>= λ (f, more). some (f, asked ++ more)
