-- ===== src/Registration/Lookups.antt =====
-- What the operations on registrations change, seen by look-ups.
use ns3_dtn.Prelude.{Bool, true, false, ◌≡◌, refl, ◌∙◌, List, [], ◌∷◌, ◌++◌, map, none, some}
use ns3_dtn.Prelude.{if◌then◌else◌, arith, bytes_eq_iff}
use ns3_dtn.EndpointId.{EndpointId, eid_eq}
use ns3_dtn.Registration.{
  RegisterInfo, Layers, ClaCall, enable_receive, disable_receive, BpRegistration, find_info,
  set_state, erase_info, register, unregister, bind, close,
}

module _ {Time : Type 0} where
  pub find_info-added :
      (eid q : EndpointId) (info : RegisterInfo Time) (m : BpRegistration Time)
      → find_info eid m ≡ none
      → find_info q (m ++ ((eid, info) ∷ [])) ≡ (if eid_eq eid q then some info else find_info q m)
  unfolding find_info
  find_info-added eid q info [] h = refl
  find_info-added eid q info ((k, old) ∷ m) h = ground (
    arith,
    bytes_eq_iff eid.uri q.uri,
    bytes_eq_iff k.uri q.uri,
    bytes_eq_iff k.uri eid.uri,
    find_info-added eid q info m,
  )

  -- `Register` of an id that is not registered succeeds: the id has the given registration, every
  -- other id has the one it had, and, if the registration is active, every convergence layer is
  -- asked in turn to receive for the id, else none.
  pub find_info-register :
      (clas : Layers) (eid q : EndpointId) (info : RegisterInfo Time) (m : BpRegistration Time)
      → find_info eid m ≡ none
      → (m' : BpRegistration Time) × (register clas eid info m
          ≡ some (
            m',
            if info.state
                then map (λ c. enable_receive c eid (clas.get_eid_address eid)) clas.numbers
                else [],
          ))
        × (find_info q m' ≡ (if eid_eq eid q then some info else find_info q m))
  unfolding register
  find_info-register clas eid q info m h =
      (m ++ ((eid, info) ∷ []), rw (register, h) refl, find_info-added eid q info m h)

  pub find_info-set_state :
      (value : Bool) (eid q : EndpointId) (info : RegisterInfo Time) (m : BpRegistration Time)
      → find_info eid m ≡ some info
      → find_info q (set_state value eid m)
        ≡ (if eid_eq eid q then some (record info { state = value }) else find_info q m)
  unfolding find_info set_state
  find_info-set_state value eid q info [] h = cc
  find_info-set_state value eid q info ((k, old) ∷ m) h = ground (
    arith,
    bytes_eq_iff eid.uri q.uri,
    bytes_eq_iff k.uri q.uri,
    bytes_eq_iff k.uri eid.uri,
    find_info-set_state value eid q info m,
  )

  -- `Unregister` and then `Bind` of a registered id both succeed: the id is passive after the one
  -- and active after both, keeps its lifetime, and every other id has the registration it had; every
  -- convergence layer is told in turn to stop and then to start receiving for the id.
  pub find_info-bind-unregister :
      (clas : Layers) (eid q : EndpointId) (info : RegisterInfo Time) (m : BpRegistration Time)
      → find_info eid m ≡ some info
      → (m' m'' : BpRegistration Time) × (unregister clas eid m
          ≡ some (m', map (λ c. disable_receive c eid) clas.numbers))
        × (bind clas eid m'
            ≡ some (m'', map (λ c. enable_receive c eid (clas.get_eid_address eid)) clas.numbers))
        × (find_info q m'
            ≡ (if eid_eq eid q then some (record info { state = false }) else find_info q m))
        × (find_info q m''
            ≡ (if eid_eq eid q then some (record info { state = true }) else find_info q m))
  unfolding unregister bind
  find_info-bind-unregister clas eid q info m h = (
    set_state false eid m,
    set_state true eid (set_state false eid m),
    rw h refl,
    rw passive refl,
    find_info-set_state false eid q info m h,
    find_info-set_state true eid q (record info { state = false }) (set_state false eid m) passive
        ∙ ground (arith, find_info-set_state false eid q info m h),
  )
    where
      passive : find_info eid (set_state false eid m) ≡ some (record info { state = false })
      passive =
          ground (arith, find_info-set_state false eid eid info m h, bytes_eq_iff eid.uri eid.uri)

  find_info-erased :
      (eid q : EndpointId) (info : RegisterInfo Time) (m : BpRegistration Time)
      → find_info eid m ≡ none
      → find_info q (erase_info eid (m ++ ((eid, info) ∷ []))) ≡ find_info q m
  unfolding find_info erase_info
  find_info-erased eid q info [] h = ground (arith, bytes_eq_iff eid.uri eid.uri)
  find_info-erased eid q info ((k, old) ∷ m) h =
      ground (arith, bytes_eq_iff k.uri eid.uri, find_info-erased eid q info m)

  -- `Close` undoes `Register`: both succeed on an id that is not registered, and then every id has
  -- the registration it had, the closed one none.
  pub find_info-close-register :
      (clas : Layers) (eid q : EndpointId) (info : RegisterInfo Time) (m : BpRegistration Time)
      → find_info eid m ≡ none
      → (m' m'' : BpRegistration Time) × (calls : List ClaCall) × (register clas eid info m
          ≡ some (m', calls))
        × (close eid m' ≡ some m'')
        × (find_info q m'' ≡ find_info q m)
  unfolding register close
  find_info-close-register clas eid q info m h = (
    m ++ ((eid, info) ∷ []),
    erase_info eid (m ++ ((eid, info) ∷ [])),
    if info.state
        then map (λ c. enable_receive c eid (clas.get_eid_address eid)) clas.numbers
        else [],
    rw (register, h) refl,
    rw known refl,
    find_info-erased eid q info m h,
  )
    where
      known : find_info eid (m ++ ((eid, info) ∷ [])) ≡ some info
      known = ground (arith, find_info-added eid eid info m h, bytes_eq_iff eid.uri eid.uri)
