-- ===== src/Registration/Runs/Refinement.antt =====
-- The registrations, as a list of distinct ids, behave as the function.
use ns3_dtn.Prelude.{
  Bool, true, false, ◌≡◌, ◌⊎◌, inl, inr, refl, sym, ap, ◌∙◌, List, [], ◌∷◌, ◌++◌, map, Option, none,
  some, Option-cases, Bool-cases, if◌then◌else◌, arith, bytes_eq_iff,
}
use ns3_dtn.EndpointId.{EndpointId, eid_eq}
use ns3_dtn.Registration.{
  RegisterInfo, Layers, ClaCall, enable_receive, disable_receive, BpRegistration, find_info,
  set_state, erase_info, register, unregister, bind, close,
}
use ns3_dtn.Registration.Lookups.{find_info-added, find_info-set_state}
use ns3_dtn.Registration.Runs.{
  Call, registers, unregisters, binds, closes, run_call, run_calls, Registered, assign, replay_call,
  replay_calls,
}

module _ {Time : Type 0} where
  -- No id stands twice.
  abbrev pub IsValid : BpRegistration Time → Type 0
  IsValid [] = Unit {0}
  IsValid ((k, info) ∷ m) = (find_info k m ≡ none) × IsValid m

  find_info-eq :
      (p q : EndpointId) (m : BpRegistration Time)
      → eid_eq p q ≡ true
      → find_info p m ≡ find_info q m
  unfolding find_info
  find_info-eq p q [] e = refl
  find_info-eq p q ((k, info) ∷ m) e = ground (
    arith,
    bytes_eq_iff p.uri q.uri,
    bytes_eq_iff k.uri q.uri,
    bytes_eq_iff k.uri p.uri,
    find_info-eq p q m,
    e,
  )

  find_info-erase_info :
      (eid q : EndpointId) (m : BpRegistration Time)
      → IsValid m
      → find_info q (erase_info eid m) ≡ (if eid_eq eid q then none else find_info q m)
  unfolding find_info erase_info
  find_info-erase_info eid q [] valid = ground arith
  find_info-erase_info eid q ((k, info) ∷ m) (fresh, valid) = ground (
    arith,
    bytes_eq_iff eid.uri q.uri,
    bytes_eq_iff k.uri q.uri,
    bytes_eq_iff k.uri eid.uri,
    find_info-erase_info eid q m valid,
    find_info-eq k q m,
    fresh,
  )

  added-IsValid :
      (eid : EndpointId) (info : RegisterInfo Time) (m : BpRegistration Time)
      → find_info eid m ≡ none
      → IsValid m
      → IsValid (m ++ ((eid, info) ∷ []))
  unfolding find_info
  added-IsValid eid info [] h valid = (refl, tt)
  added-IsValid eid info ((k, old) ∷ m) h (fresh, valid) = (
    ground (
      arith,
      find_info-added eid k info m,
      bytes_eq_iff k.uri eid.uri,
      bytes_eq_iff eid.uri k.uri,
      fresh,
      h,
    ),
    added-IsValid eid info m (ground (arith, h)) valid,
  )

  set_state-none :
      (value : Bool) (eid q : EndpointId) (m : BpRegistration Time)
      → find_info q m ≡ none
      → find_info q (set_state value eid m) ≡ none
  unfolding find_info set_state
  set_state-none value eid q [] h = refl
  set_state-none value eid q ((k, info) ∷ m) h = ground (arith, set_state-none value eid q m, h)

  set_state-IsValid :
      (value : Bool) (eid : EndpointId) (m : BpRegistration Time)
      → IsValid m
      → IsValid (set_state value eid m)
  unfolding set_state
  set_state-IsValid value eid [] valid = tt
  set_state-IsValid value eid ((k, info) ∷ m) (fresh, valid) = elim (Bool-cases (eid_eq k eid)) [
    | inl e ↦ rw e (fresh, valid)
    | inr e ↦ rw e (set_state-none value eid k m fresh, set_state-IsValid value eid m valid)
  ]

  erase_info-IsValid :
      (eid : EndpointId) (m : BpRegistration Time) → IsValid m → IsValid (erase_info eid m)
  unfolding erase_info
  erase_info-IsValid eid [] valid = tt
  erase_info-IsValid eid ((k, info) ∷ m) (fresh, valid) = elim (Bool-cases (eid_eq k eid)) [
    | inl e ↦ rw e valid
    | inr e ↦
        rw e (
          find_info-erase_info eid k m valid ∙ ground (arith, fresh),
          erase_info-IsValid eid m valid,
        )
  ]

  -- The list `m` has distinct ids and holds what the function `f` gives.
  abbrev pub Holds : BpRegistration Time → Registered Time → Type 0
  Holds m f = IsValid m × ((q : EndpointId) → find_info q m ≡ f q)

  -- Two results agree: both are a fatal error, or what is asked is the same and the states agree.
  abbrev pub Agree :
      Option (BpRegistration Time × List ClaCall) → Option (Registered Time × List ClaCall) → Type 0
  Agree o p =
      ((o ≡ none) × (p ≡ none))
      ⊎ ((m : BpRegistration Time) × (f : Registered Time) × (asked : List ClaCall) × (o
            ≡ some (m, asked))
          × (p ≡ some (f, asked))
          × Holds m f)

  set_state-Holds :
      (value : Bool) (eid : EndpointId) (info : RegisterInfo Time) (m : BpRegistration Time)
      (f : Registered Time)
      → Holds m f
      → find_info eid m ≡ some info
      → Holds (set_state value eid m) (assign eid (some (record info { state = value })) f)
  set_state-Holds value eid info m f (valid, same) found = (
    set_state-IsValid value eid m valid,
    λ q.
        find_info-set_state value eid q info m found
        ∙ ap
            (λ (o : Option (RegisterInfo Time)).
              if eid_eq eid q then some (record info { state = value }) else o)
            (same q),
  )

  absent :
      (eid q : EndpointId) (f : Registered Time) (m : BpRegistration Time)
      → ((q : EndpointId) → find_info q m ≡ f q)
      → find_info eid m ≡ none
      → f q ≡ assign eid none f q
  absent eid q f m same e = elim (Bool-cases (eid_eq eid q)) [
    | inl p ↦ rw p (sym (same q) ∙ sym (find_info-eq eid q m p) ∙ e)
    | inr p ↦ rw p refl
  ]

  register-none :
      (clas : Layers) (eid : EndpointId) (info : RegisterInfo Time) (m : BpRegistration Time)
      → find_info eid m ≡ none
      → register clas eid info m
        ≡ some (
          m ++ ((eid, info) ∷ []),
          if info.state
              then map (λ c. enable_receive c eid (clas.get_eid_address eid)) clas.numbers
              else [],
        )
  unfolding register
  register-none clas eid info m e = rw (register, e) refl

  register-some :
      (clas : Layers) (eid : EndpointId) (info old : RegisterInfo Time) (m : BpRegistration Time)
      → find_info eid m ≡ some old
      → register clas eid info m ≡ none
  unfolding register
  register-some clas eid info old m e = rw (register, e) refl

  run_call-replay_call :
      (clas : Layers) (call : Call Time) (m : BpRegistration Time) (f : Registered Time)
      → Holds m f
      → Agree (run_call clas call m) (replay_call clas call f)
  unfolding run_call unregister bind close
  run_call-replay_call clas (registers eid info) m f (valid, same) =
      elim (Option-cases (find_info eid m)) [
        | inl e ↦ inr (
          m ++ ((eid, info) ∷ []),
          assign eid (some info) f,
          if info.state
              then map (λ c. enable_receive c eid (clas.get_eid_address eid)) clas.numbers
              else [],
          register-none clas eid info m e,
          rw (sym (same eid) ∙ e) refl,
          (
            added-IsValid eid info m e valid,
            λ q.
                find_info-added eid q info m e
                ∙ ap (λ (o : Option (RegisterInfo Time)). if eid_eq eid q then some info else o)
                    (same q),
          ),
        )
        | inr (old, e) ↦ inl (register-some clas eid info old m e, rw (sym (same eid) ∙ e) refl)
      ]
  run_call-replay_call clas (unregisters eid) m f (valid, same) =
      elim (Option-cases (find_info eid m)) [
        | inl e ↦ inr (m, f, [], rw e refl, rw (sym (same eid) ∙ e) refl, (valid, same))
        | inr (old, e) ↦ inr (
          set_state false eid m,
          _,
          map (λ c. disable_receive c eid) clas.numbers,
          rw e refl,
          rw (sym (same eid) ∙ e) refl,
          set_state-Holds false eid old m f (valid, same) e,
        )
      ]
  run_call-replay_call clas (binds eid) m f (valid, same) = elim (Option-cases (find_info eid m)) [
    | inl e ↦ inr (m, f, [], rw e refl, rw (sym (same eid) ∙ e) refl, (valid, same))
    | inr (old, e) ↦ inr (
      set_state true eid m,
      _,
      map (λ c. enable_receive c eid (clas.get_eid_address eid)) clas.numbers,
      rw e refl,
      rw (sym (same eid) ∙ e) refl,
      set_state-Holds true eid old m f (valid, same) e,
    )
  ]
  run_call-replay_call clas (closes eid) m f (valid, same) = elim (Option-cases (find_info eid m)) [
    | inl e ↦
        inr (
          m,
          assign eid none f,
          [],
          rw e refl,
          refl,
          (valid, λ q. same q ∙ absent eid q f m same e),
        )
    | inr (old, e) ↦ inr (
      erase_info eid m,
      assign eid none f,
      [],
      rw e refl,
      refl,
      (
        erase_info-IsValid eid m valid,
        λ q.
            find_info-erase_info eid q m valid
            ∙ ap (λ (o : Option (RegisterInfo Time)). if eid_eq eid q then none else o) (same q),
      ),
    )
  ]

  run_calls-Agree :
      (clas : Layers) (calls : List (Call Time)) (m : BpRegistration Time) (f : Registered Time)
      → Holds m f
      → Agree (run_calls clas calls m) (replay_calls clas calls f)
  unfolding run_calls replay_calls
  run_calls-Agree clas [] m f holds = inr (m, f, [], refl, refl, holds)
  run_calls-Agree clas (call ∷ calls) m f holds = elim (run_call-replay_call clas call m f holds) [
    | inl (o, p) ↦ inl (rw o refl, rw p refl)
    | inr (m', f', asked, o, p, holds') ↦ elim (run_calls-Agree clas calls m' f' holds') [
      | inl (o', p') ↦ inl (rw o (rw o' refl), rw p (rw p' refl))
      | inr (m'', f'', more, o', p', holds'') ↦
          inr (m'', f'', asked ++ more, rw o (rw o' refl), rw p (rw p' refl), holds'')
    ]
  ]

  -- Any sequence of `Register`, `Unregister`, `Bind` and `Close` on a new agent does what the same
  -- calls do on a function from ids to registrations: either both stop with the fatal error of
  -- `Register`, or both ask the same of the convergence layers in the same order, and then the map has
  -- no id twice and every id has the registration that the function gives.
  pub run_calls-replay_calls :
      (clas : Layers) (calls : List (Call Time))
      → ((run_calls clas calls [] ≡ none) × (replay_calls clas calls (λ q. none) ≡ none))
        ⊎ ((m : BpRegistration Time) × (f : Registered Time) × (asked : List ClaCall) × (run_calls
                clas calls []
              ≡ some (m, asked))
            × (replay_calls clas calls (λ q. none) ≡ some (f, asked))
            × IsValid m
            × ((q : EndpointId) → find_info q m ≡ f q))
  unfolding find_info
  run_calls-replay_calls clas calls =
      elim (run_calls-Agree clas calls [] (λ q. none) (tt, λ q. refl)) [
        | inl both ↦ inl both
        | inr (m, f, asked, o, p, holds) ↦ inr (m, f, asked, o, p, holds.0, holds.1)
      ]
