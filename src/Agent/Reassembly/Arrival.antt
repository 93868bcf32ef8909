-- ===== src/Agent/Reassembly/Arrival.antt =====
-- What one arrival of a fragment does.
use ns3_dtn.Prelude.{
  ℕ, ◌%◌, ◌^◌, ◌≡◌, ◌⊎◌, inl, inr, refl, ap, ◌∙◌, arith, Bool, true, false, List, [], ◌∷◌, some,
  length, ◌==◌, if◌then◌else◌, Bool-cases, bit_or,
}
use ns3_dtn.EndpointId.{EndpointId}
use ns3_dtn.Header.{is_fragment, set_is_fragment, set_flag, flag, bundle_is_fragment}
use ns3_dtn.Header.Flags.{flag-set_flag}
use ns3_dtn.Header6.{Header6, Unset, src, dst, cust_tx_req}
use ns3_dtn.Header6.Priority.{priority-set_is_fragment, cust_tx_req-set_is_fragment}
use ns3_dtn.Header6.Dictionary.{get_eid}
use ns3_dtn.BundleStore.{
  BundleStore, View, TimeApi, store, stored, insert, less, bp_dispatch_pending,
}
use ns3_dtn.Registration.{RegisterInfo, is_node_member}
use ns3_dtn.Forward.{Bundle6}
use ns3_dtn.Agent.{Simulator, Agent, look, allocate, store_at}
use ns3_dtn.Agent.Fragments.{whole_if, join_all, prev_frags}
use ns3_dtn.Agent.Receiving.{process_bundle, dispatch, deliver, enqueue, join_left}
use ns3_dtn.Agent.Reassembly.{IsAlive, Agrees, IsPiece, IsLocal}

-- Clearing the flag of a fragment leaves the ids.
get_eid-cleared :
    {Time : Type 0} (h : Header6 Time)
    → (get_eid src (record h { base = set_is_fragment false h.base }) ≡ get_eid src h)
      × (get_eid dst (record h { base = set_is_fragment false h.base }) ≡ get_eid dst h)
unfolding get_eid set_flag
get_eid-cleared h = (refl, refl)

module _ {Time : Type 0} {source dest : EndpointId} {x : Header6 Time} where
  Agrees-cleared :
      (h : Header6 Time)
      → Agrees source dest x h
      → Agrees source dest x (record h { base = set_is_fragment false h.base })
  unfolding set_flag
  Agrees-cleared h g = record {
    same_priority = priority-set_is_fragment false h ∙ g.same_priority;
    same_timestamp = g.same_timestamp;
    same_number = g.same_number;
    same_length = g.same_length;
    from = (get_eid-cleared h).0 ∙ g.from;
    to = (get_eid-cleared h).1 ∙ g.to;
    no_custody = cust_tx_req-set_is_fragment false h ∙ g.no_custody;
  }

  pub whole_if-Agrees :
      (b : Bundle6 Time)
      → Agrees source dest x b.header
      → Agrees source dest x (whole_if b).header
        × ((whole_if b).header.frag_offset ≡ b.header.frag_offset)
        × ((whole_if b).adu ≡ b.adu)
        × (is_fragment (whole_if b).header.base ≡ (
            if length b.adu % 2 ^ 32 == b.header.adu_length
            then false
            else is_fragment b.header.base))
  unfolding set_flag flag
  whole_if-Agrees b g = elim (Bool-cases (length b.adu % 2 ^ 32 == b.header.adu_length)) [
    | inl e ↦ rw e (
      Agrees-cleared b.header g,
      refl,
      refl,
      (flag-set_flag bundle_is_fragment bundle_is_fragment false b.header.base).0,
    )
    | inr e ↦ rw e (g, refl, refl, refl)
  ]

-- `Store` takes a bundle that is alive.
store-alive :
    {Time : Type 0} (look : ℕ → View Time) (seq_lt : ℕ → ℕ → Bool) (t : TimeApi Time) (now : Time)
    (b : ℕ) (s : BundleStore)
    → (t.is_zero (look b).life_time ≡ true)
      ⊎ (t.is_positive (t.sub (t.add (t.seconds (look b).create_timestamp) (look b).life_time) now)
          ≡ true)
    → (store look seq_lt t now b s).0 ≡ stored look seq_lt b s
unfolding store
store-alive look seq_lt t now b s (inl e) = rw e refl
store-alive look seq_lt t now b s (inr e) = elim (Bool-cases (t.is_zero (look b).life_time)) [
  | inl z ↦ rw z refl
  | inr z ↦ rw z (rw e refl)
]

-- A fragment at `p` for a registered application is joined with the stored ones.
module _ {Time : Type 0} (sim : Simulator Time) (unset : Unset) (status : ℕ) (now : Time) (p : ℕ)
    (dest : EndpointId) (info : RegisterInfo Time) (c c' : Agent Time) (here : IsLocal dest info c)
    (to : get_eid dst (c.heap p).header ≡ some dest)
    (fragment : is_fragment (c.heap p).header.base ≡ true)
    (joins : join_all sim p (prev_frags p c) c ≡ c')
    (plain : cust_tx_req (c'.heap p).header ≡ false) where
  join_left-some : (its : List ℕ) → join_left sim false p its c ≡ some (join_all sim p its c)
  unfolding join_all
  join_left-some [] = refl
  join_left-some (it ∷ its) = refl

  enqueue-joins : enqueue sim p c ≡ some c'
  unfolding enqueue
  enqueue-joins =
      rw (to, here.not_agent, fragment) (join_left-some (prev_frags p c) ∙ ap some joins)

  deliver-joins : deliver sim unset status now p c ≡ some c'
  unfolding deliver
  deliver-joins = rw (to, here.registered) (rw here.active (rw enqueue-joins (rw plain refl)))

  pub dispatch-joins : dispatch sim unset status now p c ≡ some c'
  unfolding dispatch is_node_member
  dispatch-joins = rw (dispatch, to, is_node_member, here.registered) deliver-joins

-- The bundle in memory, and the agent that has stored it.
abbrev pub arrived : {Time : Type 0} → Bundle6 Time → Bundle6 Time
arrived y = record y { retention_constraints = bit_or y.retention_constraints bp_dispatch_pending }

abbrev pub holding :
    {Time : Type 0} → Simulator Time → Time → Bundle6 Time → Agent Time → Agent Time
holding sim now y a = store_at sim now a.unused (allocate (arrived y) a)

module _ {Time : Type 0} (sim : Simulator Time) (unset : Unset) (status : ℕ) (now : Time)
    (source dest : EndpointId) (x : Header6 Time) (at : ℕ) (y : Bundle6 Time)
    (piece : IsPiece source dest x at y) (alive : IsAlive sim now y.header)
    (info : RegisterInfo Time) (a : Agent Time) (here : IsLocal dest info a) where
  own : (a.unused == a.unused) ≡ true
  own = ground arith

  pub heap-holding : (holding sim now y a).heap a.unused ≡ arrived y
  heap-holding = rw own refl

  pub set-holding :
      (holding sim now y a).bundle_store.m_store
      ≡ insert (less (look (allocate (arrived y) a)) sim.seq_lt) a.unused a.bundle_store.m_store
  set-holding =
      ap (λ (s : BundleStore). s.m_store)
        (store-alive (look (allocate (arrived y) a)) sim.seq_lt sim.clock now a.unused
          a.bundle_store (rw own alive))

  -- The bundle is delivered: the fragments are joined.
  pub process_bundle-joins :
      (a' : Agent Time)
      → join_all sim a.unused (prev_frags a.unused (holding sim now y a)) (holding sim now y a) ≡ a'
      → cust_tx_req (a'.heap a.unused).header ≡ false
      → process_bundle sim unset status now y a ≡ some a'
  unfolding process_bundle
  process_bundle-joins a' joins plain =
      rw (piece.agrees.from, piece.agrees.to)
        (dispatch-joins sim unset status now a.unused dest info (holding sim now y a) a'
          (record {
            registered = here.registered;
            active = here.active;
            not_agent = here.not_agent;
          })
          (ap (λ (b : Bundle6 Time). get_eid dst b.header) heap-holding ∙ piece.agrees.to)
          (ap (λ (b : Bundle6 Time). is_fragment b.header.base) heap-holding ∙ piece.fragment) joins
          plain)
