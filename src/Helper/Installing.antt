-- ===== src/Helper/Installing.antt =====
-- helper/bp-agent-helper.cc and bp-agent-container.cc: what a helper installs on a list of nodes,
-- and what starting and stopping the container does to it.
use ns3_dtn.Prelude.{
  ℕ, zero, suc, ◌+◌, ◌-◌, ◌<◌, ◌≡◌, refl, ap, sym, ◌∙◌, Bool, true, false, ◌||◌, ◌&&◌, inl, inr,
  List, [], ◌∷◌, ◌++◌, Option, none, some, arith, if◌then◌else◌, ◌==◌, ltb, leb, Bool-cases, length,
  get_elem?, bytes_eq,
}
use mathlib.Core.List.{append_assoc, append-nil}
use ns3_dtn.EndpointId.{EndpointId, dtn_none}
use ns3_dtn.Agent.{Simulator}
use ns3_dtn.Agent.Lifecycle.{starts, stops}
use ns3_dtn.Agent.Setup.{BpAgent6, initialize_agent, set_start_time, set_stop_time}
use ns3_dtn.Helper.{
  World, Helper, Container, get_n, get, call, call_each, start, stop, installed, install_priv,
  install_loop, install_all, run_initializes, add_agent,
}

-- `n` addresses from `u` on.
abbrev range : ℕ → ℕ → List ℕ
range u zero = []
range u (suc n) = u ∷ range (u + 1) n

abbrev contains : ℕ → List ℕ → Bool
contains q [] = false
contains q (p ∷ c) = (p == q) || contains q c

contains-range : (q u n : ℕ) → contains q (range u n) ≡ (leb u q && ltb q (u + n))
contains-range q u zero = ground arith
contains-range q u (suc n) = ground (arith, contains-range q (u + 1) n)

length-range : (u n : ℕ) → length (range u n) ≡ n
length-range u zero = refl
length-range u (suc n) = ap suc (length-range (u + 1) n)

get-range : (u n i : ℕ) → i < n → get (range u n) i ≡ some (u + i)
get-range u zero i below = absurd (omega arith)
get-range u (suc n) zero below = ap some (omega arith)
get-range u (suc n) (suc i) below = get-range (u + 1) n i (omega arith) ∙ ap some (omega arith)

get_elem?-below : (ns : List ℕ) (i n : ℕ) → get_elem? ns i ≡ some n → i < length ns
get_elem?-below [] i n found = ground arith
get_elem?-below (m ∷ ns) zero n found = omega arith
get_elem?-below (m ∷ ns) (suc i) n found = omega (arith, get_elem?-below ns i n found)

-- A method that sets members to fixed values, called again or not.
call-again :
    {A : Type 0} (f : A → A)
    → ((a : A) → f (f a) ≡ f a)
    → (first later : Bool) (a : A)
    → (if later then f (if first then f a else a) else (if first then f a else a))
      ≡ (if first || later then f a else a)
call-again f again true true a = again a
call-again f again true false a = refl
call-again f again false true a = refl
call-again f again false false a = refl

module _ {Time : Type 0} where
  call_each-contains :
      (f : BpAgent6 Time → BpAgent6 Time)
      → ((a : BpAgent6 Time) → f (f a) ≡ f a)
      → (c : Container) (w : World Time) (q : ℕ)
      → (call_each f c w).agents q ≡ (if contains q c then f (w.agents q) else w.agents q)
  unfolding call_each
  call_each-contains f again [] w q = refl
  call_each-contains f again (p ∷ c) w q =
      call_each-contains f again c (call f p w) q
      ∙ call-again f again (p == q) (contains q c) (w.agents q)

  call_each-initializes :
      (f : BpAgent6 Time → BpAgent6 Time) (c : Container) (w : World Time)
      → (call_each f c w).initializes ≡ w.initializes
  unfolding call_each
  call_each-initializes f [] w = refl
  call_each-initializes f (p ∷ c) w = call_each-initializes f c (call f p w)

  module _ (sim : Simulator Time) where
    -- Who is at an address behind the loop of `Install`.
    abbrev made : Option ℕ → EndpointId → ℕ → BpAgent6 Time → BpAgent6 Time
    made none eid routing old = old
    made (some node) eid routing old = installed sim eid routing node

    abbrev fresh : Helper → ℕ → ℕ → World Time → World Time
    fresh h routing node w = record {
      agents = λ q. if w.unused == q then installed sim h.eid routing node else w.agents q;
      unused = w.unused + 1;
      initializes = w.initializes ++ (w.unused ∷ []);
    }

    install_priv-fresh :
        (h : Helper) (routing node : ℕ) (w : World Time)
        → bytes_eq h.eid.uri dtn_none ≡ false
        → h.routing_agent ≡ some routing
        → install_priv sim h node w ≡ some (fresh h routing node w, w.unused)
    unfolding install_priv
    install_priv-fresh h routing node w named routed = rw (named, routed) refl

    made-step :
        (nodes : List ℕ) (node u q : ℕ) (eid : EndpointId) (routing : ℕ) (old : BpAgent6 Time)
        → (let now = if u == q then installed sim eid routing node else old in
            if ltb q (u + 1) then now else made (get_elem? nodes (q - (u + 1))) eid routing now)
          ≡ (if ltb q u then old else made (get_elem? (node ∷ nodes) (q - u)) eid routing old)
    made-step nodes node u q eid routing old = elim (Bool-cases (ltb q u)) [
      | inl before ↦
          let within : ltb q (u + 1) ≡ true = ground arith in
          let other : (u == q) ≡ false = ground arith in rw (before, within, other) refl
      | inr after ↦ elim (Bool-cases (u == q)) [
        | inl here ↦
            let within : ltb q (u + 1) ≡ true = ground arith in
            let first : q - u ≡ 0 = ground arith in rw (after, here, within, first) refl
        | inr beyond ↦
            let behind : ltb q (u + 1) ≡ false = ground arith in
            let next : q - u ≡ suc (q - (u + 1)) = ground arith in
            rw (after, beyond, behind, next) refl
      ]
    ]

    install_loop-range :
        (h : Helper) (routing : ℕ)
        → bytes_eq h.eid.uri dtn_none ≡ false
        → h.routing_agent ≡ some routing
        → (nodes : List ℕ) (w : World Time) (apps : Container)
        → (w' : World Time) × (install_loop sim h nodes w apps
            ≡ some (w', apps ++ range w.unused (length nodes)))
          × (w'.initializes ≡ w.initializes ++ range w.unused (length nodes))
          × ((q : ℕ)
              → w'.agents q ≡ (
                  if ltb q w.unused
                  then w.agents q
                  else made (get_elem? nodes (q - w.unused)) h.eid routing (w.agents q)))
    unfolding install_loop add_agent
    install_loop-range h routing named routed [] w apps = (
      w,
      ap (λ c. some (w, c)) (sym (append-nil apps)),
      sym (append-nil w.initializes),
      λ q. ground arith,
    )
    install_loop-range h routing named routed (node ∷ nodes) w apps =
        let (w', runs, scheduled, agents) =
          install_loop-range h routing named routed nodes (fresh h routing node w)
            (add_agent w.unused apps) in
        (
          w',
          rw (install_priv-fresh h routing node w named routed) (
              runs
              ∙ ap (λ c. some (w', c))
                  (append_assoc apps (w.unused ∷ []) (range (w.unused + 1) (length nodes)))),
          scheduled
              ∙ append_assoc w.initializes (w.unused ∷ []) (range (w.unused + 1) (length nodes)),
          λ q. agents q ∙ made-step nodes node w.unused q h.eid routing (w.agents q),
        )

    -- An agent that a helper installed, when the container's start and stop times are set and the
    -- scheduled `Initialize` has run.
    abbrev pub ready_agent : EndpointId → ℕ → ℕ → Time → Time → BpAgent6 Time
    ready_agent eid routing node t t' = record {
      node = some node;
      clas = [];
      bundle_size = 512;
      registration = [];
      seq = 0;
      eid = eid;
      reg_info = record { lifetime = sim.zero_time; state = true };
      routing_agent = some routing;
      start_time = t;
      stop_time = t';
      pending = starts t ∷ (if sim.clock.is_zero t' then [] else stops t' ∷ []);
      bundles_delivered = 0;
      bytes_delivered = 0;
      acs_enabled = false;
    }

    abbrev pub set_up : Time → Time → Container → World Time → World Time
    set_up t t' c w = run_initializes sim (stop t' c (start t c w))

    three_passes :
        (t t' : Time) (within : Bool) (a started stopped : BpAgent6 Time)
        → started ≡ (if within then set_start_time t a else a)
        → stopped ≡ (if within then set_stop_time t' started else started)
        → (if within then initialize_agent sim stopped else stopped)
          ≡ (if within then initialize_agent sim (set_stop_time t' (set_start_time t a)) else a)
    three_passes t t' true a started stopped first second = rw (second, first) refl
    three_passes t t' false a started stopped first second = second ∙ first

    -- What the three passes do to one address.
    set_up-agents :
        (t t' : Time) (c : Container) (w : World Time) (q : ℕ)
        → w.initializes ≡ c
        → (set_up t t' c w).agents q ≡ (
            if contains q c
            then initialize_agent sim (set_stop_time t' (set_start_time t (w.agents q)))
            else w.agents q)
    unfolding run_initializes initialize_agent
    set_up-agents t t' c w q scheduled =
        let started = start t c w in
        let stopped = stop t' c started in
        let left : stopped.initializes ≡ c =
          call_each-initializes (set_stop_time t') c started
          ∙ call_each-initializes (set_start_time t) c w
          ∙ scheduled in
        ap (λ c'. (call_each (initialize_agent sim) c' stopped).agents q) left
        ∙ call_each-contains (initialize_agent sim) (λ a. refl) c stopped q
        ∙ three_passes t t' (contains q c) (w.agents q) (started.agents q) (stopped.agents q)
            (call_each-contains (set_start_time t) (λ a. refl) c w q)
            (call_each-contains (set_stop_time t') (λ a. refl) c started q)

    -- A helper with an endpoint id other than "dtn:none" and with a routing agent installs one
    -- agent on every node, in order. When the container's start and stop times are set and the
    -- scheduled calls have run, the agent of the i-th node is on that node, has the helper's id and
    -- routing agent, no registration, and the two times, and its events are its start, and its stop
    -- unless that time is zero. No agent that was there before is touched.
    pub install_all-set_up :
        (h : Helper) (routing : ℕ) (nodes : List ℕ) (t t' : Time) (w : World Time)
        → bytes_eq h.eid.uri dtn_none ≡ false
        → h.routing_agent ≡ some routing
        → w.initializes ≡ []
        → (w' : World Time) × (c : Container) × (install_all sim h nodes w ≡ some (w', c))
          × (get_n c ≡ length nodes)
          × ((i node : ℕ)
              → get_elem? nodes i ≡ some node
              → (p : ℕ) × (get c i ≡ some p)
                × ((set_up t t' c w').agents p ≡ ready_agent h.eid routing node t t'))
          × ((q : ℕ) → q < w.unused → (set_up t t' c w').agents q ≡ w.agents q)
    unfolding initialize_agent
    install_all-set_up h routing nodes t t' w named routed none_left =
        let (w', runs, scheduled, agents) = install_loop-range h routing named routed nodes w [] in
        let c = range w.unused (length nodes) in
        let after : (q : ℕ)
            → (set_up t t' c w').agents q ≡ (
                if contains q c
                then initialize_agent sim (set_stop_time t' (set_start_time t (w'.agents q)))
                else w'.agents q) =
          λ q. set_up-agents t t' c w' q (scheduled ∙ ap (λ l. l ++ c) none_left) in
        (
          w',
          c,
          runs,
          length-range w.unused (length nodes),
          λ i node found.
              let below = get_elem?-below nodes i node found in
              let behind : ltb (w.unused + i) w.unused ≡ false = ground arith in
              let place : w.unused + i - w.unused ≡ i = omega arith in
              let within : contains (w.unused + i) c ≡ true =
                contains-range (w.unused + i) w.unused (length nodes) ∙ ground arith in
              (
                w.unused + i,
                get-range w.unused (length nodes) i below,
                after (w.unused + i)
                    ∙ rw (within, agents (w.unused + i), behind, place, found) refl,
              ),
          λ q below.
              let old : ltb q w.unused ≡ true = ground arith in
              let outside : contains q c ≡ false =
                contains-range q w.unused (length nodes) ∙ ground arith in
              after q ∙ rw (outside, agents q, old) refl,
        )
