-- ===== src/Agent/Reassembly/Whole.antt =====
-- In-order fragments make up the whole bundle again.
use ns3_dtn.Prelude.{
  ℕ, ◌+◌, ◌%◌, ◌^◌, ◌<◌, ◌≤◌, ◌≡◌, refl, ap, sym, ◌∙◌, arith, false, List, [], ◌∷◌, ◌++◌, some,
  length, not, ◌==◌, length-append, if◌then◌else◌,
}
use mathlib.Core.Path.{subst, subst₂}
use ns3_dtn.EndpointId.{EndpointId}
use ns3_dtn.Header.{is_fragment}
use ns3_dtn.Header6.{Header6, Unset, src, cust_tx_req}
use ns3_dtn.Header6.Dictionary.{get_eid}
use ns3_dtn.BundleStore.{less, insert}
use ns3_dtn.Registration.{RegisterInfo}
use ns3_dtn.Forward.{Bundle6}
use ns3_dtn.Agent.{Simulator, Agent, id_of, eid_or_default, view, look, allocate}
use ns3_dtn.Agent.Fragments.{whole_if, add_at_end, join_step, join_all, end_of, absorb, prev_frags}
use ns3_dtn.Agent.Fragments.Joining.{
  Follows, insert_behind, join_step-itself, prev_frags-alone, prev_frags-pair, join_all-pair,
  absorb-set, absorb-stored, absorb-new,
}
use ns3_dtn.Agent.Receiving.{process_bundle}
use ns3_dtn.Agent.Reassembly.{IsAlive, Agrees, IsPiece, HoldsPrefix, IsLocal}
use ns3_dtn.Agent.Reassembly.Arrival.{
  whole_if-Agrees, arrived, holding, heap-holding, set-holding, process_bundle-joins,
}

-- The application data of the arrivals.
abbrev pub data_of : {Time : Type 0} → List (Time × Bundle6 Time) → List ℕ
data_of [] = []
data_of ((now, y) ∷ ys) = y.adu ++ data_of ys

module _ {Time : Type 0} (sim : Simulator Time) (unset : Unset) (status : ℕ)
    (source dest : EndpointId) (x : Header6 Time) (short : x.adu_length < 2 ^ 32)
    (info : RegisterInfo Time) where
  id_of-some : (h : Header6 Time) → get_eid src h ≡ some source → id_of src h ≡ source
  id_of-some h e = ap eid_or_default e

  -- Two headers of the bundle at different offsets.
  Agrees-Follows :
      (b c : Bundle6 Time)
      → Agrees source dest x b.header
      → Agrees source dest x c.header
      → b.header.frag_offset < c.header.frag_offset
      → Follows (view b) (view c)
  Agrees-Follows b c f g behind = record {
    same_priority = g.same_priority ∙ sym f.same_priority;
    same_timestamp = g.same_timestamp ∙ sym f.same_timestamp;
    same_number = g.same_number ∙ sym f.same_number;
    same_source = id_of-some c.header g.from ∙ sym (id_of-some b.header f.from);
    behind = behind;
  }

  -- The first fragment, which is not all of the data, is stored.
  pub first_arrival :
      (now : Time) (y : Bundle6 Time) (a : Agent Time)
      → IsPiece source dest x 0 y
      → IsAlive sim now y.header
      → IsLocal dest info a
      → length y.adu < x.adu_length
      → a.bundle_store.m_store ≡ []
      → (a' : Agent Time) × (process_bundle sim unset status now y a ≡ some a')
        × HoldsPrefix source dest x a.unused y.adu a'
        × IsLocal dest info a'
  unfolding insert join_all
  first_arrival now y a piece alive here part empty = (
    c,
    process_bundle-joins sim unset status now source dest x 0 y piece alive info a here c joins
        (ap (λ (b : Bundle6 Time). cust_tx_req b.header) at_new ∙ piece.agrees.no_custody),
    record {
      set = set;
      known = omega arith;
      agrees =
          subst (λ (b : Bundle6 Time). Agrees source dest x b.header) (sym at_new) piece.agrees;
      from_start = ap (λ (b : Bundle6 Time). b.header.frag_offset) at_new ∙ piece.offset;
      some_held = piece.some_bytes;
      within = omega (arith, piece.within);
      bytes_held = ap (λ (b : Bundle6 Time). b.adu) at_new;
      flag =
          ap (λ (b : Bundle6 Time). is_fragment b.header.base) at_new
          ∙ piece.fragment
          ∙ ground (arith, part);
    },
    record { registered = here.registered; active = here.active; not_agent = here.not_agent },
  )
    where
      c : Agent Time
      c = holding sim now y a

      at_new : c.heap a.unused ≡ arrived y
      at_new = heap-holding sim unset status now source dest x 0 y piece alive info a here

      set : c.bundle_store.m_store ≡ a.unused ∷ []
      set =
          set-holding sim unset status now source dest x 0 y piece alive info a here
          ∙ ap (insert (less (look (allocate (arrived y) a)) sim.seq_lt) a.unused) empty

      alone : join_step sim a.unused c a.unused ≡ c
      alone =
          join_step-itself sim a.unused c
            (subst (λ (b : Bundle6 Time). 1 ≤ length b.adu) (sym at_new) piece.some_bytes)
            (subst (λ (b : Bundle6 Time). b.header.frag_offset + length b.adu < 2 ^ 32) (sym at_new)
              (omega (arith, piece.offset, piece.within, short)))

      joins : join_all sim a.unused (prev_frags a.unused c) c ≡ c
      joins =
          ap (λ (its : List ℕ). join_all sim a.unused its c)
            (prev_frags-alone a.unused a.unused c set)
          ∙ alone

  -- A fragment that follows what is held is joined to it.
  pub next_arrival :
      (now : Time) (p : ℕ) (bytes : List ℕ) (y : Bundle6 Time) (a : Agent Time)
      → IsPiece source dest x (length bytes) y
      → IsAlive sim now y.header
      → IsLocal dest info a
      → HoldsPrefix source dest x p bytes a
      → (a' : Agent Time) × (process_bundle sim unset status now y a ≡ some a')
        × HoldsPrefix source dest x p (bytes ++ y.adu) a'
        × IsLocal dest info a'
  next_arrival now p bytes y a piece alive here held = (
    absorb sim p q c,
    process_bundle-joins sim unset status now source dest x (length bytes) y piece alive info a here
        (absorb sim p q c) joins
        (ap (λ (b : Bundle6 Time). cust_tx_req b.header) unchanged ∙ piece.agrees.no_custody),
    record {
      set = absorb-set sim p q c apart follows meets some_new fits_new set;
      known = omega (arith, held.known);
      agrees = subst (λ (b : Bundle6 Time). Agrees source dest x b.header) (sym joined) kept.0;
      from_start =
          ap (λ (b : Bundle6 Time). b.header.frag_offset) joined ∙ kept.1 ∙ held.from_start;
      some_held = omega (arith, length-append bytes y.adu, held.some_held);
      within = omega (arith, length-append bytes y.adu, piece.within);
      bytes_held = ap (λ (b : Bundle6 Time). b.adu) joined ∙ kept.2 ∙ both_bytes;
      flag = ap (λ (b : Bundle6 Time). is_fragment b.header.base) joined ∙ kept.3 ∙ flags;
    },
    record { registered = here.registered; active = here.active; not_agent = here.not_agent },
  )
    where
      q : ℕ
      q = a.unused

      c : Agent Time
      c = holding sim now y a

      apart : p < q
      apart = held.known

      at_new : c.heap q ≡ arrived y
      at_new =
          heap-holding sim unset status now source dest x (length bytes) y piece alive info a here

      other_place : (q == p) ≡ false
      other_place = ground (arith, apart)

      at_old : c.heap p ≡ a.heap p
      at_old = rw other_place refl

      follows : Follows (look c p) (look c q)
      follows =
          subst₂ (λ (b d : Bundle6 Time). Follows (view b) (view d)) (sym at_old) (sym at_new)
            (Agrees-Follows (a.heap p) (arrived y) held.agrees piece.agrees
              (omega (arith, held.from_start, piece.offset, held.some_held)))

      set : c.bundle_store.m_store ≡ p ∷ q ∷ []
      set =
          set-holding sim unset status now source dest x (length bytes) y piece alive info a here
          ∙ ap (insert (less (look c) sim.seq_lt) q) held.set
          ∙ insert_behind (look c) sim.seq_lt p q follows

      held_length : length (a.heap p).adu ≡ length bytes
      held_length = ap length held.bytes_held

      meets : (c.heap q).header.frag_offset ≡ end_of (c.heap p)
      meets =
          ap (λ (b : Bundle6 Time). b.header.frag_offset) at_new
          ∙ omega (arith, piece.offset, held.from_start, held_length, held.within, short)
          ∙ ap end_of (sym at_old)

      some_new : 1 ≤ length (c.heap q).adu
      some_new = subst (λ (b : Bundle6 Time). 1 ≤ length b.adu) (sym at_new) piece.some_bytes

      fits_new : (c.heap q).header.frag_offset + length (c.heap q).adu < 2 ^ 32
      fits_new =
          subst (λ (b : Bundle6 Time). b.header.frag_offset + length b.adu < 2 ^ 32) (sym at_new)
            (omega (arith, piece.offset, piece.within, short))

      joins : join_all sim q (prev_frags q c) c ≡ absorb sim p q c
      joins =
          ap (λ (its : List ℕ). join_all sim q its c) (prev_frags-pair p q c set follows)
          ∙ join_all-pair sim p q c apart follows meets some_new fits_new

      unchanged : (absorb sim p q c).heap q ≡ arrived y
      unchanged = absorb-new sim p q c apart follows meets some_new fits_new ∙ at_new

      longer : Bundle6 Time
      longer = add_at_end y.adu (a.heap p)

      joined : (absorb sim p q c).heap p ≡ whole_if longer
      joined =
          absorb-stored sim p q c apart follows meets some_new fits_new
          ∙ ap (λ (b : Bundle6 Time). whole_if (add_at_end b.adu (c.heap p))) at_new
          ∙ ap (λ (b : Bundle6 Time). whole_if (add_at_end y.adu b)) at_old

      kept :
          Agrees source dest x (whole_if longer).header
          × ((whole_if longer).header.frag_offset ≡ (a.heap p).header.frag_offset)
          × ((whole_if longer).adu ≡ longer.adu)
          × (is_fragment (whole_if longer).header.base ≡ (
              if length longer.adu % 2 ^ 32 == (a.heap p).header.adu_length
              then false
              else is_fragment (a.heap p).header.base))
      kept = whole_if-Agrees longer held.agrees

      both_bytes : longer.adu ≡ bytes ++ y.adu
      both_bytes = ap (λ (bs : List ℕ). bs ++ y.adu) held.bytes_held

      flags :
          (if length longer.adu % 2 ^ 32 == (a.heap p).header.adu_length
            then false
            else is_fragment (a.heap p).header.base)
          ≡ not (length (bytes ++ y.adu) == x.adu_length)
      flags = ground (
        arith,
        ap length both_bytes,
        length-append bytes y.adu,
        held.agrees.same_length,
        held.flag,
        piece.within,
        piece.some_bytes,
        short,
      )
