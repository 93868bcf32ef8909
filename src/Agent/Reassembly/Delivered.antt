-- ===== src/Agent/Reassembly/Delivered.antt =====
-- What `Receive` gives the application when all fragments have arrived.
use ns3_dtn.Prelude.{
  ℕ, ◌+◌, ◌^◌, ◌<◌, ◌≡◌, refl, ap, ◌∙◌, arith, true, false, List, [], ◌∷◌, ◌++◌, Option, some,
  length, bytes_eq_iff,
}
use mathlib.Core.Path.{subst}
use ns3_dtn.EndpointId.{EndpointId}
use ns3_dtn.Header6.{Header6, Unset, dst}
use ns3_dtn.BundleStore.{
  first_such, deliverable, taken, removed, remove, erase?, less, get_and_remove_bundle,
}
use ns3_dtn.Registration.{RegisterInfo}
use ns3_dtn.Forward.{Bundle6}
use ns3_dtn.Agent.{Simulator, Agent, id_of, eid_or_default, look}
use ns3_dtn.Agent.Fragments.Joining.{less_itself}
use ns3_dtn.Agent.Receiving.{receive, after_receive}
use ns3_dtn.Agent.Reassembly.{InOrder, HoldsPrefix, IsLocal, receive_all}
use ns3_dtn.Agent.Reassembly.Whole.{data_of, first_arrival}
use ns3_dtn.Agent.Reassembly.Sequence.{later_arrivals}

module _ {Time : Type 0} (sim : Simulator Time) (source dest : EndpointId) (x : Header6 Time)
    (p : ℕ) (bytes : List ℕ) (a : Agent Time) (held : HoldsPrefix source dest x p bytes a)
    (all : length bytes ≡ x.adu_length) where
  passes : deliverable (look a) sim.seq_lt dest false (look a p) ≡ true
  passes = ground (
    arith,
    bytes_eq_iff (id_of dst (a.heap p).header).uri dest.uri,
    ap (λ (o : Option EndpointId). (eid_or_default o).uri) held.agrees.to,
    held.flag,
    all,
  )

  found :
      first_such (look a) (deliverable (look a) sim.seq_lt dest false) a.bundle_store.m_store
      ≡ some p
  unfolding first_such
  found =
      ap (first_such (look a) (deliverable (look a) sim.seq_lt dest false)) held.set
      ∙ rw passes refl

  erased : (remove (look a) sim.seq_lt p a.bundle_store).m_store ≡ []
  unfolding remove erase?
  erased =
      ap (λ (o : Option (List ℕ)). (removed (look a) sim.seq_lt p a.bundle_store o).m_store)
        (ap (erase? (less (look a) sim.seq_lt) p) held.set ∙ alone)
    where
      alone : erase? (less (look a) sim.seq_lt) p (p ∷ []) ≡ some []
      alone = rw (less_itself (look a) sim.seq_lt p p) refl

  receive-whole :
      ((receive sim dest a).1 ≡ some bytes) × ((receive sim dest a).0.bundle_store.m_store ≡ [])
  unfolding receive get_and_remove_bundle
  receive-whole = (
    ap (λ (o : Option ℕ). (after_receive sim a (taken (look a) sim.seq_lt a.bundle_store o)).1)
          found
        ∙ ap some held.bytes_held,
    ap
          (λ (o : Option ℕ).
            (after_receive sim a
              (taken (look a) sim.seq_lt a.bundle_store o)).0.bundle_store.m_store)
          found
        ∙ erased,
  )

-- Fragments of one bundle, without custody transfer and not expired, that arrive in order at a node
-- with an empty store, where their destination is registered, active and not the agent's own id, and
-- that make up the whole bundle from two pieces on: the agent takes them all in, and `Receive` then
-- returns the data of all of them, in order, and leaves the store empty.
pub receive-receive_all :
    {Time : Type 0} (sim : Simulator Time) (unset : Unset) (status : ℕ) (source dest : EndpointId)
    (x : Header6 Time) (info : RegisterInfo Time) (now : Time) (y : Bundle6 Time)
    (ys : List (Time × Bundle6 Time)) (a : Agent Time)
    → x.adu_length < 2 ^ 32
    → InOrder sim source dest x 0 ((now, y) ∷ ys)
    → length y.adu < x.adu_length
    → length (y.adu ++ data_of ys) ≡ x.adu_length
    → IsLocal dest info a
    → a.bundle_store.m_store ≡ []
    → (a' : Agent Time) × (receive_all sim unset status ((now, y) ∷ ys) a ≡ some a')
      × ((receive sim dest a').1 ≡ some (y.adu ++ data_of ys))
      × ((receive sim dest a').0.bundle_store.m_store ≡ [])
unfolding receive_all
receive-receive_all sim unset status source dest x info now y ys a short order part all here empty =
    let (b, runs, held, here') =
      first_arrival sim unset status source dest x short info now y a order.0 order.1 here part
        empty in
    let (c, rest, whole, here'') =
      later_arrivals sim unset status source dest x short info ys a.unused y.adu b
        (subst (λ (at : ℕ). InOrder sim source dest x at ys) start order.2) here' held in
    let (gets, empties) =
      receive-whole sim source dest x a.unused (y.adu ++ data_of ys) c whole all in
    (c, rw runs rest, gets, empties)
  where
    start : 0 + length y.adu ≡ length y.adu
    start = omega arith
