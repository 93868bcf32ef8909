-- ===== src/Agent/Reassembly/Sequence.antt =====
-- Fragments that follow one another are all joined.
use ns3_dtn.Prelude.{
  ℕ, ◌+◌, ◌^◌, ◌<◌, ◌≡◌, refl, sym, List, [], ◌∷◌, ◌++◌, some, length, length-append,
}
use mathlib.Core.Path.{subst}
use mathlib.Core.List.{append_assoc, append-nil}
use ns3_dtn.EndpointId.{EndpointId}
use ns3_dtn.Header6.{Header6, Unset}
use ns3_dtn.Registration.{RegisterInfo}
use ns3_dtn.Forward.{Bundle6}
use ns3_dtn.Agent.{Simulator, Agent}
use ns3_dtn.Agent.Reassembly.{InOrder, HoldsPrefix, IsLocal, receive_all}
use ns3_dtn.Agent.Reassembly.Whole.{data_of, next_arrival}

module _ {Time : Type 0} (sim : Simulator Time) (unset : Unset) (status : ℕ)
    (source dest : EndpointId) (x : Header6 Time) (short : x.adu_length < 2 ^ 32)
    (info : RegisterInfo Time) where
  -- Any number of them.
  pub later_arrivals :
      (ys : List (Time × Bundle6 Time)) (p : ℕ) (bytes : List ℕ) (a : Agent Time)
      → InOrder sim source dest x (length bytes) ys
      → IsLocal dest info a
      → HoldsPrefix source dest x p bytes a
      → (a' : Agent Time) × (receive_all sim unset status ys a ≡ some a')
        × HoldsPrefix source dest x p (bytes ++ data_of ys) a'
        × IsLocal dest info a'
  unfolding receive_all
  later_arrivals [] p bytes a order here held = (
    a,
    refl,
    subst (λ (bs : List ℕ). HoldsPrefix source dest x p bs a) (sym (append-nil bytes)) held,
    here,
  )
  later_arrivals ((now, y) ∷ ys) p bytes a order here held =
      let (a', runs, held', here') =
        next_arrival sim unset status source dest x short info now p bytes y a order.0 order.1 here
          held in
      let (a'', rest, held'', here'') =
        later_arrivals ys p (bytes ++ y.adu) a' (further order.2) here' held' in
      (
        a'',
        rw runs rest,
        subst (λ (bs : List ℕ). HoldsPrefix source dest x p bs a'')
            (append_assoc bytes y.adu (data_of ys)) held'',
        here'',
      )
    where
      further :
          InOrder sim source dest x (length bytes + length y.adu) ys
          → InOrder sim source dest x (length (bytes ++ y.adu)) ys
      further =
          subst (λ (at : ℕ). InOrder sim source dest x at ys) (sym (length-append bytes y.adu))
