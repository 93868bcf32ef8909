-- ===== src/Agent/Reassembly/Across.antt =====
-- From `Forward` at one node to `Receive` at another.
use ns3_dtn.Prelude.{
  ℕ, ◌^◌, ◌<◌, ◌≡◌, refl, ap, sym, ◌∙◌, arith, Bool, true, List, [], ◌∷◌, ◌++◌, some, length, All,
  ltb,
}
use mathlib.Core.Path.{subst}
use ns3_dtn.EndpointId.{EndpointId}
use ns3_dtn.Header.{set_flag}
use ns3_dtn.Header6.{Header6, Unset}
use ns3_dtn.Registration.{RegisterInfo}
use ns3_dtn.Forward.{Bundle6, Sent, send_pieces}
use ns3_dtn.Forward.Fragments.{pieces, Chain, send_pieces-pieces}
use ns3_dtn.Agent.{Simulator, Agent}
use ns3_dtn.Agent.Receiving.{receive}
use ns3_dtn.Agent.Reassembly.{IsAlive, Agrees, InOrder, IsLocal, receive_all}
use ns3_dtn.Agent.Reassembly.Whole.{data_of}
use ns3_dtn.Agent.Reassembly.Delivered.{receive-receive_all}
use ns3_dtn.Agent.Reassembly.Pieces.{
  IsSame, SentAll, SentAll-send_loop, Agrees-piece, arrivals, data_of-arrivals, Chain-InOrder,
}

IsAlive-IsSame :
    {Time : Type 0} (sim : Simulator Time) (now : Time) (x h : Header6 Time)
    → IsSame x h
    → IsAlive sim now x
    → IsAlive sim now h
IsAlive-IsSame sim now x h same alive = rw (same.0, same.1) alive

module _ {Time : Type 0} (sim : Simulator Time) (unset : Unset) (status : ℕ) (at : ℕ → Time)
    (source dest : EndpointId) (info : RegisterInfo Time) (size : ℕ) (b : Bundle6 Time)
    (a : Agent Time) (short : length b.adu < 2 ^ 32)
    (announced : b.header.adu_length ≡ length b.adu) (larger : size < length b.adu)
    (agrees : Agrees source dest b.header b.header) (alive : (n : ℕ) → IsAlive sim (at n) b.header)
    (here : IsLocal dest info a) (empty : a.bundle_store.m_store ≡ []) where
  Fine : Header6 Time → Type 0
  Fine h = IsSame b.header h × Agrees source dest b.header h

  sent-Fine :
      (last : Bundle6 Time) (sent : List (Sent Time))
      → send_pieces size b ≡ some (last, sent)
      → All (λ s. Fine s.header) sent
  unfolding send_pieces Fine set_flag
  sent-Fine last sent runs = subst (SentAll Fine) runs (
      SentAll-send_loop Fine
        (λ n fragment offset h (same, agree). (same, Agrees-piece n fragment offset h agree))
        (length b.adu) size (ltb size (length b.adu)) (length b.adu) b ((refl, refl), agrees))

  -- What has been sent, if there is a first piece, arrives.
  arrive :
      (last : Bundle6 Time) (sent : List (Sent Time))
      → send_pieces size b ≡ some (last, sent)
      → pieces sent ≡ b.adu
      → Chain size true 0 sent
      → (a' : Agent Time) × (receive_all sim unset status (arrivals at 0 sent) a ≡ some a')
        × ((receive sim dest a').1 ≡ some b.adu)
        × ((receive sim dest a').0.bundle_store.m_store ≡ [])
  unfolding Fine
  arrive last [] runs whole chain = absurd (omega (arith, ap length whole, larger))
  arrive last (s ∷ ss) runs whole chain =
      let (a', takes, gets, empties) =
        receive-receive_all sim unset status source dest b.header info (at 0) _ (arrivals at 1 ss) a
          fits order (omega (arith, announced, chain.1, larger)) (ap length joined ∙ sym announced)
          here empty in
      (a', takes, gets ∙ ap some joined, empties)
    where
      fits : b.header.adu_length < 2 ^ 32
      fits = omega (arith, announced, short)

      joined : s.piece ++ data_of (arrivals at 1 ss) ≡ b.adu
      joined = ap (λ (bs : List ℕ). s.piece ++ bs) (data_of-arrivals at 1 ss) ∙ whole

      order : InOrder sim source dest b.header 0 (arrivals at 0 (s ∷ ss))
      order =
          Chain-InOrder sim at source dest b.header
            (λ n h same. IsAlive-IsSame sim (at n) b.header h same (alive n)) 0 size 0 (s ∷ ss)
            chain (sent-Fine last (s ∷ ss) runs) (omega (arith, ap length whole, announced))

  -- A bundle whose data is larger than the bundle size, which is not 0, and whose header announces
  -- the length of the data, in 32 bits, is sent in pieces. When the pieces arrive in order, before
  -- the bundle expires, at a node with an empty store where the destination is registered, active
  -- and not the agent's own id, without custody transfer, then that node takes them all in, and
  -- `Receive` returns exactly the bundle's data and leaves the store empty.
  pub receive-send_pieces :
      0 < size
      → (last : Bundle6 Time) × (sent : List (Sent Time)) × (a' : Agent Time) × (send_pieces size b
          ≡ some (last, sent))
        × (receive_all sim unset status (arrivals at 0 sent) a ≡ some a')
        × ((receive sim dest a').1 ≡ some b.adu)
        × ((receive sim dest a').0.bundle_store.m_store ≡ [])
  receive-send_pieces pos =
      let (last, sent, runs, whole, chain, _, _) = send_pieces-pieces size b pos in
      let (a', takes, gets, empties) =
        arrive last sent runs whole
          (subst (λ (f : Bool). Chain size f 0 sent) (ground (arith, larger)) chain) in
      (last, sent, a', runs, takes, gets, empties)
