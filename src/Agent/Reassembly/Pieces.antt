-- ===== src/Agent/Reassembly/Pieces.antt =====
-- The pieces that `Forward` sends of a bundle are fragments of it, in order.
use ns3_dtn.Prelude.{
  ℕ, zero, suc, ◌+◌, ◌-◌, ◌≤◌, ◌≡◌, inl, inr, refl, ap, ◌∙◌, arith, Bool, true, List, [], ◌∷◌, ◌++◌,
  Option, some, none, ◌>>=◌, length, All, ltb, min, Bool-cases, if◌then◌else◌, length-append,
}
use ns3_dtn.EndpointId.{EndpointId}
use ns3_dtn.Header.{set_is_fragment, set_flag}
use ns3_dtn.Header6.{Header6, priority, cust_tx_req}
use ns3_dtn.Header6.Priority.{priority-set_is_fragment, cust_tx_req-set_is_fragment}
use ns3_dtn.Header6.Dictionary.{get_eid}
use ns3_dtn.Forward.{Bundle6, Sent, set_piece, send_bundle, send_loop}
use ns3_dtn.Forward.Fragments.{pieces, Chain}
use ns3_dtn.Agent.{Simulator}
use ns3_dtn.Agent.Reassembly.{IsAlive, Agrees, InOrder}
use ns3_dtn.Agent.Reassembly.Whole.{data_of}

module _ {Time : Type 0} where
  -- The header that a round of the loop sets.
  abbrev pub piece_header : ℕ → Bool → ℕ → Header6 Time → Header6 Time
  piece_header size fragment offset h = record h {
    base = record (set_is_fragment fragment h.base) { frag_offset = offset };
    block_length = size;
  }

  -- The fields that decide when a bundle expires.
  abbrev pub IsSame : Header6 Time → Header6 Time → Type 0
  IsSame x h = (h.create_timestamp ≡ x.create_timestamp) × (h.life_time ≡ x.life_time)

  -- The headers of what a run of the loop sends all have a property.
  abbrev pub SentAll : (Header6 Time → Type 0) → Option (Bundle6 Time × List (Sent Time)) → Type 0
  SentAll P none = Unit {0}
  SentAll P (some (last, sent)) = All (λ s. P s.header) sent

  module _ (P : Header6 Time → Type 0)
      (keep : (size : ℕ) (fragment : Bool) (offset : ℕ) (h : Header6 Time)
        → P h
        → P (piece_header size fragment offset h)) where
    SentAll-more :
        (s : Sent Time) (o : Option (Bundle6 Time × List (Sent Time)))
        → P s.header
        → SentAll P o
        → SentAll P (o >>= λ (last, sent). some (last, s ∷ sent))
    SentAll-more s none h hs = tt
    SentAll-more s (some (last, sent)) h hs = (h, hs)

    -- A property that a round keeps holds of all of them, if it holds of the bundle's header.
    pub SentAll-send_loop :
        (fuel size : ℕ) (fragment : Bool) (left : ℕ) (b : Bundle6 Time)
        → P b.header
        → SentAll P (send_loop fuel size fragment left b)
    unfolding send_loop
    SentAll-send_loop zero size fragment left b holds = elim (Bool-cases (ltb 0 left)) [
      | inl e ↦ rw e tt
      | inr e ↦ rw e tt
    ]
    SentAll-send_loop (suc fuel) size fragment left b holds = elim (Bool-cases (ltb 0 left)) [
      | inr e ↦ rw e tt
      | inl e ↦ rw e (
          SentAll-more (send_bundle next) _ kept
            (SentAll-send_loop fuel size fragment (left - min left size) next kept))
    ]
      where
        next : Bundle6 Time
        next = set_piece (min left size) fragment (if fragment then length b.adu - left else 0) b

        kept : P next.header
        kept =
            keep (min left size) fragment (if fragment then length b.adu - left else 0) b.header
              holds

  pub Agrees-piece :
      {source dest : EndpointId} {x : Header6 Time} (size : ℕ) (fragment : Bool) (offset : ℕ)
      (h : Header6 Time)
      → Agrees source dest x h
      → Agrees source dest x (piece_header size fragment offset h)
  unfolding set_flag get_eid priority cust_tx_req
  Agrees-piece size fragment offset h g = record {
    same_priority = priority-set_is_fragment fragment h ∙ g.same_priority;
    same_timestamp = g.same_timestamp;
    same_number = g.same_number;
    same_length = g.same_length;
    from = g.from;
    to = g.to;
    no_custody = cust_tx_req-set_is_fragment fragment h ∙ g.no_custody;
  }

  -- A packet's bundle, as `DataRecv` makes it.
  abbrev pub bundle_of : Sent Time → Bundle6 Time
  bundle_of s = record {
    header = s.header;
    payload_header = s.payload_header;
    adu = s.piece;
    retention_constraints = 0;
    acks = [];
  }

  -- The packets with the times of their arrival.
  abbrev pub arrivals : (ℕ → Time) → ℕ → List (Sent Time) → List (Time × Bundle6 Time)
  arrivals at n [] = []
  arrivals at n (s ∷ ss) = (at n, bundle_of s) ∷ arrivals at (suc n) ss

  pub data_of-arrivals :
      (at : ℕ → Time) (n : ℕ) (sent : List (Sent Time)) → data_of (arrivals at n sent) ≡ pieces sent
  data_of-arrivals at n [] = refl
  data_of-arrivals at n (s ∷ ss) =
      ap (λ (bs : List ℕ). s.piece ++ bs) (data_of-arrivals at (suc n) ss)

  module _ (sim : Simulator Time) (at : ℕ → Time) (source dest : EndpointId) (x : Header6 Time)
      (alive : (n : ℕ) (h : Header6 Time) → IsSame x h → IsAlive sim (at n) h) where
    pub Chain-InOrder :
        (n size offset : ℕ) (sent : List (Sent Time))
        → Chain size true offset sent
        → All (λ s. IsSame x s.header × Agrees source dest x s.header) sent
        → offset + length (pieces sent) ≤ x.adu_length
        → InOrder sim source dest x offset (arrivals at n sent)
    Chain-InOrder n size offset [] chain same within = tt
    Chain-InOrder n size offset (s ∷ ss) chain same within = (
      record {
        agrees = same.0.1;
        fragment = chain.4;
        offset = chain.5;
        some_bytes = chain.0;
        within = omega (arith, length-append s.piece (pieces ss), within);
      },
      alive n s.header same.0.0,
      Chain-InOrder (suc n) size (offset + length s.piece) ss chain.6 same.1
          (omega (arith, length-append s.piece (pieces ss), within)),
    )
