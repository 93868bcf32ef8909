-- ===== src/Forward/Retention.antt =====
-- What `Forward` does to the bundle's retention constraints, and when it removes the bundle.
use ns3_dtn.Prelude.{
  ℕ, ◌^◌, ◌≡◌, refl, ap, ◌∙◌, Bool, true, false, arith, Option, none, some, [], List, ltb, inl, inr,
  ◌<◌, ◌==◌, if◌then◌else◌, ◌⊎◌, length,
}
use ns3_dtn.Prelude.Words.{put_mask, has_mask, has_mask-put_mask, thirty_two}
use ns3_dtn.EndpointId.{EndpointId}
use ns3_dtn.Header6.{dst, cust_tx_req}
use ns3_dtn.Header6.Dictionary.{get_eid}
use ns3_dtn.Forward.{Bundle6, Outcome, Sent, forward, forward_ready, pending, sent_out, send_pieces}
use ns3_dtn.Forward.Fragments.{pieces, Chain, send_pieces-pieces}

-- Bit 0 is `_BP_DISPATCH_PENDING` and bit 1 `_BP_FORWARD_PENDING`.
pending-bits :
    (i r : ℕ)
    → i < 32
    → has_mask (2 ^ i) (pending r)
      ≡ (if 0 == i then false else (if 1 == i then true else has_mask (2 ^ i) r))
pending-bits i r h =
    has_mask-put_mask (thirty_two refl) 0 i (omega arith) h false (put_mask 32 2 true r)
    ∙ ap (λ (t : Bool). if 0 == i then false else t)
        (has_mask-put_mask (thirty_two refl) 1 i (omega arith) h true r)

sent_out-bits :
    (i r last : ℕ)
    → i < 32
    → last ≡ pending r
    → has_mask (2 ^ i) (sent_out last)
      ≡ (if 0 == i then false else (if 1 == i then false else has_mask (2 ^ i) r))
sent_out-bits i r last h e =
    has_mask-put_mask (thirty_two refl) 1 i (omega arith) h false last
    ∙ ap (λ (t : ℕ). if 1 == i then false else has_mask (2 ^ i) t) e
    ∙ ap (λ (t : Bool). if 1 == i then false else t) (pending-bits i r h)
    ∙ ground arith

module _ {Time : Type 0} where
  -- Without a convergence layer that is ready `Forward` sends nothing, schedules no retransmission
  -- and does not remove the bundle, which stays found as one to forward: of its retention
  -- constraints forward pending is set, dispatch pending is cleared, and the others are as before.
  -- The destination is one that can be read from the header.
  pub forward-not_ready :
      (outgoing_cla : EndpointId → Option Bool) (size : ℕ) (b : Bundle6 Time) (eid : EndpointId)
      (i : ℕ)
      → i < 32
      → get_eid dst b.header ≡ some eid
      → (outgoing_cla eid ≡ none) ⊎ (outgoing_cla eid ≡ some false)
      → (o : Outcome Time) × (forward outgoing_cla size b ≡ some o)
        × (o.sent ≡ [])
        × (o.retransmission ≡ false)
        × (o.removed ≡ false)
        × (record (o.bundle) { retention_constraints = b.retention_constraints } ≡ b)
        × (has_mask (2 ^ i) o.bundle.retention_constraints ≡ (
            if 0 == i
            then false
            else (if 1 == i then true else has_mask (2 ^ i) b.retention_constraints)))
  unfolding forward
  forward-not_ready outgoing_cla size b eid i h readable (inl e) =
      (_, rw (readable, e) refl, refl, refl, refl, refl, pending-bits i b.retention_constraints h)
  forward-not_ready outgoing_cla size b eid i h readable (inr e) =
      (_, rw (readable, e) refl, refl, refl, refl, refl, pending-bits i b.retention_constraints h)

  -- With a convergence layer that is ready, a destination that can be read from the header and a
  -- bundle size that is not 0, `Forward` returns; what it sends is, put together, the application
  -- data, in pieces of at most the bundle size; it schedules a retransmission exactly if custody
  -- transfer is requested; it clears forward pending and dispatch pending and no other retention
  -- constraint, and it removes the bundle exactly if no constraint is left.
  pub forward-ready :
      (outgoing_cla : EndpointId → Option Bool) (size : ℕ) (b : Bundle6 Time) (eid : EndpointId)
      (i : ℕ)
      → i < 32
      → get_eid dst b.header ≡ some eid
      → outgoing_cla eid ≡ some true
      → 0 < size
      → (o : Outcome Time) × (forward outgoing_cla size b ≡ some o)
        × (pieces o.sent ≡ b.adu)
        × Chain size (ltb size (length b.adu)) 0 o.sent
        × (o.bundle.adu ≡ b.adu)
        × (o.retransmission ≡ cust_tx_req b.header)
        × (has_mask (2 ^ i) o.bundle.retention_constraints ≡ (
            if 0 == i
            then false
            else (if 1 == i then false else has_mask (2 ^ i) b.retention_constraints)))
        × (o.removed ≡ (o.bundle.retention_constraints == 0))
  unfolding forward forward_ready
  forward-ready outgoing_cla size b eid i h readable ready pos = from_pieces (
      send_pieces-pieces size (record b { retention_constraints = pending b.retention_constraints })
        pos)
    where
      b' : Bundle6 Time
      b' = record b { retention_constraints = pending b.retention_constraints }

      from_pieces :
          (last : Bundle6 Time) × (sent : List (Sent Time)) × (send_pieces size b'
              ≡ some (last, sent))
            × (pieces sent ≡ b.adu)
            × Chain size (ltb size (length b.adu)) 0 sent
            × (last.adu ≡ b.adu)
            × (last.retention_constraints ≡ pending b.retention_constraints)
          → (o : Outcome Time) × (forward outgoing_cla size b ≡ some o)
            × (pieces o.sent ≡ b.adu)
            × Chain size (ltb size (length b.adu)) 0 o.sent
            × (o.bundle.adu ≡ b.adu)
            × (o.retransmission ≡ cust_tx_req b.header)
            × (has_mask (2 ^ i) o.bundle.retention_constraints ≡ (
                if 0 == i
                then false
                else (if 1 == i then false else has_mask (2 ^ i) b.retention_constraints)))
            × (o.removed ≡ (o.bundle.retention_constraints == 0))
      from_pieces (last, sent, runs, whole, chain, same_adu, same_retention) = (
        record {
          bundle = record last { retention_constraints = sent_out last.retention_constraints };
          sent = sent;
          retransmission = cust_tx_req b.header;
          removed = sent_out last.retention_constraints == 0;
        },
        rw (readable, ready, runs) refl,
        whole,
        chain,
        same_adu,
        refl,
        sent_out-bits i b.retention_constraints last.retention_constraints h same_retention,
        refl,
      )
