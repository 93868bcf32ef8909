-- ===== src/Forward.antt =====
-- model/bp-agent-6.cc, `Forward`, and model/bp-cla.cc, `SendBundle`: a bundle is sent in pieces of
-- at most the agent's bundle size. A packet of ns-3 is the list of its bytes.
pub mod Fragments
pub mod Retention
use ns3_dtn.Prelude.{ℕ, zero, suc, ◌+◌, ◌-◌, ◌%◌, ◌^◌, ◌≡◌, Bool, true, false, min, not}
use ns3_dtn.Prelude.{List, [], ◌∷◌, ◌++◌, Option, none, some, ◌>>=◌, length, take, drop}
use ns3_dtn.Prelude.{ltb, ◌==◌, if◌then◌else◌, bit_and, bit_or}
use ns3_dtn.Prelude.Words.{put_mask}
use ns3_dtn.EndpointId.{EndpointId}
use ns3_dtn.Header.{Header, set_is_fragment}
use ns3_dtn.Header6.{Header6, dst, set_block_length, cust_tx_req}
use ns3_dtn.Header6.Dictionary.{get_eid}
use ns3_dtn.BlockHeader
use ns3_dtn.BlockHeader.{BlockHeader6}
use ns3_dtn.BundleStore.{bp_dispatch_pending, bp_forward_pending}

-- The fields of `Bundle` and `Bundle6`, less the events of the simulator.
pub record Bundle6 (Time : Type 0) : Type 0 where
  pub header : Header6 Time
  pub payload_header : BlockHeader6
  pub adu : List ℕ
  pub retention_constraints : ℕ
  pub acks : List (ℕ × ℕ)

-- What `SendBundle` puts in a packet: both headers, and the piece of the application data.
pub record Sent (Time : Type 0) : Type 0 where
  pub header : Header6 Time
  pub payload_header : BlockHeader6
  pub piece : List ℕ

-- What `Forward` does besides changing the bundle.
pub record Outcome (Time : Type 0) : Type 0 where
  pub bundle : Bundle6 Time
  pub sent : List (Sent Time)
  pub retransmission : Bool
  pub removed : Bool

-- Step 1: forward pending is set, dispatch pending is cleared.
abbrev pub pending : ℕ → ℕ
pending r = put_mask 32 bp_dispatch_pending false (put_mask 32 bp_forward_pending true r)

-- Step 6: forward pending is cleared.
abbrev pub sent_out : ℕ → ℕ
sent_out r = put_mask 32 bp_forward_pending false r

module _ {Time : Type 0} where
  -- `SendBundle`; `CreateFragment` copies the bytes from an offset on.
  abbrev pub send_bundle : Bundle6 Time → Sent Time
  send_bundle b = record {
    header = b.header;
    payload_header = b.payload_header;
    piece = take b.header.block_length (drop b.header.frag_offset b.adu);
  }

  -- The header fields that a round of the loop sets.
  abbrev pub set_piece : ℕ → Bool → ℕ → Bundle6 Time → Bundle6 Time
  set_piece size fragment offset b = record b {
    header = record b.header {
      base = record (set_is_fragment fragment b.header.base) { frag_offset = offset };
      block_length = size;
    };
    payload_header = BlockHeader.set_block_length size b.payload_header;
  }

  -- `while (bytesLeft > 0)`; `none` is a loop that is still running when the fuel is used up.
  unfoldable pub send_loop :
      ℕ → ℕ → Bool → ℕ → Bundle6 Time → Option (Bundle6 Time × List (Sent Time))
  send_loop zero bundle_size fragment bytes_left b = if ltb 0 bytes_left then none else some (b, [])
  send_loop (suc fuel) bundle_size fragment bytes_left b =
      let size = min bytes_left bundle_size in
      let offset = if fragment then length b.adu - bytes_left else 0 in
      let b' = set_piece size fragment offset b in
      let rest = send_loop fuel bundle_size fragment (bytes_left - size) b' in
      if ltb 0 bytes_left
      then (rest >>= λ (last, sent). some (last, send_bundle b' ∷ sent))
      else some (b, [])

  -- Every round sends a byte at least, if the bundle size is not 0.
  unfoldable pub send_pieces : ℕ → Bundle6 Time → Option (Bundle6 Time × List (Sent Time))
  send_pieces bundle_size b =
      send_loop (length b.adu) bundle_size (ltb bundle_size (length b.adu)) (length b.adu) b

  -- Steps 4 to 6, where a convergence layer is ready.
  unfoldable pub forward_ready : ℕ → Bundle6 Time → Option (Outcome Time)
  forward_ready bundle_size b = send_pieces bundle_size b >>= λ (last, sent). some (record {
    bundle = record last { retention_constraints = sent_out last.retention_constraints };
    sent = sent;
    retransmission = cust_tx_req b.header;
    removed = sent_out last.retention_constraints == 0;
  })

  -- `Forward`. The callback `OutgoingCla` gives the readiness of a convergence layer, or none.
  unfoldable pub forward : (EndpointId → Option Bool) → ℕ → Bundle6 Time → Option (Outcome Time)
  forward outgoing_cla bundle_size b =
      let b' : Bundle6 Time = record b {
        retention_constraints = pending b.retention_constraints;
      } in
      get_eid dst b'.header >>= λ dest_eid. elim (outgoing_cla dest_eid) [
        | some true ↦ forward_ready bundle_size b'
        | _ ↦ some (record { bundle = b'; sent = []; retransmission = false; removed = false })
      ]
