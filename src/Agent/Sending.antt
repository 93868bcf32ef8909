-- ===== src/Agent/Sending.antt =====
-- `Send` and `Forward` on the agent's state, and the retry of `ClaReady`.
use ns3_dtn.Prelude.{
  ℕ, ◌+◌, ◌%◌, ◌^◌, Bool, true, false, not, ◌&&◌, List, [], ◌∷◌, ◌++◌, map, Option, none, some,
  ◌>>=◌, length,
}
use ns3_dtn.Prelude.{if◌then◌else◌, ◌==◌, bit_or}
use ns3_dtn.EndpointId.{EndpointId, eid_eq, default_eid}
use ns3_dtn.Header
use ns3_dtn.Header.{Header, set_is_fragment}
use ns3_dtn.Header6.{
  Header6, dst, src, report, cust, Unset, new_header6, set_cust_tx_req, set_priority,
}
use ns3_dtn.Header6.Dictionary.{get_eid, set_eid}
use ns3_dtn.BlockHeader.{new_block_header6, bundle_payload_block}
use ns3_dtn.BundleStore.{bp_dispatch_pending, bp_custody_accepted, get_forward_pending_bundles}
use ns3_dtn.Routing.{SocketAddress, get_route}
use ns3_dtn.Registration.{is_node_member}
use ns3_dtn.Forward.{Bundle6, Sent, Outcome, forward}
use ns3_dtn.Agent.{
  Simulator, Agent, Event, sends, schedules_forward, Code, succeeded, failed, look, write, tell,
  allocate, outgoing_cla, is_ready, remove_at, store_at,
}

module _ {Time : Type 0} where
  -- `Bundle6 (adu)`
  unfoldable pub new_bundle6 : Time → Unset → List ℕ → Option (Bundle6 Time)
  new_bundle6 zero_time unset adu = do
    h ← set_eid src default_eid (new_header6 zero_time unset false)
    h ← set_eid dst default_eid h
    h ← set_eid report default_eid h
    h ← set_eid cust default_eid h
    some (record {
      header = h;
      payload_header = new_block_header6 bundle_payload_block;
      adu = adu;
      retention_constraints = 0;
      acks = [];
    })

  -- What one call of `Forward` leaves, of the bundle at `p`.
  abbrev pub sent_by : Option ℕ → SocketAddress → List (Sent Time) → List (Event Time)
  sent_by cla addr = map (λ s. sends cla addr s)

  module _ (sim : Simulator Time) where
    abbrev pub forwarded : ℕ → Option ℕ → SocketAddress → Agent Time → Outcome Time → Agent Time
    forwarded p cla addr a o =
        let a' =
          tell
            ((if o.retransmission then schedules_forward p ∷ [] else []) ++ sent_by cla addr o.sent)
            (write p o.bundle a) in
        if o.removed then remove_at sim p a' else a'

    -- `Forward` of the bundle at an address.
    unfoldable pub forward_at : ℕ → Agent Time → Option (Agent Time)
    forward_at p a = get_eid dst (a.heap p).header >>= λ dest_eid.
        forward (λ eid. is_ready a (outgoing_cla a eid)) a.bundle_size (a.heap p) >>= λ o.
        some (forwarded p (outgoing_cla a dest_eid) (get_route dest_eid a.routes) a o)

    abbrev on_base : (Header Time → Header Time) → Header6 Time → Header6 Time
    on_base f h = record h { base = f h.base }

    -- The header that `Send` fills in, with the custodian where custody is asked for.
    unfoldable pub send_header :
        Time
        → List ℕ
        → EndpointId
        → EndpointId
        → Time
        → Bool
        → ℕ
        → Agent Time
        → Header6 Time
        → Option (Header6 Time)
    send_header now p source dest lifetime custody pri a h = do
      h ← set_eid src source h
      h ← set_eid dst dest h
      let h = on_base (set_is_fragment false) (set_cust_tx_req custody h)
      let h = on_base (Header.set_frag_offset 0) h
      let h = on_base (Header.set_create_timestamp (sim.get_seconds now % 2 ^ 32)) h
      let h = on_base (Header.set_sequence_number a.seq) h
      let h = set_priority (pri % 2 ^ 8) (on_base (Header.set_life_time lifetime) h)
      let h = on_base (Header.set_adu_length (length p % 2 ^ 32)) h
      if custody then set_eid cust a.eid h else some h

    abbrev pub first_constraints : Bool → ℕ
    first_constraints custody =
        if custody then bit_or bp_dispatch_pending bp_custody_accepted else bp_dispatch_pending

    -- Steps 2 and 3 of `Send`.
    unfoldable pub send_new :
        Unset
        → Time
        → List ℕ
        → EndpointId
        → EndpointId
        → Time
        → Bool
        → ℕ
        → Agent Time
        → Option (Agent Time)
    send_new unset now p source dest lifetime custody pri a = do
      b ← new_bundle6 sim.zero_time unset p
      h ← send_header now p source dest lifetime custody pri a b.header
      let b = record b { header = h; retention_constraints = first_constraints custody }
      let a' = allocate b (record a { seq = (a.seq + 1) % 2 ^ 32 })
      forward_at a.unused (store_at sim now a.unused a')

    -- `Send`
    unfoldable pub send :
        Unset
        → Time
        → List ℕ
        → EndpointId
        → EndpointId
        → Time
        → Bool
        → ℕ
        → Agent Time
        → Option (Code × Agent Time)
    send unset now p source dest lifetime custody pri a =
        if not (eid_eq source default_eid) && not (is_node_member source a.registration)
        then some (failed, a)
        else (send_new unset now p source dest lifetime custody pri a >>= λ a'.
            some (succeeded, a'))

    -- The loop of `ClaReady` over the bundles that it found.
    unfoldable pub forward_all : List ℕ → Agent Time → Option (Agent Time)
    forward_all [] a = some a
    forward_all (p ∷ ps) a = forward_at p a >>= forward_all ps

    abbrev pub same_cla : Option ℕ → Option ℕ → Bool
    same_cla none none = true
    same_cla none (some d) = false
    same_cla (some c) none = false
    same_cla (some c) (some d) = c == d

    unfoldable pub cla_ready : ℕ → Agent Time → Option (Agent Time)
    cla_ready cla a =
        forward_all
          (get_forward_pending_bundles (look a) same_cla (some cla) (outgoing_cla a) a.bundle_store)
          a
