-- ===== src/Agent/Receiving.antt =====
-- `ProcessBundle`, `Dispatch`, `Deliver` and `EnqueueForDeliveryToApplication`, and the calls of an
-- application: `Receive` and `GetBundle`.
use ns3_dtn.Prelude.{
  ℕ, ◌+◌, ◌%◌, ◌^◌, Bool, true, false, List, [], ◌∷◌, Option, none, some, ◌>>=◌, length,
}
use ns3_dtn.Prelude.{if◌then◌else◌, bit_or}
use ns3_dtn.EndpointId.{EndpointId, eid_eq}
use ns3_dtn.Header.{is_fragment}
use ns3_dtn.Header6.{dst, src, cust_tx_req, Unset}
use ns3_dtn.Header6.Dictionary.{get_eid}
use ns3_dtn.BundleStore.{
  first_such, deliverable, BundleStore, bp_dispatch_pending, get_and_remove_bundle, get_bundle_adu,
}
use ns3_dtn.Registration.{RegisterInfo, find_info, is_node_member}
use ns3_dtn.Forward.{Bundle6}
use ns3_dtn.Agent.{Simulator, Agent, Event, clears_events, tell, look, allocate, store_at}
use ns3_dtn.Agent.Sending.{forward_at}
use ns3_dtn.Agent.Fragments.{join_all, prev_frags}
use ns3_dtn.Agent.Custody.{deliver_to_agent, send_custody_signal}

module _ {Time : Type 0} (sim : Simulator Time) where
  -- The data of the bundle at `p`, if it has not been disposed of.
  abbrev pub join_left : Bool → ℕ → List ℕ → Agent Time → Option (Agent Time)
  join_left disposed p [] a = some a
  join_left true p (it ∷ its) a = none
  join_left false p (it ∷ its) a = some (join_all sim p (it ∷ its) a)

  -- The branch for a fragment.
  abbrev pub join_fragment : Bool → ℕ → Agent Time → Option (Agent Time)
  join_fragment disposed p a =
      if is_fragment (a.heap p).header.base then join_left disposed p (prev_frags p a) a else some a

  -- `EnqueueForDeliveryToApplication`. `RemoveHeader` of the administrative record always takes the
  -- one byte that is asked for, so the result is always 0.
  unfoldable pub enqueue : ℕ → Agent Time → Option (Agent Time)
  enqueue p a = get_eid dst (a.heap p).header >>= λ dest.
      (if eid_eq dest a.eid
        then (deliver_to_agent sim p a >>= join_fragment true p)
        else join_fragment false p a)

  -- Steps 2 and 3 of `Deliver`, with the registration that was found.
  abbrev pub deliver_registered :
      Unset → ℕ → Time → ℕ → EndpointId → RegisterInfo Time → Agent Time → Option (Agent Time)
  deliver_registered unset status now p dest info a = do
    a' ← if info.state then enqueue p a else some a
    let b = a'.heap p
    let adu = if info.state then (if eid_eq dest a.eid then none else some b.adu) else some b.adu
    if cust_tx_req b.header
        then send_custody_signal sim unset status now adu p true b.header.life_time a'
        else some a'

  abbrev pub deliver_found :
      Unset
      → ℕ
      → Time
      → ℕ
      → EndpointId
      → Option (RegisterInfo Time)
      → Agent Time
      → Option (Agent Time)
  deliver_found unset status now p dest none a = some a
  deliver_found unset status now p dest (some info) a =
      deliver_registered unset status now p dest info a

  -- `Deliver`
  unfoldable pub deliver : Unset → ℕ → Time → ℕ → Agent Time → Option (Agent Time)
  deliver unset status now p a = get_eid dst (a.heap p).header >>= λ dest.
      deliver_found unset status now p dest (find_info dest a.registration) a

  -- `Dispatch`
  unfoldable pub dispatch : Unset → ℕ → Time → ℕ → Agent Time → Option (Agent Time)
  dispatch unset status now p a = get_eid dst (a.heap p).header >>= λ dest.
      (if is_node_member dest a.registration
        then deliver unset status now p a
        else forward_at sim p a)

  -- `ProcessBundle` of a bundle that a convergence layer has made, whose ids can be read.
  unfoldable pub process_bundle : Unset → ℕ → Time → Bundle6 Time → Agent Time → Option (Agent Time)
  process_bundle unset status now b a = get_eid src b.header >>= λ source.
      get_eid dst b.header >>= λ dest.
      let b' : Bundle6 Time = record b {
        retention_constraints = bit_or b.retention_constraints bp_dispatch_pending;
      } in
      dispatch unset status now a.unused (store_at sim now a.unused (allocate b' a))

  abbrev pub after_receive :
      Agent Time → BundleStore × Option (List ℕ) → Agent Time × Option (List ℕ)
  after_receive a (s, none) = (record a { bundle_store = s }, none)
  after_receive a (s, some p) = (
    record a {
      bundle_store = s;
      bundles_delivered = (a.bundles_delivered + 1) % 2 ^ 64;
      bytes_delivered = (a.bytes_delivered + length p) % 2 ^ 64;
    },
    some p,
  )

  -- The events of the bundle that was taken out are cancelled by `Remove`; `DoDispose` finds none.
  abbrev pub cleared : Option ℕ → List (Event Time)
  cleared none = []
  cleared (some b) = clears_events b ∷ []

  -- `Receive`, which takes no fragments.
  unfoldable pub receive : EndpointId → Agent Time → Agent Time × Option (List ℕ)
  receive eid a =
      let found =
        first_such (look a) (deliverable (look a) sim.seq_lt eid false) a.bundle_store.m_store in
      let (a', p) =
        after_receive a (get_and_remove_bundle (look a) sim.seq_lt eid false a.bundle_store) in
      (tell (cleared found) a', p)

  -- `GetBundle`
  abbrev pub get_bundle_of : EndpointId → Agent Time → Option (List ℕ)
  get_bundle_of eid a = get_bundle_adu (look a) eid a.bundle_store
