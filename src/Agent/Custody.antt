-- ===== src/Agent/Custody.antt =====
-- Custody signals: the ranges that a bundle's custodians acknowledge, what a signal that arrives
-- does to the bundle it is about, and the signal that a delivery sends.
pub mod Ranges
pub mod Released
use ns3_dtn.Prelude.{
  ℕ, ◌+◌, ◌*◌, ◌%◌, ◌^◌, Bool, true, false, not, ◌&&◌, List, [], ◌∷◌, ◌++◌, map, Option, none, some,
  ◌>>=◌, length, drop,
}
use ns3_dtn.Prelude.{if◌then◌else◌, ◌==◌, bit_and, bit_or}
use ns3_dtn.EndpointId.{EndpointId, from_uri}
use ns3_dtn.Header.{is_fragment}
use ns3_dtn.Header6.{Header6, src, cust, Unset}
use ns3_dtn.Header6.Dictionary.{get_eid}
use ns3_dtn.BundleStore.{get_bundle}
use ns3_dtn.CustodySignal.{
  CustodySignal, AdminRecord, bp_ar_cs, bp_ar_frag, bp_ar_acs, serialize_record, deserialize_record,
  encode, deserialize,
}
use ns3_dtn.Forward.{Bundle6}
use ns3_dtn.Agent.{Simulator, Agent, Code, look, write, remove_at}
use ns3_dtn.Agent.Sending.{send}

-- The loop over the ranges that are known: one that the new range follows or precedes grows.
unfoldable pub extend_acks : ℕ × ℕ → List (ℕ × ℕ) → List (ℕ × ℕ)
extend_acks this [] = []
extend_acks this (ack ∷ acks) =
    (if this.1 == ack.0 then this.0 else ack.0, if ack.1 == this.0 then this.1 else ack.1)
    ∷ extend_acks this acks

-- A first range is kept as it is.
unfoldable pub combine : ℕ × ℕ → List (ℕ × ℕ) → List (ℕ × ℕ)
combine this [] = this ∷ []
combine this (ack ∷ acks) = extend_acks this (ack ∷ acks)

-- Whether the one range left is all of the application data.
unfoldable pub fully_acked : ℕ → List (ℕ × ℕ) → Bool
fully_acked adu_length [] = false
fully_acked adu_length (ack ∷ []) = (ack.0 == 0) && (ack.1 == adu_length)
fully_acked adu_length (ack ∷ next ∷ acks) = false

module _ {Time : Type 0} (sim : Simulator Time) where
  -- The bundle at `p`, with one more range acknowledged.
  unfoldable pub acknowledge : ℕ × ℕ → ℕ → Agent Time → Agent Time
  unfolding combine fully_acked
  acknowledge this p a =
      let b = a.heap p in
      let acks = combine this b.acks in
      let a' = write p (record b { acks = acks }) a in
      if fully_acked b.header.adu_length acks then remove_at sim p a' else a'

  abbrev pub acknowledge_found : ℕ × ℕ → Agent Time → Option ℕ → Agent Time
  acknowledge_found this a none = a
  acknowledge_found this a (some p) = acknowledge this p a

  -- What a custody signal does. The text of the signal is made an endpoint id.
  unfoldable pub take_signal : CustodySignal Time → Agent Time → Option (Agent Time)
  take_signal cs a =
      let this : ℕ × ℕ = (cs.fragment_offset, (cs.fragment_offset + cs.fragment_length) % 2 ^ 32) in
      if not (cs.status == 0x80)
      then some a
      else (from_uri cs.src_eid >>= λ eid. some (
          acknowledge_found this a
            (get_bundle (look a) eid cs.creation_timestamp cs.seq_no a.bundle_store)))

  -- The data of an administrative bundle at `p` is taken apart; the ACS reader takes one byte.
  unfoldable pub read_record : AdminRecord → ℕ → List ℕ → Agent Time → Option (Agent Time)
  read_record ar p bytes a =
      if not (bit_and ar.type_flags (bp_ar_cs * 2 ^ 4) == 0)
      then (deserialize sim.get_seconds sim.milli bytes >>= λ (cs, size).
          take_signal cs (write p (record (a.heap p) { adu = drop size bytes }) a))
      else if not (bit_and ar.type_flags (bp_ar_acs * 2 ^ 4) == 0)
      then some (write p (record (a.heap p) { adu = drop 1 bytes }) a)
      else some (write p (record (a.heap p) { adu = bytes }) a)

  -- The branch of `EnqueueForDeliveryToApplication` for the agent itself.
  unfoldable pub deliver_to_agent : ℕ → Agent Time → Option (Agent Time)
  deliver_to_agent p a = deserialize_record (a.heap p).adu >>= λ (ar, size).
      read_record ar p (drop size (a.heap p).adu) a >>= λ a'. some (remove_at sim p a')

  -- The signal about a bundle; `status` is what a new `CustodySignal` holds.
  abbrev pub signal_of : ℕ → Time → Bool → ℕ → EndpointId → Header6 Time → CustodySignal Time
  signal_of status now success len source h = record {
    status = if success then 0x80 else status;
    fragment_offset = h.frag_offset;
    fragment_length = len;
    time_of_signal = now;
    creation_timestamp = h.create_timestamp;
    seq_no = h.timestamp_seq_num;
    src_eid_len = length source.uri % 2 ^ 32;
    src_eid = source.uri;
  }

  -- `IsFragment () ? m_adu->GetSize () : 0`; the data of a bundle is `none` when the bundle has been
  -- disposed of.
  abbrev pub signal_length : Option (List ℕ) → Header6 Time → Option ℕ
  signal_length adu h =
      if is_fragment h.base then (adu >>= λ bytes. some (length bytes % 2 ^ 32)) else some 0

  abbrev pub signal_flags : Header6 Time → AdminRecord
  signal_flags h = record {
    type_flags =
        if is_fragment h.base then bit_or (bp_ar_cs * 2 ^ 4) bp_ar_frag else bp_ar_cs * 2 ^ 4;
  }

  -- The bytes of the record and the signal.
  unfoldable pub signal_bytes :
      ℕ → Time → Bool → Option (List ℕ) → EndpointId → Header6 Time → Option (List ℕ)
  signal_bytes status now success adu source h = signal_length adu h >>= λ len. some (
      serialize_record (signal_flags h)
      ++ encode sim.get_seconds (signal_of status now success len source h))

  -- `SendCustodySignal`, which only warns where `Send` fails.
  unfoldable pub send_custody_signal :
      Unset → ℕ → Time → Option (List ℕ) → ℕ → Bool → Time → Agent Time → Option (Agent Time)
  send_custody_signal unset status now adu p success lifetime a = do
    let h = (a.heap p).header
    source ← get_eid src h
    custodian ← get_eid cust h
    bytes ← signal_bytes status now success adu source h
    (code, a') ← send sim unset now bytes a.eid custodian lifetime false 0 a
    some a'
