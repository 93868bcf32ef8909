-- ===== src/Flowstats/Probe.antt =====
-- `BpFlowProbe`: the four functions that an agent's traces call. The monitor is the list of what it
-- is told; the packet of an ADU belongs to ns-3.
pub mod Life
use ns3_dtn.Prelude.{ℕ, ◌≡◌, List, [], ◌∷◌, ◌++◌, Option, none, some, ◌>>=◌}
use ns3_dtn.Flowstats.{BpFlowId, Classifier, classify}
use ns3_dtn.Flowstats.Tag.{TagBuffer, BpFlowProbeTag, serialize_tag, deserialize_tag}

-- `Packet::GetSize`, `FindFirstMatchingByteTag` up to the tag's `Deserialize`, and `AddByteTag` of
-- the bytes of a tag.
pub record ByteTags (Adu : Type 0) : Type 0 where
  pub get_size : Adu → ℕ
  pub find_tag : Adu → Option (List ℕ)
  pub add_tag : List ℕ → Adu → Adu

-- What ns-3 says of them.
pub record IsByteTags {Adu : Type 0} (t : ByteTags Adu) : Type 0 where
  pub tag_added :
      (bytes : List ℕ) (adu : Adu)
      → t.find_tag adu ≡ none
      → t.find_tag (t.add_tag bytes adu) ≡ some bytes
  pub size_kept : (bytes : List ℕ) (adu : Adu) → t.get_size (t.add_tag bytes adu) ≡ t.get_size adu

-- The calls of the monitor, each with the flow, the bundle in it and a size.
pub data Report : Type 0 where
  first_tx forwarding last_rx : ℕ → ℕ → ℕ → Report
  dropped : ℕ → ℕ → ℕ → ℕ → Report

pub record Probe : Type 0 where
  pub classifier : Classifier
  pub reports : List Report

-- What the probe asks of a bundle: what its header returns as source and destination, and its ADU.
pub record TracedBundle (Adu : Type 0) : Type 0 where
  pub flow : BpFlowId
  pub adu : Adu

-- The traces of a bundle that is on its way; the reason of a drop is a number.
pub data Trace : Type 0 where
  unicast_forward local_deliver : Trace
  drop_bundle : ℕ → Trace

abbrev pub report : Report → Probe → Probe
report r p = record p { reports = p.reports ++ (r ∷ []) }

module _ (buffer : TagBuffer) {Adu : Type 0} (tags : ByteTags Adu) where
  -- The tag of a bundle, if it has one; the outer `none` is a tag that cannot be read.
  abbrev pub read_tag : Option (List ℕ) → Option (Option BpFlowProbeTag)
  read_tag none = some none
  read_tag (some bytes) = deserialize_tag buffer bytes >>= λ tag. some (some tag)

  unfoldable pub first_tag : TracedBundle Adu → Option (Option BpFlowProbeTag)
  first_tag b = read_tag (tags.find_tag b.adu)

  -- What `SendLogger` does with a bundle without a tag.
  abbrev pub tag_bundle : (ℕ → ℕ) → TracedBundle Adu → Probe → Probe × TracedBundle Adu
  tag_bundle new_id b p =
      let (c, flow_id, packet_id) = classify new_id b.flow p.classifier in
      let size = tags.get_size b.adu in
      let tag : BpFlowProbeTag = record {
        flow_id = flow_id;
        packet_id = packet_id;
        packet_size = size;
        src = b.flow.src_eid;
        dst = b.flow.dst_eid;
      } in
      (
        report (first_tx flow_id packet_id size) (record p { classifier = c }),
        record b { adu = tags.add_tag (serialize_tag buffer tag) b.adu },
      )

  abbrev pub send_found :
      (ℕ → ℕ) → Option BpFlowProbeTag → TracedBundle Adu → Probe → Probe × TracedBundle Adu
  send_found new_id (some tag) b p = (p, b)
  send_found new_id none b p = tag_bundle new_id b p

  -- `SendLogger`
  unfoldable pub send_logger :
      (ℕ → ℕ) → TracedBundle Adu → Probe → Option (Probe × TracedBundle Adu)
  unfolding first_tag
  send_logger new_id b p = first_tag b >>= λ found. some (send_found new_id found b p)

  -- What `ForwardLogger`, `DeliverLogger` and `DropLogger` tell the monitor.
  abbrev pub trace_report : Trace → BpFlowProbeTag → ℕ → Report
  trace_report unicast_forward tag size = forwarding tag.flow_id tag.packet_id size
  trace_report local_deliver tag size = last_rx tag.flow_id tag.packet_id size
  trace_report (drop_bundle reason) tag size =
      dropped tag.flow_id tag.packet_id tag.packet_size reason

  abbrev pub log_found : Trace → Option BpFlowProbeTag → TracedBundle Adu → Probe → Probe
  log_found e none b p = p
  log_found e (some tag) b p = report (trace_report e tag (tags.get_size b.adu)) p

  -- The three functions.
  unfoldable pub trace_logger : Trace → TracedBundle Adu → Probe → Option Probe
  unfolding first_tag
  trace_logger e b p = first_tag b >>= λ found. some (log_found e found b p)

  -- Some of them, one after the other.
  unfoldable pub trace_loggers : List Trace → TracedBundle Adu → Probe → Option Probe
  unfolding trace_logger
  trace_loggers [] b p = some p
  trace_loggers (e ∷ es) b p = trace_logger e b p >>= λ p. trace_loggers es b p
