-- ===== src/Flowstats/Probe/Life.antt =====
-- What the monitor is told of a bundle from its first transmission on.
use ns3_dtn.Prelude.{ℕ, ◌^◌, ◌<◌, ◌≡◌, refl, ap, sym, ◌∙◌, List, [], ◌∷◌, ◌++◌, none, some, map}
use mathlib.Core.List.{append_assoc, append-nil}
use ns3_dtn.Flowstats.{classify}
use ns3_dtn.Flowstats.Tag.{TagBuffer, IsTagBuffer, BpFlowProbeTag, serialize_tag}
use ns3_dtn.Flowstats.TagRoundTrip.{IsHeld, deserialize_tag-serialize_tag}
use ns3_dtn.Flowstats.Probe.{
  ByteTags, IsByteTags, Report, first_tx, forwarding, last_rx, dropped, Probe, TracedBundle, Trace,
  unicast_forward, local_deliver, drop_bundle, first_tag, send_logger, trace_logger, trace_loggers,
  trace_report, report,
}

-- What a trace is to report of a bundle: its flow, its number and its size.
abbrev pub reported : ℕ → ℕ → ℕ → Trace → Report
reported flow_id packet_id size unicast_forward = forwarding flow_id packet_id size
reported flow_id packet_id size local_deliver = last_rx flow_id packet_id size
reported flow_id packet_id size (drop_bundle reason) = dropped flow_id packet_id size reason

trace_report-reported :
    (buffer : TagBuffer) {Adu : Type 0} (tags : ByteTags Adu) (e : Trace) (tag : BpFlowProbeTag)
    → trace_report buffer tags e tag tag.packet_size
      ≡ reported tag.flow_id tag.packet_id tag.packet_size e
trace_report-reported buffer tags unicast_forward tag = refl
trace_report-reported buffer tags local_deliver tag = refl
trace_report-reported buffer tags (drop_bundle reason) tag = refl

module _ (buffer : TagBuffer) (is : IsTagBuffer buffer) {Adu : Type 0} (tags : ByteTags Adu)
    (kept : IsByteTags tags) where
  trace_logger-tag :
      (b : TracedBundle Adu) (tag : BpFlowProbeTag) (e : Trace) (q : Probe)
      → first_tag buffer tags b ≡ some (some tag)
      → tags.get_size b.adu ≡ tag.packet_size
      → trace_logger buffer tags e b q
        ≡ some (report (reported tag.flow_id tag.packet_id tag.packet_size e) q)
  unfolding trace_logger
  trace_logger-tag b tag e q found same = rw found (
      ap (λ (n : ℕ). some (report (trace_report buffer tags e tag n) q)) same
      ∙ ap (λ (r : Report). some (report r q)) (trace_report-reported buffer tags e tag))

  trace_loggers-tag :
      (b : TracedBundle Adu) (tag : BpFlowProbeTag) (es : List Trace) (q : Probe)
      → first_tag buffer tags b ≡ some (some tag)
      → tags.get_size b.adu ≡ tag.packet_size
      → trace_loggers buffer tags es b q
        ≡ some (record q {
          reports = q.reports ++ map (reported tag.flow_id tag.packet_id tag.packet_size) es;
        })
  unfolding trace_loggers
  trace_loggers-tag b tag [] q found same =
      ap (λ (rs : List Report). some (record q { reports = rs })) (sym (append-nil q.reports))
  trace_loggers-tag b tag (e ∷ es) q found same =
      let r : Report = reported tag.flow_id tag.packet_id tag.packet_size e in
      rw (trace_logger-tag b tag e q found same) (
        trace_loggers-tag b tag es (report r q) found same
        ∙ ap (λ (rs : List Report). some (record q { reports = rs }))
            (append_assoc q.reports (r ∷ [])
              (map (reported tag.flow_id tag.packet_id tag.packet_size) es)))

  -- `SendLogger` classifies a bundle without a tag, tells the monitor of its first transmission and
  -- leaves its size; from then on `SendLogger` does nothing more with it at any probe, and every run of
  -- `ForwardLogger`, `DeliverLogger` and `DropLogger` at any probe tells the monitor in order of each
  -- of them, with the flow and the number of the first transmission. The numbers have 32 bits, and each
  -- URI has fewer than 1024 bytes, none of them NUL; `TagBuffer` and `Packet` keep their promises.
  pub trace_loggers-send_logger :
      (new_id : ℕ → ℕ) (b : TracedBundle Adu) (p : Probe)
      → tags.find_tag b.adu ≡ none
      → let (c, flow_id, packet_id) = classify new_id b.flow p.classifier in
        flow_id < 2 ^ 32
        → packet_id < 2 ^ 32
        → tags.get_size b.adu < 2 ^ 32
        → IsHeld b.flow.src_eid.uri
        → IsHeld b.flow.dst_eid.uri
        → (b' : TracedBundle Adu) × (send_logger buffer tags new_id b p
            ≡ some (
              record {
                classifier = c;
                reports = p.reports ++ (first_tx flow_id packet_id (tags.get_size b.adu) ∷ []);
              },
              b',
            ))
          × (tags.get_size b'.adu ≡ tags.get_size b.adu)
          × ((q : Probe) → send_logger buffer tags new_id b' q ≡ some (q, b'))
          × ((es : List Trace) (q : Probe)
              → trace_loggers buffer tags es b' q
                ≡ some (record q {
                  reports = q.reports ++ map (reported flow_id packet_id (tags.get_size b.adu)) es;
                }))
  unfolding send_logger first_tag
  trace_loggers-send_logger new_id b p untagged flow_fits packet_fits size_fits src_held dst_held =
      let (c, flow_id, packet_id) = classify new_id b.flow p.classifier in
      let tag : BpFlowProbeTag = record {
        flow_id = flow_id;
        packet_id = packet_id;
        packet_size = tags.get_size b.adu;
        src = b.flow.src_eid;
        dst = b.flow.dst_eid;
      } in
      let b' : TracedBundle Adu = record b {
        adu = tags.add_tag (serialize_tag buffer tag) b.adu;
      } in
      let ((src, dst, reads, src_uri, dst_uri), sized) =
        deserialize_tag-serialize_tag buffer is tag flow_fits packet_fits size_fits src_held
          dst_held in
      let found : first_tag buffer tags b' ≡ some (some (record tag { src = src; dst = dst })) =
        rw (kept.tag_added (serialize_tag buffer tag) b.adu untagged) (rw reads refl) in
      let same : tags.get_size b'.adu ≡ tags.get_size b.adu =
        kept.size_kept (serialize_tag buffer tag) b.adu in
      (
        b',
        rw untagged refl,
        same,
        λ q. rw found refl,
        λ es q. trace_loggers-tag b' (record tag { src = src; dst = dst }) es q found same,
      )
