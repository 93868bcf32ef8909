-- ===== src/Examples/Flows.antt =====
-- Bundles of two flows, and the way of the first one.
use ns3_dtn.Prelude.{
  ℕ, ◌+◌, ◌*◌, ◌/◌, ◌%◌, ◌^◌, ◌<◌, ◌≡◌, ◌≢◌, ◌↔◌, refl, ap, arith, true, List, [], ◌∷◌, ◌++◌,
  Option, some, none, length, map, All,
}
use ns3_dtn.EndpointId.{EndpointId, from_parts, dtn}
use ns3_dtn.Header6.Wire.{read_bytes}
use ns3_dtn.Header6.RoundTrip.{read_bytes-append}
use ns3_dtn.Flowstats.{BpFlowId, flow_eq, new_classifier, find_flow, classify, classified}
use ns3_dtn.Flowstats.Agreement.{count}
use ns3_dtn.Flowstats.Counting.{classify-count, classify-flow}
use ns3_dtn.Flowstats.Tag.{
  TagBuffer, IsTagBuffer, BpFlowProbeTag, serialize_tag, deserialize_tag, get_serialized_size_tag,
}
use ns3_dtn.Flowstats.TagRoundTrip.{IsHeld, deserialize_tag-serialize_tag}
use ns3_dtn.Flowstats.Probe.{
  ByteTags, IsByteTags, first_tx, Probe, TracedBundle, Trace, send_logger, trace_loggers,
}
use ns3_dtn.Flowstats.Probe.Life.{reported, trace_loggers-send_logger}
use ns3_dtn.Examples.Node.{to_a, to_b}

-- `GetNewFlowId` counts from 1.
abbrev next_id : ℕ → ℕ
next_id k = k + 1

next_id_distinct : (i j : ℕ) → i < 2 ^ 32 → j < 2 ^ 32 → next_id i ≡ next_id j → i ≡ j
next_id_distinct i j small fits same = omega (arith, same)

abbrev there : BpFlowId
there = record { src_eid = to_a; dst_eid = to_b }

abbrev back : BpFlowId
back = record { src_eid = to_b; dst_eid = to_a }

classify-count_example :
    (classify next_id there (classified next_id (back ∷ there ∷ []))).2
    ≡ count there (back ∷ there ∷ [])
classify-count_example =
    classify-count next_id next_id_distinct there (back ∷ there ∷ []) (omega arith)

classify-flow_example :
    ((classify next_id there (classified next_id (back ∷ there ∷ []))).1
      ≡ (classify next_id there (classified next_id [])).1)
    ↔ (flow_eq there there ≡ true)
classify-flow_example =
    classify-flow next_id next_id_distinct there there [] (back ∷ []) (omega arith)

-- The low byte first.
abbrev four_bytes : ℕ → List ℕ
four_bytes n = n % 256 ∷ n / 256 % 256 ∷ n / 65536 % 256 ∷ n / 16777216 ∷ []

abbrev number_of : List ℕ → Option (ℕ × List ℕ)
number_of (a ∷ b ∷ c ∷ d ∷ rest) = some (a + 256 * b + 65536 * c + 16777216 * d, rest)
number_of _ = none

abbrev buffer : TagBuffer
buffer = record {
  write_u32 = four_bytes;
  write = λ bytes. bytes;
  read_u32 = number_of;
  read = read_bytes;
}

buffer-IsTagBuffer : IsTagBuffer buffer
buffer-IsTagBuffer = record {
  u32_back = λ n rest fits. ap (λ (k : ℕ). some (k, rest)) (whole n fits);
  bytes_back = read_bytes-append;
  u32_size = λ n. refl;
  bytes_size = λ bytes. refl;
}
  where
    whole :
        (n : ℕ)
        → n < 2 ^ 32
        → n % 256 + 256 * (n / 256 % 256) + 65536 * (n / 65536 % 256) + 16777216 * (n / 16777216)
          ≡ n
    whole n fits = omega arith

-- An ADU as its size and its tags.
abbrev first_of : List (List ℕ) → Option (List ℕ)
first_of [] = none
first_of (t ∷ ts) = some t

abbrev tagged : ByteTags (ℕ × List (List ℕ))
tagged = record {
  get_size = λ adu. adu.0;
  find_tag = λ adu. first_of adu.1;
  add_tag = λ bytes adu. (adu.0, adu.1 ++ (bytes ∷ []));
}

tagged-IsByteTags : IsByteTags tagged
tagged-IsByteTags = record {
  tag_added = λ bytes adu e. added bytes adu.1 e;
  size_kept = λ bytes adu. refl;
}
  where
    added :
        (bytes : List ℕ) (ts : List (List ℕ))
        → first_of ts ≡ none
        → first_of (ts ++ (bytes ∷ [])) ≡ some bytes
    added bytes [] e = refl
    added bytes (t ∷ ts) e = absurd (cc e)

no_nul : (x : ℕ) → x ≢ 0 → All (λ c. c ≢ 0) (dtn ++ (b':' ∷ x ∷ []))
no_nul x other = (
  λ e. absurd (omega (arith, e)),
  (
    (λ e. absurd (omega (arith, e))),
    ((λ e. absurd (omega (arith, e))), ((λ e. absurd (omega (arith, e))), (other, tt))),
  ),
)

to_a-IsHeld : IsHeld to_a.uri
unfolding from_parts
to_a-IsHeld = record { no_nul = no_nul b'a' (λ e. absurd (omega (arith, e))); short = omega arith }

to_b-IsHeld : IsHeld to_b.uri
unfolding from_parts
to_b-IsHeld = record { no_nul = no_nul b'b' (λ e. absurd (omega (arith, e))); short = omega arith }

abbrev tag : BpFlowProbeTag
tag = record { flow_id = 1; packet_id = 0; packet_size = 5; src = to_a; dst = to_b }

deserialize_tag-serialize_tag_example :
    ((src dst : EndpointId) × (deserialize_tag buffer (serialize_tag buffer tag)
        ≡ some (record tag { src = src; dst = dst }))
      × (src.uri ≡ to_a.uri)
      × (dst.uri ≡ to_b.uri))
    × (length (serialize_tag buffer tag) ≡ get_serialized_size_tag tag)
deserialize_tag-serialize_tag_example =
    deserialize_tag-serialize_tag buffer buffer-IsTagBuffer tag (omega arith) (omega arith)
      (omega arith) to_a-IsHeld to_b-IsHeld

abbrev untagged : TracedBundle (ℕ × List (List ℕ))
untagged = record { flow = there; adu = (5, []) }

abbrev silent : Probe
silent = record { classifier = new_classifier; reports = [] }

trace_loggers-send_logger_example :
    (b' : TracedBundle (ℕ × List (List ℕ))) × (send_logger buffer tagged next_id untagged silent
      ≡ some (
        record {
          classifier = (classify next_id there new_classifier).0;
          reports = first_tx 1 0 5 ∷ [];
        },
        b',
      ))
    × (b'.adu.0 ≡ 5)
    × ((q : Probe) → send_logger buffer tagged next_id b' q ≡ some (q, b'))
    × ((es : List Trace) (q : Probe)
        → trace_loggers buffer tagged es b' q
          ≡ some (record q { reports = q.reports ++ map (reported 1 0 5) es }))
unfolding classify find_flow
trace_loggers-send_logger_example =
    trace_loggers-send_logger buffer buffer-IsTagBuffer tagged tagged-IsByteTags next_id untagged
      silent refl (omega arith) (omega arith) (omega arith) to_a-IsHeld to_b-IsHeld
