-- ===== src/Flowstats.antt =====
-- model/bp-flowstats.cc: the classifier of flows. A `std::map` is an association list or a function;
-- nothing that is modelled reads its order. `GetNewFlowId` belongs to ns-3: `new_id k` is what its
-- k-th call returns.
pub mod Order
pub mod Agreement
pub mod Counting
pub mod Tag
pub mod TagRoundTrip
pub mod Probe
pub mod Xml
pub mod Install
use ns3_dtn.Prelude.{
  ℕ, ◌+◌, ◌%◌, ◌^◌, Bool, true, false, ◌&&◌, not, List, [], ◌∷◌, Option, none, some, if◌then◌else◌,
  ◌==◌,
}
use ns3_dtn.EndpointId.{EndpointId, eid_eq, eid_lt}

pub record BpFlowId : Type 0 where
  pub src_eid : EndpointId
  pub dst_eid : EndpointId

-- `operator <` and `operator ==`
unfoldable pub flow_lt : BpFlowId → BpFlowId → Bool
flow_lt f1 f2 =
    if eid_lt f1.src_eid f2.src_eid
    then true
    else if not (eid_eq f1.src_eid f2.src_eid)
    then false
    else if eid_lt f1.dst_eid f2.dst_eid
    then true
    else false

unfoldable pub flow_eq : BpFlowId → BpFlowId → Bool
flow_eq f1 f2 = eid_eq f1.src_eid f2.src_eid && eid_eq f1.dst_eid f2.dst_eid

-- The keys that `std::map` takes for the same: neither is below the other.
unfoldable pub same_key : BpFlowId → BpFlowId → Bool
unfolding flow_lt
same_key f1 f2 = not (flow_lt f1 f2) && not (flow_lt f2 f1)

pub record Classifier : Type 0 where
  -- `m_flowMap` and `m_flowPktIdMap`; a key that is not in the second stands for 0.
  pub flow_map : List (BpFlowId × ℕ)
  pub flow_pkt_ids : ℕ → ℕ
  -- The calls of `GetNewFlowId` so far.
  pub calls : ℕ

abbrev pub new_classifier : Classifier
new_classifier = record { flow_map = []; flow_pkt_ids = λ id. 0; calls = 0 }

unfoldable pub find_flow : BpFlowId → List (BpFlowId × ℕ) → Option ℕ
find_flow f [] = none
find_flow f ((k, id) ∷ m) = let rest = find_flow f m in if same_key k f then some id else rest

-- `m_flowPktIdMap[id] = n`
abbrev pub put_pkt_id : ℕ → ℕ → (ℕ → ℕ) → ℕ → ℕ
put_pkt_id id n ids i = if i == id then n else ids i

module _ (new_id : ℕ → ℕ) where
  -- The two branches of `Classify`, with the flow's id.
  abbrev pub count_bundle : BpFlowId → Option ℕ → Classifier → Classifier × ℕ
  count_bundle f none c = (
    record {
      flow_map = (f, new_id c.calls) ∷ c.flow_map;
      flow_pkt_ids = put_pkt_id (new_id c.calls) 0 c.flow_pkt_ids;
      calls = c.calls + 1;
    },
    new_id c.calls,
  )
  count_bundle f (some id) c = (
    record c { flow_pkt_ids = put_pkt_id id ((c.flow_pkt_ids id + 1) % 2 ^ 32) c.flow_pkt_ids },
    id,
  )

  -- `Classify` of a bundle from `f.src_eid` to `f.dst_eid`: the classifier, the id of the flow and
  -- the id of the bundle in it.
  unfoldable pub classify : BpFlowId → Classifier → Classifier × ℕ × ℕ
  unfolding find_flow
  classify f c =
      let (c, id) = count_bundle f (find_flow f c.flow_map) c in (c, id, c.flow_pkt_ids id)

  -- The classifier after some bundles, the last one first.
  unfoldable pub classified : List BpFlowId → Classifier
  classified [] = new_classifier
  classified (f ∷ fs) = (classify f (classified fs)).0
