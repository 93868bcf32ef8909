-- ===== src/Flowstats/Xml.antt =====
-- `SerializeToXmlStream` of the classifier: the flows in the order of the map. `Indent` belongs to
-- ns-3: `spaces n` is what it writes.
use ns3_dtn.Prelude.{ℕ, ◌+◌, Bool, List, [], ◌∷◌, ◌++◌}
use ns3_dtn.Prelude.Decimal.{print_unsigned}
use ns3_dtn.BundleStore.{insert}
use ns3_dtn.Flowstats.{BpFlowId, Classifier, flow_lt}
use Prim.Native.Char.{code}
use Prim.Native.String.{String}

-- The characters of a literal.
abbrev codes : String → List ℕ
codes String.[] = []
codes (String.◌∷◌ c s) = code c ∷ codes s

-- The iteration over `m_flowMap`, by `operator <` of its keys.
abbrev pub key_lt : BpFlowId × ℕ → BpFlowId × ℕ → Bool
key_lt a b = flow_lt a.0 b.0

unfoldable pub in_key_order : List (BpFlowId × ℕ) → List (BpFlowId × ℕ)
unfolding insert
in_key_order [] = []
in_key_order (flow ∷ m) = insert key_lt flow (in_key_order m)

module _ (spaces : ℕ → List ℕ) where
  flow_element : ℕ → BpFlowId × ℕ → List ℕ
  flow_element indent (flow, id) =
      spaces indent
      ++ codes "<Flow flowId=\""
      ++ print_unsigned id
      ++ codes "\" sourceEndpointId=\""
      ++ flow.src_eid.uri
      ++ codes "\" destinationEndpointId=\""
      ++ flow.dst_eid.uri
      ++ codes "\">\n"
      ++ spaces indent
      ++ codes "</Flow>\n"

  flow_elements : ℕ → List (BpFlowId × ℕ) → List ℕ
  unfolding flow_element
  flow_elements indent [] = []
  flow_elements indent (flow ∷ m) = flow_element indent flow ++ flow_elements indent m

  unfoldable pub serialize_to_xml_stream : ℕ → Classifier → List ℕ
  unfolding flow_elements in_key_order
  serialize_to_xml_stream indent c =
      spaces indent
      ++ codes "<BpFlowClassifier>\n"
      ++ flow_elements (indent + 2) (in_key_order c.flow_map)
      ++ spaces indent
      ++ codes "</BpFlowClassifier>\n"
