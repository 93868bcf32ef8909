-- ===== src/Flowstats/Counting.antt =====
-- What the classifier says of a bundle, by the bundles before it.
use ns3_dtn.Prelude.{
  ℕ, suc, ◌-◌, ◌%◌, ◌^◌, ◌<◌, ◌≤◌, ◌≡◌, ◌↔◌, inl, inr, refl, ap, sym, ◌∙◌, arith, true, Bool-cases,
  List, [], ◌∷◌, ◌++◌, some, Option-cases, length,
}
use mathlib.Core.Option.{some-injective}
use ns3_dtn.Flowstats.{BpFlowId, flow_eq, Classifier, find_flow, classify, classified}
use ns3_dtn.Flowstats.Agreement.{
  count, flow_eq_refl, find_flow_cong, find_flow-hit, find_flow-miss, Agrees,
  count_bundle-Agrees_old, count_bundle-Agrees_new,
}

module _ (new_id : ℕ → ℕ)
    (distinct : (i j : ℕ) → i < 2 ^ 32 → j < 2 ^ 32 → new_id i ≡ new_id j → i ≡ j) where
  classify-Agrees :
      (f : BpFlowId) (fs : List BpFlowId) (c : Classifier)
      → length fs < 2 ^ 32
      → Agrees new_id fs c
      → Agrees new_id (f ∷ fs) (classify new_id f c).0
  unfolding classify
  classify-Agrees f fs c short a = elim (Option-cases (find_flow f c.flow_map)) [
    | inl e ↦ rw e (count_bundle-Agrees_new new_id distinct f fs c short a e)
    | inr (id, e) ↦ rw e (count_bundle-Agrees_old new_id distinct f id fs c a e)
  ]

  classified-Agrees :
      (fs : List BpFlowId) → length fs ≤ 2 ^ 32 → Agrees new_id fs (classified new_id fs)
  unfolding classified find_flow
  classified-Agrees [] short = record {
    few_calls = omega arith;
    unseen = λ f e. refl;
    seen = λ f id e. absurd (ground (arith, e));
    given = λ f id e. absurd (ground (arith, e));
    apart = λ f k id e e'. absurd (ground (arith, e));
  }
  classified-Agrees (f ∷ fs) short =
      classify-Agrees f fs (classified new_id fs) (omega (arith, short))
        (classified-Agrees fs (omega (arith, short)))

  -- The map after `Classify`, which knows the flow, and all that it knew.
  classify-found :
      (f : BpFlowId) (c : Classifier)
      → find_flow f (classify new_id f c).0.flow_map ≡ some (classify new_id f c).1
  unfolding classify
  classify-found f c = elim (Option-cases (find_flow f c.flow_map)) [
    | inl e ↦ rw e (find_flow-hit f f (new_id c.calls) c.flow_map (flow_eq_refl f))
    | inr (id, e) ↦ rw e e
  ]

  classify-kept :
      (f k : BpFlowId) (id : ℕ) (c : Classifier)
      → find_flow k c.flow_map ≡ some id
      → find_flow k (classify new_id f c).0.flow_map ≡ some id
  unfolding classify
  classify-kept f k id c known = elim (Option-cases (find_flow f c.flow_map)) [
    | inl e ↦ elim (Bool-cases (flow_eq f k)) [
      | inl p ↦ absurd (ground (arith, find_flow_cong f k c.flow_map p, e, known))
      | inr p ↦ rw e (find_flow-miss f k (new_id c.calls) c.flow_map p ∙ known)
    ]
    | inr (i, e) ↦ rw e known
  ]

  classified-kept :
      (gs fs : List BpFlowId) (k : BpFlowId) (id : ℕ)
      → find_flow k (classified new_id fs).flow_map ≡ some id
      → find_flow k (classified new_id (gs ++ fs)).flow_map ≡ some id
  unfolding classified
  classified-kept [] fs k id known = known
  classified-kept (g ∷ gs) fs k id known =
      classify-kept g k id (classified new_id (gs ++ fs)) (classified-kept gs fs k id known)

  count-length : (f : BpFlowId) (fs : List BpFlowId) → count f fs ≤ length fs
  count-length f [] = omega arith
  count-length f (k ∷ fs) = ground (arith, count-length f fs)

  -- The id that `Classify` gives a bundle within its flow is the number of the earlier bundles with
  -- the same source and the same destination, if the bundles are fewer than 2^32 and `GetNewFlowId`
  -- does not repeat an id in 2^32 calls.
  pub classify-count :
      (f : BpFlowId) (fs : List BpFlowId)
      → length fs < 2 ^ 32
      → (classify new_id f (classified new_id fs)).2 ≡ count f fs
  unfolding classify
  classify-count f fs short =
      let c : Classifier = classified new_id fs in
      let a : Agrees new_id (f ∷ fs) (classify new_id f c).0 =
        classify-Agrees f fs c short (classified-Agrees fs (omega (arith, short))) in
      let one_more : count f (f ∷ fs) ≡ suc (count f fs) = rw (flow_eq_refl f) refl in
      let last : (classify new_id f c).0.flow_pkt_ids (classify new_id f c).1
          ≡ (count f (f ∷ fs) - 1) % 2 ^ 32 =
        (a.seen f (classify new_id f c).1 (classify-found f c)).1 in
      last ∙ omega (arith, one_more, short, count-length f fs)

  -- `Classify` gives a bundle the flow id that it gave an earlier one if and only if the two have the
  -- same source and the same destination, whatever bundles came before, after and between: the
  -- bundles are fewer than 2^32 and `GetNewFlowId` does not repeat an id in 2^32 calls.
  pub classify-flow :
      (f k : BpFlowId) (fs gs : List BpFlowId)
      → length (gs ++ (f ∷ fs)) < 2 ^ 32
      → ((classify new_id k (classified new_id (gs ++ (f ∷ fs)))).1
          ≡ (classify new_id f (classified new_id fs)).1)
        ↔ (flow_eq f k ≡ true)
  unfolding classified
  classify-flow f k fs gs short = (
    λ same. a.apart f k _ known (found ∙ ap some same),
    λ p. some-injective _ _ (sym found ∙ sym (find_flow_cong f k after.flow_map p) ∙ known),
  )
    where
      all : List BpFlowId
      all = gs ++ (f ∷ fs)

      after : Classifier
      after = (classify new_id k (classified new_id all)).0

      a : Agrees new_id (k ∷ all) after
      a =
          classify-Agrees k all (classified new_id all) short
            (classified-Agrees all (omega (arith, short)))

      found : find_flow k after.flow_map ≡ some (classify new_id k (classified new_id all)).1
      found = classify-found k (classified new_id all)

      known : find_flow f after.flow_map ≡ some (classify new_id f (classified new_id fs)).1
      known =
          classify-kept k f _ (classified new_id all)
            (classified-kept gs (f ∷ fs) f _ (classify-found f (classified new_id fs)))
