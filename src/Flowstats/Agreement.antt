-- ===== src/Flowstats/Agreement.antt =====
-- How the classifier's maps agree with the bundles that it has classified, and that `Classify`
-- keeps them so.
use ns3_dtn.Prelude.{
  ℕ, suc, ◌-◌, ◌%◌, ◌^◌, ◌<◌, ◌≤◌, ◌≡◌, inl, inr, refl, ap, sym, ◌∙◌, arith, true, false,
  Bool-cases, List, [], ◌∷◌, none, some, length, if◌then◌else◌,
}
use mathlib.Core.Option.{some-injective}
use ns3_dtn.Flowstats.{BpFlowId, flow_eq, Classifier, find_flow, count_bundle}
use ns3_dtn.Flowstats.Order.{same_key-flow_eq}

-- The bundles of a flow.
abbrev pub count : BpFlowId → List BpFlowId → ℕ
count f [] = 0
count f (k ∷ fs) = if flow_eq k f then suc (count f fs) else count f fs

pub flow_eq_refl : (f : BpFlowId) → flow_eq f f ≡ true
flow_eq_refl f = (same_key-flow_eq f f).1.1 (refl, refl)

flow_eq_both : (f k l : BpFlowId) → flow_eq f k ≡ true → flow_eq f l ≡ true → flow_eq k l ≡ true
flow_eq_both f k l p q =
    let (a, b) = (same_key-flow_eq f k).1.0 p in
    let (d, e) = (same_key-flow_eq f l).1.0 q in (same_key-flow_eq k l).1.1 (sym a ∙ d, sym b ∙ e)

-- How the classifier `c` agrees with the bundles `fs`.
pub record Agrees (new_id : ℕ → ℕ) (fs : List BpFlowId) (c : Classifier) : Type 0 where
  pub few_calls : c.calls ≤ length fs
  pub unseen : (f : BpFlowId) → find_flow f c.flow_map ≡ none → count f fs ≡ 0
  pub seen :
      (f : BpFlowId) (id : ℕ)
      → find_flow f c.flow_map ≡ some id
      → (1 ≤ count f fs) × (c.flow_pkt_ids id ≡ (count f fs - 1) % 2 ^ 32)
  pub given :
      (f : BpFlowId) (id : ℕ)
      → find_flow f c.flow_map ≡ some id
      → (k : ℕ) × (k < c.calls) × (id ≡ new_id k)
  pub apart :
      (f k : BpFlowId) (id : ℕ)
      → find_flow f c.flow_map ≡ some id
      → find_flow k c.flow_map ≡ some id
      → flow_eq f k ≡ true

-- A lookup after an insertion, and of an equal key.
find_flow-first :
    (f k : BpFlowId) (id : ℕ) (m : List (BpFlowId × ℕ))
    → find_flow k ((f, id) ∷ m) ≡ (if flow_eq f k then some id else find_flow k m)
unfolding find_flow
find_flow-first f k id m = rw (same_key-flow_eq f k).0 refl

flow_eq_cong : (f k l : BpFlowId) → flow_eq f k ≡ true → flow_eq l f ≡ flow_eq l k
unfolding flow_eq
flow_eq_cong f k l p = let (a, b) = (same_key-flow_eq f k).1.0 p in rw a (rw b refl)

pub find_flow_cong :
    (f k : BpFlowId) (m : List (BpFlowId × ℕ)) → flow_eq f k ≡ true → find_flow f m ≡ find_flow k m
unfolding find_flow
find_flow_cong f k [] p = refl
find_flow_cong f k ((l, id) ∷ m) p =
    rw (same_key-flow_eq l f).0
      (rw (same_key-flow_eq l k).0 (rw (flow_eq_cong f k l p) (rw (find_flow_cong f k m p) refl)))

pub find_flow-hit :
    (f k : BpFlowId) (id : ℕ) (m : List (BpFlowId × ℕ))
    → flow_eq f k ≡ true
    → find_flow k ((f, id) ∷ m) ≡ some id
find_flow-hit f k id m p = find_flow-first f k id m ∙ rw p refl

pub find_flow-miss :
    (f k : BpFlowId) (id : ℕ) (m : List (BpFlowId × ℕ))
    → flow_eq f k ≡ false
    → find_flow k ((f, id) ∷ m) ≡ find_flow k m
find_flow-miss f k id m p = find_flow-first f k id m ∙ rw p refl

module _ (new_id : ℕ → ℕ)
    (distinct : (i j : ℕ) → i < 2 ^ 32 → j < 2 ^ 32 → new_id i ≡ new_id j → i ≡ j) where
  pub count_bundle-Agrees_old :
      (f : BpFlowId) (id : ℕ) (fs : List BpFlowId) (c : Classifier)
      → Agrees new_id fs c
      → find_flow f c.flow_map ≡ some id
      → Agrees new_id (f ∷ fs) (count_bundle new_id f (some id) c).0
  count_bundle-Agrees_old f id fs c a found = record {
    few_calls = omega (arith, a.few_calls);
    unseen = λ k e. elim (Bool-cases (flow_eq f k)) [
      | inl p ↦ absurd (ground (arith, find_flow_cong f k c.flow_map p, found, e))
      | inr p ↦ rw p (a.unseen k e)
    ];
    seen = λ k i e.
        let (some_seen, last) = a.seen k i e in
        elim (Bool-cases (flow_eq f k)) [
          | inl p ↦
              let same : i ≡ id =
                some-injective _ _ (sym e ∙ sym (find_flow_cong f k c.flow_map p) ∙ found) in
              rw same (ground (arith, p, ap c.flow_pkt_ids same, last, some_seen))
          | inr p ↦
              let differs : ¬ (i ≡ id) =
                λ same. absurd (ground (arith, p, a.apart f k id found (e ∙ ap some same))) in
              ground (arith, p, last, some_seen, differs)
        ];
    given = a.given;
    apart = a.apart;
  }

  -- An id that is in the map is not the one of the next call.
  given_before :
      (k : BpFlowId) (i : ℕ) (fs : List BpFlowId) (c : Classifier)
      → length fs < 2 ^ 32
      → Agrees new_id fs c
      → find_flow k c.flow_map ≡ some i
      → ¬ (i ≡ new_id c.calls)
  given_before k i fs c short a e same =
      let (x, below, was) = a.given k i e in
      let few : c.calls ≤ length fs = a.few_calls in
      let again : x ≡ c.calls =
        distinct x c.calls (omega (arith, below, few, short)) (omega (arith, few, short))
          (sym was ∙ same) in
      absurd (omega (arith, below, again))

  pub count_bundle-Agrees_new :
      (f : BpFlowId) (fs : List BpFlowId) (c : Classifier)
      → length fs < 2 ^ 32
      → Agrees new_id fs c
      → find_flow f c.flow_map ≡ none
      → Agrees new_id (f ∷ fs) (count_bundle new_id f none c).0
  count_bundle-Agrees_new f fs c short a none_yet = record {
    few_calls = omega (arith, a.few_calls);
    unseen = λ k e. elim (Bool-cases (flow_eq f k)) [
      | inl p ↦ absurd (ground (arith, find_flow-hit f k id c.flow_map p, e))
      | inr p ↦ rw p (a.unseen k (sym (find_flow-miss f k id c.flow_map p) ∙ e))
    ];
    seen = λ k i e. elim (Bool-cases (flow_eq f k)) [
      | inl p ↦
          let same : i ≡ id = some-injective _ _ (sym e ∙ find_flow-hit f k id c.flow_map p) in
          let first : count k fs ≡ 0 =
            a.unseen k (sym (find_flow_cong f k c.flow_map p) ∙ none_yet) in
          rw same (ground (arith, p, first))
      | inr p ↦
          let old : find_flow k c.flow_map ≡ some i =
            sym (find_flow-miss f k id c.flow_map p) ∙ e in
          let (some_seen, last) = a.seen k i old in
          ground (arith, p, some_seen, last, given_before k i fs c short a old)
    ];
    given = λ k i e. elim (Bool-cases (flow_eq f k)) [
      | inl p ↦
          (c.calls, omega arith, some-injective _ _ (sym e ∙ find_flow-hit f k id c.flow_map p))
      | inr p ↦
          let (x, below, was) = a.given k i (sym (find_flow-miss f k id c.flow_map p) ∙ e) in
          (x, omega (arith, below), was)
    ];
    apart = λ k l i e e'. elim (Bool-cases (flow_eq f k)) [
      | inl p ↦
          let same : i ≡ id = some-injective _ _ (sym e ∙ find_flow-hit f k id c.flow_map p) in
          elim (Bool-cases (flow_eq f l)) [
            | inl q ↦ flow_eq_both f k l p q
            | inr q ↦
                absurd (
                  given_before l i fs c short a (sym (find_flow-miss f l id c.flow_map q) ∙ e')
                    same)
          ]
      | inr p ↦
          let old : find_flow k c.flow_map ≡ some i =
            sym (find_flow-miss f k id c.flow_map p) ∙ e in
          elim (Bool-cases (flow_eq f l)) [
            | inl q ↦ absurd (
                given_before k i fs c short a old
                  (some-injective _ _ (sym e' ∙ find_flow-hit f l id c.flow_map q)))
            | inr q ↦ a.apart k l i old (sym (find_flow-miss f l id c.flow_map q) ∙ e')
          ]
    ];
  }
    where
      id : ℕ
      id = new_id c.calls
