-- ===== src/Examples/Store.antt =====
-- A store with two bundles from "dtn:a" to "dtn:b".
use ns3_dtn.Prelude.{
  ap, sym, ◌∙◌, ◌%◌, ◌^◌, not, ◌&&◌, All, ℕ, zero, suc, ◌∷◌, [], List, Bool, true, false, ◌≡◌, ◌++◌,
  ◌↔◌, ◌⊎◌, refl, some, none, arith, inl, inr, ltb, ◌==◌, bit_and, ◌-◌, ◌+◌,
}
use ns3_dtn.EndpointId.{dtn, from_parts}
use ns3_dtn.BundleStore.{
  BundleStore, View, TimeApi, less, store, remove, get_and_remove_bundle,
  get_forward_pending_bundles, bp_forward_pending,
}
use ns3_dtn.BundleStore.Order.{StrictTotal, OrdersSeqs, ltb-StrictTotal, less-StrictTotal}
use ns3_dtn.BundleStore.OrderedSet.{Has}
use ns3_dtn.BundleStore.{new_store, insert}
use ns3_dtn.BundleStore.Invariant.{IsValid}
use ns3_dtn.BundleStore.Runs.{stores, removes, Reach, starts, steps, IsWithin, Reach-IsWithin}
use ns3_dtn.BundleStore.Delivery.{
  IsFor, get_and_remove_bundle_first, get_forward_pending_bundles_iff,
}
use ns3_dtn.Examples.Data.{node_a, node_b}

-- The bundle with a sequence number, a fragment offset and application data.
abbrev bundle : ℕ → Bool → List ℕ → View ℕ
bundle seq fragment adu = record {
  priority = 1;
  create_timestamp = 700;
  sequence_number = seq;
  frag_offset = 0;
  source = from_parts dtn node_a;
  destination = from_parts dtn node_b;
  is_fragment = fragment;
  life_time = 60;
  retention_constraints = 2;
  adu = adu;
}

-- `<` of the numbers on the circle: the way up from the first to the second is less than half.
abbrev circle_lt : ℕ → ℕ → Bool
circle_lt m n = let up = (n + (2 ^ 32 - m)) % 2 ^ 32 in not (up == 0) && ltb up (2 ^ 31)

-- The numbers of bundles 0, 1 and the others, across the wrap.
abbrev number : ℕ → ℕ
number zero = 2 ^ 32 - 1
number (suc zero) = 0
number (suc (suc n)) = 1

-- Bundle 0 is a fragment.
abbrev look : ℕ → View ℕ
look zero = bundle (number zero) true (1 ∷ 2 ∷ [])
look (suc n) = bundle (number (suc n)) false (3 ∷ 4 ∷ 5 ∷ [])

-- The numbers as steps from that of bundle 0.
abbrev step : ℕ → ℕ
step zero = 0
step (suc zero) = 1
step (suc (suc n)) = 2

step_number : (b : ℕ) → (look b).sequence_number ≡ (2 ^ 32 - 1 + step b) % 2 ^ 32
step_number zero = refl
step_number (suc zero) = refl
step_number (suc (suc n)) = refl

step-lt :
    (b c : ℕ) → circle_lt (look b).sequence_number (look c).sequence_number ≡ ltb (step b) (step c)
step-lt zero zero = refl
step-lt zero (suc zero) = refl
step-lt zero (suc (suc n)) = refl
step-lt (suc zero) zero = refl
step-lt (suc zero) (suc zero) = refl
step-lt (suc zero) (suc (suc n)) = refl
step-lt (suc (suc m)) zero = refl
step-lt (suc (suc m)) (suc zero) = refl
step-lt (suc (suc m)) (suc (suc n)) = refl

look-OrdersSeqs : OrdersSeqs look circle_lt
look-OrdersSeqs = record {
  irrefl = λ a. step-lt a a ∙ ltb-StrictTotal.irrefl (step a);
  trans = λ a b c p q.
      step-lt a c
      ∙ ltb-StrictTotal.trans (step a) (step b) (step c) (sym (step-lt a b) ∙ p)
          (sym (step-lt b c) ∙ q);
  total = λ a b p q.
      step_number a
      ∙ ap (λ n. (2 ^ 32 - 1 + n) % 2 ^ 32)
          (ltb-StrictTotal.total (step a) (step b) (sym (step-lt a b) ∙ p) (sym (step-lt b a) ∙ q))
      ∙ sym (step_number b);
}

abbrev two_bundles : BundleStore
two_bundles = record { m_store = 0 ∷ 1 ∷ []; max_bundles_stored = 2; stored_bytes = 5 }

two_bundles-IsValid : IsValid look circle_lt look-OrdersSeqs 0 two_bundles
two_bundles-IsValid = record { sorted = ((refl, tt), (tt, tt)); bytes = refl; peak = omega arith }

-- Times that are numbers of seconds.
abbrev clock : TimeApi ℕ
clock = record {
  is_zero = λ t. t == 0;
  seconds = λ n. n;
  add = λ s t. s + t;
  sub = λ s t. s - t;
  is_positive = λ t. ltb 0 t;
}

-- Bundles 0 and 2 are stored at the time 710, and bundle 0 is removed.
abbrev after_first : BundleStore
after_first = (store look circle_lt clock 710 0 (new_store 77)).0

abbrev after_second : BundleStore
after_second = (store look circle_lt clock 710 2 after_first).0

reached : Reach look circle_lt look-OrdersSeqs 77 3 (remove look circle_lt 0 after_second)
unfolding store insert
reached =
    steps 2 after_second (remove look circle_lt 0 after_second)
      (steps 1 after_first after_second
        (steps 0 (new_store 77) after_first starts (stores clock 710 0 (λ h. h)))
        (stores clock 710 2 (λ h. elim h [ inl e ↦ absurd (omega arith) | inr n ↦ n ])))
      (removes 0)

Reach-IsWithin_example :
    IsWithin look circle_lt look-OrdersSeqs 77 3 (remove look circle_lt 0 after_second)
Reach-IsWithin_example =
    Reach-IsWithin look circle_lt look-OrdersSeqs 77 3 (remove look circle_lt 0 after_second)
      (omega arith) (omega arith) reached

less-StrictTotal_example : StrictTotal (less look circle_lt)
less-StrictTotal_example = less-StrictTotal look circle_lt look-OrdersSeqs

-- Without fragments, the application gets bundle 1.
get_and_remove_bundle_first_example :
    let eid = from_parts dtn node_b in
    let result = get_and_remove_bundle look circle_lt eid false two_bundles in
    (All (λ b. ¬ IsFor look eid false b) two_bundles.m_store × (result ≡ (two_bundles, none)))
    ⊎ ((front : List ℕ) × (b : ℕ) × (back : List ℕ) × (two_bundles.m_store ≡ front ++ (b ∷ back))
        × All (λ x. ¬ IsFor look eid false x) front
        × IsFor look eid false b
        × (result.0.m_store ≡ front ++ back)
        × (result.1 ≡ some (look b).adu))
get_and_remove_bundle_first_example =
    get_and_remove_bundle_first look circle_lt look-OrdersSeqs 0 (from_parts dtn node_b) false
      two_bundles two_bundles-IsValid

-- The callback gives every destination the convergence layer 7.
get_forward_pending_bundles_iff_example :
    Has 1 (get_forward_pending_bundles look ◌==◌ 7 (λ eid. 7) two_bundles) ↔ (
      Has 1 two_bundles.m_store
      × (bit_and (look 1).retention_constraints bp_forward_pending ≡ bp_forward_pending)
      × ((7 == 7) ≡ true))
get_forward_pending_bundles_iff_example =
    get_forward_pending_bundles_iff look ◌==◌ 7 (λ eid. 7) 1 two_bundles
