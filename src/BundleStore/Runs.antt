-- ===== src/BundleStore/Runs.antt =====
-- The stores that a node can have: what any sequence of the changes of model/bp-bundle-store.cc
-- makes of a new store.
use ns3_dtn.Prelude.{ℕ, suc, ◌%◌, ◌^◌, ◌≤◌, ◌<◌, ◌≡◌, refl, Bool, arith, inl, inr}
use ns3_dtn.Prelude.{length, if◌then◌else◌, ltb, Bool-cases, Option-cases}
use ns3_dtn.EndpointId.{EndpointId}
use ns3_dtn.BundleStore.{
  BundleStore, View, TimeApi, new_store, insert, erase?, less, size_of, store, stored, remove,
  first_such, deliverable, get_and_remove_bundle,
}
use ns3_dtn.BundleStore.Order.{OrdersSeqs, less-StrictTotal}
use ns3_dtn.BundleStore.OrderedSet.{Has, insert-new}
use ns3_dtn.BundleStore.Invariant.{IsValid, store-IsValid, remove-IsValid}

module _ {Time : Type 0} (look : ℕ → View Time) (seq_lt : ℕ → ℕ → Bool)
    (seqs : OrdersSeqs look seq_lt) (unset : ℕ) where
  -- One call: `Store` of a bundle that the store does not have, `Remove` (also as `Expire`), or
  -- `GetAndRemoveBundle`.
  pub data Step (s : BundleStore) : BundleStore → Type 0 where
    stores :
        (t : TimeApi Time) (now : Time) (b : ℕ)
        → ¬ Has b s.m_store
        → Step s (store look seq_lt t now b s).0
    removes : (b : ℕ) → Step s (remove look seq_lt b s)
    takes :
        (eid : EndpointId) (frag_ok : Bool)
        → Step s (get_and_remove_bundle look seq_lt eid frag_ok s).0

  -- A store after some calls.
  pub data Reach : ℕ → BundleStore → Type 0 where
    starts : Reach 0 (new_store unset)
    steps : (n : ℕ) (s s' : BundleStore) → Reach n s → Step s s' → Reach (suc n) s'

  -- What n calls have made of a store.
  pub record IsWithin (n : ℕ) (s : BundleStore) : Type 0 where
    pub valid : IsValid look seq_lt seqs unset s
    pub held : length s.m_store ≤ n
    pub most : s.max_bundles_stored ≤ n

  later-IsWithin : (n : ℕ) (s : BundleStore) → IsWithin n s → IsWithin (suc n) s
  later-IsWithin n s w = record {
    valid = w.valid;
    held = omega (arith, w.held);
    most = omega (arith, w.most);
  }

  stored_peak :
      (n b : ℕ) (s : BundleStore)
      → ¬ Has b s.m_store
      → suc n < 2 ^ 32
      → IsWithin n s
      → (stored look seq_lt b s).max_bundles_stored ≤ suc n
  stored_peak n b s new few w =
      counted (length (insert (less look seq_lt) b s.m_store))
        (insert-new (less-StrictTotal look seq_lt seqs) (size_of look) b s.m_store new).1
    where
      counted :
          (m : ℕ)
          → m ≡ suc (length s.m_store)
          → (if ltb s.max_bundles_stored m then m % 2 ^ 32 else s.max_bundles_stored) ≤ suc n
      counted m e = ground (arith, w.held, w.most)

  -- The peak bounds the store.
  valid-IsWithin :
      (n : ℕ) (s : BundleStore)
      → IsValid look seq_lt seqs unset s
      → s.max_bundles_stored ≤ n
      → IsWithin n s
  valid-IsWithin n s v most = record { valid = v; held = omega (arith, v.peak); most = most }

  store_peak :
      (t : TimeApi Time) (now : Time) (n b : ℕ) (s : BundleStore)
      → ¬ Has b s.m_store
      → suc n < 2 ^ 32
      → IsWithin n s
      → (store look seq_lt t now b s).0.max_bundles_stored ≤ suc n
  unfolding store
  store_peak t now n b s new few w = elim (Bool-cases (t.is_zero (look b).life_time)) [
    | inl e ↦ rw e (stored_peak n b s new few w)
    | inr e ↦ elim (Bool-cases (t.is_positive time_left)) [
      | inl p ↦ rw e (rw p (stored_peak n b s new few w))
      | inr p ↦ rw e (rw p (omega (arith, w.most)))
    ]
  ]
    where
      time_left : Time
      time_left = t.sub (t.add (t.seconds (look b).create_timestamp) (look b).life_time) now

  remove-peak :
      (b : ℕ) (s : BundleStore) → (remove look seq_lt b s).max_bundles_stored ≡ s.max_bundles_stored
  unfolding remove
  remove-peak b s = elim (Option-cases (erase? (less look seq_lt) b s.m_store)) [
    | inl e ↦ rw e refl
    | inr (m, e) ↦ rw e refl
  ]

  remove-IsWithin :
      (n b : ℕ) (s : BundleStore) → IsWithin n s → IsWithin (suc n) (remove look seq_lt b s)
  remove-IsWithin n b s w =
      valid-IsWithin (suc n) (remove look seq_lt b s)
        (remove-IsValid look seq_lt seqs unset b s w.valid) (omega (arith, w.most, remove-peak b s))

  Step-IsWithin :
      (n : ℕ) (s s' : BundleStore) → suc n < 2 ^ 32 → IsWithin n s → Step s s' → IsWithin (suc n) s'
  unfolding get_and_remove_bundle
  Step-IsWithin n s s' few w (stores t now b new) =
      valid-IsWithin (suc n) (store look seq_lt t now b s).0
        (store-IsValid look seq_lt seqs unset t now b s new (omega (arith, w.held)) w.valid)
        (store_peak t now n b s new few w)
  Step-IsWithin n s s' few w (removes b) = remove-IsWithin n b s w
  Step-IsWithin n s s' few w (takes eid frag_ok) =
      elim (Option-cases (first_such look (deliverable look seq_lt eid frag_ok) s.m_store)) [
        | inl e ↦ rw e (later-IsWithin n s w)
        | inr (b, e) ↦ rw e (remove-IsWithin n b s w)
      ]

  -- A store that any calls have made of a new one, whose byte count starts at what the memory held,
  -- is in order and counts the bytes of its bundles on top of that, in 64 bits; its peak is at
  -- least the number of its bundles and at most that of the calls. The calls are fewer than 2 ^ 32,
  -- none stores a bundle that the store has, and the bundles stay as they are, with sequence
  -- numbers that `<` orders.
  pub Reach-IsWithin :
      (n : ℕ) (s : BundleStore) → unset < 2 ^ 64 → n < 2 ^ 32 → Reach n s → IsWithin n s
  Reach-IsWithin n s held few starts = record {
    valid = record { sorted = tt; bytes = omega arith; peak = omega arith };
    held = omega arith;
    most = omega arith;
  }
  Reach-IsWithin n s held few (steps m before s' r step) =
      Step-IsWithin m before s few (Reach-IsWithin m before held (omega arith) r) step
