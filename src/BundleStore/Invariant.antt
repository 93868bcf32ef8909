-- ===== src/BundleStore/Invariant.antt =====
-- What every operation of the store keeps.
use ns3_dtn.Prelude.{ℕ, suc, ◌+◌, ◌%◌, ◌^◌, ◌≤◌, ◌<◌, ◌≡◌, Bool, arith, inl, inr}
use ns3_dtn.Prelude.{List, some, length, if◌then◌else◌, ltb, Bool-cases, Option-cases}
use ns3_dtn.BundleStore.{
  BundleStore, View, TimeApi, insert, erase?, less, size_of, store, stored, remove, removed,
}
use ns3_dtn.BundleStore.Order.{StrictTotal, OrdersSeqs, less-StrictTotal}
use ns3_dtn.BundleStore.OrderedSet.{
  Has, sum_of, IsSorted, insert-IsSorted, insert-new, erase?-some, erase?-IsSorted,
}

module _ {Time : Type 0} (look : ℕ → View Time) (seq_lt : ℕ → ℕ → Bool)
    (seqs : OrdersSeqs look seq_lt) (unset : ℕ) where
  -- The set is in order, the byte count is that of the stored application data in 64 bits, and the
  -- peak has not been passed.
  pub record IsValid (s : BundleStore) : Type 0 where
    pub sorted : IsSorted (less look seq_lt) s.m_store
    pub bytes : s.stored_bytes ≡ (unset + sum_of (size_of look) s.m_store) % 2 ^ 64
    pub peak : length s.m_store ≤ s.max_bundles_stored

  order : StrictTotal (less look seq_lt)
  order = less-StrictTotal look seq_lt seqs

  stored-IsValid :
      (b : ℕ) (s : BundleStore)
      → ¬ Has b s.m_store
      → length s.m_store + 1 < 2 ^ 32
      → IsValid s
      → IsValid (stored look seq_lt b s)
  stored-IsValid b s new fits v =
      let (total, count) = insert-new order (size_of look) b s.m_store new in
      record {
        sorted = insert-IsSorted order b s.m_store v.sorted;
        bytes = omega (arith, v.bytes, total);
        peak = counted (length (insert (less look seq_lt) b s.m_store)) count;
      }
    where
      counted :
          (n : ℕ)
          → n ≡ suc (length s.m_store)
          → n ≤ (if ltb s.max_bundles_stored n then n % 2 ^ 32 else s.max_bundles_stored)
      counted n e = ground arith

  -- `Store` of a bundle that is not in the store keeps the store valid, also where it refuses the
  -- bundle because it has expired; there are fewer than 2 ^ 32 bundles.
  pub store-IsValid :
      (t : TimeApi Time) (now : Time) (b : ℕ) (s : BundleStore)
      → ¬ Has b s.m_store
      → length s.m_store + 1 < 2 ^ 32
      → IsValid s
      → IsValid (store look seq_lt t now b s).0
  unfolding store
  store-IsValid t now b s new fits v = elim (Bool-cases (t.is_zero (look b).life_time)) [
    | inl e ↦ rw e (stored-IsValid b s new fits v)
    | inr e ↦ elim (Bool-cases (t.is_positive time_left)) [
      | inl p ↦ rw e (rw p (stored-IsValid b s new fits v))
      | inr p ↦ rw e (rw p v)
    ]
  ]
    where
      time_left : Time
      time_left = t.sub (t.add (t.seconds (look b).create_timestamp) (look b).life_time) now

  removed-IsValid :
      (b : ℕ) (s : BundleStore) (m : List ℕ)
      → erase? (less look seq_lt) b s.m_store ≡ some m
      → IsValid s
      → IsValid (removed look seq_lt b s (some m))
  removed-IsValid b s m e v =
      let (total, count) = erase?-some order (size_of look) b s.m_store m e in
      record {
        sorted = erase?-IsSorted order b s.m_store m e v.sorted;
        bytes = omega (arith, v.bytes, total);
        peak = omega (arith, v.peak, count);
      }

  -- `Remove` keeps the store valid, whether the bundle is in it or not.
  pub remove-IsValid : (b : ℕ) (s : BundleStore) → IsValid s → IsValid (remove look seq_lt b s)
  unfolding remove
  remove-IsValid b s v = elim (Option-cases (erase? (less look seq_lt) b s.m_store)) [
    | inl e ↦ rw e v
    | inr (m, e) ↦ rw e (removed-IsValid b s m e v)
  ]
