-- ===== src/BundleStore/Order.antt =====
-- `BundlePriorityCompare` is a strict total order of the bundles, as `std::set` requires.
use ns3_dtn.Prelude.{ℕ, ◌≡◌, refl, Bool, true, false, arith, List, [], ◌∷◌}
use ns3_dtn.Prelude.{ltb, ◌==◌, ==_iff, bytes_eq, bytes_eq_iff, ◌↔◌}
use ns3_dtn.EndpointId.{bytes_lt}
use ns3_dtn.BundleStore.{View, by_key, less}

pub record StrictTotal {A : Type 0} (lt : A → A → Bool) : Type 0 where
  pub irrefl : (a : A) → lt a a ≡ false
  pub trans : (a b c : A) → lt a b ≡ true → lt b c ≡ true → lt a c ≡ true
  pub total : (a b : A) → lt a b ≡ false → lt b a ≡ false → a ≡ b

-- An order of keys, as far as it compares the keys that there are.
pub record StrictOn {A K : Type 0} (key : A → K) (lt : K → K → Bool) : Type 0 where
  pub irrefl : (a : A) → lt (key a) (key a) ≡ false
  pub trans :
      (a b c : A)
      → lt (key a) (key b) ≡ true
      → lt (key b) (key c) ≡ true
      → lt (key a) (key c) ≡ true
  pub total : (a b : A) → lt (key a) (key b) ≡ false → lt (key b) (key a) ≡ false → key a ≡ key b

-- `<` orders the sequence numbers of the bundles. The one of `SequenceNumber32` does if they lie
-- within half of the circle of 32-bit numbers.
abbrev pub OrdersSeqs : {Time : Type 0} → (ℕ → View Time) → (ℕ → ℕ → Bool) → Type 0
OrdersSeqs look seq_lt = StrictOn (λ (b : ℕ). (look b).sequence_number) seq_lt

-- Keys that are the same are ordered the same.
pub same-StrictOn :
    {A K : Type 0} (key key' : A → K) {lt : K → K → Bool}
    → ((a : A) → key' a ≡ key a)
    → StrictOn key lt
    → StrictOn key' lt
same-StrictOn key key' same order = record {
  irrefl = λ a. rw (same a) (order.irrefl a);
  trans = λ a b c. rw (same a, same b, same c) (order.trans a b c);
  total = λ a b. rw (same a, same b) (order.total a b);
}

pub everywhere : {A K : Type 0} (key : A → K) {lt : K → K → Bool} → StrictTotal lt → StrictOn key lt
everywhere key order = record {
  irrefl = λ a. order.irrefl (key a);
  trans = λ a b c. order.trans (key a) (key b) (key c);
  total = λ a b. order.total (key a) (key b);
}

pub ltb-StrictTotal : StrictTotal ltb
ltb-StrictTotal = record {
  irrefl = λ a. ground arith;
  trans = λ a b c p q. ground arith;
  total = λ a b p q. ground arith;
}

bytes_lt_irrefl : (s : List ℕ) → bytes_lt s s ≡ false
unfolding bytes_lt
bytes_lt_irrefl [] = refl
bytes_lt_irrefl (x ∷ s) = ground (arith, bytes_lt_irrefl s)

bytes_lt_trans : (s t u : List ℕ) → bytes_lt s t ≡ true → bytes_lt t u ≡ true → bytes_lt s u ≡ true
unfolding bytes_lt
bytes_lt_trans s [] u p q = cc
bytes_lt_trans s (y ∷ t) [] p q = cc
bytes_lt_trans [] (y ∷ t) (z ∷ u) p q = refl
bytes_lt_trans (x ∷ s) (y ∷ t) (z ∷ u) p q = ground (arith, bytes_lt_trans s t u)

bytes_lt-total : (s t : List ℕ) → bytes_lt s t ≡ false → bytes_lt t s ≡ false → s ≡ t
unfolding bytes_lt
bytes_lt-total [] [] p q = refl
bytes_lt-total [] (y ∷ t) p q = cc
bytes_lt-total (x ∷ s) [] p q = cc
bytes_lt-total (x ∷ s) (y ∷ t) p q = ground (arith, bytes_lt-total s t)

bytes_lt-StrictTotal : StrictTotal bytes_lt
bytes_lt-StrictTotal = record {
  irrefl = bytes_lt_irrefl;
  trans = bytes_lt_trans;
  total = bytes_lt-total;
}

module _ {A K : Type 0} (key : A → K) (key_eq : K → K → Bool)
    (key_eq_iff : (a b : K) → (key_eq a b ≡ true) ↔ (a ≡ b)) {key_lt : K → K → Bool}
    (keys : StrictOn key key_lt) {rest : A → A → Bool} (others : StrictTotal rest) where
  by_key_trans :
      (a b c : A)
      → by_key key key_eq key_lt rest a b ≡ true
      → by_key key key_eq key_lt rest b c ≡ true
      → by_key key key_eq key_lt rest a c ≡ true
  by_key_trans a b c p q = ground (
    arith,
    key_eq_iff (key a) (key b),
    key_eq_iff (key b) (key c),
    key_eq_iff (key a) (key c),
    keys.irrefl a,
    keys.trans a b c,
    keys.trans a b a,
    others.trans a b c,
  )

  by_key-StrictTotal : StrictTotal (by_key key key_eq key_lt rest)
  by_key-StrictTotal = record {
    irrefl = λ a. ground (arith, key_eq_iff (key a) (key a), others.irrefl a);
    trans = by_key_trans;
    total = λ a b p q. ground (
      arith,
      key_eq_iff (key a) (key b),
      key_eq_iff (key b) (key a),
      keys.total a b,
      others.total a b,
    );
  }

-- `BundlePriorityCompare` compares as a strict total order of the bundles' addresses, if `<` orders
-- the sequence numbers that the bundles have.
pub less-StrictTotal :
    {Time : Type 0} (look : ℕ → View Time) (seq_lt : ℕ → ℕ → Bool)
    → OrdersSeqs look seq_lt
    → StrictTotal (less look seq_lt)
less-StrictTotal look seq_lt seqs =
    by_key-StrictTotal (λ b. (look b).priority) ◌==◌ ==_iff
      (everywhere (λ b. (look b).priority) ltb-StrictTotal)
      (by_key-StrictTotal (λ b. (look b).create_timestamp) ◌==◌ ==_iff
        (everywhere (λ b. (look b).create_timestamp) ltb-StrictTotal)
        (by_key-StrictTotal (λ b. (look b).sequence_number) ◌==◌ ==_iff seqs
          (by_key-StrictTotal (λ b. (look b).frag_offset) ◌==◌ ==_iff
            (everywhere (λ b. (look b).frag_offset) ltb-StrictTotal)
            (by_key-StrictTotal (λ b. (look b).source.uri) bytes_eq bytes_eq_iff
              (everywhere (λ b. (look b).source.uri) bytes_lt-StrictTotal) ltb-StrictTotal))))
