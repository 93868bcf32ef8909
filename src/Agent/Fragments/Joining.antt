-- ===== src/Agent/Fragments/Joining.antt =====
-- A fragment that follows the one stored fragment of its bundle is joined to it.
use ns3_dtn.Prelude.{
  ℕ, ◌+◌, ◌^◌, ◌<◌, ◌≤◌, ◌≡◌, refl, ap, sym, ◌∙◌, Bool, true, false, arith, List, [], ◌∷◌, Option,
  some, length, ◌==◌, bytes_eq_iff,
}
use mathlib.Core.Path.{subst}
use ns3_dtn.BundleStore.{
  View, less, insert, erase?, remove, removed, get_bundles, is_from, all_such,
}
use ns3_dtn.Forward.{Bundle6}
use ns3_dtn.Agent.{Simulator, Agent, look, write}
use ns3_dtn.Agent.Fragments.{add_at_end, whole_if, end_of, absorb, join_step, join_all, prev_frags}

-- Two bundles with the same keys but for the offset.
pub record Follows {Time : Type 0} (x y : View Time) : Type 0 where
  pub same_priority : y.priority ≡ x.priority
  pub same_timestamp : y.create_timestamp ≡ x.create_timestamp
  pub same_number : y.sequence_number ≡ x.sequence_number
  pub same_source : y.source ≡ x.source
  pub behind : x.frag_offset < y.frag_offset

module _ {Time : Type 0} (look : ℕ → View Time) (seq_lt : ℕ → ℕ → Bool) (p q : ℕ) where
  less_behind :
      Follows (look p) (look q) → (less look seq_lt p q ≡ true) × (less look seq_lt q p ≡ false)
  less_behind f = (
    ground (arith, f.same_priority, f.same_timestamp, f.same_number, f.behind),
    ground (arith, f.same_priority, f.same_timestamp, f.same_number, f.behind),
  )

  pub less_itself : less look seq_lt q q ≡ false
  less_itself = ground (arith, bytes_eq_iff (look q).source.uri (look q).source.uri)

  -- The store's set with both, and without the later one again.
  pub insert_behind : Follows (look p) (look q) → insert (less look seq_lt) q (p ∷ []) ≡ p ∷ q ∷ []
  unfolding insert
  insert_behind f = rw ((less_behind f).1, (less_behind f).0) refl

  erase_behind :
      Follows (look p) (look q) → erase? (less look seq_lt) q (p ∷ q ∷ []) ≡ some (p ∷ [])
  unfolding erase?
  erase_behind f = rw ((less_behind f).0, less_itself) refl

module _ {Time : Type 0} (look : ℕ → View Time) where
  own_found :
      (q : ℕ)
      → all_such look
          (is_from look (look q).source (look q).create_timestamp (look q).sequence_number)
          (q ∷ [])
        ≡ q ∷ []
  unfolding all_such
  own_found q = ground (arith, bytes_eq_iff (look q).source.uri (look q).source.uri)

  both_found :
      (p q : ℕ)
      → Follows (look p) (look q)
      → all_such look
          (is_from look (look q).source (look q).create_timestamp (look q).sequence_number)
          (p ∷ q ∷ [])
        ≡ p ∷ q ∷ []
  unfolding all_such
  both_found p q f = ground (
    arith,
    f.same_timestamp,
    f.same_number,
    f.same_source,
    bytes_eq_iff (look p).source.uri (look q).source.uri,
    bytes_eq_iff (look q).source.uri (look q).source.uri,
  )

-- A new fragment is not joined with itself.
module _ {Time : Type 0} (sim : Simulator Time) (q : ℕ) (b : Agent Time)
    (some_bytes : 1 ≤ length (b.heap q).adu)
    (fits : (b.heap q).header.frag_offset + length (b.heap q).adu < 2 ^ 32) where
  pub join_step-itself : join_step sim q b q ≡ b
  unfolding join_step
  join_step-itself = rw (before, after) refl
    where
      before : ((b.heap q).header.frag_offset == end_of (b.heap q)) ≡ false
      before = ground (arith, some_bytes, fits)

      after : (end_of (b.heap q) == (b.heap q).header.frag_offset) ≡ false
      after = ground (arith, some_bytes, fits)

-- The fragments that the loop goes over.
module _ {Time : Type 0} (p q : ℕ) (c : Agent Time) where
  pub prev_frags-alone : c.bundle_store.m_store ≡ q ∷ [] → prev_frags q c ≡ q ∷ []
  unfolding get_bundles
  prev_frags-alone set =
      ap
        (all_such (look c) (
          is_from (look c) (look c q).source (look c q).create_timestamp
            (look c q).sequence_number))
        set
      ∙ alone
    where
      alone :
          all_such
            (look c)
            (is_from
              (look c)
              (look c q).source
              (look c q).create_timestamp
              (look c q).sequence_number)
            (q ∷ [])
          ≡ q ∷ []
      alone = own_found (look c) q

  pub prev_frags-pair :
      c.bundle_store.m_store ≡ p ∷ q ∷ []
      → Follows (look c p) (look c q)
      → prev_frags q c ≡ p ∷ q ∷ []
  unfolding get_bundles
  prev_frags-pair set follows =
      ap
        (all_such (look c) (
          is_from (look c) (look c q).source (look c q).create_timestamp
            (look c q).sequence_number))
        set
      ∙ both_found (look c) p q follows

-- The stored fragment at `p` and the new one, at `q`, which starts where the first one ends.
module _ {Time : Type 0} (sim : Simulator Time) (p q : ℕ) (a : Agent Time) (apart : p < q)
    (follows : Follows (look a p) (look a q))
    (meets : (a.heap q).header.frag_offset ≡ end_of (a.heap p))
    (some_bytes : 1 ≤ length (a.heap q).adu)
    (fits : (a.heap q).header.frag_offset + length (a.heap q).adu < 2 ^ 32) where
  other : (p == q) ≡ false
  other = ground (arith, apart)

  own : (p == p) ≡ true
  own = ground arith

  pub absorb-new : (absorb sim p q a).heap q ≡ a.heap q
  absorb-new = rw other refl

  join_step-stored : join_step sim q a p ≡ absorb sim p q a
  unfolding join_step
  join_step-stored = rw test refl
    where
      test : ((a.heap q).header.frag_offset == end_of (a.heap p)) ≡ true
      test = ground (arith, meets)

  -- The loop joins the two and does nothing more.
  pub join_all-pair : join_all sim q (p ∷ q ∷ []) a ≡ absorb sim p q a
  unfolding join_all
  join_all-pair = rw join_step-stored (
      join_step-itself sim q (absorb sim p q a)
        (subst (λ (b : Bundle6 Time). 1 ≤ length b.adu) (sym absorb-new) some_bytes)
        (subst (λ (b : Bundle6 Time). b.header.frag_offset + length b.adu < 2 ^ 32) (sym absorb-new)
          fits))

  -- The stored bundle alone is left in the store.
  pub absorb-set :
      a.bundle_store.m_store ≡ p ∷ q ∷ [] → (absorb sim p q a).bundle_store.m_store ≡ p ∷ []
  unfolding remove
  absorb-set set =
      ap (λ (o : Option (List ℕ)). (removed joined sim.seq_lt q a.bundle_store o).m_store)
        (ap (erase? (less joined sim.seq_lt) q) set ∙ erase_behind joined sim.seq_lt p q still)
    where
      joined : ℕ → View Time
      joined = look (write p (add_at_end (a.heap q).adu (a.heap p)) a)

      still : Follows (joined p) (joined q)
      still = record {
        same_priority = rw (own, other) follows.same_priority;
        same_timestamp = rw (own, other) follows.same_timestamp;
        same_number = rw (own, other) follows.same_number;
        same_source = rw (own, other) follows.same_source;
        behind = rw (own, other) follows.behind;
      }

  pub absorb-stored : (absorb sim p q a).heap p ≡ whole_if (add_at_end (a.heap q).adu (a.heap p))
  absorb-stored = rw own refl
