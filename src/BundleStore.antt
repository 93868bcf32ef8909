-- ===== src/BundleStore.antt =====
-- model/bp-bundle-store.cc and bp-bundle-store.h: the bundles that a node keeps, a `std::set` of
-- pointers in the order of `BundlePriorityCompare`. A pointer is a number; what the store reads
-- through it, by the virtual getters of the headers, is `look`. `ssize_t` has 64 bits.
pub mod Order
pub mod OrderedSet
pub mod Invariant
pub mod Delivery
pub mod Runs
use ns3_dtn.Prelude.{ℕ, zero, suc, ◌+◌, ◌-◌, ◌%◌, ◌^◌, ◌≡◌, Bool, true, false, ◌&&◌, not}
use ns3_dtn.Prelude.{List, [], ◌∷◌, ◌++◌, Option, none, some, length, max, bit_and}
use ns3_dtn.Prelude.{ltb, ◌==◌, if◌then◌else◌, bytes_eq}
use ns3_dtn.EndpointId.{EndpointId, eid_eq, bytes_lt}

-- What the store reads from a bundle.
pub record View (Time : Type 0) : Type 0 where
  pub priority : ℕ
  pub create_timestamp : ℕ
  pub sequence_number : ℕ
  pub frag_offset : ℕ
  pub source : EndpointId
  pub destination : EndpointId
  pub is_fragment : Bool
  pub life_time : Time
  pub retention_constraints : ℕ
  pub adu : List ℕ

-- The operations of ns-3's `Time` that the store calls.
pub record TimeApi (Time : Type 0) : Type 0 where
  pub is_zero : Time → Bool
  pub seconds : ℕ → Time
  pub add : Time → Time → Time
  pub sub : Time → Time → Time
  pub is_positive : Time → Bool

-- `_BP_DISPATCH_PENDING`, `_BP_FORWARD_PENDING` and `_BP_CUSTODY_ACCEPTED`
abbrev pub bp_dispatch_pending : ℕ
bp_dispatch_pending = 1

abbrev pub bp_forward_pending : ℕ
bp_forward_pending = 2

abbrev pub bp_custody_accepted : ℕ
bp_custody_accepted = 4

pub record BundleStore : Type 0 where
  pub m_store : List ℕ
  pub max_bundles_stored : ℕ
  pub stored_bytes : ℕ

-- `BundleStore ()`, which leaves `m_storedBytes` as it is in memory.
abbrev pub new_store : ℕ → BundleStore
new_store unset = record { m_store = []; max_bundles_stored = 0; stored_bytes = unset }

abbrev pub get_max_bundles_stored : BundleStore → ℕ
get_max_bundles_stored s = s.max_bundles_stored

abbrev pub get_stored_byte_count : BundleStore → ℕ
get_stored_byte_count s = s.stored_bytes

-- One key of the comparison: where the keys differ they decide, else the rest does.
abbrev pub by_key :
    {A K : Type 0} → (A → K) → (K → K → Bool) → (K → K → Bool) → (A → A → Bool) → A → A → Bool
by_key key key_eq key_lt rest a b =
    if not (key_eq (key a) (key b)) then key_lt (key a) (key b) else rest a b

-- `std::set::insert`: nothing changes if an equivalent element is there.
unfoldable pub insert : {A : Type 0} → (A → A → Bool) → A → List A → List A
insert lt x [] = x ∷ []
insert lt x (y ∷ ys) =
    let rest = insert lt x ys in if lt x y then x ∷ y ∷ ys else if lt y x then y ∷ rest else y ∷ ys

-- `std::set::find` and `std::set::erase` of what it found; `none` where it finds `end ()`.
unfoldable pub erase? : {A : Type 0} → (A → A → Bool) → A → List A → Option (List A)
erase? lt x [] = none
erase? lt x (y ∷ ys) =
    let rest : Option (List _) = elim (erase? lt x ys) [ none ↦ none | some zs ↦ some (y ∷ zs) ] in
    if lt y x then rest else if lt x y then none else some ys

module _ {Time : Type 0} (look : ℕ → View Time) where
  -- The set's loops: the first element that passes a test, and all that pass it.
  unfoldable pub first_such : (View Time → Bool) → List ℕ → Option ℕ
  first_such p [] = none
  first_such p (b ∷ bs) = let rest = first_such p bs in if p (look b) then some b else rest

  unfoldable pub all_such : (View Time → Bool) → List ℕ → List ℕ
  all_such p [] = []
  all_such p (b ∷ bs) = let rest = all_such p bs in if p (look b) then b ∷ rest else rest

  abbrev pub size_of : ℕ → ℕ
  size_of b = length (look b).adu

  -- `GetBundleADU`
  unfoldable pub get_bundle_adu : EndpointId → BundleStore → Option (List ℕ)
  unfolding first_such
  get_bundle_adu eid s = elim (first_such (λ v. eid_eq v.destination eid) s.m_store) [
    | none ↦ none
    | some b ↦ some (look b).adu
  ]

  -- The test of `GetBundle` and `GetBundles`.
  abbrev pub is_from : EndpointId → ℕ → ℕ → View Time → Bool
  is_from src ts seqno v =
      eid_eq v.source src && v.create_timestamp == ts && v.sequence_number == seqno

  unfoldable pub get_bundle : EndpointId → ℕ → ℕ → BundleStore → Option ℕ
  unfolding first_such
  get_bundle src ts seqno s = first_such (is_from src ts seqno) s.m_store

  unfoldable pub get_bundles : EndpointId → ℕ → ℕ → BundleStore → List ℕ
  unfolding all_such
  get_bundles src ts seqno s = all_such (is_from src ts seqno) s.m_store

  abbrev pub is_pending :
      {Cla : Type 0} → (Cla → Cla → Bool) → Cla → (EndpointId → Cla) → View Time → Bool
  is_pending same cla outgoing_cla v =
      bit_and v.retention_constraints bp_forward_pending == bp_forward_pending
      && same (outgoing_cla v.destination) cla

  -- `GetForwardPendingBundles`; `outgoing_cla` is the callback and `same` compares its results.
  unfoldable pub get_forward_pending_bundles :
      {Cla : Type 0} → (Cla → Cla → Bool) → Cla → (EndpointId → Cla) → BundleStore → List ℕ
  unfolding all_such
  get_forward_pending_bundles same cla outgoing_cla s =
      all_such (is_pending same cla outgoing_cla) s.m_store

  -- `seq_lt` is the `<` of `SequenceNumber32`.
  module _ (seq_lt : ℕ → ℕ → Bool) where
    -- `BundlePriorityCompare`
    abbrev pub less : ℕ → ℕ → Bool
    less =
        by_key (λ b. (look b).priority) ◌==◌ ltb
          (by_key (λ b. (look b).create_timestamp) ◌==◌ ltb
            (by_key (λ b. (look b).sequence_number) ◌==◌ seq_lt
              (by_key (λ b. (look b).frag_offset) ◌==◌ ltb
                (by_key (λ b. (look b).source.uri) bytes_eq bytes_lt ltb))))

    -- The set, its peak and the byte count with one more bundle.
    abbrev pub stored : ℕ → BundleStore → BundleStore
    stored b s = record {
      m_store = insert less b s.m_store;
      max_bundles_stored =
          if ltb s.max_bundles_stored (length (insert less b s.m_store))
          then length (insert less b s.m_store) % 2 ^ 32
          else s.max_bundles_stored;
      stored_bytes = (s.stored_bytes + size_of b) % 2 ^ 64;
    }

    -- `Store`, at the time `now`, with the delay after which the bundle will expire, if any.
    unfoldable pub store : TimeApi Time → Time → ℕ → BundleStore → BundleStore × Option Time
    store t now b s =
        let v = look b in
        let time_left = t.sub (t.add (t.seconds v.create_timestamp) v.life_time) now in
        if t.is_zero v.life_time
        then (stored b s, none)
        else if t.is_positive time_left
        then (stored b s, some time_left)
        else (s, none)

    -- `Remove`, after the set was searched; the bundle's events are cancelled besides.
    abbrev pub removed : ℕ → BundleStore → Option (List ℕ) → BundleStore
    removed b s none = s
    removed b s (some m) = record s {
      m_store = m;
      stored_bytes = (s.stored_bytes + (2 ^ 64 - size_of b % 2 ^ 64)) % 2 ^ 64;
    }

    unfoldable pub remove : ℕ → BundleStore → BundleStore
    remove b s = removed b s (erase? less b s.m_store)

    -- `Expire`, which disposes of the bundle besides.
    abbrev pub expire : ℕ → BundleStore → BundleStore
    expire = remove

    -- `GetAndRemoveBundle`, and its loop's outcome.
    abbrev pub deliverable : EndpointId → Bool → View Time → Bool
    deliverable eid frag_ok v = eid_eq v.destination eid && not (v.is_fragment && not frag_ok)

    abbrev pub taken : BundleStore → Option ℕ → BundleStore × Option (List ℕ)
    taken s none = (s, none)
    taken s (some b) = (remove b s, some (look b).adu)

    unfoldable pub get_and_remove_bundle :
        EndpointId → Bool → BundleStore → BundleStore × Option (List ℕ)
    get_and_remove_bundle eid frag_ok s = taken s (first_such (deliverable eid frag_ok) s.m_store)
