-- ===== src/BundleStore/Delivery.antt =====
-- Which bundle an application gets, and which bundles are found.
use ns3_dtn.Prelude.{ℕ, ◌≡◌, refl, ap, ◌∙◌, Bool, true, false, arith, ◌⊎◌, inl, inr, ◌↔◌}
use ns3_dtn.Prelude.{
  List, [], ◌∷◌, ◌++◌, Option, none, some, All, Bool-cases, Option-cases, bit_and, bytes_eq_iff,
}
use mathlib.Core.Path.{subst}
use ns3_dtn.EndpointId.{EndpointId}
use ns3_dtn.BundleStore.{
  BundleStore, View, less, remove, removed, get_and_remove_bundle, first_such, all_such, taken,
  erase?, is_pending, deliverable, get_forward_pending_bundles, bp_forward_pending,
}
use ns3_dtn.BundleStore.Order.{OrdersSeqs, less-StrictTotal}
use ns3_dtn.BundleStore.OrderedSet.{Has, IsSorted, erase?-split, erase?-Has}
use ns3_dtn.BundleStore.Invariant.{IsValid}

module _ {Time : Type 0} (look : ℕ → View Time) where
  -- What an application for `eid` may get.
  abbrev pub IsFor : EndpointId → Bool → ℕ → Type 0
  IsFor eid frag_ok b =
      ((look b).destination.uri ≡ eid.uri) × (((look b).is_fragment ≡ false) ⊎ (frag_ok ≡ true))

  abbrev pub Fails : (View Time → Bool) → List ℕ → Type 0
  Fails p = All (λ b. p (look b) ≡ false)

  -- The first element that passes, with those in front of it and behind it.
  pub first_such_cases :
      (p : View Time → Bool) (bs : List ℕ)
      → (Fails p bs × (first_such look p bs ≡ none))
        ⊎ ((front : List ℕ) × (b : ℕ) × (back : List ℕ) × (bs ≡ front ++ (b ∷ back))
            × Fails p front
            × (p (look b) ≡ true)
            × (first_such look p bs ≡ some b))
  unfolding first_such
  first_such_cases p [] = inl (tt, refl)
  first_such_cases p (x ∷ bs) = elim (Bool-cases (p (look x))) [
    | inl e ↦ inr ([], x, bs, refl, tt, e, rw e)
    | inr e ↦ elim (first_such_cases p bs) [
      | inl (fails, n) ↦ inl ((e, fails), rw e n)
      | inr (front, b, back, split, fails, pass, found) ↦
          inr (x ∷ front, b, back, ap (◌∷◌ x) split, (e, fails), pass, rw e found)
    ]
  ]

  module _ (seq_lt : ℕ → ℕ → Bool) (seqs : OrdersSeqs look seq_lt) (unset : ℕ) where
    -- `Remove` of a stored bundle takes it, and nothing else, out of the set.
    remove-split :
        (front : List ℕ) (b : ℕ) (back : List ℕ) (s : BundleStore)
        → s.m_store ≡ front ++ (b ∷ back)
        → IsValid look seq_lt seqs unset s
        → (remove look seq_lt b s).m_store ≡ front ++ back
    unfolding remove
    remove-split front b back s split v =
        ap (λ (o : Option (List ℕ)). (removed look seq_lt b s o).m_store)
          (ap (erase? (less look seq_lt) b) split
            ∙ erase?-split (less-StrictTotal look seq_lt seqs) b front back
                (subst (IsSorted (less look seq_lt)) split v.sorted))

    deliverable_iff :
        (eid : EndpointId) (frag_ok : Bool) (b : ℕ)
        → (deliverable look seq_lt eid frag_ok (look b) ≡ true) ↔ IsFor eid frag_ok b
    deliverable_iff eid frag_ok b = ground (arith, bytes_eq_iff (look b).destination.uri eid.uri)

    Fails-IsFor :
        (eid : EndpointId) (frag_ok : Bool) (bs : List ℕ)
        → Fails (deliverable look seq_lt eid frag_ok) bs
        → All (λ b. ¬ IsFor eid frag_ok b) bs
    Fails-IsFor eid frag_ok [] h = tt
    Fails-IsFor eid frag_ok (b ∷ bs) (fails, more) = (
      λ is_for. ground (arith, (deliverable_iff eid frag_ok b).1 is_for),
      Fails-IsFor eid frag_ok bs more,
    )

    -- `GetAndRemoveBundle` on a valid store returns the application data of the first bundle in the
    -- store's order that has the destination's URI and, unless fragments are allowed, is no
    -- fragment; it takes that bundle out and leaves the others in their order. If there is none it
    -- returns a null pointer and changes nothing. `<` orders the sequence numbers of the bundles.
    pub get_and_remove_bundle_first :
        (eid : EndpointId) (frag_ok : Bool) (s : BundleStore)
        → IsValid look seq_lt seqs unset s
        → let result = get_and_remove_bundle look seq_lt eid frag_ok s in
          (All (λ b. ¬ IsFor eid frag_ok b) s.m_store × (result ≡ (s, none)))
          ⊎ ((front : List ℕ) × (b : ℕ) × (back : List ℕ) × (s.m_store ≡ front ++ (b ∷ back))
              × All (λ x. ¬ IsFor eid frag_ok x) front
              × IsFor eid frag_ok b
              × (result.0.m_store ≡ front ++ back)
              × (result.1 ≡ some (look b).adu))
    unfolding get_and_remove_bundle
    get_and_remove_bundle_first eid frag_ok s v =
        elim (first_such_cases (deliverable look seq_lt eid frag_ok) s.m_store) [
          | inl (fails, n) ↦
              inl (Fails-IsFor eid frag_ok s.m_store fails, ap (taken look seq_lt s) n)
          | inr (front, b, back, split, fails, pass, found) ↦ inr (
            front,
            b,
            back,
            split,
            Fails-IsFor eid frag_ok front fails,
            (deliverable_iff eid frag_ok b).0 pass,
            ap (λ (o : Option ℕ). (taken look seq_lt s o).0.m_store) found
                ∙ remove-split front b back s split v,
            ap (λ (o : Option ℕ). (taken look seq_lt s o).1) found,
          )
        ]

  -- What a search finds is there.
  pub first_such-Has :
      (p : View Time → Bool) (b : ℕ) (bs : List ℕ) → first_such look p bs ≡ some b → Has b bs
  unfolding first_such
  first_such-Has p b [] found = absurd cc
  first_such-Has p b (x ∷ bs) found = elim (Bool-cases (p (look x))) [
    | inl e ↦ inl (ground (arith, found, e))
    | inr e ↦ inr (first_such-Has p b bs (rw e at found))
  ]

  -- `Remove` leaves the other bundles in the store.
  pub remove-Has :
      (seq_lt : ℕ → ℕ → Bool) (seqs : OrdersSeqs look seq_lt) (q p : ℕ) (s : BundleStore)
      → ¬ (q ≡ p)
      → Has p s.m_store
      → Has p (remove look seq_lt q s).m_store
  unfolding remove
  remove-Has seq_lt seqs q p s other h =
      elim (Option-cases (erase? (less look seq_lt) q s.m_store)) [
        | inl e ↦ rw e h
        | inr (m, e) ↦
            rw e (erase?-Has (less-StrictTotal look seq_lt seqs) q p s.m_store m e other h)
      ]

  all_such→ :
      (p : View Time → Bool) (b : ℕ) (bs : List ℕ)
      → Has b (all_such look p bs)
      → Has b bs × (p (look b) ≡ true)
  unfolding all_such
  all_such→ p b [] h = absurd h
  all_such→ p b (x ∷ bs) h = elim (Bool-cases (p (look x))) [
    | inl e ↦ elim (rw e at h) [
      | inl same ↦ (inl same, rw same e)
      | inr q ↦ let (m, t) = all_such→ p b bs q in (inr m, t)
    ]
    | inr e ↦ let (m, t) = all_such→ p b bs (rw e at h) in (inr m, t)
  ]

  all_such← :
      (p : View Time → Bool) (b : ℕ) (bs : List ℕ)
      → Has b bs
      → p (look b) ≡ true
      → Has b (all_such look p bs)
  unfolding all_such
  all_such← p b [] h t = absurd h
  all_such← p b (x ∷ bs) (inl same) t = rw (rw same at t) (inl same)
  all_such← p b (x ∷ bs) (inr m) t = elim (Bool-cases (p (look x))) [
    | inl e ↦ rw e (inr (all_such← p b bs m t))
    | inr e ↦ rw e (all_such← p b bs m t)
  ]

  -- `GetForwardPendingBundles` lists exactly the stored bundles that have the forward pending
  -- constraint and whose destination the callback sends to the given CLA.
  pub get_forward_pending_bundles_iff :
      {Cla : Type 0} (same : Cla → Cla → Bool) (cla : Cla) (outgoing_cla : EndpointId → Cla) (b : ℕ)
      (s : BundleStore)
      → Has b (get_forward_pending_bundles look same cla outgoing_cla s) ↔ (
          Has b s.m_store
          × (bit_and (look b).retention_constraints bp_forward_pending ≡ bp_forward_pending)
          × (same (outgoing_cla (look b).destination) cla ≡ true))
  unfolding get_forward_pending_bundles
  get_forward_pending_bundles_iff same cla outgoing_cla b s = (
    λ h.
        let (m, t) = all_such→ (is_pending look same cla outgoing_cla) b s.m_store h in
        (m, ground arith, ground arith),
    λ h.
        let (m, pending, sent) = h in
        all_such← (is_pending look same cla outgoing_cla) b s.m_store m (ground arith),
  )
