-- ===== src/Agent/Custody/Released.antt =====
-- What the signal that one node sends does to the bundle at its custodian.
use ns3_dtn.Prelude.{
  ℕ, ◌+◌, ◌*◌, ◌%◌, ◌^◌, ◌<◌, ◌≡◌, ◌⊎◌, inl, inr, refl, ap, sym, ◌∙◌, arith, Bool, true, false,
  List, [], ◌∷◌, Option, some, ◌>>=◌, drop, if◌then◌else◌, ◌==◌, bit_and, Bool-cases, length,
}
use mathlib.Core.Path.{subst}
use mathlib.Core.Option.{some-injective}
use mathlib.Core.List.{append-nil}
use ns3_dtn.EndpointId.{EndpointId, from_uri}
use ns3_dtn.Header.{is_fragment}
use ns3_dtn.Header6.{Header6}
use ns3_dtn.BundleStore.{View, first_such, get_bundle, is_from, remove}
use ns3_dtn.BundleStore.Order.{OrdersSeqs, same-StrictOn}
use ns3_dtn.BundleStore.OrderedSet.{Has}
use ns3_dtn.BundleStore.Delivery.{first_such-Has, remove-Has}
use ns3_dtn.CustodySignal.{CustodySignal, bp_ar_cs, encode, deserialize, get_serialized_size}
use ns3_dtn.CustodySignal.Laws.{Fits, deserialize-encode}
use ns3_dtn.Forward.{Bundle6}
use ns3_dtn.Agent.{Simulator, Agent, look, view, write, remove_at}
use ns3_dtn.Agent.Custody.{
  combine, extend_acks, fully_acked, acknowledge, acknowledge_found, take_signal, read_record,
  deliver_to_agent, signal_of, signal_length, signal_flags, signal_bytes,
}

first_such-same :
    {Time : Type 0} (f g : ℕ → View Time) (test : View Time → Bool)
    → ((r : ℕ) → test (f r) ≡ test (g r))
    → (bs : List ℕ) → first_such f test bs ≡ first_such g test bs
unfolding first_such
first_such-same f g test same [] = refl
first_such-same f g test same (b ∷ bs) = rw (same b, first_such-same f g test same bs) refl

module _ {Time : Type 0} (sim : Simulator Time) where
  -- Data that a bundle loses does not change which bundle a signal finds.
  get_bundle-shortened :
      (q : ℕ) (bytes : List ℕ) (eid : EndpointId) (ts seqno : ℕ) (a : Agent Time)
      → let a' = write q (record (a.heap q) { adu = bytes }) a in
        get_bundle (look a') eid ts seqno a.bundle_store
        ≡ get_bundle (look a) eid ts seqno a.bundle_store
  unfolding get_bundle
  get_bundle-shortened q bytes eid ts seqno a =
      first_such-same (look after) (look a) test same a.bundle_store.m_store
    where
      after : Agent Time
      after = write q (record (a.heap q) { adu = bytes }) a

      test : View Time → Bool
      test = is_from (look a) eid ts seqno

      same :
          (r : ℕ)
          → test (view (if q == r then record (a.heap q) { adu = bytes } else a.heap r))
            ≡ test (look a r)
      same r = elim (Bool-cases (q == r)) [
        | inl e ↦ rw e (ap (λ (k : ℕ). test (look a k)) (ground (arith, e)))
        | inr e ↦ rw e refl
      ]

  itself : (p : ℕ) → (p == p) ≡ true
  itself p = ground arith

  flags_cs :
      (h : Header6 Time) → (bit_and (signal_flags sim h).type_flags (bp_ar_cs * 2 ^ 4) == 0) ≡ false
  flags_cs h = elim (Bool-cases (is_fragment h.base)) [ inl e ↦ rw e refl | inr e ↦ rw e refl ]

  still_nothing :
      (acks : List (ℕ × ℕ)) → (acks ≡ []) ⊎ (acks ≡ (0, 0) ∷ []) → combine (0, 0) acks ≡ (0, 0) ∷ []
  unfolding combine extend_acks
  still_nothing acks (inl e) = rw e refl
  still_nothing acks (inr e) = rw e refl

  -- A range of no bytes at the start of a bundle that has bytes acknowledges nothing.
  acknowledge-nothing :
      (p : ℕ) (c : Agent Time)
      → 0 < (c.heap p).header.adu_length
      → ((c.heap p).acks ≡ []) ⊎ ((c.heap p).acks ≡ (0, 0) ∷ [])
      → acknowledge sim (0, 0) p c ≡ write p (record (c.heap p) { acks = (0, 0) ∷ [] }) c
  unfolding acknowledge fully_acked
  acknowledge-nothing p c some_bytes acks = rw (still_nothing (c.heap p).acks acks) (rw short refl)
    where
      short : (0 == (c.heap p).header.adu_length) ≡ false
      short = ground (arith, some_bytes)

  -- The ranges of the bundle, and the store, after one more range.
  acknowledge-acks :
      (r : ℕ × ℕ) (p : ℕ) (c : Agent Time)
      → ((acknowledge sim r p c).heap p).acks ≡ combine r (c.heap p).acks
  unfolding acknowledge
  acknowledge-acks r p c =
      elim (Bool-cases (fully_acked (c.heap p).header.adu_length (combine r (c.heap p).acks))) [
        | inl e ↦ rw e (rw (itself p) refl)
        | inr e ↦ rw e (rw (itself p) refl)
      ]

  acknowledge-bundle_store :
      (r : ℕ × ℕ) (p : ℕ) (c : Agent Time)
      → (acknowledge sim r p c).bundle_store ≡ (
          if fully_acked (c.heap p).header.adu_length (combine r (c.heap p).acks)
          then remove (look (acknowledge sim r p c)) sim.seq_lt p c.bundle_store
          else c.bundle_store)
  unfolding acknowledge
  acknowledge-bundle_store r p c =
      elim (Bool-cases (fully_acked (c.heap p).header.adu_length (combine r (c.heap p).acks))) [
        | inl e ↦ rw e refl
        | inr e ↦ rw e refl
      ]

  -- A bundle that loses data keeps its ranges and its header.
  write-kept :
      (q p : ℕ) (bytes : List ℕ) (a : Agent Time)
      → let b = (write q (record (a.heap q) { adu = bytes }) a).heap p in
        (b.acks ≡ (a.heap p).acks) × (b.header ≡ (a.heap p).header)
  write-kept q p bytes a = elim (Bool-cases (q == p)) [
    | inl e ↦
        let same : q ≡ p = ground (arith, e) in
        (rw e (ap (λ (r : ℕ). (a.heap r).acks) same), rw e (ap (λ (r : ℕ). (a.heap r).header) same))
    | inr e ↦ (rw e refl, rw e refl)
  ]

  announced-length :
      (adu : List ℕ) (h : Header6 Time) (len : ℕ)
      → signal_length sim (some adu) h ≡ some len
      → (if is_fragment h.base then length adu % 2 ^ 32 else 0) ≡ len
  announced-length adu h len measured = elim (Bool-cases (is_fragment h.base)) [
    | inl e ↦ rw e (some-injective _ _ (rw e at measured))
    | inr e ↦ rw e (some-injective _ _ (rw e at measured))
  ]

  module _ (status : ℕ) (now : Time) (source eid : EndpointId) (h : Header6 Time) (adu : List ℕ)
      (len q p : ℕ) (a : Agent Time) (measured : signal_length sim (some adu) h ≡ some len)
      (fits : Fits sim.get_seconds (signal_of sim status now true len source h))
      (readable : from_uri source.uri ≡ some eid)
      (sent : signal_bytes sim status now true (some adu) source h ≡ some (a.heap q).adu)
      (kept : get_bundle (look a) eid h.create_timestamp h.timestamp_seq_num a.bundle_store
        ≡ some p) where
    signal : CustodySignal Time
    signal = signal_of sim status now true len source h

    bytes : (a.heap q).adu ≡ (signal_flags sim h).type_flags ∷ encode sim.get_seconds signal
    unfolding signal_bytes signal
    bytes = some-injective _ _ (
        sym sent
        ∙ ap
            (λ (o : Option ℕ). o >>= λ n. some (
              (signal_flags sim h).type_flags
              ∷ encode sim.get_seconds (signal_of sim status now true n source h)))
            measured)

    this : ℕ × ℕ
    this = (h.frag_offset, (h.frag_offset + len) % 2 ^ 32)

    -- What the reader leaves of the bytes, since it takes the time for milliseconds.
    left : List ℕ
    left =
        drop
          (get_serialized_size sim.get_seconds
            (record signal { time_of_signal = sim.milli (sim.get_seconds now) }))
          (encode sim.get_seconds signal)

    shortened : Agent Time
    shortened = write q (record (a.heap q) { adu = left }) a

    decoded :
        deserialize sim.get_seconds sim.milli (encode sim.get_seconds signal)
        ≡ some (
          record signal { time_of_signal = sim.milli (sim.get_seconds now) },
          get_serialized_size sim.get_seconds
              (record signal { time_of_signal = sim.milli (sim.get_seconds now) }),
        )
    unfolding signal
    decoded =
        subst
          (λ (bs : List ℕ).
            deserialize sim.get_seconds sim.milli bs
            ≡ some (
              record signal { time_of_signal = sim.milli (sim.get_seconds now) },
              get_serialized_size sim.get_seconds
                  (record signal { time_of_signal = sim.milli (sim.get_seconds now) }),
            ))
          (append-nil (encode sim.get_seconds signal))
          (deserialize-encode sim.get_seconds sim.milli signal [] fits)

    takes_signal :
        take_signal sim
          (record signal { time_of_signal = sim.milli (sim.get_seconds now) })
          shortened
        ≡ some (acknowledge sim this p shortened)
    unfolding take_signal signal this shortened
    takes_signal = rw readable (
        ap (λ (o : Option ℕ). some (acknowledge_found sim this shortened o))
          (get_bundle-shortened q left eid h.create_timestamp h.timestamp_seq_num a ∙ kept))

    takes : deliver_to_agent sim q a ≡ some (remove_at sim q (acknowledge sim this p shortened))
    unfolding deliver_to_agent read_record shortened left
    takes = rw bytes (rw (flags_cs h) (rw decoded (rw takes_signal refl)))

    -- A signal of success that one node has made of a bundle with data, whose fields fit their types
    -- and whose source's text can be made an endpoint id, delivered at a custodian that finds a
    -- bundle at `p` by that id, the time and the number. The range from the fragment's offset over
    -- the length of its data, or over no bytes for a whole bundle, is combined with the ranges of
    -- the bundle at `p`; that bundle leaves the store exactly if the ranges then make up all of its
    -- data. Last, the signal's own bundle is removed.
    pub deliver_to_agent-signal_bytes :
        let announced : ℕ = if is_fragment h.base then length adu % 2 ^ 32 else 0 in
        let acks = combine (h.frag_offset, (h.frag_offset + announced) % 2 ^ 32) (a.heap p).acks in
        (a' : Agent Time) × (deliver_to_agent sim q a ≡ some (remove_at sim q a'))
        × ((a'.heap p).acks ≡ acks)
        × (a'.bundle_store ≡ (
            if fully_acked (a.heap p).header.adu_length acks
            then remove (look a') sim.seq_lt p a.bundle_store
            else a.bundle_store))
    unfolding this shortened
    deliver_to_agent-signal_bytes =
        let (acks, header) = write-kept q p left a in
        rw (announced-length adu h len measured) (
          acknowledge sim this p shortened,
          takes,
          acknowledge-acks this p shortened ∙ rw acks refl,
          acknowledge-bundle_store this p shortened ∙ rw (acks, header) refl,
        )

    module _ (whole : is_fragment h.base ≡ false) (start : h.frag_offset ≡ 0)
        (apart : (q == p) ≡ false) (not_empty : 0 < (a.heap p).header.adu_length) where
      nothing : this ≡ (0, 0)
      unfolding this
      nothing = rw (start, none_announced) refl
        where
          zero_length : signal_length sim (some adu) h ≡ some 0
          zero_length = rw whole refl

          none_announced : len ≡ 0
          none_announced = some-injective _ _ (sym measured ∙ zero_length)

      same_bundle : shortened.heap p ≡ a.heap p
      unfolding shortened
      same_bundle = rw apart refl

      noted : Agent Time
      noted = write p (record (shortened.heap p) { acks = (0, 0) ∷ [] }) shortened

      -- The numbers of the bundles are as before.
      noted-number : (b : ℕ) → (look noted b).sequence_number ≡ (look a b).sequence_number
      unfolding noted shortened
      noted-number b = elim (Bool-cases (p == b)) [
        | inl e ↦
            let same : p ≡ b = ground (arith, e) in
            rw e (rw apart (ap (λ (r : ℕ). (look a r).sequence_number) same))
        | inr e ↦ rw e (ap (λ (g : Header6 Time). g.timestamp_seq_num) (write-kept q b left a).1)
      ]

      -- Such a signal about a bundle that was not sent as a fragment, with the offset 0, never
      -- releases the other bundle that is found at `p`, if that announces some data and no range of
      -- it has been acknowledged but by such signals, and `<` orders the sequence numbers of the
      -- bundles: the signal's own bundle is removed, the one at `p` stays in the store as it is,
      -- and what is noted for it is a range of no bytes.
      pub deliver_to_agent-whole :
          OrdersSeqs (look a) sim.seq_lt
          → ((a.heap p).acks ≡ []) ⊎ ((a.heap p).acks ≡ (0, 0) ∷ [])
          → (a' : Agent Time) × (deliver_to_agent sim q a ≡ some a')
            × Has p a'.bundle_store.m_store
            × (a'.heap p ≡ record (a.heap p) { acks = (0, 0) ∷ [] })
      unfolding shortened noted get_bundle
      deliver_to_agent-whole seqs acks = (
        remove_at sim q noted,
        takes
            ∙ ap (λ (r : ℕ × ℕ). some (remove_at sim q (acknowledge sim r p shortened))) nothing
            ∙ ap (λ (c : Agent Time). some (remove_at sim q c))
                (acknowledge-nothing p shortened
                  (subst (λ (b : Bundle6 Time). 0 < b.header.adu_length) (sym same_bundle)
                    not_empty)
                  (subst (λ (b : Bundle6 Time). (b.acks ≡ []) ⊎ (b.acks ≡ (0, 0) ∷ []))
                    (sym same_bundle) acks)),
        remove-Has (look noted) sim.seq_lt (same-StrictOn _ _ noted-number seqs) q p a.bundle_store
            (λ e. ground (arith, apart, e))
            (first_such-Has (look a) (is_from (look a) eid h.create_timestamp h.timestamp_seq_num) p
              a.bundle_store.m_store kept),
        rw (itself p) (ap (λ (b : Bundle6 Time). record b { acks = (0, 0) ∷ [] }) same_bundle),
      )
