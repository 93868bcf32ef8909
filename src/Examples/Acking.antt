-- ===== src/Examples/Acking.antt =====
-- Custody signals from node b about a bundle of five bytes that a node keeps.
use ns3_dtn.Prelude.{
  ℕ, ◌≡◌, refl, inl, arith, true, false, List, [], ◌∷◌, some, ◌==◌, if◌then◌else◌,
}
use ns3_dtn.Prelude.Words.{has_mask}
use ns3_dtn.EndpointId.{EndpointId, dtn, from_parts, substr, from_uri, scheme, ssp}
use ns3_dtn.EndpointId.Parts.{uri_of, from_uri-read}
use ns3_dtn.Header.{flag, is_fragment}
use ns3_dtn.Header6.Dictionary.{get_eid, dictionary_eid, c_str}
use ns3_dtn.BundleStore.{get_bundle, first_such}
use ns3_dtn.CustodySignal.{encode}
use ns3_dtn.CustodySignal.Laws.{Fits}
use ns3_dtn.Forward.{Bundle6}
use ns3_dtn.Agent.{Agent, look, remove_at}
use ns3_dtn.Agent.Custody.{fully_acked, deliver_to_agent, signal_of, signal_length, signal_bytes}
use ns3_dtn.Agent.Custody.Ranges.{all_met, above, below, lost, combine_all, fully_acked-combine_all}
use ns3_dtn.Agent.Custody.Released.{deliver_to_agent-signal_bytes, deliver_to_agent-whole}
use ns3_dtn.Prelude.{length, ◌+◌, ◌%◌, ◌^◌, if◌then◌else◌}
use ns3_dtn.Agent.{look, remove_at}
use ns3_dtn.Agent.Custody.{combine}
use ns3_dtn.BundleStore.{remove}
use ns3_dtn.BundleStore.OrderedSet.{Has}
use ns3_dtn.BundleStore.Order.{everywhere, ltb-StrictTotal}
use ns3_dtn.Examples.Data.{node_a}
use ns3_dtn.Examples.Node.{to_a, sim, plain, letter, node}

-- Bytes 2 to 4, then 6 to 7, which is lost, then 0 to 2 and 4 to 5.
abbrev rest : List (ℕ × ℕ)
rest = (6, 7) ∷ (0, 2) ∷ (4, 5) ∷ []

fully_acked-combine_all_example :
    (combine_all ((2, 4) ∷ rest) [] ≡ (0, 5) ∷ [])
    × (fully_acked 5 (combine_all ((2, 4) ∷ rest) []) ≡ true)
fully_acked-combine_all_example = fully_acked-combine_all 2 4 0 5 5 rest (omega arith) (
    lost 6 7 (λ e. absurd (omega (arith, e))) (λ e. absurd (omega (arith, e)))
      (below 0 (omega arith) (above 5 (omega arith) all_met)))

abbrev signal : Bundle6 ℕ
signal = record letter { adu = 32 ∷ encode sim.get_seconds (signal_of sim 0 800 true 0 to_a plain) }

-- The bundle is at 0, and the signal at 1.
abbrev custodian : Agent ℕ
custodian = record node {
  heap = λ p. if p == 0 then letter else signal;
  unused = 2;
  bundle_store = record { m_store = 0 ∷ 1 ∷ []; max_bundles_stored = 2; stored_bytes = 5 };
}

measured : signal_length sim (some letter.adu) plain ≡ some 0
unfolding flag has_mask
measured = refl

fits : Fits sim.get_seconds (signal_of sim 0 800 true 0 to_a plain)
unfolding from_parts
fits = record {
  offset_fits = omega arith;
  length_fits = omega arith;
  time_fits = omega arith;
  timestamp_fits = omega arith;
  seq_fits = omega arith;
  eid_fits = omega arith;
  eid_length = refl;
}

-- The id that the custodian makes of the signal's text.
read_a :
    (e : EndpointId) × (from_uri (uri_of dtn node_a) ≡ some e)
    × (e.uri ≡ uri_of dtn node_a)
    × (scheme e ≡ some dtn)
    × (ssp e ≡ some node_a)
read_a =
    from_uri-read dtn node_a (record { some_bytes = omega arith; in_limit = omega arith })
      (record { some_bytes = omega arith; in_limit = omega arith })
      (ground arith, (ground arith, (ground arith, tt)))

readable : from_uri to_a.uri ≡ some read_a.0
unfolding from_parts
readable = read_a.1

sent : signal_bytes sim 0 800 true (some letter.adu) to_a plain ≡ some signal.adu
unfolding signal_bytes flag has_mask
sent = refl

kept_for :
    (e : EndpointId)
    → e.uri ≡ uri_of dtn node_a
    → get_bundle (look custodian) e 700 3 custodian.bundle_store ≡ some 0
unfolding get_bundle first_such get_eid dictionary_eid c_str substr from_parts
kept_for e same = rw same refl

kept : get_bundle (look custodian) read_a.0 700 3 custodian.bundle_store ≡ some 0
kept = kept_for read_a.0 read_a.2

deliver_to_agent-signal_bytes_example :
    let announced : ℕ = if is_fragment plain.base then length letter.adu % 2 ^ 32 else 0 in
    let acks = combine (0, (0 + announced) % 2 ^ 32) [] in
    (a' : Agent ℕ) × (deliver_to_agent sim 1 custodian ≡ some (remove_at sim 1 a'))
    × ((a'.heap 0).acks ≡ acks)
    × (a'.bundle_store ≡ (
        if fully_acked letter.header.adu_length acks
        then remove (look a') sim.seq_lt 0 custodian.bundle_store
        else custodian.bundle_store))
deliver_to_agent-signal_bytes_example =
    deliver_to_agent-signal_bytes sim 0 800 to_a read_a.0 plain letter.adu 0 1 0 custodian measured
      fits readable sent kept

whole : is_fragment plain.base ≡ false
unfolding flag has_mask
whole = refl

deliver_to_agent-whole_example :
    (a' : Agent ℕ) × (deliver_to_agent sim 1 custodian ≡ some a')
    × Has 0 a'.bundle_store.m_store
    × (a'.heap 0 ≡ record letter { acks = (0, 0) ∷ [] })
deliver_to_agent-whole_example =
    deliver_to_agent-whole sim 0 800 to_a read_a.0 plain letter.adu 0 1 0 custodian measured fits
      readable sent kept whole refl refl (omega arith)
      (everywhere (λ b. (look custodian b).sequence_number) ltb-StrictTotal) (inl refl)
