-- ===== src/Agent/Fragments.antt =====
-- The loop of `EnqueueForDeliveryToApplication` that joins a new fragment with the stored ones.
pub mod Joining
use ns3_dtn.Prelude.{
  ℕ, ◌+◌, ◌%◌, ◌^◌, Bool, true, false, List, [], ◌∷◌, ◌++◌, length, if◌then◌else◌, ◌==◌,
}
use ns3_dtn.Header.{set_is_fragment, is_fragment}
use ns3_dtn.Header6.{Header6, src}
use ns3_dtn.BundleStore.{get_bundles}
use ns3_dtn.Forward.{Bundle6}
use ns3_dtn.Agent.{Simulator, Agent, id_of, look, write, remove_at}

module _ {Time : Type 0} where
  -- `AddAtEnd`
  abbrev pub add_at_end : List ℕ → Bundle6 Time → Bundle6 Time
  add_at_end bytes b = record b { adu = b.adu ++ bytes }

  -- The flag is cleared when all of the data is there.
  abbrev pub whole_if : Bundle6 Time → Bundle6 Time
  whole_if b =
      if length b.adu % 2 ^ 32 == b.header.adu_length
      then record b { header = record b.header { base = set_is_fragment false b.header.base } }
      else b

  abbrev pub end_of : Bundle6 Time → ℕ
  end_of b = (b.header.frag_offset + length b.adu % 2 ^ 32) % 2 ^ 32

  -- `prevFrags`
  abbrev pub prev_frags : ℕ → Agent Time → List ℕ
  prev_frags p a =
      let h = (a.heap p).header in
      get_bundles (look a) (id_of src h) h.create_timestamp h.timestamp_seq_num a.bundle_store

  module _ (sim : Simulator Time) where
    -- The data at `q` goes to the end of that at `p`, `q` leaves the store, and `p` may be whole.
    abbrev pub absorb : ℕ → ℕ → Agent Time → Agent Time
    absorb p q a =
        let a' = remove_at sim q (write p (add_at_end (a.heap q).adu (a.heap p)) a) in
        write p (whole_if (a'.heap p)) a'

    -- One round, for the new fragment `p` and a stored one, `it`.
    unfoldable pub join_step : ℕ → Agent Time → ℕ → Agent Time
    join_step p a it =
        if (a.heap p).header.frag_offset == end_of (a.heap it)
        then absorb it p a
        else if end_of (a.heap p) == (a.heap it).header.frag_offset
        then absorb p it a
        else a

    unfoldable pub join_all : ℕ → List ℕ → Agent Time → Agent Time
    join_all p [] a = a
    join_all p (it ∷ its) a = join_all p its (join_step p a it)
