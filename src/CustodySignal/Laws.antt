-- ===== src/CustodySignal/Laws.antt =====
-- What a custody signal's reader makes of its bytes.
use ns3_dtn.Prelude.{ℕ, ◌^◌, ◌<◌, ◌≡◌, ap, ◌∙◌, length}
use ns3_dtn.Prelude.{List, ◌∷◌, ◌++◌, some}
use ns3_dtn.CustodySignal.{CustodySignal, encode, deserialize, get_serialized_size}
use ns3_dtn.Sdnv
use ns3_dtn.Header6.Wire.{read_bytes}
use ns3_dtn.Header6.RoundTrip.{reads, narrow32, read_bytes-append}
use mathlib.Core.List.{append_assoc}
use native.Mathlib.Nat.{mod-eq_of_lt}

module _ {Time : Type 0} (get_seconds : Time → ℕ) where
  -- The ranges of the fields' types, and a length field that fits the text.
  pub record Fits (cs : CustodySignal Time) : Type 0 where
    pub offset_fits : cs.fragment_offset < 2 ^ 32
    pub length_fits : cs.fragment_length < 2 ^ 32
    pub time_fits : get_seconds cs.time_of_signal < 2 ^ 64
    pub timestamp_fits : cs.creation_timestamp < 2 ^ 32
    pub seq_fits : cs.seq_no < 2 ^ 32
    pub eid_fits : cs.src_eid_len < 2 ^ 32
    pub eid_length : cs.src_eid_len ≡ length cs.src_eid

  bytes_before :
      (cs : CustodySignal Time) (rest : List ℕ)
      → encode get_seconds cs ++ rest
        ≡ cs.status
          ∷ (Sdnv.encode cs.fragment_offset
              ++ (Sdnv.encode cs.fragment_length
                  ++ (Sdnv.encode (get_seconds cs.time_of_signal)
                      ++ (Sdnv.encode cs.creation_timestamp
                          ++ (Sdnv.encode cs.seq_no
                              ++ (Sdnv.encode cs.src_eid_len ++ (cs.src_eid ++ rest)))))))
  unfolding encode
  bytes_before cs rest = simp append_assoc

  -- `Deserialize` on an encoded custody signal, with any bytes behind it, restores every field but
  -- the time of the signal, which was written in seconds and is read as milliseconds; and it
  -- returns the encoded length of the signal with that other time.
  pub deserialize-encode :
      (milli : ℕ → Time) (cs : CustodySignal Time) (rest : List ℕ)
      → Fits cs
      → let read : CustodySignal Time = record cs {
        time_of_signal = milli (get_seconds cs.time_of_signal);
      } in
        deserialize get_seconds milli (encode get_seconds cs ++ rest)
        ≡ some (read, get_serialized_size get_seconds read)
  unfolding deserialize
  deserialize-encode milli cs rest f =
      ap (deserialize get_seconds milli) (bytes_before cs rest)
      ∙ simp (
        reads cs.fragment_offset (narrow32 f.offset_fits),
        reads cs.fragment_length (narrow32 f.length_fits),
        reads (get_seconds cs.time_of_signal) f.time_fits,
        reads cs.creation_timestamp (narrow32 f.timestamp_fits),
        reads cs.seq_no (narrow32 f.seq_fits),
        reads cs.src_eid_len (narrow32 f.eid_fits),
        mod-eq_of_lt f.eid_fits,
        reads_eid,
        mod-eq_of_lt f.offset_fits,
        mod-eq_of_lt f.length_fits,
        mod-eq_of_lt f.timestamp_fits,
        mod-eq_of_lt f.seq_fits,
      )
    where
      reads_eid : (i : List ℕ) → read_bytes cs.src_eid_len (cs.src_eid ++ i) ≡ some (cs.src_eid, i)
      reads_eid i = rw f.eid_length (read_bytes-append cs.src_eid i)
