-- ===== src/Examples/Data.antt =====
-- Headers, endpoint ids and bundles that the examples share. A time is a number of seconds.
use ns3_dtn.Prelude.{arith, refl, zero, suc, length, ◌≡◌, ℕ, ◌∷◌, [], List, false, ◌++◌}
use ns3_dtn.EndpointId.{dtn}
use ns3_dtn.Header6.{Header6, Place, new_header6}
use ns3_dtn.BlockHeader.{BlockHeader6, new_block_header6, bundle_payload_block}

-- `GetSeconds` and `Seconds` on whole seconds.
abbrev pub whole_seconds : ℕ → ℕ
whole_seconds t = t

abbrev pub node_a : List ℕ
node_a = b'a' ∷ []

abbrev pub node_b : List ℕ
node_b = b'b' ∷ []

abbrev pub none_yet : Place
none_yet = record { scheme_offset = 0; ssp_offset = 0 }

-- A new header, as the constructor of a bundle makes it.
abbrev pub fresh : Header6 ℕ
fresh =
    new_header6 0
      (record { at_dst = none_yet; at_src = none_yet; at_report = none_yet; at_cust = none_yet })
      false

-- "dtn", "b", "dtn" and "a", each with a NUL.
abbrev pub two_ids : List ℕ
two_ids = dtn ++ (0 ∷ b'b' ∷ 0 ∷ (dtn ++ (0 ∷ b'a' ∷ 0 ∷ [])))

-- A header from `a` to `b`.
abbrev pub sample : Header6 ℕ
sample = record {
  base = record {
    version = 6;
    processing_flags = 0x18;
    create_timestamp = 700;
    timestamp_seq_num = 3;
    life_time = 86400;
    frag_offset = 0;
    adu_length = 5;
    cbhe = false;
  };
  block_length = 300;
  dst_place = record { scheme_offset = 0; ssp_offset = 4 };
  src_place = record { scheme_offset = 6; ssp_offset = 10 };
  report_place = record { scheme_offset = 6; ssp_offset = 10 };
  cust_place = record { scheme_offset = 6; ssp_offset = 10 };
  dictionary = two_ids;
}

-- A payload block's header of 300 bytes, with one flag.
abbrev pub payload : BlockHeader6
payload = record (new_block_header6 bundle_payload_block) {
  processing_control_flags = 8;
  block_length = 300;
}

-- Room that is not used holds zeros.
abbrev pub zeros : ℕ → List ℕ
zeros zero = []
zeros (suc n) = 0 ∷ zeros n

pub length-zeros : (n : ℕ) → length (zeros n) ≡ n
length-zeros zero = refl
length-zeros (suc n) = omega (arith, length-zeros n)
