-- ===== src/CustodySignal.antt =====
-- model/bp-custody-signal.h and bp-admin-record.h: the custody signal and the administrative
-- record in front of it, as bytes.
pub mod Laws
use ns3_dtn.Prelude.{ℕ, ◌+◌, ◌*◌, ◌%◌, ◌^◌, List, [], ◌∷◌, ◌++◌, Option, none, some, ◌>>=◌, length}
use ns3_dtn.Header6.Wire.{read_u8, read_bytes}
use ns3_dtn.Sdnv
use ns3_dtn.Sdnv.{decode}

pub record CustodySignal (Time : Type 0) : Type 0 where
  pub status : ℕ
  pub fragment_offset : ℕ
  pub fragment_length : ℕ
  pub time_of_signal : Time
  pub creation_timestamp : ℕ
  pub seq_no : ℕ
  pub src_eid_len : ℕ
  pub src_eid : List ℕ

-- `_BP_AR_CS`, `_BP_AR_FRAG` and `_BP_AR_ACS`
abbrev pub bp_ar_cs : ℕ
bp_ar_cs = 2

abbrev pub bp_ar_frag : ℕ
bp_ar_frag = 1

abbrev pub bp_ar_acs : ℕ
bp_ar_acs = 4

-- `AdminRecord`, whose one byte is its type and flags.
pub record AdminRecord : Type 0 where
  pub type_flags : ℕ

abbrev pub serialize_record : AdminRecord → List ℕ
serialize_record ar = ar.type_flags ∷ []

abbrev pub deserialize_record : List ℕ → Option (AdminRecord × ℕ)
deserialize_record start = read_u8 start >>= λ (b, i). some (record { type_flags = b }, 1)

-- `get_seconds` is the conversion of `Time::GetSeconds` to 64 bits, and `milli` is the time that
-- `Seconds (n / 1000.0)` gives.
module _ {Time : Type 0} (get_seconds : Time → ℕ) where
  unfoldable pub encode : CustodySignal Time → List ℕ
  encode cs =
      cs.status
      ∷ (Sdnv.encode cs.fragment_offset
          ++ (Sdnv.encode cs.fragment_length
              ++ (Sdnv.encode (get_seconds cs.time_of_signal)
                  ++ (Sdnv.encode cs.creation_timestamp
                      ++ (Sdnv.encode cs.seq_no ++ (Sdnv.encode cs.src_eid_len ++ cs.src_eid))))))

  abbrev pub get_serialized_size : CustodySignal Time → ℕ
  get_serialized_size cs = length (encode cs)

  unfoldable pub deserialize : (ℕ → Time) → List ℕ → Option (CustodySignal Time × ℕ)
  deserialize milli start = do
    (status, i) ← read_u8 start
    (offset, i) ← decode i
    (len, i) ← decode i
    (time, i) ← decode i
    (timestamp, i) ← decode i
    (seq_no, i) ← decode i
    (eid_len, i) ← decode i
    (eid, i) ← read_bytes (eid_len % 2 ^ 32) i
    let cs : CustodySignal Time = record {
      status = status;
      fragment_offset = offset % 2 ^ 32;
      fragment_length = len % 2 ^ 32;
      time_of_signal = milli time;
      creation_timestamp = timestamp % 2 ^ 32;
      seq_no = seq_no % 2 ^ 32;
      src_eid_len = eid_len % 2 ^ 32;
      src_eid = eid;
    }
    some (cs, get_serialized_size cs)
