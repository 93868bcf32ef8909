-- ===== src/Header.antt =====
-- model/bp-header.cc and bp-header.h: the fields and the processing flags that the primary headers
-- of both bundle versions share. `Time` is ns-3's type of times; a sequence number is its value.
pub mod Flags
use ns3_dtn.Prelude.{ℕ, ◌^◌, Bool}
use ns3_dtn.Prelude.Words.{put_mask, has_mask}

pub record Header (Time : Type 0) : Type 0 where
  pub version : ℕ
  pub processing_flags : ℕ
  pub create_timestamp : ℕ
  pub timestamp_seq_num : ℕ
  pub life_time : Time
  pub frag_offset : ℕ
  pub adu_length : ℕ
  pub cbhe : Bool

-- `BpHeader (version, useCbhe)`, with the time that `m_lifeTime (0)` gives.
abbrev pub new_header : {Time : Type 0} → Time → ℕ → Bool → Header Time
new_header zero_time version use_cbhe = record {
  version = version;
  processing_flags = 0;
  create_timestamp = 0;
  timestamp_seq_num = 0;
  life_time = zero_time;
  frag_offset = 0;
  adu_length = 0;
  cbhe = use_cbhe;
}

-- The enumeration `ProcessingFlags`, with the bit that each value sets.
pub data Flag : Type 0 where
  bundle_is_fragment bundle_is_admin bundle_do_not_fragment bundle_ack_by_app : Flag
  req_report_bundle_reception req_report_bundle_forward : Flag
  req_report_bundle_delivery req_report_bundle_deletion : Flag

abbrev pub shift : Flag → ℕ
shift bundle_is_fragment = 0
shift bundle_is_admin = 1
shift bundle_do_not_fragment = 2
shift bundle_ack_by_app = 5
shift req_report_bundle_reception = 14
shift req_report_bundle_forward = 16
shift req_report_bundle_delivery = 17
shift req_report_bundle_deletion = 18

module _ {Time : Type 0} where
  -- The body that the setters share, on the 32-bit word of flags.
  unfoldable pub set_flag : Flag → Bool → Header Time → Header Time
  set_flag f value h = record h {
    processing_flags = put_mask 32 (2 ^ shift f) value h.processing_flags;
  }

  -- The body that the getters share.
  unfoldable pub flag : Flag → Header Time → Bool
  flag f h = has_mask (2 ^ shift f) h.processing_flags

  abbrev pub set_is_fragment : Bool → Header Time → Header Time
  set_is_fragment = set_flag bundle_is_fragment

  abbrev pub set_is_admin : Bool → Header Time → Header Time
  set_is_admin = set_flag bundle_is_admin

  abbrev pub set_donot_fragment : Bool → Header Time → Header Time
  set_donot_fragment = set_flag bundle_do_not_fragment

  abbrev pub set_ackby_app_req : Bool → Header Time → Header Time
  set_ackby_app_req = set_flag bundle_ack_by_app

  abbrev pub set_reception_report : Bool → Header Time → Header Time
  set_reception_report = set_flag req_report_bundle_reception

  abbrev pub set_forward_report : Bool → Header Time → Header Time
  set_forward_report = set_flag req_report_bundle_forward

  abbrev pub set_delivery_report : Bool → Header Time → Header Time
  set_delivery_report = set_flag req_report_bundle_delivery

  abbrev pub set_deletion_report : Bool → Header Time → Header Time
  set_deletion_report = set_flag req_report_bundle_deletion

  abbrev pub is_fragment : Header Time → Bool
  is_fragment = flag bundle_is_fragment

  abbrev pub is_admin : Header Time → Bool
  is_admin = flag bundle_is_admin

  abbrev pub donot_fragment : Header Time → Bool
  donot_fragment = flag bundle_do_not_fragment

  abbrev pub ackby_app_req : Header Time → Bool
  ackby_app_req = flag bundle_ack_by_app

  abbrev pub reception_report : Header Time → Bool
  reception_report = flag req_report_bundle_reception

  abbrev pub forward_report : Header Time → Bool
  forward_report = flag req_report_bundle_forward

  abbrev pub delivery_report : Header Time → Bool
  delivery_report = flag req_report_bundle_delivery

  abbrev pub deletion_report : Header Time → Bool
  deletion_report = flag req_report_bundle_deletion

  -- The setters of the other fields.
  abbrev pub set_create_timestamp : ℕ → Header Time → Header Time
  set_create_timestamp timestamp h = record h { create_timestamp = timestamp }

  abbrev pub set_sequence_number : ℕ → Header Time → Header Time
  set_sequence_number number h = record h { timestamp_seq_num = number }

  abbrev pub set_life_time : Time → Header Time → Header Time
  set_life_time lifetime h = record h { life_time = lifetime }

  abbrev pub set_frag_offset : ℕ → Header Time → Header Time
  set_frag_offset offset h = record h { frag_offset = offset }

  abbrev pub set_adu_length : ℕ → Header Time → Header Time
  set_adu_length len h = record h { adu_length = len }

  abbrev pub set_version : ℕ → Header Time → Header Time
  set_version ver h = record h { version = ver }

  abbrev pub get_create_timestamp : Header Time → ℕ
  get_create_timestamp h = h.create_timestamp

  abbrev pub get_sequence_number : Header Time → ℕ
  get_sequence_number h = h.timestamp_seq_num

  abbrev pub get_life_time : Header Time → Time
  get_life_time h = h.life_time

  abbrev pub get_frag_offset : Header Time → ℕ
  get_frag_offset h = h.frag_offset

  abbrev pub get_adu_length : Header Time → ℕ
  get_adu_length h = h.adu_length

  abbrev pub get_version : Header Time → ℕ
  get_version h = h.version
