-- ===== src/Header6.antt =====
-- model/bp-header-6.cc and bp-header-6.h: the primary header of version 6. Its endpoint ids are
-- places in a dictionary of C strings, or, with CBHE, a node and a service number.
pub mod Priority
pub mod Dictionary
pub mod Endpoints
pub mod Settings
pub mod Wire
pub mod RoundTrip
pub mod Truncated
pub mod Cbhe
use ns3_dtn.Prelude.{ℕ, zero, suc, ◌+◌, ◌-◌, ◌*◌, ◌/◌, ◌%◌, ◌^◌, ◌≡◌, Bool, true, false}
use ns3_dtn.Prelude.{List, [], ◌∷◌, ◌++◌, Option, none, some, ◌>>=◌, bit_and, bit_or, length}
use ns3_dtn.Prelude.{◌==◌, if◌then◌else◌}
use ns3_dtn.Prelude.Words.{put_mask, has_mask, ones}
use ns3_dtn.Header.{Header, new_header}

-- The offsets of a scheme and of an ssp, of 16 bits each.
pub record Place : Type 0 where
  pub scheme_offset : ℕ
  pub ssp_offset : ℕ

-- The four endpoint ids of the header.
pub data Role : Type 0 where
  dst src report cust : Role

pub record Header6 (Time : Type 0) : Type 0 where
  pub base : Header Time
  pub open base use *
  pub block_length : ℕ
  pub dst_place : Place
  pub src_place : Place
  pub report_place : Place
  pub cust_place : Place
  pub dictionary : List ℕ

-- The offsets that the constructor leaves unset.
pub record Unset : Type 0 where
  pub at_dst : Place
  pub at_src : Place
  pub at_report : Place
  pub at_cust : Place

-- The values of `ProcessingFlags6`.
abbrev pub req_bundle_custody_xfer : ℕ
req_bundle_custody_xfer = 2 ^ 3

abbrev pub bundle_singleton_destination : ℕ
bundle_singleton_destination = 2 ^ 4

abbrev pub bundle_priority : ℕ
bundle_priority = 0x00EF * 2 ^ 7

abbrev pub req_report_custody_accept : ℕ
req_report_custody_accept = 2 ^ 15

module _ {Time : Type 0} where
  -- `BpHeader6 (useCbhe)`
  abbrev pub new_header6 : Time → Unset → Bool → Header6 Time
  new_header6 zero_time unset use_cbhe = record {
    base = new_header zero_time 6 use_cbhe;
    block_length = 0;
    dst_place = unset.at_dst;
    src_place = unset.at_src;
    report_place = unset.at_report;
    cust_place = unset.at_cust;
    dictionary = [];
  }

  abbrev pub with_flags : ℕ → Header6 Time → Header6 Time
  with_flags flags h = record h { base = record h.base { processing_flags = flags } }

  unfoldable pub set_cust_tx_req : Bool → Header6 Time → Header6 Time
  set_cust_tx_req value h =
      with_flags (put_mask 32 req_bundle_custody_xfer value h.processing_flags) h

  unfoldable pub set_singleton_dest : Bool → Header6 Time → Header6 Time
  set_singleton_dest value h =
      with_flags (put_mask 32 bundle_singleton_destination value h.processing_flags) h

  unfoldable pub set_cust_accept_report : Bool → Header6 Time → Header6 Time
  set_cust_accept_report value h =
      with_flags (put_mask 32 req_report_custody_accept value h.processing_flags) h

  unfoldable pub cust_tx_req : Header6 Time → Bool
  cust_tx_req h = has_mask req_bundle_custody_xfer h.processing_flags

  unfoldable pub singleton_dest : Header6 Time → Bool
  singleton_dest h = has_mask bundle_singleton_destination h.processing_flags

  unfoldable pub cust_accept_report : Header6 Time → Bool
  cust_accept_report h = has_mask req_report_custody_accept h.processing_flags

  -- `flags |= (flags & ~BUNDLE_PRIORITY) | (pri << 7)`
  unfoldable pub set_priority : ℕ → Header6 Time → Header6 Time
  set_priority pri h =
      with_flags
        (bit_or h.processing_flags
          (bit_or (bit_and h.processing_flags (ones 32 - bundle_priority)) (pri * 2 ^ 7)))
        h

  -- `(flags & BUNDLE_PRIORITY) >> 7`, cut to eight bits.
  unfoldable pub priority : Header6 Time → ℕ
  priority h = bit_and h.processing_flags bundle_priority / 2 ^ 7 % 2 ^ 8

  abbrev pub set_block_length : ℕ → Header6 Time → Header6 Time
  set_block_length len h = record h { block_length = len }
