-- ===== src/Header7.antt =====
-- model/bp-header-7.cc and bp-header-7.h: the primary header of version 7.
pub mod Wire
pub mod Ids
pub mod RoundTrip
use ns3_dtn.Prelude.{
  ℕ, ◌^◌, Bool, List, [], ◌∷◌, Option, none, some, ◌>>=◌, if◌then◌else◌, bytes_eq,
}
use ns3_dtn.Prelude.Words.{put_mask, has_mask}
use ns3_dtn.EndpointId.{EndpointId, from_parts, scheme, ssp}
use ns3_dtn.Header.{Header, new_header}
use ns3_dtn.Header6.Dictionary.{ipn, ipn_node, ipn_service, ipn_ssp}

-- An id as the header keeps it: `m_dstUriCode` and `m_dstSsp`, and so on.
pub record Eid7 : Type 0 where
  pub uri_code : ℕ
  pub ssp : List ℕ

pub record Header7 (Time : Type 0) : Type 0 where
  pub base : Header Time
  pub dst_eid : Eid7
  pub src_eid : Eid7
  pub report_eid : Eid7
  pub block_length : ℕ

-- Which of the ids a function is about.
pub data Role7 : Type 0 where
  destination source report_to : Role7

-- `SetDestinationEid`, `SetSourceEid` and `SetReportEid` up to the fields that they write; `none`
-- also stands for a number that `sscanf` has not set.
unfoldable pub eid7 : List ℕ → List ℕ → Option Eid7
eid7 scheme ssp =
    if bytes_eq scheme ipn
    then (ipn_node ssp >>= λ node.
        ipn_service ssp >>= λ service. some (record { uri_code = 2; ssp = ipn_ssp node service }))
    else some (record { uri_code = 1; ssp = ssp })

module _ {Time : Type 0} where
  -- `BpHeader7 (useCbhe)`; what the constructor leaves unset is an argument.
  abbrev pub new_header7 : Time → ℕ → ℕ → Bool → Header7 Time
  new_header7 zero_time code len use_cbhe = record {
    base = new_header zero_time 7 use_cbhe;
    dst_eid = record { uri_code = code; ssp = [] };
    src_eid = record { uri_code = code; ssp = [] };
    report_eid = record { uri_code = code; ssp = [] };
    block_length = len;
  }

  abbrev pub put_eid7 : Role7 → Eid7 → Header7 Time → Header7 Time
  put_eid7 destination e h = record h { dst_eid = e }
  put_eid7 source e h = record h { src_eid = e }
  put_eid7 report_to e h = record h { report_eid = e }

  -- `Set…Eid`
  unfoldable pub set_eid7 : Role7 → EndpointId → Header7 Time → Option (Header7 Time)
  unfolding eid7
  set_eid7 r eid h = scheme eid >>= λ s. ssp eid >>= λ t. eid7 s t >>= λ e. some (put_eid7 r e h)

  -- `Get…Eid`, which is not implemented: the id of two empty parts, whatever was set.
  abbrev pub get_eid7 : Role7 → Header7 Time → EndpointId
  get_eid7 r h = from_parts [] []

  -- `Priority`
  abbrev pub priority7 : Header7 Time → ℕ
  priority7 h = 0

  -- The bit `REQ_STATUS_TIME_IN_REPORTS`.
  unfoldable pub set_status_time_req : Bool → Header7 Time → Header7 Time
  set_status_time_req value h = record h {
    base = record h.base { processing_flags = put_mask 32 (2 ^ 6) value h.base.processing_flags };
  }

  unfoldable pub status_time_req : Header7 Time → Bool
  status_time_req h = has_mask (2 ^ 6) h.base.processing_flags

  abbrev pub set_block_length7 : ℕ → Header7 Time → Header7 Time
  set_block_length7 len h = record h { block_length = len }
