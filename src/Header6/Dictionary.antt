-- ===== src/Header6/Dictionary.antt =====
-- The endpoint ids of the header: `SetDestinationEid`, `SetSourceEid`, `SetReportEid` and
-- `SetCustEid`, whose bodies differ in the fields that they write only, and the four getters.
use ns3_dtn.Prelude.{ℕ, ◌%◌, ◌^◌}
use ns3_dtn.Prelude.{List, [], ◌∷◌, ◌++◌, Option, some, ◌>>=◌, length}
use ns3_dtn.Prelude.{◌==◌, if◌then◌else◌}
use ns3_dtn.Prelude.Decimal.{print_unsigned, scan_first, scan_second}
use ns3_dtn.EndpointId.{EndpointId, from_parts, scheme, ssp, substr, npos}
use ns3_dtn.Header6.{Header6, Place, Role, dst, src, report, cust}

abbrev pub ipn : List ℕ
ipn = b'i' ∷ b'p' ∷ b'n' ∷ []

-- `std::string (s.c_str ())`: the text in front of the first NUL.
unfoldable pub c_str : List ℕ → List ℕ
c_str [] = []
c_str (x ∷ s) = let rest = c_str s in if x == 0 then [] else x ∷ rest

-- `IpnNode` and `IpnService`; `none` is a number that `sscanf` has not set.
abbrev pub ipn_node : List ℕ → Option ℕ
ipn_node ssp = scan_first (c_str ssp)

abbrev pub ipn_service : List ℕ → Option ℕ
ipn_service ssp = scan_second (c_str ssp)

-- `IpnSsp`
abbrev pub ipn_ssp : ℕ → ℕ → List ℕ
ipn_ssp node service = print_unsigned node ++ (b'.' ∷ print_unsigned service)

-- The two texts that start at a place of a dictionary.
unfoldable pub dictionary_eid : List ℕ → Place → Option EndpointId
dictionary_eid dictionary p = substr dictionary p.scheme_offset npos >>= λ scheme.
    substr dictionary p.ssp_offset npos >>= λ ssp. some (from_parts (c_str scheme) (c_str ssp))

module _ {Time : Type 0} where
  abbrev pub place : Role → Header6 Time → Place
  place dst h = h.dst_place
  place src h = h.src_place
  place report h = h.report_place
  place cust h = h.cust_place

  abbrev pub put_place : Role → Place → Header6 Time → Header6 Time
  put_place dst p h = record h { dst_place = p }
  put_place src p h = record h { src_place = p }
  put_place report p h = record h { report_place = p }
  put_place cust p h = record h { cust_place = p }

  -- The branch without CBHE: both texts go to the end of the dictionary, each with a NUL.
  unfoldable pub append_eid : Role → List ℕ → List ℕ → Header6 Time → Header6 Time
  append_eid r scheme ssp h =
      let with_scheme = h.dictionary ++ (scheme ++ (0 ∷ [])) in
      put_place r
        (record {
          scheme_offset = length h.dictionary % 2 ^ 16;
          ssp_offset = length with_scheme % 2 ^ 16;
        })
        (record h { dictionary = with_scheme ++ (ssp ++ (0 ∷ [])) })

  -- The branch with CBHE: the numbers of the ssp are the offsets, in 16 bits.
  unfoldable pub number_eid : Role → List ℕ → Header6 Time → Option (Header6 Time)
  number_eid r ssp h = ipn_node ssp >>= λ node. ipn_service ssp >>= λ service.
      some (put_place r (record { scheme_offset = node % 2 ^ 16; ssp_offset = service % 2 ^ 16 }) h)

  -- `Set…Eid`
  unfoldable pub set_eid : Role → EndpointId → Header6 Time → Option (Header6 Time)
  set_eid r eid h = scheme eid >>= λ scheme.
      ssp eid >>= λ ssp. (if h.cbhe then number_eid r ssp h else some (append_eid r scheme ssp h))

  -- `Get…Eid`
  unfoldable pub get_eid : Role → Header6 Time → Option EndpointId
  get_eid r h =
      let p = place r h in
      if h.cbhe
      then some (from_parts ipn (ipn_ssp p.scheme_offset p.ssp_offset))
      else dictionary_eid h.dictionary p
