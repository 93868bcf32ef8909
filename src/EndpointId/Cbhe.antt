-- ===== src/EndpointId/Cbhe.antt =====
-- `IsIpnCbhe`: which ids of the scheme "ipn" are those of a node and a service.
use ns3_dtn.Prelude.{
  ℕ, suc, ◌+◌, ◌-◌, ◌%◌, ◌^◌, ◌<◌, ◌≤◌, ◌≡◌, ◌≢◌, refl, ap, sym, ◌∙◌, arith, Bool, true, false,
  ◌&&◌, not, List, [], ◌∷◌, ◌++◌, Option, some, ◌>>=◌, length, length-append, drop, All,
  if◌then◌else◌, ltb, ◌==◌, bytes_eq,
}
use mathlib.Core.List.{append-nil}
use ns3_dtn.Prelude.Decimal.{print_unsigned, scan_long}
use ns3_dtn.Prelude.Decimal.RoundTrip.{
  scan_long-print_unsigned, print_unsigned-other, length-print_unsigned,
}
use ns3_dtn.EndpointId.{EndpointId, size_mod, npos, find_from, from_parts, scheme, ssp}
use ns3_dtn.EndpointId.Parts.{from_parts-read}
use ns3_dtn.Header6.Dictionary.{ipn, ipn_ssp}

-- A result of `strtoll` that is neither 0 nor at an end of `long long`, where larger ones end.
abbrev pub is_number : Bool × ℕ → Bool
is_number (true, n) = not (n == 0) && ltb n (2 ^ 63)
is_number (false, n) = not (n == 0) && ltb n (2 ^ 63 - 1)

-- The tests of the ssp, in order.
unfoldable pub is_cbhe_ssp : List ℕ → Bool
unfolding find_from scan_long
is_cbhe_ssp ssp =
    let dot = find_from 0 ssp b'.' in
    if dot == npos
    then false
    else if not (is_number (scan_long ssp))
    then false
    else if (dot + 1) % size_mod == length ssp
    then false
    else is_number (scan_long (drop (dot + 1) ssp))

unfoldable pub is_ipn_cbhe : EndpointId → Option Bool
unfolding is_cbhe_ssp
is_ipn_cbhe eid = scheme eid >>= λ s.
    if not (bytes_eq s ipn) then some false else (ssp eid >>= λ t. some (is_cbhe_ssp t))

find_from-first :
    (i x : ℕ) (a b : List ℕ) → All (λ c. c ≢ x) a → find_from i (a ++ (x ∷ b)) x ≡ i + length a
unfolding find_from
find_from-first i x [] b none_there = ground arith
find_from-first i x (c ∷ a) b (other, none_there) =
    ground (arith, find_from-first (i + 1) x a b none_there, other)

drop-behind : (a b : List ℕ) (x : ℕ) → drop (length a + 1) (a ++ (x ∷ b)) ≡ b
drop-behind [] b x = refl
drop-behind (c ∷ a) b x = ap (λ (n : ℕ). drop n (c ∷ (a ++ (x ∷ b)))) one_more ∙ drop-behind a b x
  where
    one_more : length (c ∷ a) + 1 ≡ suc (length a + 1)
    one_more = omega arith

tests :
    (node service : ℕ)
    → node < 2 ^ 32
    → service < 2 ^ 32
    → (if not (is_number (false, node)) then false else is_number (false, service))
      ≡ (not (node == 0) && not (service == 0))
tests node service small fits = ground (arith, small, fits)

module _ (node service : ℕ) (small : node < 2 ^ 32) (fits : service < 2 ^ 32) where
  text : List ℕ
  text = ipn_ssp node service

  dot_at : find_from 0 text b'.' ≡ length (print_unsigned node)
  unfolding text
  dot_at =
      find_from-first 0 b'.' (print_unsigned node) (print_unsigned service)
        (print_unsigned-other b'.' node (omega arith))
      ∙ omega arith

  size : length text ≡ length (print_unsigned node) + 1 + length (print_unsigned service)
  unfolding text
  size = omega (arith, length-append (print_unsigned node) (b'.' ∷ print_unsigned service))

  is_cbhe_ssp-text : is_cbhe_ssp text ≡ (not (node == 0) && not (service == 0))
  unfolding is_cbhe_ssp text
  is_cbhe_ssp-text = rw dot_at (
      rw not_npos (
        rw first (
          rw not_last (
            rw (drop-behind (print_unsigned node) (print_unsigned service) b'.')
              (rw second (tests node service small fits))))))
    where
      digits : (n : ℕ) → (1 ≤ length (print_unsigned n)) × (length (print_unsigned n) ≤ 10)
      digits = length-print_unsigned

      not_npos : (length (print_unsigned node) == npos) ≡ false
      not_npos = ground (arith, digits node)

      not_last : ((length (print_unsigned node) + 1) % size_mod == length text) ≡ false
      not_last = ground (arith, digits node, digits service, size)

      first : scan_long (print_unsigned node ++ (b'.' ∷ print_unsigned service)) ≡ (false, node)
      first = scan_long-print_unsigned node (b'.' ∷ print_unsigned service) small refl

      second : scan_long (print_unsigned service) ≡ (false, service)
      second =
          ap scan_long (sym (append-nil (print_unsigned service)))
          ∙ scan_long-print_unsigned service [] fits tt

  -- Such an id reads back as its two texts.
  pub scheme-ipn_ssp :
      (scheme (from_parts ipn (ipn_ssp node service)) ≡ some ipn)
      × (ssp (from_parts ipn (ipn_ssp node service)) ≡ some (ipn_ssp node service))
  unfolding text
  scheme-ipn_ssp =
      let (_, s, t) =
        from_parts-read ipn text (record { some_bytes = omega arith; in_limit = omega arith })
          (record {
            some_bytes = omega (arith, size);
            in_limit =
                omega (arith, size, length-print_unsigned node, length-print_unsigned service);
          }) in
      (s, t)

  -- The id of a node and a service of 32 bits is one for `IsIpnCbhe` exactly if neither number is 0.
  pub is_ipn_cbhe-ipn_ssp :
      is_ipn_cbhe (from_parts ipn (ipn_ssp node service))
      ≡ some (not (node == 0) && not (service == 0))
  unfolding is_ipn_cbhe text
  is_ipn_cbhe-ipn_ssp = rw (scheme-ipn_ssp.0) (rw (scheme-ipn_ssp.1) (ap some is_cbhe_ssp-text))
