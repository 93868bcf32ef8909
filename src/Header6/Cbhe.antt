-- ===== src/Header6/Cbhe.antt =====
-- The endpoint ids of a header with CBHE: the setters keep two numbers of an "ipn" id in 16 bits.
use ns3_dtn.Prelude.{
  ℕ, ◌%◌, ◌^◌, ◌<◌, ◌≡◌, true, List, [], ◌∷◌, Option, some, ◌>>=◌, All, refl, ap, ◌∙◌,
  if◌then◌else◌,
}
use ns3_dtn.EndpointId.{from_parts}
use ns3_dtn.EndpointId.Cbhe.{scheme-ipn_ssp}
use ns3_dtn.Header6.{Header6, Place, Role}
use ns3_dtn.Header6.Dictionary.{ipn, ipn_ssp, place, put_place, number_eid, set_eid, get_eid}
use ns3_dtn.Header6.Endpoints.{same_role, cbhe-put_place, place-put_place, dictionary-put_place}
use ns3_dtn.Header7.Ids.{ipn_node-ipn_ssp}

-- A call of the setter of `role`, with the id of a node and a service.
pub record Numbers : Type 0 where
  pub role : Role
  pub node : ℕ
  pub service : ℕ

pub record IsSmall (s : Numbers) : Type 0 where
  pub node_fits : s.node < 2 ^ 32
  pub service_fits : s.service < 2 ^ 32

-- What is left of the numbers.
abbrev pub cut_place : Numbers → Place
cut_place s = record { scheme_offset = s.node % 2 ^ 16; ssp_offset = s.service % 2 ^ 16 }

-- The numbers that were set last for a role, or else `p`.
abbrev pub latest_place : Role → List Numbers → Place → Place
latest_place r [] p = p
latest_place r (s ∷ ss) p = latest_place r ss (if same_role s.role r then cut_place s else p)

module _ {Time : Type 0} where
  unfoldable pub set_numbers : List Numbers → Header6 Time → Option (Header6 Time)
  set_numbers [] h = some h
  set_numbers (s ∷ ss) h =
      set_eid s.role (from_parts ipn (ipn_ssp s.node s.service)) h >>= set_numbers ss

  set_eid-number :
      (s : Numbers) (h : Header6 Time)
      → IsSmall s
      → h.base.cbhe ≡ true
      → set_eid s.role (from_parts ipn (ipn_ssp s.node s.service)) h
        ≡ some (put_place s.role (cut_place s) h)
  unfolding set_eid number_eid
  set_eid-number s h small on =
      let (scheme, ssp) = scheme-ipn_ssp s.node s.service small.node_fits small.service_fits in
      let (node, service) = ipn_node-ipn_ssp s.node s.service small.node_fits small.service_fits in
      rw scheme (rw ssp (rw on (rw node (rw service refl))))

  -- Any sequence of calls of the four setters with ids of a node and a service of 32 bits succeeds
  -- on a header with CBHE and leaves the dictionary as it is, and then the getter of each role returns
  -- the id of the two numbers that were set last for it, each cut to 16 bits, or, if none were, the id
  -- of the two numbers that the header held.
  pub get_eid-set_numbers :
      (ss : List Numbers) (h : Header6 Time) (r : Role)
      → All IsSmall ss
      → h.base.cbhe ≡ true
      → (h' : Header6 Time) × (set_numbers ss h ≡ some h')
        × (h'.dictionary ≡ h.dictionary)
        × (let p = latest_place r ss (place r h) in
            get_eid r h' ≡ some (from_parts ipn (ipn_ssp p.scheme_offset p.ssp_offset)))
  unfolding set_numbers get_eid
  get_eid-set_numbers [] h r small on = (h, refl, refl, rw on refl)
  get_eid-set_numbers (s ∷ ss) h r (small, rest) on =
      let once : Header6 Time = put_place s.role (cut_place s) h in
      let (h', done, same, reads) =
        get_eid-set_numbers ss once r rest (cbhe-put_place s.role (cut_place s) h ∙ on) in
      (
        h',
        rw (set_eid-number s h small on) done,
        same ∙ dictionary-put_place s.role (cut_place s) h,
        reads
            ∙ ap
                (λ (p : Place). some (
                  from_parts ipn
                    (ipn_ssp (latest_place r ss p).scheme_offset (latest_place r ss p).ssp_offset)))
                (place-put_place s.role r (cut_place s) h),
      )
