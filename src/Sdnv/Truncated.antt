-- ===== src/Sdnv/Truncated.antt =====
-- `Decode` at the end of its input.
use ns3_dtn.Prelude.{
  ℕ, ◌<◌, ◌≡◌, sym, ap, ◌∙◌, arith, List, [], ◌∷◌, ◌++◌, none, Bool-cases, inl, inr, length, take,
}
use ns3_dtn.Prelude.Readers.{IsStable, map-IsStable, take-none}
use mathlib.Core.List.{append-nil}
use ns3_dtn.Sdnv.{IsU64, encode, is_last, take_number, decode_vector, decode}
use ns3_dtn.Sdnv.RoundTrip.{decode-encode}

take_number-IsStable : (vec : List ℕ) → IsStable (take_number vec)
unfolding take_number
take_number-IsStable vec [] t r a e = absurd (ground (arith, e))
take_number-IsStable vec (b ∷ s) t r a e = elim (Bool-cases (is_last b)) [
  | inl p ↦ ground (arith, p, e)
  | inr p ↦ rw p (take_number-IsStable (vec ++ (b ∷ [])) s t r a (ground (arith, p, e)))
]

pub decode-IsStable : IsStable decode
unfolding decode
decode-IsStable = map-IsStable (take_number []) decode_vector (take_number-IsStable [])

-- `Decode` reads past the end of every proper prefix of what `Encode` wrote of a 64-bit value.
pub decode-take : (v k : ℕ) → IsU64 v → k < length (encode v) → decode (take k (encode v)) ≡ none
decode-take v k fits cut =
    take-none decode (encode v) v k decode-IsStable
      (ap decode (sym (append-nil (encode v))) ∙ decode-encode v [] fits) cut
