-- ===== src/Header6/Truncated.antt =====
-- `Deserialize` of a header that is cut off.
use ns3_dtn.Prelude.{
  ℕ, zero, suc, ◌%◌, ◌^◌, ◌<◌, ◌≤◌, ◌≡◌, sym, ap, ◌∙◌, List, [], ◌∷◌, ◌++◌, Option, none, some,
  ◌>>=◌, length, take,
}
use ns3_dtn.Prelude.Readers.{IsStable, stable_step, stable_end, map-IsStable, take-none_sized}
use mathlib.Core.List.{append-nil}
use ns3_dtn.Sdnv.{decode}
use ns3_dtn.Sdnv.Truncated.{decode-IsStable}
use ns3_dtn.Header6.{Header6}
use ns3_dtn.Header6.Wire.{read_u8, read_bytes, serialize, deserialize}
use ns3_dtn.Header6.RoundTrip
use ns3_dtn.Header6.RoundTrip.{deserialize-serialize}

read_u8-IsStable : IsStable read_u8
read_u8-IsStable [] t r a e = absurd (cc e)
read_u8-IsStable (b ∷ s) t r a e = ap (λ o. o >>= λ (b, i). some (b, i ++ t)) e

read_bytes-IsStable : (k : ℕ) → IsStable (read_bytes k)
unfolding read_bytes
read_bytes-IsStable zero s t r a e = ap (λ o. o >>= λ (b, i). some (b, i ++ t)) e
read_bytes-IsStable (suc k) [] t r a e = absurd (cc e)
read_bytes-IsStable (suc k) (b ∷ s) t r a e =
    map-IsStable (read_bytes k) (λ bs. b ∷ bs) (read_bytes-IsStable k) s t r a e

module _ {Time : Type 0} (seconds : ℕ → Time) where
  -- More bytes behind the input change nothing, and no more bytes are read than there are.
  deserialize_stable :
      (g : Header6 Time) (s t : List ℕ) (b : Header6 Time × ℕ)
      → deserialize seconds g s ≡ some b
      → (deserialize seconds g (s ++ t) ≡ some b) × (b.1 ≤ length s)
  unfolding deserialize
  deserialize_stable g s t b runs = stable_step read_u8 read_u8-IsStable s t _ _ b b runs λ _ i e.
      next i _ _ e λ _ i e. next i _ _ e λ _ i e. next i _ _ e λ _ i e. next i _ _ e λ _ i e.
        next i _ _ e λ _ i e. next i _ _ e λ _ i e. next i _ _ e λ _ i e. next i _ _ e λ _ i e.
          next i _ _ e λ _ i e. next i _ _ e λ _ i e. next i _ _ e λ _ i e. next i _ _ e λ _ i e.
            next i _ _ e λ _ i e. next i _ _ e λ n i e.
              stable_step (read_bytes (n % 2 ^ 32)) (read_bytes-IsStable (n % 2 ^ 32)) i t _ _ b b e
                λ _ i e. next i _ _ e λ _ i e. next i _ _ e λ _ i e. stable_end _ s t i b e
    where
      next :
          (i : List ℕ) (K K' : ℕ × List ℕ → Option (Header6 Time × ℕ))
          → (decode i >>= K) ≡ some b
          → ((a : ℕ) (r : List ℕ)
              → K (a, r) ≡ some b
              → (K' (a, r ++ t) ≡ some b) × (b.1 ≤ length s))
          → ((decode (i ++ t) >>= K') ≡ some b) × (b.1 ≤ length s)
      next i K K' e behind = stable_step decode decode-IsStable i t K K' b b e behind

  -- `Deserialize` reads past the end of every proper prefix of what `Serialize` wrote: a header that
  -- is cut off is never taken for another one. The fields lie in the ranges of their types and the
  -- lifetime is a whole number of seconds.
  pub deserialize-take :
      (get_seconds : Time → ℕ) (h g : Header6 Time) (k : ℕ)
      → RoundTrip.Fits get_seconds h
      → seconds (get_seconds h.life_time) ≡ h.life_time
      → k < length (serialize get_seconds h)
      → deserialize seconds g (take k (serialize get_seconds h)) ≡ none
  deserialize-take get_seconds h g k fits whole cut =
      take-none_sized (deserialize seconds g) (serialize get_seconds h)
        (record h { base = record h.base { cbhe = g.cbhe } }) k (deserialize_stable g)
        (ap (deserialize seconds g) (sym (append-nil (serialize get_seconds h)))
          ∙ deserialize-serialize get_seconds seconds h g [] fits whole)
        cut
