-- ===== src/Forward/Fragments.antt =====
-- The pieces of a bundle, put together, are its application data.
use ns3_dtn.Prelude.{
  ℕ, zero, suc, ◌+◌, ◌-◌, ◌≤◌, ◌<◌, ◌≡◌, inl, inr, refl, ap, sym, ◌∙◌, Bool, true, false, min,
  arith,
}
use ns3_dtn.Prelude.{List, [], ◌∷◌, ◌++◌, some, length, take, drop, Bool-cases, ltb, if◌then◌else◌}
use ns3_dtn.Prelude.{length-take, length-drop}
use ns3_dtn.Header.{set_is_fragment, is_fragment}
use ns3_dtn.Forward.{Bundle6, Sent, set_piece, send_bundle, send_loop, send_pieces}
use mathlib.Core.Path.{subst}
use native.Mathlib.Numerals.{unary_clauses}
use ns3_dtn.Header
use ns3_dtn.Header.Flags.{flag-set_flag}

take-drop_all : (n : ℕ) (xs : List ℕ) → take n xs ++ drop n xs ≡ xs
take-drop_all zero [] = refl
take-drop_all (suc n) [] = refl
take-drop_all zero (x ∷ xs) = refl
take-drop_all (suc n) (x ∷ xs) = ap (◌∷◌ x) (take-drop_all n xs)

take-drop-split : (n at : ℕ) (xs : List ℕ) → take n (drop at xs) ++ drop (at + n) xs ≡ drop at xs
take-drop-split n zero xs = ap (λ (k : ℕ). take n xs ++ drop k xs) no_offset ∙ take-drop_all n xs
  where
    no_offset : 0 + n ≡ n
    no_offset = omega arith
take-drop-split n (suc at) [] = from_nil n (suc at + n)
  where
    from_nil : (n k : ℕ) → take {A = ℕ} n [] ++ drop {A = ℕ} k [] ≡ []
    from_nil zero zero = refl
    from_nil zero (suc k) = refl
    from_nil (suc n) zero = refl
    from_nil (suc n) (suc k) = refl
take-drop-split n (suc at) (x ∷ xs) =
    ap (λ (k : ℕ). take n (drop at xs) ++ drop k (x ∷ xs)) next ∙ take-drop-split n at xs
  where
    next : suc at + n ≡ suc (at + n)
    next = omega arith

drop-length : (xs : List ℕ) → drop (length xs) xs ≡ []
drop-length [] = refl
drop-length (x ∷ xs) = drop-length xs

sent_all : (xs : List ℕ) → [] ≡ drop (length xs - 0) xs
sent_all xs = simp unary_clauses (sym (drop-length xs))

module _ {Time : Type 0} where
  -- The pieces, one behind the other.
  abbrev pub pieces : List (Sent Time) → List ℕ
  pieces [] = []
  pieces (s ∷ ss) = s.piece ++ pieces ss

  -- Every piece holds 1 to `size` bytes, both headers announce its length, and the primary header
  -- has the flag and, from `at` on, the offsets of the pieces.
  abbrev pub Chain : ℕ → Bool → ℕ → List (Sent Time) → Type 0
  Chain size fragment at [] = Unit {0}
  Chain size fragment at (s ∷ ss) =
      (1 ≤ length s.piece)
      × (length s.piece ≤ size)
      × (s.header.block_length ≡ length s.piece)
      × (s.payload_header.block_length ≡ length s.piece)
      × (is_fragment s.header.base ≡ fragment)
      × (s.header.frag_offset ≡ (if fragment then at else 0))
      × Chain size fragment (at + length s.piece) ss

  is_fragment_lem :
      (size offset : ℕ) (fragment : Bool) (b : Bundle6 Time)
      → is_fragment (set_piece size fragment offset b).header.base ≡ fragment
  unfolding Header.set_flag Header.flag
  is_fragment_lem size offset fragment b =
      (flag-set_flag Header.Flag.bundle_is_fragment Header.Flag.bundle_is_fragment fragment
        b.header.base).0

  -- What the loop leaves, with `left` bytes to send.
  Done : ℕ → ℕ → ℕ → Bool → Bundle6 Time → Type 0
  Done fuel size left fragment b =
      (last : Bundle6 Time) × (sent : List (Sent Time)) × (send_loop fuel size fragment left b
        ≡ some (last, sent))
      × (pieces sent ≡ drop (length b.adu - left) b.adu)
      × Chain size fragment (length b.adu - left) sent
      × (last.adu ≡ b.adu)
      × (last.retention_constraints ≡ b.retention_constraints)

  nothing_left : (fuel size : ℕ) (fragment : Bool) (b : Bundle6 Time) → Done fuel size 0 fragment b
  unfolding send_loop Done
  nothing_left zero size fragment b = (b, [], refl, sent_all b.adu, tt, refl, refl)
  nothing_left (suc fuel) size fragment b = (b, [], refl, sent_all b.adu, tt, refl, refl)

  one_round :
      (fuel size left at : ℕ) (fragment : Bool) (b : Bundle6 Time)
      → 0 < size
      → 0 < left
      → at + left ≡ length b.adu
      → (if fragment then length b.adu - left else 0) ≡ at
      → Done fuel size
          (left - min left size)
          fragment
          (set_piece (min left size) fragment (if fragment then length b.adu - left else 0) b)
      → Done (suc fuel) size left fragment b
  unfolding send_loop Done
  one_round fuel size left at fragment b pos some_left within offset
        (last, sent, runs, whole, chain, same_adu, same_retention) =
      (
        last,
        send_bundle b' ∷ sent,
        rw (positive, runs) refl,
        ap (λ (ys : List ℕ). take (min left size) (drop off b.adu) ++ ys)
              (whole ∙ ap (λ k. drop k b.adu) next)
            ∙ joined,
        (
          omega (arith, long),
          omega (arith, long),
          sym long,
          sym long,
          is_fragment_lem (min left size) off fragment b,
          refl,
          subst (λ (k : ℕ). Chain size fragment k sent) same_place chain,
        ),
        same_adu,
        same_retention,
      )
    where
      off : ℕ
      off = if fragment then length b.adu - left else 0

      b' : Bundle6 Time
      b' = set_piece (min left size) fragment off b

      long : length (take (min left size) (drop off b.adu)) ≡ min left size
      long = omega (
        arith,
        offset,
        within,
        length-take (min left size) (drop off b.adu),
        length-drop off b.adu,
      )

      next : length b.adu - (left - min left size) ≡ at + min left size
      next = omega arith

      positive : ltb 0 left ≡ true
      positive = ground arith

      joined :
          take (min left size) (drop off b.adu) ++ drop (at + min left size) b.adu
          ≡ drop (length b.adu - left) b.adu
      joined =
          ap (λ (k : ℕ). take (min left size) (drop k b.adu) ++ drop (at + min left size) b.adu)
            offset
          ∙ take-drop-split (min left size) at b.adu
          ∙ ap (λ (k : ℕ). drop k b.adu) (omega arith)

      same_place :
          length b.adu - (left - min left size)
          ≡ length b.adu - left + length (take (min left size) (drop off b.adu))
      same_place = omega (arith, long)

  fragments-Done :
      (fuel size left : ℕ) (b : Bundle6 Time)
      → 0 < size
      → left ≤ fuel
      → left ≤ length b.adu
      → Done fuel size left true b
  fragments-Done fuel size zero b pos enough within = nothing_left fuel size true b
  fragments-Done zero size (suc left) b pos enough within = absurd (omega arith)
  fragments-Done (suc fuel) size (suc left) b pos enough within =
      one_round fuel size (suc left) (length b.adu - suc left) true b pos (omega arith)
        (omega arith) refl
        (fragments-Done fuel size (suc left - min (suc left) size) _ pos (omega arith)
          (omega arith))

  whole-Done :
      (fuel size left : ℕ) (b : Bundle6 Time)
      → 0 < size
      → left ≤ fuel
      → left ≡ length b.adu
      → left ≤ size
      → Done fuel size left false b
  whole-Done fuel size zero b pos enough all small = nothing_left fuel size false b
  whole-Done zero size (suc left) b pos enough all small = absurd (omega arith)
  whole-Done (suc fuel) size (suc left) b pos enough all small =
      one_round fuel size (suc left) 0 false b pos (omega arith) (omega arith) refl
        (rw none_left (nothing_left fuel size false _))
    where
      none_left : suc left - min (suc left) size ≡ 0
      none_left = omega arith

  -- With a bundle size that is not 0 the loop of `Forward` ends after at most as many rounds as the
  -- bundle has bytes; the pieces it sends are, put together, the bundle's application data; each
  -- holds at least a byte and at most the bundle size; both headers give its length; it is marked
  -- as a fragment exactly if the data is larger than the bundle size, and then has the offset at
  -- which it starts, else the offset 0; the data and the retention constraints do not change.
  pub send_pieces-pieces :
      (size : ℕ) (b : Bundle6 Time)
      → 0 < size
      → (last : Bundle6 Time) × (sent : List (Sent Time)) × (send_pieces size b ≡ some (last, sent))
        × (pieces sent ≡ b.adu)
        × Chain size (ltb size (length b.adu)) 0 sent
        × (last.adu ≡ b.adu)
        × (last.retention_constraints ≡ b.retention_constraints)
  unfolding send_pieces Done
  send_pieces-pieces size b pos = from_start (elim (Bool-cases (ltb size (length b.adu))) [
    | inl larger ↦
        rw larger
          (fragments-Done (length b.adu) size (length b.adu) b pos (omega arith) (omega arith))
    | inr fits ↦
        rw fits
          (whole-Done (length b.adu) size (length b.adu) b pos (omega arith) refl (ground arith))
  ])
    where
      start : length b.adu - length b.adu ≡ 0
      start = omega arith

      from_start :
          Done (length b.adu) size (length b.adu) (ltb size (length b.adu)) b
          → (last : Bundle6 Time) × (sent : List (Sent Time)) × (send_pieces size b
              ≡ some (last, sent))
            × (pieces sent ≡ b.adu)
            × Chain size (ltb size (length b.adu)) 0 sent
            × (last.adu ≡ b.adu)
            × (last.retention_constraints ≡ b.retention_constraints)
      from_start (last, sent, runs, whole, chain, same_adu, same_retention) = (
        last,
        sent,
        runs,
        whole ∙ ap (λ (k : ℕ). drop k b.adu) start,
        subst (λ (k : ℕ). Chain size (ltb size (length b.adu)) k sent) start chain,
        same_adu,
        same_retention,
      )
