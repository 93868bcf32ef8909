-- ===== src/Agent/Custody/Ranges.antt =====
-- The ranges that custody signals acknowledge, one after the other.
use ns3_dtn.Prelude.{ℕ, ◌<◌, ◌≡◌, refl, ap, arith, ◌&&◌, List, [], ◌∷◌, ◌==◌}
use ns3_dtn.Agent.Custody.{extend_acks, combine, fully_acked}

-- The loop of signals on the ranges of one bundle.
unfoldable pub combine_all : List (ℕ × ℕ) → List (ℕ × ℕ) → List (ℕ × ℕ)
combine_all [] acks = acks
combine_all (this ∷ more) acks = combine_all more (combine this acks)

-- Ranges that come one after the other, where those before have covered `first` up to `last`. One
-- that is not empty and meets that at an end makes it grow, up to `low` and `high` in the end; one
-- that meets it at neither end is lost.
pub data Meets : ℕ → ℕ → ℕ → ℕ → List (ℕ × ℕ) → Type 0 where
  all_met : {low high : ℕ} → Meets low high low high []
  above :
      {first last low high : ℕ} {more : List (ℕ × ℕ)} (end : ℕ)
      → last < end
      → Meets first end low high more
      → Meets first last low high ((last, end) ∷ more)
  below :
      {first last low high : ℕ} {more : List (ℕ × ℕ)} (start : ℕ)
      → start < first
      → Meets start last low high more
      → Meets first last low high ((start, first) ∷ more)
  lost :
      {first last low high : ℕ} {more : List (ℕ × ℕ)} (start end : ℕ)
      → ¬ (end ≡ first)
      → ¬ (start ≡ last)
      → Meets first last low high more
      → Meets first last low high ((start, end) ∷ more)

combine-above :
    (first last end : ℕ)
    → first < last
    → last < end
    → combine (last, end) ((first, last) ∷ []) ≡ (first, end) ∷ []
unfolding combine extend_acks
combine-above first last end h k = ground arith

combine-below :
    (first last start : ℕ)
    → first < last
    → start < first
    → combine (start, first) ((first, last) ∷ []) ≡ (start, last) ∷ []
unfolding combine extend_acks
combine-below first last start h k = ground arith

-- A range that meets the one that is known neither at its start nor at its end is lost.
combine-apart :
    (first last start end : ℕ)
    → ¬ (end ≡ first)
    → ¬ (start ≡ last)
    → combine (start, end) ((first, last) ∷ []) ≡ (first, last) ∷ []
unfolding combine extend_acks
combine-apart first last start end h k = ground arith

combine_all-more :
    (first last low high : ℕ) (more : List (ℕ × ℕ))
    → first < last
    → Meets first last low high more
    → combine_all more ((first, last) ∷ []) ≡ (low, high) ∷ []
unfolding combine_all
combine_all-more first last low high more h all_met = refl
combine_all-more first last low high (_ ∷ more) h (above end k rest) =
    rw (combine-above first last end h k)
      (combine_all-more first end low high more (omega arith) rest)
combine_all-more first last low high (_ ∷ more) h (below start k rest) =
    rw (combine-below first last start h k)
      (combine_all-more start last low high more (omega arith) rest)
combine_all-more first last low high (_ ∷ more) h (lost start end k l rest) =
    rw (combine-apart first last start end k l) (combine_all-more first last low high more h rest)

-- Of the signals about ranges of a bundle each that is not empty and meets, at one end, what the
-- ones before have covered makes that grow, and each that meets it at neither end is lost, also if a
-- later one closes the gap. What is left is one range, and the bundle counts as acknowledged exactly
-- if that is from 0 to its length.
pub fully_acked-combine_all :
    (first last low high adu_length : ℕ) (more : List (ℕ × ℕ))
    → first < last
    → Meets first last low high more
    → let acks = combine_all ((first, last) ∷ more) [] in
      (acks ≡ (low, high) ∷ []) × (fully_acked adu_length acks ≡ (low == 0) && (high == adu_length))
unfolding combine_all combine fully_acked
fully_acked-combine_all first last low high adu_length more h meets =
    let one = combine_all-more first last low high more h meets in
    (one, ap (fully_acked adu_length) one)
