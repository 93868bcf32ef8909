-- ===== src/Bundle7/Writes.antt =====
-- Writes into a buffer, one behind the other.
use ns3_dtn.Prelude.{
  ℕ, suc, ◌+◌, ◌≤◌, ◌≡◌, refl, ap, sym, ◌∙◌, arith, List, [], ◌∷◌, ◌++◌, some, length,
  length-append, length-drop, take-append, drop, leb, true,
}
use mathlib.Core.List.{append_assoc, append-nil}
use ns3_dtn.Bundle7.{write_at}

drop-past : (front rest : List ℕ) (k : ℕ) → drop (length front + k) (front ++ rest) ≡ drop k rest
drop-past [] rest k = ap (λ (n : ℕ). drop n rest) none_in_front
  where
    none_in_front : 0 + k ≡ k
    none_in_front = omega arith
drop-past (x ∷ front) rest k =
    ap (λ (n : ℕ). drop n (x ∷ (front ++ rest))) one_more ∙ drop-past front rest k
  where
    one_more : length (x ∷ front) + k ≡ suc (length front + k)
    one_more = omega arith

-- A write behind what has been written, where there is room for it.
pub write_at-next :
    (front bs rest : List ℕ)
    → length bs ≤ length rest
    → write_at (length front) bs (front ++ rest) ≡ some ((front ++ bs) ++ drop (length bs) rest)
unfolding write_at
write_at-next front bs rest room = rw fits (
    ap some (
      ap (λ (ys : List ℕ). ys ++ (bs ++ drop (length front + length bs) (front ++ rest)))
        (take-append front rest)
      ∙ ap (λ (ys : List ℕ). front ++ (bs ++ ys)) (drop-past front rest (length bs))
      ∙ sym (append_assoc front bs (drop (length bs) rest))))
  where
    fits : leb (length front + length bs) (length (front ++ rest)) ≡ true
    fits = ground (arith, length-append front rest, room)

-- Three writes that fill a buffer.
pub write_at-three :
    (first : ℕ) (header block buffer : List ℕ)
    → length buffer ≡ 1 + length header + length block
    → (data1 data2 : List ℕ) × (write_at 0 (first ∷ []) buffer ≡ some data1)
      × (write_at 1 header data1 ≡ some data2)
      × (write_at (1 + length header) block data2 ≡ some (first ∷ (header ++ block)))
write_at-three first header block buffer room = (
  (first ∷ []) ++ rest1,
  ((first ∷ []) ++ header) ++ rest2,
  write_at-next [] (first ∷ []) buffer (omega (arith, room)),
  write_at-next (first ∷ []) header rest1 (omega (arith, room, length-drop 1 buffer)),
  ap (λ (n : ℕ). write_at n block (((first ∷ []) ++ header) ++ rest2))
        (omega (arith, length-append (first ∷ []) header))
      ∙ write_at-next ((first ∷ []) ++ header) block rest2 (omega (arith, filled))
      ∙ ap (λ (ys : List ℕ). some ((((first ∷ []) ++ header) ++ block) ++ ys))
          (nothing _ (omega (arith, filled, length-drop (length block) rest2)))
      ∙ ap some (append-nil (((first ∷ []) ++ header) ++ block)),
)
  where
    rest1 : List ℕ
    rest1 = drop 1 buffer

    rest2 : List ℕ
    rest2 = drop (length header) rest1

    filled : length rest2 ≡ length block
    filled = omega (arith, room, length-drop 1 buffer, length-drop (length header) rest1)

    nothing : (ys : List ℕ) → length ys ≡ 0 → ys ≡ []
    nothing [] e = refl
    nothing (y ∷ ys) e = absurd (omega (arith, e))
