-- ===== src/Prelude/Readers.antt =====
-- Readers of bytes, which return what they leave: what more bytes behind the input do, and a cut.
use ns3_dtn.Prelude.Tests.{◌>>=◌, Option-cases}
use ns3_dtn.Prelude.Lists.{length, take, drop, length-append, length-drop, length-take}
use Prim.Native.Nat.{ℕ, zero, suc, ◌-◌, ◌≤◌, ◌<◌}
use native.Mathlib.Omega.{arith}
use mathlib.Core.Path.{◌≡◌, refl, sym, ap, ◌∙◌}
use mathlib.Core.Logic.{inl, inr}
use mathlib.Core.List.{List, [], ◌∷◌, ◌++◌}
use mathlib.Core.Option.{Option, none, some, some-injective}

-- A reader that succeeds is not disturbed by bytes behind its input, and leaves them.
abbrev pub IsStable : {A : Type 0} → (List ℕ → Option (A × List ℕ)) → Type 0
IsStable {A} p = (s t r : List ℕ) (a : A) → p s ≡ some (a, r) → p (s ++ t) ≡ some (a, r ++ t)

pub take-drop : (k : ℕ) (s : List ℕ) → take k s ++ drop k s ≡ s
take-drop zero s = refl
take-drop (suc k) [] = refl
take-drop (suc k) (x ∷ s) = ap (◌∷◌ x) (take-drop k s)

-- One step of a chain of readers, from the input `s` to `s ++ t`; `Q` is what else is known at the
-- chain's end.
pub stable_step :
    {A B : Type 0} {Q : Type 0} (p : List ℕ → Option (A × List ℕ))
    → IsStable p
    → (s t : List ℕ) (K K' : A × List ℕ → Option B) (b b' : B) → (p s >>= K) ≡ some b
    → ((a : A) (r : List ℕ) → K (a, r) ≡ some b → (K' (a, r ++ t) ≡ some b') × Q)
    → ((p (s ++ t) >>= K') ≡ some b') × Q
stable_step p stable s t K K' b b' runs behind = elim (Option-cases (p s)) [
  | inl e ↦ absurd (none_runs (sym (ap (λ o. o >>= K) e) ∙ runs))
  | inr ((a, r), e) ↦
      let (next, known) = behind a r (sym (ap (λ o. o >>= K) e) ∙ runs) in
      (ap (λ o. o >>= K') (stable s t r a e) ∙ next, known)
]
  where
    none_runs : ¬ (none ≡ some b)
    none_runs e = absurd (cc e)

-- The end of a chain that returns the number of bytes read.
pub stable_end :
    {B : Type 0} (v : B) (s t r : List ℕ) (b : B × ℕ)
    → some (v, length s - length r) ≡ some b
    → (some (v, length (s ++ t) - length (r ++ t)) ≡ some b) × (b.1 ≤ length s)
stable_end v s t r b e = (
  ap (λ (n : ℕ). some (v, n)) (omega (arith, length-append s t, length-append r t)) ∙ e,
  omega (arith, ap (λ q. q.1) (some-injective _ _ e)),
)

-- A value made of the one that is read.
pub map-IsStable :
    {A B : Type 0} (p : List ℕ → Option (A × List ℕ)) (f : A → B)
    → IsStable p
    → IsStable (λ s. p s >>= λ (a, i). some (f a, i))
map-IsStable p f stable s t r b runs =
    (stable_step {Q = Unit {0}} p stable s t (λ (a, i). some (f a, i)) (λ (a, i). some (f a, i))
      (b, r) (b, r ++ t) runs (λ a i e. (ap (λ o. o >>= λ (b, i). some (b, i ++ t)) e, tt))).0

-- A reader that uses up its input fails on every cut of it.
pub take-none :
    {A : Type 0} (p : List ℕ → Option (A × List ℕ)) (bs : List ℕ) (v : A) (k : ℕ)
    → IsStable p
    → p bs ≡ some (v, [])
    → k < length bs
    → p (take k bs) ≡ none
take-none {A = A} p bs v k stable all cut = elim (Option-cases (p (take k bs))) [
  | inl e ↦ e
  | inr ((a, r), e) ↦
      let same : p (take k bs ++ drop k bs) ≡ some (v, []) = ap p (take-drop k bs) ∙ all in
      let nothing : (a, r ++ drop k bs) ≡ (v, []) =
        some-injective _ _ (sym (stable (take k bs) (drop k bs) r a e) ∙ same) in
      absurd (
        omega (
          arith,
          cut,
          ap (λ (q : A × List ℕ). length q.1) nothing,
          length-append r (drop k bs),
          length-drop k bs,
        ))
]

-- A reader that returns the number of bytes read, like `Deserialize`, and reads all of its input,
-- fails on every cut of it.
pub take-none_sized :
    {B : Type 0} (q : List ℕ → Option (B × ℕ)) (bs : List ℕ) (v : B) (k : ℕ)
    → ((s t : List ℕ) (b : B × ℕ) → q s ≡ some b → (q (s ++ t) ≡ some b) × (b.1 ≤ length s))
    → q bs ≡ some (v, length bs)
    → k < length bs
    → q (take k bs) ≡ none
take-none_sized q bs v k stable all cut = elim (Option-cases (q (take k bs))) [
  | inl e ↦ e
  | inr (b, e) ↦
      let (again, within) = stable (take k bs) (drop k bs) b e in
      let same : b ≡ (v, length bs) =
        some-injective _ _ (sym again ∙ ap q (take-drop k bs) ∙ all) in
      absurd (omega (arith, cut, ap (λ p. p.1) same, within, length-take k bs))
]
