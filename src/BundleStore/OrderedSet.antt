-- ===== src/BundleStore/OrderedSet.antt =====
-- Insertion and erasure on a list that is sorted by a strict total order.
use ns3_dtn.Prelude.{ℕ, suc, ◌+◌, ◌≡◌, refl, sym, ◌∙◌, Bool, true, arith, ◌⊎◌, inl, inr}
use ns3_dtn.Prelude.{List, [], ◌∷◌, ◌++◌, some, All, length, Bool-cases, Option-cases}
use ns3_dtn.BundleStore.{insert, erase?}
use ns3_dtn.BundleStore.Order.{StrictTotal}

abbrev pub Has : {A : Type 0} → A → List A → Type 0
Has x [] = ⊥
Has x (y ∷ ys) = (x ≡ y) ⊎ Has x ys

abbrev pub sum_of : {A : Type 0} → (A → ℕ) → List A → ℕ
sum_of f [] = 0
sum_of f (x ∷ xs) = f x + sum_of f xs

module _ {A : Type 0} (lt : A → A → Bool) where
  abbrev pub Above : A → List A → Type 0
  Above x = All (λ y. lt x y ≡ true)

  abbrev pub IsSorted : List A → Type 0
  IsSorted [] = Unit {0}
  IsSorted (x ∷ xs) = Above x xs × IsSorted xs

module _ {A : Type 0} {lt : A → A → Bool} (order : StrictTotal lt) where
  Above-trans : (x y : A) (zs : List A) → lt x y ≡ true → Above lt y zs → Above lt x zs
  Above-trans x y [] p h = tt
  Above-trans x y (z ∷ zs) p h = (order.trans x y z p h.0, Above-trans x y zs p h.1)

  insert-Above :
      (x y : A) (zs : List A) → lt x y ≡ true → Above lt x zs → Above lt x (insert lt y zs)
  unfolding insert
  insert-Above x y [] p h = (p, tt)
  insert-Above x y (z ∷ zs) p h = ground (arith, insert-Above x y zs p h.1)

  pub insert-IsSorted : (x : A) (ys : List A) → IsSorted lt ys → IsSorted lt (insert lt x ys)
  unfolding insert
  insert-IsSorted x [] h = (tt, tt)
  insert-IsSorted x (y ∷ ys) h = elim (Bool-cases (lt x y)) [
    | inl p ↦ rw p ((p, Above-trans x y ys p h.0), h)
    | inr p ↦ elim (Bool-cases (lt y x)) [
      | inl q ↦ rw p (rw q (insert-Above y x ys q h.0, insert-IsSorted x ys h.1))
      | inr q ↦ rw p (rw q h)
    ]
  ]

  -- A new element adds itself.
  pub insert-new :
      (f : A → ℕ) (x : A) (ys : List A)
      → ¬ Has x ys
      → (sum_of f (insert lt x ys) ≡ f x + sum_of f ys)
        × (length (insert lt x ys) ≡ suc (length ys))
  unfolding insert
  insert-new f x [] h = (refl, refl)
  insert-new f x (y ∷ ys) h =
      ground (arith, insert-new f x ys (λ q. h (inr q)), order.total x y, new)
    where
      new : x ≡ y → ⊥
      new e = h (inl e)

  -- The two ways in which an erasure succeeds at the head of a list.
  erase?-cons :
      (x y : A) (ys zs : List A)
      → erase? lt x (y ∷ ys) ≡ some zs
      → ((ws : List A) × (erase? lt x ys ≡ some ws) × (zs ≡ y ∷ ws)) ⊎ ((x ≡ y) × (zs ≡ ys))
  unfolding erase?
  erase?-cons x y ys zs e = elim (Option-cases (erase? lt x ys)) [
    | inl n ↦ inr (ground (arith, order.total x y), ground arith)
    | inr (ws, w) ↦ elim (Bool-cases (lt y x)) [
      | inl p ↦ inl (ws, w, ground arith)
      | inr p ↦ inr (ground (arith, order.total x y), ground arith)
    ]
  ]

  -- What was erased was equal to the element asked for, and nothing else went.
  pub erase?-some :
      (f : A → ℕ) (x : A) (ys zs : List A)
      → erase? lt x ys ≡ some zs
      → (sum_of f ys ≡ f x + sum_of f zs) × (length ys ≡ suc (length zs))
  erase?-some f x [] zs e = unfold erase? in cc
  erase?-some f x (y ∷ ys) zs e = elim (erase?-cons x y ys zs e) [
    | inl (ws, w, ez) ↦ ground (arith, erase?-some f x ys ws w)
    | inr (ex, ez) ↦ ground arith
  ]

  -- What is not equal to the element asked for stays.
  pub erase?-Has :
      (x z : A) (ys zs : List A) → erase? lt x ys ≡ some zs → ¬ (x ≡ z) → Has z ys → Has z zs
  erase?-Has x z [] zs e other h = absurd h
  erase?-Has x z (y ∷ ys) zs e other h = elim (erase?-cons x y ys zs e) [
    | inl (ws, w, ez) ↦
        rw ez
          (elim h [ inl here ↦ inl here | inr behind ↦ inr (erase?-Has x z ys ws w other behind) ])
    | inr (ex, ez) ↦
        rw ez (elim h [ inl here ↦ absurd (other (ex ∙ sym here)) | inr behind ↦ behind ])
  ]

  erase?-Above :
      (a x : A) (ys zs : List A) → erase? lt x ys ≡ some zs → Above lt a ys → Above lt a zs
  erase?-Above a x [] zs e h = unfold erase? in cc
  erase?-Above a x (y ∷ ys) zs e h = elim (erase?-cons x y ys zs e) [
    | inl (ws, w, ez) ↦ rw ez (h.0, erase?-Above a x ys ws w h.1)
    | inr (ex, ez) ↦ rw ez h.1
  ]

  pub erase?-IsSorted :
      (x : A) (ys zs : List A) → erase? lt x ys ≡ some zs → IsSorted lt ys → IsSorted lt zs
  erase?-IsSorted x [] zs e h = unfold erase? in cc
  erase?-IsSorted x (y ∷ ys) zs e h = elim (erase?-cons x y ys zs e) [
    | inl (ws, w, ez) ↦ rw ez (erase?-Above y x ys ws w h.0, erase?-IsSorted x ys ws w h.1)
    | inr (ex, ez) ↦ rw ez h.1
  ]

  Above-at : (a x : A) (front back : List A) → Above lt a (front ++ (x ∷ back)) → lt a x ≡ true
  Above-at a x [] back h = h.0
  Above-at a x (y ∷ front) back h = Above-at a x front back h.1

  -- The element is found wherever it stands.
  pub erase?-split :
      (x : A) (front back : List A)
      → IsSorted lt (front ++ (x ∷ back))
      → erase? lt x (front ++ (x ∷ back)) ≡ some (front ++ back)
  unfolding erase?
  erase?-split x [] back h = ground (arith, order.irrefl x)
  erase?-split x (y ∷ front) back h =
      rw (Above-at y x front back h.0) (rw (erase?-split x front back h.1))
