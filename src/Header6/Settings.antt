-- ===== src/Header6/Settings.antt =====
-- Sequences of setters of endpoint ids, as the constructor of a bundle and `Send` make them.
use ns3_dtn.Prelude.{ℕ, ◌+◌, ◌^◌, ◌<◌, ◌≡◌, ◌⊎◌, inl, inr, true, false, arith}
use ns3_dtn.Prelude.{List, [], ◌∷◌, Option, none, some, ◌>>=◌, length, All, refl, ap, ◌∙◌}
use mathlib.Core.Path.{subst₃}
use ns3_dtn.Prelude.{if◌then◌else◌, Bool-cases, Option-cases}
use ns3_dtn.EndpointId.{from_parts}
use ns3_dtn.EndpointId.Parts.{IsPart}
use ns3_dtn.Header6.{Header6, Role}
use ns3_dtn.Header6.Dictionary.{append_eid, set_eid, get_eid}
use ns3_dtn.Header6.Endpoints.{
  NoNul, Names, same_role, same_role→eq, length-longer, Names-set, Names-kept, set_eid-append_eid,
  get_eid-Names, cbhe-append_eid, dictionary-append_eid,
}

-- A call of the setter of `role`, with an endpoint id of two parts.
pub record Setting : Type 0 where
  pub role : Role
  pub scheme : List ℕ
  pub ssp : List ℕ

pub record IsGood (s : Setting) : Type 0 where
  pub scheme_part : IsPart s.scheme
  pub ssp_part : IsPart s.ssp
  pub scheme_clean : NoNul s.scheme
  pub ssp_clean : NoNul s.ssp

-- What the settings add to the dictionary.
abbrev pub size : List Setting → ℕ
size [] = 0
size (s ∷ ss) = length s.scheme + length s.ssp + 2 + size ss

-- The parts that were set last for a role.
abbrev pub latest : Role → List Setting → Option (List ℕ × List ℕ)
latest r [] = none
latest r (s ∷ ss) = elim (latest r ss) [
  | some p ↦ some p
  | none ↦ if same_role s.role r then some (s.scheme, s.ssp) else none
]

module _ {Time : Type 0} where
  unfoldable pub set_all : List Setting → Header6 Time → Option (Header6 Time)
  set_all [] h = some h
  set_all (s ∷ ss) h = set_eid s.role (from_parts s.scheme s.ssp) h >>= set_all ss

  abbrev after : Setting → Header6 Time → Header6 Time
  after s h = append_eid s.role s.scheme s.ssp h

  step :
      (s : Setting) (ss : List Setting) (h : Header6 Time)
      → IsGood s
      → h.cbhe ≡ false
      → set_all (s ∷ ss) h ≡ set_all ss (after s h)
  unfolding set_all
  step s ss h g plain =
      rw (set_eid-append_eid s.role s.scheme s.ssp h g.scheme_part g.ssp_part plain)

  room :
      (s : Setting) (ss : List Setting) (h : Header6 Time)
      → length h.dictionary + size (s ∷ ss) < 2 ^ 16
      → length (after s h).dictionary + size ss < 2 ^ 16
  room s ss h fits = omega (
    arith,
    ap length (dictionary-append_eid s.role s.scheme s.ssp h),
    length-longer h.dictionary s.scheme s.ssp,
  )

  -- What a header holds after the settings: what was set last, or else what it held before.
  Source : List Setting → Header6 Time → Role → List ℕ → List ℕ → Type 0
  Source ss h r a b = (latest r ss ≡ some (a, b)) ⊎ ((latest r ss ≡ none) × Names r a b h)

  Names-after :
      (s : Setting) (ss : List Setting) (h : Header6 Time) (r : Role) (a b : List ℕ)
      → IsGood s
      → length h.dictionary + size (s ∷ ss) < 2 ^ 16
      → s.role ≡ r
      → s.scheme ≡ a
      → s.ssp ≡ b
      → Names r a b (after s h)
  Names-after s ss h r a b g fits er ea eb =
      subst₃ (λ (r : Role) (a b : List ℕ). Names r a b (after s h)) er ea eb
        (Names-set s.role s.scheme s.ssp h g.scheme_clean g.ssp_clean
          (omega (arith, length-longer h.dictionary s.scheme s.ssp)))

  Source-step :
      (s : Setting) (ss : List Setting) (h : Header6 Time) (r : Role) (a b : List ℕ)
      → IsGood s
      → length h.dictionary + size (s ∷ ss) < 2 ^ 16
      → Source (s ∷ ss) h r a b
      → Source ss (after s h) r a b
  unfolding Source
  Source-step s ss h r a b g fits from = elim (Option-cases (latest r ss)) [
    | inr (p, e) ↦ inl (later p e from)
    | inl e ↦ elim (Bool-cases (same_role s.role r)) [
      | inl hit ↦ inr (e, here e hit from)
      | inr miss ↦ inr (e, kept e miss from)
    ]
  ]
    where
      later :
          (p : List ℕ × List ℕ)
          → latest r ss ≡ some p
          → Source (s ∷ ss) h r a b
          → latest r ss ≡ some (a, b)
      later p e (inl e') = ground arith
      later p e (inr e') = ground arith

      here :
          latest r ss ≡ none
          → same_role s.role r ≡ true
          → Source (s ∷ ss) h r a b
          → Names r a b (after s h)
      here e hit (inl e') =
          Names-after s ss h r a b g fits (same_role→eq s.role r hit) (ground arith) (ground arith)
      here e hit (inr e') = absurd (ground arith)

      kept :
          latest r ss ≡ none
          → same_role s.role r ≡ false
          → Source (s ∷ ss) h r a b
          → Names r a b (after s h)
      kept e miss (inl e') = absurd (ground arith)
      kept e miss (inr e') = Names-kept s.role r s.scheme s.ssp a b h miss e'.1

  set_all-Names :
      (ss : List Setting) (h : Header6 Time)
      → All IsGood ss
      → h.cbhe ≡ false
      → length h.dictionary + size ss < 2 ^ 16
      → (h' : Header6 Time) × (set_all ss h ≡ some h')
        × (h'.cbhe ≡ false)
        × (length h'.dictionary < 2 ^ 16)
        × ((r : Role) (a b : List ℕ) → Source ss h r a b → Names r a b h')
  unfolding set_all Source
  set_all-Names [] h g plain fits = (h, refl, plain, omega arith, none_set)
    where
      none_set : (r : Role) (a b : List ℕ) → Source [] h r a b → Names r a b h
      none_set r a b (inl e) = cc
      none_set r a b (inr e) = e.1
  set_all-Names (s ∷ ss) h (g, gs) plain fits =
      let (h', done, plain', fits', names) =
        set_all-Names ss (after s h) gs (cbhe-append_eid s.role s.scheme s.ssp h ∙ plain)
          (room s ss h fits) in
      (
        h',
        step s ss h g plain ∙ done,
        plain',
        fits',
        λ r a b from. names r a b (Source-step s ss h r a b g fits from),
      )

  -- Any sequence of calls of the four setters, with ids of non-empty parts of at most 1023 bytes
  -- and no NUL, succeeds on a header without CBHE as long as the dictionary stays below 65536
  -- bytes; and then the getter of each role that was set returns the id that was set last for it.
  pub get_eid-set_all :
      (ss : List Setting) (h : Header6 Time) (r : Role) (a b : List ℕ)
      → All IsGood ss
      → h.cbhe ≡ false
      → length h.dictionary + size ss < 2 ^ 16
      → latest r ss ≡ some (a, b)
      → (h' : Header6 Time) × (set_all ss h ≡ some h') × (get_eid r h' ≡ some (from_parts a b))
  unfolding Source
  get_eid-set_all ss h r a b g plain fits last =
      let (h', done, plain', fits', names) = set_all-Names ss h g plain fits in
      (h', done, get_eid-Names r a b h' (names r a b (inl last)) plain' (omega arith))
