-- ===== src/Header6/Endpoints.antt =====
-- The dictionary holds every endpoint id that was set last, whatever was set before and after.
use ns3_dtn.Prelude.{ℕ, ◌+◌, ◌%◌, ◌^◌, ◌<◌, ◌≡◌, ◌≢◌, Bool, true, false, arith}
use ns3_dtn.Prelude.{List, [], ◌∷◌, ◌++◌, some, length, All, drop, refl, ap, sym, ◌∙◌}
use ns3_dtn.Prelude.{
  ◌==◌, if◌then◌else◌, length-append, length-drop, drop-append, drop-append_le, take-all,
}
use ns3_dtn.EndpointId.{from_parts, substr, npos}
use ns3_dtn.EndpointId.Parts.{IsPart, from_parts-read}
use ns3_dtn.Header6.{Header6, Place, Role, dst, src, report, cust}
use ns3_dtn.Header6.Dictionary.{
  c_str, place, put_place, append_eid, set_eid, get_eid, dictionary_eid,
}
use mathlib.Core.Path.{subst₂}
use mathlib.Core.List.{append_assoc}

abbrev pub NoNul : List ℕ → Type 0
NoNul = All (λ c. c ≢ 0)

-- The text `s` stands in the dictionary `d` at `at`, with a NUL behind it.
pub record Holds (d : List ℕ) (at : ℕ) (s : List ℕ) : Type 0 where
  pub behind : List ℕ
  pub found : drop at d ≡ s ++ (0 ∷ behind)
  pub clean : NoNul s
  pub inside : at < length d

c_str-nul : (s t : List ℕ) → NoNul s → c_str (s ++ (0 ∷ t)) ≡ s
unfolding c_str
c_str-nul [] t h = refl
c_str-nul (x ∷ s) t h = ground (arith, c_str-nul s t h.1)

-- A getter reads such a text back.
Holds-read :
    (d : List ℕ) (at : ℕ) (s : List ℕ)
    → Holds d at s
    → length d < 2 ^ 32
    → (t : List ℕ) × (substr d at npos ≡ some t) × (c_str t ≡ s)
unfolding substr
Holds-read d at s h fits = (
  drop at d,
  ground (arith, h.inside, take-all npos (drop at d) (omega (arith, length-drop at d))),
  rw h.found (c_str-nul s h.behind h.clean),
)

-- Text added at the end does not touch it.
Holds-append : (d e : List ℕ) (at : ℕ) (s : List ℕ) → Holds d at s → Holds (d ++ e) at s
Holds-append d e at s h = record {
  behind = h.behind ++ e;
  found =
      drop-append_le at d e (omega (arith, h.inside))
      ∙ ap (λ (t : List ℕ). t ++ e) h.found
      ∙ append_assoc s (0 ∷ h.behind) e;
  clean = h.clean;
  inside = omega (arith, h.inside, length-append d e);
}

-- A text that was just added, with its NUL.
Holds-added : (d s : List ℕ) → NoNul s → Holds (d ++ (s ++ (0 ∷ []))) (length d) s
Holds-added d s h = record {
  behind = [];
  found = drop-append d (s ++ (0 ∷ []));
  clean = h;
  inside = omega (arith, length-append d (s ++ (0 ∷ [])), length-append s (0 ∷ []));
}

Holds-at : {d e s : List ℕ} {at at' : ℕ} → d ≡ e → at ≡ at' → Holds d at s → Holds e at' s
Holds-at {s} p q h = subst₂ (λ (d : List ℕ) (at : ℕ). Holds d at s) p q h

abbrev index : Role → ℕ
index dst = 0
index src = 1
index report = 2
index cust = 3

abbrev pub same_role : Role → Role → Bool
same_role r q = index r == index q

same_role_refl : (r : Role) → same_role r r ≡ true
same_role_refl r = ground arith

-- The dictionary after a setter.
abbrev pub longer : List ℕ → List ℕ → List ℕ → List ℕ
longer d a b = (d ++ (a ++ (0 ∷ []))) ++ (b ++ (0 ∷ []))

pub length-longer : (d a b : List ℕ) → length (longer d a b) ≡ length d + length a + length b + 2
length-longer d a b = omega (
  arith,
  length-append (d ++ (a ++ (0 ∷ []))) (b ++ (0 ∷ [])),
  length-append d (a ++ (0 ∷ [])),
  length-append a (0 ∷ []),
  length-append b (0 ∷ []),
)

new_place : List ℕ → List ℕ → Place
new_place d a = record {
  scheme_offset = length d % 2 ^ 16;
  ssp_offset = length (d ++ (a ++ (0 ∷ []))) % 2 ^ 16;
}

pub same_role→eq : (r q : Role) → same_role r q ≡ true → r ≡ q
same_role→eq r q e = ground arith

module _ {Time : Type 0} where
  -- The header holds the parts `a` and `b` for a role.
  pub record Names (r : Role) (a b : List ℕ) (h : Header6 Time) : Type 0 where
    pub scheme_at : Holds h.dictionary (place r h).scheme_offset a
    pub ssp_at : Holds h.dictionary (place r h).ssp_offset b

  pub place-put_place :
      (r q : Role) (p : Place) (h : Header6 Time)
      → place q (put_place r p h) ≡ (if same_role r q then p else place q h)
  place-put_place dst q p h = ground arith
  place-put_place src q p h = ground arith
  place-put_place report q p h = ground arith
  place-put_place cust q p h = ground arith

  pub dictionary-put_place :
      (r : Role) (p : Place) (h : Header6 Time) → (put_place r p h).dictionary ≡ h.dictionary
  dictionary-put_place dst p h = refl
  dictionary-put_place src p h = refl
  dictionary-put_place report p h = refl
  dictionary-put_place cust p h = refl

  pub cbhe-put_place : (r : Role) (p : Place) (h : Header6 Time) → (put_place r p h).cbhe ≡ h.cbhe
  cbhe-put_place dst p h = refl
  cbhe-put_place src p h = refl
  cbhe-put_place report p h = refl
  cbhe-put_place cust p h = refl

  pub cbhe-append_eid :
      (r : Role) (a b : List ℕ) (h : Header6 Time) → (append_eid r a b h).cbhe ≡ h.cbhe
  unfolding append_eid
  cbhe-append_eid r a b h = cbhe-put_place r _ _

  pub dictionary-append_eid :
      (r : Role) (a b : List ℕ) (h : Header6 Time)
      → (append_eid r a b h).dictionary ≡ longer h.dictionary a b
  unfolding append_eid
  dictionary-append_eid r a b h = dictionary-put_place r _ _

  pub set_eid-append_eid :
      (r : Role) (a b : List ℕ) (h : Header6 Time)
      → IsPart a
      → IsPart b
      → h.cbhe ≡ false
      → set_eid r (from_parts a b) h ≡ some (append_eid r a b h)
  unfolding set_eid
  set_eid-append_eid r a b h ha hb plain =
      let (u, s, t) = from_parts-read a b ha hb in rw (s, t, plain)

  -- A getter returns the id of the parts that the header holds.
  pub get_eid-Names :
      (r : Role) (a b : List ℕ) (h : Header6 Time)
      → Names r a b h
      → h.cbhe ≡ false
      → length h.dictionary < 2 ^ 32
      → get_eid r h ≡ some (from_parts a b)
  unfolding get_eid dictionary_eid
  get_eid-Names r a b h n plain fits =
      let (t, et, ct) = Holds-read h.dictionary _ a n.scheme_at fits in
      let (u, eu, cu) = Holds-read h.dictionary _ b n.ssp_at fits in simp (plain, et, eu, ct, cu)

  place-append_eid :
      (r q : Role) (a b : List ℕ) (h : Header6 Time)
      → place q (append_eid r a b h)
        ≡ (if same_role r q then new_place h.dictionary a else place q h)
  unfolding append_eid new_place
  place-append_eid r q a b h =
      place-put_place r q (new_place h.dictionary a)
        (record h { dictionary = longer h.dictionary a b })
      ∙ ap (λ (p : Place). if same_role r q then new_place h.dictionary a else p) (same_place q)
    where
      same_place :
          (q : Role) → place q (record h { dictionary = longer h.dictionary a b }) ≡ place q h
      same_place dst = refl
      same_place src = refl
      same_place report = refl
      same_place cust = refl

  pub Names-set :
      (r : Role) (a b : List ℕ) (h : Header6 Time)
      → NoNul a
      → NoNul b
      → length (longer h.dictionary a b) < 2 ^ 16
      → Names r a b (append_eid r a b h)
  unfolding new_place
  Names-set r a b h ha hb fits = record {
    scheme_at = Holds-at (sym (dictionary-append_eid r a b h)) (sym at_scheme) (
        Holds-append (h.dictionary ++ (a ++ (0 ∷ []))) (b ++ (0 ∷ [])) _ a
          (Holds-added h.dictionary a ha));
    ssp_at =
        Holds-at (sym (dictionary-append_eid r a b h)) (sym at_ssp)
          (Holds-added (h.dictionary ++ (a ++ (0 ∷ []))) b hb);
  }
    where
      here : place r (append_eid r a b h) ≡ new_place h.dictionary a
      here = place-append_eid r r a b h ∙ rw (same_role_refl r)

      at_scheme : (place r (append_eid r a b h)).scheme_offset ≡ length h.dictionary
      at_scheme =
          ap (λ (p : Place). p.scheme_offset) here ∙ omega (arith, length-longer h.dictionary a b)

      at_ssp : (place r (append_eid r a b h)).ssp_offset ≡ length (h.dictionary ++ (a ++ (0 ∷ [])))
      at_ssp =
          ap (λ (p : Place). p.ssp_offset) here
          ∙ omega (arith, length-append (h.dictionary ++ (a ++ (0 ∷ []))) (b ++ (0 ∷ [])))

  pub Names-kept :
      (r q : Role) (a b c d : List ℕ) (h : Header6 Time)
      → same_role r q ≡ false
      → Names q c d h
      → Names q c d (append_eid r a b h)
  Names-kept r q a b c d h other n = record {
    scheme_at =
        Holds-at (sym grown) (sym (ap (λ (p : Place). p.scheme_offset) there))
          (Holds-append h.dictionary _ _ c n.scheme_at);
    ssp_at =
        Holds-at (sym grown) (sym (ap (λ (p : Place). p.ssp_offset) there))
          (Holds-append h.dictionary _ _ d n.ssp_at);
  }
    where
      there : place q (append_eid r a b h) ≡ place q h
      there = place-append_eid r q a b h ∙ rw other

      grown : (append_eid r a b h).dictionary ≡ h.dictionary ++ ((a ++ (0 ∷ [])) ++ (b ++ (0 ∷ [])))
      grown =
          dictionary-append_eid r a b h ∙ append_assoc h.dictionary (a ++ (0 ∷ [])) (b ++ (0 ∷ []))
