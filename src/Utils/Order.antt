-- ===== src/Utils/Order.antt =====
-- The comparison is an order of the fields.
use go_zero.Prelude.{
  ℕ, ◌≡◌, refl, sym, ◌∙◌, ◌||◌, ◌&&◌, not, Bool, true, false, List, [], ◌∷◌, Bytes, arith, ◌++◌,
  Bool-cases, ==_iff, ==-self, lt_of_ltb, ap₂, ap, inl, inr, ◌<◌, ◌==◌, ltb, ◌↔◌,
}
use go_zero.Utils.{
  Result, less, equal, greater, split, compare_fields, strs_to_ints, compare_texts, is_less,
  is_equal, is_greater, compare_versions,
}

abbrev flip : Result → Result
flip less = greater
flip equal = equal
flip greater = less

-- Swapping the versions swaps the result.
compare_fields-flip : (xs ys : List ℕ) → compare_fields ys xs ≡ flip (compare_fields xs ys)
unfolding compare_fields
compare_fields-flip [] [] = refl
compare_fields-flip [] (y ∷ ys) = refl
compare_fields-flip (x ∷ xs) [] = refl
compare_fields-flip (x ∷ xs) (y ∷ ys) = ground (arith, compare_fields-flip xs ys)

abbrev at_most : Result → Bool
at_most less = true
at_most equal = true
at_most greater = false

compare_fields_trans :
    (xs ys zs : List ℕ)
    → at_most (compare_fields xs ys) ≡ true
    → at_most (compare_fields ys zs) ≡ true
    → at_most (compare_fields xs zs) ≡ true
unfolding compare_fields
compare_fields_trans [] ys [] h k = refl
compare_fields_trans [] ys (z ∷ zs) h k = refl
compare_fields_trans (x ∷ xs) [] zs h k = cc
compare_fields_trans (x ∷ xs) (y ∷ ys) [] h k = cc
compare_fields_trans (x ∷ xs) (y ∷ ys) (z ∷ zs) h k = ground (arith, compare_fields_trans xs ys zs)

module _ (replace : Bytes → Bytes) (parse_int : Bytes → ℕ) where
  -- `<` is `>` of the versions swapped, `<=` is `>=` of the versions swapped and the negation of
  -- `>`, and `==` is `<=` and `>=` together.
  pub compare_versions-flip :
      (v1 v2 : Bytes)
      → (compare_versions replace parse_int v1 (60 ∷ []) v2
          ≡ compare_versions replace parse_int v2 (62 ∷ []) v1)
        × (compare_versions replace parse_int v1 (60 ∷ 61 ∷ []) v2
            ≡ compare_versions replace parse_int v2 (62 ∷ 61 ∷ []) v1)
        × (compare_versions replace parse_int v1 (60 ∷ 61 ∷ []) v2
            ≡ not (compare_versions replace parse_int v1 (62 ∷ []) v2))
        × (compare_versions replace parse_int v1 (61 ∷ 61 ∷ []) v2 ≡ (
            compare_versions replace parse_int v1 (60 ∷ 61 ∷ []) v2
            && compare_versions replace parse_int v1 (62 ∷ 61 ∷ []) v2))
  unfolding compare_versions compare_texts
  compare_versions-flip v1 v2 =
      let xs = strs_to_ints parse_int (split (replace v1)) in
      let ys = strs_to_ints parse_int (split (replace v2)) in
      rw (compare_fields-flip xs ys) (by_result (compare_fields xs ys))
    where
      by_result :
          (r : Result)
          → (is_less r ≡ is_greater (flip r))
            × ((is_less r || is_equal r) ≡ (is_equal (flip r) || is_greater (flip r)))
            × ((is_less r || is_equal r) ≡ not (is_greater r))
            × (is_equal r ≡ ((is_less r || is_equal r) && (is_equal r || is_greater r)))
      by_result less = (refl, refl, refl, refl)
      by_result equal = (refl, refl, refl, refl)
      by_result greater = (refl, refl, refl, refl)

  -- A version that is at most a second, which is at most a third, is at most the third.
  pub compare_versions_trans :
      (v1 v2 v3 : Bytes)
      → compare_versions replace parse_int v1 (60 ∷ 61 ∷ []) v2 ≡ true
      → compare_versions replace parse_int v2 (60 ∷ 61 ∷ []) v3 ≡ true
      → compare_versions replace parse_int v1 (60 ∷ 61 ∷ []) v3 ≡ true
  unfolding compare_versions compare_texts
  compare_versions_trans v1 v2 v3 h k =
      let xs = strs_to_ints parse_int (split (replace v1)) in
      let ys = strs_to_ints parse_int (split (replace v2)) in
      let zs = strs_to_ints parse_int (split (replace v3)) in
      at_most_lem (compare_fields xs zs)
      ∙ compare_fields_trans xs ys zs (sym (at_most_lem (compare_fields xs ys)) ∙ h)
          (sym (at_most_lem (compare_fields ys zs)) ∙ k)
    where
      at_most_lem : (r : Result) → (is_less r || is_equal r) ≡ at_most r
      at_most_lem less = refl
      at_most_lem equal = refl
      at_most_lem greater = refl

-- The first field where two versions differ is smaller in the first, or the first one ends there.
abbrev Leads : List ℕ → List ℕ → Type 0
Leads [] [] = ⊥
Leads [] (y ∷ ys) = Unit
Leads (x ∷ xs) [] = ⊥
Leads (x ∷ xs) (y ∷ ys) = x < y

-- They agree up to there.
abbrev pub Earlier : List ℕ → List ℕ → Type 0
Earlier xs ys =
    (common : List ℕ) × (rest : List ℕ) × (rest' : List ℕ) × (xs ≡ common ++ rest)
    × (ys ≡ common ++ rest')
    × Leads rest rest'

compare_fields-Earlier : (xs ys : List ℕ) → compare_fields xs ys ≡ less → Earlier xs ys
unfolding compare_fields
compare_fields-Earlier [] [] h = cc
compare_fields-Earlier [] (y ∷ ys) h = ([], [], y ∷ ys, refl, refl, tt)
compare_fields-Earlier (x ∷ xs) [] h = cc
compare_fields-Earlier (x ∷ xs) (y ∷ ys) h = elim (Bool-cases (x == y)) [
  | inl e ↦
      let (common, rest, rest', one, two, leads) = compare_fields-Earlier xs ys (rw e at h) in
      (x ∷ common, rest, rest', ap (◌∷◌ x) one, ap₂ ◌∷◌ (sym ((==_iff x y).0 e)) two, leads)
  | inr e ↦ elim (Bool-cases (ltb x y)) [
    | inl f ↦ ([], x ∷ xs, y ∷ ys, refl, refl, lt_of_ltb x y f)
    | inr f ↦ absurd (cc (rw (e, f) at h))
  ]
]

compare_fields-Leads :
    (common rest rest' : List ℕ)
    → Leads rest rest'
    → compare_fields (common ++ rest) (common ++ rest') ≡ less
unfolding compare_fields
compare_fields-Leads [] [] [] h = absurd h
compare_fields-Leads [] [] (y ∷ ys) h = refl
compare_fields-Leads [] (x ∷ xs) [] h = absurd h
compare_fields-Leads [] (x ∷ xs) (y ∷ ys) h = ground arith
compare_fields-Leads (c ∷ common) rest rest' h =
    rw (==-self c) (compare_fields-Leads common rest rest' h)

module _ (replace : Bytes → Bytes) (parse_int : Bytes → ℕ) where
  -- `CompareVersions` with `<` answers true just when the numbers of the fields of the two versions
  -- agree up to a place where the first has no more fields and the second has, or the first has a
  -- smaller number than the second.
  pub compare_versions-Earlier :
      (v1 v2 : Bytes)
      → (compare_versions replace parse_int v1 (60 ∷ []) v2 ≡ true)
        ↔ Earlier
            (strs_to_ints parse_int (split (replace v1)))
            (strs_to_ints parse_int (split (replace v2)))
  unfolding compare_versions compare_texts
  compare_versions-Earlier v1 v2 = (
    (λ h. compare_fields-Earlier _ _ (only_less (compare_fields _ _) h)),
    (λ p.
        let (common, rest, rest', one, two, leads) = p in
        ap is_less (ap₂ compare_fields one two ∙ compare_fields-Leads common rest rest' leads)),
  )
    where
      only_less : (r : Result) → is_less r ≡ true → r ≡ less
      only_less less h = refl
      only_less equal h = cc
      only_less greater h = cc
