-- ===== src/Utils/Tests.antt =====
-- Runs of the comparison at concrete versions of one digit in each field.
use go_zero.Prelude.{ℕ, ◌≡◌, ◌-◌, refl, not, ◌&&◌, true, [], ◌∷◌, Bytes, ◌↔◌}
use go_zero.Utils.{compare_versions, compare_texts, compare_fields, strs_to_ints, split}
use go_zero.Utils.Order.{
  Earlier, compare_versions-Earlier, compare_versions-flip, compare_versions_trans,
}

abbrev digit : Bytes → ℕ
digit [] = 0
digit (c ∷ s) = c - 48

abbrev as_is : Bytes → Bytes
as_is s = s

-- 1.2, 1.2.0 and 2
abbrev v12 : Bytes
v12 = 49 ∷ 46 ∷ 50 ∷ []

abbrev v120 : Bytes
v120 = 49 ∷ 46 ∷ 50 ∷ 46 ∷ 48 ∷ []

abbrev v2 : Bytes
v2 = 50 ∷ []

shorter : compare_versions as_is digit v12 (60 ∷ 61 ∷ []) v120 ≡ true
unfolding compare_versions compare_texts compare_fields strs_to_ints split
shorter = refl

smaller : compare_versions as_is digit v120 (60 ∷ 61 ∷ []) v2 ≡ true
unfolding compare_versions compare_texts compare_fields strs_to_ints split
smaller = refl

compare_versions_trans_example : compare_versions as_is digit v12 (60 ∷ 61 ∷ []) v2 ≡ true
compare_versions_trans_example = compare_versions_trans as_is digit v12 v120 v2 shorter smaller

compare_versions-flip_example :
    (compare_versions as_is digit v12 (60 ∷ []) v120
      ≡ compare_versions as_is digit v120 (62 ∷ []) v12)
    × (compare_versions as_is digit v12 (60 ∷ 61 ∷ []) v120
        ≡ compare_versions as_is digit v120 (62 ∷ 61 ∷ []) v12)
    × (compare_versions as_is digit v12 (60 ∷ 61 ∷ []) v120
        ≡ not (compare_versions as_is digit v12 (62 ∷ []) v120))
    × (compare_versions as_is digit v12 (61 ∷ 61 ∷ []) v120 ≡ (
        compare_versions as_is digit v12 (60 ∷ 61 ∷ []) v120
        && compare_versions as_is digit v12 (62 ∷ 61 ∷ []) v120))
compare_versions-flip_example = compare_versions-flip as_is digit v12 v120

compare_versions-Earlier_example :
    (compare_versions as_is digit v12 (60 ∷ []) v120 ≡ true)
    ↔ Earlier (strs_to_ints digit (split v12)) (strs_to_ints digit (split v120))
compare_versions-Earlier_example = compare_versions-Earlier as_is digit v12 v120
