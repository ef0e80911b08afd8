-- ===== src/Utils.antt =====
-- core/utils/version.go: versions compared field by field. The replacer that makes a dot of a dash
-- and drops the letter v, and `strconv.ParseInt`, are arguments; no sign is left for it to read.
pub mod Order
mod Tests
use go_zero.Prelude.{
  ℕ, suc, ◌==◌, ltb, ◌||◌, if◌then◌else◌, Bool, true, false, List, [], ◌∷◌, Bytes, bytes_eq, map,
  length,
}

-- `-1`, `0` and `1`
pub data Result : Type 0 where
  less equal greater : Result

-- The first field of a text gets a byte more.
abbrev pub with_byte : ℕ → List Bytes → List Bytes
with_byte c [] = (c ∷ []) ∷ []
with_byte c (field ∷ fields) = (c ∷ field) ∷ fields

-- `strings.Split` at dots
unfoldable pub split : Bytes → List Bytes
split [] = [] ∷ []
split (c ∷ s) = let rest = split s in if c == 46 then [] ∷ rest else with_byte c rest

-- The loop of `compare` and the tests behind it
unfoldable pub compare_fields : List ℕ → List ℕ → Result
compare_fields [] [] = equal
compare_fields [] (y ∷ ys) = less
compare_fields (x ∷ xs) [] = greater
compare_fields (x ∷ xs) (y ∷ ys) =
    let rest = compare_fields xs ys in if x == y then rest else (if ltb x y then less else greater)

-- `result == -1`, `result == 0` and `result == 1`
abbrev pub is_less : Result → Bool
is_less less = true
is_less equal = false
is_less greater = false

abbrev pub is_equal : Result → Bool
is_equal less = false
is_equal equal = true
is_equal greater = false

abbrev pub is_greater : Result → Bool
is_greater less = false
is_greater equal = false
is_greater greater = true

unfoldable pub strs_to_ints : (Bytes → ℕ) → List Bytes → List ℕ
strs_to_ints parse_int [] = []
strs_to_ints parse_int (str ∷ strs) = parse_int str ∷ strs_to_ints parse_int strs

module _ (replace : Bytes → Bytes) (parse_int : Bytes → ℕ) where
  unfoldable pub compare_texts : Bytes → Bytes → Result
  compare_texts v1 v2 =
      compare_fields (strs_to_ints parse_int (split (replace v1)))
        (strs_to_ints parse_int (split (replace v2)))

  -- `CompareVersions`: the bytes of `=`, `==`, `<`, `>`, `<=` and `>=`
  unfoldable pub compare_versions : Bytes → Bytes → Bytes → Bool
  compare_versions v1 op v2 =
      let result = compare_texts v1 v2 in
      if bytes_eq op (61 ∷ []) || bytes_eq op (61 ∷ 61 ∷ [])
      then is_equal result
      else (if bytes_eq op (60 ∷ [])
          then is_less result
          else (if bytes_eq op (62 ∷ [])
              then is_greater result
              else (if bytes_eq op (60 ∷ 61 ∷ [])
                  then is_less result || is_equal result
                  else (if bytes_eq op (62 ∷ 61 ∷ [])
                      then is_equal result || is_greater result
                      else false))))
