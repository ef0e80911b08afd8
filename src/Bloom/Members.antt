-- ===== src/Bloom/Members.antt =====
-- What was added is found.
use go_zero.Prelude.{
  sym, All, subst, ◌≤◌, ℕ, zero, suc, ◌%◌, ◌<◌, ◌≡◌, refl, ap, ◌∙◌, leb, ltb, ◌==◌, Bool, true,
  false, Bool-cases, inl, inr, List, [], ◌∷◌, ◌++◌, none, some, Bytes, arith, mod-lt, ==-self,
}
use go_zero.Bloom.{
  maps, store_error, done, Bits, set_bit, tested, stored_by, set_script, test_script,
  build_offset_args, check, set_offsets, locations_from, get_locations, add_data, exists,
}

-- Every bit of one is in the other.
abbrev Within : Bits → Bits → Type 0
Within b b' = (i : ℕ) → b i ≡ true → b' i ≡ true

-- Every offset is one that redis takes.
abbrev Small : ℕ → List ℕ → Type 0
Small offset_limit = All (λ o. o < offset_limit)

below : (o n : ℕ) → o < n → ltb o n ≡ true
below o n h = ground arith

module _ (offset_limit : ℕ) where
  -- The script sets bits and clears none, whether it fails or not.
  set_script-Within : (offsets : List ℕ) (b : Bits) → Within b (set_script offset_limit offsets b).1
  unfolding set_script
  set_script-Within [] b i h = h
  set_script-Within (o ∷ offsets) b i h = elim (Bool-cases (ltb o offset_limit)) [
    | inr e ↦ rw e h
    | inl e ↦ rw e (
        set_script-Within offsets (set_bit o b) i
          (elim (Bool-cases (i == o)) [ inl e ↦ rw e refl | inr e ↦ rw e h ]))
  ]

  test_script-Within :
      (offsets : List ℕ) (b b' : Bits)
      → Within b b'
      → test_script offset_limit offsets b ≡ some true
      → test_script offset_limit offsets b' ≡ some true
  unfolding test_script
  test_script-Within [] b b' w h = refl
  test_script-Within (o ∷ offsets) b b' w h = elim (Bool-cases (ltb o offset_limit)) [
    | inr e ↦ absurd (cc (rw e at h))
    | inl e ↦ elim (Bool-cases (b o)) [
      | inl f ↦ rw (e, w o f) (test_script-Within offsets b b' w (rw (e, f) at h))
      | inr f ↦ absurd (cc (rw (e, f) at h))
    ]
  ]

  set_script-Small :
      (offsets : List ℕ) (b : Bits)
      → Small offset_limit offsets
      → (set_script offset_limit offsets b).0 ≡ true
  unfolding set_script
  set_script-Small [] b small = refl
  set_script-Small (o ∷ offsets) b (s, small) =
      rw (below o offset_limit s) (set_script-Small offsets (set_bit o b) small)

  test_script-set_script :
      (offsets : List ℕ) (b : Bits)
      → Small offset_limit offsets
      → test_script offset_limit offsets (set_script offset_limit offsets b).1 ≡ some true
  unfolding test_script set_script
  test_script-set_script [] b small = refl
  test_script-set_script (o ∷ offsets) b (s, small) =
      rw (below o offset_limit s, set_script-Within offsets (set_bit o b) o (rw (==-self o) refl))
        (test_script-set_script offsets (set_bit o b) small)

module _ (offset_limit : ℕ) (hash : Bytes → ℕ) (bits : ℕ) where
  -- More calls of `Add`, each with whether redis is reached.
  abbrev pub add_all : Bits → List (Bool × Bytes) → Bits
  add_all stored [] = stored
  add_all stored ((reachable, d) ∷ rest) =
      add_all (add_data offset_limit hash bits reachable stored d).1 rest

module _ (offset_limit : ℕ) (hash : Bytes → ℕ) (bits : ℕ) (positive : 0 < bits) where
  -- Every location is in range.
  build_offset_args-locations :
      (d : Bytes) (i n : ℕ)
      → build_offset_args bits (locations_from hash bits d i n)
        ≡ done (locations_from hash bits d i n)
  unfolding build_offset_args locations_from
  build_offset_args-locations d i zero = refl
  build_offset_args-locations d i (suc n) =
      let small = mod-lt (hash (d ++ (i ∷ []))) positive in
      rw (above bits (hash (d ++ (i ∷ [])) % bits) small, build_offset_args-locations d (suc i) n)
        refl
    where
      above : (a b : ℕ) → b < a → leb a b ≡ false
      above a b h = ground arith

  exists_lem :
      (stored : Bits) (d : Bytes)
      → exists offset_limit hash bits true stored d
        ≡ tested (test_script offset_limit (get_locations hash bits d) stored)
  unfolding exists check get_locations
  exists_lem stored d = rw (build_offset_args-locations d 0 maps, exists, check, get_locations) refl

  add_lem :
      (stored : Bits) (d : Bytes)
      → add_data offset_limit hash bits true stored d
        ≡ stored_by (set_script offset_limit (get_locations hash bits d) stored)
  unfolding add_data set_offsets get_locations
  add_lem stored d =
      rw (build_offset_args-locations d 0 maps, add_data, set_offsets, get_locations) refl

  add_unreachable :
      (stored : Bits) (d : Bytes)
      → add_data offset_limit hash bits false stored d ≡ (some store_error, stored)
  unfolding add_data set_offsets get_locations
  add_unreachable stored d =
      rw (build_offset_args-locations d 0 maps, add_data, set_offsets, get_locations) refl

  stored_by-bits : (r : Bool × Bits) → (stored_by r).1 ≡ r.1
  stored_by-bits (true, b) = refl
  stored_by-bits (false, b) = refl

  add-bits :
      (stored : Bits) (d : Bytes)
      → (add_data offset_limit hash bits true stored d).1
        ≡ (set_script offset_limit (get_locations hash bits d) stored).1
  add-bits stored d =
      ap (λ r. r.1) (add_lem stored d)
      ∙ stored_by-bits (set_script offset_limit (get_locations hash bits d) stored)

  add_all-Within :
      (calls : List (Bool × Bytes)) (stored : Bits)
      → Within stored (add_all offset_limit hash bits stored calls)
  add_all-Within [] stored i h = h
  add_all-Within ((true, d) ∷ calls) stored i h =
      add_all-Within calls (add_data offset_limit hash bits true stored d).1 i (
        subst (λ b. b i ≡ true) (sym (add-bits stored d))
          (set_script-Within offset_limit (get_locations hash bits d) stored i h))
  add_all-Within ((false, d) ∷ calls) stored i h =
      add_all-Within calls (add_data offset_limit hash bits false stored d).1 i
        (rw (add_unreachable stored d) h)

  module _ (in_redis : bits ≤ offset_limit) where
    locations-Small : (d : Bytes) (i n : ℕ) → Small offset_limit (locations_from hash bits d i n)
    unfolding locations_from
    locations-Small d i zero = tt
    locations-Small d i (suc n) =
        let small = mod-lt (hash (d ++ (i ∷ []))) positive in
        (omega arith, locations-Small d (suc i) n)

    -- In a filter of at least one bit and at most as many as redis takes offsets, `Add` of data with redis in reach has no
    -- error, and after any further calls of `Add`, each with redis in reach or not, `Exists` of
    -- that data, with redis in reach, answers that it is there.
    pub exists-add_data :
        (stored : Bits) (d : Bytes) (calls : List (Bool × Bytes))
        → ((add_data offset_limit hash bits true stored d).0 ≡ none)
          × (exists offset_limit hash bits true
                (add_all offset_limit hash bits
                  (add_data offset_limit hash bits true stored d).1
                  calls)
                d
              ≡ done true)
    unfolding get_locations
    exists-add_data stored d calls =
        let small = locations-Small d 0 maps in
        let after =
          add_all offset_limit hash bits (add_data offset_limit hash bits true stored d).1 calls in
        (
          ap (λ r. r.0) (add_lem stored d)
              ∙ done_by (set_script offset_limit (get_locations hash bits d) stored)
                  (set_script-Small offset_limit (get_locations hash bits d) stored small),
          exists_lem after d
              ∙ ap tested (
                  test_script-Within offset_limit (get_locations hash bits d)
                    (add_data offset_limit hash bits true stored d).1 after
                    (add_all-Within calls (add_data offset_limit hash bits true stored d).1)
                    (subst (λ b. test_script offset_limit (get_locations hash bits d) b ≡ some true)
                      (sym (add-bits stored d))
                      (test_script-set_script offset_limit (get_locations hash bits d) stored
                        small))),
        )
      where
        done_by : (r : Bool × Bits) → r.0 ≡ true → (stored_by r).0 ≡ none
        done_by (true, b) e = refl
        done_by (false, b) e = cc
