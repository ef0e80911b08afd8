-- ===== src/Bloom/Tests.antt =====
-- A run of the filter at concrete data, with a hash that adds up the bytes.
use go_zero.Prelude.{refl, ℕ, ◌+◌, ◌^◌, ◌≡◌, true, false, [], ◌∷◌, none, some, Bytes, arith}
use go_zero.Bloom.{
  Bits, set_offsets, get_locations, locations_from, build_offset_args, set_script, store_error,
  done, add_data, exists,
}
use go_zero.Bloom.Members.{add_all, exists-add_data}

abbrev summed : Bytes → ℕ
summed [] = 0
summed (b ∷ rest) = b + summed rest

abbrev no_bits : Bits
no_bits i = false

exists-add_data_example :
    ((add_data (2 ^ 32) summed 20 true no_bits (1 ∷ 2 ∷ [])).0 ≡ none)
    × (exists
          (2 ^ 32)
          summed
          20
          true
          (add_all
            (2 ^ 32)
            summed
            20
            (add_data (2 ^ 32) summed 20 true no_bits (1 ∷ 2 ∷ [])).1
            ((false, 3 ∷ []) ∷ (true, 4 ∷ []) ∷ []))
          (1 ∷ 2 ∷ [])
        ≡ done true)
exists-add_data_example =
    exists-add_data (2 ^ 32) summed 20 (omega arith) (omega arith) no_bits (1 ∷ 2 ∷ [])
      ((false, 3 ∷ []) ∷ (true, 4 ∷ []) ∷ [])

-- An offset that redis does not take is an error.
too_far : (add_data (2 ^ 32) (λ d. 2 ^ 32) (2 ^ 33) true no_bits (1 ∷ [])).0 ≡ some store_error
unfolding add_data set_offsets get_locations locations_from build_offset_args set_script
too_far = refl
