-- ===== src/Stringx/Tests.antt =====
-- The functions on short strings, and the theorems at them.
use go_zero.Prelude.{◌==◌, ◌≡◌, ==_iff, refl, [], ◌∷◌, false, ltb}
use go_zero.Stringx.{
  pos, negsuc, filter_chars, remove, contains, substr, substring, slice_out_of_range,
  invalid_stop_position, first_n, join, reverse_chars, has_empty, not_empty, take_one,
  take_with_priority,
}
use go_zero.Stringx.Compact.{kept}
use go_zero.Stringx.Kept.{filter_chars-kept, remove-kept}
use go_zero.Stringx.Joined.{join-between}
use go_zero.Stringx.Reversed.{reverse_chars-reverse}
use go_zero.Stringx.Cut.{substr-append, first_n-take}

filter_chars-kept_example : filter_chars 0 (1 ∷ 2 ∷ 3 ∷ 4 ∷ []) (λ c. ltb c 3) ≡ 3 ∷ 4 ∷ []
unfolding kept
filter_chars-kept_example = filter_chars-kept 0 (1 ∷ 2 ∷ 3 ∷ 4 ∷ []) (λ c. ltb c 3)

remove-kept_example : remove 0 ◌==◌ (1 ∷ 2 ∷ 3 ∷ 2 ∷ []) (2 ∷ 1 ∷ []) ≡ 3 ∷ []
unfolding kept contains
remove-kept_example = remove-kept 0 ◌==◌ ==_iff (2 ∷ 1 ∷ []) (1 ∷ 2 ∷ 3 ∷ 2 ∷ [])

substr-append_example : substr (1 ∷ 2 ∷ 3 ∷ []) (pos 1) (pos 2) ≡ substring (2 ∷ [])
substr-append_example = substr-append (1 ∷ []) (2 ∷ []) (3 ∷ [])

-- Positions in range in the wrong order are a panic; a negative one is an error.
substr_panics_here : substr (1 ∷ 2 ∷ 3 ∷ []) (pos 2) (pos 1) ≡ slice_out_of_range
unfolding substr
substr_panics_here = refl

substr_negative : substr (1 ∷ 2 ∷ 3 ∷ []) (pos 2) (negsuc 0) ≡ invalid_stop_position
unfolding substr
substr_negative = refl

first_n-take_example : first_n (1 ∷ 2 ∷ 3 ∷ []) 2 (9 ∷ []) ≡ 1 ∷ 2 ∷ 9 ∷ []
first_n-take_example = first_n-take (1 ∷ 2 ∷ 3 ∷ []) 2 (9 ∷ [])

some_empty : not_empty ((1 ∷ []) ∷ [] ∷ []) ≡ false
unfolding not_empty has_empty
some_empty = refl

first_not_empty : take_with_priority ([] ∷ take_one [] (5 ∷ []) ∷ []) ≡ 5 ∷ []
unfolding take_with_priority take_one
first_not_empty = refl

join-between_example : join 0 ((1 ∷ []) ∷ [] ∷ (2 ∷ 3 ∷ []) ∷ []) ≡ 1 ∷ 0 ∷ 2 ∷ 3 ∷ []
unfolding kept
join-between_example = join-between ((1 ∷ []) ∷ [] ∷ (2 ∷ 3 ∷ []) ∷ []) 0

reverse_chars-reverse_example : reverse_chars (1 ∷ 2 ∷ 3 ∷ 4 ∷ []) ≡ 4 ∷ 3 ∷ 2 ∷ 1 ∷ []
reverse_chars-reverse_example = reverse_chars-reverse (1 ∷ 2 ∷ 3 ∷ 4 ∷ [])
