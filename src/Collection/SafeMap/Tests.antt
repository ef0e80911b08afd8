-- ===== src/Collection/SafeMap/Tests.antt =====
-- A map with a few keys, and the theorems at it.
use go_zero.Prelude.{
  ℕ, ◌==◌, ◌≡◌, refl, true, false, List, [], ◌∷◌, some, none, lookup, insert, erase, OneEntry,
  copy_all, ==_iff,
}
use go_zero.Collection.SafeMap.{
  SafeMap, new_safe_map, set_value, del, delete_key, compact_old, compact_new, unset_new, unset_old,
  range, visit_until,
}
use go_zero.Collection.SafeMap.Refine.{
  Call, call_set, call_del, call_get, call_size, got, sized, run, replies, after, after_one,
  run-replies, range-after,
}

abbrev calls : List (Call ℕ ℕ)
calls =
    call_set 1 10
    ∷ call_set 2 20
    ∷ call_set 1 11
    ∷ call_get 1
    ∷ call_del 2
    ∷ call_get 2
    ∷ call_size
    ∷ []

-- So many keys were deleted from the old part that a key goes to the new one.
abbrev worn : SafeMap ℕ ℕ
worn = record {
  deletion_old = 10001;
  deletion_new = 0;
  dirty_old = (1, 10) ∷ (2, 20) ∷ [];
  dirty_new = [];
}

set_value-worn : set_value ◌==◌ worn 1 11 ≡ record {
  deletion_old = 10002;
  deletion_new = 0;
  dirty_old = (2, 20) ∷ [];
  dirty_new = (1, 11) ∷ [];
}
unfolding set_value unset_old lookup erase insert
set_value-worn = refl

del-worn :
    del ◌==◌ worn 1
    ≡ record { deletion_old = 0; deletion_new = 0; dirty_old = (2, 20) ∷ []; dirty_new = [] }
unfolding del delete_key unset_new compact_old compact_new lookup erase insert copy_all
del-worn = refl

range_stops : range ◌==◌ worn (λ k v. false) ≡ (1, 10) ∷ []
unfolding range visit_until
range_stops = refl

run-replies_example : run ◌==◌ (new_safe_map ◌==◌) calls ≡ got (some 11) ∷ got none ∷ sized 1 ∷ []
unfolding replies lookup insert erase
run-replies_example = run-replies ◌==◌ ==_iff calls

range-after_example :
    OneEntry ◌==◌ (range ◌==◌ (after ◌==◌ (new_safe_map ◌==◌) calls) (λ _ _. true))
    × ((k : ℕ)
        → lookup ◌==◌ k (range ◌==◌ (after ◌==◌ (new_safe_map ◌==◌) calls) (λ _ _. true))
          ≡ lookup ◌==◌ k (after_one ◌==◌ [] calls))
range-after_example = range-after ◌==◌ ==_iff calls
