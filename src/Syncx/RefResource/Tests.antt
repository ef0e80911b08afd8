-- ===== src/Syncx/RefResource/Tests.antt =====
-- Two holders of one resource, and the theorem at them.
use go_zero.Prelude.{◌≡◌, refl, [], ◌∷◌, arith}
use go_zero.Syncx.RefResource.{
  call_use, call_clean, used, use_of_cleaned, clean_called, nothing_called, new_ref_resource, run,
  use_resource, clean_resource,
}
use go_zero.Syncx.RefResource.Counted.{effects, run-effects}

run-effects_example :
    run new_ref_resource (call_use ∷ call_use ∷ call_clean ∷ call_clean ∷ call_use ∷ [])
    ≡ used ∷ used ∷ nothing_called ∷ clean_called ∷ use_of_cleaned ∷ []
unfolding effects
run-effects_example =
    run-effects (call_use ∷ call_use ∷ call_clean ∷ call_clean ∷ call_use ∷ []) (omega arith) tt

-- A `Clean` without a holder makes the count -1: of two later holders the first one's `Clean`
-- cleans.
clean_too_early :
    run new_ref_resource (call_clean ∷ call_use ∷ call_use ∷ call_clean ∷ [])
    ≡ nothing_called ∷ used ∷ used ∷ clean_called ∷ []
unfolding run new_ref_resource use_resource clean_resource
clean_too_early = refl
