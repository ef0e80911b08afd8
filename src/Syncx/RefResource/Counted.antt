-- ===== src/Syncx/RefResource/Counted.antt =====
-- The resource as a count of its holders.
use go_zero.Prelude.{
  ℕ, zero, suc, ◌+◌, ◌-◌, ◌%◌, ◌^◌, ◌<◌, ◌==◌, ◌≡◌, refl, ap, ◌∙◌, if◌then◌else◌, true, false, List,
  [], ◌∷◌, arith, length, mod-eq_of_lt, add-mod_right,
}
use go_zero.Syncx.RefResource.{
  RefResource, new_ref_resource, Call, call_use, call_clean, Effect, used, use_of_cleaned,
  clean_called, nothing_called, use_resource, clean_resource, run,
}

-- The resource with its number of holders, or cleaned.
pub data Counted : Type 0 where
  held : ℕ → Counted
  gone : Counted

-- What the calls do: the function `clean` is called when the last holder is done, and a cleaned
-- resource stays cleaned.
unfoldable pub effects : Counted → List Call → List Effect
effects c [] = []
effects (held n) (call_use ∷ calls) = used ∷ effects (held (suc n)) calls
effects (held zero) (call_clean ∷ calls) = nothing_called ∷ effects (held zero) calls
effects (held (suc zero)) (call_clean ∷ calls) = clean_called ∷ effects gone calls
effects (held (suc (suc n))) (call_clean ∷ calls) = nothing_called ∷ effects (held (suc n)) calls
effects gone (call_use ∷ calls) = use_of_cleaned ∷ effects gone calls
effects gone (call_clean ∷ calls) = nothing_called ∷ effects gone calls

-- `Clean` is called by a holder only, as long as the resource is not cleaned.
abbrev pub ByHolders : Counted → List Call → Type 0
ByHolders c [] = Unit
ByHolders (held n) (call_use ∷ calls) = ByHolders (held (suc n)) calls
ByHolders (held zero) (call_clean ∷ calls) = ⊥
ByHolders (held (suc zero)) (call_clean ∷ calls) = Unit
ByHolders (held (suc (suc n))) (call_clean ∷ calls) = ByHolders (held (suc n)) calls
ByHolders gone calls = Unit

run-gone :
    (calls : List Call) (n : ℕ)
    → run (record { ref = n; cleaned = true }) calls ≡ effects gone calls
unfolding run effects use_resource clean_resource
run-gone [] n = refl
run-gone (call_use ∷ calls) n = ap (◌∷◌ use_of_cleaned) (run-gone calls n)
run-gone (call_clean ∷ calls) n = ap (◌∷◌ nothing_called) (run-gone calls n)

down : (n : ℕ) → suc n < 2 ^ 32 → (suc n + (2 ^ 32 - 1)) % 2 ^ 32 ≡ n
down n h =
    ap (λ k. k % 2 ^ 32) (omega arith) ∙ add-mod_right n (2 ^ 32) ∙ mod-eq_of_lt (omega arith)

clean-held :
    (n : ℕ)
    → suc (suc n) < 2 ^ 32
    → clean_resource (record { ref = suc (suc n); cleaned = false })
      ≡ (record { ref = suc n; cleaned = false }, nothing_called)
unfolding clean_resource
clean-held n h = ap after (down (suc n) h) ∙ rw left refl
  where
    left : (suc n == 0) ≡ false
    left = ground arith

    after : ℕ → RefResource × Effect
    after k =
        if k == 0
        then (record { ref = k; cleaned = true }, clean_called)
        else (record { ref = k; cleaned = false }, nothing_called)

run-held :
    (calls : List Call) (n : ℕ)
    → n + length calls < 2 ^ 32
    → ByHolders (held n) calls
    → run (record { ref = n; cleaned = false }) calls ≡ effects (held n) calls
unfolding run effects use_resource clean_resource
run-held [] n small held_by = refl
run-held (call_use ∷ calls) n small held_by =
    ap (λ k. used ∷ run (record { ref = k; cleaned = false }) calls)
      (mod-eq_of_lt (omega (arith, small)) ∙ omega arith)
    ∙ ap (◌∷◌ used) (run-held calls (suc n) (omega (arith, small)) held_by)
run-held (call_clean ∷ calls) zero small held_by = absurd held_by
run-held (call_clean ∷ calls) (suc zero) small held_by = ap (◌∷◌ clean_called) (run-gone calls 0)
run-held (call_clean ∷ calls) (suc (suc n)) small held_by =
    ap (λ p. p.1 ∷ run p.0 calls) (clean-held n (omega (arith, small)))
    ∙ ap (◌∷◌ nothing_called) (run-held calls (suc n) (omega (arith, small)) held_by)

-- With less than `2 ^ 32` calls, `Clean` by holders only, the resource is cleaned when its last
-- holder is done and at no other time, and can be used until then and never after.
pub run-effects :
    (calls : List Call)
    → length calls < 2 ^ 32
    → ByHolders (held 0) calls
    → run new_ref_resource calls ≡ effects (held 0) calls
unfolding new_ref_resource
run-effects calls small held_by = run-held calls 0 (omega (arith, small)) held_by
