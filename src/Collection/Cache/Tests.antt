-- ===== src/Collection/Cache/Tests.antt =====
-- Runs of the cache at concrete calls.
use go_zero.Prelude.{
  ℕ, ◌≤◌, ◌≡◌, refl, ◌==◌, ==_iff, arith, List, [], ◌∷◌, none, some, All, lookup, erase,
}
use go_zero.Collection.Cache.{new_cache}
use go_zero.Collection.Cache.Runs.{
  Call, get_key, delete, set_key, take_key, run, recent_run, run-recent, size-run,
}

-- With a limit of two, a key that was found stays when a third is set.
abbrev calls : List (Call ℕ ℕ)
calls =
    set_key 1 10 60
    ∷ take_key 2 (some 20) 60
    ∷ get_key 1
    ∷ set_key 3 30 60
    ∷ get_key 2
    ∷ get_key 1
    ∷ delete 1
    ∷ take_key 1 none 60
    ∷ []

recent-calls : recent_run ◌==◌ 2 [] calls ≡ (
    (none, 1)
    ∷ (some 20, 2)
    ∷ (some 10, 2)
    ∷ (none, 2)
    ∷ (none, 2)
    ∷ (some 10, 2)
    ∷ (none, 1)
    ∷ (none, 1)
    ∷ [])
unfolding lookup erase
recent-calls = refl

run-recent_example : run ◌==◌ (new_cache 60 2) calls ≡ recent_run ◌==◌ 2 [] calls
run-recent_example = run-recent ◌==◌ ==_iff 60 2 calls (omega arith)

size-run_example : All (λ r. r.1 ≤ 2) (run ◌==◌ (new_cache 60 2) calls)
size-run_example = size-run ◌==◌ ==_iff 60 2 calls (omega arith)
