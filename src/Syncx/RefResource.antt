-- ===== src/Syncx/RefResource.antt =====
-- core/syncx/refresource.go. Each method holds the lock, so it is one step. `ref` is an int32, kept
-- as its 32 bits: it wraps, and -1 is `2 ^ 32 - 1`.
pub mod Counted
mod Tests
use go_zero.Prelude.{
  ℕ, zero, suc, ◌+◌, ◌-◌, ◌%◌, ◌^◌, ◌==◌, if◌then◌else◌, Bool, true, false, List, [], ◌∷◌,
}

-- `RefResource`
pub record RefResource : Type 0 where
  pub ref : ℕ
  pub cleaned : Bool

-- `NewRefResource`
unfoldable pub new_ref_resource : RefResource
new_ref_resource = record { ref = 0; cleaned = false }

-- A call, and what it does: `Use` succeeds or returns `ErrUseOfCleaned`; `Clean` calls the function
-- `clean` or not.
pub data Call : Type 0 where
  call_use call_clean : Call

pub data Effect : Type 0 where
  used use_of_cleaned clean_called nothing_called : Effect

-- `Use`
unfoldable pub use_resource : RefResource → RefResource × Effect
use_resource r =
    if r.cleaned then (r, use_of_cleaned) else (record r { ref = (r.ref + 1) % 2 ^ 32 }, used)

-- `Clean`
unfoldable pub clean_resource : RefResource → RefResource × Effect
clean_resource r =
    if r.cleaned
    then (r, nothing_called)
    else (let ref = (r.ref + (2 ^ 32 - 1)) % 2 ^ 32 in
        if ref == 0
        then (record { ref = ref; cleaned = true }, clean_called)
        else (record r { ref = ref }, nothing_called))

-- A sequence of calls.
unfoldable pub run : RefResource → List Call → List Effect
run r [] = []
run r (call_use ∷ calls) = let (r', e) = use_resource r in e ∷ run r' calls
run r (call_clean ∷ calls) = let (r', e) = clean_resource r in e ∷ run r' calls
