-- ===== src/Bloom.antt =====
-- core/bloom/bloom.go: a set of data as bits in redis. The hash is an argument. The two scripts run
-- in redis as one step each, on the bits under the key, with the limit that redis sets to an offset;
-- where redis cannot be reached, nothing is changed. A filter of no bits, which divides by zero, is left to the hypotheses.
pub mod Members
mod Tests
use go_zero.Prelude.{
  ℕ, zero, suc, ◌+◌, ◌%◌, ◌^◌, leb, ltb, ◌==◌, if◌then◌else◌, Bool, true, false, List, [], ◌∷◌,
  ◌++◌, Option, none, some, Bytes,
}

abbrev pub maps : ℕ
maps = 14

-- The errors of a call
pub data Failure : Type 0 where
  too_large_offset store_error : Failure

pub data Outcome (A : Type 0) : Type 0 where
  done : A → Outcome A
  failed : Failure → Outcome A

-- The bits under the key
abbrev pub Bits : Type 0
Bits = ℕ → Bool

abbrev pub set_bit : ℕ → Bits → Bits
set_bit offset bits i = if i == offset then true else bits i

-- SETBIT and GETBIT take the offsets below `offset_limit`, which is 2 ^ 32 unless redis is set up for
-- longer strings, and fail at others.
module _ (offset_limit : ℕ) where
  -- Whether the script ran to its end, and the bits. What it set before it failed stays set.
  unfoldable pub set_script : List ℕ → Bits → Bool × Bits
  set_script [] bits = (true, bits)
  set_script (offset ∷ offsets) bits =
      let rest = set_script offsets (set_bit offset bits) in
      if ltb offset offset_limit then rest else (false, bits)

  -- What the script returns, and `none` if it fails.
  unfoldable pub test_script : List ℕ → Bits → Option Bool
  test_script [] bits = some true
  test_script (offset ∷ offsets) bits =
      let rest = test_script offsets bits in
      if ltb offset offset_limit then (if bits offset then rest else some false) else none

abbrev pub with_arg : ℕ → Outcome (List ℕ) → Outcome (List ℕ)
with_arg offset (done args) = done (offset ∷ args)
with_arg offset (failed e) = failed e

-- `buildOffsetArgs`, without the printing of the numbers
unfoldable pub build_offset_args : ℕ → List ℕ → Outcome (List ℕ)
build_offset_args bits [] = done []
build_offset_args bits (offset ∷ offsets) =
    let rest = build_offset_args bits offsets in
    if leb bits offset then failed too_large_offset else with_arg offset rest

-- What `ScriptRunCtx` makes of the scripts, where redis is reached
abbrev pub tested : Option Bool → Outcome Bool
tested none = failed store_error
tested (some found) = done found

abbrev pub stored_by : Bool × Bits → Option Failure × Bits
stored_by (true, stored) = (none, stored)
stored_by (false, stored) = (some store_error, stored)

module _ (offset_limit : ℕ) where
  -- `check` and `set` of `redisBitSet`
  unfoldable pub check : ℕ → Bool → Bits → List ℕ → Outcome Bool
  check bits reachable stored offsets = elim (build_offset_args bits offsets) [
    | failed e ↦ failed e
    | done args ↦
        if reachable then tested (test_script offset_limit args stored) else failed store_error
  ]

  unfoldable pub set_offsets : ℕ → Bool → Bits → List ℕ → Option Failure × Bits
  set_offsets bits reachable stored offsets = elim (build_offset_args bits offsets) [
    | failed e ↦ (some e, stored)
    | done args ↦
        if reachable
        then stored_by (set_script offset_limit args stored)
        else (some store_error, stored)
  ]

module _ (hash : Bytes → ℕ) (bits : ℕ) where
  -- The loop of `getLocations`, `n` rounds from `i`
  unfoldable pub locations_from : Bytes → ℕ → ℕ → List ℕ
  locations_from data_of i zero = []
  locations_from data_of i (suc n) =
      hash (data_of ++ (i ∷ [])) % bits ∷ locations_from data_of (suc i) n

  unfoldable pub get_locations : Bytes → List ℕ
  get_locations data_of = locations_from data_of 0 maps

module _ (offset_limit : ℕ) (hash : Bytes → ℕ) (bits : ℕ) where
  -- `AddCtx` and `ExistsCtx`
  unfoldable pub add_data : Bool → Bits → Bytes → Option Failure × Bits
  add_data reachable stored data_of =
      set_offsets offset_limit bits reachable stored (get_locations hash bits data_of)

  unfoldable pub exists : Bool → Bits → Bytes → Outcome Bool
  exists reachable stored data_of =
      check offset_limit bits reachable stored (get_locations hash bits data_of)
