-- ===== src/Mathx.antt =====
-- core/mathx/int.go: the larger and the smaller of two integers.
use go_zero.Prelude.{ℕ, ◌≡◌, ltb, if◌then◌else◌, arith, min, max}

-- `MaxInt`
unfoldable pub max_int : ℕ → ℕ → ℕ
max_int a b = if ltb b a then a else b

-- `MinInt`
unfoldable pub min_int : ℕ → ℕ → ℕ
min_int a b = if ltb a b then a else b

pub min_int-eq-min : (a b : ℕ) → min_int a b ≡ min a b
unfolding min_int
min_int-eq-min a b = ground arith

pub max_int-eq-max : (a b : ℕ) → max_int a b ≡ max a b
unfolding max_int
max_int-eq-max a b = ground arith
