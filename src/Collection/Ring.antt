-- ===== src/Collection/Ring.antt =====
-- core/collection/ring.go: a ring that keeps the latest elements.
pub mod Latest
use go_zero.Prelude.{
  ℕ, zero, suc, ◌+◌, ◌%◌, ◌^◌, ltb, if◌then◌else◌, Bool, List, [], ◌∷◌, Option, none, some, length,
  get_or, set, replicate,
}

-- `Ring`; the lock is not modelled, since each method holds it from start to end.
pub record Ring {ℓ} (A : Type ℓ) : Type ℓ where
  pub elements : List A
  pub index : ℕ

-- `index++` on a 64-bit `int`, as a bit pattern. From `2 ^ 63` on it stands for a negative number.
abbrev pub inc_int : ℕ → ℕ
inc_int i = (i + 1) % 2 ^ 64

-- `nil` is Go's nil, the value of a slot that was never written.
module _ {ℓ} {A : Type ℓ} (nil : A) where
  -- `NewRing`; `none` is the panic.
  unfoldable pub new_ring : ℕ → Option (Ring A)
  new_ring n = if ltb n 1 then none else some (record { elements = replicate n nil; index = 0 })

  unfoldable pub add : Ring A → A → Ring A
  add r v = record {
    elements = set r.elements (r.index % length r.elements) v;
    index = inc_int r.index;
  }

  -- The loop of `Take`, with `i` rounds left; `s` is `start + i`.
  unfoldable pub copy_from : List A → ℕ → ℕ → List A
  copy_from elements s zero = []
  copy_from elements s (suc n) =
      get_or elements (s % length elements) nil ∷ copy_from elements (suc s) n

  unfoldable pub take_all : Ring A → List A
  unfolding copy_from
  take_all r =
      if ltb (length r.elements) r.index
      then copy_from r.elements (r.index % length r.elements) (length r.elements)
      else copy_from r.elements 0 r.index

  -- A sequence of calls of `Add`.
  unfoldable pub add_each : Ring A → List A → Ring A
  unfolding add
  add_each r [] = r
  add_each r (v ∷ vs) = add_each (add r v) vs
