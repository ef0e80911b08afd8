-- ===== src/Collection/Bucket.antt =====
-- core/collection/rollingwindow.go: `Bucket` and the `window` of buckets.
use go_zero.Prelude.{ℕ, zero, suc, ◌+◌, ◌%◌, List, [], ◌∷◌, get_or, set, replicate}

-- `Bucket`: the `float64` sum is of an abstract type `V`.
pub record Bucket {ℓ} (V : Type ℓ) : Type ℓ where
  pub sum : V
  pub count : ℕ

-- `window`
pub record Buckets {ℓ} (V : Type ℓ) : Type ℓ where
  pub buckets : List (Bucket V)
  pub size : ℕ

-- `nought` and `plus` stand for the constant 0 and for `+=` on `float64`.
module _ {ℓ} {V : Type ℓ} (nought : V) (plus : V → V → V) where
  abbrev pub fresh : Bucket V
  fresh = record { sum = nought; count = 0 }

  -- `Bucket.add`
  abbrev pub add_value : Bucket V → V → Bucket V
  add_value b v = record { sum = plus b.sum v; count = b.count + 1 }

  -- `Bucket.reset`
  abbrev pub reset_bucket : Bucket V → Bucket V
  reset_bucket b = record b { sum = nought; count = 0 }

  -- `newWindow`
  unfoldable pub new_buckets : ℕ → Buckets V
  new_buckets size = record { buckets = replicate size fresh; size = size }

  -- `window.add`
  unfoldable pub add_at : Buckets V → ℕ → V → Buckets V
  add_at w offset v = record w {
    buckets =
        set w.buckets (offset % w.size) (add_value (get_or w.buckets (offset % w.size) fresh) v);
  }

  -- `window.resetBucket`
  unfoldable pub reset_at : Buckets V → ℕ → Buckets V
  reset_at w offset = record w {
    buckets =
        set w.buckets (offset % w.size) (reset_bucket (get_or w.buckets (offset % w.size) fresh));
  }

  -- `window.reduce`: the buckets that `fn` is called on, in order.
  unfoldable pub visit : Buckets V → ℕ → ℕ → List (Bucket V)
  visit w start zero = []
  visit w start (suc count) = get_or w.buckets (start % w.size) fresh ∷ visit w (start + 1) count
