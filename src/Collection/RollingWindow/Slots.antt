-- ===== src/Collection/RollingWindow/Slots.antt =====
-- What the writes to the buckets of a window do, bucket by bucket.
use go_zero.Prelude.{
  ℕ, zero, suc, ◌+◌, ◌%◌, ◌<◌, ◌≡◌, ◌≢◌, refl, sym, ap, subst, ◌∙◌, length, get_or, set, arith,
  length-set, get_or-set_self, get_or-set_ne, mod-lt, mod-mod, ℕ_discrete, mod-eq_of_lt,
}
use go_zero.Collection.Bucket.{Bucket, Buckets, fresh, add_value, add_at, reset_at}
use go_zero.Collection.RollingWindow.{reset_expired}

-- The buckets are as many as `size` says.
pub record IsSized {ℓ} {V : Type ℓ} (n : ℕ) (w : Buckets V) : Type ℓ where
  pub sized : w.size ≡ n
  pub long : length w.buckets ≡ n

module _ {ℓ} {V : Type ℓ} (nought : V) (plus : V → V → V) (n : ℕ) (pos : 0 < n) where
  -- The bucket at an index.
  abbrev pub bucket : Buckets V → ℕ → Bucket V
  bucket w p = get_or w.buckets p (fresh nought plus)

  reset_at-IsSized : (w : Buckets V) (p : ℕ) → IsSized n w → IsSized n (reset_at nought plus w p)
  unfolding reset_at
  reset_at-IsSized w p o = record { sized = o.sized; long = length-set w.buckets _ _ ∙ o.long }

  reset_at_self :
      (w : Buckets V) (p q : ℕ)
      → IsSized n w
      → q ≡ p % n
      → bucket (reset_at nought plus w p) q ≡ fresh nought plus
  unfolding reset_at
  reset_at_self w p q o e =
      ap (λ k. get_or (set w.buckets (p % w.size) (fresh nought plus)) k (fresh nought plus))
        (e ∙ ap (λ m. p % m) (sym o.sized))
      ∙ get_or-set_self w.buckets (p % w.size) (fresh nought plus) (fresh nought plus)
          (rw (o.sized, o.long) (mod-lt p pos))

  reset_at_ne :
      (w : Buckets V) (p q : ℕ)
      → IsSized n w
      → q ≢ p % n
      → bucket (reset_at nought plus w p) q ≡ bucket w q
  unfolding reset_at
  reset_at_ne w p q o ne =
      get_or-set_ne w.buckets (p % w.size) q (fresh nought plus) (fresh nought plus)
        (λ e. ne (sym e ∙ ap (λ m. p % m) o.sized))

  pub reset_expired-IsSized :
      (w : Buckets V) (s k : ℕ) → IsSized n w → IsSized n (reset_expired nought plus w n s k)
  unfolding reset_expired
  reset_expired-IsSized w s zero o = o
  reset_expired-IsSized w s (suc k) o =
      reset_expired-IsSized (reset_at nought plus w (s % n)) (s + 1) k
        (reset_at-IsSized w (s % n) o)

  -- A fresh bucket stays fresh.
  reset_expired-fresh :
      (w : Buckets V) (s k q : ℕ)
      → IsSized n w
      → bucket w q ≡ fresh nought plus
      → bucket (reset_expired nought plus w n s k) q ≡ fresh nought plus
  unfolding reset_expired
  reset_expired-fresh w s zero q o e = e
  reset_expired-fresh w s (suc k) q o e =
      reset_expired-fresh (reset_at nought plus w (s % n)) (s + 1) k q
        (reset_at-IsSized w (s % n) o)
        (elim (ℕ_discrete q (s % n % n)) [
          | yes hit ↦ reset_at_self w (s % n) q o hit
          | no miss ↦ reset_at_ne w (s % n) q o miss ∙ e
        ])

  -- The buckets that the loop reaches become fresh.
  pub reset_expired_hit :
      (w : Buckets V) (s k i q : ℕ)
      → IsSized n w
      → i < k
      → q ≡ (s + i) % n
      → bucket (reset_expired nought plus w n s k) q ≡ fresh nought plus
  unfolding reset_expired
  reset_expired_hit w s zero i q o lt e = elim lt [ ]
  reset_expired_hit w s (suc k) zero q o lt e =
      reset_expired-fresh (reset_at nought plus w (s % n)) (s + 1) k q
        (reset_at-IsSized w (s % n) o)
        (reset_at_self w (s % n) q o (e ∙ ap (λ m. m % n) (omega arith) ∙ sym (mod-mod s n)))
  reset_expired_hit w s (suc k) (suc i) q o lt e =
      reset_expired_hit (reset_at nought plus w (s % n)) (s + 1) k i q
        (reset_at-IsSized w (s % n) o) (omega arith) (e ∙ ap (λ m. m % n) (omega arith))

  -- The others stay as they are.
  pub reset_expired_miss :
      (w : Buckets V) (s k q : ℕ)
      → IsSized n w
      → ((i : ℕ) → i < k → q ≢ (s + i) % n)
      → bucket (reset_expired nought plus w n s k) q ≡ bucket w q
  unfolding reset_expired
  reset_expired_miss w s zero q o ne = refl
  reset_expired_miss w s (suc k) q o ne =
      reset_expired_miss (reset_at nought plus w (s % n)) (s + 1) k q (reset_at-IsSized w (s % n) o)
        (λ i lt e. ne (suc i) (omega arith) (e ∙ ap (λ m. m % n) (omega arith)))
      ∙ reset_at_ne w (s % n) q o
          (λ e. ne 0 (omega arith) (e ∙ mod-mod s n ∙ ap (λ m. m % n) (omega arith)))

  pub add_at-IsSized :
      (w : Buckets V) (p : ℕ) (v : V) → IsSized n w → IsSized n (add_at nought plus w p v)
  unfolding add_at
  add_at-IsSized w p v o = record { sized = o.sized; long = length-set w.buckets _ _ ∙ o.long }

  pub add_at_self :
      (w : Buckets V) (p : ℕ) (v : V)
      → IsSized n w
      → p < n
      → bucket (add_at nought plus w p v) p ≡ add_value nought plus (bucket w p) v
  unfolding add_at
  add_at_self w p v o lt =
      subst
        (λ k.
          get_or (set w.buckets k (add_value nought plus (bucket w k) v)) p (fresh nought plus)
          ≡ add_value nought plus (bucket w p) v)
        (sym (ap (λ m. p % m) o.sized ∙ mod-eq_of_lt lt))
        (get_or-set_self w.buckets p _ (fresh nought plus) (omega (arith, o.long)))

  pub add_at_ne :
      (w : Buckets V) (p q : ℕ) (v : V)
      → IsSized n w
      → p < n
      → q ≢ p
      → bucket (add_at nought plus w p v) q ≡ bucket w q
  unfolding add_at
  add_at_ne w p q v o lt ne =
      get_or-set_ne w.buckets (p % w.size) q _ (fresh nought plus)
        (λ e. ne (sym e ∙ ap (λ m. p % m) o.sized ∙ mod-eq_of_lt lt))
