-- ===== src/Collection/RollingWindow/Tally.antt =====
-- The history of a rolling window, and its totals interval by interval.
use go_zero.Prelude.{
  ℕ, zero, suc, ◌+◌, ◌-◌, ◌/◌, ◌≤◌, ◌<◌, ◌≡◌, refl, ap, ap₂, ◌∙◌, List, [], ◌∷◌, ◌++◌, false, ◌==◌,
  if◌then◌else◌, replicate, arith,
}
use go_zero.Collection.RollingWindow.{RollingWindow, add}
use go_zero.Collection.Bucket.{Bucket, fresh, add_value}

-- A call of `Add`: its two clock readings, and the value.
pub record Event {ℓ} (V : Type ℓ) : Type ℓ where
  pub since : ℕ
  pub now : ℕ
  pub value : V

-- The interval in which the time `t` lies, for a window of `n` intervals made at `start`. The
-- first one has the number `n`, so that the `n` latest ones always have numbers.
abbrev pub slot_of : ℕ → ℕ → ℕ → ℕ → ℕ
slot_of n interval start t = n + (t - start) / interval

-- The events with their intervals.
unfoldable pub history {ℓ} : {V : Type ℓ} → ℕ → ℕ → ℕ → List (Event V) → List (ℕ × V)
history n interval start [] = []
history n interval start (e ∷ es) =
    (slot_of n interval start e.since, e.value) ∷ history n interval start es

module _ {ℓ} {V : Type ℓ} where
  -- No event lies in an interval after `l`.
  abbrev pub Upto : ℕ → List (ℕ × V) → Type 0
  Upto l [] = Unit
  Upto l ((s, _) ∷ h) = (s ≤ l) × Upto l h

  pub Upto-mono : (l m : ℕ) (h : List (ℕ × V)) → l ≤ m → Upto l h → Upto m h
  Upto-mono l m [] le u = tt
  Upto-mono l m ((s, v) ∷ h) le (p, u) = (omega arith, Upto-mono l m h le u)

  pub Upto-snoc : (l : ℕ) (h : List (ℕ × V)) (v : V) → Upto l h → Upto l (h ++ ((l, v) ∷ []))
  Upto-snoc l [] v u = (omega arith, tt)
  Upto-snoc l ((s, w) ∷ h) v (p, u) = (p, Upto-snoc l h v u)

-- A sequence of calls of `Add`.
unfoldable pub add_events {ℓ} :
    {V : Type ℓ} → V → (V → V → V) → RollingWindow V → List (Event V) → RollingWindow V
add_events nought plus w [] = w
add_events nought plus w (e ∷ es) =
    add_events nought plus (add nought plus w e.since e.now e.value) es

-- The events in the interval `k`, added up in order.
module _ {ℓ} {V : Type ℓ} (nought : V) (plus : V → V → V) where
  unfoldable pub tally : ℕ → Bucket V → List (ℕ × V) → Bucket V
  tally k b [] = b
  tally k b ((slot, v) ∷ h) = tally k (if slot == k then add_value nought plus b v else b) h

  -- The totals of `count` intervals from `k` on.
  unfoldable pub tallies : ℕ → ℕ → List (ℕ × V) → List (Bucket V)
  tallies k zero h = []
  tallies k (suc count) h = tally k (fresh nought plus) h ∷ tallies (suc k) count h

  pub tally-snoc :
      (k : ℕ) (b : Bucket V) (h : List (ℕ × V)) (slot : ℕ) (v : V)
      → tally k b (h ++ ((slot, v) ∷ []))
        ≡ (if slot == k then add_value nought plus (tally k b h) v else tally k b h)
  unfolding tally
  tally-snoc k b [] slot v = refl
  tally-snoc k b ((s, u) ∷ h) slot v =
      tally-snoc k (if s == k then add_value nought plus b u else b) h slot v

  pub tally_after : (k l : ℕ) (b : Bucket V) (h : List (ℕ × V)) → l < k → Upto l h → tally k b h ≡ b
  unfolding tally
  tally_after k l b [] lt u = refl
  tally_after k l b ((s, v) ∷ h) lt (le, u) =
      ap (λ t. tally k (if t then add_value nought plus b v else b) h) (apart s k (omega arith))
      ∙ tally_after k l b h lt u
    where
      apart : (a c : ℕ) → a < c → (a == c) ≡ false
      apart a c q = ground arith

  pub tallies-append :
      (k a b : ℕ) (h : List (ℕ × V)) → tallies k (a + b) h ≡ tallies k a h ++ tallies (k + a) b h
  unfolding tallies
  tallies-append k zero b h = ap₂ (λ m c. tallies m c h) (omega arith) (omega arith)
  tallies-append k (suc a) b h =
      ap (λ c. tallies k c h) (suc_sum a b)
      ∙ ap (◌∷◌ (tally k (fresh nought plus) h)) (
          tallies-append (suc k) a b h
          ∙ ap (λ m. tallies (suc k) a h ++ tallies m b h) (move_suc k a))
    where
      suc_sum : (i j : ℕ) → suc i + j ≡ suc (i + j)
      suc_sum i j = omega arith

      move_suc : (i j : ℕ) → suc i + j ≡ i + suc j
      move_suc i j = omega arith

  -- The intervals after the last event are empty.
  pub tallies_after :
      (k l count : ℕ) (h : List (ℕ × V))
      → l < k
      → Upto l h
      → tallies k count h ≡ replicate count (fresh nought plus)
  unfolding tallies
  tallies_after k l zero h lt u = refl
  tallies_after k l (suc count) h lt u =
      ap₂ ◌∷◌ (tally_after k l (fresh nought plus) h lt u)
        (tallies_after (suc k) l count h (omega arith) u)
