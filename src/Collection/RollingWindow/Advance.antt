-- ===== src/Collection/RollingWindow/Advance.antt =====
-- Bringing a rolling window up to date keeps its totals.
use native.Mathlib.Nat.{div-add-mod, mul-add-div, div-eq_of_lt, add-zero, mul-add-mod_self_left}
use go_zero.Prelude.{
  ℕ, ◌+◌, ◌-◌, ◌*◌, ◌/◌, ◌%◌, ◌≤◌, ◌<◌, ◌≡◌, refl, sym, ap, ap₂, ◌∙◌, List, true, false, leb,
  if◌then◌else◌, some, get_or, arith, mod-lt, mod-ne, mod-eq_of_lt, mod-add-mod, add-mod_right,
  dec_lt, leb-eq-true, min,
}
use go_zero.Collection.Bucket.{fresh}
use go_zero.Collection.RollingWindow.{
  RollingWindow, elapsed, align, span, reset_expired, update_offset,
}
use go_zero.Collection.RollingWindow.Slots.{
  IsSized, reset_expired-IsSized, reset_expired_hit, reset_expired_miss,
}
use go_zero.Collection.RollingWindow.Tally.{tally, Upto, tally_after, Upto-mono}

module _ {ℓ} {V : Type ℓ} (nought : V) (plus : V → V → V) where
  -- The window of `n` intervals after the events `h`, last brought up to date in the interval `l`.
  pub record Holds (n interval start l : ℕ) (h : List (ℕ × V)) (w : RollingWindow V) : Type ℓ where
    pub size_eq : w.size ≡ n
    pub interval_eq : w.interval ≡ interval
    pub in_range : w.offset < n
    pub started : n ≤ l
    pub aligned : w.last_time ≡ start + (l - n) * interval
    pub sized : IsSized n w.win
    pub upto : Upto l h
    pub held :
        (j : ℕ)
        → j < n
        → get_or w.win.buckets ((w.offset + n - j) % n) (fresh nought plus)
          ≡ tally nought plus (l - j) (fresh nought plus) h

-- Clock arithmetic: `start + a * i` is the beginning of an interval, `d` intervals before the one
-- in which `t` lies.
module _ (start i t a d : ℕ) (le : start ≤ t) (pos : 0 < i) (e : (t - start) / i ≡ a + d) where
  split_time : t ≡ start + a * i + (i * d + (t - start) % i)
  split_time = omega (arith, div-add-mod (t - start) i, ap (λ (k : ℕ). i * k) e)

  abbrev rest_time : ℕ
  rest_time = (t - start) % i

  begun : leb (start + a * i) t ≡ true
  begun = leb-eq-true (start + a * i) t (omega (arith, split_time))

  past : t - (start + a * i) ≡ i * d + rest_time
  past = omega (arith, split_time)

  elapsed_lem : elapsed t (start + a * i) i ≡ some d
  elapsed_lem = rw begun (
      ap some (
        ap (λ k. k / i) past
        ∙ mul-add-div pos d rest_time
        ∙ ap (λ k. d + k) (div-eq_of_lt (mod-lt (t - start) pos))
        ∙ add-zero d))

  align_lem : align t (start + a * i) i ≡ start + (a + d) * i
  align_lem = rw begun (
      ap (λ k. t - k)
        (ap (λ k. k % i) past
          ∙ mul-add-mod_self_left i d rest_time
          ∙ mod-eq_of_lt (mod-lt (t - start) pos))
      ∙ omega (arith, split_time))

-- The clock reading `t` lies `d` intervals after the interval `l`.
abbrev pub Reads : ℕ → ℕ → ℕ → ℕ → ℕ → ℕ → Type 0
Reads n interval start l d t = (start ≤ t) × ((t - start) / interval ≡ l - n + d)

module _ {ℓ} {V : Type ℓ} (nought : V) (plus : V → V → V) where
  -- The window moved on by `s` intervals, the last of which begins at `time`.
  abbrev pub advanced : RollingWindow V → ℕ → ℕ → ℕ → RollingWindow V
  advanced w size s time = record w {
    win = reset_expired nought plus w.win size (w.offset + 1) s;
    offset = (w.offset + s) % size;
    last_time = time;
  }

module _ {ℓ} {V : Type ℓ} (nought : V) (plus : V → V → V) (n interval start : ℕ) (pos : 0 < n)
    (ticking : 0 < interval) where
  module _ (l d : ℕ) (h : List (ℕ × V)) (w : RollingWindow V)
      (o : Holds nought plus n interval start l h w) where
    elapsed_Holds :
        (t : ℕ) → Reads n interval start l d t → elapsed t w.last_time w.interval ≡ some d
    elapsed_Holds t (le, e) =
        ap₂ (elapsed t) o.aligned o.interval_eq
        ∙ elapsed_lem start interval t (l - n) d le ticking e

    align_Holds :
        (t : ℕ)
        → Reads n interval start l d t
        → align t w.last_time w.interval ≡ start + (l - n + d) * interval
    align_Holds t (le, e) =
        ap₂ (align t) o.aligned o.interval_eq ∙ align_lem start interval t (l - n) d le ticking e

    pub span_Holds : (t : ℕ) → Reads n interval start l d t → span nought plus w t ≡ min d n
    unfolding span
    span_Holds t r = rw (elapsed_Holds t r, span) (ground (arith, o.size_eq))

    -- Within one interval nothing moves.
    pub update_none :
        (since now : ℕ)
        → d ≡ 0
        → Reads n interval start l d since
        → update_offset nought plus w since now ≡ w
    unfolding update_offset
    update_none since now still r =
        ap
          (λ z.
            if leb z 0
            then w
            else advanced nought plus w w.size z (align now w.last_time w.interval))
          (span_Holds since r)
        ∙ rw (none_gone (min d n) (omega arith))
      where
        none_gone : (k : ℕ) → k ≡ 0 → leb k 0 ≡ true
        none_gone k p = ground arith

    pub update_eq :
        (since now : ℕ)
        → 0 < d
        → Reads n interval start l d since
        → Reads n interval start l d now
        → update_offset nought plus w since now
          ≡ advanced nought plus w n (min d n) (start + (l - n + d) * interval)
    unfolding update_offset
    update_eq since now later r r' =
        ap
          (λ z.
            if leb z 0
            then w
            else advanced nought plus w w.size z (align now w.last_time w.interval))
          (span_Holds since r)
        ∙ rw (positive (min d n) (omega arith)) (
            ap₂ (λ size time. advanced nought plus w size (min d n) time) o.size_eq
              (align_Holds now r'))
      where
        positive : (k : ℕ) → 0 < k → leb k 0 ≡ false
        positive k p = ground arith

    -- The buckets of the intervals gone by are fresh, and the others keep their totals.
    advanced_held :
        (j s : ℕ)
        → j < n
        → s ≡ min d n
        → get_or
            (reset_expired nought plus w.win n (w.offset + 1) s).buckets
            (((w.offset + s) % n + n - j) % n)
            (fresh nought plus)
          ≡ tally nought plus (l + d - j) (fresh nought plus) h
    advanced_held j s lt e = elim (dec_lt j s) [
      | yes new ↦
          reset_expired_hit nought plus n pos w.win (w.offset + 1) s (s - 1 - j) _ o.sized
            (omega arith)
            (shift ∙ ap (λ k. k % n) (omega arith) ∙ add-mod_right (w.offset + 1 + (s - 1 - j)) n)
          ∙ sym (
              tally_after nought plus (l + d - j) l (fresh nought plus) h (omega (arith, o.started))
                o.upto)
      | no old ↦
          reset_expired_miss nought plus n pos w.win (w.offset + 1) s _ o.sized (λ i below q.
            mod-ne n (w.offset + 1 + i) (w.offset + s + (n - j)) (omega arith) (omega arith)
              (sym q ∙ shift))
          ∙ ap (λ k. get_or w.win.buckets k (fresh nought plus))
              (shift ∙ ap (λ k. k % n) (omega arith))
          ∙ o.held (j - s) (omega arith)
          ∙ ap (λ k. tally nought plus k (fresh nought plus) h) (omega (arith, o.started))
    ]
      where
        shift : ((w.offset + s) % n + n - j) % n ≡ (w.offset + s + (n - j)) % n
        shift =
            ap (λ k. k % n) (regroup ((w.offset + s) % n)) ∙ mod-add-mod (w.offset + s) n (n - j)
          where
            regroup : (k : ℕ) → k + n - j ≡ k + (n - j)
            regroup k = omega arith

    pub advanced-Holds :
        0 < d
        → Holds nought plus n interval start
            (l + d)
            h
            (advanced nought plus w n (min d n) (start + (l - n + d) * interval))
    advanced-Holds later = record {
      size_eq = o.size_eq;
      interval_eq = o.interval_eq;
      in_range = mod-lt (w.offset + min d n) pos;
      started = omega (arith, o.started);
      aligned = ap (λ (k : ℕ). start + k * interval) (omega (arith, o.started));
      sized = reset_expired-IsSized nought plus n pos w.win (w.offset + 1) (min d n) o.sized;
      upto = Upto-mono l (l + d) h (omega arith) o.upto;
      held = λ j lt. advanced_held j (min d n) lt refl;
    }
