-- ===== src/Collection/RollingWindow/History.antt =====
-- The buckets of a rolling window are the totals of the latest intervals of its history.
use native.Mathlib.Nat.{le_trans, zero-div, le-div_iff_mul-le, div-mul-le_self}
use go_zero.Prelude.{
  ℕ, ◌+◌, ◌-◌, ◌*◌, ◌/◌, ◌%◌, ◌≤◌, ◌<◌, ◌≡◌, refl, sym, ap, ap₂, subst, ◌∙◌, List, [], ◌∷◌, ◌++◌,
  Bool, if◌then◌else◌, some, append-nil, append_assoc, eq_of_some, length-replicate,
  get_or-replicate, replicate, arith, ltb-eq-false,
}
use go_zero.Collection.Bucket.{fresh, new_buckets}
use go_zero.Collection.RollingWindow.{RollingWindow, new_rolling_window, update_offset, add, reduce}
use go_zero.Collection.RollingWindow.Tally.{Event, slot_of, history, add_events, tally, tallies}
use go_zero.Collection.RollingWindow.Advance.{Holds, Reads}
use go_zero.Collection.RollingWindow.Calls.{add-Holds, reduce-tallies}

pub div_mono : (x y i : ℕ) → 0 < i → x ≤ y → x / i ≤ y / i
div_mono x y i pos le = (le-div_iff_mul-le pos).1 (le_trans (div-mul-le_self x i) le)

-- The readings of the clock are in order from `c` on, up to `t`, and the two of one call fall into
-- one interval.
abbrev pub InOrder {ℓ} : {V : Type ℓ} → ℕ → ℕ → ℕ → List (Event V) → ℕ → Type 0
InOrder start interval c [] t = c ≤ t
InOrder start interval c (e ∷ es) t =
    (c ≤ e.since)
    × (e.since ≤ e.now)
    × ((e.since - start) / interval ≡ (e.now - start) / interval)
    × InOrder start interval e.since es t

ignore-add {ℓ} :
    {V : Type ℓ} (nought : V) (plus : V → V → V) (w : RollingWindow V) (since now : ℕ) (v : V)
    → (add nought plus w since now v).ignore_current ≡ w.ignore_current
unfolding add update_offset
ignore-add nought plus w since now v = ground arith

module _ {ℓ} {V : Type ℓ} (nought : V) (plus : V → V → V) (n interval start : ℕ) (pos : 0 < n)
    (ticking : 0 < interval) where
  -- How many intervals `t` lies after `c`.
  abbrev later : ℕ → ℕ → ℕ
  later c t = (t - start) / interval - (c - start) / interval

  later_sum : (c t : ℕ) → c ≤ t → (t - start) / interval ≡ (c - start) / interval + later c t
  later_sum c t le = omega (arith, div_mono (c - start) (t - start) interval ticking (omega arith))

  reads :
      (c t : ℕ)
      → start ≤ c
      → c ≤ t
      → Reads n interval start (slot_of n interval start c) (later c t) t
  reads c t le le' = (omega arith, omega (arith, later_sum c t le'))

  arrives : (c t : ℕ) → c ≤ t → slot_of n interval start c + later c t ≡ slot_of n interval start t
  arrives c t le = omega (arith, later_sum c t le)

  reduce_from :
      (es : List (Event V)) (c t : ℕ) (h : List (ℕ × V)) (w : RollingWindow V)
      → start ≤ c
      → Holds nought plus n interval start (slot_of n interval start c) h w
      → InOrder start interval c es t
      → (empties : ℕ) × (reduce nought plus (add_events nought plus w es) t
            ++ replicate empties (fresh nought plus)
          ≡ tallies nought plus
              (slot_of n interval start t + 1 - n)
              (n - (if w.ignore_current then 1 else 0))
              (h ++ history n interval start es))
  unfolding add_events history
  reduce_from [] c t h w le o order =
      let (empties, e) =
        reduce-tallies nought plus n interval start pos ticking (slot_of n interval start c)
          (later c t) t h w o (reads c t le order) in
      (
        empties,
        e
            ∙ ap₂
                (λ k hs.
                  tallies nought plus (k + 1 - n) (n - (if w.ignore_current then 1 else 0)) hs)
                (arrives c t order) (sym (append-nil h)),
      )
  reduce_from (e ∷ es) c t h w le o (c_le, now_le, same, order) =
      let d = later c e.since in
      let o' =
        add-Holds nought plus n interval start pos ticking (slot_of n interval start c) d e.since
          e.now h w e.value o (reads c e.since le c_le)
          (omega arith, sym same ∙ (reads c e.since le c_le).1) in
      let o'' =
        subst
          (λ m.
            Holds nought plus n interval start m (h ++ ((m, e.value) ∷ []))
              (add nought plus w e.since e.now e.value))
          (arrives c e.since c_le) o' in
      let (empties, q) =
        reduce_from es e.since t (h ++ ((slot_of n interval start e.since, e.value) ∷ []))
          (add nought plus w e.since e.now e.value) (omega arith) o'' order in
      (
        empties,
        q
            ∙ ap₂
                (λ b hs.
                  tallies nought plus (slot_of n interval start t + 1 - n)
                    (n - (if b then 1 else 0)) hs)
                (ignore-add nought plus w e.since e.now e.value)
                (append_assoc h ((slot_of n interval start e.since, e.value) ∷ [])
                  (history n interval start es)),
      )

  new_rolling_window-Holds :
      (ignore : Bool) (w : RollingWindow V)
      → new_rolling_window nought plus n interval ignore start ≡ some w
      → Holds nought plus n interval start (slot_of n interval start start) [] w
        × (w.ignore_current ≡ ignore)
  unfolding new_rolling_window new_buckets tally
  new_rolling_window-Holds ignore w e =
      subst
        (λ u.
          Holds nought plus n interval start (slot_of n interval start start) [] u
          × (u.ignore_current ≡ ignore))
        (eq_of_some made)
        (
          record {
            size_eq = refl;
            interval_eq = refl;
            in_range = pos;
            started = omega arith;
            aligned = sym (ap (λ (k : ℕ). start + k * interval) none_gone ∙ zero_times);
            sized = record { sized = refl; long = length-replicate n (fresh nought plus) };
            upto = tt;
            held = λ j lt. get_or-replicate n (fresh nought plus) ((0 + n - j) % n);
          },
          refl,
        )
    where
      none_gone : slot_of n interval start start - n ≡ 0
      none_gone =
          ap (λ k. n + k / interval - n) (minus_self start)
          ∙ ap (λ k. n + k - n) (zero-div interval)
          ∙ minus_self' n
        where
          minus_self : (k : ℕ) → k - k ≡ 0
          minus_self k = omega arith

          minus_self' : (k : ℕ) → k + 0 - k ≡ 0
          minus_self' k = omega arith

      zero_times : start + 0 * interval ≡ start
      zero_times = omega arith

      made :
          some (record {
            size = n;
            win = record { buckets = replicate n (fresh nought plus); size = n };
            interval = interval;
            offset = 0;
            ignore_current = ignore;
            last_time = start;
          })
          ≡ some w
      made = rw (ltb-eq-false n 1 pos) at e

-- A window of `n` buckets, `n` at least 1, made at `start`, and a sequence of calls of `Add` at
-- clock readings in order, the two readings of each call within one interval. `Reduce` at a time
-- `t` not before them visits the totals of the values added in each of the `n` latest intervals,
-- oldest first, or of the `n - 1` before the current one if that is ignored; it leaves out only
-- empty buckets at the end.
pub reduce-history {ℓ} :
    {V : Type ℓ} (nought : V) (plus : V → V → V) (n interval start t : ℕ) (ignore : Bool)
    (w : RollingWindow V) (es : List (Event V))
    → 0 < n
    → 0 < interval
    → new_rolling_window nought plus n interval ignore start ≡ some w
    → InOrder start interval start es t
    → (empties : ℕ) × (reduce nought plus (add_events nought plus w es) t
          ++ replicate empties (fresh nought plus)
        ≡ tallies nought plus
            (slot_of n interval start t + 1 - n)
            (n - (if ignore then 1 else 0))
            (history n interval start es))
reduce-history nought plus n interval start t ignore w es pos ticking e order =
    let (o, same) = new_rolling_window-Holds nought plus n interval start pos ticking ignore w e in
    let (empties, q) =
      reduce_from nought plus n interval start pos ticking es start t [] w (omega arith) o order in
    (
      empties,
      q
          ∙ ap
              (λ b.
                tallies nought plus (slot_of n interval start t + 1 - n) (n - (if b then 1 else 0))
                  (history n interval start es))
              same,
    )
