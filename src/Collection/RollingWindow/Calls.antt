-- ===== src/Collection/RollingWindow/Calls.antt =====
-- Each call on a rolling window, against the totals that it holds.
use go_zero.Prelude.{
  ℕ, zero, suc, ◌+◌, ◌-◌, ◌%◌, ◌≤◌, ◌<◌, ◌≡◌, refl, sym, ap, ap₂, subst, ◌∙◌, List, [], ◌∷◌, ◌++◌,
  Bool, ◌⊎◌, true, false, ltb, ◌==◌, ◌&&◌, if◌then◌else◌, inl, inr, get_or, replicate, arith,
  mod-ne, mod-eq_of_lt, mod-add-mod, add-mod_right, dec_lt, ltb-eq-true, ltb-eq-false, min,
}
use go_zero.Collection.Bucket.{Buckets, fresh, add_value, add_at, visit}
use go_zero.Collection.RollingWindow.{RollingWindow, update_offset, add, reduce}
use go_zero.Collection.RollingWindow.Slots.{IsSized, add_at-IsSized, add_at_self, add_at_ne}
use go_zero.Collection.RollingWindow.Tally.{
  tally, tallies, tallies-append, tallies_after, tally-snoc, Upto-snoc,
}
use go_zero.Collection.RollingWindow.Advance.{
  update_none, Holds, Reads, span_Holds, update_eq, advanced-Holds,
}

module _ {ℓ} {V : Type ℓ} (nought : V) (plus : V → V → V) (n interval start : ℕ) (pos : 0 < n)
    (ticking : 0 < interval) where
  update-Holds :
      (l d since now : ℕ) (h : List (ℕ × V)) (w : RollingWindow V)
      → Holds nought plus n interval start l h w
      → Reads n interval start l d since
      → Reads n interval start l d now
      → Holds nought plus n interval start (l + d) h (update_offset nought plus w since now)
  update-Holds l zero since now h w o r r' =
      subst (λ u. Holds nought plus n interval start (l + 0) h u) (sym stays)
        (subst (λ m. Holds nought plus n interval start m h w) (l_zero l) o)
    where
      l_zero : (m : ℕ) → m ≡ m + 0
      l_zero m = omega arith

      stays : update_offset nought plus w since now ≡ w
      stays = update_none nought plus n interval start pos ticking l 0 h w o since now refl r
  update-Holds l (suc d) since now h w o r r' =
      rw
        (update_eq nought plus n interval start pos ticking l (suc d) h w o since now (omega arith)
          r r')
        (advanced-Holds nought plus n interval start pos ticking l (suc d) h w o (omega arith))

  value-Holds :
      (l : ℕ) (h : List (ℕ × V)) (w : RollingWindow V) (v : V)
      → Holds nought plus n interval start l h w
      → Holds nought plus n interval start l
          (h ++ ((l, v) ∷ []))
          (record w { win = add_at nought plus w.win w.offset v })
  value-Holds l h w v o = record {
    size_eq = o.size_eq;
    interval_eq = o.interval_eq;
    in_range = o.in_range;
    started = o.started;
    aligned = o.aligned;
    sized = add_at-IsSized nought plus n pos w.win w.offset v o.sized;
    upto = Upto-snoc l h v o.upto;
    held = held_after;
  }
    where
      apart : (j : ℕ) → (l == (l - suc j)) ≡ false
      apart j = ground (arith, o.started)

      whole : (w.offset + n) % n ≡ w.offset
      whole = add-mod_right w.offset n ∙ mod-eq_of_lt o.in_range

      same : (m : ℕ) → (m == (m - 0)) ≡ true
      same m = ground arith

      held_after :
          (j : ℕ)
          → j < n
          → get_or
              (add_at nought plus w.win w.offset v).buckets
              ((w.offset + n - j) % n)
              (fresh nought plus)
            ≡ tally nought plus (l - j) (fresh nought plus) (h ++ ((l, v) ∷ []))
      held_after zero lt =
          ap (λ k. get_or (add_at nought plus w.win w.offset v).buckets (k % n) (fresh nought plus))
            (omega arith)
          ∙ ap (λ k. get_or (add_at nought plus w.win w.offset v).buckets k (fresh nought plus))
              whole
          ∙ add_at_self nought plus n pos w.win w.offset v o.sized o.in_range
          ∙ ap (λ k. add_value nought plus (get_or w.win.buckets k (fresh nought plus)) v)
              (sym (ap (λ k. k % n) (omega arith) ∙ whole))
          ∙ ap (λ b. add_value nought plus b v) (o.held 0 lt)
          ∙ sym (tally-snoc nought plus (l - 0) (fresh nought plus) h l v ∙ rw (same l))
      held_after (suc j) lt =
          add_at_ne nought plus n pos w.win w.offset _ v o.sized o.in_range (λ q.
            mod-ne n (w.offset + n - suc j) (w.offset + n) (omega arith) (omega arith)
              (q ∙ sym whole))
          ∙ o.held (suc j) lt
          ∙ sym (tally-snoc nought plus (l - suc j) (fresh nought plus) h l v ∙ rw (apart j))

  pub add-Holds :
      (l d since now : ℕ) (h : List (ℕ × V)) (w : RollingWindow V) (v : V)
      → Holds nought plus n interval start l h w
      → Reads n interval start l d since
      → Reads n interval start l d now
      → Holds nought plus n interval start
          (l + d)
          (h ++ ((l + d, v) ∷ []))
          (add nought plus w since now v)
  unfolding add
  add-Holds l d since now h w v o r r' =
      value-Holds (l + d) h (update_offset nought plus w since now) v
        (update-Holds l d since now h w o r r')

  -- `window.reduce` from an index on, when the buckets there hold the totals from `k` on.
  visit-tallies :
      (b : Buckets V) (h : List (ℕ × V)) (s k count : ℕ)
      → IsSized n b
      → ((i : ℕ)
          → i < count
          → get_or b.buckets ((s + i) % n) (fresh nought plus)
            ≡ tally nought plus (k + i) (fresh nought plus) h)
      → visit nought plus b s count ≡ tallies nought plus k count h
  unfolding visit tallies
  visit-tallies b h s k zero o same = refl
  visit-tallies b h s k (suc count) o same =
      ap₂ ◌∷◌
        (ap (λ m. get_or b.buckets m (fresh nought plus)) (ap₂ ◌%◌ (plus_zero s) o.sized)
          ∙ same 0 (omega arith)
          ∙ ap (λ m. tally nought plus m (fresh nought plus) h) (sym (plus_zero k)))
        (visit-tallies b h (s + 1) (suc k) count o (λ i lt.
          ap (λ m. get_or b.buckets (m % n) (fresh nought plus)) (next s i)
          ∙ same (suc i) (omega arith)
          ∙ ap (λ m. tally nought plus m (fresh nought plus) h) (next_suc k i)))
    where
      plus_zero : (m : ℕ) → m ≡ m + 0
      plus_zero m = omega arith

      next : (m i : ℕ) → m + 1 + i ≡ m + suc i
      next m i = omega arith

      next_suc : (m i : ℕ) → m + suc i ≡ suc m + i
      next_suc m i = omega arith

  -- The intervals that `Reduce` leaves out at the end: the current one, if it is to be ignored.
  abbrev pub left_out : RollingWindow V → ℕ
  left_out w = if w.ignore_current then 1 else 0

  -- How many buckets `Reduce` visits, `s` intervals after the last update.
  abbrev visited : Bool → ℕ → ℕ
  visited ignore s = if (s == 0) && ignore then n - 1 else n - s

  visited_rest :
      (ignore : Bool) (s : ℕ)
      → visited ignore s + (n - (if ignore then 1 else 0) - visited ignore s)
        ≡ n - (if ignore then 1 else 0)
  visited_rest ignore s = ground arith

  visited_last :
      (ignore : Bool) (l d : ℕ)
      → n ≤ l
      → (n - (if ignore then 1 else 0) - visited ignore (min d n) ≡ 0)
        ⊎ (l < l + d + 1 - n + visited ignore (min d n))
  visited_last ignore l d le = ground arith

  reduce-visited :
      (l d t : ℕ) (h : List (ℕ × V)) (w : RollingWindow V)
      → Holds nought plus n interval start l h w
      → Reads n interval start l d t
      → reduce nought plus w t
        ≡ tallies nought plus (l + d + 1 - n) (visited w.ignore_current (min d n)) h
  unfolding reduce tallies
  reduce-visited l d t h w o r =
      ap₂
        (λ s size.
          let diff = if (s == 0) && w.ignore_current then size - 1 else size - s in
          if ltb 0 diff then visit nought plus w.win ((w.offset + s + 1) % size) diff else [])
        (span_Holds nought plus n interval start pos ticking l d h w o t r) o.size_eq
      ∙ elim (dec_lt 0 (visited w.ignore_current (min d n))) [
        | yes some_left ↦ rw (ltb-eq-true 0 (visited w.ignore_current (min d n)) some_left) (
            visit-tallies w.win h _ _ (visited w.ignore_current (min d n)) o.sized
              (λ i lt. at i (short w.ignore_current i lt)))
        | no none_left ↦
            rw (ltb-eq-false 0 (visited w.ignore_current (min d n)) (omega arith))
              (empty_tallies (visited w.ignore_current (min d n)) none_left)
      ]
    where
      short : (b : Bool) (i : ℕ) → i < visited b (min d n) → i + d < n
      short b i lt = ground arith

      empty_tallies : (v : ℕ) → ¬ (0 < v) → [] ≡ tallies nought plus (l + d + 1 - n) v h
      empty_tallies zero _ = refl
      empty_tallies (suc v) p = absurd (p (omega arith))

      at :
          (i : ℕ)
          → i + d < n
          → get_or w.win.buckets (((w.offset + min d n + 1) % n + i) % n) (fresh nought plus)
            ≡ tally nought plus (l + d + 1 - n + i) (fresh nought plus) h
      at i lt =
          ap (λ k. get_or w.win.buckets k (fresh nought plus))
            (mod-add-mod (w.offset + min d n + 1) n i ∙ ap (λ k. k % n) (omega arith))
          ∙ o.held (n - 1 - d - i) (omega arith)
          ∙ ap (λ k. tally nought plus k (fresh nought plus) h) (omega (arith, o.started))

  pub reduce-tallies :
      (l d t : ℕ) (h : List (ℕ × V)) (w : RollingWindow V)
      → Holds nought plus n interval start l h w
      → Reads n interval start l d t
      → (empties : ℕ) × (reduce nought plus w t ++ replicate empties (fresh nought plus)
          ≡ tallies nought plus (l + d + 1 - n) (n - left_out w) h)
  unfolding tallies
  reduce-tallies l d t h w o r = (
    n - left_out w - a,
    ap₂ ◌++◌ (reduce-visited l d t h w o r) trailing
        ∙ sym (tallies-append nought plus k a (n - left_out w - a) h)
        ∙ ap (λ c. tallies nought plus k c h) (visited_rest w.ignore_current (min d n)),
  )
    where
      k : ℕ
      k = l + d + 1 - n

      a : ℕ
      a = visited w.ignore_current (min d n)

      none_after : (m : ℕ) → [] ≡ tallies nought plus m 0 h
      none_after m = refl

      trailing :
          replicate (n - left_out w - a) (fresh nought plus)
          ≡ tallies nought plus (k + a) (n - left_out w - a) h
      trailing = elim (visited_last w.ignore_current l d o.started) [
        | inl no_rest ↦ rw no_rest (none_after (k + a))
        | inr later ↦ sym (tallies_after nought plus (k + a) l (n - left_out w - a) h later o.upto)
      ]
