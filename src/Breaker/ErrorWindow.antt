-- ===== src/Breaker/ErrorWindow.antt =====
-- core/breaker/breaker.go: `errorWindow`, the latest reasons of failures.
use go_zero.Prelude.{
  ℕ, zero, suc, ◌+◌, ◌-◌, ◌%◌, ◌≤◌, ◌<◌, ◌≡◌, refl, sym, ap, ap₂, subst, ◌∙◌, List, [], ◌∷◌, ◌++◌,
  length, get_or, set, take, arith, min, length-set, get_or-set_self, get_or-set_ne, append_assoc,
  append-nil, replicate,
}
use go_zero.Mathx.{min_int, min_int-eq-min}
use mathlib.Core.List.{reverse, reverse-cons}

-- `numHistoryReasons`
abbrev pub num_history_reasons : ℕ
num_history_reasons = 5

-- `errorWindow`; a reason is stored with the time in front, so `R` is the type of such lines.
pub record ErrorWindow {ℓ} (R : Type ℓ) : Type ℓ where
  pub reasons : List R
  pub index : ℕ
  pub count : ℕ

min-suc : (a b : ℕ) → min (suc a) (suc b) ≡ suc (min a b)
min-suc a b = omega arith

min_zero : (a : ℕ) → min 0 a ≡ 0
min_zero a = omega arith

min_zero_right : (a : ℕ) → min a 0 ≡ 0
min_zero_right a = omega arith

-- `nothing` is the empty string of a slot that was never written.
module _ {ℓ} {R : Type ℓ} (nothing : R) where
  -- `new(errorWindow)`
  unfoldable pub new_error_window : ErrorWindow R
  new_error_window = record {
    reasons = replicate num_history_reasons nothing;
    index = 0;
    count = 0;
  }

  -- `add`, given the line with its time
  unfoldable pub add_reason : ErrorWindow R → R → ErrorWindow R
  add_reason ew line = record {
    reasons = set ew.reasons ew.index line;
    index = (ew.index + 1) % num_history_reasons;
    count = min_int (ew.count + 1) num_history_reasons;
  }

  -- The loop of `String`, `n` rounds left; `s` is `i + 1 + numHistoryReasons`.
  unfoldable pub lines_from : List R → ℕ → ℕ → List R
  lines_from reasons s zero = []
  lines_from reasons s (suc n) =
      get_or reasons ((s - 1) % num_history_reasons) nothing ∷ lines_from reasons (s - 1) n

  -- `String`, before the lines are joined
  unfoldable pub lines : ErrorWindow R → List R
  lines ew = lines_from ew.reasons (ew.index + num_history_reasons) ew.count

  -- A sequence of calls of `add`.
  unfoldable pub add_reasons : ErrorWindow R → List R → ErrorWindow R
  add_reasons ew [] = ew
  add_reasons ew (line ∷ more) = add_reasons (add_reason ew line) more

  -- The window after the reasons `h`, latest first.
  record Holds (h : List R) (ew : ErrorWindow R) : Type ℓ where
    slots : length ew.reasons ≡ 5
    in_range : ew.index < 5
    counted : ew.count ≡ min (length h) 5
    held :
        (j : ℕ)
        → j < ew.count
        → get_or ew.reasons ((ew.index + 5 - 1 - j) % 5) nothing ≡ get_or h j nothing

  add_reason-Holds :
      (h : List R) (ew : ErrorWindow R) (line : R)
      → Holds h ew
      → Holds (line ∷ h) (add_reason ew line)
  unfolding add_reason
  add_reason-Holds h ew line o = record {
    slots = length-set ew.reasons ew.index line ∙ o.slots;
    in_range = omega arith;
    counted = omega (arith, min_int-eq-min (ew.count + 1) 5, o.counted);
    held = held_after;
  }
    where
      held_after :
          (j : ℕ)
          → j < min_int (ew.count + 1) 5
          → get_or (set ew.reasons ew.index line) (((ew.index + 1) % 5 + 5 - 1 - j) % 5) nothing
            ≡ get_or (line ∷ h) j nothing
      held_after zero lt =
          ap (λ k. get_or (set ew.reasons ew.index line) k nothing) (omega (arith, o.in_range))
          ∙ get_or-set_self ew.reasons ew.index line nothing (omega (arith, o.slots, o.in_range))
      held_after (suc j) lt =
          get_or-set_ne ew.reasons ew.index (((ew.index + 1) % 5 + 5 - 1 - suc j) % 5) line nothing
            (λ e. absurd (omega (arith, e, o.in_range, min_int-eq-min (ew.count + 1) 5)))
          ∙ ap (λ k. get_or ew.reasons k nothing)
              (omega (arith, o.in_range, min_int-eq-min (ew.count + 1) 5))
          ∙ o.held j (omega (arith, min_int-eq-min (ew.count + 1) 5))

  lines_from-take :
      (reasons : List R) (h : List R) (s n : ℕ)
      → n ≤ length h
      → ((j : ℕ) → j < n → get_or reasons ((s - 1 - j) % 5) nothing ≡ get_or h j nothing)
      → lines_from reasons s n ≡ take n h
  unfolding lines_from
  lines_from-take reasons h s zero le same = refl
  lines_from-take reasons [] s (suc n) le same = elim le [ ]
  lines_from-take reasons (x ∷ h) s (suc n) le same =
      ap₂ ◌∷◌ (ap (λ k. get_or reasons (k % 5) nothing) (omega arith) ∙ same 0 (omega arith)) (
        lines_from-take reasons h (s - 1) n (omega arith) (λ j lt.
          ap (λ k. get_or reasons (k % 5) nothing) (omega arith) ∙ same (suc j) (omega arith)))

  take-min : (n : ℕ) (h : List R) → take (min (length h) n) h ≡ take n h
  take-min zero h = ap (λ k. take k h) (min_zero_right (length h))
  take-min (suc n) [] = ap (λ k. take {A = R} k []) (min_zero (suc n))
  take-min (suc n) (x ∷ h) =
      ap (λ k. take k (x ∷ h)) (min-suc (length h) n) ∙ ap (◌∷◌ x) (take-min n h)

  add_reasons-Holds :
      (h more : List R) (ew : ErrorWindow R)
      → Holds h ew
      → Holds (reverse more ++ h) (add_reasons ew more)
  unfolding add_reasons
  add_reasons-Holds h [] ew o = o
  add_reasons-Holds h (x ∷ more) ew o =
      subst (λ l. Holds l (add_reasons (add_reason ew x) more))
        (sym (ap (λ l. l ++ h) (reverse-cons x more) ∙ append_assoc (reverse more) (x ∷ []) h))
        (add_reasons-Holds (x ∷ h) more (add_reason ew x) (add_reason-Holds h ew x o))

  -- `String` lists the latest five reasons that were added, the latest first, or all of them if there
  -- were fewer.
  pub lines-latest :
      (rs : List R)
      → lines (add_reasons new_error_window rs) ≡ take num_history_reasons (reverse rs)
  unfolding lines new_error_window
  lines-latest rs =
      lines_from-take ew.reasons (reverse rs) (ew.index + 5) ew.count (omega (arith, holds.counted))
        holds.held
      ∙ ap (λ k. take k (reverse rs)) holds.counted
      ∙ take-min 5 (reverse rs)
    where
      ew : ErrorWindow R
      ew = add_reasons new_error_window rs

      holds : Holds (reverse rs) ew
      holds =
          subst (λ l. Holds l ew) (append-nil (reverse rs))
            (add_reasons-Holds [] rs new_error_window (record {
              slots = refl;
              in_range = omega arith;
              counted = refl;
              held = λ j lt. absurd (omega arith);
            }))
