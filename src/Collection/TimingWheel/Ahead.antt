-- ===== src/Collection/TimingWheel/Ahead.antt =====
-- How many ticks are ahead of a pending task.
use go_zero.Prelude.{
  ℕ, zero, suc, ◌+◌, ◌-◌, ◌*◌, ◌%◌, ◌<◌, ◌==◌, ◌≡◌, ◌≢◌, ◌↔◌, ◌⊎◌, inl, inr, refl, sym, ap, ◌∙◌,
  ltb, if◌then◌else◌, ◌||◌, Bool, true, false, List, [], ◌∷◌, Option, none, some, arith, Among,
  lookup, Bool-cases, ==_iff, mod-eq_of_lt, add-mod_right,
}
use go_zero.Collection.TimingWheel.{Position, TimingWheel}

-- The ticks until the hand comes from `hand` to the slot `p`, at least one.
abbrev pub distance : ℕ → ℕ → ℕ → ℕ
distance n hand p = if ltb hand p then p - hand else (p + n) - hand

unfoldable pub has : ℕ → List ℕ → Bool
has x [] = false
has x (y ∷ ys) = (y == x) || has x ys

pub has_iff : (x : ℕ) (ys : List ℕ) → (has x ys ≡ true) ↔ Among x ys
unfolding has
has_iff x [] = ((λ e. cc), (λ a. absurd a))
has_iff x (y ∷ ys) = elim (Bool-cases (y == x)) [
  | inl e ↦ rw e ((λ _. inl (sym ((==_iff y x).0 e))), (λ _. refl))
  | inr e ↦ rw e (
    (λ h. inr ((has_iff x ys).0 h)),
    elim [ inl h ↦ absurd (cc (e, (==_iff y x).1 (sym h))) | inr a ↦ (has_iff x ys).1 a ],
  )
]

module _ {K V : Type 0} (same : K → K → Bool) where
  -- The ticks ahead of a timer, where the entries of `rest` are still to be scanned in this tick.
  unfoldable pub due : TimingWheel K V → List ℕ → Position → ℕ
  due w rest t =
      (if has t.item rest then 0 else distance w.num_slots w.ticked_pos t.pos)
      + ((w.items t.item).circle * w.num_slots + (w.items t.item).diff)

  unfoldable pub timer_due : TimingWheel K V → List ℕ → Option Position → Option (V × ℕ)
  unfolding due
  timer_due w rest none = none
  timer_due w rest (some t) = some ((w.items t.item).value, due w rest t)

  -- What the wheel holds for a key: the value, and the ticks until the task is executed.
  unfoldable pub pending_in : TimingWheel K V → List ℕ → K → Option (V × ℕ)
  unfolding timer_due
  pending_in w rest k = timer_due w rest (lookup same k w.timers)

  unfoldable pub pending : TimingWheel K V → K → Option (V × ℕ)
  unfolding pending_in
  pending w k = pending_in w [] k

-- What a tick does to it: one tick less, and the task with one tick left is executed.
abbrev pub after_tick : {V : Type 0} → Option (V × ℕ) → Option (V × ℕ)
after_tick none = none
after_tick (some (v, zero)) = none
after_tick (some (v, suc zero)) = none
after_tick (some (v, suc (suc n))) = some (v, suc n)

abbrev pub minus_one : {V : Type 0} → Option (V × ℕ) → Option (V × ℕ)
minus_one none = none
minus_one (some (v, zero)) = some (v, zero)
minus_one (some (v, suc n)) = some (v, n)

pub minus_one-some :
    {V : Type 0} (v : V) (m n : ℕ) → m ≡ n - 1 → some (v, m) ≡ minus_one (some (v, n))
minus_one-some v m zero e = ap (λ k. some (v, k)) (omega arith)
minus_one-some v m (suc n) e = ap (λ k. some (v, k)) (omega arith)

abbrev pub drop_zero : {V : Type 0} → Option (V × ℕ) → Option (V × ℕ)
drop_zero none = none
drop_zero (some (v, zero)) = none
drop_zero (some (v, suc n)) = some (v, suc n)

pub drop_zero-minus_one : {V : Type 0} (o : Option (V × ℕ)) → drop_zero (minus_one o) ≡ after_tick o
drop_zero-minus_one none = refl
drop_zero-minus_one (some (v, zero)) = refl
drop_zero-minus_one (some (v, suc zero)) = refl
drop_zero-minus_one (some (v, suc (suc n))) = refl

-- The hand moves on, by one slot or back to the first.
hand-cases :
    (n hand : ℕ)
    → hand < n
    → ((hand + 1 ≡ n) × ((hand + 1) % n ≡ 0)) ⊎ ((hand + 1 < n) × ((hand + 1) % n ≡ hand + 1))
hand-cases n hand h = elim (Bool-cases (hand + 1 == n)) [
  | inl e ↦
      let at : hand + 1 ≡ n = (==_iff (hand + 1) n).0 e in
      inl (at, ap (λ k. k % n) (at ∙ omega arith) ∙ add-mod_right 0 n ∙ mod-eq_of_lt (omega arith))
  | inr e ↦ let on : hand + 1 < n = ground arith in inr (on, mod-eq_of_lt on)
]

pub distance-next :
    (n hand p : ℕ)
    → hand < n
    → p < n
    → p ≢ (hand + 1) % n
    → distance n ((hand + 1) % n) p ≡ distance n hand p - 1
distance-next n hand p h hp ne = elim (hand-cases n hand h) [
  | inl (at, e) ↦ let away : p ≢ 0 = rw e at ne in rw e (ground arith)
  | inr (at, e) ↦ let away : p ≢ hand + 1 = rw e at ne in rw e (ground arith)
]

pub distance-here : (n hand : ℕ) → hand < n → distance n hand ((hand + 1) % n) ≡ 1
distance-here n hand h = elim (hand-cases n hand h) [
  | inl (at, e) ↦ rw e (ground arith)
  | inr (at, e) ↦ rw e (ground arith)
]

pub distance_self : (n hand : ℕ) → hand < n → distance n hand hand ≡ n
distance_self n hand h = ground arith

pub distance-positive : (n hand p : ℕ) → hand < n → 0 < distance n hand p
distance-positive n hand p h = ground arith

-- The slot that lies `d` ticks ahead, less than once round.
pub distance-ahead :
    (n hand d : ℕ) → hand < n → 0 < d → d < n → distance n hand ((hand + d) % n) ≡ d
distance-ahead n hand d h pos small = elim (Bool-cases (ltb (hand + d) n)) [
  | inl e ↦ rw (mod-eq_of_lt {n = hand + d} {m = n} (ground arith)) (ground arith)
  | inr e ↦
      let round : (hand + d) % n ≡ (hand + d) - n =
        ap (λ k. k % n) (ground arith)
        ∙ add-mod_right ((hand + d) - n) n
        ∙ mod-eq_of_lt (ground arith) in
      rw round (ground arith)
]
