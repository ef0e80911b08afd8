-- ===== src/Breaker/History.antt =====
-- What the breaker counts: the marks of the latest intervals.
use go_zero.Prelude.{
  ℕ, zero, suc, ◌+◌, ◌-◌, ◌/◌, ◌≤◌, ◌≡◌, refl, sym, ap, ap₂, ◌∙◌, ltb, leb, ◌&&◌, if◌then◌else◌,
  Bool, false, List, [], ◌∷◌, ◌++◌, some, arith, replicate,
}
use go_zero.Collection.Bucket.{Bucket, fresh}
use go_zero.Collection.RollingWindow.{reduce}
use go_zero.Collection.RollingWindow.Tally.{Event, slot_of, history, add_events, tally, tallies}
use go_zero.Collection.RollingWindow.History.{InOrder, reduce-history, div_mono}
use go_zero.Breaker.{window_time, buckets, GoogleBreaker, new_google_breaker, sum_buckets, counts}

-- The values in the intervals from `k` on, `c` of them, each weighed by `f`.
weigh : (ℕ → ℕ) → ℕ → ℕ → List (ℕ × ℕ) → ℕ
weigh f k c [] = 0
weigh f k c ((slot, v) ∷ h) = (if leb k slot && ltb slot (k + c) then f v else 0) + weigh f k c h

weigh_split :
    (f : ℕ → ℕ) (k c : ℕ) (h : List (ℕ × ℕ))
    → weigh f k (suc c) h ≡ weigh f k 1 h + weigh f (suc k) c h
unfolding weigh
weigh_split f k c [] = refl
weigh_split f k c ((slot, v) ∷ h) = ground (arith, weigh_split f k c h)

weigh_none : (f : ℕ → ℕ) (k : ℕ) (h : List (ℕ × ℕ)) → weigh f k 0 h ≡ 0
unfolding weigh
weigh_none f k [] = refl
weigh_none f k ((slot, v) ∷ h) = ground (arith, weigh_none f k h)

tally-weigh :
    (k : ℕ) (b : Bucket ℕ) (h : List (ℕ × ℕ))
    → ((tally 0 ◌+◌ k b h).sum ≡ b.sum + weigh (λ v. v) k 1 h)
      × ((tally 0 ◌+◌ k b h).count ≡ b.count + weigh (λ _. 1) k 1 h)
unfolding tally weigh
tally-weigh k b [] = omega arith
tally-weigh k b ((slot, v) ∷ h) =
    ground
      (arith, tally-weigh k (record { sum = b.sum + v; count = b.count + 1 }) h, tally-weigh k b h)

sum_buckets-tallies :
    (k c : ℕ) (h : List (ℕ × ℕ))
    → ((sum_buckets (tallies 0 ◌+◌ k c h)).0 ≡ weigh (λ v. v) k c h)
      × ((sum_buckets (tallies 0 ◌+◌ k c h)).1 ≡ weigh (λ _. 1) k c h)
unfolding sum_buckets tallies
sum_buckets-tallies k zero h = (sym (weigh_none (λ v. v) k h), sym (weigh_none (λ _. 1) k h))
sum_buckets-tallies k (suc c) h = omega (
  arith,
  tally-weigh k (fresh 0 ◌+◌) h,
  sum_buckets-tallies (suc k) c h,
  weigh_split (λ v. v) k c h,
  weigh_split (λ _. 1) k c h,
)

-- Empty buckets add nothing.
sum_buckets-append :
    (bs : List (Bucket ℕ)) (e : ℕ) → sum_buckets (bs ++ replicate e (fresh 0 ◌+◌)) ≡ sum_buckets bs
unfolding sum_buckets
sum_buckets-append [] zero = refl
sum_buckets-append [] (suc e) = rw (sum_buckets-append [] e)
sum_buckets-append (b ∷ bs) e = rw (sum_buckets-append bs e)

-- The interval of a time, for a breaker made at `start`.
abbrev pub interval_of : ℕ → ℕ → ℕ
interval_of start t = (t - start) / (window_time / buckets)

-- Is the mark in one of the latest intervals, 40 of them, up to the one of the time `t`?
abbrev pub is_recent : ℕ → ℕ → Event ℕ → Bool
is_recent start t e = ltb (interval_of start t) (interval_of start e.since + buckets)

-- The values of the recent marks, each weighed by `f`.
unfoldable pub recent : (ℕ → ℕ) → ℕ → ℕ → List (Event ℕ) → ℕ
recent f start t [] = 0
recent f start t (e ∷ es) = (if is_recent start t e then f e.value else 0) + recent f start t es

-- The number of recent successes (they have the value 1), and of recent marks.
abbrev pub recent_successes : ℕ → ℕ → List (Event ℕ) → ℕ
recent_successes = recent (λ v. v)

abbrev pub recent_marks : ℕ → ℕ → List (Event ℕ) → ℕ
recent_marks = recent (λ _. 1)

abbrev pub OneAfterAnother : ℕ → List (Event ℕ) → ℕ → Type 0
OneAfterAnother start es t = InOrder start (window_time / buckets) start es t

InOrder-le : (start i c t : ℕ) (es : List (Event ℕ)) → InOrder start i c es t → c ≤ t
InOrder-le start i c t [] order = order
InOrder-le start i c t (e ∷ es) (le, _, _, order) =
    omega (arith, InOrder-le start i e.since t es order)

test_eq :
    (a b : ℕ)
    → a ≤ b
    → (leb (40 + b + 1 - 40) (40 + a) && ltb (40 + a) (40 + b + 1 - 40 + 40)) ≡ ltb b (a + 40)
test_eq a b le = ground arith

recent-weigh :
    (f : ℕ → ℕ) (start c t : ℕ) (es : List (Event ℕ))
    → InOrder start (window_time / buckets) c es t
    → weigh f
        (slot_of buckets (window_time / buckets) start t + 1 - buckets)
        buckets
        (history buckets (window_time / buckets) start es)
      ≡ recent f start t es
unfolding weigh recent history
recent-weigh f start c t [] order = refl
recent-weigh f start c t (e ∷ es) (le, _, _, order) =
    ap₂ (λ b r. (if b then f e.value else 0) + r)
      (test_eq (interval_of start e.since) (interval_of start t) (
        div_mono (e.since - start) (t - start) (window_time / buckets) (omega arith)
          (omega (arith, InOrder-le start (window_time / buckets) e.since t es order))))
      (recent-weigh f start e.since t es order)

-- A breaker made at `start` whose marks came in order, each with its two clock readings in one
-- interval of 250 ms, counts at a time `t` not before them exactly the successes and the marks of
-- the latest 40 intervals.
pub counts-recent :
    (start t : ℕ) (b : GoogleBreaker) (es : List (Event ℕ))
    → new_google_breaker start ≡ some b
    → OneAfterAnother start es t
    → counts (add_events 0 ◌+◌ b es) t ≡ (recent_successes start t es, recent_marks start t es)
unfolding counts new_google_breaker
counts-recent start t b es made order =
    let (empties, e) =
      reduce-history 0 ◌+◌ buckets (window_time / buckets) start t false b es (omega arith)
        (omega arith) made order in
    sym (sum_buckets-append (reduce 0 ◌+◌ (add_events 0 ◌+◌ b es) t) empties)
    ∙ ap sum_buckets e
    ∙ ap₂ (λ x y. (x, y))
        ((sum_buckets-tallies lo buckets h).0 ∙ recent-weigh (λ v. v) start start t es order)
        ((sum_buckets-tallies lo buckets h).1 ∙ recent-weigh (λ _. 1) start start t es order)
  where
    lo : ℕ
    lo = slot_of buckets (window_time / buckets) start t + 1 - buckets

    h : List (ℕ × ℕ)
    h = history buckets (window_time / buckets) start es
