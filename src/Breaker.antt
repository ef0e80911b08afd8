-- ===== src/Breaker.antt =====
-- core/breaker/googlebreaker.go: the throttle that drops requests by the latest successes. The
-- sums of its rolling window are natural numbers (the values are 1 and 0, exact in float64), and
-- its ratios are fractions in place of float64.
pub mod History
pub mod Requests
pub mod ErrorWindow
pub mod Logged
mod Tests
use go_zero.Prelude.{
  ℕ, ◌+◌, ◌-◌, ◌*◌, ◌/◌, ◌^◌, ltb, leb, if◌then◌else◌, Bool, true, false, List, [], ◌∷◌, Option,
  none, some,
}
use go_zero.Collection.Bucket.{Bucket}
use go_zero.Collection.RollingWindow.{RollingWindow, new_rolling_window, reduce}
use go_zero.Collection.RollingWindow

-- `window` in nanoseconds, `buckets` and `protection`; `k` is 3 / 2.
abbrev pub window_time : ℕ
window_time = 10 * 10 ^ 9

abbrev pub buckets : ℕ
buckets = 40

abbrev pub protection : ℕ
protection = 5

-- `googleBreaker`: the rolling window; `k` is constant, and `proba` is asked through its draws.
abbrev pub GoogleBreaker : Type 0
GoogleBreaker = RollingWindow ℕ

-- `newGoogleBreaker`; `none` is a panic of `NewRollingWindow`.
unfoldable pub new_google_breaker : ℕ → Option GoogleBreaker
new_google_breaker now = new_rolling_window 0 ◌+◌ buckets (window_time / buckets) false now

-- A fraction `num / den`.
pub record Ratio : Type 0 where
  pub num : ℕ
  pub den : ℕ

-- The loop of `history` over the buckets that `Reduce` visits: `accepts` and `total`.
unfoldable pub sum_buckets : List (Bucket ℕ) → ℕ × ℕ
sum_buckets [] = (0, 0)
sum_buckets (b ∷ bs) = let (accepts, total) = sum_buckets bs in (b.sum + accepts, b.count + total)

unfoldable pub counts : GoogleBreaker → ℕ → ℕ × ℕ
counts b now = sum_buckets (reduce 0 ◌+◌ b now)

-- `dropRatio` if it is positive: `((total - 5) - 1.5 * accepts) / (total + 1)`, doubled.
unfoldable pub drop_ratio : ℕ → ℕ → Option Ratio
drop_ratio accepts total =
    if leb (2 * total) (2 * protection + 3 * accepts)
    then none
    else some (record { num = 2 * total - (2 * protection + 3 * accepts); den = 2 * (total + 1) })

-- `Proba.TrueOnProba` (core/mathx/proba.go): is the number drawn less than the ratio?
abbrev pub true_on_proba : Ratio → Ratio → Bool
true_on_proba drawn proba = ltb (drawn.num * proba.den) (proba.num * drawn.den)

-- `accept`: does it return nil? The clock is read once, and `drawn` is the random number.
unfoldable pub accept : GoogleBreaker → ℕ → Ratio → Bool
accept b now drawn =
    let (accepts, total) = counts b now in
    elim (drop_ratio accepts total) [
      | none ↦ true
      | some ratio ↦ if true_on_proba drawn ratio then false else true
    ]

-- `markSuccess` and `markFailure`, with the two clock readings of `Add`.
unfoldable pub mark_success : GoogleBreaker → ℕ → ℕ → GoogleBreaker
mark_success b since now = RollingWindow.add 0 ◌+◌ b since now 1

unfoldable pub mark_failure : GoogleBreaker → ℕ → ℕ → GoogleBreaker
mark_failure b since now = RollingWindow.add 0 ◌+◌ b since now 0

-- What a request did: it returned an error or nil, or it panicked.
pub data Outcome {ℓ} (E : Type ℓ) : Type ℓ where
  returned : Option E → Outcome E
  panicked : Outcome E

-- The clock readings of one call of `doReq`, and the number that it draws.
pub record Moment : Type 0 where
  pub asked : ℕ
  pub since : ℕ
  pub now : ℕ
  pub drawn : Ratio

-- `unavailable` is `ErrServiceUnavailable`.
module _ {ℓ} {E : Type ℓ} (unavailable : E) where
  -- `allow`: the error, if there is one; else the promise, whose methods mark the breaker.
  unfoldable pub allow : GoogleBreaker → ℕ → Ratio → Option E
  allow b now drawn = if accept b now drawn then none else some unavailable

  -- The part of `doReq` after `accept`: the deferred function marks a panic and panics again.
  -- `acceptable` is a closure on the state `S`.
  unfoldable pub mark_request {κ} :
      {S : Type κ}
      → GoogleBreaker
      → Moment
      → Outcome E
      → (S → Option E → Bool × S)
      → S
      → (GoogleBreaker × S) × Outcome E
  mark_request b m panicked acceptable s = ((mark_failure b m.since m.now, s), panicked)
  mark_request b m (returned err) acceptable s =
      let (fine, s') = acceptable s err in
      if fine
      then ((mark_success b m.since m.now, s'), returned err)
      else ((mark_failure b m.since m.now, s'), returned err)

  -- `doReq` after `accept`, whose error is given if there is one.
  unfoldable pub request_after {κ} :
      {S : Type κ}
      → Option E
      → GoogleBreaker
      → Moment
      → Outcome E
      → Option (E → Outcome E)
      → (S → Option E → Bool × S)
      → S
      → (GoogleBreaker × S) × Outcome E
  request_after (some err) b m req none acceptable s = ((b, s), returned (some err))
  request_after (some err) b m req (some fallback) acceptable s = ((b, s), fallback err)
  request_after none b m req fallback acceptable s = mark_request b m req acceptable s

  -- `doReq`: the new breaker, the new state of the closure, and what the caller gets. `req` is what
  -- the request does if it runs.
  unfoldable pub do_req {κ} :
      {S : Type κ}
      → GoogleBreaker
      → Moment
      → Outcome E
      → Option (E → Outcome E)
      → (S → Option E → Bool × S)
      → S
      → (GoogleBreaker × S) × Outcome E
  do_req b m req fallback acceptable s =
      request_after (allow b m.asked m.drawn) b m req fallback acceptable s
