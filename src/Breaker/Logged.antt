-- ===== src/Breaker/Logged.antt =====
-- core/breaker/breaker.go: the breaker with its error window. The report that `logError` sends is
-- not modelled.
use go_zero.Prelude.{
  Bool, true, false, Option, none, some, List, [], ◌∷◌, ◌++◌, ℕ, not, if◌then◌else◌,
}
use go_zero.Breaker.{
  GoogleBreaker, Outcome, returned, panicked, Moment, allow, do_req, mark_success, mark_failure,
}
use go_zero.Breaker.Requests.{Request, served}
use go_zero.Breaker.ErrorWindow.{ErrorWindow, add_reason}

-- `loggedThrottle`: the throttle inside, and the error window. `circuitBreaker` adds a name.
pub record LoggedThrottle {ℓ} (R : Type ℓ) : Type ℓ where
  pub throttle : GoogleBreaker
  pub err_win : ErrorWindow R

-- `defaultAcceptable`
abbrev pub default_acceptable {ℓ} : {E : Type ℓ} → Option E → Bool
default_acceptable none = true
default_acceptable (some _) = false

-- `unavailable` is `ErrServiceUnavailable`; `line` is an error's text with the time in front.
module _ {ℓ} {E R : Type ℓ} (unavailable : E) (nothing : R) (line : E → R) where
  -- The closure that `loggedThrottle.doReq` passes on for `acceptable`: what it returns, and the
  -- window that it leaves.
  unfoldable pub note : (Option E → Bool) → ErrorWindow R → Option E → Bool × ErrorWindow R
  note acceptable ew none = (acceptable none, ew)
  note acceptable ew (some err) =
      let accept = acceptable (some err) in
      (accept, (if not accept then add_reason nothing ew (line err) else ew))

  -- `loggedThrottle.doReq`; `logError` returns the error that it is given.
  unfoldable pub logged_do_req :
      LoggedThrottle R
      → Moment
      → Outcome E
      → Option (E → Outcome E)
      → (Option E → Bool)
      → LoggedThrottle R × Outcome E
  logged_do_req lt m req fallback acceptable =
      let ((throttle, err_win), got) =
        do_req unavailable lt.throttle m req fallback (note acceptable) lt.err_win in
      (record { throttle = throttle; err_win = err_win }, got)

  -- `circuitBreaker.Do`, `DoWithAcceptable`, `DoWithFallback`, `DoWithFallbackAcceptable`
  unfoldable pub run_do : LoggedThrottle R → Moment → Outcome E → LoggedThrottle R × Outcome E
  run_do cb m req = logged_do_req cb m req none default_acceptable

  unfoldable pub do_with_acceptable :
      LoggedThrottle R → Moment → Outcome E → (Option E → Bool) → LoggedThrottle R × Outcome E
  do_with_acceptable cb m req acceptable = logged_do_req cb m req none acceptable

  unfoldable pub do_with_fallback :
      LoggedThrottle R → Moment → Outcome E → (E → Outcome E) → LoggedThrottle R × Outcome E
  do_with_fallback cb m req fallback = logged_do_req cb m req (some fallback) default_acceptable

  unfoldable pub do_with_fallback_acceptable :
      LoggedThrottle R
      → Moment
      → Outcome E
      → (E → Outcome E)
      → (Option E → Bool)
      → LoggedThrottle R × Outcome E
  do_with_fallback_acceptable cb m req fallback acceptable =
      logged_do_req cb m req (some fallback) acceptable

  -- `promiseWithReason.Accept` and `Reject`
  unfoldable pub accept_promise : LoggedThrottle R → ℕ → ℕ → LoggedThrottle R
  accept_promise lt since now = record lt { throttle = mark_success lt.throttle since now }

  unfoldable pub reject_promise : LoggedThrottle R → R → ℕ → ℕ → LoggedThrottle R
  reject_promise lt reason since now = record {
    throttle = mark_failure lt.throttle since now;
    err_win = add_reason nothing lt.err_win reason;
  }

  -- A sequence of calls of `doReq` on the breaker with its error window.
  unfoldable pub serve_logged :
      LoggedThrottle R → List (Request E) → LoggedThrottle R × List (Outcome E)
  serve_logged lt [] = (lt, [])
  serve_logged lt (r ∷ rs) =
      let (lt', got) = logged_do_req lt r.moment r.outcome r.fallback r.acceptable in
      let (last, all) = serve_logged lt' rs in (last, got ∷ all)

  -- The line of a request that the throttle lets through and that returns an error that is not
  -- acceptable; `refused` is the error of the throttle, if there is one.
  abbrev pub failure_lines : Option E → Outcome E → (Option E → Bool) → List R
  failure_lines (some refused) outcome acceptable = []
  failure_lines none panicked acceptable = []
  failure_lines none (returned none) acceptable = []
  failure_lines none (returned (some err)) acceptable =
      if acceptable (some err) then [] else line err ∷ []

  -- The lines of a sequence of requests, at a throttle without an error window.
  unfoldable pub all_failure_lines : GoogleBreaker → List (Request E) → List R
  all_failure_lines b [] = []
  all_failure_lines b (r ∷ rs) =
      failure_lines (allow unavailable b r.moment.asked r.moment.drawn) r.outcome r.acceptable
      ++ all_failure_lines (served unavailable b r).0 rs
