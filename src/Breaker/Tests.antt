-- ===== src/Breaker/Tests.antt =====
-- The breaker at small histories, and the theorems at inputs that meet their hypotheses.
use go_zero.Prelude.{
  ℕ, ◌+◌, ◌*◌, ◌≡◌, ◌↔◌, ◌<◌, refl, List, [], ◌∷◌, false, none, some, arith, replicate,
}
use go_zero.Collection.Bucket.{fresh, new_buckets}
use go_zero.Collection.RollingWindow.{new_rolling_window}
use go_zero.Collection.RollingWindow.Tally.{Event, add_events}
use go_zero.Breaker.{GoogleBreaker, new_google_breaker, counts, accept, returned}
use go_zero.Breaker.History.{recent, counts-recent}
use go_zero.Breaker.Requests.{Request, serve, accept-recent, serve-AllSucceed}
use go_zero.Breaker.ErrorWindow.{new_error_window, add_reasons, lines, lines-latest}
use go_zero.Breaker.Logged.{default_acceptable}

-- A breaker made at time 0.
abbrev closed : GoogleBreaker
closed = record {
  size = 40;
  win = record { buckets = replicate 40 (fresh 0 ◌+◌); size = 40 };
  interval = 250000000;
  offset = 0;
  ignore_current = false;
  last_time = 0;
}

abbrev failure : Event ℕ
failure = record { since = 5; now = 6; value = 0 }

abbrev failures : List (Event ℕ)
failures = replicate 8 failure

-- The failures at time 5 count up to 10 seconds later, and not after that.
counts-recent_example : counts (add_events 0 ◌+◌ closed failures) 9999999999 ≡ (0, 8)
unfolding new_google_breaker new_rolling_window new_buckets recent
counts-recent_example = counts-recent 0 9999999999 closed failures refl (omega arith)

failures_forgotten : counts (add_events 0 ◌+◌ closed failures) 10000000000 ≡ (0, 0)
unfolding new_google_breaker new_rolling_window new_buckets recent
failures_forgotten = counts-recent 0 10000000000 closed failures refl (omega arith)

accept-recent_example :
    (accept (add_events 0 ◌+◌ closed failures) 7 (record { num = 1; den = 4 }) ≡ false)
    ↔ ((2 * 5 + 3 * 0 < 2 * 8) × (1 * (2 * 9) < 6 * 4))
unfolding new_google_breaker new_rolling_window new_buckets recent
accept-recent_example =
    accept-recent 0 7 closed failures (record { num = 1; den = 4 }) refl (omega arith)

-- A request that returns nil, with the lowest number drawn.
abbrev fine : Request ℕ
fine = record {
  moment = record { asked = 1; since = 2; now = 2; drawn = record { num = 0; den = 1 } };
  outcome = returned none;
  fallback = none;
  acceptable = default_acceptable;
}

serve-AllSucceed_example : serve 503 closed (fine ∷ []) ≡ returned none ∷ []
unfolding new_google_breaker new_rolling_window new_buckets
serve-AllSucceed_example =
    serve-AllSucceed 503 0 closed refl (fine ∷ []) (omega arith) ((none, refl, refl), tt)

lines-latest_example :
    lines {R = ℕ} 0 (add_reasons 0 (new_error_window 0) (1 ∷ 2 ∷ 3 ∷ 4 ∷ 5 ∷ 6 ∷ 7 ∷ []))
    ≡ 7 ∷ 6 ∷ 5 ∷ 4 ∷ 3 ∷ []
lines-latest_example = lines-latest 0 (1 ∷ 2 ∷ 3 ∷ 4 ∷ 5 ∷ 6 ∷ 7 ∷ [])

-- A request that returns the error 7, which is not acceptable.
abbrev failing : Request ℕ
failing = record {
  moment = record { asked = 3; since = 4; now = 4; drawn = record { num = 0; den = 1 } };
  outcome = returned (some 7);
  fallback = none;
  acceptable = default_acceptable;
}
