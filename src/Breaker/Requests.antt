-- ===== src/Breaker/Requests.antt =====
-- Which requests the breaker lets through.
use go_zero.Prelude.{
  ℕ, ◌+◌, ◌-◌, ◌*◌, ◌/◌, ◌≤◌, ◌<◌, ◌≡◌, ◌↔◌, refl, sym, ap, ◌∙◌, Bool, true, false, List, [], ◌∷◌,
  ◌++◌, Option, none, some, arith, map,
}
use go_zero.Collection.RollingWindow
use go_zero.Collection.RollingWindow.Tally.{Event, add_events}
use go_zero.Collection.RollingWindow.History.{InOrder}
use go_zero.Breaker.{
  window_time, buckets, protection, GoogleBreaker, new_google_breaker, Ratio, drop_ratio, accept,
  mark_success, Outcome, returned, Moment, allow, mark_request, request_after, do_req,
}
use go_zero.Breaker.History.{
  recent, recent_successes, recent_marks, OneAfterAnother, interval_of, counts-recent,
}

-- A breaker turns a request away exactly when its recent marks, `n` of them with `s` successes,
-- satisfy `2 n > 2 * 5 + 3 s`, and the number drawn is below `(2 n - (2 * 5 + 3 s)) / (2 (n + 1))`.
pub accept-recent :
    (start t : ℕ) (b : GoogleBreaker) (es : List (Event ℕ)) (drawn : Ratio)
    → new_google_breaker start ≡ some b
    → OneAfterAnother start es t
    → (accept (add_events 0 ◌+◌ b es) t drawn ≡ false) ↔ (
        (2 * protection + 3 * recent_successes start t es < 2 * recent_marks start t es)
        × (drawn.num * (2 * (recent_marks start t es + 1))
            < (2 * recent_marks start t es - (2 * protection + 3 * recent_successes start t es))
              * drawn.den))
unfolding accept drop_ratio
accept-recent start t b es drawn made order = ground (arith, counts-recent start t b es made order)

-- A call of `doReq`: when, and with which arguments.
pub record Request {ℓ} (E : Type ℓ) : Type ℓ where
  pub moment : Moment
  pub outcome : Outcome E
  pub fallback : Option (E → Outcome E)
  pub acceptable : Option E → Bool

-- The request returns, and its error (or nil) is acceptable.
abbrev pub Succeeds {ℓ} : {E : Type ℓ} → Request E → Type ℓ
Succeeds {E} r = (err : Option E) × (r.outcome ≡ returned err) × (r.acceptable err ≡ true)

-- The clock readings of the requests are in order from `c` on; the two of one mark fall into one
-- interval.
abbrev pub InTurn {ℓ} : {E : Type ℓ} → ℕ → ℕ → List (Request E) → Type 0
InTurn start c [] = Unit
InTurn start c (r ∷ rs) =
    (c ≤ r.moment.asked)
    × (r.moment.asked ≤ r.moment.since)
    × (r.moment.since ≤ r.moment.now)
    × (interval_of start r.moment.since ≡ interval_of start r.moment.now)
    × InTurn start r.moment.since rs

abbrev pub AllSucceed {ℓ} : {E : Type ℓ} → List (Request E) → Type ℓ
AllSucceed [] = Unit
AllSucceed (r ∷ rs) = Succeeds r × AllSucceed rs

-- A closure that keeps no state.
abbrev pub plain {ℓ} : {E : Type ℓ} → (Option E → Bool) → Unit {0} → Option E → Bool × Unit {0}
plain acceptable s err = (acceptable err, s)

-- The breaker after a call of `doReq` with such a closure, and what the caller gets.
unfoldable pub served {ℓ} : {E : Type ℓ} → E → GoogleBreaker → Request E → GoogleBreaker × Outcome E
served unavailable b r =
    let ((b', s), got) =
      do_req unavailable b r.moment r.outcome r.fallback (plain r.acceptable) tt in
    (b', got)

-- A sequence of calls of `doReq`, and what the callers get.
unfoldable pub serve {ℓ} : {E : Type ℓ} → E → GoogleBreaker → List (Request E) → List (Outcome E)
serve unavailable b [] = []
serve unavailable b (r ∷ rs) =
    let (b', got) = served unavailable b r in got ∷ serve unavailable b' rs

add_events-snoc :
    (b : GoogleBreaker) (es : List (Event ℕ)) (e : Event ℕ)
    → add_events 0 ◌+◌ b (es ++ (e ∷ []))
      ≡ RollingWindow.add 0 ◌+◌ (add_events 0 ◌+◌ b es) e.since e.now e.value
unfolding add_events
add_events-snoc b [] e = refl
add_events-snoc b (d ∷ es) e =
    add_events-snoc (RollingWindow.add 0 ◌+◌ b d.since d.now d.value) es e

order_until :
    (start i c t u : ℕ) (es : List (Event ℕ))
    → InOrder start i c es t
    → t ≤ u
    → InOrder start i c es u
order_until start i c t u [] o le = omega arith
order_until start i c t u (e ∷ es) (a, b, same, o) le =
    (a, b, same, order_until start i e.since t u es o le)

order-snoc :
    (start i c t : ℕ) (es : List (Event ℕ)) (e : Event ℕ)
    → InOrder start i c es t
    → t ≤ e.since
    → e.since ≤ e.now
    → (e.since - start) / i ≡ (e.now - start) / i
    → InOrder start i c (es ++ (e ∷ [])) e.since
order-snoc start i c t [] e o le now same = (omega arith, now, same, omega arith)
order-snoc start i c t (d ∷ es) e (a, b, same', o) le now same =
    (a, b, same', order-snoc start i d.since t es e o le now same)

-- Marks of successes.
abbrev Good : List (Event ℕ) → Type 0
Good [] = Unit
Good (e ∷ es) = (e.value ≡ 1) × Good es

Good-snoc : (es : List (Event ℕ)) (e : Event ℕ) → Good es → e.value ≡ 1 → Good (es ++ (e ∷ []))
Good-snoc [] e g v = (v, tt)
Good-snoc (d ∷ es) e (p, g) v = (p, Good-snoc es e g v)

recent-Good :
    (start t : ℕ) (es : List (Event ℕ))
    → Good es
    → recent_successes start t es ≡ recent_marks start t es
unfolding recent
recent-Good start t [] g = refl
recent-Good start t (e ∷ es) (v, g) = ground (arith, recent-Good start t es g)

module _ {ℓ} {E : Type ℓ} (unavailable : E) (start : ℕ) (b : GoogleBreaker)
    (made : new_google_breaker start ≡ some b) where
  -- With nothing but successes behind it the breaker accepts.
  accept-Good :
      (t : ℕ) (es : List (Event ℕ)) (drawn : Ratio)
      → OneAfterAnother start es t
      → Good es
      → accept (add_events 0 ◌+◌ b es) t drawn ≡ true
  unfolding accept drop_ratio
  accept-Good t es drawn order good =
      ground (arith, counts-recent start t b es made order, recent-Good start t es good)

  allow-Good :
      (t : ℕ) (es : List (Event ℕ)) (drawn : Ratio)
      → OneAfterAnother start es t
      → Good es
      → allow unavailable (add_events 0 ◌+◌ b es) t drawn ≡ none
  unfolding allow
  allow-Good t es drawn order good = rw (accept-Good t es drawn order good)

  mark_request-Succeeds :
      (w : GoogleBreaker) (r : Request E)
      → Succeeds r
      → mark_request unavailable w r.moment r.outcome (plain r.acceptable) tt
        ≡ ((RollingWindow.add 0 ◌+◌ w r.moment.since r.moment.now 1, tt), r.outcome)
  unfolding mark_request mark_success
  mark_request-Succeeds w r (err, ran, fine) = rw (ran, mark_request) (rw fine)

  do_req-Succeeds :
      (r : Request E) (es : List (Event ℕ))
      → OneAfterAnother start es r.moment.asked
      → Good es
      → Succeeds r
      → served unavailable (add_events 0 ◌+◌ b es) r ≡ (
        add_events 0 ◌+◌ b
            (es ++ (record { since = r.moment.since; now = r.moment.now; value = 1 } ∷ [])),
        r.outcome,
      )
  unfolding served do_req request_after
  do_req-Succeeds r es order good ok =
      rw (allow-Good r.moment.asked es r.moment.drawn order good, served, do_req)
        (ap (λ x. (x.0.0, x.1)) (mark_request-Succeeds (add_events 0 ◌+◌ b es) r ok)
          ∙ ap (λ w. (w, r.outcome))
              (sym (
                add_events-snoc b es
                  (record { since = r.moment.since; now = r.moment.now; value = 1 }))))

  serve-Succeeds :
      (rs : List (Request E)) (c : ℕ) (es : List (Event ℕ))
      → OneAfterAnother start es c
      → Good es
      → InTurn start c rs
      → AllSucceed rs
      → serve unavailable (add_events 0 ◌+◌ b es) rs ≡ map (λ r. r.outcome) rs
  unfolding serve
  serve-Succeeds [] c es order good turn all = refl
  serve-Succeeds (r ∷ rs) c es order good (c_le, since_le, now_le, same, turn) (ok, all) =
      rw (do_req-Succeeds r es order' good ok) (
        ap (◌∷◌ r.outcome) (
          serve-Succeeds rs r.moment.since (es ++ (mark ∷ []))
            (order-snoc start (window_time / buckets) start r.moment.asked es mark order' since_le
              now_le same)
            (Good-snoc es mark good refl) turn all))
    where
      mark : Event ℕ
      mark = record { since = r.moment.since; now = r.moment.now; value = 1 }

      order' : OneAfterAnother start es r.moment.asked
      order' = order_until start (window_time / buckets) start c r.moment.asked es order c_le

  -- While all requests succeed the breaker never turns one away, whatever numbers are drawn: each
  -- caller gets what its request returned. The clock readings are in order, and the two of each
  -- mark fall into one interval of 250 ms.
  pub serve-AllSucceed :
      (rs : List (Request E))
      → InTurn start start rs
      → AllSucceed rs
      → serve unavailable b rs ≡ map (λ r. r.outcome) rs
  unfolding add_events
  serve-AllSucceed rs turn all = serve-Succeeds rs start [] (omega arith) tt turn all
