-- ===== src/Collection/Cache/Runs.antt =====
-- The cache with a limit answers as a list of entries, the latest used first, does.
use go_zero.Prelude.{
  ℕ, ◌≤◌, ◌<◌, ◌≡◌, ◌↔◌, inl, inr, refl, sym, ap₂, ◌∙◌, subst, Bool, true, List, [], ◌∷◌, Option,
  none, some, Option-cases, arith, length, lookup, insert, erase, All, ltb_iff,
}
use go_zero.Collection.Cache.{
  Cache, new_cache, lru_add, lru_remove, del, count_get, get, take_item, set_with_expire, size,
}
use go_zero.Collection.Cache.Holds.{Holds}
use go_zero.Collection.Cache.Refine.{
  used, recent_get, recent_set, told-Holds, counted-Holds, used-Holds, lru_remove-Holds, set-Holds,
}
use go_zero.Collection.Cache.Looks.{
  get-none, get-some, take-some, take-none, take-fetched, recent_get-none, recent_get-some,
}

-- The calls of the cache, one after the other; the task of the wheel for a key is `delete`.
pub data Call (K V : Type 0) : Type 0 where
  get_key delete : K → Call K V
  set_key : K → V → ℕ → Call K V
  take_key : K → Option V → ℕ → Call K V

module _ {K V : Type 0} (same : K → K → Bool) where
  abbrev pub step : Cache K V → Call K V → Option V × Cache K V
  step c (get_key key) = get same c key
  step c (delete key) = (none, del same c key)
  step c (set_key key v expiry) = (none, set_with_expire same c key v expiry)
  step c (take_key key fetched expiry) = take_item same (λ c. c) none c key fetched expiry

  abbrev pub recent_take : ℕ → List (K × V) → K → Option V → Option V × List (K × V)
  recent_take limit sp key fetched = elim (lookup same key sp) [
    | some value ↦ (some value, used same key value sp)
    | none ↦ elim fetched [
      | none ↦ (none, sp)
      | some value ↦ (some value, recent_set same limit sp key value)
    ]
  ]

  abbrev pub recent_step : ℕ → List (K × V) → Call K V → Option V × List (K × V)
  recent_step limit sp (get_key key) = recent_get same sp key
  recent_step limit sp (delete key) = (none, erase same key sp)
  recent_step limit sp (set_key key v expiry) = (none, recent_set same limit sp key v)
  recent_step limit sp (take_key key fetched expiry) = recent_take limit sp key fetched

  -- The reply to each call and the size after it.
  abbrev pub run : Cache K V → List (Call K V) → List (Option V × ℕ)
  run c [] = []
  run c (call ∷ calls) = let r = step c call in (r.0, size r.1) ∷ run r.1 calls

  abbrev pub recent_run : ℕ → List (K × V) → List (Call K V) → List (Option V × ℕ)
  recent_run limit sp [] = []
  recent_run limit sp (call ∷ calls) =
      let r = recent_step limit sp call in (r.0, length r.1) ∷ recent_run limit r.1 calls

module _ {K V : Type 0} (same : K → K → Bool)
    (same_iff : (a b : K) → (same a b ≡ true) ↔ (a ≡ b)) where
  -- One call gives one reply and keeps the two together.
  Together : ℕ → Option V × Cache K V → Option V × List (K × V) → Type 0
  Together limit r s = (r.0 ≡ s.0) × Holds same same_iff limit r.1 s.1

  module _ (limit : ℕ) (c : Cache K V) (sp : List (K × V))
      (h : Holds same same_iff limit c sp) where
    hit-Together :
        (key : K) (v : V)
        → 0 < limit
        → lookup same key sp ≡ some v
        → Together limit (count_get (some v, lru_add same c key)) (some v, used same key v sp)
    unfolding Together count_get
    hit-Together key v positive e = (
      refl,
      counted-Holds same same_iff limit (lru_add same c key) (used same key v sp)
          (used-Holds same same_iff limit c sp h key v positive e) _ (lru_add same c key).miss,
    )

    get-Together : (key : K) → 0 < limit → Together limit (get same c key) (recent_get same sp key)
    unfolding Together count_get
    get-Together key positive = elim (Option-cases (lookup same key sp)) [
      | inl e ↦
          subst (λ r. Together limit r (recent_get same sp key))
            (sym (get-none same c key (h.agrees.found key ∙ e)))
            (subst (Together limit (count_get (none, c))) (sym (recent_get-none same sp key e))
              (refl, counted-Holds same same_iff limit c sp h c.hit _))
      | inr (v, e) ↦
          subst (λ r. Together limit r (recent_get same sp key))
            (sym (get-some same c key v (h.agrees.found key ∙ e)))
            (subst (Together limit (count_get (some v, lru_add same c key)))
              (sym (recent_get-some same sp key v e)) (hit-Together key v positive e))
    ]

    set-Together :
        (key : K) (v : V) (expiry : ℕ)
        → 0 < limit
        → Holds same same_iff limit
            (set_with_expire same c key v expiry)
            (recent_set same limit sp key v)
    unfolding set_with_expire
    set-Together key v expiry positive =
        let held = set-Holds same same_iff limit c sp h key v positive in
        let c' = lru_add same (record c { data_of = insert same key v c.data_of }) key in
        let all = recent_set same limit sp key v in
        elim (Option-cases (lookup same key c.data_of)) [
          | inl e ↦ rw (e, set_with_expire) (told-Holds same same_iff limit c' all held _)
          | inr (w, e) ↦ rw (e, set_with_expire) (told-Holds same same_iff limit c' all held _)
        ]

    take-Together :
        (key : K) (fetched : Option V) (expiry : ℕ)
        → 0 < limit
        → Together limit
            (take_item same (λ c. c) none c key fetched expiry)
            (recent_take same limit sp key fetched)
    unfolding Together
    take-Together key fetched expiry positive = elim (Option-cases (lookup same key sp)) [
      | inr (v, e) ↦
          subst (λ r. Together limit r (recent_take same limit sp key fetched))
            (sym (take-some same c key expiry fetched v (h.agrees.found key ∙ e)))
            (rw (e, recent_take) (hit-Together key v positive e))
      | inl e ↦ missed fetched (h.agrees.found key ∙ e) e
    ]
      where
        missed :
            (fetched : Option V)
            → lookup same key c.data_of ≡ none
            → lookup same key sp ≡ none
            → Together limit
                (take_item same (λ c. c) none c key fetched expiry)
                (recent_take same limit sp key fetched)
        missed none e e' = rw (take-none same c key expiry e, e', recent_take) (refl, h)
        missed (some v) e e' =
            let held = set-Together key v expiry positive in
            let c' = set_with_expire same c key v expiry in
            rw (take-fetched same c key expiry v e, e', recent_take)
              (
                refl,
                counted-Holds same same_iff limit c' (recent_set same limit sp key v) held c'.hit _,
              )

  step-Together :
      (limit : ℕ) (c : Cache K V) (sp : List (K × V)) (call : Call K V)
      → 0 < limit
      → Holds same same_iff limit c sp
      → Together limit (step same c call) (recent_step same limit sp call)
  unfolding Together del
  step-Together limit c sp (get_key key) positive h = get-Together limit c sp h key positive
  step-Together limit c sp (delete key) positive h = (
    refl,
    told-Holds same same_iff limit
        (lru_remove same (record c { data_of = erase same key c.data_of }) key) (erase same key sp)
        (lru_remove-Holds same same_iff limit c sp h key) _,
  )
  step-Together limit c sp (set_key key v expiry) positive h =
      (refl, set-Together limit c sp h key v expiry positive)
  step-Together limit c sp (take_key key fetched expiry) positive h =
      take-Together limit c sp h key fetched expiry positive

  run-Together :
      (limit : ℕ) (c : Cache K V) (sp : List (K × V)) (calls : List (Call K V))
      → 0 < limit
      → Holds same same_iff limit c sp
      → run same c calls ≡ recent_run same limit sp calls
  unfolding size Together
  run-Together limit c sp [] positive h = refl
  run-Together limit c sp (call ∷ calls) positive h =
      let (reply, held) = step-Together limit c sp call positive h in
      ap₂ ◌∷◌ (ap₂ (λ a b. (a, b)) reply held.agrees.sized) (
        run-Together limit (step same c call).1 (recent_step same limit sp call).1 calls positive
          held)

  new_cache-Holds :
      (expire limit : ℕ)
      → 0 < limit
      → Holds same same_iff limit (new_cache {K = K} {V = V} expire limit) []
  unfolding new_cache lookup
  new_cache-Holds expire limit positive = record {
    klru = record { limit = limit; evicts = []; elements = []; next_id = 0 };
    has_lru = rw ((ltb_iff 0 limit).1 positive) refl;
    limited = refl;
    ordered = record {
      aligned = tt;
      once = tt;
      known = λ k id e. cc;
      there = λ k. refl;
      fresh = tt;
    };
    agrees = record { found = λ k. refl; data_once = tt; sized = refl };
    bounded = omega arith;
  }

  -- A cache with a limit of at least 1 replies to any calls, and has after each the size, as the list of entries
  -- does that puts a key that is set or found at its front and keeps the first `limit` of them.
  pub run-recent :
      (expire limit : ℕ) (calls : List (Call K V))
      → 0 < limit
      → run same (new_cache expire limit) calls ≡ recent_run same limit [] calls
  run-recent expire limit calls positive =
      run-Together limit (new_cache expire limit) [] calls positive
        (new_cache-Holds expire limit positive)

  all_bounded :
      (limit : ℕ) (c : Cache K V) (sp : List (K × V)) (calls : List (Call K V))
      → 0 < limit
      → Holds same same_iff limit c sp
      → All (λ r. r.1 ≤ limit) (run same c calls)
  unfolding size Together
  all_bounded limit c sp [] positive h = tt
  all_bounded limit c sp (call ∷ calls) positive h =
      let (reply, held) = step-Together limit c sp call positive h in
      let same_size = held.agrees.sized in
      let small = held.bounded in
      (
        omega arith,
        all_bounded limit (step same c call).1 (recent_step same limit sp call).1 calls positive
            held,
      )

  -- A cache with a limit of at least 1 holds at most `limit` entries after each of any calls.
  pub size-run :
      (expire limit : ℕ) (calls : List (Call K V))
      → 0 < limit
      → All (λ r. r.1 ≤ limit) (run same (new_cache expire limit) calls)
  size-run expire limit calls positive =
      all_bounded limit (new_cache expire limit) [] calls positive
        (new_cache-Holds expire limit positive)
