-- ===== src/Collection/Cache/Refine.antt =====
-- The operations of the cache on the entries, against a list with the latest used first.
use go_zero.Prelude.{
  ℕ, ◌≤◌, ◌<◌, ◌≡◌, ◌↔◌, inl, inr, refl, sym, ap, ◌∙◌, subst, Bool, true, List, ◌∷◌, Option, none,
  some, Option-cases, arith, length, take, lookup, insert, erase, present, lookup-erase,
  erase-OneEntry, length-erase, erase-none,
}
use go_zero.Collection.Cache.{Cache, TimerCall, add_key, remove_key, lru_add, lru_remove}
use go_zero.Collection.Cache.Agrees.{Agrees, erase-Agrees, insert-Agrees, used-Agrees, take-all}
use go_zero.Collection.Cache.Ordered.{absent, Ordered}
use go_zero.Collection.Cache.Holds.{Holds, remove_element-Holds, add_key-Holds}

module _ {K V : Type 0} (same : K → K → Bool) where
  -- The entries of a cache that holds at most `limit` of them, the latest used first.
  abbrev pub used : K → V → List (K × V) → List (K × V)
  used key value sp = (key, value) ∷ erase same key sp

  abbrev pub recent_get : List (K × V) → K → Option V × List (K × V)
  recent_get sp key = elim (lookup same key sp) [
    | none ↦ (none, sp)
    | some value ↦ (some value, used key value sp)
  ]

  abbrev pub recent_set : ℕ → List (K × V) → K → V → List (K × V)
  recent_set limit sp key value = take limit (used key value sp)

module _ {K V : Type 0} (same : K → K → Bool)
    (same_iff : (a b : K) → (same a b ≡ true) ↔ (a ≡ b)) where
  module _ (limit : ℕ) (c : Cache K V) (sp : List (K × V))
      (h : Holds same same_iff limit c sp) where
    -- The timers and the counts are apart from the entries.
    pub told-Holds :
        (timers : List (TimerCall K V))
        → Holds same same_iff limit (record c { timers = timers }) sp
    told-Holds timers = record {
      klru = h.klru;
      has_lru = h.has_lru;
      limited = h.limited;
      ordered = h.ordered;
      agrees = h.agrees;
      bounded = h.bounded;
    }

    pub counted-Holds :
        (hits misses : ℕ) → Holds same same_iff limit (record c { hit = hits; miss = misses }) sp
    counted-Holds hits misses = record {
      klru = h.klru;
      has_lru = h.has_lru;
      limited = h.limited;
      ordered = h.ordered;
      agrees = h.agrees;
      bounded = h.bounded;
    }

    -- A hit brings its key to the front.
    pub used-Holds :
        (key : K) (v : V)
        → 0 < limit
        → lookup same key sp ≡ some v
        → Holds same same_iff limit (lru_add same c key) (used same key v sp)
    unfolding lru_add
    used-Holds key v positive at =
        let there = ap present at in
        let cut = length-erase same same_iff key sp h.ordered.once in
        let bounded = h.bounded in
        let fits : length (used same key v sp) ≤ limit = omega arith in
        rw (h.has_lru, lru_add)
          (subst (λ x. Holds same same_iff limit (add_key same c h.klru key) x)
            (take-all limit (used same key v sp) fits)
            (add_key-Holds same same_iff limit c h.klru sp key v positive h.limited h.bounded
              h.ordered (used-Agrees same same_iff c.data_of sp h.agrees h.ordered.once key v at)))

    -- Deleting a key of the list and the maps.
    pub lru_remove-Holds :
        (key : K)
        → Holds same same_iff limit
            (lru_remove same (record c { data_of = erase same key c.data_of }) key)
            (erase same key sp)
    unfolding lru_remove remove_key
    lru_remove-Holds key =
        let once = h.ordered.once in
        let bounded = h.bounded in
        let cut = length-erase same same_iff key sp once in
        let gone = erase-Agrees same same_iff c.data_of sp h.agrees once key in
        let twice =
          erase-none same same_iff key (erase same key sp)
            (lookup-erase same same_iff key key sp ∙ rw ((same_iff key key).1 refl) refl) in
        elim (Option-cases (lookup same key h.klru.elements)) [
          | inl none_there ↦
              let all =
                erase-none same same_iff key sp (
                  absent (lookup same key sp)
                    (sym (h.ordered.there key) ∙ ap present none_there)) in
              rw (h.has_lru, none_there, lru_remove, remove_key)
                (record {
                  klru = h.klru;
                  has_lru = h.has_lru;
                  limited = h.limited;
                  ordered = subst (Ordered same same_iff h.klru) (sym all) h.ordered;
                  agrees = gone;
                  bounded = omega arith;
                })
          | inr (id, at) ↦
              rw (h.has_lru, at, lru_remove, remove_key)
                (remove_element-Holds same same_iff limit
                  (record c { data_of = erase same key c.data_of }) h.klru
                  (record { id = id; value = key }) sp h.limited h.ordered
                  (subst (Agrees same same_iff (erase same key (erase same key c.data_of))) twice (
                    erase-Agrees same same_iff (erase same key c.data_of) (erase same key sp) gone
                      (erase-OneEntry same same_iff key sp once) key))
                  (h.ordered.known key id at).0 (omega arith))
        ]

    pub set-Holds :
        (key : K) (v : V)
        → 0 < limit
        → Holds same same_iff limit
            (lru_add same (record c { data_of = insert same key v c.data_of }) key)
            (recent_set same limit sp key v)
    unfolding lru_add
    set-Holds key v positive =
        rw (h.has_lru, lru_add)
          (add_key-Holds same same_iff limit (record c { data_of = insert same key v c.data_of })
            h.klru sp key v positive h.limited h.bounded h.ordered
            (insert-Agrees same same_iff c.data_of sp h.agrees h.ordered.once key v))
