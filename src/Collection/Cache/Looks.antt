-- ===== src/Collection/Cache/Looks.antt =====
-- What `Get` and `Take` do where the key is there and where it is not.
use go_zero.Prelude.{ℕ, ◌+◌, ◌≡◌, refl, ap, ◌∙◌, Bool, List, Option, none, some, lookup, ◌%◌, ◌^◌}
use go_zero.Collection.Cache.{
  Cache, lru_add, do_get, count_get, get, fetch_item, take_looked, take_item, set_with_expire,
}
use go_zero.Collection.Cache.Refine.{used, recent_get}

module _ {K V : Type 0} (same : K → K → Bool) where
  pub get-none :
      (c : Cache K V) (key : K)
      → lookup same key c.data_of ≡ none
      → get same c key ≡ count_get (none, c)
  unfolding get do_get
  get-none c key e = rw (e, get, do_get) refl

  pub get-some :
      (c : Cache K V) (key : K) (v : V)
      → lookup same key c.data_of ≡ some v
      → get same c key ≡ count_get (some v, lru_add same c key)
  unfolding get do_get
  get-some c key v e = rw (e, get, do_get) refl

  pub do_get-none :
      (c : Cache K V) (key : K) → lookup same key c.data_of ≡ none → do_get same c key ≡ (none, c)
  unfolding do_get
  do_get-none c key e = rw (e, do_get) refl

  pub do_get-some :
      (c : Cache K V) (key : K) (v : V)
      → lookup same key c.data_of ≡ some v
      → do_get same c key ≡ (some v, lru_add same c key)
  unfolding do_get
  do_get-some c key v e = rw (e, do_get) refl

  -- `Take` of a key that is there, of one whose fetch fails, and of one that is fetched.
  module _ (c : Cache K V) (key : K) (expiry : ℕ) where
    pub take-some :
        (fetched : Option V) (v : V)
        → lookup same key c.data_of ≡ some v
        → take_item same (λ c. c) none c key fetched expiry ≡ count_get (some v, lru_add same c key)
    unfolding take_item take_looked count_get
    take-some fetched v e =
        ap (take_looked same (λ c. c) none key fetched expiry) (do_get-some c key v e)

    pub take-none :
        lookup same key c.data_of ≡ none
        → take_item same (λ c. c) none c key none expiry ≡ (none, c)
    unfolding take_item take_looked fetch_item
    take-none e =
        ap (take_looked same (λ c. c) none key none expiry) (do_get-none c key e)
        ∙ ap (fetch_item same key none expiry) (do_get-none c key e)

    pub take-fetched :
        (v : V)
        → lookup same key c.data_of ≡ none
        → take_item same (λ c. c) none c key (some v) expiry ≡ (
          some v,
          (let c' = set_with_expire same c key v expiry in
              record c' { miss = (c'.miss + 1) % 2 ^ 64 }),
        )
    unfolding take_item take_looked fetch_item
    take-fetched v e =
        ap (take_looked same (λ c. c) none key (some v) expiry) (do_get-none c key e)
        ∙ ap (fetch_item same key (some v) expiry) (do_get-none c key e)

  pub recent_get-none :
      (sp : List (K × V)) (key : K)
      → lookup same key sp ≡ none
      → recent_get same sp key ≡ (none, sp)
  recent_get-none sp key e = rw (e, recent_get) refl

  pub recent_get-some :
      (sp : List (K × V)) (key : K) (v : V)
      → lookup same key sp ≡ some v
      → recent_get same sp key ≡ (some v, used same key v sp)
  recent_get-some sp key v e = rw (e, recent_get) refl
