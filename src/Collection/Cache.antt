-- ===== src/Collection/Cache.antt =====
-- core/collection/cache.go: a cache with a limit that evicts the key used longest ago. Each call
-- that holds the lock is one step. The calls to the timing wheel are listed in order as they are
-- sent; its task for a key is `del`. An element of the list of evicts has an identity, as the
-- pointer to it has. The logged statistics are not modelled.
pub mod Recent
pub mod Ordered
pub mod Agrees
pub mod Holds
pub mod Refine
pub mod Looks
pub mod Runs
mod Tests
use go_zero.Prelude.{
  ℕ, zero, suc, ◌+◌, ◌%◌, ◌^◌, ltb, ◌==◌, if◌then◌else◌, Bool, true, false, List, [], ◌∷◌, ◌++◌,
  Option, none, some, length, lookup, insert, erase,
}

-- An element of the list: its identity and its value.
pub record Element (K : Type 0) : Type 0 where
  pub id : ℕ
  pub value : K

-- `keyLru`; `next_id` is the identity of the next element.
pub record KeyLru (K : Type 0) : Type 0 where
  pub limit : ℕ
  pub evicts : List (Element K)
  pub elements : List (K × ℕ)
  pub next_id : ℕ

-- The calls to the timing wheel, with their keys and delays.
pub data TimerCall (K V : Type 0) : Type 0 where
  set_timer : K → V → ℕ → TimerCall K V
  move_timer : K → ℕ → TimerCall K V
  remove_timer : K → TimerCall K V

-- `none` in `lru_cache` is `emptyLru`.
pub record Cache (K V : Type 0) : Type 0 where
  pub data_of : List (K × V)
  pub expire : ℕ
  pub lru_cache : Option (KeyLru K)
  pub timers : List (TimerCall K V)
  pub hit : ℕ
  pub miss : ℕ

-- `atomic.AddUint64` of one
abbrev increment : ℕ → ℕ
increment n = (n + 1) % 2 ^ 64

-- `Remove` of a list's element
unfoldable pub remove_id : {K : Type 0} → ℕ → List (Element K) → List (Element K)
remove_id id [] = []
remove_id id (e ∷ es) = let rest = remove_id id es in if e.id == id then rest else e ∷ rest

-- `MoveToFront`
unfoldable pub move_to_front : {K : Type 0} → Element K → List (Element K) → List (Element K)
move_to_front e es = e ∷ remove_id e.id es

-- `Back`
unfoldable pub back : {K : Type 0} → List (Element K) → Option (Element K)
back [] = none
back (e ∷ []) = some e
back (e ∷ f ∷ es) = back (f ∷ es)

module _ {K V : Type 0} where
  -- `NewCache` and `WithLimit`
  unfoldable pub new_cache : ℕ → ℕ → Cache K V
  new_cache expire limit = record {
    data_of = [];
    expire = expire;
    lru_cache =
        if ltb 0 limit
        then some (record { limit = limit; evicts = []; elements = []; next_id = 0 })
        else none;
    timers = [];
    hit = 0;
    miss = 0;
  }

  unfoldable pub count_get : Option V × Cache K V → Option V × Cache K V
  count_get (none, c) = (none, record c { miss = increment c.miss })
  count_get (some value, c) = (some value, record c { hit = increment c.hit })

  unfoldable pub size : Cache K V → ℕ
  size c = length c.data_of

module _ {K V : Type 0} (same : K → K → Bool) where
  unfoldable pub on_evict : Cache K V → K → Cache K V
  on_evict c key = record c {
    data_of = erase same key c.data_of;
    timers = c.timers ++ (remove_timer key ∷ []);
  }

  -- `removeElement`, on the cache whose `lruCache` is `klru`
  unfoldable pub remove_element : Cache K V → KeyLru K → Element K → Cache K V
  remove_element c klru e =
      let klru' = record klru {
        evicts = remove_id e.id klru.evicts;
        elements = erase same e.value klru.elements;
      } in
      on_evict (record c { lru_cache = some klru' }) e.value

  unfoldable pub remove_oldest : Cache K V → KeyLru K → Cache K V
  remove_oldest c klru = elim (back klru.evicts) [
    | none ↦ record c { lru_cache = some klru }
    | some e ↦ remove_element c klru e
  ]

  -- `keyLru.add`
  unfoldable pub add_key : Cache K V → KeyLru K → K → Cache K V
  add_key c klru key = elim (lookup same key klru.elements) [
    | some id ↦
        let e : Element K = record { id = id; value = key } in
        record c { lru_cache = some (record klru { evicts = move_to_front e klru.evicts }) }
    | none ↦
        let e : Element K = record { id = klru.next_id; value = key } in
        let klru' : KeyLru K = record klru {
          evicts = e ∷ klru.evicts;
          elements = insert same key klru.next_id klru.elements;
          next_id = suc klru.next_id;
        } in
        if ltb klru.limit (length klru'.evicts)
        then remove_oldest c klru'
        else record c { lru_cache = some klru' }
  ]

  -- `keyLru.remove`
  unfoldable pub remove_key : Cache K V → KeyLru K → K → Cache K V
  remove_key c klru key = elim (lookup same key klru.elements) [
    | none ↦ c
    | some id ↦ remove_element c klru (record { id = id; value = key })
  ]

  -- `c.lruCache.add` and `c.lruCache.remove`
  unfoldable pub lru_add : Cache K V → K → Cache K V
  lru_add c key = elim c.lru_cache [ none ↦ c | some klru ↦ add_key c klru key ]

  unfoldable pub lru_remove : Cache K V → K → Cache K V
  lru_remove c key = elim c.lru_cache [ none ↦ c | some klru ↦ remove_key c klru key ]

  unfoldable pub del : Cache K V → K → Cache K V
  del c key =
      let c' = lru_remove (record c { data_of = erase same key c.data_of }) key in
      record c' { timers = c'.timers ++ (remove_timer key ∷ []) }

  unfoldable pub do_get : Cache K V → K → Option V × Cache K V
  do_get c key = elim (lookup same key c.data_of) [
    | none ↦ (none, c)
    | some value ↦ (some value, lru_add c key)
  ]

  unfoldable pub get : Cache K V → K → Option V × Cache K V
  get c key = count_get (do_get c key)

  -- `SetWithExpire`; `expiry` is what `AroundDuration` makes of the delay.
  unfoldable pub set_with_expire : Cache K V → K → V → ℕ → Cache K V
  set_with_expire c key value expiry =
      let c' = lru_add (record c { data_of = insert same key value c.data_of }) key in
      elim (lookup same key c.data_of) [
        | some _ ↦ record c' { timers = c'.timers ++ (move_timer key expiry ∷ []) }
        | none ↦ record c' { timers = c'.timers ++ (set_timer key value expiry ∷ []) }
      ]

  -- `Set`; `around_duration` is the random change of a delay.
  unfoldable pub set_item : (ℕ → ℕ) → Cache K V → K → V → Cache K V
  set_item around_duration c key value = set_with_expire c key value (around_duration c.expire)

  -- What the flight of `Take` does after its second look: the fetch.
  unfoldable pub fetch_item : K → Option V → ℕ → Option V × Cache K V → Option V × Cache K V
  fetch_item key fetched expiry (some value, c) = (some value, record c { hit = increment c.hit })
  fetch_item key none expiry (none, c) = (none, c)
  fetch_item key (some value) expiry (none, c) =
      let c' = set_with_expire c key value expiry in
      (some value, record c' { miss = increment c'.miss })

  -- `Take` after its first look: `between` is what other calls do then, `joined` the result of
  -- another call's flight where there is one, and `fetched` that of `fetch`; an error is `none`.
  unfoldable pub take_looked :
      (Cache K V → Cache K V)
      → Option (Option V)
      → K
      → Option V
      → ℕ
      → Option V × Cache K V
      → Option V × Cache K V
  take_looked between joined key fetched expiry (some value, c) =
      (some value, record c { hit = increment c.hit })
  take_looked between none key fetched expiry (none, c) =
      fetch_item key fetched expiry (do_get (between c) key)
  take_looked between (some none) key fetched expiry (none, c) = (none, between c)
  take_looked between (some (some value)) key fetched expiry (none, c) =
      let c' = between c in (some value, record c' { hit = increment c'.hit })

  unfoldable pub take_item :
      (Cache K V → Cache K V)
      → Option (Option V)
      → Cache K V
      → K
      → Option V
      → ℕ
      → Option V × Cache K V
  take_item between joined c key fetched expiry =
      take_looked between joined key fetched expiry (do_get c key)
