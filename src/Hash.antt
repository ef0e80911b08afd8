-- ===== src/Hash.antt =====
-- core/hash/consistenthash.go: nodes at points of a ring, and the node that a value belongs to. The
-- hash, `lang.Repr`, `fmt.Sprintf` and `strconv.Itoa` are arguments; negative numbers of replicas
-- and weights, which add no point, are not modelled.
pub mod Keys
pub mod Successor
pub mod Shared
pub mod Additions
pub mod Points
pub mod Added
pub mod Removed
pub mod Nearest
pub mod Gone
pub mod Calls
pub mod Runs
mod Tests
use go_zero.Prelude.{
  ℕ, zero, suc, ◌+◌, ◌*◌, ◌/◌, ◌%◌, ltb, leb, ◌==◌, ◌&&◌, if◌then◌else◌, Bool, true, false, List,
  [], ◌∷◌, ◌++◌, Option, none, some, Bytes, bytes_eq, length, take, drop, get_or, lookup, insert,
  erase,
}

-- `lang.PlaceholderType`
pub data Placeholder : Type 0 where
  placeholder : Placeholder

abbrev pub top_weight : ℕ
top_weight = 100

abbrev pub min_replicas : ℕ
min_replicas = 100

pub record ConsistentHash (A : Type 0) : Type 0 where
  pub replicas : ℕ
  pub keys : List ℕ
  pub ring : List (ℕ × List A)
  pub nodes : List (Bytes × Placeholder)

-- What `Get` answers; it panics where it divides by the number of no keys.
pub data Answer (A : Type 0) : Type 0 where
  found : A → Answer A
  missing division_by_zero : Answer A

-- `sort.Slice` on the keys
abbrev pub insert_key : ℕ → List ℕ → List ℕ
insert_key k [] = k ∷ []
insert_key k (j ∷ js) = if leb k j then k ∷ j ∷ js else j ∷ insert_key k js

unfoldable pub sort : List ℕ → List ℕ
sort [] = []
sort (k ∷ ks) = insert_key k (sort ks)

-- `sort.Search` on sorted keys: the first index with a key that is at least `hash`
unfoldable pub search : List ℕ → ℕ → ℕ
search [] hash = 0
search (k ∷ ks) hash = if leb hash k then 0 else suc (search ks hash)

-- The keys without the one at `index`, where it is `hash`.
unfoldable pub cut_key : List ℕ → ℕ → List ℕ
cut_key keys hash =
    let index = search keys hash in
    if ltb index (length keys) && (get_or keys index 0 == hash)
    then take index keys ++ drop (suc index) keys
    else keys

module _ {A : Type 0} where
  -- `NewCustomConsistentHash`
  unfoldable pub new_custom_consistent_hash : ℕ → ConsistentHash A
  new_custom_consistent_hash replicas = record {
    replicas = if ltb replicas min_replicas then min_replicas else replicas;
    keys = [];
    ring = [];
    nodes = [];
  }

  -- `addNode`, `containsNode`, `removeNode`
  unfoldable pub add_node : ConsistentHash A → Bytes → ConsistentHash A
  add_node h node_repr = record h { nodes = insert bytes_eq node_repr placeholder h.nodes }

  unfoldable pub contains_node : ConsistentHash A → Bytes → Bool
  contains_node h node_repr = elim (lookup bytes_eq node_repr h.nodes) [
    | none ↦ false
    | some _ ↦ true
  ]

  unfoldable pub remove_node : ConsistentHash A → Bytes → ConsistentHash A
  remove_node h node_repr = record h { nodes = erase bytes_eq node_repr h.nodes }

  unfoldable pub sort_keys : ConsistentHash A → ConsistentHash A
  sort_keys h = record h { keys = sort h.keys }

  -- `h.ring[hash]`
  unfoldable pub nodes_at : List (ℕ × List A) → ℕ → List A
  nodes_at ring hash = elim (lookup ◌==◌ hash ring) [ none ↦ [] | some nodes ↦ nodes ]

-- The point of replica `i`
unfoldable pub point : (Bytes → ℕ) → (ℕ → Bytes) → Bytes → ℕ → ℕ
point hash_func itoa node_repr i = hash_func (node_repr ++ itoa i)

module _ {A : Type 0} (repr : A → Bytes) where
  -- The loop of `removeRingNode`
  unfoldable pub others : Bytes → List A → List A
  others node_repr [] = []
  others node_repr (x ∷ nodes) =
      let rest = others node_repr nodes in if bytes_eq (repr x) node_repr then rest else x ∷ rest

  unfoldable pub remove_ring_node : List (ℕ × List A) → ℕ → Bytes → List (ℕ × List A)
  remove_ring_node ring hash node_repr = elim (lookup ◌==◌ hash ring) [
    | none ↦ ring
    | some nodes ↦
        let new_nodes = others node_repr nodes in
        if ltb 0 (length new_nodes) then insert ◌==◌ hash new_nodes ring else erase ◌==◌ hash ring
  ]

module _ {A : Type 0} (hash_func : Bytes → ℕ) (repr : A → Bytes) (itoa : ℕ → Bytes) where
  -- One round of the loop of `Remove`, and `n` of them from replica `i`
  unfoldable pub remove_point : ConsistentHash A → Bytes → ℕ → ConsistentHash A
  remove_point h node_repr i =
      let hash = point hash_func itoa node_repr i in
      record h { keys = cut_key h.keys hash; ring = remove_ring_node repr h.ring hash node_repr }

  unfoldable pub remove_points : ConsistentHash A → Bytes → ℕ → ℕ → ConsistentHash A
  remove_points h node_repr i zero = h
  remove_points h node_repr i (suc n) =
      remove_points (remove_point h node_repr i) node_repr (suc i) n

  unfoldable pub remove : ConsistentHash A → A → ConsistentHash A
  remove h node =
      let node_repr = repr node in
      if contains_node h node_repr
      then remove_node (remove_points h node_repr 0 h.replicas) node_repr
      else h

  -- One round of the loop of `AddWithReplicas`, and `n` of them from replica `i`
  unfoldable pub add_point : ConsistentHash A → A → ℕ → ConsistentHash A
  add_point h node i =
      let hash = point hash_func itoa (repr node) i in
      record h {
        keys = h.keys ++ (hash ∷ []);
        ring = insert ◌==◌ hash (nodes_at h.ring hash ++ (node ∷ [])) h.ring;
      }

  unfoldable pub add_points : ConsistentHash A → A → ℕ → ℕ → ConsistentHash A
  add_points h node i zero = h
  add_points h node i (suc n) = add_points (add_point h node i) node (suc i) n

  unfoldable pub add_with_replicas : ConsistentHash A → A → ℕ → ConsistentHash A
  add_with_replicas h node replicas =
      let removed = remove h node in
      let count = if ltb removed.replicas replicas then removed.replicas else replicas in
      sort_keys (add_points (add_node removed (repr node)) node 0 count)

  unfoldable pub add : ConsistentHash A → A → ConsistentHash A
  add h node = add_with_replicas h node h.replicas

  unfoldable pub add_with_weight : ConsistentHash A → A → ℕ → ConsistentHash A
  add_with_weight h node weight = add_with_replicas h node (h.replicas * weight / top_weight)

module _ {A : Type 0} (hash_func : Bytes → ℕ) (repr inner_repr : A → Bytes) where
  -- The choice of `Get` among the nodes of one point
  unfoldable pub choose : List A → A → Answer A
  choose [] v = missing
  choose (x ∷ []) v = found x
  choose (x ∷ y ∷ nodes) v =
      let inner_index = hash_func (inner_repr v) in
      found (get_or (x ∷ y ∷ nodes) (inner_index % length (x ∷ y ∷ nodes)) x)

  unfoldable pub get : ConsistentHash A → A → Answer A
  get h v =
      if length h.ring == 0
      then missing
      else (if length h.keys == 0
          then division_by_zero
          else (let index = search h.keys (hash_func (repr v)) % length h.keys in
              choose (nodes_at h.ring (get_or h.keys index 0)) v))
