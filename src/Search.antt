-- ===== src/Search.antt =====
-- core/search/tree.go: the search tree of routes. A Go map is an association list, and iterates in
-- the order of its keys' insertion, which is one of the orders that Go may take. `range route`
-- visits the starts of runes; a slash is one, so the loops here go over the bytes.
pub mod Paths
pub mod Lookup
pub mod Insert
pub mod Routes
mod Tests
use go_zero.Prelude.{
  ℕ, ◌==◌, ◌≡◌, if◌then◌else◌, Bool, true, false, List, [], ◌∷◌, ◌++◌, Option, none, some, Bytes,
  bytes_eq,
}

abbrev pub slash : ℕ
slash = b'/'

abbrev pub colon : ℕ
colon = b':'

-- The errors of `Add`.
pub data Error : Type 0 where
  dup_item dup_slash empty_item not_from_root : Error

-- `node`: the item (`nil` is `none`), and the two maps of children.
mutual
  pub data Node (I : Type 0) : Type 0 where
    node : Option I → Children I → Children I → Node I

  pub data Children (I : Type 0) : Type 0 where
    no_child : Children I
    child : Bytes → Node I → Children I → Children I

-- `Result`
pub record Result (I : Type 0) : Type 0 where
  pub item : I
  pub params : List (Bytes × Bytes)

-- `addParam`: a write to the map of parameters.
unfoldable pub add_param : List (Bytes × Bytes) → Bytes → Bytes → List (Bytes × Bytes)
add_param [] k v = (k, v) ∷ []
add_param ((j, w) ∷ ps) k v = if bytes_eq j k then (k, v) ∷ ps else (j, w) ∷ add_param ps k v

-- `innerResult`, as what it does to the parameters if the pattern was found.
pub data Match : Type 0 where
  missed : Match
  literal : Match
  named : Bytes → Bytes → Match

-- `match`. The Go code panics on an empty pattern; `Add` makes no empty key.
unfoldable pub match : Bytes → Bytes → Match
match [] token = missed
match (c ∷ pat) token =
    if c == colon then named pat token else if bytes_eq (c ∷ pat) token then literal else missed

-- The end of a search of a child, on the way back: the parameter of a named key is added.
unfoldable pub with_match : {I : Type 0} → Match → Option (Result I) → Option (Result I)
with_match missed r = none
with_match literal r = r
with_match (named k v) none = none
with_match (named k v) (some r) = some (record { item = r.item; params = add_param r.params k v })

-- `NewTree`, `newNode`
abbrev pub new_node : {I : Type 0} → Option I → Node I
new_node item = node item no_child no_child

abbrev pub item_of : {I : Type 0} → Node I → Option I
item_of (node item _ _) = item

-- `getChildren`: is it the second map?
abbrev pub is_param : Bytes → Bool
is_param [] = false
is_param (c ∷ _) = c == colon

module _ {I : Type 0} where
  -- `forEach` over one map: the first child on which `fn` succeeds.
  unfoldable pub each : (Bytes → Node I → Option (Result I)) → Children I → Option (Result I)
  each fn no_child = none
  each fn (child k v cs) = elim (fn k v) [ some r ↦ some r | none ↦ each fn cs ]

  -- `forEach`
  unfoldable pub for_each : (Bytes → Node I → Option (Result I)) → Node I → Option (Result I)
  for_each fn (node _ literals params) = elim (each fn literals) [
    | some r ↦ some r
    | none ↦ each fn params
  ]

  abbrev pub found_item : Option I → Option (Result I)
  found_item none = none
  found_item (some i) = some (record { item = i; params = [] })

  -- The end of `next`, where no slash is left: the node itself, or a child.
  unfoldable pub next_end : Node I → Bytes → Option (Result I)
  next_end (node (some i) _ _) [] = some (record { item = i; params = [] })
  next_end n token = for_each (λ k v. with_match (match k token) (found_item (item_of v))) n

  -- `next`, with the loop over the route up to the first slash: `token` is what it has passed.
  unfoldable pub next : Node I → Bytes → Bytes → Option (Result I)
  next n token [] = next_end n token
  next n token (c ∷ route) = elim (c == slash) [
    | true ↦ for_each (λ k v. with_match (match k token) (next v [] route)) n
    | false ↦ next n (token ++ (c ∷ [])) route
  ]

  -- `Search`
  unfoldable pub search_route : Node I → Bytes → Option (Result I)
  search_route root [] = none
  search_route root (c ∷ route) = if c == slash then next root [] route else none

  -- Reading and writing a map of children.
  unfoldable pub find_child : Bytes → Children I → Option (Node I)
  find_child k no_child = none
  find_child k (child j v cs) = if bytes_eq j k then some v else find_child k cs

  unfoldable pub set_child : Bytes → Node I → Children I → Children I
  set_child k w no_child = child k w no_child
  set_child k w (child j v cs) = if bytes_eq j k then child j w cs else child j v (set_child k w cs)

  abbrev pub child_or_new : Option (Node I) → Node I
  child_or_new none = new_node none
  child_or_new (some c) = c

  -- The child of `n` under `token`, made if it is missing, changed by `f`.
  unfoldable pub at_child :
      Node I → Bytes → (Node I → Node I × Option Error) → Node I × Option Error
  at_child (node item literals params) token f = elim (is_param token) [
    | true ↦
        let (c, err) = f (child_or_new (find_child token params)) in
        (node item literals (set_child token c params), err)
    | false ↦
        let (c, err) = f (child_or_new (find_child token literals)) in
        (node item (set_child token c literals) params, err)
  ]

  -- The item of a node is set once.
  unfoldable pub put_item : I → Node I → Node I × Option Error
  put_item i (node none literals params) = (node (some i) literals params, none)
  put_item i (node (some j) literals params) = (node (some j) literals params, some dup_item)

  -- `add`, with the loop over the route up to the first slash: `token` is what it has passed.
  unfoldable pub add_route : Node I → Bytes → Bytes → I → Node I × Option Error
  add_route n [] [] i = put_item i n
  add_route n (t ∷ token) [] i = at_child n (t ∷ token) (put_item i)
  add_route n token (c ∷ route) i = elim (c == slash) [
    | true ↦ elim token [
      | [] ↦ (n, some dup_slash)
      | t ∷ ts ↦ at_child n (t ∷ ts) (λ m. add_route m [] route i)
    ]
    | false ↦ add_route n (token ++ (c ∷ [])) route i
  ]

  -- `Add`: the new tree, and the error if there is one.
  unfoldable pub add : Node I → Bytes → Option I → Node I × Option Error
  add root [] item = (root, some not_from_root)
  add root (c ∷ route) item =
      if c == slash
      then elim item [ none ↦ (root, some empty_item) | some i ↦ add_route root [] route i ]
      else (root, some not_from_root)
