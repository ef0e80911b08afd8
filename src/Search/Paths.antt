-- ===== src/Search/Paths.antt =====
-- What a search tree holds: items at paths of keys, and when a path matches a route.
use go_zero.Prelude.{
  ◌==◌, ◌≡◌, ◌⊎◌, if◌then◌else◌, true, false, List, [], ◌∷◌, ◌++◌, Option, none, some, Bytes,
}
use go_zero.Search.{
  slash, Node, node, Children, no_child, child, add_param, Match, missed, literal, named, match,
  item_of,
}

module _ {I : Type 0} where
  abbrev pub In : Bytes → Node I → Children I → Type 0
  In k m no_child = ⊥
  In k m (child j v cs) = ((j ≡ k) × (v ≡ m)) ⊎ In k m cs

  -- `m` is the child of the node under the key `k`.
  abbrev pub IsChild : Node I → Bytes → Node I → Type 0
  IsChild (node _ literals params) k m = In k m literals ⊎ In k m params

  -- The item `i` stands at the end of the path of keys.
  abbrev pub At : Node I → List Bytes → I → Type 0
  At n [] i = item_of n ≡ some i
  At n (k ∷ path) i = (m : Node I) × IsChild n k m × At m path i

-- A key that matches a token adds its parameter to those of the rest of the path.
unfoldable pub with_params : Match → Option (List (Bytes × Bytes)) → Option (List (Bytes × Bytes))
with_params missed ps = none
with_params literal ps = ps
with_params (named k v) none = none
with_params (named k v) (some ps) = some (add_param ps k v)

-- The parameters with which a path of keys matches the tokens of a route. One empty token may be
-- left at the end, after a slash.
unfoldable pub match_path : List Bytes → List Bytes → Option (List (Bytes × Bytes))
match_path [] [] = some []
match_path [] ([] ∷ []) = some []
match_path [] ([] ∷ _ ∷ _) = none
match_path [] ((_ ∷ _) ∷ _) = none
match_path (k ∷ path) [] = none
match_path (k ∷ path) (token ∷ tokens) = with_params (match k token) (match_path path tokens)

-- The tokens of a route between the slashes; `token` has been read.
unfoldable pub tokens_from : Bytes → Bytes → List Bytes
tokens_from token [] = token ∷ []
tokens_from token (c ∷ route) = elim (c == slash) [
  | true ↦ token ∷ tokens_from [] route
  | false ↦ tokens_from (token ++ (c ∷ [])) route
]

-- The path of keys of a route that is added: its tokens, but no empty one at the end.
unfoldable pub path_from : Bytes → Bytes → List Bytes
path_from [] [] = []
path_from (t ∷ token) [] = (t ∷ token) ∷ []
path_from token (c ∷ route) = elim (c == slash) [
  | true ↦ token ∷ path_from [] route
  | false ↦ path_from (token ++ (c ∷ [])) route
]

-- The parameters with which an added route matches a requested one.
unfoldable pub route_matches : Bytes → Bytes → Option (List (Bytes × Bytes))
route_matches [] _ = none
route_matches (_ ∷ _) [] = none
route_matches (_ ∷ pattern) (c ∷ route) =
    if c == slash then match_path (path_from [] pattern) (tokens_from [] route) else none
