-- ===== src/Search/Tests.antt =====
-- A tree of three routes, and the theorems at it.
use go_zero.Prelude.{ℕ, ◌≡◌, refl, inl, inr, List, [], ◌∷◌, some, none, Bytes}
use go_zero.Search.{
  Node, node, child, no_child, new_node, add, add_route, at_child, put_item, find_child, set_child,
  search_route, next, next_end, for_each, each, with_match, match, add_param, dup_item,
}
use go_zero.Search.Paths.{route_matches}
use go_zero.Search.Routes.{add_all, Added, search_route-some, search_route-none}

-- "/a/:b" and "/a"
abbrev routes : List (Bytes × ℕ)
routes = (b'/' ∷ b'a' ∷ b'/' ∷ b':' ∷ b'b' ∷ [], 1) ∷ (b'/' ∷ b'a' ∷ [], 2) ∷ []

abbrev tree : Node ℕ
tree =
    node none
      (child (b'a' ∷ [])
        (node (some 2) no_child (child (b':' ∷ b'b' ∷ []) (new_node (some 1)) no_child)) no_child)
      no_child

tree_built : add_all (new_node none) routes ≡ some tree
unfolding add_all add add_route at_child put_item find_child set_child
tree_built = refl

added_twice : (add tree (b'/' ∷ b'a' ∷ b'/' ∷ []) (some 3)).1 ≡ some dup_item
unfolding add add_route at_child put_item find_child set_child
added_twice = refl

search_param :
    search_route tree (b'/' ∷ b'a' ∷ b'/' ∷ b'x' ∷ [])
    ≡ some (record { item = 1; params = (b'b' ∷ [], b'x' ∷ []) ∷ [] })
unfolding search_route next next_end for_each each with_match match add_param
search_param = refl

search_missing : search_route tree (b'/' ∷ b'x' ∷ []) ≡ none
unfolding search_route next next_end for_each each with_match match add_param
search_missing = refl

search_route-some_example :
    (pattern : Bytes) × Added pattern 1 routes
    × (route_matches pattern (b'/' ∷ b'a' ∷ b'/' ∷ b'x' ∷ []) ≡ some ((b'b' ∷ [], b'x' ∷ []) ∷ []))
search_route-some_example =
    search_route-some routes tree (b'/' ∷ b'a' ∷ b'/' ∷ b'x' ∷ [])
      (record { item = 1; params = (b'b' ∷ [], b'x' ∷ []) ∷ [] }) tree_built search_param

search_route-none_example : route_matches (b'/' ∷ b'a' ∷ []) (b'/' ∷ b'x' ∷ []) ≡ none
search_route-none_example =
    search_route-none routes tree (b'/' ∷ b'x' ∷ []) (b'/' ∷ b'a' ∷ []) 2 tree_built search_missing
      (inr (inl (refl, refl)))
