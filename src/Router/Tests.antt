-- ===== src/Router/Tests.antt =====
-- A router with two routes, and the theorems at it.
use go_zero.Prelude.{Among, ℕ, ◌≡◌, ◌≢◌, ◌⊎◌, ◌↔◌, refl, List, [], ◌∷◌, some, none, Bytes}
use go_zero.Search.{
  node, child, no_child, new_node, search_route, next, next_end, for_each, each, with_match, match,
  add_param, add, add_route, at_child, put_item, find_child, set_child,
}
use go_zero.Router.{
  PatRouter, handled, method_not_allowed, new_router, handle, valid_method, tree_of, set_tree,
  serve_http, refuse, handle_not_found, methods_allowed, invalid_method, set_not_found_handler,
  custom_not_found,
}
use go_zero.Router.Built.{Registration, handle_all}
use go_zero.Router.Serving.{Matches}
use go_zero.Router.Answers.{refused_with, serve_http-answers}

abbrev get : Bytes
get = b'G' ∷ b'E' ∷ b'T' ∷ []

abbrev post : Bytes
post = b'P' ∷ b'O' ∷ b'S' ∷ b'T' ∷ []

-- GET /:x and POST /b
abbrev registrations : List (Registration ℕ)
registrations =
    record { method = get; pattern = b'/' ∷ b':' ∷ b'x' ∷ []; handler = 1 }
    ∷ record { method = post; pattern = b'/' ∷ b'b' ∷ []; handler = 2 }
    ∷ []

abbrev empty_router : PatRouter ℕ
empty_router = record { trees = []; not_found = none; not_allowed = none }

abbrev router : PatRouter ℕ
router = record {
  trees =
      (get, node none no_child (child (b':' ∷ b'x' ∷ []) (new_node (some 1)) no_child))
      ∷ (post, node none (child (b'b' ∷ []) (new_node (some 2)) no_child) no_child)
      ∷ [];
  not_found = none;
  not_allowed = none;
}

starts_empty : new_router ≡ empty_router
unfolding new_router
starts_empty = refl

router_built : handle_all (λ p. p) empty_router registrations ≡ some router
unfolding handle_all handle valid_method tree_of set_tree add add_route at_child put_item find_child
    set_child
router_built = refl

get_served :
    serve_http (λ p. p) router get (b'/' ∷ b'b' ∷ []) ≡ handled 1 ((b'x' ∷ [], b'b' ∷ []) ∷ [])
unfolding serve_http tree_of search_route next next_end for_each each with_match match add_param
get_served = refl

post_refused : serve_http (λ p. p) router post (b'/' ∷ b'a' ∷ []) ≡ method_not_allowed (get ∷ [])
unfolding serve_http refuse methods_allowed tree_of search_route next next_end for_each each
    with_match match add_param
post_refused = refl

unknown_method : (handle (λ p. p) router (b'X' ∷ []) (b'/' ∷ []) 3).1 ≡ some invalid_method
unfolding handle valid_method
unknown_method = refl

custom_page :
    serve_http (λ p. p) (set_not_found_handler router 404) get (b'/' ∷ b'a' ∷ b'/' ∷ b'b' ∷ [])
    ≡ custom_not_found 404
unfolding set_not_found_handler handle_not_found serve_http refuse methods_allowed tree_of
    search_route next next_end for_each each with_match match add_param
custom_page = refl

serve_http-answers_example :
    ((x : Registration ℕ) × (ps : List (Bytes × Bytes)) × Matches
        (λ p. p)
        registrations
        get
        (b'/' ∷ b'b' ∷ [])
        x
        ps
      × (serve_http (λ p. p) router get (b'/' ∷ b'b' ∷ []) ≡ handled x.handler ps))
    ⊎ ((allowed : List Bytes) × ((x : Registration ℕ) (ps : List (Bytes × Bytes))
          → ¬ Matches (λ p. p) registrations get (b'/' ∷ b'b' ∷ []) x ps)
        × ((m : Bytes)
            → Among m allowed ↔ (
                (m ≢ get)
                × (x : Registration ℕ) × (ps : List (Bytes × Bytes)) × Matches
                    (λ p. p)
                    registrations
                    m
                    (b'/' ∷ b'b' ∷ [])
                    x
                    ps))
        × (serve_http (λ p. p) router get (b'/' ∷ b'b' ∷ []) ≡ refused_with router allowed))
serve_http-answers_example =
    serve_http-answers (λ p. p) empty_router router registrations refl router_built get
      (b'/' ∷ b'b' ∷ [])
