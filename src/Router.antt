-- ===== src/Router.antt =====
-- rest/router/patrouter.go: one search tree for each method. `path.Clean` is the argument `clean`. A
-- handler is any value; writing its response is not modelled.
pub mod Built
pub mod Serving
pub mod Answers
mod Tests
use go_zero.Prelude.{
  ℕ, ◌==◌, ◌≡◌, ◌||◌, if◌then◌else◌, Bool, true, false, List, [], ◌∷◌, Option, none, some, Bytes,
  bytes_eq,
}
use go_zero.Search.{slash, Node, new_node, search_route}
use go_zero.Search

-- The errors of `Handle`.
pub data HandleError : Type 0 where
  invalid_method invalid_path : HandleError
  search_error : Search.Error → HandleError

-- `patRouter`
pub record PatRouter (H : Type 0) : Type 0 where
  pub trees : List (Bytes × Node H)
  pub not_found : Option H
  pub not_allowed : Option H

-- What `ServeHTTP` does with a request: it calls a handler, with the path variables of a route if
-- there are any, or writes 405 with the header `Allow`, or 404.
pub data Response (H : Type 0) : Type 0 where
  handled : H → List (Bytes × Bytes) → Response H
  custom_not_allowed custom_not_found : H → Response H
  method_not_allowed : List Bytes → Response H
  page_not_found : Response H

-- The constants of net/http that `validMethod` compares with.
abbrev pub methods : List Bytes
methods =
    (b'D' ∷ b'E' ∷ b'L' ∷ b'E' ∷ b'T' ∷ b'E' ∷ [])
    ∷ (b'G' ∷ b'E' ∷ b'T' ∷ [])
    ∷ (b'H' ∷ b'E' ∷ b'A' ∷ b'D' ∷ [])
    ∷ (b'O' ∷ b'P' ∷ b'T' ∷ b'I' ∷ b'O' ∷ b'N' ∷ b'S' ∷ [])
    ∷ (b'P' ∷ b'A' ∷ b'T' ∷ b'C' ∷ b'H' ∷ [])
    ∷ (b'P' ∷ b'O' ∷ b'S' ∷ b'T' ∷ [])
    ∷ (b'P' ∷ b'U' ∷ b'T' ∷ [])
    ∷ []

abbrev is_among : Bytes → List Bytes → Bool
is_among m [] = false
is_among m (x ∷ xs) = bytes_eq m x || is_among m xs

-- `validMethod`
unfoldable pub valid_method : Bytes → Bool
valid_method method = is_among method methods

abbrev pub starts_with_slash : Bytes → Bool
starts_with_slash [] = false
starts_with_slash (c ∷ _) = c == slash

abbrev pub as_error : Option Search.Error → Option HandleError
as_error none = none
as_error (some e) = some (search_error e)

module _ {H : Type 0} where
  -- Reading and writing the map of trees.
  unfoldable pub tree_of : Bytes → List (Bytes × Node H) → Option (Node H)
  tree_of m [] = none
  tree_of m ((j, t) ∷ ts) = if bytes_eq j m then some t else tree_of m ts

  unfoldable pub set_tree : Bytes → Node H → List (Bytes × Node H) → List (Bytes × Node H)
  set_tree m t [] = (m, t) ∷ []
  set_tree m t ((j, u) ∷ ts) = if bytes_eq j m then (j, t) ∷ ts else (j, u) ∷ set_tree m t ts

  -- `NewRouter`
  unfoldable pub new_router : PatRouter H
  new_router = record { trees = []; not_found = none; not_allowed = none }

  -- `SetNotFoundHandler` and `SetNotAllowedHandler`
  unfoldable pub set_not_found_handler : PatRouter H → H → PatRouter H
  set_not_found_handler pr h = record pr { not_found = some h }

  unfoldable pub set_not_allowed_handler : PatRouter H → H → PatRouter H
  set_not_allowed_handler pr h = record pr { not_allowed = some h }

  abbrev pub or_new_tree : Option (Node H) → Node H
  or_new_tree none = new_node none
  or_new_tree (some t) = t

  -- `methodsAllowed`, the loop over the map: the other methods whose tree finds the path.
  unfoldable pub methods_allowed : Bytes → Bytes → List (Bytes × Node H) → List Bytes
  methods_allowed method path [] = []
  methods_allowed method path ((m, t) ∷ ts) =
      let rest = methods_allowed method path ts in
      if bytes_eq m method
      then rest
      else elim (search_route t path) [ none ↦ rest | some _ ↦ m ∷ rest ]

  -- `handleNotFound`
  unfoldable pub handle_not_found : PatRouter H → Response H
  handle_not_found pr = elim pr.not_found [ none ↦ page_not_found | some h ↦ custom_not_found h ]

  -- The end of `ServeHTTP`, for the methods that `methodsAllowed` gives.
  unfoldable pub refuse : PatRouter H → List Bytes → Response H
  unfolding handle_not_found
  refuse pr [] = handle_not_found pr
  refuse pr (m ∷ ms) = elim pr.not_allowed [
    | none ↦ method_not_allowed (m ∷ ms)
    | some h ↦ custom_not_allowed h
  ]

  abbrev pub find_route : Option (Node H) → Bytes → Option (Search.Result H)
  find_route none path = none
  find_route (some t) path = search_route t path

  module _ (clean : Bytes → Bytes) where
    -- `Handle`: the new router, and the error if there is one.
    unfoldable pub handle : PatRouter H → Bytes → Bytes → H → PatRouter H × Option HandleError
    handle pr method path h =
        if valid_method method
        then (if starts_with_slash path
            then (let (t, err) =
                  Search.add (or_new_tree (tree_of method pr.trees)) (clean path) (some h) in
                (record pr { trees = set_tree method t pr.trees }, as_error err))
            else (pr, some invalid_path))
        else (pr, some invalid_method)

    -- `ServeHTTP`, for the method and the path of the request
    unfoldable pub serve_http : PatRouter H → Bytes → Bytes → Response H
    unfolding refuse
    serve_http pr method path = elim (find_route (tree_of method pr.trees) (clean path)) [
      | some r ↦ handled r.item r.params
      | none ↦ refuse pr (methods_allowed method (clean path) pr.trees)
    ]
