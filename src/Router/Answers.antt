-- ===== src/Router/Answers.antt =====
-- The answer of `ServeHTTP` to every request, by the routes that were registered.
use go_zero.Prelude.{
  Among, ◌≡◌, ◌≢◌, refl, sym, ap, subst, ◌∙◌, ◌⊎◌, inl, inr, ◌↔◌, List, [], ◌∷◌, none, some, Bytes,
  Option-cases,
}
use go_zero.Search.{new_node, Result}
use go_zero.Search.Paths.{route_matches}
use go_zero.Search.Routes.{add_all, Added, search_route-some, search_route-none}
use go_zero.Router.{
  PatRouter, handled, tree_of, or_new_tree, find_route, methods_allowed, refuse, serve_http,
  Response, handle_not_found, page_not_found, custom_not_found, custom_not_allowed,
  method_not_allowed,
}
use go_zero.Router.Built.{Registration, handle_all, entries, handle_all-Holds}
use go_zero.Router.Serving.{
  Matches, OneTree, find_route-eq, methods_allowed_iff, handle_all-OneTree, entries-Added,
  Added-entries,
}

-- The answer to a request that is not served: not found where no other method is allowed, and not
-- allowed with those methods else; each by the router's own handler where it has one.
abbrev pub refused_with : {H : Type 0} → PatRouter H → List Bytes → Response H
refused_with router [] = elim router.not_found [
  | some h ↦ custom_not_found h
  | none ↦ page_not_found
]
refused_with router (m ∷ allowed) = elim router.not_allowed [
  | some h ↦ custom_not_allowed h
  | none ↦ method_not_allowed (m ∷ allowed)
]

refuse-refused_with :
    {H : Type 0} (router : PatRouter H) (allowed : List Bytes)
    → refuse router allowed ≡ refused_with router allowed
unfolding refuse handle_not_found
refuse-refused_with router [] = refl
refuse-refused_with router (m ∷ allowed) = refl

-- A router that started without a tree, after successful registrations.
module _ {H : Type 0} (clean : Bytes → Bytes) (start router : PatRouter H)
    (rs : List (Registration H)) (no_tree : start.trees ≡ [])
    (made : handle_all clean start rs ≡ some router) where
  tree-entries :
      (m : Bytes)
      → add_all (new_node none) (entries clean m rs) ≡ some (or_new_tree (tree_of m router.trees))
  unfolding tree_of add_all
  tree-entries m =
      handle_all-Holds clean rs start router (λ _. []) made
        (λ k. ap (λ ts. some (or_new_tree (tree_of k ts))) (sym no_tree)) m

  one_tree : OneTree router.trees
  one_tree = handle_all-OneTree clean rs start router made (subst OneTree (sym no_tree) tt)

  found-Matches :
      (m path : Bytes) (r : Result H)
      → find_route (tree_of m router.trees) (clean path) ≡ some r
      → (x : Registration H) × Matches clean rs m path x r.params × (x.handler ≡ r.item)
  found-Matches m path r found =
      let (p, added, matched) =
        search_route-some (entries clean m rs) (or_new_tree (tree_of m router.trees)) (clean path) r
          (tree-entries m) (sym (find_route-eq (tree_of m router.trees) (clean path)) ∙ found) in
      let (x, at, method, pattern, handler) = entries-Added clean m p r.item rs added in
      (x, (at, method, ap (λ q. route_matches q (clean path)) pattern ∙ matched), handler)

  Matches-found :
      (m path : Bytes) (x : Registration H) (ps : List (Bytes × Bytes))
      → Matches clean rs m path x ps
      → (r : Result H) × (find_route (tree_of m router.trees) (clean path) ≡ some r)
  Matches-found m path x ps (at, method, matched) =
      elim (Option-cases (find_route (tree_of m router.trees) (clean path))) [
        | inr hit ↦ hit
        | inl miss ↦ absurd (
            cc (
              matched,
              search_route-none (entries clean m rs) (or_new_tree (tree_of m router.trees))
                  (clean path) (clean x.pattern) x.handler (tree-entries m)
                  (sym (find_route-eq (tree_of m router.trees) (clean path)) ∙ miss)
                  (subst (λ k. Added (clean x.pattern) x.handler (entries clean k rs)) method
                    (Added-entries clean x rs at)),
            ))
      ]

  allowed_iff :
      (method path m : Bytes)
      → Among m (methods_allowed method (clean path) router.trees) ↔ (
          (m ≢ method)
          × (x : Registration H) × (ps : List (Bytes × Bytes)) × Matches clean rs m path x ps)
  allowed_iff method path m =
      let iff = methods_allowed_iff method (clean path) router.trees m one_tree in
      (
        (λ a.
            let (ne, r, found) = iff.0 a in
            let (x, matches, _) = found-Matches m path r found in (ne, x, r.params, matches)),
        (λ p. let (r, found) = Matches-found m path p.1 p.2 p.3 in iff.1 (p.0, r, found)),
      )

  -- A request is served by a registration of its method whose cleaned pattern matches its cleaned
  -- path, with the parameters of that match, if there is one. If there is none, it is refused with the
  -- methods, other than its own, of the registrations that match it: as not found if there is no such
  -- method, as not allowed else. This holds of a router that started without trees, after any
  -- registrations that succeeded.
  pub serve_http-answers :
      (method path : Bytes)
      → ((x : Registration H) × (ps : List (Bytes × Bytes)) × Matches clean rs method path x ps
          × (serve_http clean router method path ≡ handled x.handler ps))
        ⊎ ((allowed : List Bytes) × ((x : Registration H) (ps : List (Bytes × Bytes))
              → ¬ Matches clean rs method path x ps)
            × ((m : Bytes)
                → Among m allowed ↔ (
                    (m ≢ method)
                    × (x : Registration H) × (ps : List (Bytes × Bytes)) × Matches clean rs m path x
                        ps))
            × (serve_http clean router method path ≡ refused_with router allowed))
  unfolding serve_http
  serve_http-answers method path =
      elim (Option-cases (find_route (tree_of method router.trees) (clean path))) [
        | inr (r, found) ↦
            let (x, matches, handler) = found-Matches method path r found in
            inl (
              x,
              r.params,
              matches,
              rw (found, serve_http) (ap (λ h. handled h r.params) (sym handler)),
            )
        | inl miss ↦ inr (
          methods_allowed method (clean path) router.trees,
          (λ x ps matches. cc ((Matches-found method path x ps matches).1, miss)),
          allowed_iff method path,
          rw (miss, serve_http)
              (refuse-refused_with router (methods_allowed method (clean path) router.trees)),
        )
      ]
