-- ===== src/Search/Routes.antt =====
-- A tree made by adding routes serves exactly the routes that match one of them.
use go_zero.Prelude.{
  ◌==◌, ◌≡◌, ◌≢◌, refl, sym, ap, subst, ◌∙◌, ◌⊎◌, inl, inr, ◌↔◌, true, List, [], ◌∷◌, Option, none,
  some, Bytes, Bool-cases, eq_of_some, Option-cases,
}
use go_zero.Search.{slash, Error, Node, Result, new_node, search_route, add}
use go_zero.Search.Paths.{At, match_path, tokens_from, path_from, route_matches}
use go_zero.Search.Lookup.{next-some, next-none}
use go_zero.Search.Insert.{Extends, add_route-Extends}

-- The path of keys of an added route.
abbrev key_path : Bytes → List Bytes
key_path [] = []
key_path (_ ∷ pattern) = path_from [] pattern

module _ {I : Type 0} where
  -- The routes with their items, added in turn; `none` if one of the calls fails.
  unfoldable pub add_all : Node I → List (Bytes × I) → Option (Node I)
  add_all root [] = some root
  add_all root ((pattern, i) ∷ rs) =
      let (root', err) = add root pattern (some i) in
      elim err [ none ↦ add_all root' rs | some _ ↦ none ]

  -- The item `i` was added for `pattern`.
  abbrev pub Added : Bytes → I → List (Bytes × I) → Type 0
  Added pattern i [] = ⊥
  Added pattern i ((p, j) ∷ rs) = ((pattern ≡ p) × (i ≡ j)) ⊎ Added pattern i rs

  -- One successful call of `Add`.
  add-Extends :
      (n n' : Node I) (pattern : Bytes) (i : I)
      → add n pattern (some i) ≡ (n', none)
      → Extends n n' (key_path pattern) i × (pattern ≢ [])
  unfolding add
  add-Extends n n' [] i e = cc
  add-Extends n n' (c ∷ pattern) i e = elim (Bool-cases (c == slash)) [
    | inl rooted ↦ (add_route-Extends n [] pattern i n' (rw (rooted, add) at e), λ h. cc)
    | inr bad ↦ absurd (cc (rw (bad, add) at e))
  ]

  add_all-At :
      (rs : List (Bytes × I)) (n tree : Node I)
      → add_all n rs ≡ some tree
      → (path : List Bytes) (i : I)
      → At tree path i ↔ (
          At n path i
          ⊎ ((pattern : Bytes) × Added pattern i rs × (key_path pattern ≡ path) × (pattern ≢ [])))
  unfolding add_all
  add_all-At [] n tree e path i =
      let same : n ≡ tree = eq_of_some e in
      (
        λ at. inl (subst (λ m. At m path i) (sym same) at),
        elim [ inl at ↦ subst (λ m. At m path i) same at | inr p ↦ absurd (p.1) ],
      )
  add_all-At ((p, k) ∷ rs) n tree e path i = elim (Option-cases (add n p (some k)).1) [
    | inl ok ↦
        step (add_all-At rs r.0 tree (rw (ok, add_all) at e) path i)
          (add-Extends n r.0 p k (ap (λ z. (r.0, z)) ok))
    | inr (x, bad) ↦ absurd (cc (rw (bad, add_all) at e))
  ]
    where
      r : Node I × Option Error
      r = add n p (some k)

      Among : List (Bytes × I) → Type 0
      Among l = (pattern : Bytes) × Added pattern i l × (key_path pattern ≡ path) × (pattern ≢ [])

      step :
          (At tree path i ↔ (At r.0 path i ⊎ Among rs))
          → Extends n r.0 (key_path p) k × (p ≢ [])
          → At tree path i ↔ (At n path i ⊎ Among ((p, k) ∷ rs))
      step ih (ext, ne) = (λ at. to (ih.0 at), λ h. ih.1 (from h))
        where
          to : At r.0 path i ⊎ Among rs → At n path i ⊎ Among ((p, k) ∷ rs)
          to (inl at) = elim ((ext path i).0 at) [
            | inl old ↦ inl old
            | inr (same, item) ↦ inr (p, inl (refl, item), sym same, ne)
          ]
          to (inr (q, added, kp, q_ne)) = inr (q, inr added, kp, q_ne)

          from : At n path i ⊎ Among ((p, k) ∷ rs) → At r.0 path i ⊎ Among rs
          from (inl at) = inl ((ext path i).1 (inl at))
          from (inr (q, inl (same, item), kp, q_ne)) =
              inl ((ext path i).1 (inr (sym kp ∙ ap key_path same, item)))
          from (inr (q, inr added, kp, q_ne)) = inr (q, added, kp, q_ne)

  empty_tree : (path : List Bytes) (i : I) → ¬ At (new_node none) path i
  empty_tree [] i at = cc
  empty_tree (k ∷ path) i (m, inl h, at) = h
  empty_tree (k ∷ path) i (m, inr h, at) = h

  -- Whatever routes were added without an error, in any order: a route that the tree finds matches one
  -- of them, its result has the item added for that one, and the parameters are those of the match.
  pub search_route-some :
      (rs : List (Bytes × I)) (tree : Node I) (route : Bytes) (r : Result I)
      → add_all (new_node none) rs ≡ some tree
      → search_route tree route ≡ some r
      → (pattern : Bytes) × Added pattern r.item rs × (route_matches pattern route ≡ some r.params)
  unfolding search_route route_matches
  search_route-some rs tree [] r made e = cc
  search_route-some rs tree (c ∷ route) r made e = elim (Bool-cases (c == slash)) [
    | inr bad ↦ absurd (cc (rw (bad, search_route) at e))
    | inl rooted ↦
        let (path, at, matched) = next-some tree [] route r (rw (rooted, search_route) at e) in
        found path matched rooted ((add_all-At rs (new_node none) tree made path r.item).0 at)
  ]
    where
      found :
          (path : List Bytes)
          → match_path path (tokens_from [] route) ≡ some r.params
          → (c == slash) ≡ true
          → At (new_node none) path r.item
            ⊎ ((pattern : Bytes) × Added pattern r.item rs
                × (key_path pattern ≡ path)
                × (pattern ≢ []))
          → (pattern : Bytes) × Added pattern r.item rs
            × (route_matches pattern (c ∷ route) ≡ some r.params)
      found path matched rooted (inl at) = absurd (empty_tree path r.item at)
      found path matched rooted (inr ([], added, kp, ne)) = absurd (ne refl)
      found path matched rooted (inr (d ∷ pattern, added, kp, ne)) = (
        d ∷ pattern,
        added,
        rw rooted (ap (λ q. match_path q (tokens_from [] route)) kp ∙ matched),
      )

  -- If the tree finds no item for a route, the route matches none of the added ones.
  pub search_route-none :
      (rs : List (Bytes × I)) (tree : Node I) (route pattern : Bytes) (i : I)
      → add_all (new_node none) rs ≡ some tree
      → search_route tree route ≡ none
      → Added pattern i rs
      → route_matches pattern route ≡ none
  unfolding search_route route_matches
  search_route-none rs tree route [] i made e added = refl
  search_route-none rs tree [] (d ∷ pattern) i made e added = refl
  search_route-none rs tree (c ∷ route) (d ∷ pattern) i made e added =
      elim (Bool-cases (c == slash)) [
        | inr bad ↦ rw (bad, route_matches)
        | inl rooted ↦
            rw (rooted, route_matches)
              (next-none tree [] route (path_from [] pattern) i (rw (rooted, search_route) at e) (
                (add_all-At rs (new_node none) tree made (path_from [] pattern) i).1
                  (inr (d ∷ pattern, added, refl, λ h. cc))))
      ]
