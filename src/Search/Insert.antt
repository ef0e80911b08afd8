-- ===== src/Search/Insert.antt =====
-- A route that is added stands in the tree beside all that stood there before.
use go_zero.Prelude.{
  ◌==◌, ◌≡◌, refl, sym, ap, ap₂, subst, ◌∙◌, ◌⊎◌, inl, inr, ◌↔◌, List, [], ◌∷◌, ◌++◌, Option, none,
  some, Bytes, bytes_eq, bytes_eq_iff, arith, Bool-cases, Option-cases,
}
use go_zero.Search.{
  slash, Error, Node, node, Children, no_child, child, new_node, find_child, set_child, is_param,
  child_or_new, at_child, put_item, add_route,
}
use go_zero.Search.Paths.{In, At, path_from}

module _ {I : Type 0} where
  In-set_child :
      (k t : Bytes) (m w : Node I) (cs : Children I)
      → In k m (set_child t w cs)
      → ((k ≡ t) × (m ≡ w)) ⊎ In k m cs
  unfolding set_child
  In-set_child k t m w no_child (inl (a, b)) = inl (sym a, sym b)
  In-set_child k t m w no_child (inr h) = absurd h
  In-set_child k t m w (child j v cs) h = elim (Bool-cases (bytes_eq j t)) [
    | inl same ↦ in_head ((bytes_eq_iff j t).0 same) (rw (same, set_child) at h)
    | inr other ↦ in_tail (In-set_child k t m w cs) (rw (other, set_child) at h)
  ]
    where
      in_head : j ≡ t → In k m (child j w cs) → ((k ≡ t) × (m ≡ w)) ⊎ In k m (child j v cs)
      in_head e (inl (a, b)) = inl (sym a ∙ e, sym b)
      in_head e (inr r) = inr (inr r)

      in_tail :
          (In k m (set_child t w cs) → ((k ≡ t) × (m ≡ w)) ⊎ In k m cs)
          → In k m (child j v (set_child t w cs))
          → ((k ≡ t) × (m ≡ w)) ⊎ In k m (child j v cs)
      in_tail ih (inl r) = inr (inl r)
      in_tail ih (inr r) = elim (ih r) [ inl p ↦ inl p | inr p ↦ inr (inr p) ]

  set_child-In :
      (k t : Bytes) (m w : Node I) (cs : Children I)
      → In k m cs
      → ((k ≡ t) × (find_child t cs ≡ some m)) ⊎ In k m (set_child t w cs)
  unfolding set_child find_child
  set_child-In k t m w no_child h = absurd h
  set_child-In k t m w (child j v cs) (inl (a, b)) = elim (Bool-cases (bytes_eq j t)) [
    | inl same ↦ inl (sym a ∙ (bytes_eq_iff j t).0 same, rw same (ap some b))
    | inr other ↦ inr (rw (other, set_child) (inl (a, b)))
  ]
  set_child-In k t m w (child j v cs) (inr r) = elim (Bool-cases (bytes_eq j t)) [
    | inl same ↦ inr (rw (same, set_child) (inr r))
    | inr other ↦ elim (set_child-In k t m w cs r) [
      | inl (a, b) ↦ inl (a, rw other b)
      | inr p ↦ inr (rw (other, set_child) (inr p))
    ]
  ]

  find_child-In : (t : Bytes) (cs : Children I) (m : Node I) → find_child t cs ≡ some m → In t m cs
  unfolding find_child
  find_child-In t no_child m e = cc
  find_child-In t (child j v cs) m e = elim (Bool-cases (bytes_eq j t)) [
    | inl same ↦ inl ((bytes_eq_iff j t).0 same, ground arith)
    | inr other ↦ inr (find_child-In t cs m (rw (other, find_child) at e))
  ]

  new-In-set_child : (t : Bytes) (w : Node I) (cs : Children I) → In t w (set_child t w cs)
  unfolding set_child
  new-In-set_child t w no_child = inl (refl, refl)
  new-In-set_child t w (child j v cs) = elim (Bool-cases (bytes_eq j t)) [
    | inl same ↦ rw (same, set_child) (inl ((bytes_eq_iff j t).0 same, refl))
    | inr other ↦ rw (other, set_child) (inr (new-In-set_child t w cs))
  ]

  -- `n'` holds what `n` holds, and the item `i` at `path`.
  abbrev pub Extends : Node I → Node I → List Bytes → I → Type 0
  Extends n n' path i = (q : List Bytes) (j : I) → At n' q j ↔ (At n q j ⊎ ((q ≡ path) × (j ≡ i)))

  put_path :
      (i : I) (ls ps : Children I) (q : List Bytes) (j : I)
      → At (node (some i) ls ps) q j ↔ (At (node none ls ps) q j ⊎ ((q ≡ []) × (j ≡ i)))
  put_path i ls ps [] j = (λ h. inr (refl, cc), elim [ inl h ↦ cc | inr h ↦ ap some (sym h.1) ])
  put_path i ls ps (k ∷ q) j = (λ h. inl h, elim [ inl h ↦ h | inr h ↦ absurd (cc (h.0)) ])

  put_item-Extends : (i : I) (n n' : Node I) → put_item i n ≡ (n', none) → Extends n n' [] i
  unfolding put_item
  put_item-Extends i (node none ls ps) n' e q j =
      let made : node (some i) ls ps ≡ n' = cc in
      subst (λ m. At m q j ↔ (At (node none ls ps) q j ⊎ ((q ≡ []) × (j ≡ i)))) made
        (put_path i ls ps q j)
  put_item-Extends i (node (some k) ls ps) n' e q j = cc

  new_node-empty : (q : List Bytes) (j : I) → ¬ At (new_node none) q j
  new_node-empty [] j h = cc
  new_node-empty (k ∷ q) j (m, inl h, at) = h
  new_node-empty (k ∷ q) j (m, inr h, at) = h

  module _ (t : Bytes) (cs : Children I) (c' : Node I) (path : List Bytes) (i : I)
      (ext : Extends (child_or_new (find_child t cs)) c' path i) where
    old_child :
        (k : Bytes) (q : List Bytes) (j : I)
        → k ≡ t
        → At (child_or_new (find_child t cs)) q j
        → (m : Node I) × In k m cs × At m q j
    old_child k q j same at = elim (Option-cases (find_child t cs)) [
      | inl gone ↦ absurd (new_node-empty q j (subst (λ o. At (child_or_new o) q j) gone at))
      | inr (c, there) ↦ (
        c,
        subst (λ l. In l c cs) (sym same) (find_child-In t cs c there),
        subst (λ o. At (child_or_new o) q j) there at,
      )
    ]

    set_child-to :
        (k : Bytes) (q : List Bytes) (j : I)
        → ((m : Node I) × In k m (set_child t c' cs) × At m q j)
        → ((m : Node I) × In k m cs × At m q j) ⊎ ((k ≡ t) × (q ≡ path) × (j ≡ i))
    set_child-to k q j (m, here, at) = elim (In-set_child k t m c' cs here) [
      | inl (same, new) ↦ elim ((ext q j).0 (subst (λ x. At x q j) new at)) [
        | inl old ↦ inl (old_child k q j same old)
        | inr (a, b) ↦ inr (same, a, b)
      ]
      | inr old ↦ inl (m, old, at)
    ]

    set_child-from :
        (k : Bytes) (q : List Bytes) (j : I)
        → ((m : Node I) × In k m cs × At m q j) ⊎ ((k ≡ t) × (q ≡ path) × (j ≡ i))
        → (m : Node I) × In k m (set_child t c' cs) × At m q j
    set_child-from k q j (inl (m, here, at)) = elim (set_child-In k t m c' cs here) [
      | inl (same, there) ↦ (
        c',
        subst (λ l. In l c' (set_child t c' cs)) (sym same) (new-In-set_child t c' cs),
        (ext q j).1 (inl (subst (λ o. At (child_or_new o) q j) (sym there) at)),
      )
      | inr p ↦ (m, p, at)
    ]
    set_child-from k q j (inr (same, a, b)) = (
      c',
      subst (λ l. In l c' (set_child t c' cs)) (sym same) (new-In-set_child t c' cs),
      (ext q j).1 (inr (a, b)),
    )

  module _ (item : Option I) (other : Children I) (t : Bytes) (cs : Children I) (c' : Node I)
      (path : List Bytes) (i : I) (ext : Extends (child_or_new (find_child t cs)) c' path i) where
    params-to :
        (q : List Bytes) (j : I)
        → At (node item other (set_child t c' cs)) q j
        → At (node item other cs) q j ⊎ ((q ≡ t ∷ path) × (j ≡ i))
    params-to [] j at = inl at
    params-to (k ∷ q) j (m, inl h, at) = inl (m, inl h, at)
    params-to (k ∷ q) j (m, inr h, at) = elim (set_child-to t cs c' path i ext k q j (m, h, at)) [
      | inl (m', h', at') ↦ inl (m', inr h', at')
      | inr (a, b, e) ↦ inr (ap₂ ◌∷◌ a b, e)
    ]

    params-from :
        (q : List Bytes) (j : I)
        → At (node item other cs) q j ⊎ ((q ≡ t ∷ path) × (j ≡ i))
        → At (node item other (set_child t c' cs)) q j
    params-from [] j (inl at) = at
    params-from [] j (inr (e, _)) = absurd (cc e)
    params-from (k ∷ q) j (inl (m, inl h, at)) = (m, inl h, at)
    params-from (k ∷ q) j (inl (m, inr h, at)) =
        let (m', h', at') = set_child-from t cs c' path i ext k q j (inl (m, h, at)) in
        (m', inr h', at')
    params-from (k ∷ q) j (inr (e, ji)) =
        let (m', h', at') = set_child-from t cs c' path i ext k q j (inr (cc, cc, ji)) in
        (m', inr h', at')

    literals-to :
        (q : List Bytes) (j : I)
        → At (node item (set_child t c' cs) other) q j
        → At (node item cs other) q j ⊎ ((q ≡ t ∷ path) × (j ≡ i))
    literals-to [] j at = inl at
    literals-to (k ∷ q) j (m, inr h, at) = inl (m, inr h, at)
    literals-to (k ∷ q) j (m, inl h, at) = elim (set_child-to t cs c' path i ext k q j (m, h, at)) [
      | inl (m', h', at') ↦ inl (m', inl h', at')
      | inr (a, b, e) ↦ inr (ap₂ ◌∷◌ a b, e)
    ]

    literals-from :
        (q : List Bytes) (j : I)
        → At (node item cs other) q j ⊎ ((q ≡ t ∷ path) × (j ≡ i))
        → At (node item (set_child t c' cs) other) q j
    literals-from [] j (inl at) = at
    literals-from [] j (inr (e, _)) = absurd (cc e)
    literals-from (k ∷ q) j (inl (m, inr h, at)) = (m, inr h, at)
    literals-from (k ∷ q) j (inl (m, inl h, at)) =
        let (m', h', at') = set_child-from t cs c' path i ext k q j (inl (m, h, at)) in
        (m', inl h', at')
    literals-from (k ∷ q) j (inr (e, ji)) =
        let (m', h', at') = set_child-from t cs c' path i ext k q j (inr (cc, cc, ji)) in
        (m', inl h', at')

  -- A child that is changed by `f` extends its parent at the path through it.
  at_child-Extends :
      (n n' : Node I) (t : Bytes) (f : Node I → Node I × Option Error) (path : List Bytes) (i : I)
      → ((c c' : Node I) → f c ≡ (c', none) → Extends c c' path i)
      → at_child n t f ≡ (n', none)
      → Extends n n' (t ∷ path) i
  unfolding at_child
  at_child-Extends (node item ls ps) n' t f path i ext e q j = elim (Bool-cases (is_param t)) [
    | inl named' ↦
        let c = f (child_or_new (find_child t ps)) in
        let e' : (node item ls (set_child t c.0 ps), c.1) ≡ (n', none) =
          rw (named', at_child) at e in
        let ext' =
          ext (child_or_new (find_child t ps)) c.0 (ap (λ z. (c.0, z)) (ap (λ z. z.1) e')) in
        subst (λ m. At m q j ↔ (At (node item ls ps) q j ⊎ ((q ≡ t ∷ path) × (j ≡ i))))
          (ap (λ z. z.0) e')
          (params-to item ls t ps c.0 path i ext' q j, params-from item ls t ps c.0 path i ext' q j)
    | inr literal' ↦
        let c = f (child_or_new (find_child t ls)) in
        let e' : (node item (set_child t c.0 ls) ps, c.1) ≡ (n', none) =
          rw (literal', at_child) at e in
        let ext' =
          ext (child_or_new (find_child t ls)) c.0 (ap (λ z. (c.0, z)) (ap (λ z. z.1) e')) in
        subst (λ m. At m q j ↔ (At (node item ls ps) q j ⊎ ((q ≡ t ∷ path) × (j ≡ i))))
          (ap (λ z. z.0) e')
          (
            literals-to item ps t ls c.0 path i ext' q j,
            literals-from item ps t ls c.0 path i ext' q j,
          )
  ]

  -- A route that is added without an error extends the tree by its path, and by nothing else.
  pub add_route-Extends :
      (n : Node I) (token route : Bytes) (i : I) (n' : Node I)
      → add_route n token route i ≡ (n', none)
      → Extends n n' (path_from token route) i
  unfolding add_route path_from
  add_route-Extends n [] [] i n' e = put_item-Extends i n n' e
  add_route-Extends n (t ∷ token) [] i n' e =
      at_child-Extends n n' (t ∷ token) (put_item i) [] i (λ c c'. put_item-Extends i c c') e
  add_route-Extends n [] (c ∷ route) i n' e = elim (Bool-cases (c == slash)) [
    | inl cut ↦ absurd (cc (rw (cut, add_route) at e))
    | inr on ↦
        rw (on, path_from) (add_route-Extends n (c ∷ []) route i n' (rw (on, add_route) at e))
  ]
  add_route-Extends n (t ∷ token) (c ∷ route) i n' e = elim (Bool-cases (c == slash)) [
    | inl cut ↦
        rw (cut, path_from)
          (at_child-Extends n n' (t ∷ token) (λ m. add_route m [] route i) (path_from [] route) i
            (λ m m'. add_route-Extends m [] route i m') (rw (cut, add_route) at e))
    | inr on ↦
        rw (on, path_from)
          (add_route-Extends n (t ∷ token ++ (c ∷ [])) route i n' (rw (on, add_route) at e))
  ]
