-- ===== src/Router/Serving.antt =====
-- What `ServeHTTP` answers when the router was built by calls of `Handle`.
use go_zero.Prelude.{
  Among, ◌≡◌, ◌≢◌, refl, sym, ap, subst, ◌∙◌, inl, inr, ◌↔◌, List, [], ◌∷◌, Option, none, some,
  Bytes, bytes_eq, bytes_eq_iff, arith, Bool-cases, eq_of_some, Option-cases,
}
use go_zero.Search.{Node, new_node, Result, search_route}
use go_zero.Search.Paths.{route_matches}
use go_zero.Search.Routes.{add_all, Added, search_route-some}
use go_zero.Router.{PatRouter, tree_of, set_tree, or_new_tree, find_route, methods_allowed, handle}
use go_zero.Router.Built.{Registration, handle_all, entries, handle-ok, tree_of-set_tree}

module _ {H : Type 0} where
  -- Every method has one tree.
  abbrev pub OneTree : List (Bytes × Node H) → Type 0
  OneTree [] = Unit
  OneTree ((m, t) ∷ ts) = (tree_of m ts ≡ none) × OneTree ts

  set_tree-OneTree :
      (j : Bytes) (t : Node H) (ts : List (Bytes × Node H)) → OneTree ts → OneTree (set_tree j t ts)
  unfolding set_tree tree_of
  set_tree-OneTree j t [] one = (refl, tt)
  set_tree-OneTree j t ((i, u) ∷ ts) (new, one) = elim (Bool-cases (bytes_eq i j)) [
    | inl same ↦ rw (same, set_tree) (new, one)
    | inr other ↦
        rw (other, set_tree)
          (
            tree_of-set_tree i j t ts ∙ ground (arith, bytes_eq_iff i j, bytes_eq_iff j i),
            set_tree-OneTree j t ts one,
          )
  ]

  pub find_route-eq :
      (o : Option (Node H)) (path : Bytes) → find_route o path ≡ search_route (or_new_tree o) path
  unfolding add_all
  find_route-eq (some t) path = refl
  find_route-eq none path = elim (Option-cases (search_route (new_node {I = H} none) path)) [
    | inl miss ↦ sym miss
    | inr (r, hit) ↦ absurd ((search_route-some [] (new_node none) path r refl hit).1)
  ]

  -- `methodsAllowed` gives `m` just when it is another method whose tree finds the path.
  abbrev pub Allows : Bytes → Bytes → List (Bytes × Node H) → Bytes → Type 0
  Allows method path ts m =
      Among m (methods_allowed method path ts)
      ↔ ((m ≢ method) × (r : Result H) × (find_route (tree_of m ts) path ≡ some r))

  methods_allowed-first :
      (method path k : Bytes) (t : Node H) (ts : List (Bytes × Node H)) (m : Bytes)
      → k ≡ m
      → tree_of k ts ≡ none
      → Allows method path ts m
      → Among m (methods_allowed method path ((k, t) ∷ ts))
        ↔ ((m ≢ method) × (r : Result H) × (search_route t path ≡ some r))
  unfolding methods_allowed
  methods_allowed-first method path k t ts m km new ih = elim (Bool-cases (bytes_eq k method)) [
    | inl same ↦
        rw same (
          (λ a. absurd (no_later a)),
          (λ p. absurd (p.0 (sym km ∙ (bytes_eq_iff k method).0 same))),
        )
    | inr other ↦ elim (Option-cases (search_route t path)) [
      | inl miss ↦ rw (other, miss) ((λ a. absurd (no_later a)), (λ p. absurd (cc (p.2))))
      | inr (r, hit) ↦
          rw (other, hit)
            (
              (λ _. ((λ e. cc (other, (bytes_eq_iff k method).1 (km ∙ e))), r, refl)),
              (λ p. inl (sym km)),
            )
    ]
  ]
    where
      no_later : Among m (methods_allowed method path ts) → ⊥
      no_later a =
          let (ne, r, found) = ih.0 a in
          cc (found, ap (λ o. find_route o path) (ap (λ j. tree_of j ts) (sym km) ∙ new))

  methods_allowed-later :
      (method path k : Bytes) (t : Node H) (ts : List (Bytes × Node H)) (m : Bytes)
      → k ≢ m
      → Allows method path ts m
      → Among m (methods_allowed method path ((k, t) ∷ ts))
        ↔ ((m ≢ method) × (r : Result H) × (find_route (tree_of m ts) path ≡ some r))
  unfolding methods_allowed
  methods_allowed-later method path k t ts m km ih = elim (Bool-cases (bytes_eq k method)) [
    | inl same ↦ rw same ih
    | inr other ↦ elim (Option-cases (search_route t path)) [
      | inl miss ↦ rw (other, miss) ih
      | inr (r, hit) ↦
          rw (other, hit)
            (elim [ inl e ↦ absurd (km (sym e)) | inr later ↦ ih.0 later ], (λ p. inr (ih.1 p)))
    ]
  ]

  pub methods_allowed_iff :
      (method path : Bytes) (ts : List (Bytes × Node H)) (m : Bytes)
      → OneTree ts
      → Allows method path ts m
  unfolding methods_allowed tree_of
  methods_allowed_iff method path [] m one = (λ p. absurd p, λ p. absurd (cc (p.2)))
  methods_allowed_iff method path ((k, t) ∷ ts) m (new, one) = elim (Bool-cases (bytes_eq k m)) [
    | inl km ↦
        rw (km, tree_of)
          (methods_allowed-first method path k t ts m ((bytes_eq_iff k m).0 km) new
            (methods_allowed_iff method path ts m one))
    | inr km ↦
        rw (km, tree_of)
          (methods_allowed-later method path k t ts m (λ e. cc (km, (bytes_eq_iff k m).1 e))
            (methods_allowed_iff method path ts m one))
  ]

  module _ (clean : Bytes → Bytes) where
    pub handle_all-OneTree :
        (rs : List (Registration H)) (pr router : PatRouter H)
        → handle_all clean pr rs ≡ some router
        → OneTree pr.trees
        → OneTree router.trees
    unfolding handle_all
    handle_all-OneTree [] pr router e one = subst (λ p. OneTree (p.trees)) (eq_of_some e) one
    handle_all-OneTree (r ∷ rs) pr router e one =
        elim (Option-cases (handle clean pr r.method r.pattern r.handler).1) [
          | inl ok ↦
              let (t, _, trees) = handle-ok clean pr next r (ap (λ z. (next, z)) ok) in
              handle_all-OneTree rs next router (rw (ok, handle_all) at e)
                (subst OneTree (sym trees) (set_tree-OneTree r.method t pr.trees one))
          | inr (x, bad) ↦ absurd (cc (rw (bad, handle_all) at e))
        ]
      where
        next : PatRouter H
        next = (handle clean pr r.method r.pattern r.handler).0

    -- The registration `r` is one of `rs` for the method, and matches the path with `ps`.
    abbrev pub Matches :
        List (Registration H) → Bytes → Bytes → Registration H → List (Bytes × Bytes) → Type 0
    Matches rs method path r ps =
        Among r rs × (r.method ≡ method) × (route_matches (clean r.pattern) (clean path) ≡ some ps)

    pub entries-Added :
        (m p : Bytes) (h : H) (rs : List (Registration H))
        → Added p h (entries clean m rs)
        → (r : Registration H) × Among r rs
          × (r.method ≡ m)
          × (clean r.pattern ≡ p)
          × (r.handler ≡ h)
    unfolding entries
    entries-Added m p h [] added = absurd added
    entries-Added m p h (r ∷ rs) added = elim (Bool-cases (bytes_eq r.method m)) [
      | inl same ↦ elim (rw (same, entries) at added) [
        | inl (here, item) ↦ (r, inl refl, (bytes_eq_iff r.method m).0 same, sym here, sym item)
        | inr later ↦ let (x, at, a, b, c) = entries-Added m p h rs later in (x, inr at, a, b, c)
      ]
      | inr other ↦
          let (x, at, a, b, c) = entries-Added m p h rs (rw (other, entries) at added) in
          (x, inr at, a, b, c)
    ]

    pub Added-entries :
        (r : Registration H) (rs : List (Registration H))
        → Among r rs
        → Added (clean r.pattern) r.handler (entries clean r.method rs)
    unfolding entries
    Added-entries r [] at = absurd at
    Added-entries r (x ∷ rs) (inl here) =
        subst (λ y. Added (clean y.pattern) y.handler (entries clean y.method (x ∷ rs))) (sym here)
          itself
      where
        itself : Added (clean x.pattern) x.handler (entries clean x.method (x ∷ rs))
        itself = rw ((bytes_eq_iff x.method x.method).1 refl) (inl (refl, refl))
    Added-entries r (x ∷ rs) (inr later) = elim (Bool-cases (bytes_eq x.method r.method)) [
      | inl same ↦ rw same (inr (Added-entries r rs later))
      | inr other ↦ rw other (Added-entries r rs later)
    ]
