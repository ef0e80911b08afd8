-- ===== src/Router/Built.antt =====
-- The trees of a router that was built by calls of `Handle`.
use go_zero.Prelude.{
  ◌≡◌, refl, sym, ap, subst, ◌∙◌, inl, inr, if◌then◌else◌, List, [], ◌∷◌, ◌++◌, Option, none, some,
  Bytes, bytes_eq, bytes_eq_iff, arith, Bool-cases, eq_of_some, Option-cases, append-nil,
  append_assoc,
}
use go_zero.Search.{Node, new_node, Result}
use go_zero.Search
use go_zero.Search.Routes.{add_all}
use go_zero.Router.{
  PatRouter, HandleError, tree_of, set_tree, or_new_tree, as_error, handle, valid_method,
  starts_with_slash,
}

-- A call of `Handle`.
pub record Registration (H : Type 0) : Type 0 where
  pub method : Bytes
  pub pattern : Bytes
  pub handler : H

as_error-none : (o : Option Search.Error) → as_error o ≡ none → o ≡ none
as_error-none none e = refl
as_error-none (some x) e = cc

module _ {H : Type 0} where
  pub tree_of-set_tree :
      (m j : Bytes) (t : Node H) (ts : List (Bytes × Node H))
      → tree_of m (set_tree j t ts) ≡ (if bytes_eq j m then some t else tree_of m ts)
  unfolding tree_of set_tree
  tree_of-set_tree m j t [] = refl
  tree_of-set_tree m j t ((k, u) ∷ ts) =
      ground
        (arith, bytes_eq_iff k j, bytes_eq_iff k m, bytes_eq_iff j m, tree_of-set_tree m j t ts)

  add_all-snoc :
      (rs : List (Bytes × H)) (n t t' : Node H) (p : Bytes) (h : H)
      → add_all n rs ≡ some t
      → Search.add t p (some h) ≡ (t', none)
      → add_all n (rs ++ ((p, h) ∷ [])) ≡ some t'
  unfolding add_all
  add_all-snoc [] n t t' p h e added =
      let q : Search.add n p (some h) ≡ (t', none) =
        ap (λ m. Search.add m p (some h)) (eq_of_some e) ∙ added in
      rw (ap (λ z. z.1) q, add_all) (ap (λ z. some (z.0)) q)
  add_all-snoc ((q, i) ∷ rs) n t t' p h e added = elim (Option-cases (Search.add n q (some i)).1) [
    | inl ok ↦
        rw (ok, add_all)
          (add_all-snoc rs (Search.add n q (some i)).0 t t' p h (rw (ok, add_all) at e) added)
    | inr (x, bad) ↦ absurd (cc (rw (bad, add_all) at e))
  ]

  module _ (clean : Bytes → Bytes) where
    -- The calls of `Handle` in turn; `none` if one of them fails.
    unfoldable pub handle_all : PatRouter H → List (Registration H) → Option (PatRouter H)
    handle_all pr [] = some pr
    handle_all pr (r ∷ rs) =
        let (pr', err) = handle clean pr r.method r.pattern r.handler in
        elim err [ none ↦ handle_all pr' rs | some _ ↦ none ]

    -- The cleaned patterns of one method, with their handlers.
    unfoldable pub entries : Bytes → List (Registration H) → List (Bytes × H)
    entries m [] = []
    entries m (r ∷ rs) =
        if bytes_eq r.method m then (clean r.pattern, r.handler) ∷ entries m rs else entries m rs

    -- The tree of every method holds the entries of that method.
    abbrev pub Holds : (Bytes → List (Bytes × H)) → PatRouter H → Type 0
    Holds before pr =
        (m : Bytes) → add_all (new_node none) (before m) ≡ some (or_new_tree (tree_of m pr.trees))

    -- A successful `Handle` adds one entry.
    pub handle-ok :
        (pr pr' : PatRouter H) (r : Registration H)
        → handle clean pr r.method r.pattern r.handler ≡ (pr', none)
        → (t : Node H) × (Search.add
              (or_new_tree (tree_of r.method pr.trees))
              (clean r.pattern)
              (some r.handler)
            ≡ (t, none))
          × (pr'.trees ≡ set_tree r.method t pr.trees)
    unfolding handle
    handle-ok pr pr' r e = elim (Bool-cases (valid_method r.method)) [
      | inr bad ↦ absurd (cc (rw (bad, handle) at e))
      | inl valid ↦ elim (Bool-cases (starts_with_slash r.pattern)) [
        | inr bad ↦ absurd (cc (rw (bad, handle) at (rw (valid, handle) at e)))
        | inl rooted ↦ made (rw (rooted, handle) at (rw (valid, handle) at e))
      ]
    ]
      where
        a : Node H × Option Search.Error
        a = Search.add (or_new_tree (tree_of r.method pr.trees)) (clean r.pattern) (some r.handler)

        made :
            ◌≡◌ {A = PatRouter H × Option HandleError}
              (record pr { trees = set_tree r.method a.0 pr.trees }, as_error a.1)
              (pr', none)
            → (t : Node H) × (a ≡ (t, none)) × (pr'.trees ≡ set_tree r.method t pr.trees)
        made q = (
          a.0,
          ap (λ z. (a.0, z)) (as_error-none a.1 (ap (λ z. z.1) q)),
          sym (ap (λ z. z.0.trees) q),
        )

    handle-Holds :
        (pr pr' : PatRouter H) (r : Registration H) (before : Bytes → List (Bytes × H))
        → handle clean pr r.method r.pattern r.handler ≡ (pr', none)
        → Holds before pr
        → Holds (λ m. before m ++ entries m (r ∷ [])) pr'
    unfolding entries
    handle-Holds pr pr' r before e holds m =
        let (t, added, trees) = handle-ok pr pr' r e in
        elim (Bool-cases (bytes_eq r.method m)) [
          | inl same ↦
              let named' : r.method ≡ m = (bytes_eq_iff r.method m).0 same in
              rw same (
                add_all-snoc (before m) (new_node none) (or_new_tree (tree_of m pr.trees)) t
                  (clean r.pattern) r.handler (holds m)
                  (subst
                    (λ k.
                      Search.add (or_new_tree (tree_of k pr.trees)) (clean r.pattern)
                        (some r.handler)
                      ≡ (t, none))
                    named' added)
                ∙ ap (λ o. some (or_new_tree o)) (sym (rw same at (now t trees))))
          | inr other ↦ rw other (
              ap (add_all (new_node none)) (append-nil (before m))
              ∙ holds m
              ∙ ap (λ o. some (or_new_tree o)) (sym (rw other at (now t trees))))
        ]
      where
        now :
            (t : Node H)
            → pr'.trees ≡ set_tree r.method t pr.trees
            → tree_of m pr'.trees ≡ (if bytes_eq r.method m then some t else tree_of m pr.trees)
        now t trees = ap (tree_of m) trees ∙ tree_of-set_tree m r.method t pr.trees

    pub handle_all-Holds :
        (rs : List (Registration H)) (pr router : PatRouter H) (before : Bytes → List (Bytes × H))
        → handle_all pr rs ≡ some router
        → Holds before pr
        → Holds (λ m. before m ++ entries m rs) router
    unfolding handle_all entries
    handle_all-Holds [] pr router before e holds m =
        ap (add_all (new_node none)) (append-nil (before m))
        ∙ subst (Holds before) (eq_of_some e) holds m
    handle_all-Holds (r ∷ rs) pr router before e holds m =
        elim (Option-cases (handle clean pr r.method r.pattern r.handler).1) [
          | inl ok ↦
              ap (add_all (new_node none)) (split m)
              ∙ handle_all-Holds rs next router (λ k. before k ++ entries k (r ∷ []))
                  (rw (ok, handle_all) at e)
                  (handle-Holds pr next r before (ap (λ z. (next, z)) ok) holds) m
          | inr (x, bad) ↦ absurd (cc (rw (bad, handle_all) at e))
        ]
      where
        next : PatRouter H
        next = (handle clean pr r.method r.pattern r.handler).0

        split :
            (k : Bytes)
            → before k ++ entries k (r ∷ rs) ≡ (before k ++ entries k (r ∷ [])) ++ entries k rs
        split k = elim (Bool-cases (bytes_eq r.method k)) [
          | inl same ↦
              rw same
                (sym (append_assoc (before k) ((clean r.pattern, r.handler) ∷ []) (entries k rs)))
          | inr other ↦ rw other (ap (◌++ entries k rs) (sym (append-nil (before k))))
        ]
