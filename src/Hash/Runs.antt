-- ===== src/Hash/Runs.antt =====
-- Sequences of calls, and what `Get` answers after them.
use go_zero.Prelude.{
  ℕ, ◌≡◌, ◌⊎◌, inl, inr, refl, sym, ap, ◌∙◌, true, false, lookup, List, [], ◌∷◌, Bytes, subst, All,
  ◌*◌, ◌/◌,
}
use go_zero.Hash.{
  ConsistentHash, found, missing, point, contains_node, remove, get, add_with_replicas, add,
  add_with_weight, new_custom_consistent_hash, top_weight,
}
use go_zero.Hash.Successor.{IsSuccessor}
use go_zero.Hash.Points.{Spread, contains_node-known}
use go_zero.Hash.Gone.{Sound, remove-Without}
use go_zero.Hash.Calls.{add_with_replicas-With}
use go_zero.Hash.Nearest.{get-found, get-missing, get-cases, get-Fewer}

pub data Call (A : Type 0) : Type 0 where
  add_node_full remove_node_of : A → Call A
  add_node_replicas add_node_weight : A → ℕ → Call A

abbrev pub node_of : {A : Type 0} → Call A → A
node_of (add_node_full n) = n
node_of (remove_node_of n) = n
node_of (add_node_replicas n r) = n
node_of (add_node_weight n w) = n

module _ {A : Type 0} (hash_func : Bytes → ℕ) (repr inner_repr : A → Bytes) (itoa : ℕ → Bytes) where
  unfoldable pub step : ConsistentHash A → Call A → ConsistentHash A
  step h (add_node_full n) = add hash_func repr itoa h n
  step h (remove_node_of n) = remove hash_func repr itoa h n
  step h (add_node_replicas n r) = add_with_replicas hash_func repr itoa h n r
  step h (add_node_weight n w) = add_with_weight hash_func repr itoa h n w

  unfoldable pub run : ConsistentHash A → List (Call A) → ConsistentHash A
  run h [] = h
  run h (c ∷ calls) = run (step h c) calls

  module _ (Used : Bytes → Type 0) where
    -- The nodes of the calls are in use.
    abbrev pub AllUsed : List (Call A) → Type 0
    AllUsed = All (λ c. Used (repr (node_of c)))

    record Kept (h h' : ConsistentHash A) : Type 0 where
      sound : Sound hash_func repr itoa Used h'
      same_replicas : h'.replicas ≡ h.replicas

    module _ (h : ConsistentHash A) (sound : Sound hash_func repr itoa Used h)
        (spread : Spread hash_func repr itoa Used h.replicas) where
      add-Kept :
          (n : A) (r : ℕ) → Used (repr n) → Kept h (add_with_replicas hash_func repr itoa h n r)
      add-Kept n r used =
          let gone = remove-Without hash_func repr itoa Used h n sound spread used in
          let w = add_with_replicas-With hash_func repr itoa Used h n sound spread used r in
          record { sound = w.sound; same_replicas = w.same_replicas ∙ gone.same_replicas }

      step-Kept : (c : Call A) → Used (repr (node_of c)) → Kept h (step h c)
      unfolding step add add_with_weight
      step-Kept (add_node_full n) used = add-Kept n h.replicas used
      step-Kept (remove_node_of n) used =
          let gone = remove-Without hash_func repr itoa Used h n sound spread used in
          record { sound = gone.sound; same_replicas = gone.same_replicas }
      step-Kept (add_node_replicas n r) used = add-Kept n r used
      step-Kept (add_node_weight n w) used = add-Kept n (h.replicas * w / top_weight) used

    run-Kept :
        (h : ConsistentHash A) (calls : List (Call A))
        → Sound hash_func repr itoa Used h
        → Spread hash_func repr itoa Used h.replicas
        → AllUsed calls
        → Kept h (run h calls)
    unfolding run
    run-Kept h [] sound spread used = record { sound = sound; same_replicas = refl }
    run-Kept h (c ∷ calls) sound spread (used, later) =
        let one = step-Kept h sound spread c used in
        let rest =
          run-Kept (step h c) calls one.sound
            (subst (λ r. Spread hash_func repr itoa Used r) (sym one.same_replicas) spread) later in
        record { sound = rest.sound; same_replicas = rest.same_replicas ∙ one.same_replicas }

    new-Sound : (n : ℕ) → Sound hash_func repr itoa Used (new_custom_consistent_hash n)
    unfolding new_custom_consistent_hash lookup
    new-Sound n = record {
      placed = record { owned = λ k a. absurd a; free = λ k away. refl };
      up = tt;
    }

    module _ (initial : ℕ) (calls : List (Call A))
        (spread : Spread hash_func repr itoa Used
          (new_custom_consistent_hash {A = A} initial).replicas)
        (all_used : AllUsed calls) where
      abbrev reached : ConsistentHash A
      reached = run (new_custom_consistent_hash initial) calls

      reached-Sound : Sound hash_func repr itoa Used reached
      reached-Sound =
          (run-Kept (new_custom_consistent_hash initial) calls (new-Sound initial) spread
            all_used).sound

      reached-Spread : Spread hash_func repr itoa Used reached.replicas
      reached-Spread =
          subst (λ r. Spread hash_func repr itoa Used r)
            (sym
              (run-Kept (new_custom_consistent_hash initial) calls (new-Sound initial) spread
                all_used).same_replicas)
            spread

      -- After any calls on nodes of which no two points have one hash, `Get` finds no node where
      -- there is no key, and otherwise a node that is contained and has a point at the successor of
      -- the hash of the value.
      pub run-get :
          (v : A)
          → ((run (new_custom_consistent_hash initial) calls).keys ≡ []
              × get hash_func repr inner_repr (run (new_custom_consistent_hash initial) calls) v
                ≡ missing)
            ⊎ ((n : A) × (i : ℕ) × (get hash_func repr inner_repr
                    (run (new_custom_consistent_hash initial) calls)
                    v
                  ≡ found n)
                × (contains_node (run (new_custom_consistent_hash initial) calls) (repr n) ≡ true)
                × IsSuccessor
                    (run (new_custom_consistent_hash initial) calls).keys
                    (hash_func (repr v))
                    (point hash_func itoa (repr n) i))
      run-get v = elim (get-cases hash_func repr inner_repr itoa Used reached reached-Sound v) [
        | inl e ↦ inl (e, get-missing hash_func repr inner_repr itoa Used reached reached-Sound v e)
        | inr (k, next, o) ↦ inr (
          o.node,
          o.replica,
          get-found hash_func repr inner_repr itoa Used reached reached-Sound v k next o,
          contains_node-known reached (repr o.node) o.kept,
          subst (IsSuccessor reached.keys (hash_func (repr v))) (sym o.hashed) next,
        )
      ]

      -- No two points of the nodes in use have one hash. After any calls on nodes in use, `Remove` of
      -- one of them changes what `Get` answers only for the values that were with that node.
      pub get-remove :
          (n v : A)
          → Used (repr n)
          → (get hash_func repr inner_repr
                (remove hash_func repr itoa (run (new_custom_consistent_hash initial) calls) n)
                v
              ≡ get hash_func repr inner_repr (run (new_custom_consistent_hash initial) calls) v)
            ⊎ ((m : A) × (get hash_func repr inner_repr
                    (run (new_custom_consistent_hash initial) calls)
                    v
                  ≡ found m)
                × (repr m ≡ repr n))
      get-remove n v used =
          let w =
            remove-Without hash_func repr itoa Used reached n reached-Sound reached-Spread used in
          get-Fewer hash_func repr inner_repr itoa Used (repr n) reached
            (remove hash_func repr itoa reached n) v reached-Sound w.sound w.fewer reached-Spread
            used

      remove-new :
          (n : A)
          → contains_node reached (repr n) ≡ false
          → remove hash_func repr itoa reached n ≡ reached
      unfolding remove
      remove-new n new = rw (new, remove) refl

      -- No two points of the nodes in use have one hash. After any calls on nodes in use,
      -- `AddWithReplicas` of one of them that is not contained changes what `Get` answers only to
      -- that node.
      pub get-add_with_replicas :
          (n v : A) (r : ℕ)
          → Used (repr n)
          → contains_node (run (new_custom_consistent_hash initial) calls) (repr n) ≡ false
          → (get hash_func repr inner_repr
                (add_with_replicas hash_func repr itoa
                  (run (new_custom_consistent_hash initial) calls)
                  n
                  r)
                v
              ≡ get hash_func repr inner_repr (run (new_custom_consistent_hash initial) calls) v)
            ⊎ ((m : A) × (get hash_func repr inner_repr
                    (add_with_replicas hash_func repr itoa
                      (run (new_custom_consistent_hash initial) calls)
                      n
                      r)
                    v
                  ≡ found m)
                × (repr m ≡ repr n))
      get-add_with_replicas n v r used new =
          let w =
            add_with_replicas-With hash_func repr itoa Used reached n reached-Sound reached-Spread
              used r in
          let gone =
            remove-Without hash_func repr itoa Used reached n reached-Sound reached-Spread used in
          let same = remove-new n new in
          elim (get-Fewer hash_func repr inner_repr itoa Used (repr n)
            (add_with_replicas hash_func repr itoa reached n r)
            (remove hash_func repr itoa reached n) v w.sound gone.sound w.more
            (subst (λ k. Spread hash_func repr itoa Used k)
              (sym (w.same_replicas ∙ gone.same_replicas)) reached-Spread)
            used) [
              | inl e ↦ inl (sym e ∙ ap (λ h. get hash_func repr inner_repr h v) same)
              | inr m ↦ inr m
            ]
