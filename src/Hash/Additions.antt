-- ===== src/Hash/Additions.antt =====
-- Sequences of additions of new nodes, and what `Get` answers after them, whatever the hash is.
use go_zero.Prelude.{
  ℕ, ◌*◌, ◌/◌, ◌%◌, ◌<◌, ◌≡◌, ◌⊎◌, inl, inr, refl, sym, ◌∙◌, true, false, List, [], ◌∷◌, Bytes,
  length, get_or, arith, lookup, Among, subst,
}
use go_zero.Hash.{
  ConsistentHash, found, missing, nodes_at, point, contains_node, add, add_with_weight,
  new_custom_consistent_hash, choose, get, search, top_weight,
}
use go_zero.Hash.Successor.{IsSuccessor, search-IsSuccessor, Among-successor, positive}
use go_zero.Hash.Points.{length-some, length-free, contains_node-known}
use go_zero.Hash.Shared.{Belongs, Held, Filled, choose-All, add_with_replicas-Filled}
use go_zero.Hash.Runs.{
  Call, add_node_full, remove_node_of, add_node_replicas, add_node_weight, step, run,
}

module _ {A : Type 0} (hash_func : Bytes → ℕ) (repr inner_repr : A → Bytes) (itoa : ℕ → Bytes) where
  -- The call adds a node that is not contained.
  abbrev pub AddsNew : ConsistentHash A → Call A → Type 0
  AddsNew h (add_node_full n) = contains_node h (repr n) ≡ false
  AddsNew h (add_node_replicas n r) = contains_node h (repr n) ≡ false
  AddsNew h (add_node_weight n w) = contains_node h (repr n) ≡ false
  AddsNew h (remove_node_of n) = ⊥

  -- Each call does, at the state it is made in.
  abbrev pub AllAddNew : ConsistentHash A → List (Call A) → Type 0
  AllAddNew h [] = Unit
  AllAddNew h (c ∷ calls) = AddsNew h c × AllAddNew (step hash_func repr inner_repr itoa h c) calls

  step-Filled :
      (h : ConsistentHash A) (c : Call A)
      → Filled hash_func repr itoa h
      → AddsNew h c
      → Filled hash_func repr itoa (step hash_func repr inner_repr itoa h c)
  unfolding step add add_with_weight
  step-Filled h (add_node_full n) filled new =
      add_with_replicas-Filled hash_func repr itoa h n h.replicas filled new
  step-Filled h (add_node_replicas n r) filled new =
      add_with_replicas-Filled hash_func repr itoa h n r filled new
  step-Filled h (add_node_weight n w) filled new =
      add_with_replicas-Filled hash_func repr itoa h n (h.replicas * w / top_weight) filled new
  step-Filled h (remove_node_of n) filled new = absurd new

  run-Filled :
      (h : ConsistentHash A) (calls : List (Call A))
      → Filled hash_func repr itoa h
      → AllAddNew h calls
      → Filled hash_func repr itoa (run hash_func repr inner_repr itoa h calls)
  unfolding run
  run-Filled h [] filled new = filled
  run-Filled h (c ∷ calls) filled (first, later) =
      run-Filled (step hash_func repr inner_repr itoa h c) calls (step-Filled h c filled first)
        later

  new-Filled : (n : ℕ) → Filled hash_func repr itoa (new_custom_consistent_hash n)
  unfolding new_custom_consistent_hash lookup
  new-Filled n = record {
    pointed = record { held = λ k a. absurd a; free = λ k gone. refl };
    up = tt;
  }

  module _ (h : ConsistentHash A) (filled : Filled hash_func repr itoa h) (v : A) where
    -- Where there is a key, `Get` chooses among the nodes of the successor.
    get-choose :
        (k : ℕ)
        → k ≡ get_or h.keys (search h.keys (hash_func (repr v)) % length h.keys) 0
        → 0 < length h.keys
        → (there : Held hash_func repr itoa h k)
        → get hash_func repr inner_repr h v ≡ choose hash_func repr inner_repr there.nodes v
    unfolding get nodes_at
    get-choose k is some_key there =
        rw
          (
            positive (length h.ring) (length-some k h.ring there.nodes there.at),
            positive (length h.keys) some_key,
            sym is,
            there.at,
            nodes_at,
          )
          refl

    get-missing : h.keys ≡ [] → get hash_func repr inner_repr h v ≡ missing
    unfolding get
    get-missing e =
        rw (length-free h.ring (λ k. filled.pointed.free k (λ a. subst (Among k) e a))) refl

    get-answers :
        (h.keys ≡ [] × get hash_func repr inner_repr h v ≡ missing)
        ⊎ ((n : A) × (i : ℕ) × (get hash_func repr inner_repr h v ≡ found n)
            × (contains_node h (repr n) ≡ true)
            × IsSuccessor h.keys (hash_func (repr v)) (point hash_func itoa (repr n) i))
    get-answers = elim (keys_cases h.keys) [
      | inl e ↦ inl (e, get-missing e)
      | inr some_key ↦
          let hash = hash_func (repr v) in
          let next = search-IsSuccessor hash h.keys filled.up some_key in
          let k = get_or h.keys (search h.keys hash % length h.keys) 0 in
          let there = filled.pointed.held k (Among-successor h.keys hash k next) in
          let (n, chosen, (known, i, at)) =
            choose-All hash_func repr inner_repr (Belongs hash_func repr itoa h k) there.nodes v
              there.some_node there.belong in
          inr (
            n,
            i,
            get-choose k refl some_key there ∙ chosen,
            contains_node-known h (repr n) known,
            subst (IsSuccessor h.keys hash) (sym at) next,
          )
    ]
      where
        keys_cases : (ks : List ℕ) → (ks ≡ []) ⊎ (0 < length ks)
        keys_cases [] = inl refl
        keys_cases (k ∷ ks) = inr (omega arith)

  -- Whatever the hash is, and also where nodes share points: after any calls that each add a node
  -- that is not contained at that time, `Get` finds no node where there is no key, and otherwise a
  -- node that is contained and has a point at the successor of the hash of the value.
  pub run_of_additions-get :
      (initial : ℕ) (calls : List (Call A))
      → AllAddNew (new_custom_consistent_hash initial) calls
      → (v : A)
      → let h = run hash_func repr inner_repr itoa (new_custom_consistent_hash initial) calls in
        (h.keys ≡ [] × get hash_func repr inner_repr h v ≡ missing)
        ⊎ ((n : A) × (i : ℕ) × (get hash_func repr inner_repr h v ≡ found n)
            × (contains_node h (repr n) ≡ true)
            × IsSuccessor h.keys (hash_func (repr v)) (point hash_func itoa (repr n) i))
  run_of_additions-get initial calls new v =
      get-answers (run hash_func repr inner_repr itoa (new_custom_consistent_hash initial) calls)
        (run-Filled (new_custom_consistent_hash initial) calls (new-Filled initial) new) v
