-- ===== src/Hash/Calls.antt =====
-- `AddWithReplicas` as a whole, and sequences of calls.
use go_zero.Prelude.{
  ℕ, ◌≤◌, ◌≡◌, inl, inr, refl, sym, ◌∙◌, ltb, if◌then◌else◌, Bool-cases, some, Bytes, bytes_eq,
  bytes_eq_iff, arith, lookup, lookup-insert, subst,
}
use go_zero.Hash.{
  placeholder, ConsistentHash, add_node, remove, add_points, sort_keys, add_with_replicas,
}
use go_zero.Hash.Keys.{Ascending-NoDup, sort-Among, sort-Ascending}
use go_zero.Hash.Points.{Spread, Placed, Fewer}
use go_zero.Hash.Added.{Absent, Added, add_points-Added}
use go_zero.Hash.Gone.{Sound, remove-Without}

module _ {A : Type 0} (hash_func : Bytes → ℕ) (repr : A → Bytes) (itoa : ℕ → Bytes)
    (Used : Bytes → Type 0) where
  -- What `AddWithReplicas` of the node `s` makes of those without it.
  pub record With (s : Bytes) (h h' : ConsistentHash A) : Type 0 where
    pub sound : Sound hash_func repr itoa Used h'
    pub more : Fewer hash_func repr itoa Used s h' h
    pub same_replicas : h'.replicas ≡ h.replicas

  module _ (h : ConsistentHash A) (node : A) (sound : Sound hash_func repr itoa Used h)
      (spread : Spread hash_func repr itoa Used h.replicas) (used : Used (repr node))
      (absent : Absent hash_func repr itoa Used (repr node) 0 h) (count : ℕ)
      (fits : count ≤ h.replicas) where
    known : lookup bytes_eq (repr node) (add_node h (repr node)).nodes ≡ some placeholder
    unfolding add_node
    known =
        lookup-insert bytes_eq bytes_eq_iff (repr node) (repr node) placeholder h.nodes
        ∙ rw ((bytes_eq_iff (repr node) (repr node)).1 refl) refl

    add_node-Placed : Placed hash_func repr itoa Used (add_node h (repr node))
    unfolding add_node
    add_node-Placed = record {
      owned = λ k a.
          let o = sound.placed.owned k a in
          record {
            node = o.node;
            alone = o.alone;
            replica = o.replica;
            within = o.within;
            hashed = o.hashed;
            used = o.used;
            kept =
                lookup-insert bytes_eq bytes_eq_iff (repr node) (repr o.node) placeholder h.nodes
                ∙ elim (Bool-cases (bytes_eq (repr node) (repr o.node))) [
                  | inl e ↦ rw e refl
                  | inr e ↦ rw e o.kept
                ];
          };
      free = sound.placed.free;
    }

    loop-Added :
        Added hash_func repr itoa Used
          (repr node)
          h
          (add_points hash_func repr itoa (add_node h (repr node)) node 0 count)
    unfolding add_node
    loop-Added =
        let a =
          add_points-Added hash_func repr itoa Used count 0 (add_node h (repr node)) node
            add_node-Placed (Ascending-NoDup h.keys sound.up) spread (omega arith) used known
            absent in
        record {
          placed = a.placed;
          once = a.once;
          more = record { still = a.more.still; unchanged = a.more.unchanged; rest = a.more.rest };
          same_replicas = a.same_replicas;
        }

    joins-With :
        With
          (repr node)
          h
          (sort_keys (add_points hash_func repr itoa (add_node h (repr node)) node 0 count))
    unfolding sort_keys
    joins-With =
        let a = loop-Added in
        let h' = add_points hash_func repr itoa (add_node h (repr node)) node 0 count in
        let sorted = λ (k : ℕ). sort-Among k h'.keys in
        record {
          sound = record {
            placed = record {
              owned = λ k b.
                  let o = a.placed.owned k ((sorted k).0 b) in
                  record {
                    node = o.node;
                    alone = o.alone;
                    replica = o.replica;
                    within = o.within;
                    hashed = o.hashed;
                    used = o.used;
                    kept = o.kept;
                  };
              free = λ k away. a.placed.free k (λ b. away ((sorted k).1 b));
            };
            up = sort-Ascending h'.keys a.once;
          };
          more = record {
            still = λ k b. (sorted k).1 (a.more.still k b);
            unchanged = a.more.unchanged;
            rest = λ k b. a.more.rest k ((sorted k).0 b);
          };
          same_replicas = a.same_replicas;
        }

  module _ (h : ConsistentHash A) (node : A) (sound : Sound hash_func repr itoa Used h)
      (spread : Spread hash_func repr itoa Used h.replicas) (used : Used (repr node)) where
    pub add_with_replicas-With :
        (replicas : ℕ)
        → With
            (repr node)
            (remove hash_func repr itoa h node)
            (add_with_replicas hash_func repr itoa h node replicas)
    unfolding add_with_replicas
    add_with_replicas-With replicas =
        let w = remove-Without hash_func repr itoa Used h node sound spread used in
        joins-With (remove hash_func repr itoa h node) node w.sound
          (subst (λ r. Spread hash_func repr itoa Used r) (sym w.same_replicas) spread) used
          w.absent
          (if ltb (remove hash_func repr itoa h node).replicas replicas
            then (remove hash_func repr itoa h node).replicas
            else replicas)
          (ground arith)
