-- ===== src/Hash/Removed.antt =====
-- The loop of `Remove`: the points of a node go, and all others stay.
use go_zero.Prelude.{
  ℕ, zero, suc, ◌+◌, ◌≤◌, ◌<◌, ◌≡◌, ◌≢◌, ◌⊎◌, inl, inr, refl, sym, ap, ◌∙◌, ◌==◌, if◌then◌else◌,
  Bool-cases, [], ◌∷◌, none, Bytes, bytes_eq_iff, arith, lookup, lookup-erase, Among, ==_iff, subst,
}
use go_zero.Hash.{ConsistentHash, point, others, remove_ring_node, remove_point, remove_points}
use go_zero.Hash.Keys.{Among-cases, Ascending, cut_key-Among, cut_key-Ascending}
use go_zero.Hash.Points.{point_of, Spread, Placed, Fewer, Fewer-refl, Fewer-trans, differ}

module _ {A : Type 0} (hash_func : Bytes → ℕ) (repr : A → Bytes) (itoa : ℕ → Bytes)
    (Used : Bytes → Type 0) where
  order_cases : (i j : ℕ) → i ≤ j → (i ≡ j) ⊎ (suc i ≤ j)
  order_cases i j h = ground arith

  others_self : (s : Bytes) (node : A) → repr node ≡ s → others repr s (node ∷ []) ≡ []
  unfolding others
  others_self s node e = rw ((bytes_eq_iff (repr node) s).1 e) refl

  pub record Removed (s : Bytes) (i n : ℕ) (h h' : ConsistentHash A) : Type 0 where
    pub placed : Placed hash_func repr itoa Used h'
    pub up : Ascending h'.keys
    pub fewer : Fewer hash_func repr itoa Used s h h'
    pub same_replicas : h'.replicas ≡ h.replicas
    pub same_nodes : h'.nodes ≡ h.nodes
    pub gone : (j : ℕ) → i ≤ j → j < i + n → ¬ Among (point_of hash_func repr itoa Used s j) h'.keys

  module _ (h : ConsistentHash A) (s : Bytes) (i : ℕ) (placed : Placed hash_func repr itoa Used h)
      (up : Ascending h.keys) (spread : Spread hash_func repr itoa Used h.replicas)
      (within : i < h.replicas) (used : Used s) where
    -- The node of the point is the only one there.
    lookup-remove_ring_node :
        (k : ℕ)
        → lookup ◌==◌ k (remove_ring_node repr h.ring (point hash_func itoa s i) s)
          ≡ (if point hash_func itoa s i == k then none else lookup ◌==◌ k h.ring)
    unfolding remove_ring_node
    lookup-remove_ring_node k = elim (Among-cases (point hash_func itoa s i) h.keys) [
      | inl a ↦
          let o = placed.owned (point hash_func itoa s i) a in
          let self = (spread (repr o.node) s o.replica i o.used used o.within within o.hashed).0 in
          rw (o.alone, others_self s o.node self, remove_ring_node)
            (lookup-erase ◌==◌ ==_iff (point hash_func itoa s i) k h.ring)
      | inr na ↦
          let none_there = placed.free (point hash_func itoa s i) na in
          rw (none_there, remove_ring_node)
            (elim (Bool-cases (point hash_func itoa s i == k)) [
              | inl e ↦ rw e (
                  subst (λ x. lookup ◌==◌ x h.ring ≡ none)
                    ((==_iff (point hash_func itoa s i) k).0 e) none_there)
              | inr e ↦ rw e refl
            ])
    ]

    lookup-others :
        (k : ℕ)
        → k ≢ point hash_func itoa s i
        → lookup ◌==◌ k (remove_ring_node repr h.ring (point hash_func itoa s i) s)
          ≡ lookup ◌==◌ k h.ring
    lookup-others k other =
        lookup-remove_ring_node k
        ∙ rw (differ (point hash_func itoa s i) k (λ e. other (sym e))) refl

    pub remove_point-Removed : Removed s i 1 h (remove_point hash_func repr itoa h s i)
    unfolding remove_point
    remove_point-Removed =
        let p = point hash_func itoa s i in
        let here = λ (k : ℕ). cut_key-Among k p h.keys up in
        record {
          placed = record {
            owned = λ k a.
                let o = placed.owned k ((here k).0 a).0 in
                record {
                  node = o.node;
                  alone = lookup-others k ((here k).0 a).1 ∙ o.alone;
                  replica = o.replica;
                  within = o.within;
                  hashed = o.hashed;
                  used = o.used;
                  kept = o.kept;
                };
            free = λ k away. elim (Bool-cases (p == k)) [
              | inl e ↦ lookup-remove_ring_node k ∙ rw e refl
              | inr e ↦
                  let other : k ≢ p = λ q. cc (e, (==_iff p k).1 (sym q)) in
                  lookup-others k other ∙ placed.free k (λ a. away ((here k).1 (a, other)))
            ];
          };
          up = cut_key-Ascending p h.keys up;
          fewer = record {
            still = λ k a. ((here k).0 a).0;
            unchanged = λ k a. lookup-others k ((here k).0 a).1;
            rest = λ k a. elim (Bool-cases (p == k)) [
              | inl e ↦ inr (i, within, (==_iff p k).0 e)
              | inr e ↦ inl ((here k).1 (a, λ q. cc (e, (==_iff p k).1 (sym q))))
            ];
          };
          same_replicas = refl;
          same_nodes = refl;
          gone = λ j from to a. ((here _).0 a).1 (ap (λ x. point hash_func itoa s x) (omega arith));
        }

  pub remove_points-Removed :
      (n i : ℕ) (h : ConsistentHash A) (s : Bytes)
      → Placed hash_func repr itoa Used h
      → Ascending h.keys
      → Spread hash_func repr itoa Used h.replicas
      → i + n ≤ h.replicas
      → Used s
      → Removed s i n h (remove_points hash_func repr itoa h s i n)
  unfolding remove_points remove_point
  remove_points-Removed zero i h s placed up spread fits used = record {
    placed = placed;
    up = up;
    fewer = Fewer-refl hash_func repr itoa Used s h;
    same_replicas = refl;
    same_nodes = refl;
    gone = λ j from to a. absurd (omega arith);
  }
  remove_points-Removed (suc n) i h s placed up spread fits used =
      let one = remove_point-Removed h s i placed up spread (omega arith) used in
      let h' = remove_point hash_func repr itoa h s i in
      let h'' = remove_points hash_func repr itoa h' s (suc i) n in
      let rest = remove_points-Removed n (suc i) h' s one.placed one.up spread (omega arith) used in
      record {
        placed = rest.placed;
        up = rest.up;
        fewer = Fewer-trans hash_func repr itoa Used s h h' h'' refl one.fewer rest.fewer;
        same_replicas = rest.same_replicas;
        same_nodes = rest.same_nodes;
        gone = λ j from to a. elim (order_cases i j from) [
          | inl e ↦ one.gone j from (omega arith) (rest.fewer.still _ a)
          | inr later ↦ rest.gone j later (omega arith) a
        ];
      }
