-- ===== src/Hash/Gone.antt =====
-- `Remove` as a whole.
use go_zero.Prelude.{
  ℕ, ◌<◌, ◌≡◌, ◌≢◌, inl, inr, refl, sym, ap, ◌∙◌, Bool-cases, false, some, Bytes, bytes_eq,
  bytes_eq_iff, arith, lookup, lookup-erase, Among, subst,
}
use go_zero.Hash.{
  placeholder, ConsistentHash, point, contains_node, remove_node, remove_points, remove,
}
use go_zero.Hash.Keys.{Ascending}
use go_zero.Hash.Points.{contains_node-known, Spread, Placed, Fewer, Fewer-refl}
use go_zero.Hash.Added.{Absent}
use go_zero.Hash.Removed.{remove_points-Removed}

bytes_eq_other : (s t : Bytes) → s ≢ t → bytes_eq s t ≡ false
bytes_eq_other s t h = elim (Bool-cases (bytes_eq s t)) [
  | inl e ↦ absurd (h ((bytes_eq_iff s t).0 e))
  | inr e ↦ e
]

module _ {A : Type 0} (hash_func : Bytes → ℕ) (repr : A → Bytes) (itoa : ℕ → Bytes)
    (Used : Bytes → Type 0) where
  pub record Sound (h : ConsistentHash A) : Type 0 where
    pub placed : Placed hash_func repr itoa Used h
    pub up : Ascending h.keys

  -- What `Remove` of a node makes of `h`.
  pub record Without (s : Bytes) (h h' : ConsistentHash A) : Type 0 where
    pub sound : Sound h'
    pub fewer : Fewer hash_func repr itoa Used s h h'
    pub same_replicas : h'.replicas ≡ h.replicas
    pub absent : Absent hash_func repr itoa Used s 0 h'

  module _ (h : ConsistentHash A) (node : A) (sound : Sound h)
      (spread : Spread hash_func repr itoa Used h.replicas) (used : Used (repr node)) where
    -- A node that is not contained has no point.
    stays-Without : contains_node h (repr node) ≡ false → Without (repr node) h h
    stays-Without e = record {
      sound = sound;
      fewer = Fewer-refl hash_func repr itoa Used (repr node) h;
      same_replicas = refl;
      absent = λ j from lt a.
          let o = sound.placed.owned _ a in
          let same =
            (spread (repr o.node) (repr node) o.replica j o.used used o.within lt o.hashed).0 in
          let known = subst (λ x. lookup bytes_eq x h.nodes ≡ some placeholder) same o.kept in
          cc (contains_node-known h (repr node) known, e);
    }

    goes-Without :
        Without
          (repr node)
          h
          (remove_node (remove_points hash_func repr itoa h (repr node) 0 h.replicas) (repr node))
    unfolding remove_node
    goes-Without =
        let s = repr node in
        let r =
          remove_points-Removed hash_func repr itoa Used h.replicas 0 h s sound.placed sound.up
            spread (omega arith) used in
        record {
          sound = record {
            placed = record {
              owned = λ k a.
                  let o = r.placed.owned k a in
                  let other : s ≢ repr o.node = λ e.
                    r.gone o.replica (omega arith)
                      (let inside = subst (λ x. o.replica < x) r.same_replicas o.within in
                        omega arith)
                      (subst
                        (λ x. Among x (remove_points hash_func repr itoa h s 0 h.replicas).keys)
                        (sym o.hashed ∙ ap (λ t. point hash_func itoa t o.replica) (sym e)) a) in
                  record {
                    node = o.node;
                    alone = o.alone;
                    replica = o.replica;
                    within = o.within;
                    hashed = o.hashed;
                    used = o.used;
                    kept =
                        lookup-erase bytes_eq bytes_eq_iff s (repr o.node) _
                        ∙ rw (bytes_eq_other s (repr o.node) other) o.kept;
                  };
              free = r.placed.free;
            };
            up = r.up;
          };
          fewer = record {
            still = r.fewer.still;
            unchanged = r.fewer.unchanged;
            rest = r.fewer.rest;
          };
          same_replicas = r.same_replicas;
          absent = λ j from lt.
              r.gone j from (let inside = subst (λ x. j < x) r.same_replicas lt in omega arith);
        }

    pub remove-Without : Without (repr node) h (remove hash_func repr itoa h node)
    unfolding remove
    remove-Without = elim (Bool-cases (contains_node h (repr node))) [
      | inl e ↦ rw e goes-Without
      | inr e ↦ rw e (stays-Without e)
    ]
