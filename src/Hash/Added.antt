-- ===== src/Hash/Added.antt =====
-- The loop of `AddWithReplicas`: the points of a new node join the others.
use go_zero.Prelude.{
  ℕ, zero, suc, ◌+◌, ◌≤◌, ◌<◌, ◌≡◌, inl, inr, refl, sym, some, Bytes, bytes_eq, arith, lookup,
  Among, Among-append, NoDup, NoDup-snoc,
}
use go_zero.Hash.{placeholder, ConsistentHash, add_point, add_points}
use go_zero.Hash.Points.{
  point_of, Spread, Placed, Fewer, Fewer-refl, Fewer-trans, add_point-Placed, add_point-Fewer,
}

module _ {A : Type 0} (hash_func : Bytes → ℕ) (repr : A → Bytes) (itoa : ℕ → Bytes)
    (Used : Bytes → Type 0) where
  -- None of the points of `s` from replica `i` on is a key.
  abbrev pub Absent : Bytes → ℕ → ConsistentHash A → Type 0
  Absent s i h =
      (j : ℕ) → i ≤ j → j < h.replicas → ¬ Among (point_of hash_func repr itoa Used s j) h.keys

  pub record Added (s : Bytes) (h h' : ConsistentHash A) : Type 0 where
    pub placed : Placed hash_func repr itoa Used h'
    pub once : NoDup h'.keys
    pub more : Fewer hash_func repr itoa Used s h' h
    pub same_replicas : h'.replicas ≡ h.replicas

  pub add_points-Added :
      (n i : ℕ) (h : ConsistentHash A) (node : A)
      → Placed hash_func repr itoa Used h
      → NoDup h.keys
      → Spread hash_func repr itoa Used h.replicas
      → i + n ≤ h.replicas
      → Used (repr node)
      → lookup bytes_eq (repr node) h.nodes ≡ some placeholder
      → Absent (repr node) i h
      → Added (repr node) h (add_points hash_func repr itoa h node i n)
  unfolding add_points add_point
  add_points-Added zero i h node placed once spread fits used known absent = record {
    placed = placed;
    once = once;
    more = Fewer-refl hash_func repr itoa Used (repr node) h;
    same_replicas = refl;
  }
  add_points-Added (suc n) i h node placed once spread fits used known absent =
      let s = repr node in
      let h' = add_point hash_func repr itoa h node i in
      let new = absent i (omega arith) (omega arith) in
      let rest =
        add_points-Added n (suc i) h' node
          (add_point-Placed hash_func repr itoa Used h node i placed (omega arith) used known new)
          (NoDup-snoc h.keys _ once new) spread (omega arith) used known
          (λ j from lt a. elim ((Among-append _ h.keys _).0 a) [
            | inl b ↦ absent j (omega arith) lt b
            | inr c ↦ elim c [
              | inl e ↦
                  let same = (spread s s j i used used lt (omega arith) e).1 in absurd (omega arith)
              | inr d ↦ d
            ]
          ]) in
      record {
        placed = rest.placed;
        once = rest.once;
        more =
            Fewer-trans hash_func repr itoa Used s
              (add_points hash_func repr itoa h' node (suc i) n) h' h (sym rest.same_replicas)
              rest.more
              (add_point-Fewer hash_func repr itoa Used h node i placed (omega arith) used known
                new);
        same_replicas = rest.same_replicas;
      }
