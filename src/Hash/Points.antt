-- ===== src/Hash/Points.antt =====
-- What the ring holds: one node at each key, and how the rounds of `AddWithReplicas` and of `Remove`
-- keep that, where no two points of the nodes in use have one hash.
use go_zero.Prelude.{
  ℕ, ◌<◌, ◌≡◌, ◌≢◌, ◌⊎◌, inl, inr, refl, sym, ◌∙◌, ◌==◌, if◌then◌else◌, false, [], ◌∷◌, none, some,
  Bytes, bytes_eq, arith, lookup, lookup-insert, Among, Among-append, ==_iff, ==-self, subst, List,
  true, length,
}
use go_zero.Hash.{contains_node, placeholder, ConsistentHash, nodes_at, point, add_point}

pub length-some :
    {A : Type 0} (k : ℕ) (ring : List (ℕ × List A)) (nodes : List A)
    → lookup ◌==◌ k ring ≡ some nodes
    → 0 < length ring
unfolding lookup
length-some k [] nodes e = cc
length-some k (x ∷ ring) nodes e = omega arith

pub length-free :
    {A : Type 0} (ring : List (ℕ × List A))
    → ((k : ℕ) → lookup ◌==◌ k ring ≡ none)
    → length ring ≡ 0
unfolding lookup
length-free [] free = refl
length-free ((k, nodes) ∷ ring) free = absurd (cc (rw (==-self k) at (free k)))

pub contains_node-known :
    {A : Type 0} (h : ConsistentHash A) (s : Bytes)
    → lookup bytes_eq s h.nodes ≡ some placeholder
    → contains_node h s ≡ true
unfolding contains_node
contains_node-known h s e = rw (e, contains_node) refl

pub differ : (a b : ℕ) → a ≢ b → (a == b) ≡ false
differ a b h = ground arith

module _ {A : Type 0} (hash_func : Bytes → ℕ) (repr : A → Bytes) (itoa : ℕ → Bytes)
    (Used : Bytes → Type 0) where
  abbrev pub point_of : Bytes → ℕ → ℕ
  point_of = point hash_func itoa

  -- No two points of the nodes in use have one hash.
  abbrev pub Spread : ℕ → Type 0
  Spread replicas =
      (s t : Bytes) (i j : ℕ)
      → Used s
      → Used t
      → i < replicas
      → j < replicas
      → point_of s i ≡ point_of t j
      → (s ≡ t) × (i ≡ j)

  -- The node whose point a key is.
  pub record Owner (h : ConsistentHash A) (k : ℕ) : Type 0 where
    pub node : A
    pub alone : lookup ◌==◌ k h.ring ≡ some (node ∷ [])
    pub replica : ℕ
    pub within : replica < h.replicas
    pub hashed : point_of (repr node) replica ≡ k
    pub used : Used (repr node)
    pub kept : lookup bytes_eq (repr node) h.nodes ≡ some placeholder

  pub record Placed (h : ConsistentHash A) : Type 0 where
    pub owned : (k : ℕ) → Among k h.keys → Owner h k
    pub free : (k : ℕ) → ¬ Among k h.keys → lookup ◌==◌ k h.ring ≡ none

  -- `h'` has the points of `h`, but for some points of the node `s`.
  pub record Fewer (s : Bytes) (h h' : ConsistentHash A) : Type 0 where
    pub still : (k : ℕ) → Among k h'.keys → Among k h.keys
    pub unchanged : (k : ℕ) → Among k h'.keys → lookup ◌==◌ k h'.ring ≡ lookup ◌==◌ k h.ring
    pub rest :
        (k : ℕ)
        → Among k h.keys
        → Among k h'.keys ⊎ ((j : ℕ) × (j < h.replicas) × (point_of s j ≡ k))

  pub Fewer-refl : (s : Bytes) (h : ConsistentHash A) → Fewer s h h
  Fewer-refl s h = record { still = λ k a. a; unchanged = λ k a. refl; rest = λ k a. inl a }

  pub Fewer-trans :
      (s : Bytes) (h h' h'' : ConsistentHash A)
      → h'.replicas ≡ h.replicas
      → Fewer s h h'
      → Fewer s h' h''
      → Fewer s h h''
  Fewer-trans s h h' h'' e f g = record {
    still = λ k a. f.still k (g.still k a);
    unchanged = λ k a. g.unchanged k a ∙ f.unchanged k (g.still k a);
    rest = λ k a. elim (f.rest k a) [
      | inl b ↦ elim (g.rest k b) [
        | inl c ↦ inl c
        | inr (j, lt, at) ↦ inr (j, subst (λ r. j < r) e lt, at)
      ]
      | inr c ↦ inr c
    ];
  }

  module _ (h : ConsistentHash A) (node : A) (i : ℕ) (placed : Placed h) where
    module _ (within : i < h.replicas) (used : Used (repr node))
        (known : lookup bytes_eq (repr node) h.nodes ≡ some placeholder)
        (new : ¬ Among (point_of (repr node) i) h.keys) where
      lookup-add_point :
          (k : ℕ)
          → lookup ◌==◌ k (add_point hash_func repr itoa h node i).ring
            ≡ (if point_of (repr node) i == k then some (node ∷ []) else lookup ◌==◌ k h.ring)
      unfolding add_point nodes_at
      lookup-add_point k =
          lookup-insert ◌==◌ ==_iff (point_of (repr node) i) k _ h.ring
          ∙ rw (placed.free (point_of (repr node) i) new, nodes_at) refl

      lookup-add_point_old :
          (k : ℕ)
          → Among k h.keys
          → lookup ◌==◌ k (add_point hash_func repr itoa h node i).ring ≡ lookup ◌==◌ k h.ring
      lookup-add_point_old k a =
          lookup-add_point k
          ∙ rw
              (differ (point_of (repr node) i) k (λ e. new (subst (λ x. Among x h.keys) (sym e) a)))
              refl

      pub add_point-Placed : Placed (add_point hash_func repr itoa h node i)
      unfolding add_point
      add_point-Placed = record {
        owned = λ k a. elim ((Among-append k h.keys (point_of (repr node) i ∷ [])).0 a) [
          | inl b ↦
              let o = placed.owned k b in
              record {
                node = o.node;
                alone = lookup-add_point_old k b ∙ o.alone;
                replica = o.replica;
                within = o.within;
                hashed = o.hashed;
                used = o.used;
                kept = o.kept;
              }
          | inr c ↦ elim c [
            | inl e ↦ record {
              node = node;
              alone = lookup-add_point k ∙ rw (e, ==-self) refl;
              replica = i;
              within = within;
              hashed = sym e;
              used = used;
              kept = known;
            }
            | inr d ↦ absurd d
          ]
        ];
        free = λ k gone.
            lookup-add_point k
            ∙ rw
                (differ (point_of (repr node) i) k (λ e.
                  gone
                    ((Among-append k h.keys (point_of (repr node) i ∷ [])).1 (inr (inl (sym e))))))
                (placed.free k
                  (λ a. gone ((Among-append k h.keys (point_of (repr node) i ∷ [])).1 (inl a))));
      }

      pub add_point-Fewer : Fewer (repr node) (add_point hash_func repr itoa h node i) h
      unfolding add_point
      add_point-Fewer = record {
        still = λ k a. (Among-append k h.keys (point_of (repr node) i ∷ [])).1 (inl a);
        unchanged = λ k a. sym (lookup-add_point_old k a);
        rest = λ k a. elim ((Among-append k h.keys (point_of (repr node) i ∷ [])).0 a) [
          | inl b ↦ inl b
          | inr c ↦ elim c [ inl e ↦ inr (i, within, sym e) | inr d ↦ absurd d ]
        ];
      }
