-- ===== src/Hash/Tests.antt =====
-- Runs of the ring at concrete nodes and a hash that gives each node a thousand points of its own.
use go_zero.Prelude.{
  ℕ, ◌+◌, ◌*◌, ◌≡◌, ◌⊎◌, refl, sym, ap, ◌∙◌, true, false, List, [], ◌∷◌, ◌++◌, Bytes, arith, lookup,
  insert,
}
use go_zero.Hash.{
  ConsistentHash, found, missing, point, contains_node, remove, get, add_with_replicas,
  new_custom_consistent_hash, add_node, add_points, sort_keys, add_point, sort, nodes_at, choose,
  search,
}
use go_zero.Hash.Successor.{IsSuccessor}
use go_zero.Hash.Points.{Spread}
use go_zero.Hash.Additions.{AllAddNew, run_of_additions-get}
use go_zero.Hash.Runs.{
  Call, add_node_replicas, run, step, AllUsed, run-get, get-remove, get-add_with_replicas,
}

abbrev letter : ℕ → Bytes
letter n = n ∷ []

abbrev thousand : Bytes → ℕ
thousand [] = 0
thousand (x ∷ []) = 1000 * x + 500
thousand (x ∷ i ∷ rest) = 1000 * x + i

abbrev IsLetter : Bytes → Type 0
IsLetter s = (x : ℕ) × (s ≡ letter x)

abbrev two_nodes : List (Call ℕ)
two_nodes = add_node_replicas 1 2 ∷ add_node_replicas 2 3 ∷ []

abbrev reached : ConsistentHash ℕ
reached = run thousand letter letter letter (new_custom_consistent_hash 0) two_nodes

reached-Spread : Spread thousand letter letter IsLetter 100
unfolding point
reached-Spread s t i j (x, e) (y, f) hi hj at =
    let same : 1000 * x + i ≡ 1000 * y + j =
      ap (λ r. thousand (r ++ letter i)) (sym e) ∙ at ∙ ap (λ r. thousand (r ++ letter j)) f in
    (e ∙ ap letter (omega arith) ∙ sym f, omega arith)

initial-Spread :
    Spread thousand letter letter IsLetter (new_custom_consistent_hash {A = ℕ} 0).replicas
unfolding new_custom_consistent_hash
initial-Spread = reached-Spread

two_nodes-AllUsed : AllUsed thousand letter letter letter IsLetter two_nodes
two_nodes-AllUsed = ((1, refl), ((2, refl), tt))

answer_of_two : get thousand letter letter reached 1 ≡ found 2
unfolding get run step add_with_replicas new_custom_consistent_hash remove contains_node sort_keys
    add_points lookup add_point add_node insert point sort choose nodes_at search
answer_of_two = refl

not_three : contains_node reached (letter 3) ≡ false
unfolding contains_node run step lookup add_with_replicas sort_keys add_points remove
    new_custom_consistent_hash add_point add_node insert
not_three = refl

run-get_example :
    (reached.keys ≡ [] × get thousand letter letter reached 1 ≡ missing)
    ⊎ ((n : ℕ) × (i : ℕ) × (get thousand letter letter reached 1 ≡ found n)
        × (contains_node reached (letter n) ≡ true)
        × IsSuccessor reached.keys (thousand (letter 1)) (point thousand letter (letter n) i))
run-get_example =
    run-get thousand letter letter letter IsLetter 0 two_nodes initial-Spread two_nodes-AllUsed 1

get-remove_example :
    (get thousand letter letter (remove thousand letter letter reached 2) 1
      ≡ get thousand letter letter reached 1)
    ⊎ ((m : ℕ) × (get thousand letter letter reached 1 ≡ found m) × (letter m ≡ letter 2))
get-remove_example =
    get-remove thousand letter letter letter IsLetter 0 two_nodes initial-Spread two_nodes-AllUsed 2
      1 (2, refl)

get-add_with_replicas_example :
    (get thousand letter letter (add_with_replicas thousand letter letter reached 3 2) 1
      ≡ get thousand letter letter reached 1)
    ⊎ ((m : ℕ) × (get thousand letter letter
            (add_with_replicas thousand letter letter reached 3 2)
            1
          ≡ found m)
        × (letter m ≡ letter 3))
get-add_with_replicas_example =
    get-add_with_replicas thousand letter letter letter IsLetter 0 two_nodes initial-Spread
      two_nodes-AllUsed 3 1 2 (3, refl) not_three

-- A hash that gives every point and every value the same place.
abbrev crowded : Bytes → ℕ
crowded s = 7

abbrev shared : ConsistentHash ℕ
shared = run crowded letter letter letter (new_custom_consistent_hash 0) two_nodes

two_nodes-AllAddNew :
    AllAddNew crowded letter letter letter (new_custom_consistent_hash 0) two_nodes
unfolding contains_node run step lookup add_with_replicas sort_keys add_points remove
    new_custom_consistent_hash add_point add_node insert
two_nodes-AllAddNew = (refl, (refl, tt))

run_of_additions-get_example :
    (shared.keys ≡ [] × get crowded letter letter shared 1 ≡ missing)
    ⊎ ((n : ℕ) × (i : ℕ) × (get crowded letter letter shared 1 ≡ found n)
        × (contains_node shared (letter n) ≡ true)
        × IsSuccessor shared.keys (crowded (letter 1)) (point crowded letter (letter n) i))
run_of_additions-get_example =
    run_of_additions-get crowded letter letter letter 0 two_nodes two_nodes-AllAddNew 1
