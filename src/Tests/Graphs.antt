-- ===== src/Tests/Graphs.antt =====
-- The theorems on the graph and on the imbalance cache at concrete ones.
use focal_point.Prelude.{
  ℕ, ◌+◌, ◌≡◌, refl, subst, ◌↔◌, Bool, true, false, some, [], ◌∷◌, Bytes, ℤ, pos, add64, sub64,
  wrap64, ◌+ℤ◌, ◌-ℤ◌, ok, arith, length, replicate, lookup, insert, bytes_eq, nat_eq,
}
use focal_point.Consideration.{is_counter_point, public_key_size}
use focal_point.Utils.{pad44}
use focal_point.Graph.{
  Graph, Weights, Node, new_graph, ensure_node, add_edge, link, is_parent_descendant, contains_int,
  number_of, update_node,
}
use focal_point.Graph.Search.{Descends, here, there}
use focal_point.Graph.Acyclic.{IsAcyclic, link-IsAcyclic}
use focal_point.Graph.Reach.{is_parent_descendant_decides}
use focal_point.Graph.Nodes.{IsWellFormed, link_total}
use focal_point.ImbalanceCache.{Cache, imbalance, apply, undo, debit_sender, credit, reset}
use focal_point.ImbalanceCache.Moves.{Shows}
use focal_point.ImbalanceCache.Undo.{HasRoom, undo-apply}
use focal_point.Tests.Data.{key_a, key_b, cn_ab, even_ledger}

abbrev toy_weights : Weights ℕ
toy_weights = record { none_yet = 0; plus = ◌+◌ }

abbrev root : Bytes
root = replicate 44 b'r'

abbrev alice : Bytes
alice = replicate 44 b'a'

abbrev bob : Bytes
bob = replicate 44 b'b'

abbrev node_of : Bytes → Node ℕ
node_of key = record { pubkey = key; ranking = 0; outbound = 0; imbalance = pos 0; group = 0 }

-- The root has made an edge to Bob, who has made none.
abbrev grown : Graph ℕ
grown = record {
  index = (root, 0) ∷ (alice, 1) ∷ (bob, 2) ∷ [];
  nodes = (0, node_of root) ∷ (1, node_of alice) ∷ (2, node_of bob) ∷ [];
  edges = (0, (2, record { weight = 1; height = pos 1; time = pos 1 }) ∷ []) ∷ [];
}

abbrev alice_to_bob : Graph ℕ
alice_to_bob = record {
  index = (root, 0) ∷ (alice, 1) ∷ (bob, 2) ∷ [];
  nodes = (0, node_of root) ∷ (1, record (node_of alice) { outbound = 4 }) ∷ (2, node_of bob) ∷ [];
  edges =
      (0, (2, record { weight = 1; height = pos 1; time = pos 1 }) ∷ [])
      ∷ (1, (2, record { weight = 4; height = pos 2; time = pos 2 }) ∷ [])
      ∷ [];
}

linked_run : link toy_weights alice bob 4 (pos 2) (pos 2) grown ≡ (ok 4, alice_to_bob)
unfolding link ensure_node number_of update_node add_edge pad44 lookup insert
linked_run = refl

no_way : is_parent_descendant grown bob alice ≡ some false
unfolding is_parent_descendant lookup
no_way = refl

bob_is_last : (c : ℕ) → Descends grown 0 c → c ≡ 2 → ⊥
unfolding contains_int lookup
bob_is_last c here at = ground arith
bob_is_last c (there edge inner way) at = ground arith

-- The only edge ends at Bob, from whom none leads on.
grown-IsAcyclic : IsAcyclic grown
unfolding contains_int lookup
grown-IsAcyclic u v edge inner way =
    bob_is_last v (subst (λ k. Descends grown k v) (ground arith) way) (ground arith)

link-IsAcyclic_example : IsAcyclic alice_to_bob
unfolding pad44 lookup
link-IsAcyclic_example =
    link-IsAcyclic toy_weights alice bob alice bob 1 2 4 4 (pos 2) (pos 2) grown alice_to_bob refl
      refl refl refl no_way linked_run grown-IsAcyclic

is_parent_descendant_decides_example :
    (found : Bool) × (is_parent_descendant alice_to_bob alice bob ≡ some found)
    × ((found ≡ true) ↔ Descends alice_to_bob 2 1)
unfolding lookup
is_parent_descendant_decides_example =
    is_parent_descendant_decides alice_to_bob alice bob 1 2 refl refl (ground arith) (ground arith)

new_graph-IsWellFormed : IsWellFormed {W = ℕ} new_graph
unfolding new_graph lookup
new_graph-IsWellFormed key i h = absurd (ground arith)

link_total_example :
    (g' : Graph ℕ) × (link toy_weights alice bob 4 (pos 2) (pos 2) new_graph ≡ (ok 4, g'))
    × IsWellFormed g'
unfolding pad44 new_graph
link_total_example =
    link_total toy_weights alice bob alice bob 4 (pos 2) (pos 2) new_graph refl refl (omega (arith))
      new_graph-IsWellFormed

abbrev paid : Cache
paid = (key_a, pos 4) ∷ (key_b, pos 6) ∷ []

paid_run : apply even_ledger cn_ab reset ≡ (ok true, paid)
unfolding apply debit_sender credit imbalance is_counter_point reset lookup insert sub64 add64
    wrap64 ◌+ℤ◌ ◌-ℤ◌
paid_run = refl

five-HasRoom :
    (key : Bytes) (x : ℤ)
    → length key ≡ public_key_size
    → imbalance even_ledger reset (some key) ≡ ok x
    → HasRoom x
unfolding imbalance reset lookup
five-HasRoom key x size known = ground arith

undo-apply_example :
    (back : Cache) × (undo even_ledger cn_ab paid ≡ (ok true, back))
    × Shows even_ledger reset back (λ key x. x)
undo-apply_example =
    undo-apply even_ledger cn_ab key_a key_b refl refl refl refl reset paid five-HasRoom paid_run
