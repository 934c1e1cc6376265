-- ===== src/Graph.antt =====
-- tranxlation_graph.go: the graph of considerations between keys and its search for descendants.
-- The float64 fields are values of a type W with the additions that `Link` makes; `Rank` and
-- `ToDOT`, which compute with and print them, are not modelled. Map iteration order is any.
pub mod Search
pub mod Reach
pub mod Total
pub mod Acyclic
pub mod Nodes
use focal_point.Prelude.{
  ℕ, zero, suc, ◌+◌, ◌%◌, ◌^◌, ◌≡◌, Bool, true, false, not, ◌&&◌, ◌||◌, Option, none, some, List,
  [], ◌∷◌, ◌++◌, Bytes, ℤ, pos, add64, Result, ok, err, panic, ◌>>=◌, Map, lookup, insert, keys,
  if◌then◌else◌, bytes_eq, nat_eq, ◌==◌, length, Action, ◌>>>◌,
}
use focal_point.Utils.{pad44, pub_key_to_string}
use focal_point.Consideration.{Consideration}

pub record Node (W : Type 0) : Type 0 where
  pub pubkey : Bytes
  pub ranking : W
  pub outbound : W
  pub imbalance : ℤ
  pub group : ℕ

pub record Edge (W : Type 0) : Type 0 where
  pub weight : W
  pub height : ℤ
  pub time : ℤ

-- Node numbers are uint32.
pub record Graph (W : Type 0) : Type 0 where
  pub index : Map Bytes ℕ
  pub nodes : Map ℕ (Node W)
  pub edges : Map ℕ (Map ℕ (Edge W))

-- float64: its zero and its addition.
pub record Weights (W : Type 0) : Type 0 where
  pub none_yet : W
  pub plus : W → W → W

-- `NewGraph`, and what `Reset` leaves.
unfoldable pub new_graph : {W : Type 0} → Graph W
new_graph = record { index = []; nodes = []; edges = [] }

module _ {W : Type 0} (weights : Weights W) where
  open weights use {none_yet, plus}

  -- A key that is not indexed gets the next number and an empty node.
  unfoldable pub add_node : Bytes → Graph W → Graph W
  add_node key graph =
      let i = length graph.index % 2 ^ 32 in
      record graph {
        index = insert key i graph.index;
        nodes =
            insert i
              (record {
                pubkey = key;
                ranking = none_yet;
                outbound = none_yet;
                imbalance = pos 0;
                group = 0;
              })
              graph.nodes;
      }

  unfoldable pub ensure_node : Bytes → Graph W → Graph W
  ensure_node key graph = elim (lookup key graph.index) [
    | some i ↦ graph
    | none ↦ add_node key graph
  ]

  -- `graph.nodes[graph.index[key]]` is changed; a nil node is a panic, a missing index is 0.
  unfoldable pub number_of : Bytes → Graph W → ℕ
  number_of key graph = elim (lookup key graph.index) [ none ↦ 0 | some i ↦ i ]

  unfoldable pub update_node :
      {A : Type 0} → ℕ → (Node W → Node W) → (Node W → A) → Action (Graph W) A
  update_node i change read graph = elim (lookup i graph.nodes) [
    | none ↦ (panic, graph)
    | some node ↦
        (ok (read (change node)), record graph { nodes = insert i (change node) graph.nodes })
  ]

  unfoldable pub set_group : Bytes → ℕ → Action (Graph W) ℕ
  set_group tgt value graph = (pad44 tgt, graph) >>> λ target graph.
      let graph' = ensure_node target graph in
      update_node (number_of target graph') (λ n. record n { group = value }) (λ n. n.group) graph'

  unfoldable pub set_imbalance : Bytes → ℤ → Action (Graph W) ℤ
  set_imbalance tgt value graph = (pad44 tgt, graph) >>> λ target graph.
      let graph' = ensure_node target graph in
      update_node (number_of target graph') (λ n. record n { imbalance = add64 n.imbalance value })
        (λ n. n.imbalance) graph'

  -- The edges that leave `s`, with that to `t` raised by the weight and stamped.
  unfoldable pub add_edge : ℕ → ℕ → W → ℤ → ℤ → Map ℕ (Map ℕ (Edge W)) → Map ℕ (Map ℕ (Edge W))
  add_edge s t weight height time edges =
      let out : Map ℕ (Edge W) = elim (lookup s edges) [ none ↦ [] | some out ↦ out ] in
      let old : W = elim (lookup t out) [ none ↦ none_yet | some edge ↦ edge.weight ] in
      insert s (insert t (record { weight = plus old weight; height = height; time = time }) out)
        edges

  unfoldable pub link : Bytes → Bytes → W → ℤ → ℤ → Action (Graph W) W
  link src tgt weight height time graph = (pad44 src, graph) >>> λ source graph.
      (pad44 tgt, graph) >>> λ target graph.
      let g = ensure_node target (ensure_node source graph) in
      let s = number_of source g in
      let t = number_of target g in
      update_node s (λ n. record n { outbound = plus n.outbound weight }) (λ n. weight)
        (record g { edges = add_edge s t weight height time g.edges })

-- `visited`, the nodes marked so far, and `containsInt`.
unfoldable pub contains_int : List ℕ → ℕ → Bool
contains_int [] value = false
contains_int (v ∷ slice) value = v == value || contains_int slice value

-- The loop of `dfs` over the successors: `visit` is the recursive call.
unfoldable pub scan :
    (ℕ → List ℕ → Option (Bool × List ℕ)) → List ℕ → List ℕ → Option (Bool × List ℕ)
unfolding contains_int
scan visit [] visited = some (false, visited)
scan visit (edge ∷ edges) visited = elim (edge == 0 || contains_int visited edge) [
  | true ↦ scan visit edges visited
  | false ↦ elim (visit edge visited) [
    | none ↦ none
    | some (true, visited') ↦ some (true, visited')
    | some (false, visited') ↦ scan visit edges visited'
  ]
]

module _ {W : Type 0} where
  -- The nodes that a `range` over `g.edges[current]` visits.
  abbrev pub successors : Graph W → ℕ → List ℕ
  successors g current = elim (lookup current g.edges) [ none ↦ [] | some out ↦ keys out ]

  -- `none` means that the fuel ran out.
  unfoldable pub dfs : ℕ → Graph W → ℕ → ℕ → List ℕ → Option (Bool × List ℕ)
  unfolding scan
  dfs zero g target current visited = none
  dfs (suc fuel) g target current visited =
      if current == target
      then some (true, visited)
      else scan (dfs fuel g target) (successors g current) (current ∷ visited)

  -- One more call than there are successors in the graph is never needed.
  unfoldable pub all_successors : Map ℕ (Map ℕ (Edge W)) → List ℕ
  all_successors [] = []
  all_successors ((s, out) ∷ edges) = keys out ++ all_successors edges

  unfoldable pub is_parent_descendant : Graph W → Bytes → Bytes → Option Bool
  unfolding dfs all_successors
  is_parent_descendant g parent descendant = elim (lookup parent g.index) [
    | none ↦ some false
    | some p ↦ elim (lookup descendant g.index) [
      | none ↦ some false
      | some d ↦
          if p == 0 || d == 0
          then some false
          else elim (dfs (length (all_successors g.edges) + 2) g d p []) [
            | none ↦ none
            | some (found, visited) ↦ some found
          ]
    ]
  ]

-- `IsParentDescendant(pubKeyToString(cn.For), pubKeyToString(cn.By))`. The search never runs out of
-- fuel, so its `none` stands for nothing.
unfoldable pub sender_descends : {W : Type 0} → Graph W → Consideration → Result Bool
unfolding is_parent_descendant
sender_descends g cn = do
  recipient ← pub_key_to_string cn.for
  sender ← pub_key_to_string cn.by
  elim (is_parent_descendant g recipient sender) [ none ↦ panic | some answer ↦ ok answer ]
