-- ===== src/Graph/Nodes.antt =====
-- The index and the nodes of the graph agree, so that no operation meets a nil node.
use focal_point.Prelude.{
  ap, ℕ, suc, ◌+◌, ◌%◌, ◌^◌, ◌<◌, ◌≡◌, refl, inl, inr, none, some, arith, if◌then◌else◌, ◌==◌,
  Bool-cases, Option-cases, lookup, insert, nat_eq, bytes_eq, Bytes, bytes_equal, bytes_equal_iff,
  subst, lookup-insert, length-insert, ℤ, pos, add64, ok, length, ◌≤◌,
}
use focal_point.Graph.{
  Graph, Node, Weights, add_edge, link, set_imbalance, set_group, add_node, ensure_node, number_of,
  update_node,
}
use focal_point.Utils.{pad44}

-- Every indexed key has a node of its own, under a number below the count of keys.
abbrev pub IsWellFormed : {W : Type 0} → Graph W → Type 0
IsWellFormed {W} g =
    (key : Bytes) (i : ℕ)
    → lookup key g.index ≡ some i
    → (i < length g.index) × (n : Node W) × (lookup i g.nodes ≡ some n) × (n.pubkey ≡ key)

module _ {W : Type 0} (weights : Weights W) where
  abbrev fresh : Bytes → Node W
  fresh key = record {
    pubkey = key;
    ranking = weights.none_yet;
    outbound = weights.none_yet;
    imbalance = pos 0;
    group = 0;
  }

  -- What indexing a key does: the key has a number, and the other keys keep theirs.
  abbrev Indexes : Bytes → Graph W → Graph W → Type 0
  Indexes key g g' =
      IsWellFormed g'
      × ((i : ℕ) × (lookup key g'.index ≡ some i))
      × (length g'.index ≤ length g.index + 1)
      × ((k : Bytes) (j : ℕ) → lookup k g.index ≡ some j → lookup k g'.index ≡ some j)

  add_node-Indexes :
      (key : Bytes) (g : Graph W)
      → length g.index < 2 ^ 32
      → lookup key g.index ≡ none
      → IsWellFormed g
      → Indexes key g (add_node weights key g)
  unfolding add_node
  add_node-Indexes key g room e wf = (
    λ k j h. elim (Bool-cases (bytes_equal key k)) [
      | inl same ↦ (
        ground (arith, at_k k, size),
        fresh key,
        ground (arith, at_k k, at_node j),
        (bytes_equal_iff key k).0 same,
      )
      | inr other ↦
          let (lt, m, em, pk) = wf k j (ground (arith, at_k k)) in
          (ground (arith, size), m, ground (arith, at_node j), pk)
    ],
    (length g.index % 2 ^ 32, ground (arith, at_k key, (bytes_equal_iff key key).1 refl)),
    ground (arith, size),
    λ k j h. ground (arith, at_k k, bytes_equal_iff key k),
  )
    where
      at_k :
          (k : Bytes)
          → lookup k (insert key (length g.index % 2 ^ 32) g.index)
            ≡ (if bytes_equal key k then some (length g.index % 2 ^ 32) else lookup k g.index)
      at_k k = lookup-insert key k (length g.index % 2 ^ 32) g.index

      size : length (insert key (length g.index % 2 ^ 32) g.index) ≡ suc (length g.index)
      size = ground (arith, length-insert key (length g.index % 2 ^ 32) g.index)

      at_node :
          (j : ℕ)
          → lookup j (add_node weights key g).nodes
            ≡ (if (length g.index % 2 ^ 32) == j then some (fresh key) else lookup j g.nodes)
      at_node j = lookup-insert (length g.index % 2 ^ 32) j (fresh key) g.nodes

  ensure_node-Indexes :
      (key : Bytes) (g : Graph W)
      → length g.index < 2 ^ 32
      → IsWellFormed g
      → Indexes key g (ensure_node weights key g)
  unfolding ensure_node
  ensure_node-Indexes key g room wf = elim (Option-cases (lookup key g.index)) [
    | inr (i, e) ↦
        subst (Indexes key g) {x = g} {y = ensure_node weights key g} (rw (e, ensure_node))
          (wf, (i, e), omega arith, λ k j h. h)
    | inl e ↦
        subst (Indexes key g) {x = add_node weights key g} {y = ensure_node weights key g}
          (rw (e, ensure_node)) (add_node-Indexes key g room e wf)
  ]

  update_node-IsWellFormed :
      {A : Type 0} (i : ℕ) (change : Node W → Node W) (read : Node W → A) (key : Bytes)
      (g : Graph W)
      → ((n : Node W) → (change n).pubkey ≡ n.pubkey)
      → IsWellFormed g
      → lookup key g.index ≡ some i
      → (n : Node W) × (g' : Graph W) × (update_node weights i change read g
          ≡ (ok (read (change n)), g'))
        × IsWellFormed g'
        × (g'.index ≡ g.index)
  unfolding update_node
  update_node-IsWellFormed i change read key g same wf e =
      let (_, n, en, _) = wf key i e in
      let at = λ (j : ℕ). lookup-insert i j (change n) g.nodes in
      (
        n,
        record g { nodes = insert i (change n) g.nodes },
        ground arith,
        λ k j ek.
            let (lt, m, em, pk) = wf k j ek in
            elim (Bool-cases (i == j)) [
              | inl hit ↦ (
                lt,
                change n,
                ground (arith, at j),
                ground (arith, same n, ap (λ k. lookup k g.nodes) {x = i} {y = j}),
              )
              | inr miss ↦ (lt, m, ground (arith, at j), pk)
            ],
        refl,
      )

  -- In a well-formed graph with room for two more node numbers `Link` between keys that can be padded
  -- meets no nil node: it returns the weight and leaves a well-formed graph.
  pub link_total :
      (src tgt source target : Bytes) (w : W) (height time : ℤ) (g : Graph W)
      → pad44 src ≡ ok source
      → pad44 tgt ≡ ok target
      → length g.index + 1 < 2 ^ 32
      → IsWellFormed g
      → (g' : Graph W) × (link weights src tgt w height time g ≡ (ok w, g')) × IsWellFormed g'
  unfolding link number_of
  link_total src tgt source target w height time g ps pt room wf =
      let (wf1, (s, es), size, kept) = ensure_node-Indexes source g (omega arith) wf in
      let g1 = ensure_node weights source g in
      let (wf2, (t, et), size2, kept2) = ensure_node-Indexes target g1 (omega arith) wf1 in
      let g2 = ensure_node weights target g1 in
      let g3 = record g2 { edges = add_edge weights s t w height time g2.edges } in
      let (a, g', e, wf3, _) =
        update_node-IsWellFormed s (λ n. record n { outbound = weights.plus n.outbound w }) (λ n. w)
          source g3 (λ n. refl) wf2 (kept2 source s es) in
      (g', ground (arith, e, kept2 source s es), wf3)

  -- In a well-formed graph with room for one more node number `SetImbalance` of a key that can be
  -- padded meets no nil node: it returns the sum of a node's old imbalance and the value, as an int64,
  -- and leaves a well-formed graph.
  pub set_imbalance_total :
      (tgt target : Bytes) (value : ℤ) (g : Graph W)
      → pad44 tgt ≡ ok target
      → length g.index < 2 ^ 32
      → IsWellFormed g
      → (n : Node W) × (g' : Graph W) × (set_imbalance weights tgt value g
          ≡ (ok (add64 n.imbalance value), g'))
        × IsWellFormed g'
  unfolding set_imbalance number_of
  set_imbalance_total tgt target value g pt room wf =
      let (wf1, (t, et), size, kept) = ensure_node-Indexes target g (omega arith) wf in
      let (n, g', e, wf2, _) =
        update_node-IsWellFormed t (λ n. record n { imbalance = add64 n.imbalance value })
          (λ n. n.imbalance) target (ensure_node weights target g) (λ n. refl) wf1 et in
      (n, g', ground (arith, e, et), wf2)

  -- `SetGroup`, likewise.
  pub set_group_total :
      (tgt target : Bytes) (value : ℕ) (g : Graph W)
      → pad44 tgt ≡ ok target
      → length g.index < 2 ^ 32
      → IsWellFormed g
      → (g' : Graph W) × (set_group weights tgt value g ≡ (ok value, g')) × IsWellFormed g'
  unfolding set_group number_of
  set_group_total tgt target value g pt room wf =
      let (wf1, (t, et), size, kept) = ensure_node-Indexes target g (omega arith) wf in
      let (n, g', e, wf2, _) =
        update_node-IsWellFormed t (λ n. record n { group = value }) (λ n. n.group) target
          (ensure_node weights target g) (λ n. refl) wf1 et in
      (g', ground (arith, e, et), wf2)
