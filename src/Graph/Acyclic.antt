-- ===== src/Graph/Acyclic.antt =====
-- `IsParentDescendant` keeps cycles out: a `Link` that it does not refuse closes none.
use focal_point.Prelude.{
  ℕ, ◌≡◌, ◌≢◌, refl, sym, ◌⊎◌, ◌&&◌, inl, inr, true, false, ◌||◌, none, some, [], ◌∷◌, arith,
  ==_iff, ◌==◌, Bool-cases, Option-cases, lookup, insert, Map, keys, nat_eq, bytes_eq, Bytes, subst,
  lookup-insert, ℤ, ok,
}
use focal_point.Graph.{
  Graph, Node, Edge, Weights, contains_int, successors, is_parent_descendant, add_edge, link,
  ensure_node, number_of, update_node,
}
use focal_point.Graph.Search.{Descends, here, there}
use focal_point.Graph.Reach.{is_parent_descendant_decides}
use focal_point.Utils.{pad44}

-- No edge into a node other than 0 has a way back that avoids node 0.
abbrev pub IsAcyclic : {W : Type 0} → Graph W → Type 0
IsAcyclic g = (u v : ℕ) → contains_int (successors g u) v ≡ true → v ≢ 0 → ¬ Descends g u v

contains_int-keys-insert :
    {V : Type 0} (t e : ℕ) (v : V) (out : Map ℕ V)
    → contains_int (keys (insert t v out)) e ≡ (t == e || contains_int (keys out) e)
unfolding contains_int insert
contains_int-keys-insert t e v [] = ground arith
contains_int-keys-insert t e v ((j, w) ∷ out) = ground (arith, contains_int-keys-insert t e v out)

module _ {W : Type 0} (weights : Weights W) (s t : ℕ) (w : W) (height time : ℤ) (g : Graph W) where
  abbrev edges_of : ℕ → Map ℕ (Edge W)
  edges_of u = elim (lookup u g.edges) [ none ↦ [] | some out ↦ out ]

  abbrev new_edge : Edge W
  new_edge = record {
    weight =
        weights.plus
          (elim (lookup t (edges_of s)) [ none ↦ weights.none_yet | some edge ↦ edge.weight ]) w;
    height = height;
    time = time;
  }

  abbrev linked : Graph W
  linked = record g { edges = add_edge weights s t w height time g.edges }

  -- The edges after a new one from `s` to `t`.
  successors-linked :
      (u e : ℕ)
      → contains_int (successors linked u) e
        ≡ (((s == u) && (t == e)) || contains_int (successors g u) e)
  unfolding add_edge contains_int
  successors-linked u e = elim (Bool-cases (s == u)) [
    | inl same ↦
        subst
          (λ u.
            contains_int (successors linked u) e
            ≡ (((s == u) && (t == e)) || contains_int (successors g u) e))
          ((==_iff s u).0 same)
          (ground (
            arith,
            lookup-insert s s (insert t new_edge (edges_of s)) g.edges,
            contains_int-keys-insert t e new_edge (edges_of s),
          ))
    | inr other ↦ ground (arith, lookup-insert s u (insert t new_edge (edges_of s)) g.edges)
  ]

Descends-trans :
    {W : Type 0} {g : Graph W} {b c : ℕ} (a : ℕ) → Descends g b c → Descends g a b → Descends g a c
Descends-trans a here q = q
Descends-trans a (there out ne p) q = there out ne (Descends-trans a p q)

module _ {W : Type 0} (weights : Weights W) (s t : ℕ) (w : W) (height time : ℤ) (g : Graph W) where
  abbrev new : Graph W
  new = linked weights s t w height time g

  -- A way in the new graph is one in the old, or takes the new edge, which then enters no node 0.
  Descends-linked :
      (target u : ℕ)
      → Descends new target u
      → Descends g target u ⊎ ((t ≢ 0) × Descends g s u × Descends g target t)
  Descends-linked target u here = inl here
  Descends-linked target u (there {v = v} out ne way) =
      let rest = Descends-linked target v way in
      let split = successors-linked weights s t w height time g u v in
      elim (Bool-cases (contains_int (successors g u) v)) [
        | inl old ↦ elim rest [
          | inl q ↦ inl (there old ne q)
          | inr (nz, p, q) ↦ inr (nz, there old ne p, q)
        ]
        | inr fresh ↦
            let us : s ≡ u = ground arith in
            let vt : t ≡ v = ground arith in
            inr (
              subst (λ v. v ≢ 0) (sym vt) ne,
              subst (Descends g s) us here,
              elim rest [ inl q ↦ subst (Descends g target) (sym vt) q | inr (_, _, q) ↦ q ],
            )
      ]

  -- An edge into a node from which no way leads back closes no cycle.
  linked-IsAcyclic : (t ≢ 0 → ¬ Descends g s t) → IsAcyclic g → IsAcyclic new
  linked-IsAcyclic back acyclic u v out ne way =
      let split = successors-linked weights s t w height time g u v in
      elim (Descends-linked u v way) [
        | inr (nz, p, q) ↦ elim (Bool-cases (contains_int (successors g u) v)) [
          | inl old ↦ back nz (Descends-trans s q (there old ne p))
          | inr fresh ↦ back nz (subst (λ k. Descends g k t) (ground arith) q)
        ]
        | inl p ↦ elim (Bool-cases (contains_int (successors g u) v)) [
          | inl old ↦ acyclic u v old ne p
          | inr fresh ↦ back (ground arith) (
              subst (λ k. Descends g k t) {x = u} {y = s} (ground arith)
                (subst (Descends g u) {x = v} {y = t} (ground arith) p))
        ]
      ]

-- No way enters node 0 from elsewhere.
not-Descends_zero : {W : Type 0} (g : Graph W) (u : ℕ) → u ≢ 0 → ¬ Descends g 0 u
not-Descends_zero g u ne way = go u ne way
  where
    go : (v : ℕ) → v ≢ 0 → ¬ Descends g 0 v
    go v nz here = nz refl
    go v nz (there {v = x} out nx rest) = go x nx rest

Descends-edges :
    {W : Type 0} (g h : Graph W) (a u : ℕ) → h.edges ≡ g.edges → Descends g a u → Descends h a u
Descends-edges g h a u e here = here
Descends-edges g h a u e (there {v = v} out ne way) =
    there (rw e out) ne (Descends-edges g h a v e way)

IsAcyclic-edges : {W : Type 0} (g h : Graph W) → h.edges ≡ g.edges → IsAcyclic g → IsAcyclic h
IsAcyclic-edges g h e acyclic u v out ne way =
    acyclic u v (rw (sym e) out) ne (Descends-edges h g u v (sym e) way)

-- If the search from the target for the source fails, no way leads there, but into node 0 or from it.
pub not-is_parent_descendant :
    {W : Type 0} (g : Graph W) (target source : Bytes) (s t : ℕ)
    → lookup source g.index ≡ some s
    → lookup target g.index ≡ some t
    → is_parent_descendant g target source ≡ some false
    → t ≢ 0
    → ¬ Descends g s t
not-is_parent_descendant g target source s t es et no_way nt way = elim (Bool-cases (s == 0)) [
  | inl zero ↦ not-Descends_zero g t nt (subst (λ k. Descends g k t) ((==_iff s 0).0 zero) way)
  | inr nz ↦
      let (f, e, iff) = is_parent_descendant_decides g target source t s et es nt (ground arith) in
      let found = iff.1 way in ground arith
]

ensure_known :
    {W : Type 0} (weights : Weights W) (key : Bytes) (i : ℕ) (g : Graph W)
    → lookup key g.index ≡ some i
    → ensure_node weights key g ≡ g
unfolding ensure_node
ensure_known weights key i g e = rw (e, ensure_node)

update_node-edges :
    {W A : Type 0} (weights : Weights W) (i : ℕ) (change : Node W → Node W) (read : Node W → A)
    (a : A) (g g' : Graph W)
    → update_node weights i change read g ≡ (ok a, g')
    → g'.edges ≡ g.edges
unfolding update_node
update_node-edges weights i change read a g g' h = elim (Option-cases (lookup i g.nodes)) [
  | inl e ↦ absurd (ground arith)
  | inr (n, e) ↦ ground arith
]

link-edges :
    {W : Type 0} (weights : Weights W) (src tgt source target : Bytes) (s t : ℕ) (w total : W)
    (height time : ℤ) (g g' : Graph W)
    → pad44 src ≡ ok source
    → pad44 tgt ≡ ok target
    → lookup source g.index ≡ some s
    → lookup target g.index ≡ some t
    → link weights src tgt w height time g ≡ (ok total, g')
    → g'.edges ≡ add_edge weights s t w height time g.edges
unfolding link number_of
link-edges weights src tgt source target s t w total height time g g' ps pt es et h =
    update_node-edges weights s (λ n. record n { outbound = weights.plus n.outbound w }) (λ n. w)
      total (linked weights s t w height time g) g'
      (ground (arith, ensure_known weights source s g es, ensure_known weights target t g et))

-- A `Link` between two keys that are indexed, which returns and which `IsParentDescendant(target,
-- source)` does not refuse, keeps the graph acyclic: if no edge into a node other than 0 had a way
-- back that avoids node 0, none has afterwards.
pub link-IsAcyclic :
    {W : Type 0} (weights : Weights W) (src tgt source target : Bytes) (s t : ℕ) (w total : W)
    (height time : ℤ) (g g' : Graph W)
    → pad44 src ≡ ok source
    → pad44 tgt ≡ ok target
    → lookup source g.index ≡ some s
    → lookup target g.index ≡ some t
    → is_parent_descendant g target source ≡ some false
    → link weights src tgt w height time g ≡ (ok total, g')
    → IsAcyclic g
    → IsAcyclic g'
unfolding link
link-IsAcyclic weights src tgt source target s t w total height time g g' ps pt es et no_way h
      acyclic =
    IsAcyclic-edges (linked weights s t w height time g) g'
      (link-edges weights src tgt source target s t w total height time g g' ps pt es et h)
      (linked-IsAcyclic weights s t w height time g
        (not-is_parent_descendant g target source s t es et no_way) acyclic)
