-- ===== src/Graph/Reach.antt =====
-- `IsParentDescendant` decides whether a way leads from one key's node to another's.
use focal_point.Prelude.{
  ℕ, zero, suc, ◌+◌, ◌≡◌, ◌≢◌, refl, sym, ◌≤◌, ◌<◌, ◌↔◌, inl, inr, Bool, true, false, ◌||◌, Option,
  none, some, List, [], ◌∷◌, ◌++◌, arith, ==_iff, if◌then◌else◌, ◌==◌, length, Bool-cases, lookup,
  Map, keys, nat_eq, bytes_eq, Bytes, subst,
}
use focal_point.Graph.{
  Graph, Edge, contains_int, scan, dfs, successors, all_successors, is_parent_descendant,
}
use focal_point.Graph.Search.{Descends, here, there, Covered, dfs_sound, dfs-false}

-- How many of the nodes listed are not marked.
unvisited : List ℕ → List ℕ → ℕ
unvisited [] vis = 0
unvisited (u ∷ us) vis = (if contains_int vis u then 0 else 1) + unvisited us vis

unvisited-cons_le : (us vis : List ℕ) (v : ℕ) → unvisited us (v ∷ vis) ≤ unvisited us vis
unfolding unvisited contains_int
unvisited-cons_le [] vis v = omega arith
unvisited-cons_le (u ∷ us) vis v = ground (arith, unvisited-cons_le us vis v)

unvisited-cons_lt :
    (us vis : List ℕ) (v : ℕ)
    → contains_int us v ≡ true
    → contains_int vis v ≡ false
    → unvisited us (v ∷ vis) < unvisited us vis
unfolding unvisited contains_int
unvisited-cons_lt [] vis v m f = absurd (ground arith)
unvisited-cons_lt (u ∷ us) vis v m f = elim (Bool-cases (u == v)) [
  | inl same ↦
      subst (λ w. unvisited (w ∷ us) (v ∷ vis) < unvisited (w ∷ us) vis) (sym ((==_iff u v).0 same))
        (ground (arith, unvisited-cons_le us vis v))
  | inr other ↦ ground (arith, unvisited-cons_lt us vis v)
]

unvisited-le-length : (us vis : List ℕ) → unvisited us vis ≤ length us
unfolding unvisited
unvisited-le-length [] vis = omega arith
unvisited-le-length (u ∷ us) vis = ground (arith, unvisited-le-length us vis)

-- A call that ends, with no more unmarked nodes than before.
abbrev Ends : List ℕ → List ℕ → Option (Bool × List ℕ) → Type 0
Ends us vis r =
    (found : Bool) × (vis' : List ℕ) × (r ≡ some (found, vis'))
    × (unvisited us vis' ≤ unvisited us vis)

scan-Ends :
    (us : List ℕ) (bound : ℕ) (visit : ℕ → List ℕ → Option (Bool × List ℕ))
    → ((e : ℕ) (vis : List ℕ)
        → contains_int us e ≡ true
        → contains_int vis e ≡ false
        → unvisited us vis ≤ bound
        → Ends us vis (visit e vis))
    → (es vis : List ℕ) → ((e : ℕ) → contains_int es e ≡ true → contains_int us e ≡ true)
    → unvisited us vis ≤ bound
    → Ends us vis (scan visit es vis)
unfolding scan contains_int
scan-Ends us bound visit ends [] vis sub le = (false, vis, refl, omega arith)
scan-Ends us bound visit ends (e ∷ es) vis sub le =
    elim (Bool-cases (e == 0 || contains_int vis e)) [
      | inl skip ↦
          let (f, w, r, m) =
            scan-Ends us bound visit ends es vis (λ d h. sub d (ground arith)) le in
          (f, w, ground arith, m)
      | inr fresh ↦
          let (f, w, r, m) = ends e vis (sub e (ground arith)) (ground arith) le in
          elim (Bool-cases f) [
            | inl hit ↦ (true, w, ground arith, m)
            | inr miss ↦
                let (f2, w2, r2, m2) =
                  scan-Ends us bound visit ends es w (λ d h. sub d (ground arith)) (omega arith) in
                (f2, w2, ground arith, omega arith)
          ]
    ]

contains_int-append :
    (xs ys : List ℕ) (v : ℕ) → contains_int (xs ++ ys) v ≡ (contains_int xs v || contains_int ys v)
unfolding contains_int
contains_int-append [] ys v = refl
contains_int-append (x ∷ xs) ys v = ground (arith, contains_int-append xs ys v)

module _ {W : Type 0} where
  successors_listed :
      (edges : Map ℕ (Map ℕ (Edge W))) (u e : ℕ)
      → contains_int (elim (lookup u edges) [ none ↦ [] | some out ↦ keys out ]) e ≡ true
      → contains_int (all_successors edges) e ≡ true
  unfolding lookup all_successors contains_int
  successors_listed [] u e h = absurd (ground arith)
  successors_listed ((s, out) ∷ edges) u e h =
      ground (
        arith,
        contains_int-append (keys out) (all_successors edges) e,
        successors_listed edges u e,
      )

  -- A search with more fuel than there are unmarked successors, the start's mark counted, ends.
  dfs-Ends :
      (g : Graph W) (target fuel current : ℕ) (vis : List ℕ)
      → unvisited (all_successors g.edges) (current ∷ vis) < fuel
      → Ends (all_successors g.edges) vis (dfs fuel g target current vis)
  unfolding dfs
  dfs-Ends g target zero current vis h = absurd (omega arith)
  dfs-Ends g target (suc fuel) current vis h = elim (Bool-cases (current == target)) [
    | inl same ↦ (true, vis, ground arith, omega arith)
    | inr other ↦
        let us = all_successors g.edges in
        let (f, w, r, m) =
          scan-Ends us (unvisited us (current ∷ vis)) (dfs fuel g target)
            (λ e v mem new le.
              dfs-Ends g target fuel e v (omega (arith, unvisited-cons_lt us v e mem new)))
            (successors g current) (current ∷ vis) (λ e. successors_listed g.edges current e)
            (omega arith) in
        (f, w, ground arith, omega (arith, unvisited-cons_le us vis current))
  ]

  -- What a failed search covers holds every node on a way from its start.
  Covered-Descends :
      (g : Graph W) (target : ℕ) (vis : List ℕ)
      → Covered g target [] vis
      → (u : ℕ) → contains_int vis u ≡ true
      → ¬ Descends g target u
  unfolding contains_int
  Covered-Descends g target vis c u m here = ground (arith, c.closed u m)
  Covered-Descends g target vis c u m (there {v = v} out ne way) =
      Covered-Descends g target vis c v
        (elim (c.closed u m) [ inl old ↦ absurd (ground arith) | inr (_, all) ↦ all v out ne ]) way

  dfs_decides :
      (g : Graph W) (target current fuel : ℕ) (f : Bool) (w : List ℕ)
      → dfs fuel g target current [] ≡ some (f, w)
      → (f ≡ true) ↔ Descends g target current
  dfs_decides g target current fuel true w r =
      (λ _. dfs_sound fuel g target current [] w r, λ _. refl)
  dfs_decides g target current fuel false w r =
      let (c, m) = dfs-false g target fuel current [] w r in
      (λ e. cc, λ way. absurd (Covered-Descends g target w c current m way))

  -- Between two keys with the nodes `p` and `d`, neither of which is 0, the search ends, and it
  -- answers yes exactly if a way along the edges leads from `p` to `d` without entering node 0.
  pub is_parent_descendant_decides :
      (g : Graph W) (parent descendant : Bytes) (p d : ℕ)
      → lookup parent g.index ≡ some p
      → lookup descendant g.index ≡ some d
      → p ≢ 0
      → d ≢ 0
      → (found : Bool) × (is_parent_descendant g parent descendant ≡ some found)
        × ((found ≡ true) ↔ Descends g d p)
  unfolding is_parent_descendant
  is_parent_descendant_decides g parent descendant p d ep ed np nd =
      let us = all_successors g.edges in
      let (f, w, r, m) =
        dfs-Ends g d (length us + 2) p [] (omega (arith, unvisited-le-length us (p ∷ []))) in
      (f, ground arith, dfs_decides g d p (length us + 2) f w r)
