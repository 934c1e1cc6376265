-- ===== src/Graph/Search.antt =====
-- `dfs` and its loop: what a search that fails has covered, and that the fuel is enough.
use focal_point.Prelude.{
  subst, ℕ, zero, suc, ◌≡◌, ◌≢◌, ◌⊎◌, inl, inr, Bool, true, false, ◌||◌, Option, some, List, [],
  ◌∷◌, arith, ==_iff, ◌==◌, Bool-cases, Option-cases,
}
use focal_point.Graph.{Graph, contains_int, scan, dfs, successors}

-- A way along the edges of the graph that enters no node 0.
pub data Descends {W : Type 0} (g : Graph W) (target : ℕ) : ℕ → Type 0 where
  here : Descends g target target
  there :
      {u v : ℕ}
      → contains_int (successors g u) v ≡ true
      → v ≢ 0
      → Descends g target v
      → Descends g target u

-- How a scan that ends goes on from its first edge.
scan_cases :
    (visit : ℕ → List ℕ → Option (Bool × List ℕ)) (e : ℕ) (es vis : List ℕ) (r : Bool × List ℕ)
    → scan visit (e ∷ es) vis ≡ some r
    → (((e == 0 || contains_int vis e) ≡ true) × (scan visit es vis ≡ some r))
      ⊎ (((e == 0 || contains_int vis e) ≡ false)
          × (w : List ℕ) × (visit e vis ≡ some (true, w))
          × (r ≡ (true, w)))
      ⊎ (((e == 0 || contains_int vis e) ≡ false)
          × (w : List ℕ) × (visit e vis ≡ some (false, w))
          × (scan visit es w ≡ some r))
unfolding scan
scan_cases visit e es vis r h = elim (Bool-cases (e == 0 || contains_int vis e)) [
  | inl skip ↦ inl (skip, ground arith)
  | inr fresh ↦ elim (Option-cases (visit e vis)) [
    | inl stuck ↦ absurd (ground arith)
    | inr ((true, w), found) ↦ inr (inl (fresh, w, found, ground arith))
    | inr ((false, w), missed) ↦ inr (inr (fresh, w, missed, ground arith))
  ]
]

scan_sound :
    (P : ℕ → Type 0) (visit : ℕ → List ℕ → Option (Bool × List ℕ))
    → ((e : ℕ) (vis vis' : List ℕ) → visit e vis ≡ some (true, vis') → P e)
    → (es vis vis' : List ℕ) → scan visit es vis ≡ some (true, vis')
    → (e : ℕ) × (contains_int es e ≡ true) × (e ≢ 0) × P e
unfolding scan contains_int
scan_sound P visit sound [] vis vis' h = absurd (ground arith)
scan_sound P visit sound (e ∷ es) vis vis' h = elim (scan_cases visit e es vis (true, vis') h) [
  | inl (_, k) ↦
      let (d, mem, ne, p) = scan_sound P visit sound es vis vis' k in (d, ground arith, ne, p)
  | inr (inl (fresh, w, found, _)) ↦ (e, ground arith, ground arith, sound e vis w found)
  | inr (inr (_, w, _, k)) ↦
      let (d, mem, ne, p) = scan_sound P visit sound es w vis' k in (d, ground arith, ne, p)
]

-- A search that succeeds has found a way.
pub dfs_sound :
    {W : Type 0} (fuel : ℕ) (g : Graph W) (target current : ℕ) (vis vis' : List ℕ)
    → dfs fuel g target current vis ≡ some (true, vis')
    → Descends g target current
unfolding dfs
dfs_sound zero g target current vis vis' h = absurd (ground arith)
dfs_sound (suc fuel) g target current vis vis' h = elim (Bool-cases (current == target)) [
  | inl same ↦ rw ((==_iff current target).0 same) here
  | inr other ↦
      let (e, out, ne, way) =
        scan_sound (Descends g target) (dfs fuel g target) (dfs_sound fuel g target)
          (successors g current) (current ∷ vis) vis' (ground arith) in
      there out ne way
]

-- A search for `target` that fails leaves `vis'`: all that was visited, and beside it only nodes
-- that are not the target and whose successors, but 0, are in it.
pub record Covered {W : Type 0} (g : Graph W) (target : ℕ) (vis vis' : List ℕ) : Type 0 where
  pub grows : (u : ℕ) → contains_int vis u ≡ true → contains_int vis' u ≡ true
  pub closed :
      (u : ℕ)
      → contains_int vis' u ≡ true
      → (contains_int vis u ≡ true)
        ⊎ ((u ≢ target)
            × ((e : ℕ)
                → contains_int (successors g u) e ≡ true
                → e ≢ 0
                → contains_int vis' e ≡ true))

module _ {W : Type 0} (g : Graph W) (target : ℕ) where
  Covered-refl : (vis : List ℕ) → Covered g target vis vis
  Covered-refl vis = record { grows = λ u h. h; closed = λ u h. inl h }

  Covered-trans :
      (a b c : List ℕ) → Covered g target a b → Covered g target b c → Covered g target a c
  Covered-trans a b c p q = record {
    grows = λ u h. q.grows u (p.grows u h);
    closed = λ u h. elim (q.closed u h) [
      | inl old ↦ elim (p.closed u old) [
        | inl older ↦ inl older
        | inr (ne, out) ↦ inr (ne, λ e m z. q.grows e (out e m z))
      ]
      | inr new ↦ inr new
    ];
  }

  scan-false :
      (visit : ℕ → List ℕ → Option (Bool × List ℕ))
      → ((e : ℕ) (vis vis' : List ℕ)
          → visit e vis ≡ some (false, vis')
          → Covered g target vis vis' × (contains_int vis' e ≡ true))
      → (es vis vis' : List ℕ) → scan visit es vis ≡ some (false, vis')
      → Covered g target vis vis'
        × ((e : ℕ) → contains_int es e ≡ true → e ≢ 0 → contains_int vis' e ≡ true)
  unfolding scan contains_int
  scan-false visit miss [] vis vis' h =
      let same : vis ≡ vis' = ground arith in
      (subst (Covered g target vis) same (Covered-refl vis), λ e m z. absurd (ground arith))
  scan-false visit miss (e ∷ es) vis vis' h = elim (scan_cases visit e es vis (false, vis') h) [
    | inl (skip, k) ↦
        let (c, all) = scan-false visit miss es vis vis' k in
        (c, λ d m z. ground (arith, all d, c.grows d))
    | inr (inl (_, w, _, wrong)) ↦ absurd (ground arith)
    | inr (inr (_, w, missed, k)) ↦
        let (c, all) = scan-false visit miss es w vis' k in
        let (first, in_w) = miss e vis w missed in
        (Covered-trans vis w vis' first c, λ d m z. ground (arith, all d, c.grows d))
  ]

  -- A search that fails covers all that it marks.
  pub dfs-false :
      (fuel current : ℕ) (vis vis' : List ℕ)
      → dfs fuel g target current vis ≡ some (false, vis')
      → Covered g target vis vis' × (contains_int vis' current ≡ true)
  unfolding dfs contains_int
  dfs-false zero current vis vis' h = absurd (ground arith)
  dfs-false (suc fuel) current vis vis' h = elim (Bool-cases (current == target)) [
    | inl same ↦ absurd (ground arith)
    | inr other ↦
        let (c, all) =
          scan-false (dfs fuel g target) (dfs-false fuel) (successors g current) (current ∷ vis)
            vis' (ground arith) in
        (
          record {
            grows = λ u m. c.grows u (ground arith);
            closed = λ u m. elim (Bool-cases (current == u)) [
              | inl self ↦
                  subst
                    (λ u.
                      (contains_int vis u ≡ true)
                      ⊎ ((u ≢ target)
                          × ((e : ℕ)
                              → contains_int (successors g u) e ≡ true
                              → e ≢ 0
                              → contains_int vis' e ≡ true)))
                    ((==_iff current u).0 self) (inr (ground arith, all))
              | inr away ↦ ground (arith, c.closed u m)
            ];
          },
          c.grows current (ground arith),
        )
  ]
