-- ===== src/Ledger/Ranges/Visited.antt =====
-- What the range queries of ledger_disk.go collect from the entries that they visit.
use focal_point.Prelude.{
  ℕ, zero, suc, ◌+◌, ◌≡◌, refl, ap, ◌∙◌, Bool, false, not, ◌&&◌, Option, Option-cases, Result-cases,
  inl, inr, none, some, List, [], ◌∷◌, ◌++◌, Bytes, ℤ, pos, eqb_ℤ, eqb_ℤ_iff, Result, ok, err,
  panic, ◌>>=◌, if◌then◌else◌, Error, not_found, Map, lookup, insert, lookup-insert, int_eq, length,
  length-append, take, leb, arith,
}
use focal_point.Count.{CountId}
use focal_point.Ledger.Keys.{decode_pub_key_consideration_index_key}
use focal_point.Ledger.Reads.{LedgerDisk, get_count_id_for_height}
use focal_point.Ledger.Ranges.{Indices, at_end, id_at, collect}

module _ {D : Type 0} (l : LedgerDisk D) (snapshot : D) where
  -- What one entry stands for, looked up anew.
  unfoldable pub indexed : Bytes × Bytes → Result (CountId × ℤ × ℤ)
  indexed (key, value) = do
    (party, height, index) ← decode_pub_key_consideration_index_key key
    id ← get_count_id_for_height l height snapshot
    elim id [ none ↦ err not_found | some id ↦ ok (id, height, index) ]

  unfoldable pub indexed_all : List (Bytes × Bytes) → Result (List (CountId × ℤ × ℤ))
  indexed_all [] = ok []
  indexed_all (entry ∷ entries) = do
    one ← indexed entry
    rest ← indexed_all entries
    ok (one ∷ rest)

  -- The map holds what a look-up would give.
  unfoldable pub Fresh : Map ℤ CountId → Type 0
  Fresh height_map =
      (height : ℤ) (id : CountId)
      → lookup height height_map ≡ some id
      → get_count_id_for_height l height snapshot ≡ ok (some id)

  Fresh-insert :
      (height_map : Map ℤ CountId) (height : ℤ) (id : CountId)
      → Fresh height_map
      → get_count_id_for_height l height snapshot ≡ ok (some id)
      → Fresh (insert height id height_map)
  unfolding Fresh
  Fresh-insert height_map height id fresh e h other found =
      ground (arith, lookup-insert height h id height_map, fresh h other, eqb_ℤ_iff height h)

  -- A height is looked up at most once, with the same answer.
  id_at-Fresh :
      (height : ℤ) (height_map : Map ℤ CountId)
      → Fresh height_map
      → (after : Map ℤ CountId) × Fresh after
        × (id_at l snapshot height height_map ≡ (
            get_count_id_for_height l height snapshot >>= λ id. elim id [
              | none ↦ err not_found
              | some id ↦ ok (id, after)
            ]))
  unfolding id_at Fresh
  id_at-Fresh height height_map fresh = elim (Option-cases (lookup height height_map)) [
    | inr (id, is) ↦ (height_map, fresh, ground (arith, is, fresh height id is))
    | inl new ↦ elim (Result-cases (get_count_id_for_height l height snapshot)) [
      | inl (none, e) ↦ (height_map, fresh, ground (arith, new, e))
      | inl (some id, e) ↦ (
        insert height id height_map,
        Fresh-insert height_map height id fresh e,
        ground (arith, new, e),
      )
      | inr failed ↦ (height_map, fresh, ground (arith, new, failed))
    ]
  ]

-- One more result, and what a whole list of them makes of the results.
abbrev pub add_one : Indices → CountId × ℤ × ℤ → Indices
add_one out (id, height, index) = record {
  ids = out.ids ++ (id ∷ []);
  indices = out.indices ++ (index ∷ []);
  last_height = height;
  last_index = index;
}

unfoldable pub add_all : Indices → List (CountId × ℤ × ℤ) → Indices
add_all out [] = out
add_all out (x ∷ xs) = add_all (add_one out x) xs

bind_ok :
    {V W X : Type 0}
    → (r : Result V) → (f : V → W) → (g : W → Result X)
    → (r >>= λ v. g (f v)) ≡ ((r >>= λ v. ok (f v)) >>= g)
bind_ok (ok v) f g = refl
bind_ok (err e) f g = refl
bind_ok panic f g = refl

leb-suc : (a b : ℕ) → leb a b ≡ leb (suc a) (suc b)
leb-suc a b = ground arith

abbrev pub reached : ℤ → Indices → Bool
reached limit out = not (eqb_ℤ limit (pos 0)) && eqb_ℤ (pos (length out.indices)) limit

module _ {D : Type 0} (l : LedgerDisk D) (snapshot : D) (failure : Option Error) where
  -- One round, with a look-up instead of the map.
  round :
      (limit : ℤ) (entry : Bytes × Bytes) (entries : List (Bytes × Bytes))
      (height_map : Map ℤ CountId) (out : Indices)
      → Fresh l snapshot height_map
      → (next : Map ℤ CountId) × Fresh l snapshot next
        × (collect l snapshot failure limit (entry ∷ entries) height_map out ≡ (
            indexed l snapshot entry >>= λ one.
            if reached limit (add_one out one)
            then ok (add_one out one)
            else collect l snapshot failure limit entries next (add_one out one)))
  unfolding collect indexed
  round limit (key, value) entries height_map out fresh =
      elim (Result-cases (decode_pub_key_consideration_index_key key)) [
        | inr failed ↦ (height_map, fresh, ground (arith, failed))
        | inl ((party, height, index), e) ↦
            let (next, fresh', i) = id_at-Fresh l snapshot height height_map fresh in
            (
              next,
              fresh',
              rw e (
                  rw i (elim (Result-cases (get_count_id_for_height l height snapshot)) [
                    | inr failed ↦ ground (arith, failed)
                    | inl (none, g) ↦ rw g refl
                    | inl (some id, g) ↦ rw g refl
                  ])),
            )
      ]

  pub unlimited :
      (entries : List (Bytes × Bytes)) (height_map : Map ℤ CountId) (out : Indices)
      → Fresh l snapshot height_map
      → collect l snapshot failure (pos 0) entries height_map out
        ≡ (indexed_all l snapshot entries >>= λ found. at_end failure (add_all out found))
  unfolding collect indexed_all add_all
  unlimited [] height_map out fresh = refl
  unlimited (entry ∷ entries) height_map out fresh =
      let (next, fresh', one) = round (pos 0) entry entries height_map out fresh in
      one ∙ (elim (Result-cases (indexed l snapshot entry)) [
        | inr failed ↦ ground (arith, failed)
        | inl (x, e) ↦ rw e (
            unlimited entries next (add_one out x) fresh'
            ∙ bind_ok (indexed_all l snapshot entries) (λ found. x ∷ found)
                (λ found. at_end failure (add_all out found)))
      ])

  pub limited :
      (n left : ℕ) (entries : List (Bytes × Bytes)) (height_map : Map ℤ CountId) (out : Indices)
      → Fresh l snapshot height_map
      → length out.indices + suc left ≡ n
      → collect l snapshot failure (pos n) entries height_map out ≡ (
          indexed_all l snapshot (take (suc left) entries) >>= λ found.
          if leb (suc left) (length entries)
          then ok (add_all out found)
          else at_end failure (add_all out found))
  unfolding collect indexed_all add_all
  limited n left [] height_map out fresh h = ground arith
  limited n zero (entry ∷ entries) height_map out fresh h =
      let (next, fresh', one) = round (pos n) entry entries height_map out fresh in
      one ∙ (elim (Result-cases (indexed l snapshot entry)) [
        | inr failed ↦ ground (arith, failed)
        | inl ((id, height, index), e) ↦
            ground (arith, e, length-append {0} out.indices (index ∷ []))
      ])
  limited n (suc left) (entry ∷ entries) height_map out fresh h =
      let (next, fresh', one) = round (pos n) entry entries height_map out fresh in
      one ∙ (elim (Result-cases (indexed l snapshot entry)) [
        | inr failed ↦ ground (arith, failed)
        | inl ((id, height, index), e) ↦
            let more : reached (pos n) (add_one out (id, height, index)) ≡ false =
              ground (arith, length-append {0} out.indices (index ∷ [])) in
            rw e (
              rw more (
                limited n left entries next (add_one out (id, height, index)) fresh'
                  (omega (arith, length-append {0} out.indices (index ∷ [])))
                ∙ bind_ok (indexed_all l snapshot (take (suc left) entries))
                    (λ found. (id, height, index) ∷ found)
                    (λ found.
                      if leb (suc left) (length entries)
                      then ok (add_all out found)
                      else at_end failure (add_all out found))
                ∙ ap
                    (λ b.
                      (indexed_all l snapshot (take (suc left) entries) >>= λ found.
                      ok ((id, height, index) ∷ found))
                      >>= λ found.
                          if b then ok (add_all out found) else at_end failure (add_all out found))
                    (leb-suc (suc left) (length entries))))
      ])
