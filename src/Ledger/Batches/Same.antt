-- ===== src/Ledger/Batches/Same.antt =====
-- After a count moved in ledger_disk.go, the reads at deeper heights are what they were.
use focal_point.Prelude.{
  ℕ, suc, ◌*◌, ◌^◌, ◌<◌, ◌≡◌, ◌≢◌, refl, ◌&&◌, Bool-cases, inl, inr, List, [], ◌∷◌, ◌++◌, ℤ, pos,
  sub64, wrap64, ◌-ℤ◌, leb_ℤ, ok, >>=-eq-ok, arith,
}
use focal_point.LevelDb.{Write}
use focal_point.Binary.RoundTrip.{Fits64}
use focal_point.Constants.{counts_until_new_series, counterpoint_maturity}
use focal_point.Consideration.{Consideration, consideration_id}
use focal_point.Ledger.Keys.{compute_count_height_index_key}
use focal_point.Ledger.Reads.{LedgerDisk, get_count_id_for_height}
use focal_point.Ledger.Batches.{
  unindex_writes, index_writes, each_consideration, count_at, prune_indices, restore_indices,
  when_old, consideration_to_move,
}

below_height :
    (height : ℤ) (n : ℕ)
    → Fits64 height
    → 0 < n
    → n < 2 ^ 63
    → Fits64 (sub64 height (pos n)) × (sub64 height (pos n) ≢ height)
unfolding sub64 wrap64 ◌-ℤ◌
below_height height n fits some_below small = (ground arith, ground arith)

module _ {D : Type 0} (l : LedgerDisk D) (d d' : D) (height : ℤ) (fits : Fits64 height)
    (same : (other : ℤ)
      → Fits64 height
      → Fits64 other
      → other ≢ height
      → l.db.get (compute_count_height_index_key other) d'
        ≡ l.db.get (compute_count_height_index_key other) d) where
  deeper_id :
      (n : ℕ)
      → 0 < n
      → n < 2 ^ 63
      → get_count_id_for_height l (sub64 height (pos n)) d'
        ≡ get_count_id_for_height l (sub64 height (pos n)) d
  unfolding get_count_id_for_height
  deeper_id n some_below small =
      let (other_fits, differs) = below_height height n fits some_below small in
      rw (same (sub64 height (pos n)) fits other_fits differs) refl

  pub consideration_to_move-same :
      (cn : Consideration)
      → consideration_to_move l height cn d' ≡ consideration_to_move l height cn d
  unfolding consideration_to_move
  consideration_to_move-same cn =
      rw (deeper_id counterpoint_maturity (omega arith) (omega arith)) refl

  -- Where the indices of old could be pruned, they can be restored.
  restorable :
      (at : ℤ) (i : ℕ) (cns : List Consideration) (batch : List Write)
      → each_consideration l unindex_writes at i cns ≡ ok batch
      → (restored : List Write) × (each_consideration l index_writes at i cns ≡ ok restored)
  unfolding each_consideration
  restorable at i [] batch h = ([], refl)
  restorable at i (cn ∷ cns) batch h =
      let (id, e, k) = >>=-eq-ok (consideration_id l.crypto cn) _ h in
      let (rest, r, q) = >>=-eq-ok (each_consideration l unindex_writes at (suc i) cns) _ k in
      let (restored, done) = restorable at (suc i) cns rest r in
      (index_writes at i id cn ++ restored, rw e (rw done refl))

  deep : ℤ
  deep = sub64 height (pos (2 * counts_until_new_series))

  restore_deep :
      (pruned : List Write)
      → prune_indices l deep d ≡ ok pruned
      → (restored : List Write) × (restore_indices l deep d' ≡ ok restored)
  unfolding prune_indices restore_indices count_at deep
  restore_deep pruned h =
      let (count, e, k) = >>=-eq-ok (count_at l deep d) _ h in
      let (restored, r) = restorable count.header.height 0 count.considerations pruned k in
      (restored, rw (deeper_id (2 * counts_until_new_series) (omega arith) (omega arith)) (rw e r))

  pub restore-prune :
      (pruned : List Write)
      → when_old l height (prune_indices l) d ≡ ok pruned
      → (restored : List Write) × (when_old l height (restore_indices l) d' ≡ ok restored)
  unfolding when_old deep
  restore-prune pruned h =
      elim (Bool-cases (l.prune && leb_ℤ (pos (2 * counts_until_new_series)) height)) [
        | inr young ↦ ([], ground (arith, young))
        | inl old ↦
            let (restored, r) = restore_deep pruned (ground (arith, h, old)) in
            (restored, ground (arith, r, old))
      ]
