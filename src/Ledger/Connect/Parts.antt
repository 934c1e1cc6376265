-- ===== src/Ledger/Connect/Parts.antt =====
-- The batches of `ConnectCount` and `DisconnectCount` in ledger_disk.go, part by part.
use focal_point.Prelude.{
  ℕ, suc, ◌≡◌, true, false, not, Option, none, some, List, [], ◌∷◌, ◌++◌, ℤ, pos, sub64, ◌==◌,
  Result, ok, fail_if, >>=-eq-ok, >>>-eq-ok, arith, subst, not_tip, already_processed, sym,
}
use focal_point.LevelDb.{Write, put, remove}
use focal_point.LevelDb.Writes.{Avoids, Avoids-append}
use focal_point.Consideration.{Consideration, ConsiderationId, consideration_id}
use focal_point.Count.{Count, CountId, CountHeader}
use focal_point.ImbalanceCache.{Cache, reset}
use focal_point.Processor.Node.{main, side}
use focal_point.Ledger.Keys.{
  id_bytes, compute_branch_type_key, compute_count_height_index_key, compute_point_tip_key,
  compute_consideration_index_key, encode_point_tip, branch_byte,
}
use focal_point.Ledger.Reads.{LedgerDisk, get_point_tip}
use focal_point.Ledger.Batches.{
  imbalance_writes, prune_indices, restore_indices, when_old, consideration_to_move, index_writes,
  unindex_writes,
}
use focal_point.Ledger.Batches.Prefixes.{NoIndex, index_writes-Avoids, unindex_writes-Avoids}
use focal_point.Ledger.Connect.{
  Progress, connect_consideration, connect_considerations, disconnect_consideration,
  disconnect_considerations, connect_batch, disconnect_batch, write_batch, apply_to_cache,
  undo_in_cache,
}

module _ {D : Type 0} (l : LedgerDisk D) (d : D) where
  -- A call that succeeds wrote its batch.
  pub write_batch-eq-ok :
      (prepared : Result (List ConsiderationId × List Write)) (ids : List ConsiderationId) (d' : D)
      → write_batch l prepared d ≡ (ok ids, d')
      → (batch : List Write) × (prepared ≡ ok (ids, batch)) × (l.db.write batch d ≡ (ok tt, d'))
  unfolding write_batch
  write_batch-eq-ok prepared ids d' h =
      let (r, s, e, k) = >>>-eq-ok (prepared, d) _ h in
      let (u, t, w, q) = >>>-eq-ok (l.db.write r.1 s) _ k in (r.1, ground arith, ground arith)

module _ {D : Type 0} (l : LedgerDisk D) (d : D) (id : CountId) (count : Count) where
  -- What a call of `ConnectCount` that reached its write had done.
  pub record Connected (r : List ConsiderationId × List Write) : Type 0 where
    pub tip : Option (CountId × ℤ)
    pub done : Progress
    pub old : List Write
    pub tip_known : get_point_tip l d ≡ ok tip
    pub tip_fits :
        (elim tip [ none ↦ false | some (tip_id, height) ↦ not (tip_id == count.header.previous) ])
        ≡ false
    pub looped : connect_considerations l d count.header 0 count.considerations reset ≡ ok done
    pub pruned : when_old l count.header.height (prune_indices l) d ≡ ok old
    pub returned : r ≡ (
      done.ids,
      done.batch
          ++ (imbalance_writes done.cache
              ++ (put (compute_count_height_index_key count.header.height) (id_bytes id)
                  ∷ put (compute_branch_type_key id) (branch_byte main ∷ [])
                  ∷ put compute_point_tip_key (encode_point_tip id count.header.height)
                  ∷ old)),
    )

  pub connect_batch-Connected :
      (r : List ConsiderationId × List Write) → connect_batch l d id count ≡ ok r → Connected r
  unfolding connect_batch
  connect_batch-Connected r h =
      let (tip, e1, h1) = >>=-eq-ok (get_point_tip l d) _ h in
      let (u, e2, h2) =
        >>=-eq-ok
          (fail_if
            (elim tip [
              | none ↦ false
              | some (tip_id, height) ↦ not (tip_id == count.header.previous)
            ])
            not_tip)
          _ h1 in
      let (done, e3, h3) =
        >>=-eq-ok (connect_considerations l d count.header 0 count.considerations reset) _ h2 in
      let (old, e4, h4) = >>=-eq-ok (when_old l count.header.height (prune_indices l) d) _ h3 in
      record {
        tip = tip;
        done = done;
        old = old;
        tip_known = e1;
        tip_fits = ground arith;
        looped = e3;
        pruned = e4;
        returned = ground arith;
      }

  pub record Disconnected (r : List ConsiderationId × List Write) : Type 0 where
    pub height : ℤ
    pub done : Progress
    pub old : List Write
    pub tip_known : get_point_tip l d ≡ ok (some (id, height))
    pub looped : disconnect_considerations l d count.header 0 count.considerations reset ≡ ok done
    pub restored : when_old l count.header.height (restore_indices l) d ≡ ok old
    pub returned : r ≡ (
      done.ids,
      done.batch
          ++ (imbalance_writes done.cache
              ++ (remove (compute_count_height_index_key count.header.height)
                  ∷ put (compute_branch_type_key id) (branch_byte side ∷ [])
                  ∷ put compute_point_tip_key
                      (encode_point_tip count.header.previous (sub64 count.header.height (pos 1)))
                  ∷ old)),
    )

  tip_is :
      (tip : Option (CountId × ℤ))
      → fail_if (elim tip [ none ↦ true | some (tip_id, height) ↦ not (tip_id == id) ]) not_tip
        ≡ ok tt
      → (height : ℤ) × (tip ≡ some (id, height))
  tip_is none h = absurd (ground arith)
  tip_is (some (tip_id, height)) h = (height, ground arith)

  pub disconnect_batch-Disconnected :
      (r : List ConsiderationId × List Write)
      → disconnect_batch l d id count ≡ ok r
      → Disconnected r
  unfolding disconnect_batch
  disconnect_batch-Disconnected r h =
      let (tip, e1, h1) = >>=-eq-ok (get_point_tip l d) _ h in
      let (u, e2, h2) =
        >>=-eq-ok
          (fail_if (elim tip [ none ↦ true | some (tip_id, height) ↦ not (tip_id == id) ]) not_tip)
          _ h1 in
      let (done, e3, h3) =
        >>=-eq-ok (disconnect_considerations l d count.header 0 count.considerations reset) _ h2 in
      let (old, e4, h4) = >>=-eq-ok (when_old l count.header.height (restore_indices l) d) _ h3 in
      let (height, e5) = tip_is tip e2 in
      record {
        height = height;
        done = done;
        old = old;
        tip_known = ground arith;
        looped = e3;
        restored = e4;
        returned = ground arith;
      }

module _ {D : Type 0} (l : LedgerDisk D) (d : D) (header : CountHeader) (i : ℕ) (cn : Consideration)
    (cache : Cache) where
  -- What the body of each loop did when it went through.
  pub connect_consideration-eq-ok :
      (done : Progress)
      → connect_consideration l d header i cn cache ≡ ok done
      → (id : ConsiderationId) × (consideration_id l.crypto cn ≡ ok id)
        × (done.ids ≡ id ∷ [])
        × (done.batch ≡ index_writes header.height i id cn)
        × (moved : Option Consideration) × (consideration_to_move l header.height cn d ≡ ok moved)
        × ((elim moved [ none ↦ ok cache | some cn ↦ apply_to_cache l d cn cache ]) ≡ ok done.cache)
  unfolding connect_consideration
  connect_consideration-eq-ok done h =
      let (cn_id, e1, h1) = >>=-eq-ok (consideration_id l.crypto cn) _ h in
      let (processed, e2, h2) =
        >>=-eq-ok (l.db.has (compute_consideration_index_key cn_id) d) _ h1 in
      let (u, e3, h3) = >>=-eq-ok (fail_if processed already_processed) _ h2 in
      let (moved, e4, h4) = >>=-eq-ok (consideration_to_move l header.height cn d) _ h3 in
      let (cache', e5, h5) =
        >>=-eq-ok {V = Cache}
          (elim moved [ none ↦ ok cache | some cn ↦ apply_to_cache l d cn cache ]) _ h4 in
      (cn_id, e1, ground arith, ground arith, moved, e4, ground arith)

  pub disconnect_consideration-eq-ok :
      (done : Progress)
      → disconnect_consideration l d header i cn cache ≡ ok done
      → (id : ConsiderationId) × (consideration_id l.crypto cn ≡ ok id)
        × (done.batch ≡ unindex_writes header.height i id cn)
  unfolding disconnect_consideration
  disconnect_consideration-eq-ok done h =
      let (cn_id, e1, h1) = >>=-eq-ok (consideration_id l.crypto cn) _ h in
      let (moved, e4, h4) = >>=-eq-ok (consideration_to_move l header.height cn d) _ h1 in
      let (cache', e5, h5) =
        >>=-eq-ok {V = Cache}
          (elim moved [ none ↦ ok cache | some cn ↦ undo_in_cache l d cn cache ]) _ h4 in
      (cn_id, e1, ground arith)

-- The loops only index.
module _ {D : Type 0} (l : LedgerDisk D) (d : D) (header : CountHeader) (p : ℕ)
    (other : NoIndex p) where
  connect_consideration-Avoids :
      (i : ℕ) (cn : Consideration) (cache : Cache) (done : Progress)
      → connect_consideration l d header i cn cache ≡ ok done
      → Avoids p done.batch
  connect_consideration-Avoids i cn cache done h =
      let (id, e, named, batch, m, t, a) =
        connect_consideration-eq-ok l d header i cn cache done h in
      subst (Avoids p) (sym batch) (index_writes-Avoids p other header.height i id cn)

  pub connect_considerations-Avoids :
      (i : ℕ) (cns : List Consideration) (cache : Cache) (done : Progress)
      → connect_considerations l d header i cns cache ≡ ok done
      → Avoids p done.batch
  unfolding connect_considerations
  connect_considerations-Avoids i [] cache done h = subst (Avoids p) {x = []} (ground arith) tt
  connect_considerations-Avoids i (cn ∷ cns) cache done h =
      let (first, e, k) = >>=-eq-ok (connect_consideration l d header i cn cache) _ h in
      let (rest, r, q) =
        >>=-eq-ok (connect_considerations l d header (suc i) cns first.cache) _ k in
      subst (Avoids p) {x = first.batch ++ rest.batch} (ground arith) (
        Avoids-append p first.batch rest.batch (connect_consideration-Avoids i cn cache first e)
          (connect_considerations-Avoids (suc i) cns first.cache rest r))

  disconnect_consideration-Avoids :
      (i : ℕ) (cn : Consideration) (cache : Cache) (done : Progress)
      → disconnect_consideration l d header i cn cache ≡ ok done
      → Avoids p done.batch
  disconnect_consideration-Avoids i cn cache done h =
      let (id, e, batch) = disconnect_consideration-eq-ok l d header i cn cache done h in
      subst (Avoids p) (sym batch) (unindex_writes-Avoids p other header.height i id cn)

  pub disconnect_considerations-Avoids :
      (i : ℕ) (cns : List Consideration) (cache : Cache) (done : Progress)
      → disconnect_considerations l d header i cns cache ≡ ok done
      → Avoids p done.batch
  unfolding disconnect_considerations
  disconnect_considerations-Avoids i [] cache done h = subst (Avoids p) {x = []} (ground arith) tt
  disconnect_considerations-Avoids i (cn ∷ cns) cache done h =
      let (rest, r, k) = >>=-eq-ok (disconnect_considerations l d header (suc i) cns cache) _ h in
      let (first, e, q) = >>=-eq-ok (disconnect_consideration l d header i cn rest.cache) _ k in
      subst (Avoids p) {x = rest.batch ++ first.batch} (ground arith) (
        Avoids-append p rest.batch first.batch
          (disconnect_considerations-Avoids (suc i) cns cache rest r)
          (disconnect_consideration-Avoids i cn rest.cache first e))
