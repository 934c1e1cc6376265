-- ===== src/Ledger/Connect.antt =====
-- `ConnectCount` and `DisconnectCount` of ledger_disk.go.
pub mod Parts
pub mod Words
pub mod Tip
pub mod Loops
pub mod Restored
pub mod Refined
use focal_point.Prelude.{
  ℕ, suc, ◌≡◌, Bool, true, false, not, Option, none, some, List, [], ◌∷◌, ◌++◌, Bytes, ℤ, pos,
  sub64, ◌==◌, Result, ok, err, panic, ◌>>=◌, ◌>>◌, Action, ◌>>>◌, fail_if, if◌then◌else◌, not_tip,
  already_processed, no_imbalance, descendant,
}
use focal_point.LevelDb.{Write, put, remove}
use focal_point.Consideration.{Consideration, ConsiderationId, consideration_id}
use focal_point.Count.{Count, CountId, CountHeader}
use focal_point.Graph.{sender_descends}
use focal_point.ImbalanceCache.{Cache, reset, apply, undo}
use focal_point.Processor.Node.{main, side}
use focal_point.Ledger.Keys.{
  id_bytes, compute_branch_type_key, compute_count_height_index_key, compute_point_tip_key,
  compute_consideration_index_key, encode_point_tip, branch_byte,
}
use focal_point.Ledger.Reads.{LedgerDisk, get_point_tip, get_public_key_imbalance}
use focal_point.Ledger.Batches.{
  index_writes, unindex_writes, imbalance_writes, prune_indices, restore_indices, when_old,
  consideration_to_move,
}

-- The identifiers, the writes and the imbalances of a loop over considerations.
pub record Progress : Type 0 where
  pub ids : List ConsiderationId
  pub batch : List Write
  pub cache : Cache

module _ {D : Type 0} (l : LedgerDisk D) (d : D) where
  -- A cache over the ledger, and a change of it whose result must be `ok true`.
  unfoldable pub apply_to_cache : Consideration → Cache → Result Cache
  apply_to_cache cn cache =
      let (covered, cache) = apply (get_public_key_imbalance l d) cn cache in
      do
        covered ← covered
        fail_if (not covered) no_imbalance
        descends ← sender_descends l.con_graph cn
        fail_if descends descendant
        ok cache

  unfoldable pub undo_in_cache : Consideration → Cache → Result Cache
  undo_in_cache cn cache =
      let (undone, cache) = undo (get_public_key_imbalance l d) cn cache in
      do undone ← undone; ok cache

  -- The body of the loop of `ConnectCount`.
  unfoldable pub connect_consideration : CountHeader → ℕ → Consideration → Cache → Result Progress
  connect_consideration header i cn cache = do
    id ← consideration_id l.crypto cn
    processed ← l.db.has (compute_consideration_index_key id) d
    fail_if processed already_processed
    moved ← consideration_to_move l header.height cn d
    cache ← elim moved [ none ↦ ok cache | some cn ↦ apply_to_cache cn cache ]
    ok (record { ids = id ∷ []; batch = index_writes header.height i id cn; cache = cache })

  unfoldable pub connect_considerations :
      CountHeader → ℕ → List Consideration → Cache → Result Progress
  connect_considerations header i [] cache = ok (record { ids = []; batch = []; cache = cache })
  connect_considerations header i (cn ∷ cns) cache = do
    first ← connect_consideration header i cn cache
    rest ← connect_considerations header (suc i) cns first.cache
    ok (record {
      ids = first.ids ++ rest.ids;
      batch = first.batch ++ rest.batch;
      cache = rest.cache;
    })

  -- The body of the loop of `DisconnectCount`, which runs from the last consideration to the first.
  unfoldable pub disconnect_consideration :
      CountHeader → ℕ → Consideration → Cache → Result Progress
  disconnect_consideration header i cn cache = do
    id ← consideration_id l.crypto cn
    moved ← consideration_to_move l header.height cn d
    cache ← elim moved [ none ↦ ok cache | some cn ↦ undo_in_cache cn cache ]
    ok (record { ids = id ∷ []; batch = unindex_writes header.height i id cn; cache = cache })

  unfoldable pub disconnect_considerations :
      CountHeader → ℕ → List Consideration → Cache → Result Progress
  disconnect_considerations header i [] cache = ok (record { ids = []; batch = []; cache = cache })
  disconnect_considerations header i (cn ∷ cns) cache = do
    rest ← disconnect_considerations header (suc i) cns cache
    first ← disconnect_consideration header i cn rest.cache
    ok (record {
      ids = first.ids ++ rest.ids;
      batch = rest.batch ++ first.batch;
      cache = first.cache;
    })

  -- The identifiers that `ConnectCount` returns, and the batch that it writes.
  unfoldable pub connect_batch : CountId → Count → Result (List ConsiderationId × List Write)
  connect_batch id count = do
    tip ← get_point_tip l d
    fail_if
        (elim tip [ none ↦ false | some (tip_id, height) ↦ not (tip_id == count.header.previous) ])
        not_tip
    done ← connect_considerations count.header 0 count.considerations reset
    pruned ← when_old l count.header.height (prune_indices l) d
    ok (
      done.ids,
      done.batch
          ++ (imbalance_writes done.cache
              ++ (put (compute_count_height_index_key count.header.height) (id_bytes id)
                  ∷ put (compute_branch_type_key id) (branch_byte main ∷ [])
                  ∷ put compute_point_tip_key (encode_point_tip id count.header.height)
                  ∷ pruned)),
    )

  unfoldable pub disconnect_batch : CountId → Count → Result (List ConsiderationId × List Write)
  disconnect_batch id count = do
    tip ← get_point_tip l d
    fail_if (elim tip [ none ↦ true | some (tip_id, height) ↦ not (tip_id == id) ]) not_tip
    done ← disconnect_considerations count.header 0 count.considerations reset
    restored ← when_old l count.header.height (restore_indices l) d
    ok (
      done.ids,
      done.batch
          ++ (imbalance_writes done.cache
              ++ (remove (compute_count_height_index_key count.header.height)
                  ∷ put (compute_branch_type_key id) (branch_byte side ∷ [])
                  ∷ put compute_point_tip_key
                      (encode_point_tip count.header.previous (sub64 count.header.height (pos 1)))
                  ∷ restored)),
    )

module _ {D : Type 0} (l : LedgerDisk D) where
  -- The batch is written at once, or an error comes before it.
  unfoldable pub write_batch :
      Result (List ConsiderationId × List Write) → Action D (List ConsiderationId)
  write_batch prepared d =
      (prepared, d) >>> λ prepared d. l.db.write prepared.1 d >>> λ _ d. (ok prepared.0, d)

  unfoldable pub connect_count : CountId → Count → Action D (List ConsiderationId)
  connect_count id count d = write_batch (connect_batch l d id count) d

  unfoldable pub disconnect_count : CountId → Count → Action D (List ConsiderationId)
  disconnect_count id count d = write_batch (disconnect_batch l d id count) d
