-- ===== src/Ledger/Connect/Tip.antt =====
-- Where `ConnectCount` and `DisconnectCount` of ledger_disk.go leave the tip, the branch of the count
-- and the index by height.
use focal_point.Prelude.{
  ◌≡◌, refl, subst, none, some, List, [], ◌∷◌, ℤ, pos, sub64, arith, ◌<◌, ◌^◌, ok,
}
use focal_point.Binary.RoundTrip.{Fits64}
use focal_point.LevelDb.{Write, put, remove, IsLevelDb}
use focal_point.Consideration.{ConsiderationId}
use focal_point.Count.{Count, CountId}
use focal_point.Processor.Node.{main, side}
use focal_point.Ledger.Keys.{
  id_bytes, compute_count_height_index_key, encode_point_tip, branch_byte, branch_of,
}
use focal_point.Ledger.Reads.{
  LedgerDisk, found, first_byte, get_point_tip, get_branch_type, get_count_id_for_height,
}
use focal_point.Ledger.Batches.{prune_indices, restore_indices}
use focal_point.Ledger.Batches.Prefixes.{
  prune_indices-Avoids, restore_indices-Avoids, when_old-Avoids,
}
use focal_point.Ledger.Connect.{connect_batch, disconnect_batch, connect_count, disconnect_count}
use focal_point.Ledger.Connect.Parts.{
  Connected, Disconnected, connect_batch-Connected, disconnect_batch-Disconnected,
  write_batch-eq-ok, connect_considerations-Avoids, disconnect_considerations-Avoids,
}
use focal_point.Ledger.Connect.Words.{Moved, whole-Moved}
use focal_point.Ledger.Keys.Decoded.{decode_point_tip-encode_point_tip, copy_id-id_bytes}
use focal_point.ImbalanceCache.{reset}

module _ {D : Type 0} (l : LedgerDisk D) (is : IsLevelDb l.db) (d d' : D) (id : CountId)
    (count : Count) (ids : List ConsiderationId) where
  pub connect_count-Moved :
      connect_count l id count d ≡ (ok ids, d')
      → (batch : List Write) × (c : Connected l d id count (ids, batch)) × Moved l d d' c.done.cache
          count.header.height id
          (some (id_bytes id))
          (branch_byte main ∷ [])
          (encode_point_tip id count.header.height)
  unfolding connect_count
  connect_count-Moved h =
      let (batch, e, w) = write_batch-eq-ok l d (connect_batch l d id count) ids d' h in
      let c = connect_batch-Connected l d id count (ids, batch) e in
      (
        batch,
        c,
        whole-Moved l is d d' c.done.batch c.old c.done.cache count.header.height id
            (put (compute_count_height_index_key count.header.height) (id_bytes id))
            (branch_byte main ∷ []) (encode_point_tip id count.header.height)
            (λ p other.
              connect_considerations-Avoids l d count.header p other 0 count.considerations reset
                c.done c.looped)
            (λ p other.
              when_old-Avoids p other l count.header.height (prune_indices l) d c.old
                (prune_indices-Avoids p other l) c.pruned)
            refl
            (subst (λ (b : List Write). l.db.write b d ≡ (ok tt, d')) (ground (arith, c.returned))
              w),
      )

  pub disconnect_count-Moved :
      disconnect_count l id count d ≡ (ok ids, d')
      → (batch : List Write) × (c : Disconnected l d id count (ids, batch)) × Moved l d d'
          c.done.cache count.header.height id none
          (branch_byte side ∷ [])
          (encode_point_tip count.header.previous (sub64 count.header.height (pos 1)))
  unfolding disconnect_count
  disconnect_count-Moved h =
      let (batch, e, w) = write_batch-eq-ok l d (disconnect_batch l d id count) ids d' h in
      let c = disconnect_batch-Disconnected l d id count (ids, batch) e in
      (
        batch,
        c,
        whole-Moved l is d d' c.done.batch c.old c.done.cache count.header.height id
            (remove (compute_count_height_index_key count.header.height)) (branch_byte side ∷ [])
            (encode_point_tip count.header.previous (sub64 count.header.height (pos 1)))
            (λ p other.
              disconnect_considerations-Avoids l d count.header p other 0 count.considerations reset
                c.done c.looped)
            (λ p other.
              when_old-Avoids p other l count.header.height (restore_indices l) d c.old
                (restore_indices-Avoids p other l) c.restored)
            refl
            (subst (λ (b : List Write). l.db.write b d ≡ (ok tt, d')) (ground (arith, c.returned))
              w),
      )

  -- When `ConnectCount` of a count succeeds, the tip is that count at its height, the count is on the
  -- main point, and it is what the index gives for its height, where it had no tip or the tip was the
  -- count before it; its identifier has 32 bytes and its height is an int64.
  pub connect_count-tip :
      id < 2 ^ 256
      → Fits64 count.header.height
      → connect_count l id count d ≡ (ok ids, d')
      → (get_point_tip l d' ≡ ok (some (id, count.header.height)))
        × (get_branch_type l id d' ≡ ok main)
        × (get_count_id_for_height l count.header.height d' ≡ ok (some id))
  unfolding get_point_tip get_branch_type get_count_id_for_height found first_byte branch_byte
      branch_of
  connect_count-tip small fits h =
      let (batch, c, m) = connect_count-Moved h in
      (
        ground (
          arith,
          m.tip_read,
          decode_point_tip-encode_point_tip id count.header.height small fits,
        ),
        ground (arith, m.branch_read),
        ground (arith, m.height_read, copy_id-id_bytes id small),
      )

  -- When `DisconnectCount` of a count succeeds, the count was the tip, and then the tip is the count
  -- before it at the height below, the count is on a side point, and the index gives nothing for its
  -- height, if the identifier before it has 32 bytes and the height below it is an int64.
  pub disconnect_count-tip :
      count.header.previous < 2 ^ 256
      → Fits64 (sub64 count.header.height (pos 1))
      → disconnect_count l id count d ≡ (ok ids, d')
      → ((height : ℤ) × (get_point_tip l d ≡ ok (some (id, height))))
        × (get_point_tip l d'
            ≡ ok (some (count.header.previous, sub64 count.header.height (pos 1))))
        × (get_branch_type l id d' ≡ ok side)
        × (get_count_id_for_height l count.header.height d' ≡ ok none)
  unfolding get_point_tip get_branch_type get_count_id_for_height found first_byte branch_byte
      branch_of
  disconnect_count-tip small fits h =
      let (batch, c, m) = disconnect_count-Moved h in
      (
        (c.height, c.tip_known),
        ground (
          arith,
          m.tip_read,
          decode_point_tip-encode_point_tip count.header.previous
              (sub64 count.header.height (pos 1)) small fits,
        ),
        ground (arith, m.branch_read),
        ground (arith, m.height_read),
      )
