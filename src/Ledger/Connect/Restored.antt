-- ===== src/Ledger/Connect/Restored.antt =====
-- `DisconnectCount` of ledger_disk.go after `ConnectCount` of the same count.
use focal_point.Prelude.{
  ◌+◌, ◌^◌, ◌<◌, ◌≡◌, refl, sym, ap, ◌∙◌, subst, Option, none, some, List, [], ◌∷◌, ◌++◌, Bytes, ℤ,
  pos, sub64, ==_refl, ok, length, All, arith, lookup, bytes_eq,
}
use focal_point.Binary.RoundTrip.{Fits64}
use focal_point.LevelDb.{Write, put, remove, IsLevelDb}
use focal_point.Consideration.{ConsiderationId, public_key_size}
use focal_point.Count.{Count, CountId}
use focal_point.ImbalanceCache.{Cache, Balances, imbalance, reset}
use focal_point.ImbalanceCache.Balances.{key_of_sized}
use focal_point.ImbalanceCache.Views.{View, Sees, HasParties}
use focal_point.Processor.Node.{main, side}
use focal_point.Ledger.Keys.{
  id_bytes, encode_point_tip, branch_byte, compute_count_height_index_key, compute_branch_type_key,
  compute_point_tip_key,
}
use focal_point.Ledger.Reads.{LedgerDisk, get_public_key_imbalance, get_point_tip}
use focal_point.Ledger.Batches.{imbalance_writes, when_old, restore_indices}
use focal_point.Ledger.Batches.Imbalances.{written_imbalance}
use focal_point.Ledger.Batches.Same.{consideration_to_move-same, restore-prune}
use focal_point.Ledger.Connect.{
  Progress, connect_count, disconnect_count, disconnect_batch, disconnect_considerations,
}
use focal_point.Ledger.Connect.Words.{Moved}
use focal_point.Ledger.Connect.Tip.{connect_count-Moved, disconnect_count-Moved, connect_count-tip}
use focal_point.Ledger.Connect.Loops.{StoredParties, connect_considerations_undone}

-- The imbalances of a ledger, by key.
abbrev pub Holds : {D : Type 0} → LedgerDisk D → D → View → Type 0
Holds l d view =
    (key : Bytes)
    → length key ≡ public_key_size
    → get_public_key_imbalance l d (some key) ≡ ok (pos (view key))

pub Holds-Sees :
    {D : Type 0}
    → (l : LedgerDisk D) → (d : D) → (view : View) → Holds l d view
    → Sees (get_public_key_imbalance l d) reset view
unfolding imbalance reset lookup
Holds-Sees l d view holds key size = holds key size

cached-Sees :
    (ledger : Balances) (cache : Cache) (view : View) (key : Bytes) (v : ℤ)
    → Sees ledger cache view
    → length key ≡ public_key_size
    → lookup key cache ≡ some v
    → v ≡ pos (view key)
unfolding imbalance
cached-Sees ledger cache view key v sees size is =
    ground (arith, sees key size, key_of_sized key size, is)

-- `DisconnectCount` of the tip whose loops go through writes a batch.
disconnect_batch_ready :
    {D : Type 0}
    → (l : LedgerDisk D) → (d : D) → (id : CountId) → (count : Count) → (height : ℤ)
    → (done : Progress) → (restored : List Write) → get_point_tip l d ≡ ok (some (id, height))
    → disconnect_considerations l d count.header 0 count.considerations reset ≡ ok done
    → when_old l count.header.height (restore_indices l) d ≡ ok restored
    → (batch : List Write) × (disconnect_batch l d id count ≡ ok (done.ids, batch))
unfolding disconnect_batch
disconnect_batch_ready l d id count height done restored tip looped r = (
  done.batch
      ++ (imbalance_writes done.cache
          ++ (remove (compute_count_height_index_key count.header.height)
              ∷ put (compute_branch_type_key id) (branch_byte side ∷ [])
              ∷ put compute_point_tip_key
                  (encode_point_tip count.header.previous (sub64 count.header.height (pos 1)))
              ∷ restored)),
  rw tip (rw (==_refl id) (rw looped (rw r refl))),
)

module _ {D : Type 0} (l : LedgerDisk D) (d d' : D) (cache : Cache) (view : View) where
  -- What a moved count writes of the imbalances is what its cache shows.
  pub Moved-Holds :
      (height : ℤ) (id : CountId) (by_height : Option Bytes) (branch tip : Bytes)
      → ((key : Bytes) → view key < 2 ^ 63)
      → Sees (get_public_key_imbalance l d) cache view
      → Moved l d d' cache height id by_height branch tip
      → Holds l d' view
  Moved-Holds height id by_height branch tip room sees moved key size =
      written_imbalance l d d' cache key size
        (λ v is. ground (
          arith,
          cached-Sees (get_public_key_imbalance l d) cache view key v sees size is,
          room key,
        ))
        (moved.imbalance_read key)
      ∙ sees key size

module _ {D : Type 0} (l : LedgerDisk D) (is : IsLevelDb l.db) (stored : StoredParties l) (d d1 : D)
    (id : CountId) (count : Count) (ids : List ConsiderationId) (view : View) where
  -- After `ConnectCount` of a count succeeds, `DisconnectCount` of it gets as far as its write: it
  -- refuses nothing, and it returns the same identifiers. Once that write succeeds, every key of 32
  -- bytes has the imbalance that it had before the count was connected. This is so if the count's
  -- considerations and the stored countpoints are between keys of 32 bytes, the imbalances are natural
  -- numbers that leave room for one more of each consideration, the count's identifier has 32 bytes
  -- and its height is an int64.
  pub disconnect_count-connect_count :
      All HasParties count.considerations
      → ((key : Bytes) → view key + length count.considerations + 1 < 2 ^ 63)
      → Holds l d view
      → id < 2 ^ 256
      → Fits64 count.header.height
      → connect_count l id count d ≡ (ok ids, d1)
      → ((batch : List Write) × (disconnect_batch l d1 id count ≡ ok (ids, batch)))
        × ((ids' : List ConsiderationId) (d2 : D)
            → disconnect_count l id count d1 ≡ (ok ids', d2)
            → (ids' ≡ ids) × Holds l d2 view)
  disconnect_count-connect_count parties room holds small fits h =
      let (batch, c, m) = connect_count-Moved l is d d1 id count ids h in
      let (view', sees, near, back) =
        connect_considerations_undone l stored d count.header 0 count.considerations reset c.done
          view parties room (Holds-Sees l d view holds) c.looped in
      let held =
        Moved-Holds l d d1 c.done.cache view' count.header.height id (some (id_bytes id))
          (branch_byte main ∷ []) (encode_point_tip id count.header.height)
          (λ key. omega (arith, room key, near key)) sees m in
      let (undone, looped, same_ids, shown) =
        back d1 (consideration_to_move-same l d d1 count.header.height fits m.other_height_read)
          reset (Holds-Sees l d1 view' held) in
      let (restored, r) =
        restore-prune l d d1 count.header.height fits m.other_height_read c.old c.pruned in
      let (tip, on_main, indexed) = connect_count-tip l is d d1 id count ids small fits h in
      let (batch1, ready) =
        disconnect_batch_ready l d1 id count count.header.height undone restored tip looped r in
      let same_ids : undone.ids ≡ ids = ground (arith, same_ids, c.returned) in
      (
        (batch1, ready ∙ ap (λ (i : List ConsiderationId). ok (i, batch1)) same_ids),
        λ ids' d2 h2.
            let (batch2, c2, m2) = disconnect_count-Moved l is d1 d2 id count ids' h2 in
            let done2 : c2.done ≡ undone = ground (arith, c2.looped, looped) in
            (
              ground (arith, c2.returned, done2, same_ids),
              Moved-Holds l d1 d2 c2.done.cache view count.header.height id none
                  (branch_byte side ∷ [])
                  (encode_point_tip count.header.previous (sub64 count.header.height (pos 1)))
                  (λ key. omega (arith, room key))
                  (subst (λ (p : Progress). Sees (get_public_key_imbalance l d1) p.cache view)
                    (sym done2) shown)
                  m2,
            ),
      )
