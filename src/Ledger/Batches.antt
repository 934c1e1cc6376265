-- ===== src/Ledger/Batches.antt =====
-- What `ConnectCount` and `DisconnectCount` of ledger_disk.go put into their batch of writes: the
-- indices of a consideration, the imbalances of the cache, and the pruned or restored indices.
pub mod Prefixes
pub mod Same
pub mod Imbalances
use focal_point.Prelude.{
  ℕ, suc, ◌*◌, ◌≡◌, Bool, true, false, ◌&&◌, Option, none, some, List, [], ◌∷◌, ◌++◌, Bytes, ℤ, pos,
  sub64, eqb_ℤ, leb_ℤ, Result, ok, err, panic, ◌>>=◌, if◌then◌else◌, missing_height,
  missing_countpoint, not_found,
}
use focal_point.LevelDb.{Write, put, remove}
use focal_point.Constants.{counts_until_new_series, counterpoint_maturity}
use focal_point.Consideration.{Consideration, ConsiderationId, consideration_id, is_counter_point}
use focal_point.Count.{Count, CountHeader}
use focal_point.ImbalanceCache.{Cache}
use focal_point.Ledger.Keys.{
  compute_consideration_index_key, compute_pub_key_consideration_index_key,
  compute_pub_key_imbalance_key, encode_consideration_index, encode_number,
}
use focal_point.Ledger.Reads.{LedgerDisk, get_count_id_for_height}

-- The keys under which both parties find the consideration.
unfoldable pub party_keys : ℤ → ℕ → Consideration → List Bytes
party_keys height i cn =
    let recipient = compute_pub_key_consideration_index_key cn.for (some height) (some (pos i)) in
    if is_counter_point cn
    then recipient ∷ []
    else compute_pub_key_consideration_index_key cn.by (some height) (some (pos i)) ∷ recipient ∷ []

abbrev pub put_all : List Bytes → List Write
put_all [] = []
put_all (key ∷ keys) = put key (0x1 ∷ []) ∷ put_all keys

abbrev pub remove_all : List Bytes → List Write
remove_all [] = []
remove_all (key ∷ keys) = remove key ∷ remove_all keys

-- The writes that index a consideration, and those that take its indices away.
unfoldable pub index_writes : ℤ → ℕ → ConsiderationId → Consideration → List Write
index_writes height i id cn =
    put (compute_consideration_index_key id) (encode_consideration_index height (pos i))
    ∷ put_all (party_keys height i cn)

unfoldable pub unindex_writes : ℤ → ℕ → ConsiderationId → Consideration → List Write
unindex_writes height i id cn =
    remove (compute_consideration_index_key id) ∷ remove_all (party_keys height i cn)

unfoldable pub imbalance_write : Bytes → ℤ → Write
imbalance_write key imbalance =
    if eqb_ℤ imbalance (pos 0)
    then remove (compute_pub_key_imbalance_key (some key))
    else put (compute_pub_key_imbalance_key (some key)) (encode_number imbalance)

-- The loop over `imbalanceCache.Imbalances()`, whose order is any: here the last entry comes first.
unfoldable pub imbalance_writes : Cache → List Write
imbalance_writes [] = []
imbalance_writes ((key, imbalance) ∷ cache) =
    imbalance_writes cache ++ (imbalance_write key imbalance ∷ [])

module _ {D : Type 0} (l : LedgerDisk D) where
  -- The loops of `pruneIndices` and `restoreIndices`, from the consideration at `i` on.
  unfoldable pub each_consideration :
      (ℤ → ℕ → ConsiderationId → Consideration → List Write)
      → ℤ
      → ℕ
      → List Consideration
      → Result (List Write)
  each_consideration writes height i [] = ok []
  each_consideration writes height i (cn ∷ cns) = do
    id ← consideration_id l.crypto cn
    rest ← each_consideration writes height (suc i) cns
    ok (writes height i id cn ++ rest)

  -- The count at a height of the main point.
  unfoldable pub count_at : ℤ → D → Result Count
  count_at height d = do
    id ← get_count_id_for_height l height d
    id ← elim id [ none ↦ err missing_height | some id ↦ ok id ]
    count ← l.get_count id
    elim count [ none ↦ err not_found | some count ↦ ok count ]

  unfoldable pub prune_indices : ℤ → D → Result (List Write)
  prune_indices height d = do
    count ← count_at height d
    each_consideration unindex_writes count.header.height 0 count.considerations

  unfoldable pub restore_indices : ℤ → D → Result (List Write)
  restore_indices height d = do
    count ← count_at height d
    each_consideration index_writes count.header.height 0 count.considerations

  -- `l.prune && height >= 2*COUNTS_UNTIL_NEW_SERIES`, and the height that is pruned or restored.
  unfoldable pub when_old : ℤ → (ℤ → D → Result (List Write)) → D → Result (List Write)
  when_old height indices d =
      if l.prune && leb_ℤ (pos (2 * counts_until_new_series)) height
      then indices (sub64 height (pos (2 * counts_until_new_series))) d
      else ok []

  -- What a consideration of a count at this height moves: itself, or for a countpoint the one that
  -- is 100 counts deep, if there is one.
  unfoldable pub consideration_to_move : ℤ → Consideration → D → Result (Option Consideration)
  consideration_to_move height cn d =
      let deep = sub64 height (pos counterpoint_maturity) in
      if is_counter_point cn
      then (if leb_ℤ (pos 0) deep
          then (do
            old_id ← get_count_id_for_height l deep d
            old_id ← elim old_id [ none ↦ err missing_height | some id ↦ ok id ]
            old ← l.get_consideration old_id (pos 0)
            elim old [ none ↦ err missing_countpoint | some (cn, header) ↦ ok (some cn) ])
          else ok none)
      else ok (some cn)
