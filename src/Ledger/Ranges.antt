-- ===== src/Ledger/Ranges.antt =====
-- The queries of ledger_disk.go over ranges of keys: the considerations of a party between two
-- heights, the sum of all imbalances, and an imbalance in the past.
pub mod Visited
pub mod Queries
use focal_point.Prelude.{
  ℕ, suc, ◌≡◌, Bool, true, false, not, ◌&&◌, Option, none, some, List, [], ◌∷◌, ◌++◌, Bytes, ℤ, pos,
  add64, sub64, eqb_ℤ, ltb_ℤ, leb_ℤ, ◌==◌, Result, ok, err, panic, ◌>>=◌, ◌>>◌, fail_if,
  if◌then◌else◌, Error, not_found, storage, Map, lookup, insert, int_eq, bytes_equal, length,
}
use focal_point.LevelDb.{LevelDb, Visit}
use focal_point.Constants.{counterpoint_maturity}
use focal_point.Consideration.{Consideration, PublicKey, raw}
use focal_point.Count.{CountId, CountHeader}
use focal_point.Ledger.Keys.{
  compute_pub_key_consideration_index_key, decode_pub_key_consideration_index_key,
  compute_pub_key_imbalance_key, decode_number,
}
use focal_point.Ledger.Reads.{LedgerDisk, get_point_tip, get_count_id_for_height}

-- The named results of a query by range.
pub record Indices : Type 0 where
  pub ids : List CountId
  pub indices : List ℤ
  pub last_height : ℤ
  pub last_index : ℤ

abbrev pub no_indices : Indices
no_indices = record { ids = []; indices = []; last_height = pos 0; last_index = pos 0 }

-- `iter.Error()` after the loop.
unfoldable pub at_end : {A : Type 0} → Option Error → A → Result A
at_end none result = ok result
at_end (some e) result = err e

module _ {D : Type 0} (l : LedgerDisk D) where
  -- The count at a height, by the map of those looked up before, and the map after it.
  unfoldable pub id_at : D → ℤ → Map ℤ CountId → Result (CountId × Map ℤ CountId)
  id_at snapshot height height_map = elim (lookup height height_map) [
    | some id ↦ ok (id, height_map)
    | none ↦ do
      id ← get_count_id_for_height l height snapshot
      elim id [ none ↦ err not_found | some id ↦ ok (id, insert height id height_map) ]
  ]

  -- The loop over the iterator. A limit of 0 is none; to break from the loop passes over
  -- `iter.Error()`'s failure, which comes after what was visited.
  unfoldable pub collect :
      D → Option Error → ℤ → List (Bytes × Bytes) → Map ℤ CountId → Indices → Result Indices
  collect snapshot failure limit [] height_map out = at_end failure out
  collect snapshot failure limit ((key, value) ∷ entries) height_map out = do
    (party, height, index) ← decode_pub_key_consideration_index_key key
    (id, height_map) ← id_at snapshot height height_map
    let out : Indices = record {
      ids = out.ids ++ (id ∷ []);
      indices = out.indices ++ (index ∷ []);
      last_height = height;
      last_index = index;
    }
    if not (eqb_ℤ limit (pos 0)) && eqb_ℤ (pos (length out.indices)) limit
        then ok out
        else collect snapshot failure limit entries height_map out

  unfoldable pub get_public_key_consideration_indices_range_forward :
      PublicKey → (start_height end_height start_index limit : ℤ) → D → Result Indices
  get_public_key_consideration_indices_range_forward key start_height end_height start_index limit
        d =
      let start_key =
        compute_pub_key_consideration_index_key key (some start_height) (some start_index) in
      let end_key =
        compute_pub_key_consideration_index_key key (some (add64 end_height (pos 1))) none in
      do
        snapshot ← l.db.snapshot d
        let visit = l.db.forward start_key end_key snapshot
        collect snapshot visit.failure limit visit.entries [] no_indices

  unfoldable pub get_public_key_consideration_indices_range_reverse :
      PublicKey → (start_height end_height start_index limit : ℤ) → D → Result Indices
  get_public_key_consideration_indices_range_reverse key start_height end_height start_index limit
        d =
      let end_key = compute_pub_key_consideration_index_key key (some end_height) none in
      let start_key =
        compute_pub_key_consideration_index_key key (some start_height)
          (some (add64 start_index (pos 1))) in
      do
        snapshot ← l.db.snapshot d
        let visit = l.db.backward end_key start_key snapshot
        collect snapshot visit.failure limit visit.entries [] no_indices

  unfoldable pub get_public_key_consideration_indices_range :
      PublicKey → (start_height end_height start_index limit : ℤ) → D → Result Indices
  get_public_key_consideration_indices_range key start_height end_height start_index limit d =
      if leb_ℤ start_height end_height
      then get_public_key_consideration_indices_range_forward key start_height end_height
          start_index limit d
      else get_public_key_consideration_indices_range_reverse key start_height end_height
          start_index limit d

  -- The loop of `Imbalance`.
  unfoldable pub sum_imbalances : List (Bytes × Bytes) → ℤ → ℤ
  sum_imbalances [] total = total
  sum_imbalances ((key, value) ∷ entries) total =
      sum_imbalances entries (add64 total (decode_number value))

  unfoldable pub total_imbalance : D → Result ℤ
  total_imbalance d =
      let visit = l.db.with_prefix (compute_pub_key_imbalance_key none) d in
      at_end visit.failure (sum_imbalances visit.entries (pos 0))

  -- The body of the loop of `GetPublicKeyImbalanceAt`, for a consideration that counts.
  unfoldable pub imbalance_change : PublicKey → ℤ → ℤ → D → ℤ → Result ℤ
  imbalance_change key height index d imbalance = do
    id ← get_count_id_for_height l height d
    id ← elim id [ none ↦ err not_found | some id ↦ ok id ]
    cn ← l.get_consideration id index
    elim cn [
      | none ↦ err not_found
      | some (cn, header) ↦
          if bytes_equal (raw key) (raw cn.for)
          then ok (add64 imbalance (pos 1))
          else if bytes_equal (raw key) (raw cn.by)
          then ok (sub64 imbalance (pos 1))
          else err not_found
    ]

  unfoldable pub sum_changes :
      PublicKey → ℤ → Option Error → D → List (Bytes × Bytes) → ℤ → Result ℤ
  sum_changes key current_height failure d [] imbalance = at_end failure imbalance
  sum_changes key current_height failure d ((index_key, value) ∷ entries) imbalance = do
    (party, height, index) ← decode_pub_key_consideration_index_key index_key
    imbalance ←
        if eqb_ℤ index (pos 0) && ltb_ℤ (sub64 current_height (pos counterpoint_maturity)) height
        then ok imbalance
        else imbalance_change key height index d imbalance
    sum_changes key current_height failure d entries imbalance

  -- With no tip the current height is 0.
  unfoldable pub get_public_key_imbalance_at : PublicKey → ℤ → D → Result ℤ
  get_public_key_imbalance_at key height d = do
    tip ← get_point_tip l d
    let start_key = compute_pub_key_consideration_index_key key none none
    let end_key = compute_pub_key_consideration_index_key key (some (add64 height (pos 1))) none
    let visit = l.db.forward start_key end_key d
    sum_changes key (elim tip [ none ↦ pos 0 | some (id, height) ↦ height ]) visit.failure d
        visit.entries (pos 0)
