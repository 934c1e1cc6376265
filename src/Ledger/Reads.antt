-- ===== src/Ledger/Reads.antt =====
-- The state of ledger_disk.go and its reads. A nil pointer is none.
use focal_point.Prelude.{
  Bool, Option, none, some, List, [], ◌∷◌, Bytes, ℤ, pos, Result, ok, panic, ◌>>=◌, Action, Map,
  insert, bytes_eq,
}
use focal_point.LevelDb.{LevelDb, put}
use focal_point.Consideration.{Consideration, ConsiderationId, PublicKey, Crypto}
use focal_point.Count.{Count, CountId, CountHeader}
use focal_point.Graph.{Graph}
use focal_point.ImbalanceCache.{key_of}
use focal_point.Processor.Node.{BranchType, unknown}
use focal_point.Ledger.Keys.{
  copy_id, compute_branch_type_key, compute_count_height_index_key, compute_point_tip_key,
  compute_consideration_index_key, compute_pub_key_imbalance_key, decode_point_tip, decode_number,
  decode_consideration_index, branch_byte, branch_of,
}

-- The count storage, of which the ledger makes two reads, does not change with the ledger.
pub record LedgerDisk (D : Type 0) : Type 1 where
  pub Weight : Type 0
  pub db : LevelDb D
  pub get_count : CountId → Result (Option Count)
  pub get_consideration : CountId → ℤ → Result (Option (Consideration × CountHeader))
  pub con_graph : Graph Weight
  pub crypto : Crypto
  pub prune : Bool

-- `elim` on what `Get` found.
unfoldable pub found : {A : Type 0} → Option Bytes → A → (Bytes → Result A) → Result A
found none absent read = ok absent
found (some bytes) absent read = read bytes

unfoldable pub first_byte : Bytes → Result BranchType
first_byte [] = panic
first_byte (b ∷ bytes) = ok (branch_of b)

module _ {D : Type 0} (l : LedgerDisk D) where
  unfoldable pub get_point_tip : D → Result (Option (CountId × ℤ))
  get_point_tip d = do
    bytes ← l.db.get compute_point_tip_key d
    found bytes none (λ bytes. do tip ← decode_point_tip bytes; ok (some tip))

  unfoldable pub get_count_id_for_height : ℤ → D → Result (Option CountId)
  get_count_id_for_height height d = do
    bytes ← l.db.get (compute_count_height_index_key height) d
    found bytes none (λ bytes. ok (some (copy_id bytes)))

  unfoldable pub set_branch_type : CountId → BranchType → Action D (Unit {0})
  set_branch_type id branch_type =
      l.db.write (put (compute_branch_type_key id) (branch_byte branch_type ∷ []) ∷ [])

  unfoldable pub get_branch_type : CountId → D → Result BranchType
  get_branch_type id d = do
    bytes ← l.db.get (compute_branch_type_key id) d
    found bytes unknown first_byte

  unfoldable pub get_public_key_imbalance : D → PublicKey → Result ℤ
  get_public_key_imbalance d key = do
    bytes ← l.db.get (compute_pub_key_imbalance_key key) d
    found bytes (pos 0) (λ bytes. ok (decode_number bytes))

  -- The loop of `GetPublicKeyImbalances`.
  unfoldable pub imbalances_of : D → List PublicKey → Map Bytes ℤ → Result (Map Bytes ℤ)
  imbalances_of d [] imbalances = ok imbalances
  imbalances_of d (key ∷ keys) imbalances = do
    imbalance ← get_public_key_imbalance d key
    imbalances_of d keys (insert (key_of key) imbalance imbalances)

  unfoldable pub get_public_key_imbalances :
      List PublicKey → D → Result (Map Bytes ℤ × Option (CountId × ℤ))
  get_public_key_imbalances keys d = do
    snapshot ← l.db.snapshot d
    tip ← get_point_tip snapshot
    imbalances ← imbalances_of snapshot keys []
    ok (imbalances, tip)

  -- The count may be nil where the consideration is indexed.
  unfoldable pub get_consideration_index :
      ConsiderationId → D → Result (Option (Option CountId × ℤ))
  get_consideration_index id d = do
    snapshot ← l.db.snapshot d
    bytes ← l.db.get (compute_consideration_index_key id) snapshot
    found bytes none (λ bytes. do
      (height, index) ← decode_consideration_index bytes
      count_id ← get_count_id_for_height height snapshot
      ok (some (count_id, index)))
