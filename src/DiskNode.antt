-- ===== src/DiskNode.antt =====
-- The processor over the ledger of ledger_disk.go and the storage of stage_storage_disk.go, as
-- client/main.go puts them together.
pub mod Tip
use focal_point.Prelude.{
  ℕ, Bool, ◌≡◌, Option, none, some, Bytes, ℤ, Result, ok, err, panic, ◌>>=◌, Action,
}
use focal_point.Consideration.{Consideration, ConsiderationId, Crypto}
use focal_point.Count.{Count, CountId, CountHeader, Hashing}
use focal_point.Graph.{Graph}
use focal_point.LevelDb.{LevelDb}
use focal_point.Processor.Node.{Backend, Processor}
use focal_point.Ledger.Reads.{
  LedgerDisk, get_point_tip, get_count_id_for_height, get_branch_type, set_branch_type,
  get_consideration_index, get_public_key_imbalance,
}
use focal_point.Ledger.Connect.{connect_count, disconnect_count}
use focal_point.CountStorage.Disk.{
  CountStorageDisk, Storage, store, get_count, get_count_header, get_consideration,
}

-- What a node is opened with.
pub record Opened (D C F : Type 0) : Type 1 where
  pub Weight : Type 0
  pub ledger_db : LevelDb D
  pub count_store : CountStorageDisk C F
  pub con_graph : Graph Weight
  pub hashing : Hashing
  pub prune : Bool
  pub genesis_id : CountId

-- The ledger's database, and the counts with their headers.
abbrev pub Stores : (D C F : Type 0) → Type 0
Stores D C F = D × Storage C F

module _ {D C F : Type 0} (o : Opened D C F) where
  -- `NewLedgerDisk`, with the counts as they are stored now.
  abbrev pub ledger_on : Storage C F → LedgerDisk D
  ledger_on stored = record {
    Weight = o.Weight;
    db = o.ledger_db;
    get_count = λ id. (do count ← get_count o.count_store id stored; ok (some count));
    get_consideration =
        λ id index. (do found ← get_consideration o.count_store id index stored; ok (some found));
    con_graph = o.con_graph;
    crypto = o.hashing.crypto;
    prune = o.prune;
  }

  -- A call that may change the ledger, or the storage.
  unfoldable pub on_ledger : {A : Type 0} → (LedgerDisk D → Action D A) → Action (Stores D C F) A
  on_ledger call (d, stored) = let (r, d) = call (ledger_on stored) d in (r, (d, stored))

  unfoldable pub on_storage : {A : Type 0} → Action (Storage C F) A → Action (Stores D C F) A
  on_storage call (d, stored) = let (r, stored) = call stored in (r, (d, stored))

  unfoldable pub placed_index : Option (Option CountId × ℤ) → Option (CountId × ℤ)
  placed_index none = none
  placed_index (some (none, index)) = none
  placed_index (some (some id, index)) = some (id, index)

  abbrev pub disk_backend : Backend (Stores D C F)
  disk_backend = record {
    get_count = λ id s. (do count ← get_count o.count_store id s.1; ok (some count));
    get_count_header = λ id s. get_count_header o.count_store id s.1;
    store = λ id count now. on_storage (store o.count_store id count now);
    get_point_tip = λ s. get_point_tip (ledger_on s.1) s.0;
    get_count_id_for_height = λ height s. get_count_id_for_height (ledger_on s.1) height s.0;
    get_branch_type = λ id s. get_branch_type (ledger_on s.1) id s.0;
    set_branch_type = λ id branch_type. on_ledger (λ l. set_branch_type l id branch_type);
    connect_count = λ id count. on_ledger (λ l. connect_count l id count);
    disconnect_count = λ id count. on_ledger (λ l. disconnect_count l id count);
    get_consideration_index = λ id s. (do
      found ← get_consideration_index (ledger_on s.1) id s.0
      ok (placed_index found));
    get_public_key_imbalance = λ s key. get_public_key_imbalance (ledger_on s.1) s.0 key;
  }

  abbrev pub disk_processor : Processor (Stores D C F)
  disk_processor = record {
    Weight = o.Weight;
    genesis_id = o.genesis_id;
    hashing = o.hashing;
    backend = disk_backend;
    graph = o.con_graph;
  }
