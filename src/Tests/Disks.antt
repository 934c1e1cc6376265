-- ===== src/Tests/Disks.antt =====
-- The theorems on the storage of counts, and on a node with its ledger and counts on disk.
use focal_point.Prelude.{
  replicate, ℕ, ap, ◌≡◌, ◌≢◌, refl, Bool, true, false, Option, none, some, [], ◌∷◌, ◌++◌, Bytes,
  pos, Result, ok, err, storage, ◌<◌, ◌^◌, lookup, insert, lookup-insert, bytes_eq, bytes_equal_iff,
  arith, All,
}
use focal_point.Count.{CountId, CountHeader}
use focal_point.CountStorage.Disk.{
  count_file, store_file, store_header, encode_count_header, decode_count_header, FileSystem,
  CountStorageDisk, Storage, store, get_count, get_count_header,
}
use focal_point.CountStorage.Stored.{IsFileSystem, IsPlain, get_count-store}
use focal_point.Processor.Checks.{valid_string}
use focal_point.Tests.Codecs.{encode, toy_codecs, toy_codecs-IsCodecs}
use focal_point.Binary.{
  be_int64, be_bytes, pattern64, read_bytes, read_int64, from_be, from_be_after,
}
use focal_point.Graph.{new_graph}
use focal_point.ConsiderationQueue.{new_queue}
use focal_point.Processor.Node.{World, reading, on_backend}
use focal_point.Processor.Accept.{accept_count_continue, get_point_tip_header}
use focal_point.DiskNode.{Opened, Stores, disk_processor, on_ledger}
use focal_point.DiskNode.Tip.{Followed, accept_count_continue-Followed}
use focal_point.Ledger.Reads.{get_point_tip, set_branch_type, found}
use focal_point.Ledger.Keys.{
  compute_point_tip_key, decode_point_tip, id_bytes, compute_branch_type_key, branch_byte,
}
use focal_point.Count.{compare_headers}
use focal_point.Tests.Data.{header, count, toy_hashing}
use focal_point.Tests.Databases.{Database, toy_db, toy_db-IsLevelDb, apply_writes}

abbrev found_file : Option Bytes → Result Bytes
found_file none = err storage
found_file (some bytes) = ok bytes

abbrev is_there : Option Bytes → Bool
is_there none = false
is_there (some bytes) = true

abbrev toy_files : FileSystem Database
toy_files = record {
  exists = λ path f. is_there (lookup path f);
  read = λ path f. found_file (lookup path f);
  write = λ path bytes f. (ok tt, insert path bytes f);
}

toy_files-IsFileSystem : IsFileSystem toy_files
toy_files-IsFileSystem = record {
  read-write = λ path bytes f f' h.
      let there : lookup path f' ≡ some bytes =
        ground (arith, lookup-insert path path bytes f, (bytes_equal_iff path path).1 refl) in
      (ap found_file there, ap is_there there);
}

abbrev toy_store : CountStorageDisk Database Database
toy_store = record {
  db = toy_db;
  files = toy_files;
  codecs = toy_codecs;
  dir_path = b'c' ∷ [];
  read_only_mode = false;
  compressing = true;
}

abbrev nothing_stored : Storage Database Database
nothing_stored = record { headers = []; counts = [] }

abbrev stored_count : Storage Database Database
stored_count = (store toy_store 5 count (pos 900) nothing_stored).1

stores_count : store toy_store 5 count (pos 900) nothing_stored ≡ (ok tt, stored_count)
unfolding store count_file store_file store_header encode_count_header
stores_count = refl

count-IsPlain : All IsPlain count.considerations
unfolding valid_string
count-IsPlain = ((refl, λ e. ground (arith, e)), ((refl, λ e. ground (arith, e)), tt))

get_count-store_example :
    (toy_store.read_only_mode ≡ false)
    × (get_count toy_store 5 stored_count ≡ ok (record count { hasher = [] }))
    × (get_count_header toy_store 5 stored_count ≡ ok (some (header, pos 900)))
    × ((other : CountId)
        → other < 2 ^ 256
        → other ≢ 5
        → get_count_header toy_store other stored_count
          ≡ get_count_header toy_store other nothing_stored)
get_count-store_example =
    get_count-store toy_store toy_db-IsLevelDb toy_files-IsFileSystem toy_codecs-IsCodecs 5 count
      (pos 900) count-IsPlain nothing_stored stored_count (omega arith) (omega arith) stores_count

abbrev toy_node : Opened Database Database Database
toy_node = record {
  Weight = ℕ;
  ledger_db = toy_db;
  count_store = toy_store;
  con_graph = new_graph;
  hashing = toy_hashing;
  prune = false;
  genesis_id = 0;
}

-- A better header, of count 9, is the tip.
abbrev best : CountHeader
best = record header { point_work = 2 ^ 40 }

abbrev before : World (Stores Database Database Database)
before = record {
  backend = (
    (b'T' ∷ [], replicate 31 0 ++ (9 ∷ replicate 7 0 ++ (1 ∷ []))) ∷ [],
    record {
      headers = (replicate 31 0 ++ (9 ∷ []), be_int64 (pos 900) ++ encode best) ∷ [];
      counts = [];
    },
  );
  queue = new_queue;
  tip_changes = [];
  new_txs = [];
}

abbrev followed : World (Stores Database Database Database)
followed = (accept_count_continue (disk_processor toy_node) 5 count (pos 950) none [] before).1

accepts :
    accept_count_continue (disk_processor toy_node) 5 count (pos 950) none [] before
    ≡ (ok tt, followed)
unfolding accept_count_continue reading get_point_tip_header get_point_tip found lookup insert
    compute_point_tip_key decode_point_tip read_bytes read_int64 get_count_header id_bytes be_bytes
    decode_count_header be_int64 pattern64 from_be from_be_after compare_headers on_backend
    on_ledger set_branch_type compute_branch_type_key branch_byte apply_writes
accepts = refl

accept_count_continue-Followed_example : Followed toy_node 5 count (pos 950) before followed
accept_count_continue-Followed_example =
    accept_count_continue-Followed toy_node toy_db-IsLevelDb 5 count (pos 950) none [] before
      followed (omega arith) (omega arith) accepts
