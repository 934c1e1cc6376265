-- ===== src/Tests/Ledgers.antt =====
-- The theorems on the ledger at an empty database but for one imbalance.
use focal_point.Prelude.{
  not_tip, ap, Bool-cases, inl, inr, ℕ, ◌+◌, ◌^◌, ◌<◌, ◌≡◌, refl, true, none, some, List, [], ◌∷◌,
  Bytes, ℤ, pos, sub64, ok, err, All, arith, length, bytes_equal, if◌then◌else◌, add64, lookup,
  delete, wrap64, ◌-ℤ◌, ◌+ℤ◌, insert,
}
use focal_point.Binary.RoundTrip.{Fits64}
use focal_point.LevelDb.{Write}
use focal_point.Consideration.{Consideration, ConsiderationId, consideration_id, is_counter_point}
use focal_point.Graph.{
  new_graph, all_successors, contains_int, dfs, is_parent_descendant, scan, sender_descends,
}
use focal_point.ImbalanceCache.Views.{View, HasParties}
use focal_point.Processor.Node.{main, side}
use focal_point.Ledger.Keys.{
  encode_number, decode_number, compute_point_tip_key, compute_consideration_index_key, branch_byte,
  compute_branch_type_key, compute_count_height_index_key, compute_pub_key_consideration_index_key,
  compute_pub_key_imbalance_key, copy_id, decode_point_tip, encode_consideration_index,
  encode_point_tip, id_bytes,
}
use focal_point.Ledger.Reads.{
  LedgerDisk, get_public_key_imbalance, get_point_tip, get_branch_type, get_count_id_for_height,
  found,
}
use focal_point.Ledger.Connect.{
  connect_count, disconnect_count, disconnect_batch, write_batch, connect_batch,
  disconnect_considerations, disconnect_consideration, undo_in_cache, connect_considerations,
  connect_consideration, apply_to_cache,
}
use focal_point.Ledger.Connect.Loops.{StoredParties}
use focal_point.Ledger.Connect.Tip.{connect_count-tip, disconnect_count-tip}
use focal_point.Ledger.Connect.Restored.{Holds, disconnect_count-connect_count}
use focal_point.Ledger.Connect.Refined.{
  AbstractLedger, Represents, Connects, moves_of, connect_count-Connects,
}
use focal_point.Ledger.Batches.{
  consideration_to_move, count_at, each_consideration, imbalance_write, imbalance_writes,
  index_writes, unindex_writes, party_keys, when_old, prune_indices, restore_indices,
}
use focal_point.ImbalanceCache.{
  apply, undo, debit_recipient, credit, debit_sender, imbalance, reset,
}
use focal_point.Binary.{
  be_bytes, be_int32, be_int64, from_be, from_be_after, pattern32, pattern64, read_bytes,
  read_int64,
}
use focal_point.Utils.{base64, base64_digit, contains_byte, pad44, pub_key_to_string, slashed}
use focal_point.Ledger.Keys.{
  compute_pub_key_consideration_index_key, decode_pub_key_consideration_index_key,
}
use focal_point.Ledger.Keys.Decoded.{decode_pub_key_consideration_index_key-compute}
use focal_point.Ledger.Ranges.{get_public_key_consideration_indices_range}
use focal_point.Ledger.Ranges.Queries.{described, get_public_key_consideration_indices_range_lem}
use focal_point.Tests.Data.{header, count, key_a, key_b, toy_crypto}
use focal_point.Tests.Databases.{Database, toy_db, toy_db-IsLevelDb, apply_writes}

abbrev toy_ledger : LedgerDisk Database
toy_ledger = record {
  Weight = ℕ;
  db = toy_db;
  get_count = λ id. ok none;
  get_consideration = λ id index. ok none;
  con_graph = new_graph;
  crypto = toy_crypto;
  prune = true;
}

-- `key_a` has five.
abbrev rich : Database
rich = (b'b' ∷ key_a, 0 ∷ 0 ∷ 0 ∷ 0 ∷ 0 ∷ 0 ∷ 0 ∷ 5 ∷ []) ∷ []

abbrev fives : View
fives key = if bytes_equal key_a key then 5 else 0

abbrev connected : Database
connected = (connect_count toy_ledger 5 count rich).1

count-connects : connect_count toy_ledger 5 count rich ≡ (ok (3 ∷ 7 ∷ []), connected)
unfolding connect_count write_batch connect_batch disconnect_batch disconnect_considerations
    disconnect_consideration undo_in_cache get_point_tip found lookup delete compute_point_tip_key
    connect_considerations connect_consideration consideration_id compute_consideration_index_key
    consideration_to_move is_counter_point sub64 wrap64 ◌-ℤ◌ apply_to_cache apply undo
    debit_recipient be_bytes be_int32 be_int64 from_be from_be_after pattern32 pattern64 read_bytes
    read_int64 all_successors contains_int dfs is_parent_descendant scan sender_descends credit
    debit_sender imbalance reset count_at each_consideration imbalance_write imbalance_writes
    index_writes unindex_writes party_keys when_old prune_indices restore_indices branch_byte
    compute_branch_type_key compute_count_height_index_key compute_pub_key_consideration_index_key
    compute_pub_key_imbalance_key copy_id decode_number decode_point_tip encode_consideration_index
    encode_number encode_point_tip id_bytes get_count_id_for_height get_public_key_imbalance add64
    ◌+ℤ◌ insert base64 base64_digit contains_byte pad44 pub_key_to_string slashed apply_writes
    new_graph
count-connects = refl

abbrev disconnected : Database
disconnected = (disconnect_count toy_ledger 5 count connected).1

count-disconnects : disconnect_count toy_ledger 5 count connected ≡ (ok (3 ∷ 7 ∷ []), disconnected)
unfolding disconnect_count connect_count write_batch connect_batch disconnect_batch
    disconnect_considerations disconnect_consideration undo_in_cache get_point_tip found lookup
    delete compute_point_tip_key connect_considerations connect_consideration consideration_id
    compute_consideration_index_key consideration_to_move is_counter_point sub64 wrap64 ◌-ℤ◌
    apply_to_cache apply undo debit_recipient be_bytes be_int32 be_int64 from_be from_be_after
    pattern32 pattern64 read_bytes read_int64 all_successors contains_int dfs is_parent_descendant
    scan sender_descends credit debit_sender imbalance reset count_at each_consideration
    imbalance_write imbalance_writes index_writes unindex_writes party_keys when_old prune_indices
    restore_indices branch_byte compute_branch_type_key compute_count_height_index_key
    compute_pub_key_consideration_index_key compute_pub_key_imbalance_key copy_id decode_number
    decode_point_tip encode_consideration_index encode_number encode_point_tip id_bytes
    get_count_id_for_height get_public_key_imbalance add64 ◌+ℤ◌ insert base64 base64_digit
    contains_byte pad44 pub_key_to_string slashed apply_writes new_graph
count-disconnects = refl

five_bytes : decode_number (0 ∷ 0 ∷ 0 ∷ 0 ∷ 0 ∷ 0 ∷ 0 ∷ 5 ∷ []) ≡ pos 5
unfolding decode_number read_int64 read_bytes from_be from_be_after
five_bytes = refl

one_holds :
    (a key bytes : Bytes)
    → decode_number bytes ≡ pos 5
    → get_public_key_imbalance toy_ledger ((b'b' ∷ a, bytes) ∷ []) (some key)
      ≡ ok (pos (if bytes_equal a key then 5 else 0))
unfolding get_public_key_imbalance compute_pub_key_imbalance_key found lookup
one_holds a key bytes five = elim (Bool-cases (bytes_equal a key)) [
  | inl e ↦ rw e (ap (λ n. ok n) five)
  | inr e ↦ rw e refl
]

rich-Holds : Holds toy_ledger rich fives
rich-Holds key size = one_holds key_a key (0 ∷ 0 ∷ 0 ∷ 0 ∷ 0 ∷ 0 ∷ 0 ∷ 5 ∷ []) five_bytes

no_countpoints : StoredParties toy_ledger
no_countpoints id cn header h = absurd (ground arith)

both_sized : All HasParties count.considerations
both_sized = (
  record { recipient = key_b; received = refl; recipient_size = refl; sender_size = tt },
  (record { recipient = key_b; received = refl; recipient_size = refl; sender_size = refl }, tt),
)

fives_small : (key : Bytes) → fives key + length count.considerations + 1 < 2 ^ 63
fives_small key = ground arith

height_zero : Fits64 (sub64 (pos 1) (pos 1))
unfolding sub64 wrap64 ◌-ℤ◌
height_zero = omega arith

connect_count-tip_example :
    (get_point_tip toy_ledger connected ≡ ok (some (5, pos 1)))
    × (get_branch_type toy_ledger 5 connected ≡ ok main)
    × (get_count_id_for_height toy_ledger (pos 1) connected ≡ ok (some 5))
connect_count-tip_example =
    connect_count-tip toy_ledger toy_db-IsLevelDb rich connected 5 count (3 ∷ 7 ∷ []) (omega arith)
      (omega arith) count-connects

disconnect_count-tip_example :
    ((height : ℤ) × (get_point_tip toy_ledger connected ≡ ok (some (5, height))))
    × (get_point_tip toy_ledger disconnected ≡ ok (some (0, sub64 (pos 1) (pos 1))))
    × (get_branch_type toy_ledger 5 disconnected ≡ ok side)
    × (get_count_id_for_height toy_ledger (pos 1) disconnected ≡ ok none)
disconnect_count-tip_example =
    disconnect_count-tip toy_ledger toy_db-IsLevelDb connected disconnected 5 count (3 ∷ 7 ∷ [])
      (omega arith) height_zero count-disconnects

disconnect_count-connect_count_example :
    ((batch : List Write) × (disconnect_batch toy_ledger connected 5 count
        ≡ ok (3 ∷ 7 ∷ [], batch)))
    × ((ids : List ConsiderationId) (d : Database)
        → disconnect_count toy_ledger 5 count connected ≡ (ok ids, d)
        → (ids ≡ 3 ∷ 7 ∷ []) × Holds toy_ledger d fives)
disconnect_count-connect_count_example =
    disconnect_count-connect_count toy_ledger toy_db-IsLevelDb no_countpoints rich connected 5 count
      (3 ∷ 7 ∷ []) fives both_sized fives_small rich-Holds (omega arith) (omega arith)
      count-connects

abbrev rich_ledger : AbstractLedger
rich_ledger = record { tip = none; view = fives }

rich-Represents : Represents toy_ledger rich rich_ledger
unfolding get_point_tip found lookup compute_point_tip_key
rich-Represents = record { tip_is = refl; holds = rich-Holds }

connect_count-Connects_example :
    (moved : List Consideration) × (a : AbstractLedger) × (moves_of toy_ledger rich
        (pos 1)
        count.considerations
      ≡ ok moved)
    × Connects 5 header moved rich_ledger a
    × Represents toy_ledger connected a
connect_count-Connects_example =
    connect_count-Connects toy_ledger toy_db-IsLevelDb no_countpoints rich connected rich_ledger 5
      count (3 ∷ 7 ∷ []) rich-Represents both_sized fives_small (omega arith) (omega arith)
      count-connects

tip_missing : disconnect_count toy_ledger 6 count rich ≡ (err not_tip, rich)
unfolding disconnect_count write_batch disconnect_batch get_point_tip found lookup
    compute_point_tip_key
tip_missing = refl

decode_pub_key_consideration_index_key-compute_example :
    decode_pub_key_consideration_index_key
      (compute_pub_key_consideration_index_key (some key_b) (some (pos 1)) (some (pos 0)))
    ≡ ok (key_b, pos 1, pos 0)
decode_pub_key_consideration_index_key-compute_example =
    decode_pub_key_consideration_index_key-compute key_b (pos 1) (pos 0) refl (omega arith)
      (omega arith)

get_public_key_consideration_indices_range_lem_example :
    get_public_key_consideration_indices_range toy_ledger
      (some key_b)
      (pos 0)
      (pos 5)
      (pos 0)
      (pos 1)
      connected
    ≡ described toy_ledger connected
        (toy_db.forward
          (compute_pub_key_consideration_index_key (some key_b) (some (pos 0)) (some (pos 0)))
          (compute_pub_key_consideration_index_key (some key_b) (some (add64 (pos 5) (pos 1))) none)
          connected)
        1
get_public_key_consideration_indices_range_lem_example =
    get_public_key_consideration_indices_range_lem toy_ledger (some key_b) (pos 0) (pos 5) (pos 0) 1
      connected
