-- ===== src/Ledger/Keys.antt =====
-- The schema of ledger_disk.go: its keys, its values and their encodings. A write to a
-- bytes.Buffer never fails.

pub mod Decoded
use focal_point.Prelude.{
  ℕ, ◌≡◌, Option, none, some, List, [], ◌∷◌, ◌++◌, Bytes, ℤ, pos, Result, ok, err, panic, ◌>>=◌,
  take, replicate, if◌then◌else◌, ◌==◌, ◌%◌,
}
use focal_point.Binary.{be_bytes, from_be, be_int64, be_int32, read_bytes, read_int64, read_int32}
use focal_point.Consideration.{PublicKey, ConsiderationId, raw, public_key_size}
use focal_point.Count.{CountId}
use focal_point.Processor.Node.{BranchType, main, side, orphan, unknown, unnamed}

abbrev pub point_tip_prefix : ℕ
point_tip_prefix = b'T'

abbrev pub branch_type_prefix : ℕ
branch_type_prefix = b'B'

abbrev pub count_height_index_prefix : ℕ
count_height_index_prefix = b'h'

abbrev pub consideration_index_prefix : ℕ
consideration_index_prefix = b't'

abbrev pub pub_key_consideration_index_prefix : ℕ
pub_key_consideration_index_prefix = b'k'

abbrev pub pub_key_imbalance_prefix : ℕ
pub_key_imbalance_prefix = b'b'

-- The 32 bytes of an identifier, and `copy` of bytes into a zeroed one.
unfoldable pub id_bytes : ℕ → Bytes
id_bytes id = be_bytes 32 id

unfoldable pub copy_id : Bytes → ℕ
copy_id bytes = from_be (take 32 (bytes ++ replicate 32 0))

unfoldable pub compute_branch_type_key : CountId → Bytes
compute_branch_type_key id = branch_type_prefix ∷ id_bytes id

unfoldable pub compute_count_height_index_key : ℤ → Bytes
compute_count_height_index_key height = count_height_index_prefix ∷ be_int64 height

unfoldable pub compute_point_tip_key : Bytes
compute_point_tip_key = point_tip_prefix ∷ []

unfoldable pub compute_consideration_index_key : ConsiderationId → Bytes
compute_consideration_index_key id = consideration_index_prefix ∷ id_bytes id

-- A nil height or index ends the key before it.
unfoldable pub compute_pub_key_consideration_index_key : PublicKey → Option ℤ → Option ℤ → Bytes
compute_pub_key_consideration_index_key key none index =
    pub_key_consideration_index_prefix ∷ raw key
compute_pub_key_consideration_index_key key (some height) none =
    pub_key_consideration_index_prefix ∷ (raw key ++ be_int64 height)
compute_pub_key_consideration_index_key key (some height) (some index) =
    pub_key_consideration_index_prefix ∷ (raw key ++ (be_int64 height ++ be_int32 index))

unfoldable pub decode_pub_key_consideration_index_key : Bytes → Result (Bytes × ℤ × ℤ)
decode_pub_key_consideration_index_key key = do
  (prefix, key) ← read_bytes 1 key
  (pub_key, key) ← read_bytes public_key_size key
  (height, key) ← read_int64 key
  (index, key) ← read_int32 key
  ok (pub_key, height, index)

unfoldable pub compute_pub_key_imbalance_key : PublicKey → Bytes
compute_pub_key_imbalance_key key = pub_key_imbalance_prefix ∷ raw key

unfoldable pub encode_point_tip : CountId → ℤ → Bytes
encode_point_tip id height = id_bytes id ++ be_int64 height

unfoldable pub decode_point_tip : Bytes → Result (CountId × ℤ)
decode_point_tip bytes = do
  (id, bytes) ← read_bytes 32 bytes
  (height, bytes) ← read_int64 bytes
  ok (from_be id, height)

unfoldable pub encode_number : ℤ → Bytes
encode_number num = be_int64 num

-- `var n int64` and a `binary.Read` whose error is dropped.
unfoldable pub decode_number : Bytes → ℤ
decode_number bytes = elim (read_int64 bytes) [ ok (n, rest) ↦ n | err e ↦ pos 0 | panic ↦ pos 0 ]

unfoldable pub encode_consideration_index : ℤ → ℤ → Bytes
encode_consideration_index height index = be_int64 height ++ be_int32 index

unfoldable pub decode_consideration_index : Bytes → Result (ℤ × ℤ)
decode_consideration_index bytes = do
  (height, bytes) ← read_int64 bytes
  (index, bytes) ← read_int32 bytes
  ok (height, index)

-- `byte(branchType)` and `BranchType(b)`.
unfoldable pub branch_byte : BranchType → ℕ
branch_byte main = 0
branch_byte side = 1
branch_byte orphan = 2
branch_byte unknown = 3
branch_byte (unnamed b) = b % 256

unfoldable pub branch_of : ℕ → BranchType
branch_of b =
    if b == 0
    then main
    else if b == 1
    then side
    else if b == 2
    then orphan
    else if b == 3
    then unknown
    else unnamed b
