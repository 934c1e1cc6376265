-- ===== src/CountStorage/Disk.antt =====
-- The operations of stage_storage_disk.go.
use focal_point.Prelude.{
  ℕ, ◌+◌, ◌-◌, ◌/◌, ◌%◌, Bool, not, Option, none, some, [], ◌∷◌, ◌++◌, Bytes, ℤ, Result, ok, err,
  ◌>>=◌, Action, ◌>>>◌, if◌then◌else◌, ltb, read_only,
}
use focal_point.Binary.{be_int64, read_int64}
use focal_point.LevelDb.{LevelDb, put}
use focal_point.Consideration.{Consideration}
use focal_point.Count.{Count, CountId, CountHeader}
use focal_point.Ledger.Keys.{id_bytes}

-- The file system: `os.Stat` that does not say IsNotExist, `ioutil.ReadFile`, and the opening,
-- writing, syncing and closing of a file, which may fail halfway.
pub record FileSystem (F : Type 0) : Type 0 where
  pub exists : Bytes → F → Bool
  pub read : Bytes → F → Result Bytes
  pub write : Bytes → Bytes → Action F (Unit {0})

-- encoding/json, jsonparser, encoding/gob and lz4, on the values that are stored.
pub record Codecs : Type 0 where
  pub encode_count : Count → Result Bytes
  pub decode_count : Bytes → Result Count
  pub pick_consideration : Bytes → ℤ → Result Consideration
  pub pick_header : Bytes → Result CountHeader
  pub encode_header : CountHeader → Result Bytes
  pub decode_header : Bytes → Result CountHeader
  pub compress : Bytes → Result Bytes
  pub uncompress : Bytes → Result Bytes

pub record CountStorageDisk (D F : Type 0) : Type 0 where
  pub db : LevelDb D
  pub files : FileSystem F
  pub codecs : Codecs
  pub dir_path : Bytes
  pub read_only_mode : Bool
  pub compressing : Bool

-- The headers and the files.
pub record Storage (D F : Type 0) : Type 0 where
  pub headers : D
  pub counts : F

-- `hex.EncodeToString`
unfoldable pub hex_digit : ℕ → ℕ
hex_digit n = if ltb n 10 then b'0' + n else b'a' + (n - 10)

unfoldable pub hex : Bytes → Bytes
hex [] = []
hex (b ∷ bytes) = hex_digit (b / 16) ∷ hex_digit (b % 16) ∷ hex bytes

abbrev pub json_ext : Bytes
json_ext = b'.' ∷ b'j' ∷ b's' ∷ b'o' ∷ b'n' ∷ []

abbrev pub lz4_ext : Bytes
lz4_ext = b'.' ∷ b'l' ∷ b'z' ∷ b'4' ∷ []

abbrev pub extension : Bool → Bytes
extension compressed = if compressed then lz4_ext else json_ext

unfoldable pub encode_count_header : Codecs → CountHeader → ℤ → Result Bytes
encode_count_header codecs header time = do
  encoded ← codecs.encode_header header
  ok (be_int64 time ++ encoded)

unfoldable pub decode_count_header : Codecs → Bytes → Result (CountHeader × ℤ)
decode_count_header codecs bytes = do
  (time, rest) ← read_int64 bytes
  header ← codecs.decode_header rest
  ok (header, time)

module _ {D F : Type 0} (b : CountStorageDisk D F) where
  open b use {db, files, codecs, dir_path}

  -- `filepath.Join` of the directory and a name.
  unfoldable pub count_path : CountId → Bool → Bytes
  count_path id compressed = dir_path ++ (b'/' ∷ (hex (id_bytes id) ++ extension compressed))

  unfoldable pub count_file : Count → Result Bytes
  count_file count = do
    bytes ← codecs.encode_count count
    if b.compressing then codecs.compress bytes else ok bytes

  unfoldable pub store_header : CountId → CountHeader → ℤ → Action (Storage D F) (Unit {0})
  store_header id header time s = (encode_count_header codecs header time, s) >>> λ encoded s.
      let (r, d) = db.write (put (id_bytes id) encoded ∷ []) s.headers in
      (r, record s { headers = d })

  unfoldable pub store_file : CountId → Bytes → Action (Storage D F) (Unit {0})
  store_file id bytes s =
      let (r, f) = files.write (count_path id b.compressing) bytes s.counts in
      (r, record s { counts = f })

  unfoldable pub store : CountId → Count → ℤ → Action (Storage D F) (Unit {0})
  store id count now s =
      if b.read_only_mode
      then (err read_only, s)
      else ((count_file count, s) >>> λ bytes s.
          store_file id bytes s >>> λ _ s. store_header id count.header now s)

  unfoldable pub read_count : CountId → Bool → F → Result Bytes
  read_count id compressed f = do
    bytes ← files.read (count_path id compressed) f
    if compressed then codecs.uncompress bytes else ok bytes

  -- A count that has no file is nil bytes.
  unfoldable pub get_count_bytes : CountId → Storage D F → Result (Option Bytes)
  get_count_bytes id s =
      if files.exists (count_path id b.compressing) s.counts
      then (do bytes ← read_count id b.compressing s.counts; ok (some bytes))
      else if files.exists (count_path id (not b.compressing)) s.counts
      then (do bytes ← read_count id (not b.compressing) s.counts; ok (some bytes))
      else ok none

  abbrev pub bytes_of : Option Bytes → Bytes
  bytes_of none = []
  bytes_of (some bytes) = bytes

  unfoldable pub get_count : CountId → Storage D F → Result Count
  get_count id s = do bytes ← get_count_bytes id s; codecs.decode_count (bytes_of bytes)

  unfoldable pub get_count_header : CountId → Storage D F → Result (Option (CountHeader × ℤ))
  get_count_header id s = do
    encoded ← db.get (id_bytes id) s.headers
    elim encoded [
      | none ↦ ok none
      | some bytes ↦ (do found ← decode_count_header codecs bytes; ok (some found))
    ]

  unfoldable pub get_consideration :
      CountId → ℤ → Storage D F → Result (Consideration × CountHeader)
  get_consideration id index s = do
    bytes ← get_count_bytes id s
    cn ← codecs.pick_consideration (bytes_of bytes) index
    header ← codecs.pick_header (bytes_of bytes)
    ok (cn, header)
