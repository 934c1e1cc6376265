-- ===== src/LevelDb.antt =====
-- github.com/syndtr/goleveldb, which the ledger, the count storage and the peer storage call: a
-- parameter of theirs. `D` is the content of a database; a snapshot of it is the content itself.
pub mod Writes
use focal_point.Prelude.{
  ◌≡◌, Bool, true, false, Option, none, some, List, [], ◌∷◌, Bytes, Result, ok, err, panic, Action,
  Error, bytes_equal, ltb, ◌==◌, ◌&&◌, ◌||◌, All, if◌then◌else◌,
}

-- What a batch holds, in the order of `Put` and `Delete`.
pub data Write : Type 0 where
  put : Bytes → Bytes → Write
  remove : Bytes → Write

-- What an iterator visits, and `iter.Error()` once it has visited all that it could.
pub record Visit : Type 0 where
  pub entries : List (Bytes × Bytes)
  pub failure : Option Error

-- `get` is none for ErrNotFound. `forward` and `backward` are the keys from the first key up to, but
-- not including, the second, in increasing and in decreasing order; `with_prefix` is `BytesPrefix`.
pub record LevelDb (D : Type 0) : Type 0 where
  pub get : Bytes → D → Result (Option Bytes)
  pub has : Bytes → D → Result Bool
  pub snapshot : D → Result D
  pub write : List Write → Action D (Unit {0})
  pub forward : Bytes → Bytes → D → Visit
  pub backward : Bytes → Bytes → D → Visit
  pub with_prefix : Bytes → D → Visit

-- The last word of a batch on a key: none if it has none.
unfoldable pub last_write : Bytes → List Write → Option (Option Bytes)
last_write key [] = none
last_write key (put k v ∷ batch) = elim (last_write key batch) [
  | none ↦ if bytes_equal k key then some (some v) else none
  | some word ↦ some word
]
last_write key (remove k ∷ batch) = elim (last_write key batch) [
  | none ↦ if bytes_equal k key then some none else none
  | some word ↦ some word
]

-- The order of keys: by their bytes, a prefix first.
unfoldable pub bytes_ltb : Bytes → Bytes → Bool
bytes_ltb xs [] = false
bytes_ltb [] (y ∷ ys) = true
bytes_ltb (x ∷ xs) (y ∷ ys) = ltb x y || ((x == y) && bytes_ltb xs ys)

-- What LevelDB documents of `Write`, `Get`, `GetSnapshot` and `NewIterator`.
pub record IsLevelDb {D : Type 0} (db : LevelDb D) : Type 0 where
  pub get-write :
      (batch : List Write) (d d' : D) (key : Bytes)
      → db.write batch d ≡ (ok tt, d')
      → db.get key d' ≡ elim (last_write key batch) [ none ↦ db.get key d | some word ↦ ok word ]
  pub snapshot-same : (d s : D) → db.snapshot d ≡ ok s → s ≡ d
  pub forward-stored :
      (start limit : Bytes) (d : D)
      → All
          (λ (e : Bytes × Bytes).
            (db.get e.0 d ≡ ok (some e.1))
            × (bytes_ltb e.0 start ≡ false)
            × (bytes_ltb e.0 limit ≡ true))
          (db.forward start limit d).entries
