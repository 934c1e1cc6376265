-- ===== src/Tests/Databases.antt =====
-- LevelDB as an association list, whose iterators sort what they visit.
use focal_point.Prelude.{
  subst, ap, keys, Option, Result, All, Bool-cases, Option-cases, inl, inr, ◌≡◌, refl, true, false,
  not, ◌&&◌, none, some, List, [], ◌∷◌, ◌++◌, Bytes, ok, Map, lookup, insert, delete, lookup-insert,
  lookup-delete, bytes_eq, if◌then◌else◌, arith,
}
use focal_point.LevelDb.{Write, put, remove, LevelDb, IsLevelDb, last_write, bytes_ltb}

abbrev pub Database : Type 0
Database = Map Bytes Bytes

abbrev apply_write : Write → Database → Database
apply_write (put key v) d = insert key v d
apply_write (remove key) d = delete key d

unfoldable pub apply_writes : List Write → Database → Database
apply_writes [] d = d
apply_writes (w ∷ batch) d = apply_writes batch (apply_write w d)

unfoldable insert_sorted : Bytes × Bytes → List (Bytes × Bytes) → List (Bytes × Bytes)
insert_sorted entry [] = entry ∷ []
insert_sorted entry (e ∷ es) =
    if bytes_ltb entry.0 e.0 then entry ∷ e ∷ es else e ∷ insert_sorted entry es

-- The entries of `full` at these keys that lie in the range.
unfoldable pub within : Bytes → Bytes → Database → List Bytes → List (Bytes × Bytes)
unfolding bytes_ltb insert_sorted lookup
within start limit full [] = []
within start limit full (key ∷ keys) = elim (lookup key full) [
  | none ↦ within start limit full keys
  | some value ↦
      if not (bytes_ltb key start) && bytes_ltb key limit
      then insert_sorted (key, value) (within start limit full keys)
      else within start limit full keys
]

abbrev reverse : List (Bytes × Bytes) → List (Bytes × Bytes)
reverse [] = []
reverse (e ∷ es) = reverse es ++ (e ∷ [])

abbrev pub toy_db : LevelDb Database
toy_db = record {
  get = λ key d. ok (lookup key d);
  has = λ key d. ok (elim (lookup key d) [ none ↦ false | some v ↦ true ]);
  snapshot = λ d. ok d;
  write = λ batch d. (ok tt, apply_writes batch d);
  forward = λ start limit d. record { entries = within start limit d (keys d); failure = none };
  backward =
      λ start limit d. record { entries = reverse (within start limit d (keys d)); failure = none };
  with_prefix = λ prefix d. record {
    entries = within prefix (prefix ++ (255 ∷ [])) d (keys d);
    failure = none;
  };
}

lookup-apply_writes :
    (key : Bytes) (batch : List Write) (d : Database)
    → lookup key (apply_writes batch d)
      ≡ elim (last_write key batch) [ none ↦ lookup key d | some word ↦ word ]
unfolding apply_writes last_write
lookup-apply_writes key [] d = refl
lookup-apply_writes key (put k v ∷ batch) d =
    ground (arith, lookup-apply_writes key batch (insert k v d), lookup-insert k key v d)
lookup-apply_writes key (remove k ∷ batch) d =
    ground (arith, lookup-apply_writes key batch (delete k d), lookup-delete k key d)

abbrev InRange : Bytes → Bytes → Database → Bytes × Bytes → Type 0
InRange start limit d e =
    (◌≡◌ {A = Result (Option Bytes)} (ok (lookup e.0 d)) (ok (some e.1)))
    × (bytes_ltb e.0 start ≡ false)
    × (bytes_ltb e.0 limit ≡ true)

insert_sorted-All :
    (P : Bytes × Bytes → Type 0) (e : Bytes × Bytes) (es : List (Bytes × Bytes))
    → P e
    → All P es
    → All P (insert_sorted e es)
unfolding insert_sorted
insert_sorted-All P e [] h hs = (h, tt)
insert_sorted-All P e (x ∷ es) h (hx, hs) = elim (Bool-cases (bytes_ltb e.0 x.0)) [
  | inl below ↦ rw below (h, (hx, hs))
  | inr above ↦ rw above (hx, insert_sorted-All P e es h hs)
]

within-InRange :
    (start limit : Bytes) (full : Database) (keys : List Bytes)
    → All (InRange start limit full) (within start limit full keys)
unfolding within
within-InRange start limit full [] = tt
within-InRange start limit full (key ∷ keys) =
    let rest = within-InRange start limit full keys in
    let more = λ (value : Bytes) (h : InRange start limit full (key, value)).
      insert_sorted-All (InRange start limit full) (key, value) (within start limit full keys) h
        rest in
    elim (Option-cases (lookup key full)) [
      | inl absent ↦
          subst (All (InRange start limit full)) {x = within start limit full keys}
            (ground (arith, absent)) rest
      | inr (value, is) ↦ elim (Bool-cases (not (bytes_ltb key start) && bytes_ltb key limit)) [
        | inr out ↦
            subst (All (InRange start limit full)) {x = within start limit full keys}
              (ground (arith, is, out)) rest
        | inl inside ↦
            subst (All (InRange start limit full))
              {x = insert_sorted (key, value) (within start limit full keys)}
              (ground (arith, is, inside))
              (more value (ap (λ o. ok o) is, ground arith, ground arith))
      ]
    ]

pub toy_db-IsLevelDb : IsLevelDb toy_db
toy_db-IsLevelDb = record {
  get-write = λ batch d d' key h. ground (arith, lookup-apply_writes key batch d);
  snapshot-same = λ d s h. ground arith;
  forward-stored = λ start limit d. within-InRange start limit d (keys d);
}
