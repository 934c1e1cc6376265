-- ===== src/Ledger/Connect/Words.antt =====
-- The last word on each key of a batch of `ConnectCount` or `DisconnectCount` in ledger_disk.go.
use focal_point.Prelude.{
  ℕ, ok, ◌≡◌, ◌≢◌, refl, sym, ◌∙◌, false, Option, none, some, List, [], ◌∷◌, ◌++◌, Bytes, ℤ, arith,
  ◌==◌, bytes_equal, bytes_equal_iff, Bool-cases, inl, inr,
}
use focal_point.Ledger.Reads.{LedgerDisk}
use focal_point.LevelDb.{IsLevelDb, Write, put, last_write}
use focal_point.LevelDb.Writes.{
  Avoids, write_key, last_write-cons, write_word, last_write-after, last_write-before,
}
use focal_point.Binary.RoundTrip.{be_int64_injective, Fits64}
use focal_point.Binary.{be_int64}
use focal_point.Count.{CountId}
use focal_point.ImbalanceCache.{Cache}
use focal_point.Ledger.Keys.{
  id_bytes, compute_branch_type_key, compute_count_height_index_key, compute_point_tip_key,
}
use focal_point.Ledger.Batches.{imbalance_writes}
use focal_point.Ledger.Batches.Prefixes.{NoIndex, imbalance_writes-Avoids}

other_height_key :
    (height other : ℤ)
    → Fits64 height
    → Fits64 other
    → other ≢ height
    → bytes_equal (compute_count_height_index_key height) (compute_count_height_index_key other)
      ≡ false
unfolding compute_count_height_index_key
other_height_key height other fits other_fits differs =
    elim (Bool-cases (bytes_equal (be_int64 height) (be_int64 other))) [
      | inl e ↦ absurd (
          differs (
            sym (
              be_int64_injective height other fits other_fits
                ((bytes_equal_iff (be_int64 height) (be_int64 other)).0 e))))
      | inr e ↦ ground arith
    ]

module _ (xs old : List Write) (cache : Cache) (height : ℤ) (id : CountId) (w : Write)
    (branch tip : Bytes) (xs_avoid : (p : ℕ) → NoIndex p → Avoids p xs)
    (old_avoid : (p : ℕ) → NoIndex p → Avoids p old)
    (placed : write_key w ≡ compute_count_height_index_key height) where
  abbrev pub whole : List Write
  whole =
      xs
      ++ (imbalance_writes cache
          ++ (w ∷ put (compute_branch_type_key id) branch ∷ put compute_point_tip_key tip ∷ old))

  -- Of the tables T, B and h only the three writes count.
  three :
      (p : ℕ) (key : Bytes)
      → NoIndex p
      → (b'b' == p) ≡ false
      → last_write (p ∷ key) whole
        ≡ last_write
            (p ∷ key)
            (w ∷ put (compute_branch_type_key id) branch ∷ put compute_point_tip_key tip ∷ [])
  three p key other no_imbalance =
      last_write-after p key xs _ (xs_avoid p other)
      ∙ last_write-after p key (imbalance_writes cache) _
          (imbalance_writes-Avoids p no_imbalance cache)
      ∙ last_write-before p key
          (w ∷ put (compute_branch_type_key id) branch ∷ put compute_point_tip_key tip ∷ []) old
          (old_avoid p other)

  pub tip_word : last_write compute_point_tip_key whole ≡ some (some tip)
  unfolding compute_point_tip_key last_write
  tip_word =
      three b'T' [] (refl, refl) refl
      ∙ ground (
        arith,
        last_write-cons (b'T' ∷ []) w
            (put (compute_branch_type_key id) branch ∷ put compute_point_tip_key tip ∷ []),
      )

  pub height_word : last_write (compute_count_height_index_key height) whole ≡ some (write_word w)
  unfolding compute_count_height_index_key compute_point_tip_key compute_branch_type_key last_write
  height_word =
      three b'h' (be_int64 height) (refl, refl) refl
      ∙ ground (
        arith,
        last_write-cons (b'h' ∷ be_int64 height) w
            (put (compute_branch_type_key id) branch ∷ put compute_point_tip_key tip ∷ []),
        (bytes_equal_iff (write_key w) (compute_count_height_index_key height)).1 placed,
      )

  pub other_height_word :
      (other : ℤ)
      → Fits64 height
      → Fits64 other
      → other ≢ height
      → last_write (compute_count_height_index_key other) whole ≡ none
  unfolding compute_count_height_index_key compute_point_tip_key compute_branch_type_key last_write
  other_height_word other fits other_fits differs =
      three b'h' (be_int64 other) (refl, refl) refl
      ∙ ground (
        arith,
        last_write-cons (b'h' ∷ be_int64 other) w
            (put (compute_branch_type_key id) branch ∷ put compute_point_tip_key tip ∷ []),
        other_height_key height other fits other_fits differs,
        placed,
      )

  pub branch_word : last_write (compute_branch_type_key id) whole ≡ some (some branch)
  unfolding compute_branch_type_key compute_point_tip_key last_write
  branch_word =
      three b'B' (id_bytes id) (refl, refl) refl
      ∙ ground (
        arith,
        last_write-cons (b'B' ∷ id_bytes id) w
            (put (compute_branch_type_key id) branch ∷ put compute_point_tip_key tip ∷ []),
        (bytes_equal_iff (b'B' ∷ id_bytes id) (b'B' ∷ id_bytes id)).1 refl,
      )

  pub imbalance_word :
      (key : Bytes)
      → last_write (b'b' ∷ key) whole ≡ last_write (b'b' ∷ key) (imbalance_writes cache)
  unfolding compute_count_height_index_key compute_point_tip_key compute_branch_type_key
  imbalance_word key =
      last_write-after b'b' key xs _ (xs_avoid b'b' (refl, refl))
      ∙ last_write-before b'b' key (imbalance_writes cache)
          (w ∷ put (compute_branch_type_key id) branch ∷ put compute_point_tip_key tip ∷ old)
          (ground (arith, placed), (refl, (refl, old_avoid b'b' (refl, refl))))

-- What is read after such a batch was written.
pub record Moved {D : Type 0} (l : LedgerDisk D) (d d' : D) (cache : Cache) (height : ℤ)
    (id : CountId) (by_height : Option Bytes) (branch tip : Bytes) : Type 0 where
  pub tip_read : l.db.get compute_point_tip_key d' ≡ ok (some tip)
  pub branch_read : l.db.get (compute_branch_type_key id) d' ≡ ok (some branch)
  pub height_read : l.db.get (compute_count_height_index_key height) d' ≡ ok by_height
  pub other_height_read :
      (other : ℤ)
      → Fits64 height
      → Fits64 other
      → other ≢ height
      → l.db.get (compute_count_height_index_key other) d'
        ≡ l.db.get (compute_count_height_index_key other) d
  pub imbalance_read :
      (key : Bytes)
      → l.db.get (b'b' ∷ key) d' ≡ elim (last_write (b'b' ∷ key) (imbalance_writes cache)) [
        | none ↦ l.db.get (b'b' ∷ key) d
        | some word ↦ ok word
      ]

pub whole-Moved :
    {D : Type 0}
    → (l : LedgerDisk D) → (is : IsLevelDb l.db) → (d d' : D)
    → (xs old : List Write) (cache : Cache) (height : ℤ) (id : CountId) (w : Write)
      (branch tip : Bytes) (xs_avoid : (p : ℕ) → NoIndex p → Avoids p xs)
      (old_avoid : (p : ℕ) → NoIndex p → Avoids p old)
      (placed : write_key w ≡ compute_count_height_index_key height)
    → l.db.write (whole xs old cache height id w branch tip xs_avoid old_avoid placed) d
      ≡ (ok tt, d')
    → Moved l d d' cache height id (write_word w) branch tip
whole-Moved l is d d' xs old cache height id w branch tip xs_avoid old_avoid placed h =
    let read = λ (key : Bytes).
      is.get-write (whole xs old cache height id w branch tip xs_avoid old_avoid placed) d d' key
        h in
    record {
      tip_read = ground (
        arith,
        read compute_point_tip_key,
        tip_word xs old cache height id w branch tip xs_avoid old_avoid placed,
      );
      branch_read = ground (
        arith,
        read (compute_branch_type_key id),
        branch_word xs old cache height id w branch tip xs_avoid old_avoid placed,
      );
      height_read = ground (
        arith,
        read (compute_count_height_index_key height),
        height_word xs old cache height id w branch tip xs_avoid old_avoid placed,
      );
      other_height_read = λ other fits other_fits differs. ground (
        arith,
        read (compute_count_height_index_key other),
        other_height_word xs old cache height id w branch tip xs_avoid old_avoid placed other fits
            other_fits differs,
      );
      imbalance_read = λ key. ground (
        arith,
        read (b'b' ∷ key),
        imbalance_word xs old cache height id w branch tip xs_avoid old_avoid placed key,
      );
    }
