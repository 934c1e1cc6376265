-- ===== src/Ledger/Batches/Imbalances.antt =====
-- The imbalances that a batch of ledger_disk.go writes are those that the cache shows.
use focal_point.Prelude.{
  ◌≡◌, refl, Option, Option-cases, inl, inr, none, some, [], ◌∷◌, Bytes, ℤ, pos, eqb_ℤ, eqb_ℤ_iff,
  ok, if◌then◌else◌, arith, lookup, bytes_eq, length,
}
use focal_point.LevelDb.{last_write}
use focal_point.LevelDb.Writes.{last_write-append}
use focal_point.Binary.RoundTrip.{Fits64}
use focal_point.Consideration.{public_key_size}
use focal_point.ImbalanceCache.{Cache, imbalance}
use focal_point.ImbalanceCache.Balances.{key_of_sized}
use focal_point.Ledger.Keys.{compute_pub_key_imbalance_key, encode_number}
use focal_point.Ledger.Keys.Decoded.{decode_number-encode_number}
use focal_point.Ledger.Reads.{LedgerDisk, found, get_public_key_imbalance}
use focal_point.Ledger.Batches.{imbalance_write, imbalance_writes}

-- Nothing is stored for an imbalance of zero.
abbrev pub stored_imbalance : ℤ → Option Bytes
stored_imbalance v = if eqb_ℤ v (pos 0) then none else some (encode_number v)

imbalance_writes_word :
    (key : Bytes) (cache : Cache)
    → last_write (b'b' ∷ key) (imbalance_writes cache)
      ≡ elim (lookup key cache) [ none ↦ none | some v ↦ some (stored_imbalance v) ]
unfolding imbalance_writes imbalance_write lookup last_write compute_pub_key_imbalance_key
imbalance_writes_word key [] = refl
imbalance_writes_word key ((k, v) ∷ cache) = ground (
  arith,
  imbalance_writes_word key cache,
  last_write-append (b'b' ∷ key) (imbalance_writes cache) (imbalance_write k v ∷ []),
)

module _ {D : Type 0} (l : LedgerDisk D) (d d' : D) (cache : Cache) where
  pub written_imbalance :
      (key : Bytes)
      → length key ≡ public_key_size
      → ((v : ℤ) → lookup key cache ≡ some v → Fits64 v)
      → l.db.get (b'b' ∷ key) d' ≡ elim (last_write (b'b' ∷ key) (imbalance_writes cache)) [
        | none ↦ l.db.get (b'b' ∷ key) d
        | some word ↦ ok word
      ]
      → get_public_key_imbalance l d' (some key)
        ≡ imbalance (get_public_key_imbalance l d) cache (some key)
  unfolding get_public_key_imbalance imbalance found compute_pub_key_imbalance_key
  written_imbalance key size fits h = elim (Option-cases (lookup key cache)) [
    | inl absent ↦ ground (arith, h, imbalance_writes_word key cache, key_of_sized key size, absent)
    | inr (v, is) ↦ ground (
      arith,
      h,
      imbalance_writes_word key cache,
      key_of_sized key size,
      is,
      decode_number-encode_number v (fits v is),
      eqb_ℤ_iff v (pos 0),
    )
  ]
