-- ===== src/ImbalanceCache/Balances.antt =====
-- What the cache shows after an insertion, at keys of 32 bytes.
use focal_point.Prelude.{
  ◌≡◌, ◌∙◌, ap, sym, Bytes, ok, length, bytes_equal, if◌then◌else◌, insert, some, arith, bytes_eq,
  ℤ, take-append_left, replicate, lookup-insert, ◌++◌, take,
}
use focal_point.ImbalanceCache.{Balances, Cache, imbalance, key_of}
use focal_point.Consideration.{public_key_size}

pub key_of_sized : (key : Bytes) → length key ≡ public_key_size → key_of (some key) ≡ key
key_of_sized key h =
    ap (λ n. take n (key ++ replicate public_key_size 0)) (sym h)
    ∙ take-append_left key (replicate public_key_size 0)

pub imbalance-insert :
    (ledger : Balances) (cache : Cache) (k key : Bytes) (v : ℤ)
    → length k ≡ public_key_size
    → length key ≡ public_key_size
    → imbalance ledger (insert (key_of (some k)) v cache) (some key)
      ≡ (if bytes_equal k key then ok v else imbalance ledger cache (some key))
unfolding imbalance
imbalance-insert ledger cache k key v hk h =
    ground (arith, key_of_sized k hk, key_of_sized key h, lookup-insert k key v cache)
