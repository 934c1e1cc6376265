-- ===== src/ImbalanceCache.antt =====
-- imbalance_cache.go: unconfirmed imbalances over those of a ledger.
pub mod Balances
pub mod Moves
pub mod Undo
pub mod Views
pub mod Total
use focal_point.Prelude.{
  ◌≡◌, Bool, true, false, not, Option, none, some, List, [], ◌++◌, Bytes, ℤ, pos, ltb_ℤ, add64,
  sub64, Result, ok, err, panic, ◌>>=◌, Action, ◌>>>◌, Map, lookup, insert, take, replicate,
  if◌then◌else◌, bytes_eq,
}
use focal_point.Consideration.{Consideration, PublicKey, raw, is_counter_point, public_key_size}

-- `Ledger.GetPublicKeyImbalance`, which is all that the cache asks of its ledger.
abbrev pub Balances : Type 0
Balances = PublicKey → Result ℤ

-- `copy` into a zeroed array of 32 bytes.
abbrev pub key_of : PublicKey → Bytes
key_of key = take public_key_size (raw key ++ replicate public_key_size 0)

abbrev pub Cache : Type 0
Cache = Map Bytes ℤ

-- `Reset`, and what `NewImbalanceCache` starts with.
unfoldable pub reset : Cache
reset = []

-- The cached imbalance, or else that of the ledger.
unfoldable pub imbalance : Balances → Cache → PublicKey → Result ℤ
imbalance ledger cache key = elim (lookup (key_of key) cache) [
  | none ↦ ledger key
  | some cached ↦ ok cached
]

-- The sender's imbalance falls by one; false, and nothing is written, if it is below one.
unfoldable pub debit_sender : Balances → PublicKey → Action Cache Bool
debit_sender ledger key cache = (imbalance ledger cache key, cache) >>> λ sender cache.
    if ltb_ℤ sender (pos 1)
    then (ok false, cache)
    else (ok true, insert (key_of key) (sub64 sender (pos 1)) cache)

-- A party's imbalance rises by one.
unfoldable pub credit : Balances → PublicKey → Action Cache Bool
credit ledger key cache = (imbalance ledger cache key, cache) >>> λ party cache.
    (ok true, insert (key_of key) (add64 party (pos 1)) cache)

-- The recipient's imbalance falls by one; to have nothing to take back is a panic.
unfoldable pub debit_recipient : Balances → PublicKey → Action Cache Bool
debit_recipient ledger key cache = (imbalance ledger cache key, cache) >>> λ recipient cache.
    if ltb_ℤ recipient (pos 1)
    then (panic, cache)
    else (ok true, insert (key_of key) (sub64 recipient (pos 1)) cache)

-- `Apply`: false if the sender has nothing to give.
unfoldable pub apply : Balances → Consideration → Action Cache Bool
unfolding is_counter_point
apply ledger cn cache =
    if is_counter_point cn
    then credit ledger cn.for cache
    else debit_sender ledger cn.by cache >>> λ covered cache.
        if covered then credit ledger cn.for cache else (ok false, cache)

-- `Undo`: its result `ok true` is Go's nil error.
unfoldable pub undo : Balances → Consideration → Action Cache Bool
unfolding is_counter_point
undo ledger cn cache =
    if is_counter_point cn
    then debit_recipient ledger cn.for cache
    else credit ledger cn.by cache >>> λ _ cache. debit_recipient ledger cn.for cache
