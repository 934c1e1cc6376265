-- ===== src/Tests/PeerAddresses.antt =====
-- The theorems on the storage of peers, at one that was stored and tried and at two that are stored
-- at the same time.
use focal_point.Prelude.{
  ℕ, zero, suc, subst, ◌≡◌, ◌≢◌, refl, ◌↔◌, Error, Option, List, some, none, [], ◌∷◌, ◌++◌, Bytes,
  ℤ, pos, negsuc, Result, ok, err, storage, panic, All, ◌<◌, ◌≤◌, length, arith, lookup, insert,
  delete, wrap64, sub64, ◌-ℤ◌,
}
use focal_point.LevelDb.{Write}
use focal_point.Binary.{
  be_int64, be_bytes, pattern64, read_bytes, read_int64, from_be, from_be_after,
}
use focal_point.PeerStorage.Info.{
  PeerInfo, Gob, compute_peer_key, compute_last_attempt_time_key, decode_time_key, should_retry,
  last_seen, ceil_sqrt, root_from,
}
use focal_point.PeerStorage.Disk.{
  PeerStorageDisk, Peers, get_peer_info, known_peer, write_to_batch, write_peers, store_batch,
  attempt_batch, store, on_connect_attempt, store_reads, attempt_reads, with_snapshot, ended,
  collect_peers, get,
}
use focal_point.PeerStorage.Consistent.{IsConsistent}
use focal_point.PeerStorage.Calls.{IsGob}
use focal_point.PeerStorage.Reads.{Call, store_call, attempt_call, reads}
use focal_point.PeerStorage.Reached.{Reached, empty, read, written, Reached-IsConsistent}
use focal_point.PeerStorage.Choice.{IsDue, get_lem}
use focal_point.PeerStorage.Safe.{NoPanics, get_panic_iff}
use focal_point.Tests.Databases.{Database, toy_db, toy_db-IsLevelDb, apply_writes, within}

abbrev encode_ℤ : ℤ → Bytes
encode_ℤ (pos n) = 0 ∷ n ∷ []
encode_ℤ (negsuc n) = 1 ∷ n ∷ []

abbrev decode_ℤ : ℕ → ℕ → ℤ
decode_ℤ zero n = pos n
decode_ℤ (suc k) n = negsuc n

abbrev toy_decode : Bytes → Result PeerInfo
toy_decode (a ∷ b ∷ c ∷ d ∷ e ∷ f ∷ []) =
    ok (record {
      first_seen = decode_ℤ a b;
      last_attempt = decode_ℤ c d;
      last_success = decode_ℤ e f;
    })
toy_decode _ = err storage

abbrev toy_gob : Gob
toy_gob = record {
  encode = λ info.
      ok (encode_ℤ info.first_seen ++ (encode_ℤ info.last_attempt ++ encode_ℤ info.last_success));
  decode = toy_decode;
}

abbrev toy_storage : PeerStorageDisk Database
toy_storage = record { db = toy_db; gob = toy_gob }

each :
    (a b c : ℤ)
    → toy_decode (encode_ℤ a ++ (encode_ℤ b ++ encode_ℤ c))
      ≡ ok (record { first_seen = a; last_attempt = b; last_success = c })
each (pos a) (pos b) (pos c) = refl
each (pos a) (pos b) (negsuc c) = refl
each (pos a) (negsuc b) (pos c) = refl
each (pos a) (negsuc b) (negsuc c) = refl
each (negsuc a) (pos b) (pos c) = refl
each (negsuc a) (pos b) (negsuc c) = refl
each (negsuc a) (negsuc b) (pos c) = refl
each (negsuc a) (negsuc b) (negsuc c) = refl

toy_gob-IsGob : IsGob toy_gob
toy_gob-IsGob info bytes h =
    subst (λ (b : Bytes). toy_decode b ≡ ok info)
      {x = encode_ℤ info.first_seen ++ (encode_ℤ info.last_attempt ++ encode_ℤ info.last_success)}
      (ground arith) (each info.first_seen info.last_attempt info.last_success)

abbrev addr_a : Bytes
addr_a = b'a' ∷ b':' ∷ b'8' ∷ []

abbrev addr_b : Bytes
addr_b = b'b' ∷ b':' ∷ b'8' ∷ []

abbrev nobody : Peers Database
nobody = record { stored = []; connected_peers = [] }

abbrev one_peer : Peers Database
one_peer = (store toy_storage (pos 5000000000) (pos 77) addr_a nobody).1

abbrev tried_peer : Peers Database
tried_peer = (on_connect_attempt toy_storage (pos 5000000100) addr_a one_peer).1

nobody_stored : (key : Bytes) → toy_db.get key [] ≡ ok none
unfolding lookup
nobody_stored key = refl

abbrev batch_of : Result (Option (List Write)) → List Write
batch_of (ok (some batch)) = batch
batch_of _ = []

abbrev store_a : Call
store_a = store_call (pos 5000000000) (pos 77) addr_a

abbrev store_b : Call
store_b = store_call (pos 5000000000) (pos 78) addr_b

abbrev attempt_a : Call
attempt_a = attempt_call (pos 5000000100) addr_a

abbrev batch_a : List Write
batch_a = batch_of (reads toy_storage store_a [])

abbrev batch_b : List Write
batch_b = batch_of (reads toy_storage store_b [])

abbrev only_b : Database
only_b = (toy_db.write batch_b []).1

abbrev both : Database
both = (toy_db.write batch_a only_b).1

prepares_a : reads toy_storage store_a [] ≡ ok (some batch_a)
unfolding store_reads store_batch get_peer_info write_to_batch lookup compute_peer_key
prepares_a = refl

prepares_b : reads toy_storage store_b [] ≡ ok (some batch_b)
unfolding store_reads store_batch get_peer_info write_to_batch lookup compute_peer_key
prepares_b = refl

-- The call on b reads before the one on a has written, and writes first.
both-Reached : Reached toy_storage both []
both-Reached =
    written {d = only_b} [] [] addr_a batch_a
      (written {d = []} [] ((addr_a, batch_a) ∷ []) addr_b batch_b
        (read store_b batch_b (read store_a batch_a (empty nobody_stored) tt prepares_a)
          ((λ e. ground (arith, e)), tt) prepares_b)
        refl refl)
      refl refl

Reached-IsConsistent_example : IsConsistent toy_storage both
Reached-IsConsistent_example =
    Reached-IsConsistent toy_storage toy_db-IsLevelDb toy_gob-IsGob both [] both-Reached

abbrev attempt_batch_a : List Write
attempt_batch_a = batch_of (reads toy_storage attempt_a one_peer.stored)

attempts_a : reads toy_storage attempt_a one_peer.stored ≡ ok (some attempt_batch_a)
unfolding store attempt_reads known_peer write_peers store_reads store_batch attempt_batch
    get_peer_info write_to_batch lookup insert delete apply_writes compute_peer_key
    compute_last_attempt_time_key be_int64 be_bytes pattern64
attempts_a = refl

stored_one : toy_db.write batch_a [] ≡ (ok tt, one_peer.stored)
unfolding store store_reads store_batch write_peers get_peer_info write_to_batch lookup
    compute_peer_key
stored_one = refl

tried_one : toy_db.write attempt_batch_a one_peer.stored ≡ (ok tt, tried_peer.stored)
unfolding store on_connect_attempt attempt_reads known_peer write_peers store_reads store_batch
    attempt_batch get_peer_info write_to_batch lookup insert delete apply_writes compute_peer_key
    compute_last_attempt_time_key be_int64 be_bytes pattern64
tried_one = refl

tried_peer-IsConsistent : IsConsistent toy_storage tried_peer.stored
tried_peer-IsConsistent =
    Reached-IsConsistent toy_storage toy_db-IsLevelDb toy_gob-IsGob tried_peer.stored [] (
      written {d = one_peer.stored} [] [] addr_a attempt_batch_a
        (read attempt_a attempt_batch_a
          (written {d = []} [] [] addr_a batch_a
            (read store_a batch_a (empty nobody_stored) tt prepares_a) stored_one refl)
          tt attempts_a)
        tried_one refl)

abbrev store_again : Call
store_again = store_call (pos 5000000000) (pos 76) addr_a

abbrev twice : Database
twice = (toy_db.write (batch_of (reads toy_storage store_again [])) one_peer.stored).1

-- Of two `Store`s of one address that overlap, the first leaves its key of the table of attempts.
stale_key :
    (toy_db.get (compute_last_attempt_time_key (pos 77) addr_a) twice ≡ ok (some (0x1 ∷ [])))
    × (get_peer_info toy_storage addr_a twice
        ≡ ok (
            some (record {
              first_seen = pos 5000000000;
              last_attempt = pos 76;
              last_success = pos 0;
            })))
unfolding store write_peers store_reads store_batch get_peer_info write_to_batch lookup insert
    delete apply_writes compute_peer_key compute_last_attempt_time_key be_int64 be_bytes pattern64
stale_key = (refl, refl)

gets_one : get toy_storage (pos 5000000800) (pos 1) tried_peer ≡ ok (addr_a ∷ [])
unfolding store on_connect_attempt attempt_reads store_reads known_peer write_peers store_batch
    attempt_batch get_peer_info write_to_batch lookup insert delete apply_writes compute_peer_key
    compute_last_attempt_time_key be_int64 be_bytes pattern64 get with_snapshot collect_peers ended
    decode_time_key read_bytes read_int64 from_be from_be_after should_retry last_seen ceil_sqrt
    root_from sub64 wrap64 ◌-ℤ◌ within
gets_one = refl

get_lem_example :
    All
      (IsDue toy_storage (pos 5000000800) tried_peer.connected_peers tried_peer.stored)
      (addr_a ∷ [])
    × ((n : ℕ) → pos 1 ≡ pos n → 0 < n → length (addr_a ∷ []) ≤ n)
get_lem_example =
    get_lem toy_storage toy_db-IsLevelDb (pos 5000000800) (pos 1) tried_peer (addr_a ∷ []) gets_one

decode_calm : (bytes : Bytes) → toy_decode bytes ≢ panic
decode_calm [] h = ground (arith, h)
decode_calm (a ∷ []) h = ground (arith, h)
decode_calm (a ∷ b ∷ []) h = ground (arith, h)
decode_calm (a ∷ b ∷ c ∷ []) h = ground (arith, h)
decode_calm (a ∷ b ∷ c ∷ d ∷ []) h = ground (arith, h)
decode_calm (a ∷ b ∷ c ∷ d ∷ e ∷ []) h = ground (arith, h)
decode_calm (a ∷ b ∷ c ∷ d ∷ e ∷ f ∷ []) h = ground (arith, h)
decode_calm (a ∷ b ∷ c ∷ d ∷ e ∷ f ∷ g ∷ rest) h = ground (arith, h)

toy_storage-NoPanics : NoPanics toy_storage
toy_storage-NoPanics = record {
  gets = λ key d h. ground (arith, h);
  snapshots = λ d h. ground (arith, h);
  decodes = decode_calm;
}

get_panic_iff_example :
    (get toy_storage (pos 5000000800) (pos 1) tried_peer ≡ panic)
    ↔ ((e : Error) × (toy_db.snapshot tried_peer.stored ≡ err e))
get_panic_iff_example =
    get_panic_iff toy_storage toy_db-IsLevelDb toy_storage-NoPanics (pos 5000000800) (pos 1)
      tried_peer tried_peer-IsConsistent
