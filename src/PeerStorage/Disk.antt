-- ===== src/PeerStorage/Disk.antt =====
-- The operations of peer_storage_disk.go. A nil pointer is none.
use focal_point.Prelude.{
  Bool, ◌&&◌, true, false, Option, none, some, List, [], ◌∷◌, ◌++◌, Bytes, ℤ, pos, eqb_ℤ, Result,
  ok, err, panic, ◌>>=◌, Action, ◌>>>◌, Error, not_found, if◌then◌else◌, Map, lookup, insert,
  delete, bytes_eq, length,
}
use focal_point.LevelDb.{LevelDb, Write, put, remove}
use focal_point.PeerStorage.Info.{
  PeerInfo, Gob, Instant, compute_peer_key, compute_last_attempt_time_key,
  compute_last_success_time_key, decode_time_key, should_retry, should_delete,
}

pub record PeerStorageDisk (D : Type 0) : Type 0 where
  pub db : LevelDb D
  pub gob : Gob

pub record Peers (D : Type 0) : Type 0 where
  pub stored : D
  pub connected_peers : Map Bytes Bool

module _ {D : Type 0} (p : PeerStorageDisk D) where
  unfoldable pub get_peer_info : Bytes → D → Result (Option PeerInfo)
  get_peer_info addr d = do
    encoded ← p.db.get (compute_peer_key addr) d
    elim encoded [ none ↦ ok none | some bytes ↦ (do info ← p.gob.decode bytes; ok (some info)) ]

  -- A peer that must be known.
  unfoldable pub known_peer : Bytes → D → Result PeerInfo
  known_peer addr d = do
    info ← get_peer_info addr d
    elim info [ none ↦ err not_found | some info ↦ ok info ]

  unfoldable pub write_to_batch : PeerInfo → Bytes → Result Write
  write_to_batch info addr = do
    encoded ← p.gob.encode info
    ok (put (compute_peer_key addr) encoded)

  unfoldable pub write_peers : List Write → Action (Peers D) (Unit {0})
  write_peers batch s = let (r, d) = p.db.write batch s.stored in (r, record s { stored = d })

  -- No lock is held between what a call reads and what it writes. Each call is in two parts, the
  -- first (its name ends in `_reads`) up to the batch that it is to write, and here nothing comes
  -- between the two. The random number is an argument.
  unfoldable pub store_batch : ℤ → ℤ → Bytes → Result (List Write)
  store_batch now random addr = do
    info ←
        write_to_batch (record { first_seen = now; last_attempt = random; last_success = pos 0 })
          addr
    ok (info ∷ put (compute_last_attempt_time_key random addr) (0x1 ∷ []) ∷ [])

  unfoldable pub store_reads : ℤ → ℤ → Bytes → D → Result (Option (List Write))
  store_reads now random addr d = do
    info ← get_peer_info addr d
    elim info [
      | some info ↦ ok none
      | none ↦ (do batch ← store_batch now random addr; ok (some batch))
    ]

  unfoldable pub store : ℤ → ℤ → Bytes → Action (Peers D) Bool
  store now random addr s = (store_reads now random addr s.stored, s) >>> λ found s. elim found [
    | none ↦ (ok false, s)
    | some batch ↦ write_peers batch s >>> λ _ s. (ok true, s)
  ]

  unfoldable pub delete_batch : Bytes → PeerInfo → List Write
  delete_batch addr info =
      remove (compute_peer_key addr)
      ∷ remove (compute_last_attempt_time_key info.last_attempt addr)
      ∷ remove (compute_last_success_time_key info.last_success addr)
      ∷ []

  unfoldable pub delete_reads : Bytes → D → Result (List Write)
  delete_reads addr d = do info ← known_peer addr d; ok (delete_batch addr info)

  unfoldable pub delete_known : Bytes → Action (Peers D) (Unit {0})
  delete_known addr s = (delete_reads addr s.stored, s) >>> λ batch s. write_peers batch s

  unfoldable pub attempt_batch : ℤ → Bytes → PeerInfo → Result (List Write)
  attempt_batch now addr info = do
    written ← write_to_batch (record info { last_attempt = now }) addr
    ok (
        remove (compute_last_attempt_time_key info.last_attempt addr)
        ∷ written
        ∷ put (compute_last_attempt_time_key now addr) (0x1 ∷ [])
        ∷ [])

  unfoldable pub attempt_reads : ℤ → Bytes → D → Result (List Write)
  attempt_reads now addr d = do info ← known_peer addr d; attempt_batch now addr info

  unfoldable pub on_connect_attempt : ℤ → Bytes → Action (Peers D) (Unit {0})
  on_connect_attempt now addr s =
      (attempt_reads now addr s.stored, s) >>> λ batch s. write_peers batch s

  unfoldable pub failure_reads : Instant → Bytes → D → Result (Option (List Write))
  failure_reads now addr d = do
    info ← known_peer addr d
    if should_delete now info then ok (some (delete_batch addr info)) else ok none

  unfoldable pub on_connect_failure : Instant → Bytes → Action (Peers D) (Unit {0})
  on_connect_failure now addr s = (failure_reads now addr s.stored, s) >>> λ found s. elim found [
    | none ↦ (ok tt, s)
    | some batch ↦ write_peers batch s
  ]

  unfoldable pub success_batch : ℤ → Bytes → PeerInfo → Result (List Write)
  success_batch now addr info = do
    written ← write_to_batch (record info { last_success = now }) addr
    ok (
        remove (compute_last_success_time_key info.last_success addr)
        ∷ written
        ∷ put (compute_last_success_time_key now addr) (0x1 ∷ [])
        ∷ [])

  unfoldable pub success_reads : ℤ → Bytes → D → Result (List Write)
  success_reads now addr d = do info ← known_peer addr d; success_batch now addr info

  unfoldable pub on_connect_success : ℤ → Bytes → Action (Peers D) (Unit {0})
  on_connect_success now addr s = (success_reads now addr s.stored, s) >>> λ batch s.
      write_peers batch s >>> λ _ s.
      (ok tt, record s { connected_peers = insert addr true s.connected_peers })

  unfoldable pub on_disconnect : Bytes → Action (Peers D) (Unit {0})
  on_disconnect addr s = (ok tt, record s { connected_peers = delete addr s.connected_peers })

  -- The release is deferred before the error is looked at: of the nil snapshot that comes with an
  -- error it is a panic.
  unfoldable pub with_snapshot : {A : Type 0} → D → (D → Result A) → Result A
  with_snapshot d read = elim (p.db.snapshot d) [
    | ok snapshot ↦ read snapshot
    | err e ↦ panic
    | panic ↦ panic
  ]

  unfoldable pub ended : Option Error → List Bytes → Result (List Bytes)
  ended none addrs = ok addrs
  ended (some e) addrs = err e

  -- The loop of `Get`. The nil of a peer that is not stored is a panic.
  unfoldable pub collect_peers :
      ℤ
      → Map Bytes Bool
      → ℤ
      → Option Error
      → D
      → List (Bytes × Bytes)
      → List Bytes
      → Result (List Bytes)
  collect_peers now connected count failure d [] addrs = ended failure addrs
  collect_peers now connected count failure d ((key, value) ∷ entries) addrs = do
    (time, addr) ← decode_time_key key
    info ← elim (lookup addr connected) [
      | some c ↦ ok none
      | none ↦ (do
        info ← get_peer_info addr d
        elim info [ none ↦ panic | some info ↦ ok (some info) ])
    ]
    let wanted : Bool = elim info [ none ↦ false | some info ↦ should_retry now info ]
    let addrs : List Bytes = if wanted then addrs ++ (addr ∷ []) else addrs
    if wanted && eqb_ℤ (pos (length addrs)) count
        then ok addrs
        else collect_peers now connected count failure d entries addrs

  unfoldable pub get : ℤ → ℤ → Peers D → Result (List Bytes)
  get now count s = with_snapshot s.stored (λ snapshot.
      let visit =
        p.db.forward (compute_last_attempt_time_key (pos 0) [])
          (compute_last_attempt_time_key now []) snapshot in
      collect_peers now s.connected_peers count visit.failure snapshot visit.entries [])

  unfoldable pub collect_recent :
      ℤ → Option Error → List (Bytes × Bytes) → List Bytes → Result (List Bytes)
  collect_recent count failure [] addrs = ended failure addrs
  collect_recent count failure ((key, value) ∷ entries) addrs = do
    (time, addr) ← decode_time_key key
    let addrs : List Bytes = addrs ++ (addr ∷ [])
    if eqb_ℤ (pos (length addrs)) count
        then ok addrs
        else collect_recent count failure entries addrs

  unfoldable pub get_since : ℤ → ℤ → ℤ → Peers D → Result (List Bytes)
  get_since now count time s = with_snapshot s.stored (λ snapshot.
      let visit =
        p.db.backward (compute_last_success_time_key time []) (compute_last_success_time_key now [])
          snapshot in
      collect_recent count visit.failure visit.entries [])
