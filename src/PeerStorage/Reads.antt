-- ===== src/PeerStorage/Reads.antt =====
-- What a call of peer_storage_disk.go reads, and what the batch that it prepares does.
use focal_point.Prelude.{
  ◌≡◌, refl, Option, none, some, Result-cases, inl, inr, Bool-cases, List, Bytes, ℤ, Result, ok,
  ◌>>=◌, >>=-eq-ok, arith,
}
use focal_point.LevelDb.{IsLevelDb, Write}
use focal_point.PeerStorage.Info.{PeerInfo, Instant, should_delete}
use focal_point.PeerStorage.Disk.{
  PeerStorageDisk, get_peer_info, known_peer, store_reads, delete_reads, attempt_reads,
  failure_reads, success_reads,
}
use focal_point.PeerStorage.Consistent.{IsConsistent, Changes}
use focal_point.PeerStorage.Calls.{
  IsGob, stored-Changes, attempt-Changes, success-Changes, deleted-Changes,
}

-- The calls that write, each at a time and with a random number.
pub data Call : Type 0 where
  store_call : (now random : ℤ) → Bytes → Call
  delete_call : Bytes → Call
  attempt_call : (now : ℤ) → Bytes → Call
  failure_call : (now : Instant) → Bytes → Call
  success_call : (now : ℤ) → Bytes → Call

abbrev pub party : Call → Bytes
party (store_call now random addr) = addr
party (delete_call addr) = addr
party (attempt_call now addr) = addr
party (failure_call now addr) = addr
party (success_call now addr) = addr

abbrev found : Result (List Write) → Result (Option (List Write))
found r = do batch ← r; ok (some batch)

-- The batch that a call is to write, none if it returns without a write.
abbrev pub reads : {D : Type 0} → PeerStorageDisk D → Call → D → Result (Option (List Write))
reads p (store_call now random addr) d = store_reads p now random addr d
reads p (delete_call addr) d = found (delete_reads p addr d)
reads p (attempt_call now addr) d = found (attempt_reads p now addr d)
reads p (failure_call now addr) d = failure_reads p now addr d
reads p (success_call now addr) d = found (success_reads p now addr d)

module _ {D : Type 0} (p : PeerStorageDisk D) (d d' : D) where
  known_peer-same :
      (addr : Bytes)
      → get_peer_info p addr d' ≡ get_peer_info p addr d
      → known_peer p addr d' ≡ known_peer p addr d
  unfolding known_peer
  known_peer-same addr e = rw e refl

  -- A call reads only what is stored of its peer.
  pub reads-same :
      (call : Call)
      → get_peer_info p (party call) d' ≡ get_peer_info p (party call) d
      → reads p call d' ≡ reads p call d
  unfolding store_reads delete_reads attempt_reads failure_reads success_reads
  reads-same (store_call now random addr) e = rw e refl
  reads-same (delete_call addr) e = rw (known_peer-same addr e) refl
  reads-same (attempt_call now addr) e = rw (known_peer-same addr e) refl
  reads-same (failure_call now addr) e = rw (known_peer-same addr e) refl
  reads-same (success_call now addr) e = rw (known_peer-same addr e) refl

  known_peer-eq-ok :
      (addr : Bytes) (info : PeerInfo)
      → known_peer p addr d ≡ ok info
      → get_peer_info p addr d ≡ ok (some info)
  unfolding known_peer
  known_peer-eq-ok addr info h = elim (Result-cases (get_peer_info p addr d)) [
    | inl (none, e) ↦ absurd (ground arith)
    | inl (some other, e) ↦ ground arith
    | inr (inl (x, e)) ↦ absurd (ground arith)
    | inr (inr e) ↦ absurd (ground arith)
  ]

  found-eq-some :
      (addr : Bytes) (batch : List Write) (next : PeerInfo → Result (List Write))
      → found (known_peer p addr d >>= next) ≡ ok (some batch)
      → (info : PeerInfo) × (get_peer_info p addr d ≡ ok (some info)) × (next info ≡ ok batch)
  found-eq-some addr batch next h =
      let (b, e, k) = >>=-eq-ok (known_peer p addr d >>= next) _ h in
      let (info, known, w) = >>=-eq-ok (known_peer p addr d) next e in
      (info, known_peer-eq-ok addr info known, ground arith)

-- A batch that a call prepares from a state changes one peer and its key there.
pub reads-Changes :
    {D : Type 0}
    → (p : PeerStorageDisk D) → IsLevelDb p.db
    → IsGob p.gob
    → (d d' : D) → IsConsistent p d
    → (call : Call) → (batch : List Write) → reads p call d ≡ ok (some batch)
    → p.db.write batch d ≡ (ok tt, d')
    → (old new : Option PeerInfo) × Changes p (party call) old new d d'
unfolding store_reads delete_reads attempt_reads failure_reads success_reads
reads-Changes p is is_gob d d' consistent (store_call now random addr) batch h w =
    elim (Result-cases (get_peer_info p addr d)) [
      | inl (some info, e) ↦ absurd (ground arith)
      | inr (inl (x, e)) ↦ absurd (ground arith)
      | inr (inr e) ↦ absurd (ground arith)
      | inl (none, absent) ↦
          let (info, c) =
            stored-Changes p is is_gob addr d d' now random batch absent (ground arith) w in
          (none, some info, c)
    ]
reads-Changes p is is_gob d d' consistent (delete_call addr) batch h w =
    let (info, present, k) = found-eq-some p d d addr batch _ h in
    (some info, none, deleted-Changes p is is_gob addr d d' info present (ground arith))
reads-Changes p is is_gob d d' consistent (attempt_call now addr) batch h w =
    let (info, present, k) = found-eq-some p d d addr batch _ h in
    (
      some info,
      some (record info { last_attempt = now }),
      attempt-Changes p is is_gob addr d d' now info batch present k w,
    )
reads-Changes p is is_gob d d' consistent (success_call now addr) batch h w =
    let (info, present, k) = found-eq-some p d d addr batch _ h in
    (
      some info,
      some (record info { last_success = now }),
      success-Changes p is is_gob addr d d' now info batch present
          (consistent.attempted addr info present) k w,
    )
reads-Changes p is is_gob d d' consistent (failure_call now addr) batch h w =
    let (info, known, k) = >>=-eq-ok (known_peer p addr d) _ h in
    let present = known_peer-eq-ok p d d addr info known in
    elim (Bool-cases (should_delete now info)) [
      | inl gone ↦
          (some info, none, deleted-Changes p is is_gob addr d d' info present (ground arith))
      | inr stays ↦ absurd (ground arith)
    ]
