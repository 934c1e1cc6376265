-- ===== src/PeerStorage/Calls.antt =====
-- Each call of peer_storage_disk.go changes one peer and its key.
use focal_point.Prelude.{
  ◌≡◌, refl, subst, true, none, some, List, [], ◌∷◌, ◌++◌, Bytes, ℤ, pos, ok, >>=-eq-ok,
  bytes_equal, bytes_equal_iff, arith,
}
use focal_point.Binary.{be_int64}
use focal_point.LevelDb.{IsLevelDb, Write, put, remove, last_write}
use focal_point.PeerStorage.Info.{
  PeerInfo, Gob, compute_peer_key, compute_last_attempt_time_key, compute_last_success_time_key,
}
use focal_point.PeerStorage.Disk.{
  PeerStorageDisk, get_peer_info, write_to_batch, store_batch, attempt_batch, success_batch,
  delete_batch,
}
use focal_point.PeerStorage.Consistent.{Listed, Changes}

-- What was encoded is decoded.
abbrev pub IsGob : Gob → Type 0
IsGob gob =
    (info : PeerInfo) (bytes : Bytes) → gob.encode info ≡ ok bytes → gob.decode bytes ≡ ok info

module _ {D : Type 0} (p : PeerStorageDisk D) (is : IsLevelDb p.db) (is_gob : IsGob p.gob)
    (addr : Bytes) (d d' : D) where
  own : (time : ℤ) → bytes_equal (be_int64 time ++ addr) (be_int64 time ++ addr) ≡ true
  own time = (bytes_equal_iff (be_int64 time ++ addr) (be_int64 time ++ addr)).1 refl

  written :
      (info : PeerInfo) (w : Write)
      → write_to_batch p info addr ≡ ok w
      → (bytes : Bytes) × (w ≡ put (b'p' ∷ addr) bytes) × (p.gob.decode bytes ≡ ok info)
  unfolding write_to_batch compute_peer_key
  written info w h =
      let (bytes, e, k) = >>=-eq-ok (p.gob.encode info) _ h in
      (bytes, ground arith, is_gob info bytes e)

  pub stored-Changes :
      (now random : ℤ) (batch : List Write)
      → get_peer_info p addr d ≡ ok none
      → store_batch p now random addr ≡ ok batch
      → p.db.write batch d ≡ (ok tt, d')
      → (info : PeerInfo) × Changes p addr none (some info) d d'
  unfolding store_batch compute_last_attempt_time_key get_peer_info compute_peer_key last_write
  stored-Changes now random batch absent h w =
      let info : PeerInfo = record {
        first_seen = now;
        last_attempt = random;
        last_success = pos 0;
      } in
      let (write, e, k) = >>=-eq-ok (write_to_batch p info addr) _ h in
      let (bytes, is_put, decoded) = written info write e in
      let batch' : List Write =
        put (b'p' ∷ addr) bytes ∷ put (b'a' ∷ (be_int64 random ++ addr)) (0x1 ∷ []) ∷ [] in
      let same : batch ≡ batch' = ground arith in
      let read = λ (key : Bytes).
        is.get-write batch' d d' key
          (subst (λ (b : List Write). p.db.write b d ≡ (ok tt, d')) same w) in
      (
        info,
        record {
          before = absent;
          infos = λ x. ground (arith, read (b'p' ∷ x), decoded);
          kept = λ key not_new not_old. ground (arith, read (b'a' ∷ key));
          added = λ i is_info.
              let at : random ≡ i.last_attempt = ground arith in
              subst (λ (t : ℤ). Listed p (be_int64 t ++ addr) d') at
                (0x1 ∷ [], ground (arith, read (b'a' ∷ (be_int64 random ++ addr)), own random));
          dropped = λ key was not_new. absurd (ground arith);
        },
      )

  pub attempt-Changes :
      (now : ℤ) (info : PeerInfo) (batch : List Write)
      → get_peer_info p addr d ≡ ok (some info)
      → attempt_batch p now addr info ≡ ok batch
      → p.db.write batch d ≡ (ok tt, d')
      → Changes p addr (some info) (some (record info { last_attempt = now })) d d'
  unfolding attempt_batch compute_last_attempt_time_key get_peer_info compute_peer_key last_write
  attempt-Changes now info batch present h w =
      let (write, e, k) =
        >>=-eq-ok (write_to_batch p (record info { last_attempt = now }) addr) _ h in
      let (bytes, is_put, decoded) = written (record info { last_attempt = now }) write e in
      let batch' : List Write =
        remove (b'a' ∷ (be_int64 info.last_attempt ++ addr))
        ∷ put (b'p' ∷ addr) bytes
        ∷ put (b'a' ∷ (be_int64 now ++ addr)) (0x1 ∷ [])
        ∷ [] in
      let same : batch ≡ batch' = ground arith in
      let read = λ (key : Bytes).
        is.get-write batch' d d' key
          (subst (λ (b : List Write). p.db.write b d ≡ (ok tt, d')) same w) in
      record {
        before = present;
        infos = λ x. ground (arith, read (b'p' ∷ x), decoded);
        kept = λ key not_new not_old. ground (arith, read (b'a' ∷ key));
        added = λ i is_info.
            let at : now ≡ i.last_attempt = ground arith in
            subst (λ (t : ℤ). Listed p (be_int64 t ++ addr) d') at
              (0x1 ∷ [], ground (arith, read (b'a' ∷ (be_int64 now ++ addr)), own now));
        dropped = λ key was not_new. ground (arith, read (b'a' ∷ key));
      }

  pub success-Changes :
      (now : ℤ) (info : PeerInfo) (batch : List Write)
      → get_peer_info p addr d ≡ ok (some info)
      → Listed p (be_int64 info.last_attempt ++ addr) d
      → success_batch p now addr info ≡ ok batch
      → p.db.write batch d ≡ (ok tt, d')
      → Changes p addr (some info) (some (record info { last_success = now })) d d'
  unfolding success_batch compute_last_success_time_key get_peer_info compute_peer_key last_write
  success-Changes now info batch present (v, listed) h w =
      let (write, e, k) =
        >>=-eq-ok (write_to_batch p (record info { last_success = now }) addr) _ h in
      let (bytes, is_put, decoded) = written (record info { last_success = now }) write e in
      let batch' : List Write =
        remove (b's' ∷ (be_int64 info.last_success ++ addr))
        ∷ put (b'p' ∷ addr) bytes
        ∷ put (b's' ∷ (be_int64 now ++ addr)) (0x1 ∷ [])
        ∷ [] in
      let same : batch ≡ batch' = ground arith in
      let read = λ (key : Bytes).
        is.get-write batch' d d' key
          (subst (λ (b : List Write). p.db.write b d ≡ (ok tt, d')) same w) in
      record {
        before = present;
        infos = λ x. ground (arith, read (b'p' ∷ x), decoded);
        kept = λ key not_new not_old. ground (arith, read (b'a' ∷ key));
        added = λ i is_info.
            let at : info.last_attempt ≡ i.last_attempt = ground arith in
            subst (λ (t : ℤ). Listed p (be_int64 t ++ addr) d') at
              (v, ground (arith, read (b'a' ∷ (be_int64 info.last_attempt ++ addr))));
        dropped = λ key was not_new. absurd (ground arith);
      }

  pub deleted-Changes :
      (info : PeerInfo)
      → get_peer_info p addr d ≡ ok (some info)
      → p.db.write (delete_batch p addr info) d ≡ (ok tt, d')
      → Changes p addr (some info) none d d'
  unfolding delete_batch compute_last_success_time_key compute_last_attempt_time_key get_peer_info
      compute_peer_key last_write
  deleted-Changes info present w =
      let batch : List Write =
        remove (b'p' ∷ addr)
        ∷ remove (b'a' ∷ (be_int64 info.last_attempt ++ addr))
        ∷ remove (b's' ∷ (be_int64 info.last_success ++ addr))
        ∷ [] in
      let read = λ (key : Bytes). is.get-write batch d d' key w in
      record {
        before = present;
        infos = λ x. ground (arith, read (b'p' ∷ x));
        kept = λ key not_new not_old. ground (arith, read (b'a' ∷ key));
        added = λ i is_info. absurd (ground arith);
        dropped = λ key was not_new. ground (arith, read (b'a' ∷ key));
      }
