-- ===== src/CountStorage/Stored.antt =====
-- What stage_storage_disk.go gives back of what was stored.
use focal_point.Prelude.{
  ◌≡◌, ◌≢◌, refl, sym, ap, ◌∙◌, true, false, Bool-cases, inl, inr, Option, none, some, [], ◌∷◌,
  ◌++◌, Bytes, ℤ, Result, ok, ◌>>=◌, >>=-eq-ok, ◌>>>◌, >>>-eq-ok, ◌<◌, ◌^◌, bytes_equal,
  bytes_equal_iff, All, arith,
}
use focal_point.Binary.{be_int64, read_int64}
use focal_point.Binary.RoundTrip.{Fits64, wrap64-Fits64, read_int64-be_int64, be_bytes_injective}
use focal_point.LevelDb.{IsLevelDb, put, last_write}
use focal_point.Consideration.{Consideration}
use focal_point.Count.{Count, CountId, CountHeader}
use focal_point.Processor.Checks.{valid_string}
use focal_point.Ledger.Keys.{id_bytes}
use focal_point.CountStorage.Disk.{
  FileSystem, Codecs, CountStorageDisk, Storage, encode_count_header, decode_count_header,
  count_path, count_file, store_header, store_file, store, read_count, get_count_bytes, get_count,
  get_count_header,
}

-- A file that was written is there with what was written.
pub record IsFileSystem {F : Type 0} (files : FileSystem F) : Type 0 where
  pub read-write :
      (path bytes : Bytes) (f f' : F)
      → files.write path bytes f ≡ (ok tt, f')
      → (files.read path f' ≡ ok bytes) × (files.exists path f' ≡ true)

-- What encoding/json gives back as it was: a memo in UTF-8, which is otherwise coerced to it, and a
-- sender that is nil or not empty, since `omitempty` drops one that is empty.
abbrev pub IsPlain : Consideration → Type 0
IsPlain cn = (valid_string cn.memo ≡ true) × (cn.by ≢ some [])

-- What was encoded is decoded; the running hash of a count is not encoded.
pub record IsCodecs (codecs : Codecs) : Type 0 where
  pub decode-encode_count :
      (count : Count) (bytes : Bytes)
      → All IsPlain count.considerations
      → codecs.encode_count count ≡ ok bytes
      → codecs.decode_count bytes ≡ ok (record count { hasher = [] })
  pub decode-encode_header :
      (header : CountHeader) (bytes : Bytes)
      → codecs.encode_header header ≡ ok bytes
      → codecs.decode_header bytes ≡ ok header
  pub uncompress-compress :
      (bytes small : Bytes) → codecs.compress bytes ≡ ok small → codecs.uncompress small ≡ ok bytes

module _ {D F : Type 0} (b : CountStorageDisk D F) (is : IsLevelDb b.db)
    (is_files : IsFileSystem b.files) (is_codecs : IsCodecs b.codecs) (id : CountId) (count : Count)
    (now : ℤ) (plain : All IsPlain count.considerations) where
  header_found :
      (s s' : Storage D F)
      → Fits64 now
      → store_header b id count.header now s ≡ (ok tt, s')
      → get_count_header b id s' ≡ ok (some (count.header, now))
  unfolding store_header get_count_header encode_count_header decode_count_header last_write
  header_found s s' fits h =
      let (encoded, t, e, k) = >>>-eq-ok (encode_count_header b.codecs count.header now, s) _ h in
      let (gob, g, q) =
        >>=-eq-ok (b.codecs.encode_header count.header) _
          (ap (λ (x : Result Bytes × Storage D F). x.0) e) in
      let read =
        is.get-write (put (id_bytes id) encoded ∷ []) s.headers s'.headers (id_bytes id)
          (ground arith) in
      let when : read_int64 (be_int64 now ++ gob) ≡ ok (now, gob) =
        read_int64-be_int64 now gob ∙ ap (λ (t : ℤ). ok (t, gob)) (wrap64-Fits64 now fits) in
      let same : encoded ≡ be_int64 now ++ gob = ground arith in
      ground (
        arith,
        read,
        (bytes_equal_iff (id_bytes id) (id_bytes id)).1 refl,
        ap read_int64 same,
        when,
        is_codecs.decode-encode_header count.header gob g,
      )

  count_found :
      (bytes : Bytes) (s s' : Storage D F)
      → count_file b count ≡ ok bytes
      → store_file b id bytes s ≡ (ok tt, s')
      → get_count b id s' ≡ ok (record count { hasher = [] })
  unfolding store_file count_file get_count get_count_bytes read_count
  count_found bytes s s' h w =
      let (raw, e, k) = >>=-eq-ok (b.codecs.encode_count count) _ h in
      let (reads, exists) =
        is_files.read-write (count_path b id b.compressing) bytes s.counts s'.counts
          (ground arith) in
      let decoded = is_codecs.decode-encode_count count raw plain e in
      elim (Bool-cases b.compressing) [
        | inl small ↦
            let back = is_codecs.uncompress-compress raw bytes (ground (arith, k, small)) in
            ground (arith, reads, exists, decoded, back, small)
        | inr as_is ↦ ground (arith, reads, exists, decoded, k, as_is)
      ]

  keeps_files :
      (s s' : Storage D F)
      → store_header b id count.header now s ≡ (ok tt, s')
      → s'.counts ≡ s.counts
  unfolding store_header
  keeps_files s s' h =
      let (encoded, t, e, k) = >>>-eq-ok (encode_count_header b.codecs count.header now, s) _ h in
      ground (arith, e, k)

  keeps_headers :
      (bytes : Bytes) (s s' : Storage D F)
      → store_file b id bytes s ≡ (ok tt, s')
      → s'.headers ≡ s.headers
  unfolding store_file
  keeps_headers bytes s s' h = ground (arith, h)

  same_files : (s s' : Storage D F) → s'.counts ≡ s.counts → get_count b id s' ≡ get_count b id s
  unfolding get_count get_count_bytes
  same_files s s' e = ground (arith, e)

  headers_of :
      (other : CountId) (s s' : Storage D F)
      → s.headers ≡ s'.headers
      → get_count_header b other s ≡ get_count_header b other s'
  unfolding get_count_header
  headers_of other s s' e = ap (λ (d : D). get_header d) e
    where
      get_header : D → Result (Option (CountHeader × ℤ))
      get_header d = do
        encoded ← b.db.get (id_bytes other) d
        elim encoded [
          | none ↦ ok none
          | some bytes ↦ (do found ← decode_count_header b.codecs bytes; ok (some found))
        ]

  other_header :
      (s s' : Storage D F) (other : CountId)
      → id < 2 ^ 256
      → other < 2 ^ 256
      → other ≢ id
      → store_header b id count.header now s ≡ (ok tt, s')
      → get_count_header b other s' ≡ get_count_header b other s
  unfolding store_header get_count_header last_write id_bytes
  other_header s s' other small other_small differs h =
      let (encoded, t, e, k) = >>>-eq-ok (encode_count_header b.codecs count.header now, s) _ h in
      let read =
        is.get-write (put (id_bytes id) encoded ∷ []) s.headers s'.headers (id_bytes other)
          (ground arith) in
      elim (Bool-cases (bytes_equal (id_bytes id) (id_bytes other))) [
        | inl same ↦ absurd (
            differs (
              sym (
                be_bytes_injective 32 id other small other_small
                  ((bytes_equal_iff (id_bytes id) (id_bytes other)).0 same))))
        | inr other_key ↦
            ap
              (λ (r : Result (Option Bytes)). r >>= λ found. elim found [
                | none ↦ ok none
                | some bytes ↦ (do found ← decode_count_header b.codecs bytes; ok (some found))
              ])
              (ground (arith, read, other_key))
      ]

  -- What `Store` stored is given back: the count by `GetCount`, but for its running hash, and its header
  -- by `GetCountHeader` with the time at which it was stored; and the headers of other counts are what
  -- they were. The storage is not read-only then. The time is an int64, identifiers have 32 bytes, a
  -- file that was written is there, memos are in UTF-8, no sender is an empty key, and the codecs
  -- decode what they encoded of such counts.
  pub get_count-store :
      (s s' : Storage D F)
      → Fits64 now
      → id < 2 ^ 256
      → store b id count now s ≡ (ok tt, s')
      → (b.read_only_mode ≡ false)
        × (get_count b id s' ≡ ok (record count { hasher = [] }))
        × (get_count_header b id s' ≡ ok (some (count.header, now)))
        × ((other : CountId)
            → other < 2 ^ 256
            → other ≢ id
            → get_count_header b other s' ≡ get_count_header b other s)
  unfolding store
  get_count-store s s' fits small h = elim (Bool-cases b.read_only_mode) [
    | inl locked ↦ absurd (ground (arith, h, locked))
    | inr writable ↦
        let (bytes, t0, e, k) =
          >>>-eq-ok (count_file b count, s)
            (λ bytes s. store_file b id bytes s >>> λ _ s. store_header b id count.header now s)
            {b = tt} {s' = s'} (ground (arith, h, writable)) in
        let (u, t1, w, q) = >>>-eq-ok (store_file b id bytes t0) _ k in
        let same_headers : t1.headers ≡ s.headers =
          keeps_headers bytes t0 t1 w
          ∙ ap (λ (x : Result Bytes × Storage D F). x.1.headers) (sym e) in
        (
          writable,
          same_files t1 s' (keeps_files t1 s' q)
              ∙ count_found bytes t0 t1 (ap (λ (x : Result Bytes × Storage D F). x.0) e) w,
          header_found t1 s' fits q,
          λ other other_small differs.
              other_header t1 s' other small other_small differs q
              ∙ headers_of other t1 s same_headers,
        )
  ]
