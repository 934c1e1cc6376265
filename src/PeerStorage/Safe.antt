-- ===== src/PeerStorage/Safe.antt =====
-- When `Get` of peer_storage_disk.go panics.
use focal_point.Prelude.{
  ℕ, ◌≡◌, ◌≢◌, ◌↔◌, err, refl, sym, ap, ◌∙◌, Bool, true, false, Bool-cases, inl, inr, Option, none,
  some, Option-cases, Result-cases, List, [], ◌∷◌, ◌++◌, Bytes, ℤ, pos, eqb_ℤ, ok, panic, Error,
  Map, lookup, length, All, bytes_eq, arith, wrap64,
}
use focal_point.Binary.{be_int64}
use focal_point.Binary.RoundTrip.{read_bytes-append, read_int64-be_int64}
use focal_point.LevelDb.{IsLevelDb, bytes_ltb}
use focal_point.PeerStorage.Info.{decode_time_key, compute_last_attempt_time_key}
use focal_point.PeerStorage.Disk.{PeerStorageDisk, Peers, with_snapshot, ended, collect_peers, get}
use focal_point.PeerStorage.Consistent.{IsConsistent}
use focal_point.PeerStorage.Choice.{due, after_due, round, get-tried}

-- Reads of the database and gob report what goes wrong as an error.
pub record NoPanics {D : Type 0} (p : PeerStorageDisk D) : Type 0 where
  pub gets : (key : Bytes) (d : D) → p.db.get key d ≢ panic
  pub snapshots : (d : D) → p.db.snapshot d ≢ panic
  pub decodes : (bytes : Bytes) → p.gob.decode bytes ≢ panic

-- A key between two that begin with the same byte begins with it.
between :
    (a : ℕ) (key start limit : Bytes)
    → bytes_ltb key (a ∷ start) ≡ false
    → bytes_ltb key (a ∷ limit) ≡ true
    → (rest : Bytes) × (key ≡ a ∷ rest)
unfolding bytes_ltb
between a [] start limit h k = absurd (ground arith)
between a (b ∷ rest) start limit h k = (rest, ground arith)

decode_attempt :
    (time : ℤ) (addr : Bytes)
    → decode_time_key (b'a' ∷ (be_int64 time ++ addr)) ≡ ok (wrap64 time, addr)
unfolding decode_time_key
decode_attempt time addr =
    rw (read_bytes-append 1 (b'a' ∷ []) (be_int64 time ++ addr) refl)
      (read_int64-be_int64 time addr)

module _ {D : Type 0} (p : PeerStorageDisk D) (calm : NoPanics p) (now : ℤ)
    (connected : Map Bytes Bool) (d : D) (is : IsConsistent p d) where
  InTable : Bytes × Bytes → Type 0
  InTable e = (key : Bytes) × (e.0 ≡ b'a' ∷ key) × (p.db.get e.0 d ≡ ok (some e.1))

  due_no_panic : (e : Bytes × Bytes) → InTable e → due p now connected d e ≢ panic
  unfolding InTable due
  due_no_panic (k, v) (key, at, got) h =
      let (addr, info, present, own) =
        is.known key (v, ap (λ (x : Bytes). p.db.get x d) (sym at) ∙ got) in
      let decoded : decode_time_key k ≡ ok (wrap64 info.last_attempt, addr) =
        ap decode_time_key (at ∙ ap (λ (x : Bytes). b'a' ∷ x) own)
        ∙ decode_attempt info.last_attempt addr in
      elim (Option-cases (lookup addr connected)) [
        | inl free ↦ ground (arith, h, decoded, free, present)
        | inr (c, held) ↦ ground (arith, h, decoded, held)
      ]

  collect_peers_no_panic :
      (count : ℤ) (failure : Option Error) (entries : List (Bytes × Bytes)) (addrs : List Bytes)
      → All InTable entries
      → collect_peers p now connected count failure d entries addrs ≢ panic
  unfolding collect_peers ended after_due
  collect_peers_no_panic count none [] addrs all h = ground arith
  collect_peers_no_panic count (some e) [] addrs all h = ground arith
  collect_peers_no_panic count failure (e ∷ entries) addrs (first, all) h =
      let step = round p now connected d count failure e entries addrs in
      elim (Result-cases (due p now connected d e)) [
        | inl (none, got) ↦
            collect_peers_no_panic count failure entries addrs all (ground (arith, h, step, got))
        | inr (inl (x, failed)) ↦ ground (arith, h, step, failed)
        | inr (inr panicked) ↦ due_no_panic e first panicked
        | inl (some addr, got) ↦
            elim (Bool-cases (eqb_ℤ (pos (length (addrs ++ (addr ∷ [])))) count)) [
              | inl full ↦ ground (arith, h, step, got, full)
              | inr room ↦
                  collect_peers_no_panic count failure entries (addrs ++ (addr ∷ [])) all
                    (ground (arith, h, step, got, room))
            ]
      ]

  entries-InTable :
      (start limit : Bytes) (entries : List (Bytes × Bytes))
      → All
          (λ (e : Bytes × Bytes).
            (p.db.get e.0 d ≡ ok (some e.1))
            × (bytes_ltb e.0 (b'a' ∷ start) ≡ false)
            × (bytes_ltb e.0 (b'a' ∷ limit) ≡ true))
          entries
      → All InTable entries
  unfolding InTable
  entries-InTable start limit [] all = tt
  entries-InTable start limit ((k, v) ∷ entries) ((got, above, below), all) =
      let (key, at) = between b'a' k start limit above below in
      ((key, at, got), entries-InTable start limit entries all)

-- In a state where the table of attempts agrees with what is stored, `Get` panics exactly when
-- GetSnapshot returns an error, by its release of the nil that comes with it: it never meets the nil
-- of an address of which nothing is stored. Reading the database and decoding do not panic.
pub get_panic_iff :
    {D : Type 0}
    → (p : PeerStorageDisk D) → IsLevelDb p.db
    → NoPanics p
    → (now count : ℤ) → (s : Peers D) → IsConsistent p s.stored
    → (get p now count s ≡ panic) ↔ ((e : Error) × (p.db.snapshot s.stored ≡ err e))
unfolding get with_snapshot compute_last_attempt_time_key
get_panic_iff p is calm now count s consistent = (
  λ h. elim (Result-cases (p.db.snapshot s.stored)) [
    | inr (inr panicked) ↦ absurd (calm.snapshots s.stored panicked)
    | inr (inl failed) ↦ failed
    | inl (snapshot, e) ↦
        let visit =
          p.db.forward (b'a' ∷ (be_int64 (pos 0) ++ [])) (b'a' ∷ (be_int64 now ++ [])) s.stored in
        absurd (
          collect_peers_no_panic p calm now s.connected_peers s.stored consistent count
            visit.failure visit.entries []
            (entries-InTable p calm now s.connected_peers s.stored consistent
              (be_int64 (pos 0) ++ []) (be_int64 now ++ []) visit.entries
              (is.forward-stored (b'a' ∷ (be_int64 (pos 0) ++ [])) (b'a' ∷ (be_int64 now ++ []))
                s.stored))
            (sym (get-tried p is now count s (snapshot, e)) ∙ h))
  ],
  λ (e, failed). ground (arith, failed),
)
