-- ===== src/PeerStorage/Consistent.antt =====
-- The table of attempts in peer_storage_disk.go agrees with what is stored of the peers.
use focal_point.Prelude.{
  ◌≡◌, refl, sym, ap, ◌∙◌, subst, Bool, true, false, Bool-cases, inl, inr, Option, none, some,
  Option-cases, ◌∷◌, ◌++◌, Bytes, ℤ, ok, bytes_equal, bytes_equal_iff, if◌then◌else◌, arith,
}
use focal_point.Binary.{be_int64, read_int64}
use focal_point.Binary.RoundTrip.{read_int64-be_int64}
use focal_point.PeerStorage.Info.{PeerInfo}
use focal_point.PeerStorage.Disk.{PeerStorageDisk, get_peer_info}

module _ {D : Type 0} (p : PeerStorageDisk D) where
  -- A key of the table of attempts, without its prefix, that is there.
  abbrev pub Listed : Bytes → D → Type 0
  Listed key d = (v : Bytes) × (p.db.get (b'a' ∷ key) d ≡ ok (some v))

  -- Every peer is listed at the time of its last attempt, and nothing else is listed.
  pub record IsConsistent (d : D) : Type 0 where
    pub attempted :
        (addr : Bytes) (info : PeerInfo)
        → get_peer_info p addr d ≡ ok (some info)
        → Listed (be_int64 info.last_attempt ++ addr) d
    pub known :
        (key : Bytes)
        → Listed key d
        → (addr : Bytes) × (info : PeerInfo) × (get_peer_info p addr d ≡ ok (some info))
          × (key ≡ be_int64 info.last_attempt ++ addr)

  -- The peer's own key.
  abbrev pub own_key : Option PeerInfo → Bytes → Bytes → Bool
  own_key none addr key = false
  own_key (some info) addr key = bytes_equal (be_int64 info.last_attempt ++ addr) key

same_addr :
    (time time' : ℤ) (addr addr' : Bytes)
    → be_int64 time ++ addr ≡ be_int64 time' ++ addr'
    → addr ≡ addr'
same_addr time time' addr addr' e =
    ground (arith, ap read_int64 e, read_int64-be_int64 time addr, read_int64-be_int64 time' addr')

-- A change of what is stored of one peer, with its key.
pub record Changes {D : Type 0} (p : PeerStorageDisk D) (addr : Bytes) (old new : Option PeerInfo)
    (d d' : D) : Type 0 where
  pub before : get_peer_info p addr d ≡ ok old
  pub infos :
      (x : Bytes)
      → get_peer_info p x d' ≡ (if bytes_equal addr x then ok new else get_peer_info p x d)
  pub kept :
      (key : Bytes)
      → own_key p new addr key ≡ false
      → own_key p old addr key ≡ false
      → p.db.get (b'a' ∷ key) d' ≡ p.db.get (b'a' ∷ key) d
  pub added : (info : PeerInfo) → new ≡ some info → Listed p (be_int64 info.last_attempt ++ addr) d'
  pub dropped :
      (key : Bytes)
      → own_key p old addr key ≡ true
      → own_key p new addr key ≡ false
      → p.db.get (b'a' ∷ key) d' ≡ ok none

module _ {D : Type 0} (p : PeerStorageDisk D) (addr : Bytes) (old new : Option PeerInfo) (d d' : D)
    (c : Changes p addr old new d d') where
  other_key :
      (x : Bytes) (time : ℤ) (info : Option PeerInfo)
      → bytes_equal addr x ≡ false
      → own_key p info addr (be_int64 time ++ x) ≡ false
  other_key x time none other = refl
  other_key x time (some info) other =
      elim (Bool-cases (bytes_equal (be_int64 info.last_attempt ++ addr) (be_int64 time ++ x))) [
        | inr e ↦ e
        | inl e ↦
            let same =
              same_addr info.last_attempt time addr x
                ((bytes_equal_iff (be_int64 info.last_attempt ++ addr) (be_int64 time ++ x)).0 e) in
            absurd (ground (arith, other, (bytes_equal_iff addr x).1 same))
      ]

  -- A key that is listed after the change belongs to a peer that is stored after it.
  still_known :
      IsConsistent p d
      → (key : Bytes) → Listed p key d'
      → (x : Bytes) × (info : PeerInfo) × (get_peer_info p x d' ≡ ok (some info))
        × (key ≡ be_int64 info.last_attempt ++ x)
  still_known is key (v, e) = elim (Bool-cases (own_key p new addr key)) [
    | inl now ↦ elim (Option-cases new) [
      | inl gone ↦ absurd (ground arith)
      | inr (info, is_new) ↦ (
        addr,
        info,
        ground (arith, c.infos addr, (bytes_equal_iff addr addr).1 refl),
        ground (arith, (bytes_equal_iff (be_int64 info.last_attempt ++ addr) key).0),
      )
    ]
    | inr not_now ↦ elim (Bool-cases (own_key p old addr key)) [
      | inl was ↦ absurd (ground (arith, c.dropped key was not_now))
      | inr never ↦
          let (x, info, stored, own) = is.known key (v, sym (c.kept key not_now never) ∙ e) in
          elim (Bool-cases (bytes_equal addr x)) [
            | inr other ↦ (x, info, ground (arith, c.infos x), own)
            | inl same ↦
                let here : x ≡ addr = sym ((bytes_equal_iff addr x).0 same) in
                let old_is : old ≡ some info =
                  ground (arith, c.before, ap (λ (y : Bytes). get_peer_info p y d) here) in
                absurd (
                  ground (
                    arith,
                    ap (λ (o : Option PeerInfo). own_key p o addr key) old_is,
                    own ∙ ap (λ (y : Bytes). be_int64 info.last_attempt ++ y) here,
                    bytes_equal_iff (be_int64 info.last_attempt ++ addr) key,
                  ))
          ]
    ]
  ]

  pub Changes-IsConsistent : IsConsistent p d → IsConsistent p d'
  Changes-IsConsistent is = record {
    attempted = λ x info h. elim (Bool-cases (bytes_equal addr x)) [
      | inl same ↦
          subst (λ (y : Bytes). Listed p (be_int64 info.last_attempt ++ y) d')
            ((bytes_equal_iff addr x).0 same) (c.added info (ground (arith, c.infos x, same, h)))
      | inr other ↦
          let (v, e) = is.attempted x info (ground (arith, c.infos x, other, h)) in
          (
            v,
            c.kept (be_int64 info.last_attempt ++ x) (other_key x info.last_attempt new other)
                  (other_key x info.last_attempt old other)
                ∙ e,
          )
    ];
    known = still_known is;
  }
