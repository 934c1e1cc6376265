-- ===== src/PeerStorage/Choice.antt =====
-- `Get` of peer_storage_disk.go.
use focal_point.Prelude.{
  ℕ, ◌≤◌, ◌<◌, ◌≡◌, ◌≢◌, sym, ap, ◌∙◌, subst, Bool, true, false, Bool-cases, inl, inr, ◌⊎◌, Option,
  none, some, Option-cases, Result-cases, List, [], ◌∷◌, ◌++◌, Bytes, ℤ, pos, eqb_ℤ, Result, ok,
  err, panic, ◌>>=◌, >>=-eq-ok, Error, Map, lookup, length, length-append, All, bytes_eq,
  if◌then◌else◌, arith,
}
use focal_point.LevelDb.{IsLevelDb}
use focal_point.PeerStorage.Info.{
  PeerInfo, decode_time_key, should_retry, compute_last_attempt_time_key,
}
use focal_point.PeerStorage.Disk.{
  PeerStorageDisk, Peers, get_peer_info, with_snapshot, ended, collect_peers, get,
}

module _ {D : Type 0} (p : PeerStorageDisk D) (now : ℤ) (connected : Map Bytes Bool) (d : D) where
  -- A stored peer that is not connected and whose time has come.
  abbrev pub IsDue : Bytes → Type 0
  IsDue addr =
      (lookup addr connected ≡ none)
      × ((info : PeerInfo) × (get_peer_info p addr d ≡ ok (some info))
          × (should_retry now info ≡ true))

  -- What one entry adds.
  unfoldable pub due : Bytes × Bytes → Result (Option Bytes)
  due (key, value) = do
    (time, addr) ← decode_time_key key
    info ← elim (lookup addr connected) [
      | some c ↦ ok none
      | none ↦ (do
        info ← get_peer_info p addr d
        elim info [ none ↦ panic | some info ↦ ok (some info) ])
    ]
    ok (
        if (elim info [ none ↦ false | some info ↦ should_retry now info ])
        then some addr
        else none)

  All-snoc : (xs : List Bytes) (x : Bytes) → All IsDue xs → IsDue x → All IsDue (xs ++ (x ∷ []))
  All-snoc [] x h hx = (hx, tt)
  All-snoc (y ∷ xs) x (h, hs) hx = (h, All-snoc xs x hs hx)

  choose : Bytes → Option PeerInfo → Option Bytes
  choose addr info =
      if (elim info [ none ↦ false | some info ↦ should_retry now info ]) then some addr else none

  due-IsDue : (entry : Bytes × Bytes) (addr : Bytes) → due entry ≡ ok (some addr) → IsDue addr
  unfolding due
  due-IsDue (key, value) addr h =
      let ((time, found), e, k) = >>=-eq-ok (decode_time_key key) _ h in
      elim (Option-cases (lookup found connected)) [
        | inr (c, is) ↦ absurd (ground (arith, k, is))
        | inl free ↦ elim (Result-cases (get_peer_info p found d)) [
          | inr failed ↦ absurd (ground (arith, k, free, failed))
          | inl (none, g) ↦ absurd (ground (arith, k, free, g))
          | inl (some info, g) ↦ elim (Bool-cases (should_retry now info)) [
            | inr early ↦ absurd (ground (arith, k, free, g, early))
            | inl time_has_come ↦
                subst IsDue {x = found} (ground (arith, k, free, g, time_has_come))
                  (free, (info, g, time_has_come))
          ]
        ]
      ]

  module _ (count : ℤ) (failure : Option Error) where
    unfoldable pub after_due :
        List (Bytes × Bytes) → List Bytes → Option Bytes → Result (List Bytes)
    after_due entries addrs none = collect_peers p now connected count failure d entries addrs
    after_due entries addrs (some addr) =
        if eqb_ℤ (pos (length (addrs ++ (addr ∷ [])))) count
        then ok (addrs ++ (addr ∷ []))
        else collect_peers p now connected count failure d entries (addrs ++ (addr ∷ []))

    pub round :
        (entry : Bytes × Bytes) (entries : List (Bytes × Bytes)) (addrs : List Bytes)
        → collect_peers p now connected count failure d (entry ∷ entries) addrs
          ≡ (due entry >>= after_due entries addrs)
    unfolding collect_peers due after_due
    round (key, value) entries addrs = elim (Result-cases (decode_time_key key)) [
      | inr failed ↦ ground (arith, failed)
      | inl ((time, addr), e) ↦ elim (Option-cases (lookup addr connected)) [
        | inr (c, is) ↦ ground (arith, e, is)
        | inl free ↦ elim (Result-cases (get_peer_info p addr d)) [
          | inr failed ↦ ground (arith, e, free, failed)
          | inl (none, g) ↦ ground (arith, e, free, g)
          | inl (some info, g) ↦ elim (Bool-cases (should_retry now info)) [
            | inr early ↦ ground (arith, e, free, g, early)
            | inl time_has_come ↦ ground (arith, e, free, g, time_has_come)
          ]
        ]
      ]
    ]

    chosen :
        (entries : List (Bytes × Bytes)) (addrs out : List Bytes)
        → All IsDue addrs
        → collect_peers p now connected count failure d entries addrs ≡ ok out
        → All IsDue out × ((n : ℕ) → count ≡ pos n → length addrs < n → length out ≤ n)
    unfolding collect_peers ended after_due
    chosen [] addrs out all h =
        let same : addrs ≡ out = ground arith in
        (subst (All IsDue) same all, λ n is few. ground arith)
    chosen (entry ∷ entries) addrs out all h =
        let (o, e, k) =
          >>=-eq-ok (due entry) (after_due entries addrs) (sym (round entry entries addrs) ∙ h) in
        elim (Option-cases o) [
          | inl nothing ↦ chosen entries addrs out all (ground (arith, k, nothing))
          | inr (addr, is) ↦
              let more =
                All-snoc addrs addr all
                  (due-IsDue entry addr (e ∙ ap (λ (x : Option Bytes). ok x) is)) in
              elim (Bool-cases (eqb_ℤ (pos (length (addrs ++ (addr ∷ [])))) count)) [
                | inl full ↦
                    let same : addrs ++ (addr ∷ []) ≡ out = ground (arith, k, is, full) in
                    (
                      subst (All IsDue) same more,
                      λ n is_n few. ground (arith, full, ap length same),
                    )
                | inr room ↦
                    let (all', bound) =
                      chosen entries (addrs ++ (addr ∷ [])) out more
                        (ground (arith, k, is, room)) in
                    (
                      all',
                      λ n is_n few.
                          bound n is_n (ground (arith, room, length-append {0} addrs (addr ∷ []))),
                    )
              ]
        ]

-- The loop of `Get` on a snapshot.
abbrev pub tried :
    {D : Type 0} → PeerStorageDisk D → (now count : ℤ) → Map Bytes Bool → D → Result (List Bytes)
tried p now count connected d =
    let visit =
      p.db.forward (compute_last_attempt_time_key (pos 0) []) (compute_last_attempt_time_key now [])
        d in
    collect_peers p now connected count visit.failure d visit.entries []

pub taken :
    {D : Type 0}
    → (p : PeerStorageDisk D) → (now count : ℤ) → (s : Peers D) → (snapshot : D)
    → p.db.snapshot s.stored ≡ ok snapshot
    → get p now count s ≡ tried p now count s.connected_peers snapshot
unfolding get with_snapshot
taken p now count s snapshot e = ground (arith, e)

pub get-tried :
    {D : Type 0}
    → (p : PeerStorageDisk D) → IsLevelDb p.db
    → (now count : ℤ) → (s : Peers D) → ((snapshot : D) × (p.db.snapshot s.stored ≡ ok snapshot))
    → get p now count s ≡ tried p now count s.connected_peers s.stored
get-tried p is now count s (snapshot, e) =
    taken p now count s snapshot e
    ∙ ap (tried p now count s.connected_peers) (is.snapshot-same s.stored snapshot e)

refused :
    {D : Type 0}
    → (p : PeerStorageDisk D) → (now count : ℤ) → (s : Peers D) → (addrs : List Bytes)
    → ((e : Error) × (p.db.snapshot s.stored ≡ err e)) ⊎ (p.db.snapshot s.stored ≡ panic)
    → get p now count s ≢ ok addrs
unfolding get with_snapshot
refused p now count s addrs (inl (e, failed)) h = ground (arith, h, failed)
refused p now count s addrs (inr failed) h = ground (arith, h, failed)

-- When `Get` returns addresses, each of them is of a stored peer, is not connected and is due for
-- another attempt; and if it was asked for one or more, they are at most as many as it was asked for.
pub get_lem :
    {D : Type 0}
    → (p : PeerStorageDisk D) → IsLevelDb p.db
    → (now count : ℤ) → (s : Peers D) → (addrs : List Bytes) → get p now count s ≡ ok addrs
    → All (IsDue p now s.connected_peers s.stored) addrs
      × ((n : ℕ) → count ≡ pos n → 0 < n → length addrs ≤ n)
unfolding get with_snapshot
get_lem p is now count s addrs h = elim (Result-cases (p.db.snapshot s.stored)) [
  | inl (snapshot, e) ↦
      let visit =
        p.db.forward (compute_last_attempt_time_key (pos 0) [])
          (compute_last_attempt_time_key now []) s.stored in
      chosen p now s.connected_peers s.stored count visit.failure visit.entries [] addrs tt
        (sym (get-tried p is now count s (snapshot, e)) ∙ h)
  | inr failed ↦ absurd (refused p now count s addrs failed h)
]
