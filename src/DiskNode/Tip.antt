-- ===== src/DiskNode/Tip.antt =====
-- Where the processor of processor.go leaves the tip of the ledger of ledger_disk.go.
use focal_point.Prelude.{
  ◌≡◌, sym, ap, ◌∙◌, Bool, true, false, not, Bool-cases, inl, inr, ◌⊎◌, Option, none, some,
  Option-cases, Result-cases, List, [], ◌∷◌, ◌++◌, Bytes, ℤ, Result, ok, panic, ◌>>=◌, ◌>>>◌,
  >>>-eq-ok, >>=-eq-ok, if◌then◌else◌, ◌==◌, ==_iff, ◌<◌, ◌^◌, arith,
}
use focal_point.Binary.RoundTrip.{Fits64}
use focal_point.LevelDb.{IsLevelDb, put, last_write}
use focal_point.Consideration.{ConsiderationId}
use focal_point.Count.{Count, CountId, CountHeader, compare_headers}
use focal_point.ConsiderationQueue.{remove_batch}
use focal_point.Processor.Node.{TipChange, World, reading, on_backend, on_queue, side, history}
use focal_point.Processor.Fork.{find_fork}
use focal_point.Processor.Accept.{
  connect_count, disconnect_all, connect_all, get_point_tip_header, move_tip, accept_count_continue,
}
use focal_point.Ledger.Reads.{found, get_point_tip, set_branch_type}
use focal_point.Ledger.Keys.{
  id_bytes, branch_byte, decode_point_tip, compute_point_tip_key, compute_branch_type_key,
}
use focal_point.Ledger.Connect as Ledger
use focal_point.Ledger.Connect.Tip.{connect_count-tip}
use focal_point.CountStorage.Disk.{get_count_header}
use focal_point.DiskNode.{Opened, Stores, ledger_on, on_ledger, disk_processor}

module _ {D C F : Type 0} (o : Opened D C F) where
  abbrev pub tip_of : World (Stores D C F) → Result (Option (CountId × ℤ))
  tip_of w = get_point_tip (ledger_on o w.backend.1) w.backend.0

  -- What comes of a count that was accepted and the tip that there was.
  pub data Followed (id : CountId) (count : Count) (when : ℤ) (w w' : World (Stores D C F))
      : Type 0 where
    already :
        (height : ℤ) → tip_of w ≡ ok (some (id, height)) → w' ≡ w → Followed id count when w w'
    worse :
        (tip_id : CountId) (height : ℤ) (tip : CountHeader) (tip_when : ℤ)
        → tip_of w ≡ ok (some (tip_id, height))
        → get_count_header o.count_store tip_id w.backend.1 ≡ ok (some (tip, tip_when))
        → compare_headers o.hashing count.header tip when tip_when ≡ ok false
        → tip_of w' ≡ tip_of w
        → Followed id count when w w'
    better :
        (tip_id : CountId) (height : ℤ) (tip : CountHeader) (tip_when : ℤ)
        → tip_of w ≡ ok (some (tip_id, height))
        → get_count_header o.count_store tip_id w.backend.1 ≡ ok (some (tip, tip_when))
        → compare_headers o.hashing count.header tip when tip_when ≡ ok true
        → tip_of w' ≡ ok (some (id, count.header.height))
        → Followed id count when w w'

module _ {D C F : Type 0} (o : Opened D C F) (is : IsLevelDb o.ledger_db) where
  queue_keeps :
      {A : Type 0}
      → (w w' : World (Stores D C F)) → (r : Result A) → (call : _)
      → on_queue (disk_processor o) call w ≡ (r, w')
      → w'.backend ≡ w.backend
  unfolding on_queue
  queue_keeps w w' r call h = ground (arith, h)

  -- The tip does not depend on the stored counts.
  same_tip : (w w' : World (Stores D C F)) → w'.backend.0 ≡ w.backend.0 → tip_of o w' ≡ tip_of o w
  unfolding get_point_tip
  same_tip w w' e = ap (λ (d : D). get_point_tip (ledger_on o w.backend.1) d) e

  ledger_run :
      {A : Type 0}
      → (call : _) → (a : A) → (w w' : World (Stores D C F))
      → on_backend (disk_processor o) (on_ledger o call) w ≡ (ok a, w')
      → call (ledger_on o w.backend.1) w.backend.0 ≡ (ok a, w'.backend.0)
  unfolding on_backend on_ledger
  ledger_run call a w w' h = ground (arith, h)

  queue_then :
      (w w' : World (Stores D C F)) (cn_ids : List ConsiderationId) (height : ℤ) (more : Bool)
      (change : TipChange)
      → ◌≡◌ {A = Result (Unit {0}) × World (Stores D C F)}
          (elim cn_ids [
            | [] ↦ (panic, w)
            | _ ∷ rest ↦
                on_queue (disk_processor o) (λ env. remove_batch env rest height more) w >>> λ _ w.
                (ok tt, record w { tip_changes = w.tip_changes ++ change ∷ [] })
          ])
          (ok tt, w')
      → w'.backend ≡ w.backend
  queue_then w w' [] height more change h = absurd (ground arith)
  queue_then w w' (first ∷ rest) height more change h =
      let (u, w1, e, k) =
        >>>-eq-ok (on_queue (disk_processor o) (λ env. remove_batch env rest height more) w) _ h in
      ap (λ (x : Result (Unit {0}) × World (Stores D C F)). x.1.backend) (sym k)
      ∙ queue_keeps w w1 (ok u) (λ env. remove_batch env rest height more) e

  -- `connectCount`, when it succeeds, leaves the count as the tip.
  connect_count_tip :
      (id : CountId) (count : Count) (source : Bytes) (more : Bool) (w w' : World (Stores D C F))
      → id < 2 ^ 256
      → Fits64 count.header.height
      → connect_count (disk_processor o) id count source more w ≡ (ok tt, w')
      → tip_of o w' ≡ ok (some (id, count.header.height))
  unfolding connect_count on_backend on_ledger get_point_tip
  connect_count_tip id count source more w w' small fits h =
      let (cn_ids, w1, e, k) =
        >>>-eq-ok
          (on_backend (disk_processor o) (on_ledger o (λ l. Ledger.connect_count l id count)) w) _
          h in
      let connected =
        connect_count-tip (ledger_on o w.backend.1) is w.backend.0 w1.backend.0 id count cn_ids
          small fits (ledger_run (λ l. Ledger.connect_count l id count) cn_ids w w1 e) in
      same_tip w1 w' (
        ap (λ (s : Stores D C F). s.0)
          (queue_then w1 w' cn_ids count.header.height more
            (record { count_id = id; count = count; source = source; connect = true; more = more })
            k))
      ∙ connected.0

  -- To set a branch type leaves the tip.
  set_branch_type_tip :
      (id : CountId) (w w' : World (Stores D C F))
      → on_backend (disk_processor o) (on_ledger o (λ l. set_branch_type l id side)) w ≡ (ok tt, w')
      → tip_of o w' ≡ tip_of o w
  unfolding get_point_tip set_branch_type last_write compute_point_tip_key compute_branch_type_key
  set_branch_type_tip id w w' h =
      let wrote = ledger_run (λ l. set_branch_type l id side) tt w w' h in
      let read =
        is.get-write (put (b'B' ∷ id_bytes id) (branch_byte side ∷ []) ∷ []) w.backend.0
          w'.backend.0 (b'T' ∷ []) wrote in
      ap
        (λ (r : Result (Option Bytes)).
          r >>= λ bytes. found bytes none (λ bytes. do tip ← decode_point_tip bytes; ok (some tip)))
        read

  move_tip_tip :
      (id : CountId) (count : Count) (prev : CountHeader) (tip_id : CountId) (tip : CountHeader)
      (source : Bytes) (w w' : World (Stores D C F))
      → id < 2 ^ 256
      → Fits64 count.header.height
      → move_tip (disk_processor o) id count prev tip_id tip source w ≡ (ok tt, w')
      → tip_of o w' ≡ ok (some (id, count.header.height))
  unfolding move_tip
  move_tip_tip id count prev tip_id tip source w w' small fits h =
      elim (Option-cases
        (find_fork (history (disk_processor o) w.backend) tip_id tip count.header.previous prev)) [
          | inl none_found ↦ absurd (ground (arith, h, none_found))
          | inr (r, is_r) ↦ elim (Result-cases r) [
            | inr (inl (e, failed)) ↦ absurd (ground (arith, h, is_r, failed))
            | inr (inr panicked) ↦ absurd (ground (arith, h, is_r, panicked))
            | inl (fork, is_fork) ↦
                let (u, w1, e1, k1) =
                  >>>-eq-ok (disconnect_all (disk_processor o) fork.tip.counts source w)
                    (λ _ w. connect_all (disk_processor o) fork.new.counts source w >>> λ _ w.
                      connect_count (disk_processor o) id count source false w)
                    {b = tt} {s' = w'} (ground (arith, h, is_r, is_fork)) in
                let (v, w2, e2, k2) =
                  >>>-eq-ok (connect_all (disk_processor o) fork.new.counts source w1) _ k1 in
                connect_count_tip id count source false w2 w' small fits k2
          ]
        ]

  tip_header_parts :
      (s : Stores D C F) (found : Option (CountId × Option (CountHeader × ℤ)))
      → get_point_tip_header (disk_processor o) s ≡ ok found
      → ((found ≡ none) × (get_point_tip (ledger_on o s.1) s.0 ≡ ok none))
        ⊎ ((tip_id : CountId) × (height : ℤ) × (header : Option (CountHeader × ℤ)) × (found
              ≡ some (tip_id, header))
            × (get_point_tip (ledger_on o s.1) s.0 ≡ ok (some (tip_id, height)))
            × (get_count_header o.count_store tip_id s.1 ≡ ok header))
  unfolding get_point_tip_header
  tip_header_parts s found h =
      let (tip, e, k) = >>=-eq-ok (get_point_tip (ledger_on o s.1) s.0) _ h in
      elim (Option-cases tip) [
        | inl no_tip ↦
            inl (ground (arith, k, no_tip), e ∙ ap (λ (t : Option (CountId × ℤ)). ok t) no_tip)
        | inr ((tip_id, height), is_tip) ↦
            let (header, g, q) =
              >>=-eq-ok (get_count_header o.count_store tip_id s.1)
                (λ found. ok (some (tip_id, found))) {b = found} (ground (arith, k, is_tip)) in
            inr (
              tip_id,
              height,
              header,
              ground (arith, q),
              e ∙ ap (λ (t : Option (CountId × ℤ)). ok t) is_tip,
              g,
            )
      ]

  -- The rest of `acceptCountContinue` once the tip's header is known.
  choose_tip :
      (id : CountId) (count : Count) (when : ℤ) (prev : Option CountHeader) (source : Bytes)
      (tip_id : CountId) (tip : CountHeader) (tip_when : ℤ) (w w' : World (Stores D C F))
      → ◌≡◌ {A = Result (Unit {0}) × World (Stores D C F)}
          ((compare_headers o.hashing count.header tip when tip_when, w) >>> λ better w.
            if not better
            then on_backend (disk_processor o) (on_ledger o (λ l. set_branch_type l id side)) w
            else elim prev [
              | none ↦ (panic, w)
              | some header ↦ move_tip (disk_processor o) id count header tip_id tip source w
            ])
          (ok tt, w')
      → id < 2 ^ 256
      → Fits64 count.header.height
      → ((compare_headers o.hashing count.header tip when tip_when ≡ ok false)
          × (tip_of o w' ≡ tip_of o w))
        ⊎ ((compare_headers o.hashing count.header tip when tip_when ≡ ok true)
            × (tip_of o w' ≡ ok (some (id, count.header.height))))
  choose_tip id count when prev source tip_id tip tip_when w w' h small fits =
      elim (Result-cases (compare_headers o.hashing count.header tip when tip_when)) [
        | inr (inl (e, failed)) ↦ absurd (ground (arith, h, failed))
        | inr (inr panicked) ↦ absurd (ground (arith, h, panicked))
        | inl (false, c) ↦ inl (c, set_branch_type_tip id w w' (ground (arith, h, c)))
        | inl (true, c) ↦ elim (Option-cases prev) [
          | inl no_parent ↦ absurd (ground (arith, h, c, no_parent))
          | inr (header, is) ↦ inr (
            c,
            move_tip_tip id count header tip_id tip source w w' small fits
                (ground (arith, h, c, is)),
          )
        ]
      ]

  -- When `acceptCountContinue` succeeds on a node with its ledger and its counts on disk, the node
  -- follows the better point: either the count was the tip already and nothing changes, or it is not
  -- better than the tip by `Compare` and the tip stays, or it is better and then it is the tip, at its
  -- height. Its identifier has 32 bytes and its height is an int64.
  pub accept_count_continue-Followed :
      (id : CountId) (count : Count) (when : ℤ) (prev : Option CountHeader) (source : Bytes)
      (w w' : World (Stores D C F))
      → id < 2 ^ 256
      → Fits64 count.header.height
      → accept_count_continue (disk_processor o) id count when prev source w ≡ (ok tt, w')
      → Followed o id count when w w'
  unfolding accept_count_continue reading
  accept_count_continue-Followed id count when prev source w w' small fits h =
      let (found, w1, e, k) =
        >>>-eq-ok (reading (disk_processor o) (get_point_tip_header (disk_processor o)) w) _ h in
      let same : w ≡ w1 =
        ap
          (λ (x : Result (Option (CountId × Option (CountHeader × ℤ))) × World (Stores D C F)). x.1)
          e in
      elim (tip_header_parts w.backend found (
        ap
          (λ (x : Result (Option (CountId × Option (CountHeader × ℤ))) × World (Stores D C F)). x.0)
          e)) [
            | inl (no_tip, t) ↦ absurd (ground (arith, k, no_tip))
            | inr (tip_id, height, header, is_found, t, g) ↦ elim (Bool-cases (id == tip_id)) [
              | inl here ↦
                  already height
                    (t
                      ∙ ap (λ (i : CountId). ok (some (i, height)))
                          (sym ((==_iff id tip_id).0 here)))
                    (ground (arith, k, is_found, here, same))
              | inr elsewhere ↦ elim (Option-cases header) [
                | inl none_stored ↦ absurd (ground (arith, k, is_found, elsewhere, none_stored))
                | inr ((tip, tip_when), is_header) ↦
                    elim (choose_tip id count when prev source tip_id tip tip_when w w'
                      (ground (arith, k, is_found, elsewhere, is_header, same)) small fits) [
                        | inl (c, kept) ↦
                            worse tip_id height tip tip_when t
                              (g ∙ ap (λ (x : Option (CountHeader × ℤ)). ok x) is_header) c kept
                        | inr (c, moved) ↦
                            better tip_id height tip tip_when t
                              (g ∙ ap (λ (x : Option (CountHeader × ℤ)). ok x) is_header) c moved
                      ]
              ]
            ]
          ]
