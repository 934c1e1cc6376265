-- ===== src/Ledger/Ranges/Queries.antt =====
-- The queries of ledger_disk.go between two heights, by what their iterators visit.
use focal_point.Prelude.{
  ℕ, zero, suc, ◌≡◌, ap, ◌∙◌, not, ◌&&◌, Bool-cases, inl, inr, none, some, [], ℤ, pos, Result, ok,
  ◌>>=◌, if◌then◌else◌, lookup, int_eq, length, take, leb, leb_ℤ, add64, ◌==◌, fun_ext, arith,
}
use focal_point.Ledger.Keys.{compute_pub_key_consideration_index_key}
use focal_point.Ledger.Reads.{LedgerDisk}
use focal_point.LevelDb.{Visit}
use focal_point.Consideration.{PublicKey}
use focal_point.Ledger.Ranges.{
  Indices, at_end, collect, no_indices, get_public_key_consideration_indices_range,
  get_public_key_consideration_indices_range_forward,
  get_public_key_consideration_indices_range_reverse,
}
use focal_point.Ledger.Ranges.Visited.{Fresh, indexed_all, add_all, unlimited, limited}

-- The first entries, all of them for a limit of 0, each looked up on its own; a failure of the iterator
-- counts unless the limit is reached before it.
unfoldable pub described : {D : Type 0} → LedgerDisk D → D → Visit → ℕ → Result Indices
described l snapshot visit n =
    indexed_all l snapshot (if n == 0 then visit.entries else take n visit.entries) >>= λ found.
    if not (n == 0) && leb n (length visit.entries)
    then ok (add_all no_indices found)
    else at_end visit.failure (add_all no_indices found)

no_heights : {D : Type 0} → (l : LedgerDisk D) → (snapshot : D) → Fresh l snapshot []
unfolding Fresh lookup
no_heights l snapshot height id h = absurd (ground arith)

collect_lem :
    {D : Type 0}
    → (l : LedgerDisk D) → (snapshot : D) → (visit : Visit) → (n : ℕ)
    → collect l snapshot visit.failure (pos n) visit.entries [] no_indices
      ≡ described l snapshot visit n
unfolding described
collect_lem l snapshot visit zero =
    unlimited l snapshot visit.failure visit.entries [] no_indices (no_heights l snapshot)
collect_lem l snapshot visit (suc n) =
    limited l snapshot visit.failure (suc n) n visit.entries [] no_indices (no_heights l snapshot)
      (omega arith)
    ∙ ground arith

-- The query for a party's considerations between two heights gives what the first `limit` entries of
-- its iterator stand for, all of them for a limit of 0, forward or, when the first height is above
-- the second, backward: the map of heights that it keeps changes nothing, a missing count or a key
-- that cannot be read is an error, and a failure of the iterator is one unless the limit comes first.
pub get_public_key_consideration_indices_range_lem :
    {D : Type 0}
    → (l : LedgerDisk D) → (key : PublicKey) → (start_height end_height start_index : ℤ)
    → (limit : ℕ) → (d : D)
    → get_public_key_consideration_indices_range l key start_height end_height start_index
        (pos limit)
        d
      ≡ (l.db.snapshot d >>= λ snapshot.
          described l snapshot
            (if leb_ℤ start_height end_height
              then l.db.forward
                  (compute_pub_key_consideration_index_key key
                    (some start_height)
                    (some start_index))
                  (compute_pub_key_consideration_index_key key
                    (some (add64 end_height (pos 1)))
                    none)
                  snapshot
              else l.db.backward
                  (compute_pub_key_consideration_index_key key (some end_height) none)
                  (compute_pub_key_consideration_index_key key
                    (some start_height)
                    (some (add64 start_index (pos 1))))
                  snapshot)
            limit)
unfolding get_public_key_consideration_indices_range
    get_public_key_consideration_indices_range_forward
    get_public_key_consideration_indices_range_reverse
get_public_key_consideration_indices_range_lem l key start_height end_height start_index limit d =
    elim (Bool-cases (leb_ℤ start_height end_height)) [
      | inl up ↦
          rw up
            (ap (λ k. l.db.snapshot d >>= k) (fun_ext (λ snapshot. collect_lem l snapshot _ limit)))
      | inr down ↦
          rw down
            (ap (λ k. l.db.snapshot d >>= k) (fun_ext (λ snapshot. collect_lem l snapshot _ limit)))
    ]
