-- ===== src/Ledger/Connect/Loops.antt =====
-- The loop of `DisconnectCount` in ledger_disk.go takes back what that of `ConnectCount` did to the
-- imbalances, over a ledger that moves the same considerations.
use focal_point.Prelude.{
  ℕ, suc, ◌+◌, ◌^◌, ◌≤◌, ◌<◌, ◌≡◌, refl, sym, ap, ◌∙◌, subst, true, not, Option-cases, Bool-cases,
  leb_ℤ, missing_height, missing_countpoint, inl, inr, Option, none, some, List, [], ◌∷◌, ◌++◌,
  Bytes, ℤ, pos, ok, err, ◌>>=◌, fail_if, >>=-eq-ok, length, All, arith, no_imbalance, descendant,
  sub64,
}
use focal_point.Consideration.{Consideration, ConsiderationId, consideration_id, is_counter_point}
use focal_point.Constants.{counterpoint_maturity}
use focal_point.Count.{CountHeader, CountId}
use focal_point.Graph.{sender_descends}
use focal_point.ImbalanceCache.{Cache, apply}
use focal_point.ImbalanceCache.Views.{View, Sees, after, HasParties, apply-Sees, undo-Sees}
use focal_point.Ledger.Reads.{LedgerDisk, get_public_key_imbalance, get_count_id_for_height}
use focal_point.Ledger.Batches.{consideration_to_move, unindex_writes}
use focal_point.Ledger.Connect.{
  Progress, apply_to_cache, undo_in_cache, connect_consideration, connect_considerations,
  disconnect_consideration, disconnect_considerations,
}
use focal_point.Ledger.Connect.Parts.{connect_consideration-eq-ok}

-- The considerations of the count and the countpoints that storage has are between keys of 32 bytes.
abbrev pub StoredParties : {D : Type 0} → LedgerDisk D → Type 0
StoredParties l =
    (id : CountId) (cn : Consideration) (header : CountHeader)
    → l.get_consideration id (pos 0) ≡ ok (some (cn, header))
    → HasParties cn

deep_mature :
    {D : Type 0}
    → (l : LedgerDisk D) → (d : D) → (deep : ℤ) → (moved : Consideration)
    → (do
      old_id ← get_count_id_for_height l deep d
      old_id ← elim old_id [ none ↦ err missing_height | some id ↦ ok id ]
      old ← l.get_consideration old_id (pos 0)
      elim old [ none ↦ err missing_countpoint | some (cn, header) ↦ ok (some cn) ])
      ≡ ok (some moved)
    → (id : CountId) × (header : CountHeader) × (l.get_consideration id (pos 0)
        ≡ ok (some (moved, header)))
deep_mature l d deep moved h =
    let (old_id, e1, h1) = >>=-eq-ok (get_count_id_for_height l deep d) _ h in
    let (id, e2, h2) =
      >>=-eq-ok {V = CountId} (elim old_id [ none ↦ err missing_height | some id ↦ ok id ]) _ h1 in
    let (old, e3, h3) = >>=-eq-ok (l.get_consideration id (pos 0)) _ h2 in
    elim (Option-cases old) [
      | inl e ↦ absurd (ground (arith, h3, e))
      | inr ((cn, header), e) ↦ (id, header, ground (arith, h3, e, e3))
    ]

module _ {D : Type 0} (l : LedgerDisk D) (stored : StoredParties l) (d : D) where
  pub moved-HasParties :
      (height : ℤ) (cn moved : Consideration)
      → HasParties cn
      → consideration_to_move l height cn d ≡ ok (some moved)
      → HasParties moved
  unfolding consideration_to_move
  moved-HasParties height cn moved own h = elim (Bool-cases (is_counter_point cn)) [
    | inr e ↦ subst HasParties (ground arith) own
    | inl e ↦ elim (Bool-cases (leb_ℤ (pos 0) (sub64 height (pos counterpoint_maturity)))) [
      | inr shallow ↦ absurd (ground (arith, h, e, shallow))
      | inl deep ↦
          let (id, header, found) =
            deep_mature l d (sub64 height (pos counterpoint_maturity)) moved
              (ground (arith, h, e, deep)) in
          stored id moved header found
    ]
  ]

  pub apply_to_cache-eq-ok :
      (cn : Consideration) (cache cache' : Cache)
      → apply_to_cache l d cn cache ≡ ok cache'
      → apply (get_public_key_imbalance l d) cn cache ≡ (ok true, cache')
  unfolding apply_to_cache
  apply_to_cache-eq-ok cn cache cache' h =
      let (covered, e1, h1) = >>=-eq-ok (apply (get_public_key_imbalance l d) cn cache).0 _ h in
      let (u, e2, h2) = >>=-eq-ok (fail_if (not covered) no_imbalance) _ h1 in
      let (descends, e3, h3) = >>=-eq-ok (sender_descends l.con_graph cn) _ h2 in
      let (v, e4, h4) = >>=-eq-ok (fail_if descends descendant) _ h3 in ground arith

  disconnect_round :
      (d1 : D) (header : CountHeader) (i : ℕ) (cn : Consideration) (id : ConsiderationId)
      (moved : Option Consideration) (cache back : Cache)
      → consideration_id l.crypto cn ≡ ok id
      → consideration_to_move l header.height cn d1 ≡ ok moved
      → (elim moved [ none ↦ ok cache | some cn ↦ undo_in_cache l d1 cn cache ]) ≡ ok back
      → disconnect_consideration l d1 header i cn cache
        ≡ ok (record { ids = id ∷ []; batch = unindex_writes header.height i id cn; cache = back })
  unfolding disconnect_consideration
  disconnect_round d1 header i cn id moved cache back e m u = rw e (rw m (rw u refl))

  -- One round of each loop.
  connect_one :
      (header : CountHeader) (i : ℕ) (cn : Consideration) (cache : Cache) (done : Progress)
      (view : View)
      → HasParties cn
      → ((key : Bytes) → view key + 2 < 2 ^ 63)
      → Sees (get_public_key_imbalance l d) cache view
      → connect_consideration l d header i cn cache ≡ ok done
      → (view' : View) × Sees (get_public_key_imbalance l d) done.cache view'
        × ((key : Bytes) → view' key ≤ view key + 1)
        × ((d1 : D)
            → consideration_to_move l header.height cn d1
              ≡ consideration_to_move l header.height cn d
            → (cache1 : Cache) → Sees (get_public_key_imbalance l d1) cache1 view'
            → (back : Progress) × (disconnect_consideration l d1 header i cn cache1 ≡ ok back)
              × (back.ids ≡ done.ids)
              × Sees (get_public_key_imbalance l d1) back.cache view)
  unfolding undo_in_cache
  connect_one header i cn cache done view own room sees h =
      let (id, e, named, batch, moved, m, a) =
        connect_consideration-eq-ok l d header i cn cache done h in
      elim (Option-cases moved) [
        | inl nothing ↦ (
          view,
          subst (λ c. Sees (get_public_key_imbalance l d) c view) {x = cache} (ground arith) sees,
          λ key. omega arith,
          λ d1 same cache1 sees1. (
            record { ids = id ∷ []; batch = unindex_writes header.height i id cn; cache = cache1 },
            disconnect_round d1 header i cn id none cache1 cache1 e (same ∙ m ∙ ap ok nothing) refl,
            sym named,
            sees1,
          ),
        )
        | inr (moving, is) ↦
            let parties = moved-HasParties header.height cn moving own (m ∙ ap ok is) in
            let applied = apply_to_cache-eq-ok moving cache done.cache (ground arith) in
            let (covered, shown) =
              apply-Sees (get_public_key_imbalance l d) moving parties view cache done.cache
                (λ key. omega (arith, room key)) sees applied in
            (
              after moving view,
              shown,
              λ key. ground arith,
              λ d1 same cache1 sees1.
                  let (back, undone, shown_back) =
                    undo-Sees (get_public_key_imbalance l d1) moving parties view cache1 room
                      covered sees1 in
                  (
                    record {
                      ids = id ∷ [];
                      batch = unindex_writes header.height i id cn;
                      cache = back;
                    },
                    disconnect_round d1 header i cn id (some moving) cache1 back e
                        (same ∙ m ∙ ap ok is) (ground arith),
                    sym named,
                    shown_back,
                  ),
            )
      ]

  -- Both loops.
  pub connect_considerations_undone :
      (header : CountHeader) (i : ℕ) (cns : List Consideration) (cache : Cache) (done : Progress)
      (view : View)
      → All HasParties cns
      → ((key : Bytes) → view key + length cns + 1 < 2 ^ 63)
      → Sees (get_public_key_imbalance l d) cache view
      → connect_considerations l d header i cns cache ≡ ok done
      → (view' : View) × Sees (get_public_key_imbalance l d) done.cache view'
        × ((key : Bytes) → view' key ≤ view key + length cns)
        × ((d1 : D)
            → ((cn : Consideration)
                → consideration_to_move l header.height cn d1
                  ≡ consideration_to_move l header.height cn d)
            → (cache1 : Cache) → Sees (get_public_key_imbalance l d1) cache1 view'
            → (back : Progress) × (disconnect_considerations l d1 header i cns cache1 ≡ ok back)
              × (back.ids ≡ done.ids)
              × Sees (get_public_key_imbalance l d1) back.cache view)
  unfolding connect_considerations disconnect_considerations
  connect_considerations_undone header i [] cache done view parties room sees h = (
    view,
    subst (λ c. Sees (get_public_key_imbalance l d) c view) {x = cache} (ground arith) sees,
    λ key. omega arith,
    λ d1 same cache1 sees1.
        (record { ids = []; batch = []; cache = cache1 }, refl, ground arith, sees1),
  )
  connect_considerations_undone header i (cn ∷ cns) cache done view (own, parties) room sees h =
      let (first, e, k) = >>=-eq-ok (connect_consideration l d header i cn cache) _ h in
      let (rest, r, q) =
        >>=-eq-ok (connect_considerations l d header (suc i) cns first.cache) _ k in
      let (view1, sees1, near1, back1) =
        connect_one header i cn cache first view own (λ key. omega (arith, room key)) sees e in
      let (view2, sees2, near2, back2) =
        connect_considerations_undone header (suc i) cns first.cache rest view1 parties
          (λ key. omega (arith, room key, near1 key)) sees1 r in
      (
        view2,
        subst (λ c. Sees (get_public_key_imbalance l d) c view2) {x = rest.cache} (ground arith)
            sees2,
        λ key. omega (arith, near1 key, near2 key),
        λ d1 same cache1 shown.
            let (late, disconnected, late_ids, shown1) = back2 d1 same cache1 shown in
            let (early, undone, early_ids, shown0) = back1 d1 (same cn) late.cache shown1 in
            (
              record {
                ids = early.ids ++ late.ids;
                batch = late.batch ++ early.batch;
                cache = early.cache;
              },
              rw disconnected (rw undone refl),
              ground (arith, early_ids, late_ids, q),
              shown0,
            ),
      )
