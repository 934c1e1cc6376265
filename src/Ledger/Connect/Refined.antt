-- ===== src/Ledger/Connect/Refined.antt =====
-- The ledger of ledger_disk.go implements an abstract ledger: a tip and a natural number for every
-- key, from which a count moves one to another key for each of its considerations.
use focal_point.Prelude.{
  ℕ, suc, ◌+◌, ◌^◌, ◌<◌, ◌≤◌, ◌≡◌, refl, ap, ◌∙◌, subst, false, not, ◌==◌, Option, Option-cases,
  inl, inr, none, some, List, [], ◌∷◌, Bytes, ℤ, Result, ok, ◌>>=◌, >>=-eq-ok, length, All, arith,
}
use focal_point.Binary.RoundTrip.{Fits64}
use focal_point.LevelDb.{IsLevelDb}
use focal_point.Consideration.{Consideration, ConsiderationId}
use focal_point.Count.{Count, CountId, CountHeader}
use focal_point.ImbalanceCache.{Cache, reset}
use focal_point.ImbalanceCache.Views.{View, Sees, HasParties, after, Covered, apply-Sees}
use focal_point.Processor.Node.{main}
use focal_point.Ledger.Keys.{id_bytes, encode_point_tip, branch_byte}
use focal_point.Ledger.Reads.{LedgerDisk, get_public_key_imbalance, get_point_tip}
use focal_point.Ledger.Batches.{consideration_to_move}
use focal_point.Ledger.Connect.{
  Progress, connect_count, connect_consideration, connect_considerations,
}
use focal_point.Ledger.Connect.Parts.{connect_consideration-eq-ok}
use focal_point.Ledger.Connect.Tip.{connect_count-Moved, connect_count-tip}
use focal_point.Ledger.Connect.Loops.{StoredParties, moved-HasParties, apply_to_cache-eq-ok}
use focal_point.Ledger.Connect.Restored.{Holds, Holds-Sees, Moved-Holds}

pub record AbstractLedger : Type 0 where
  pub tip : Option (CountId × ℤ)
  pub view : View

-- One consideration after the other is moved, each by a sender that has something to give.
pub data Moves : List Consideration → View → View → Type 0 where
  done : {view : View} → Moves [] view view
  move :
      {cn : Consideration} {cns : List Consideration} {view view' : View}
      → Covered cn view
      → Moves cns (after cn view) view'
      → Moves (cn ∷ cns) view view'

-- What a count may do to the abstract ledger, with the considerations that it moves.
pub data Connects (id : CountId) (header : CountHeader) (moved : List Consideration)
    : AbstractLedger → AbstractLedger → Type 0 where
  first :
      {view view' : View}
      → Moves moved view view'
      → Connects id header moved
          (record { tip = none; view = view })
          (record { tip = some (id, header.height); view = view' })
  next :
      {height : ℤ} {view view' : View}
      → Moves moved view view'
      → Connects id header moved
          (record { tip = some (header.previous, height); view = view })
          (record { tip = some (id, header.height); view = view' })

-- The database stands for the abstract ledger.
pub record Represents {D : Type 0} (l : LedgerDisk D) (d : D) (a : AbstractLedger) : Type 0 where
  pub tip_is : get_point_tip l d ≡ ok a.tip
  pub holds : Holds l d a.view

-- The considerations that the count at this height moves.
unfoldable pub moves_of :
    {D : Type 0} → LedgerDisk D → D → ℤ → List Consideration → Result (List Consideration)
moves_of l d height [] = ok []
moves_of l d height (cn ∷ cns) = do
  moved ← consideration_to_move l height cn d
  rest ← moves_of l d height cns
  ok (elim moved [ none ↦ rest | some cn ↦ cn ∷ rest ])

module _ {D : Type 0} (l : LedgerDisk D) (stored : StoredParties l) (d : D) where
  loop-Moves :
      (header : CountHeader) (i : ℕ) (cns : List Consideration) (cache : Cache)
      (progress : Progress) (view : View)
      → All HasParties cns
      → ((key : Bytes) → view key + length cns + 1 < 2 ^ 63)
      → Sees (get_public_key_imbalance l d) cache view
      → connect_considerations l d header i cns cache ≡ ok progress
      → (moved : List Consideration) × (view' : View) × (moves_of l d header.height cns ≡ ok moved)
        × Moves moved view view'
        × Sees (get_public_key_imbalance l d) progress.cache view'
        × ((key : Bytes) → view' key ≤ view key + length cns)
  unfolding connect_considerations moves_of
  loop-Moves header i [] cache progress view parties room sees h = (
    [],
    view,
    refl,
    done,
    subst (λ c. Sees (get_public_key_imbalance l d) c view) {x = cache} (ground arith) sees,
    λ key. omega arith,
  )
  loop-Moves header i (cn ∷ cns) cache progress view (own, parties) room sees h =
      let (one, e, k) = >>=-eq-ok (connect_consideration l d header i cn cache) _ h in
      let (rest, r, q) = >>=-eq-ok (connect_considerations l d header (suc i) cns one.cache) _ k in
      let last : rest.cache ≡ progress.cache = ground arith in
      let (id, x, named, batch, moved, m, a) =
        connect_consideration-eq-ok l d header i cn cache one e in
      elim (Option-cases moved) [
        | inl nothing ↦
            let (more, view2, ms, steps, sees2, near) =
              loop-Moves header (suc i) cns one.cache rest view parties
                (λ key. omega (arith, room key))
                (subst (λ c. Sees (get_public_key_imbalance l d) c view) {x = cache} (ground arith)
                  sees)
                r in
            (
              more,
              view2,
              rw (m ∙ ap ok nothing) (rw ms refl),
              steps,
              subst (λ c. Sees (get_public_key_imbalance l d) c view2) last sees2,
              λ key. omega (arith, near key),
            )
        | inr (moving, is) ↦
            let (covered, shown) =
              apply-Sees (get_public_key_imbalance l d) moving
                (moved-HasParties l stored d header.height cn moving own (m ∙ ap ok is)) view cache
                one.cache (λ key. omega (arith, room key)) sees
                (apply_to_cache-eq-ok l stored d moving cache one.cache (ground arith)) in
            let (more, view2, ms, steps, sees2, near) =
              loop-Moves header (suc i) cns one.cache rest (after moving view) parties
                (λ key. ground (arith, room key)) shown r in
            (
              moving ∷ more,
              view2,
              rw (m ∙ ap ok is) (rw ms refl),
              move covered steps,
              subst (λ c. Sees (get_public_key_imbalance l d) c view2) last sees2,
              λ key. ground (arith, near key),
            )
      ]

Connects-step :
    (id : CountId) (header : CountHeader) (moved : List Consideration) (tip : Option (CountId × ℤ))
    (view view' : View)
    → (elim tip [ none ↦ false | some (tip_id, height) ↦ not (tip_id == header.previous) ]) ≡ false
    → Moves moved view view'
    → Connects id header moved
        (record { tip = tip; view = view })
        (record { tip = some (id, header.height); view = view' })
Connects-step id header moved none view view' fits steps = first steps
Connects-step id header moved (some (tip_id, height)) view view' fits steps =
    subst
      (λ (t : CountId).
        Connects id header moved (record { tip = some (t, height); view = view })
          (record { tip = some (id, header.height); view = view' }))
      {x = header.previous} (ground arith) (next steps)

-- `ConnectCount`, when it succeeds on a database that stands for an abstract ledger, does what a count
-- may do to it: with no tip, or from the count before it as the tip, the count becomes the tip, and
-- the considerations that it moves (its own, and for a countpoint the one 100 counts deep) each take
-- one from a sender that has it and give one to the recipient. This is so if the count's considerations
-- and the stored countpoints are between keys of 32 bytes, the numbers leave room for one more of each
-- consideration, the count's identifier has 32 bytes and its height is an int64.
pub connect_count-Connects :
    {D : Type 0}
    → (l : LedgerDisk D) → IsLevelDb l.db
    → StoredParties l
    → (d d1 : D) (a : AbstractLedger) (id : CountId) (count : Count) (ids : List ConsiderationId)
    → Represents l d a
    → All HasParties count.considerations
    → ((key : Bytes) → a.view key + length count.considerations + 1 < 2 ^ 63)
    → id < 2 ^ 256
    → Fits64 count.header.height
    → connect_count l id count d ≡ (ok ids, d1)
    → (moved : List Consideration) × (a' : AbstractLedger) × (moves_of l d count.header.height
          count.considerations
        ≡ ok moved)
      × Connects id count.header moved a a'
      × Represents l d1 a'
connect_count-Connects l is stored d d1 a id count ids represents parties room small fits h =
    let (batch, c, m) = connect_count-Moved l is d d1 id count ids h in
    let (moved, view', ms, steps, sees, near) =
      loop-Moves l stored d count.header 0 count.considerations reset c.done a.view parties room
        (Holds-Sees l d a.view represents.holds) c.looped in
    let (tip, on_main, indexed) = connect_count-tip l is d d1 id count ids small fits h in
    (
      moved,
      record { tip = some (id, count.header.height); view = view' },
      ms,
      Connects-step id count.header moved a.tip a.view view'
          (ground (arith, c.tip_fits, c.tip_known, represents.tip_is)) steps,
      record {
        tip_is = tip;
        holds =
            Moved-Holds l d d1 c.done.cache view' count.header.height id (some (id_bytes id))
              (branch_byte main ∷ []) (encode_point_tip id count.header.height)
              (λ key. omega (arith, room key, near key)) sees m;
      },
    )
