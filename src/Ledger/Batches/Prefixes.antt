-- ===== src/Ledger/Batches/Prefixes.antt =====
-- Which tables the parts of a batch of ledger_disk.go write to.
use focal_point.Prelude.{
  ℕ, suc, ◌≡◌, false, Bool-cases, inl, inr, List, [], ◌∷◌, ◌==◌, ℤ, pos, Result, ok, arith,
  >>=-eq-ok, subst, leb_ℤ, ◌*◌, sub64, ◌&&◌,
}
use focal_point.LevelDb.{Write}
use focal_point.LevelDb.Writes.{Avoids, Avoids-append}
use focal_point.Consideration.{Consideration, ConsiderationId, consideration_id, is_counter_point}
use focal_point.ImbalanceCache.{Cache}
use focal_point.Constants.{counts_until_new_series}
use focal_point.Ledger.Keys.{
  compute_consideration_index_key, compute_pub_key_consideration_index_key,
  compute_pub_key_imbalance_key, consideration_index_prefix, pub_key_consideration_index_prefix,
  pub_key_imbalance_prefix,
}
use focal_point.Ledger.Reads.{LedgerDisk}
use focal_point.Ledger.Batches.{
  party_keys, index_writes, unindex_writes, imbalance_write, imbalance_writes, each_consideration,
  prune_indices, restore_indices, count_at, when_old,
}

-- A byte that begins no index of a consideration.
abbrev pub NoIndex : ℕ → Type 0
NoIndex p =
    ((consideration_index_prefix == p) ≡ false)
    × ((pub_key_consideration_index_prefix == p) ≡ false)

module _ (p : ℕ) (other : NoIndex p) where
  pub index_writes-Avoids :
      (height : ℤ) (i : ℕ) (id : ConsiderationId) (cn : Consideration)
      → Avoids p (index_writes height i id cn)
  unfolding index_writes party_keys compute_consideration_index_key
      compute_pub_key_consideration_index_key
  index_writes-Avoids height i id cn = elim (Bool-cases (is_counter_point cn)) [
    | inl e ↦ rw e (ground arith)
    | inr e ↦ rw e (ground arith)
  ]

  pub unindex_writes-Avoids :
      (height : ℤ) (i : ℕ) (id : ConsiderationId) (cn : Consideration)
      → Avoids p (unindex_writes height i id cn)
  unfolding unindex_writes party_keys compute_consideration_index_key
      compute_pub_key_consideration_index_key
  unindex_writes-Avoids height i id cn = elim (Bool-cases (is_counter_point cn)) [
    | inl e ↦ rw e (ground arith)
    | inr e ↦ rw e (ground arith)
  ]

  module _ {D : Type 0} (l : LedgerDisk D) where
    each_consideration-Avoids :
        (writes : ℤ → ℕ → ConsiderationId → Consideration → List Write)
        → ((height : ℤ) (i : ℕ) (id : ConsiderationId) (cn : Consideration)
            → Avoids p (writes height i id cn))
        → (height : ℤ) (i : ℕ) (cns : List Consideration) (batch : List Write)
        → each_consideration l writes height i cns ≡ ok batch
        → Avoids p batch
    unfolding each_consideration
    each_consideration-Avoids writes avoids height i [] batch h =
        subst (Avoids p) {x = []} (ground arith) tt
    each_consideration-Avoids writes avoids height i (cn ∷ cns) batch h =
        let (id, e, k) = >>=-eq-ok (consideration_id l.crypto cn) _ h in
        let (rest, r, q) = >>=-eq-ok (each_consideration l writes height (suc i) cns) _ k in
        subst (Avoids p) (ground arith) (
          Avoids-append p (writes height i id cn) rest (avoids height i id cn)
            (each_consideration-Avoids writes avoids height (suc i) cns rest r))

    pub prune_indices-Avoids :
        (height : ℤ) (d : D) (batch : List Write)
        → prune_indices l height d ≡ ok batch
        → Avoids p batch
    unfolding prune_indices
    prune_indices-Avoids height d batch h =
        let (count, e, k) = >>=-eq-ok (count_at l height d) _ h in
        each_consideration-Avoids unindex_writes unindex_writes-Avoids count.header.height 0
          count.considerations batch k

    pub restore_indices-Avoids :
        (height : ℤ) (d : D) (batch : List Write)
        → restore_indices l height d ≡ ok batch
        → Avoids p batch
    unfolding restore_indices
    restore_indices-Avoids height d batch h =
        let (count, e, k) = >>=-eq-ok (count_at l height d) _ h in
        each_consideration-Avoids index_writes index_writes-Avoids count.header.height 0
          count.considerations batch k

    pub when_old-Avoids :
        (height : ℤ) (indices : ℤ → D → Result (List Write)) (d : D) (batch : List Write)
        → ((height : ℤ) (d : D) (batch : List Write) → indices height d ≡ ok batch → Avoids p batch)
        → when_old l height indices d ≡ ok batch
        → Avoids p batch
    unfolding when_old
    when_old-Avoids height indices d batch avoids h =
        elim (Bool-cases (l.prune && leb_ℤ (pos (2 * counts_until_new_series)) height)) [
          | inl e ↦
              avoids (sub64 height (pos (2 * counts_until_new_series))) d batch
                (ground (arith, h, e))
          | inr e ↦ subst (Avoids p) {x = []} (ground (arith, h, e)) tt
        ]

pub imbalance_writes-Avoids :
    (p : ℕ)
    → (pub_key_imbalance_prefix == p) ≡ false
    → (cache : Cache) → Avoids p (imbalance_writes cache)
unfolding imbalance_writes imbalance_write compute_pub_key_imbalance_key
imbalance_writes-Avoids p other [] = tt
imbalance_writes-Avoids p other ((key, imbalance) ∷ cache) =
    Avoids-append p (imbalance_writes cache) (imbalance_write key imbalance ∷ [])
      (imbalance_writes-Avoids p other cache) (ground arith)
