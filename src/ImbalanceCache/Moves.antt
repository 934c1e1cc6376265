-- ===== src/ImbalanceCache/Moves.antt =====
-- What `Apply` and `Undo` of imbalance_cache.go do to the imbalances that the cache shows.
use focal_point.Prelude.{
  Bool-cases, subst, Result-cases, inl, inr, ◌≡◌, refl, ap, Bytes, true, ok, Result, ◌>>=◌, length,
  bytes_equal, bytes_equal_iff, if◌then◌else◌, some, arith, ℤ, pos, add64, sub64, ◌≤ℤ◌, insert,
  bytes_eq,
}
use focal_point.ImbalanceCache.{
  Balances, Cache, imbalance, key_of, debit_sender, credit, debit_recipient,
}
use focal_point.Consideration.{public_key_size}
use focal_point.ImbalanceCache.Balances.{imbalance-insert}

-- The imbalance of `key` after a debit, a credit or a consideration from `by` to `for`.
abbrev pub lowered : Bytes → Bytes → ℤ → ℤ
lowered party key x = if bytes_equal party key then sub64 x (pos 1) else x

abbrev pub raised : Bytes → Bytes → ℤ → ℤ
raised party key x = if bytes_equal party key then add64 x (pos 1) else x

-- Every imbalance of a 32-byte key in `cache'` is that in `cache`, changed by `f`.
abbrev pub Shows : Balances → Cache → Cache → (Bytes → ℤ → ℤ) → Type 0
Shows ledger cache cache' f =
    (key : Bytes)
    → length key ≡ public_key_size
    → imbalance ledger cache' (some key) ≡ (imbalance ledger cache (some key) >>= λ x. ok (f key x))

module _ (ledger : Balances) (party : Bytes) (party_size : length party ≡ public_key_size) where
  pub insert-Shows :
      (cache : Cache) (v : ℤ) (f : ℤ → ℤ)
      → imbalance ledger cache (some party) ≡ ok v
      → Shows ledger cache
          (insert (key_of (some party)) (f v) cache)
          (λ key x. if bytes_equal party key then f x else x)
  insert-Shows cache v f e key size = elim (Bool-cases (bytes_equal party key)) [
    | inl same ↦
        subst
          (λ k. imbalance ledger (insert (key_of (some party)) (f v) cache) (some k) ≡ (
            imbalance ledger cache (some k) >>= λ x. ok (if bytes_equal party k then f x else x)))
          ((bytes_equal_iff party key).0 same)
          (ground (
            arith,
            imbalance-insert ledger cache party party (f v) party_size party_size,
            bytes_equal_iff party party,
            (bytes_equal_iff party party).1 refl,
            ap {B = Result ℤ} (λ r. r >>= λ x. ok (if bytes_equal party party then f x else x)) e,
          ))
    | inr other ↦
        rw (imbalance-insert ledger cache party key (f v) party_size size, other) (ground arith)
  ]

  pub debit_sender-Shows :
      (cache cache' : Cache)
      → debit_sender ledger (some party) cache ≡ (ok true, cache')
      → (v : ℤ) × (imbalance ledger cache (some party) ≡ ok v)
        × (pos 1 ≤ℤ v)
        × Shows ledger cache cache' (lowered party)
  unfolding debit_sender
  debit_sender-Shows cache cache' h = elim (Result-cases (imbalance ledger cache (some party))) [
    | inl (v, e) ↦ (
      v,
      e,
      ground arith,
      subst (λ c. Shows ledger cache c (lowered party)) (ground arith)
          (insert-Shows cache v (λ x. sub64 x (pos 1)) e),
    )
    | inr e ↦ absurd (ground arith)
  ]

  pub credit-Shows :
      (cache cache' : Cache)
      → credit ledger (some party) cache ≡ (ok true, cache')
      → Shows ledger cache cache' (raised party)
  unfolding credit
  credit-Shows cache cache' h key size = elim (Result-cases (imbalance ledger cache (some party))) [
    | inl (v, e) ↦ ground (arith, insert-Shows cache v (λ x. add64 x (pos 1)) e key size)
    | inr e ↦ absurd (ground arith)
  ]

  -- With something to take back the debit goes through.
  pub debit_recipient-Shows :
      (cache : Cache) (v : ℤ)
      → imbalance ledger cache (some party) ≡ ok v
      → pos 1 ≤ℤ v
      → (cache' : Cache) × (debit_recipient ledger (some party) cache ≡ (ok true, cache'))
        × Shows ledger cache cache' (lowered party)
  unfolding debit_recipient
  debit_recipient-Shows cache v e one = (
    insert (key_of (some party)) (sub64 v (pos 1)) cache,
    ground arith,
    insert-Shows cache v (λ x. sub64 x (pos 1)) e,
  )

  pub credit-total :
      (cache : Cache) (v : ℤ)
      → imbalance ledger cache (some party) ≡ ok v
      → (cache' : Cache) × (credit ledger (some party) cache ≡ (ok true, cache'))
        × Shows ledger cache cache' (raised party)
  unfolding credit
  credit-total cache v e = (
    insert (key_of (some party)) (add64 v (pos 1)) cache,
    ground arith,
    insert-Shows cache v (λ x. add64 x (pos 1)) e,
  )

  pub credit_defined :
      (cache cache' : Cache)
      → credit ledger (some party) cache ≡ (ok true, cache')
      → (v : ℤ) × (imbalance ledger cache (some party) ≡ ok v)
  unfolding credit
  credit_defined cache cache' h = elim (Result-cases (imbalance ledger cache (some party))) [
    | inl (v, e) ↦ (v, e)
    | inr e ↦ absurd (ground arith)
  ]
