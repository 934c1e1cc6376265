-- ===== src/ImbalanceCache/Undo.antt =====
-- `Undo` of imbalance_cache.go takes back what `Apply` did, one consideration or many.
use focal_point.Prelude.{
  >>=-eq-ok, >>>-eq-ok, Result-cases, inl, inr, ◌≡◌, refl, ◌∙◌, sym, Bytes, true, false, ok, length,
  bytes_equal_iff, if◌then◌else◌, some, arith, ◌^◌, ◌-◌, ℤ, pos, add64, sub64, wrap64, ◌+ℤ◌, ◌-ℤ◌,
  ◌≤ℤ◌, ◌<ℤ◌, bytes_eq,
}
use focal_point.ImbalanceCache.{Balances, Cache, imbalance, apply, undo, debit_sender, credit}
use focal_point.Consideration.{Consideration, public_key_size}
use focal_point.ImbalanceCache.Moves.{
  lowered, raised, Shows, debit_sender-Shows, credit-Shows, debit_recipient-Shows, credit-total,
  credit_defined,
}

Shows-trans :
    (ledger : Balances) (c d e : Cache) (f g : Bytes → ℤ → ℤ)
    → Shows ledger c d f
    → Shows ledger d e g
    → Shows ledger c e (λ key x. g key (f key x))
Shows-trans ledger c d e f g h k key size = ground (arith, h key size, k key size)

-- An int64 that is not negative and can still grow.
abbrev pub HasRoom : ℤ → Type 0
HasRoom x = (pos 0 ≤ℤ x) × (x <ℤ pos (2 ^ 63 - 1))

restore_user :
    (by for key : Bytes) (x : ℤ)
    → HasRoom x
    → lowered for key (raised by key (raised for key (lowered by key x))) ≡ x
unfolding add64 sub64 wrap64 ◌+ℤ◌ ◌-ℤ◌
restore_user by for key x h = ground arith

owed_back :
    (by for : Bytes) (x : ℤ)
    → HasRoom x
    → pos 1 ≤ℤ raised by for (raised for for (lowered by for x))
unfolding add64 sub64 wrap64 ◌+ℤ◌ ◌-ℤ◌
owed_back by for x h = ground (arith, (bytes_equal_iff for for).1 refl)

-- Imbalances that are restored where they are defined are the same.
Shows-id :
    (ledger : Balances) (cache back : Cache) (f : Bytes → ℤ → ℤ)
    → Shows ledger cache back f
    → ((key : Bytes) (x : ℤ)
        → length key ≡ public_key_size
        → imbalance ledger cache (some key) ≡ ok x
        → f key x ≡ x)
    → Shows ledger cache back (λ key x. x)
Shows-id ledger cache back f s same key size =
    elim (Result-cases (imbalance ledger cache (some key))) [
      | inl (x, e) ↦ ground (arith, s key size, same key x size e)
      | inr e ↦ ground (arith, s key size)
    ]

-- What a 32-byte sender and recipient make of the imbalances: the effect of one consideration.
module _ (ledger : Balances) (cn : Consideration) (by for : Bytes) (sent : cn.by ≡ some by)
    (received : cn.for ≡ some for) (by_size : length by ≡ public_key_size)
    (for_size : length for ≡ public_key_size) where
  apply_parts :
      (cache cache' : Cache)
      → apply ledger cn cache ≡ (ok true, cache')
      → (c : Cache) × (debit_sender ledger (some by) cache ≡ (ok true, c))
        × (credit ledger (some for) c ≡ (ok true, cache'))
  unfolding apply
  apply_parts cache cache' h =
      let (covered, c, d, k) =
        >>>-eq-ok (debit_sender ledger cn.by cache)
          (λ covered c. if covered then credit ledger cn.for c else (ok false, c)) {b = true}
          {s' = cache'} (ground arith) in
      (c, ground arith, ground arith)

  -- When `Apply` accepts a consideration between a 32-byte sender and a 32-byte recipient, both had
  -- an imbalance, the sender's at least one, and afterwards every 32-byte key has the imbalance that
  -- it had before, but the sender's is lowered by one and the recipient's raised by one, as int64.
  pub apply-Shows :
      (cache cache' : Cache)
      → apply ledger cn cache ≡ (ok true, cache')
      → (v : ℤ) × (imbalance ledger cache (some by) ≡ ok v)
        × (pos 1 ≤ℤ v)
        × ((w : ℤ) × (imbalance ledger cache (some for) ≡ ok w))
        × Shows ledger cache cache' (λ key x. raised for key (lowered by key x))
  apply-Shows cache cache' h =
      let (c, d, k) = apply_parts cache cache' h in
      let (v, e, one, s) = debit_sender-Shows ledger by by_size cache c d in
      let (w, r) = credit_defined ledger for for_size c cache' k in
      let (u, q, _) =
        >>=-eq-ok (imbalance ledger cache (some for)) (λ x. ok (lowered by for x)) {b = w}
          (sym (s for for_size) ∙ r) in
      (
        v,
        e,
        one,
        (u, q),
        Shows-trans ledger cache c cache' (lowered by) (raised for) s
            (credit-Shows ledger for for_size c cache' k),
      )

  -- After `Apply` accepts a consideration between a 32-byte sender and a 32-byte recipient, `Undo` of
  -- it succeeds and leaves every 32-byte key the imbalance that it had at first, if no imbalance that
  -- was known then was negative or the largest int64.
  pub undo-apply :
      (cache cache' : Cache)
      → ((key : Bytes) (x : ℤ)
          → length key ≡ public_key_size
          → imbalance ledger cache (some key) ≡ ok x
          → HasRoom x)
      → apply ledger cn cache ≡ (ok true, cache')
      → (back : Cache) × (undo ledger cn cache' ≡ (ok true, back))
        × Shows ledger cache back (λ key x. x)
  unfolding undo
  undo-apply cache cache' room h =
      let (v, e, one, (w, r), s) = apply-Shows cache cache' h in
      let (c, credited, s1) =
        credit-total ledger by by_size cache' (raised for by (lowered by by v))
          (ground (arith, s by by_size)) in
      let t =
        Shows-trans ledger cache cache' c (λ key x. raised for key (lowered by key x)) (raised by) s
          s1 in
      let (back, debited, s2) =
        debit_recipient-Shows ledger for for_size c
          (raised by for (raised for for (lowered by for w))) (ground (arith, t for for_size))
          (owed_back by for w (room for w for_size r)) in
      (
        back,
        ground arith,
        Shows-id ledger cache back _
            (Shows-trans ledger cache c back
              (λ key x. raised by key (raised for key (lowered by key x))) (lowered for) t s2)
            (λ key x size known. restore_user by for key x (room key x size known)),
      )
