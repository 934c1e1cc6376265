-- ===== src/ImbalanceCache/Views.antt =====
-- What `Apply` and `Undo` of imbalance_cache.go make of imbalances that are natural numbers, over
-- one ledger or over another one.
use focal_point.Prelude.{
  ℕ, ◌+◌, ◌-◌, ◌^◌, ◌≤◌, ◌<◌, ◌≡◌, subst, true, false, Option-cases, inl, inr, none, some, Bytes,
  pos, add64, sub64, wrap64, ◌+ℤ◌, ◌-ℤ◌, ok, length, bytes_equal, bytes_equal_iff, if◌then◌else◌,
  arith, >>>-eq-ok,
}
use focal_point.Consideration.{Consideration, PublicKey, is_counter_point, public_key_size}
use focal_point.ImbalanceCache.{
  Balances, Cache, imbalance, apply, undo, debit_sender, credit, debit_recipient,
}
use focal_point.ImbalanceCache.Moves.{
  lowered, raised, Shows, debit_sender-Shows, credit-Shows, debit_recipient-Shows, credit-total,
}

-- The imbalance of every key of 32 bytes.
abbrev pub View : Type 0
View = Bytes → ℕ

abbrev pub Sees : Balances → Cache → View → Type 0
Sees ledger cache view =
    (key : Bytes)
    → length key ≡ public_key_size
    → imbalance ledger cache (some key) ≡ ok (pos (view key))

-- One if the party is this key.
abbrev pub share : PublicKey → Bytes → ℕ
share none key = 0
share (some party) key = if bytes_equal party key then 1 else 0

-- The imbalances after a consideration, and that its sender had something to give.
abbrev pub after : Consideration → View → View
after cn view key = view key - share cn.by key + share cn.for key

abbrev pub Covered : Consideration → View → Type 0
Covered cn view = (key : Bytes) → share cn.by key ≤ view key

-- A recipient of 32 bytes, and a sender of 32 bytes or none.
abbrev pub IsSized : PublicKey → Type 0
IsSized none = Unit
IsSized (some key) = length key ≡ public_key_size

pub record HasParties (cn : Consideration) : Type 0 where
  pub recipient : Bytes
  pub received : cn.for ≡ some recipient
  pub recipient_size : length recipient ≡ public_key_size
  pub sender_size : IsSized cn.by

module _ (ledger : Balances) (party : Bytes) (party_size : length party ≡ public_key_size) where
  raised-Sees :
      (cache cache' : Cache) (view : View)
      → ((key : Bytes) → view key + 1 < 2 ^ 63)
      → Sees ledger cache view
      → Shows ledger cache cache' (raised party)
      → Sees ledger cache' (λ key. view key + share (some party) key)
  unfolding add64 wrap64 ◌+ℤ◌
  raised-Sees cache cache' view room sees shows key size =
      ground (arith, shows key size, sees key size, room key)

  lowered-Sees :
      (cache cache' : Cache) (view : View)
      → ((key : Bytes) → view key < 2 ^ 63)
      → 1 ≤ view party
      → Sees ledger cache view
      → Shows ledger cache cache' (lowered party)
      → Sees ledger cache' (λ key. view key - share (some party) key)
  unfolding sub64 wrap64 ◌-ℤ◌
  lowered-Sees cache cache' view room one sees shows key size =
      ground (arith, shows key size, sees key size, room key, bytes_equal_iff party key)

  -- A credit is taken back by a debit, over any ledger that shows the same.
  pub credit_view :
      (cache cache' : Cache) (view : View)
      → ((key : Bytes) → view key + 1 < 2 ^ 63)
      → Sees ledger cache view
      → credit ledger (some party) cache ≡ (ok true, cache')
      → Sees ledger cache' (λ key. view key + share (some party) key)
  credit_view cache cache' view room sees h =
      raised-Sees cache cache' view room sees (credit-Shows ledger party party_size cache cache' h)

  pub debit_view :
      (cache cache' : Cache) (view : View)
      → ((key : Bytes) → view key < 2 ^ 63)
      → Sees ledger cache view
      → debit_sender ledger (some party) cache ≡ (ok true, cache')
      → (1 ≤ view party) × Sees ledger cache' (λ key. view key - share (some party) key)
  debit_view cache cache' view room sees h =
      let (v, e, one, shows) = debit_sender-Shows ledger party party_size cache cache' h in
      let enough : 1 ≤ view party = ground (arith, sees party party_size) in
      (enough, lowered-Sees cache cache' view room enough sees shows)

  pub credit_view_total :
      (cache : Cache) (view : View)
      → ((key : Bytes) → view key + 1 < 2 ^ 63)
      → Sees ledger cache view
      → (cache' : Cache) × (credit ledger (some party) cache ≡ (ok true, cache'))
        × Sees ledger cache' (λ key. view key + share (some party) key)
  credit_view_total cache view room sees =
      let (cache', e, shows) =
        credit-total ledger party party_size cache (pos (view party)) (sees party party_size) in
      (cache', e, raised-Sees cache cache' view room sees shows)

  pub debit_back :
      (cache : Cache) (view : View)
      → ((key : Bytes) → view key < 2 ^ 63)
      → 1 ≤ view party
      → Sees ledger cache view
      → (cache' : Cache) × (debit_recipient ledger (some party) cache ≡ (ok true, cache'))
        × Sees ledger cache' (λ key. view key - share (some party) key)
  debit_back cache view room one sees =
      let (cache', e, shows) =
        debit_recipient-Shows ledger party party_size cache (pos (view party))
          (sees party party_size) (ground arith) in
      (cache', e, lowered-Sees cache cache' view room one sees shows)

module _ (ledger : Balances) (cn : Consideration) (parties : HasParties cn) (view : View) where
  open parties use {recipient, received, recipient_size, sender_size}

  user_parts :
      (sender : Bytes) (cache cache' : Cache)
      → cn.by ≡ some sender
      → apply ledger cn cache ≡ (ok true, cache')
      → (c : Cache) × (debit_sender ledger (some sender) cache ≡ (ok true, c))
        × (credit ledger (some recipient) c ≡ (ok true, cache'))
  unfolding apply is_counter_point
  user_parts sender cache cache' sent h =
      let (covered, c, d, k) =
        >>>-eq-ok (debit_sender ledger cn.by cache)
          (λ covered c. if covered then credit ledger cn.for c else (ok false, c)) {b = true}
          {s' = cache'} (ground arith) in
      (c, ground arith, ground arith)

  countpoint_part :
      (cache cache' : Cache)
      → cn.by ≡ none
      → apply ledger cn cache ≡ (ok true, cache')
      → credit ledger (some recipient) cache ≡ (ok true, cache')
  unfolding apply is_counter_point
  countpoint_part cache cache' none_by h = ground arith

  -- What `Apply` makes of the view, when it accepts.
  pub apply-Sees :
      (cache cache' : Cache)
      → ((key : Bytes) → view key + 1 < 2 ^ 63)
      → Sees ledger cache view
      → apply ledger cn cache ≡ (ok true, cache')
      → Covered cn view × Sees ledger cache' (after cn view)
  apply-Sees cache cache' room sees h = elim (Option-cases cn.by) [
    | inl none_by ↦
        let credited = countpoint_part cache cache' none_by h in
        let shown =
          credit_view ledger recipient recipient_size cache cache' view room sees credited in
        (λ key. ground arith, λ key size. ground (arith, shown key size))
    | inr (sender, sent) ↦
        let (c, debited, credited) = user_parts sender cache cache' sent h in
        let size : length sender ≡ public_key_size = subst IsSized sent sender_size in
        let (one, mid) =
          debit_view ledger sender size cache c view (λ key. omega (arith, room key)) sees
            debited in
        let shown =
          credit_view ledger recipient recipient_size c cache'
            (λ key. view key - share (some sender) key) (λ key. omega (arith, room key)) mid
            credited in
        (
          λ key. ground (arith, bytes_equal_iff sender key),
          λ key size. ground (arith, shown key size),
        )
  ]

  -- `Undo` goes through and brings the view back.
  pub undo-Sees :
      (cache : Cache)
      → ((key : Bytes) → view key + 2 < 2 ^ 63)
      → Covered cn view
      → Sees ledger cache (after cn view)
      → (back : Cache) × (undo ledger cn cache ≡ (ok true, back)) × Sees ledger back view
  unfolding undo is_counter_point
  undo-Sees cache room covered sees = elim (Option-cases cn.by) [
    | inl none_by ↦
        let (back, debited, shown) =
          debit_back ledger recipient recipient_size cache (after cn view)
            (λ key. ground (arith, room key)) (ground (arith, bytes_equal_iff recipient recipient))
            sees in
        (back, ground arith, λ key size. ground (arith, shown key size))
    | inr (sender, sent) ↦
        let size : length sender ≡ public_key_size = subst IsSized sent sender_size in
        let (c, credited, mid) =
          credit_view_total ledger sender size cache (after cn view)
            (λ key. ground (arith, room key, covered key)) sees in
        let (back, debited, shown) =
          debit_back ledger recipient recipient_size c
            (λ key. after cn view key + share (some sender) key) (λ key. ground (arith, room key))
            (ground (arith, bytes_equal_iff recipient recipient)) mid in
        (back, ground arith, λ key size. ground (arith, shown key size, covered key))
  ]
