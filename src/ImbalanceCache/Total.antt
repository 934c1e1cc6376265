-- ===== src/ImbalanceCache/Total.antt =====
-- Where the ledger answers, so does the cache.
use focal_point.Prelude.{
  ◌≡◌, Bool, true, false, ok, arith, Option-cases, Bool-cases, inl, inr, lookup, bytes_eq, ℤ, ltb_ℤ,
  insert, pos, sub64,
}
use focal_point.Consideration.{Consideration, PublicKey, is_counter_point}
use focal_point.ImbalanceCache.{Balances, Cache, imbalance, key_of, apply, debit_sender, credit}

-- The ledger has an imbalance for every key.
abbrev pub Answers : Balances → Type 0
Answers ledger = (key : PublicKey) → (v : ℤ) × (ledger key ≡ ok v)

imbalance_total :
    (ledger : Balances) (cache : Cache) (key : PublicKey)
    → Answers ledger
    → (v : ℤ) × (imbalance ledger cache key ≡ ok v)
unfolding imbalance
imbalance_total ledger cache key answers = elim (Option-cases (lookup (key_of key) cache)) [
  | inl e ↦ let (v, known) = answers key in (v, ground arith)
  | inr (v, e) ↦ (v, ground arith)
]

credit-Answers :
    (ledger : Balances) (cache : Cache) (key : PublicKey)
    → Answers ledger
    → (credit ledger key cache).0 ≡ ok true
unfolding credit
credit-Answers ledger cache key answers =
    let (v, e) = imbalance_total ledger cache key answers in ground arith

pub apply_total :
    (ledger : Balances) (cn : Consideration) (cache : Cache)
    → Answers ledger
    → (covered : Bool) × ((apply ledger cn cache).0 ≡ ok covered)
unfolding apply debit_sender
apply_total ledger cn cache answers = elim (Bool-cases (is_counter_point cn)) [
  | inl countpoint ↦ (true, ground (arith, credit-Answers ledger cache cn.for answers))
  | inr user ↦
      let (v, e) = imbalance_total ledger cache cn.by answers in
      elim (Bool-cases (ltb_ℤ v (pos 1))) [
        | inl short ↦ (false, ground arith)
        | inr enough ↦ (
          true,
          ground (
            arith,
            credit-Answers ledger (insert (key_of cn.by) (sub64 v (pos 1)) cache) cn.for answers,
          ),
        )
      ]
]
