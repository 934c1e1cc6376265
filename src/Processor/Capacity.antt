-- ===== src/Processor/Capacity.antt =====
-- computeMaxConsiderationsPerCount of processor.go: how many considerations a count may hold.
use focal_point.Prelude.{
  ℕ, zero, suc, ◌+◌, ◌-◌, ◌*◌, ◌/◌, ◌%◌, ◌^◌, ◌≤◌, ◌<◌, ◌≡◌, subst, ◌⊎◌, inl, inr, arith, Result,
  ok,
}
use focal_point.Constants.{
  initial_max_considerations_per_count, counts_until_considerations_per_count_doubling,
  max_considerations_per_count, max_considerations_per_count_exceeded_at_height,
}
use focal_point.Processor.Checks.{compute_max_considerations_per_count}

pow_mono : (a b : ℕ) → a ≤ b → 2 ^ a ≤ 2 ^ b
pow_mono a zero h = ground arith
pow_mono zero (suc b) h = ground (arith, pow_mono zero b)
pow_mono (suc a) (suc b) h = ground (arith, pow_mono a b)

-- What the growth reaches after `doublings` doublings and `remainder` counts.
abbrev grown : ℕ → ℕ → ℕ
grown doublings remainder =
    let full = initial_max_considerations_per_count * 2 ^ doublings in
    full + full * remainder / counts_until_considerations_per_count_doubling

part_below : (full r : ℕ) → r < 105000 → full * r / 105000 ≤ full
part_below full r h = grind arith

part_mono : (full r r' : ℕ) → r ≤ r' → full * r / 105000 ≤ full * r' / 105000
part_mono full r r' h = grind arith

ok_unique : {r : Result ℕ} {a b : ℕ} → r ≡ ok a → r ≡ ok b → a ≡ b
ok_unique h k = cc

grown_in_doubling : (d r r' : ℕ) → r ≤ r' → grown d r ≤ grown d r'
grown_in_doubling d r r' h =
    ground (arith, part_mono (initial_max_considerations_per_count * 2 ^ d) r r' h)

grown_across : (d r d' r' : ℕ) → r < 105000 → suc d ≤ d' → grown d r ≤ grown d' r'
grown_across d r d' r' hr h = ground (arith, part_below (10000 * 2 ^ d) r hr, pow_mono (suc d) d' h)

grown_mono :
    (d r d' r' : ℕ)
    → r < 105000
    → r' < 105000
    → d * 105000 + r ≤ d' * 105000 + r'
    → grown d r ≤ grown d' r'
grown_mono d r d' r' hr hr' h = elim d_cases [
  | inl (same, le) ↦ subst (λ k. grown d r ≤ grown k r') same (grown_in_doubling d r r' le)
  | inr later ↦ grown_across d r d' r' hr later
]
  where
    d_cases : ((d ≡ d') × (r ≤ r')) ⊎ (suc d ≤ d')
    d_cases = ground arith

-- Below the height where the growth ends the result is the grown number.
below_lem :
    (height : ℕ)
    → height < max_considerations_per_count_exceeded_at_height
    → compute_max_considerations_per_count height ≡ ok (grown (height / 105000) (height % 105000))
unfolding compute_max_considerations_per_count
below_lem height h = ground arith

above_lem :
    (height : ℕ)
    → max_considerations_per_count_exceeded_at_height ≤ height
    → compute_max_considerations_per_count height ≡ ok max_considerations_per_count
unfolding compute_max_considerations_per_count
above_lem height h = ground arith

abbrev last_height : ℕ
last_height = max_considerations_per_count_exceeded_at_height - 1

below_bound :
    (height : ℕ) → height ≤ last_height → grown (height / 105000) (height % 105000) ≤ grown 17 67031
below_bound height h =
    grown_mono (height / 105000) (height % 105000) 17 67031 (omega (arith)) (omega (arith))
      (omega (arith))

below_floor : (height : ℕ) → 10000 ≤ grown (height / 105000) (height % 105000)
below_floor height =
    grown_mono 0 0 (height / 105000) (height % 105000) (omega (arith)) (omega (arith))
      (omega (arith))

last_grown : grown 17 67031 ≤ max_considerations_per_count
last_grown = omega (arith)

-- At every height `computeMaxConsiderationsPerCount` gives a number, at least
-- INITIAL_MAX_CONSIDERATIONS_PER_COUNT and at most MAX_CONSIDERATIONS_PER_COUNT, the largest int32:
-- it panics at no height, and the growth stops before a 32-bit count could overflow.
pub compute_max_considerations_per_count_bounds :
    (height : ℕ)
    → (m : ℕ) × (compute_max_considerations_per_count height ≡ ok m)
      × (initial_max_considerations_per_count ≤ m)
      × (m ≤ max_considerations_per_count)
compute_max_considerations_per_count_bounds height = elim height_cases [
  | inl low ↦ (
    grown (height / 105000) (height % 105000),
    below_lem height (omega (arith, low)),
    below_floor height,
    omega (arith, below_bound height low, last_grown),
  )
  | inr high ↦ (max_considerations_per_count, above_lem height high, omega (arith), omega (arith))
]
  where
    height_cases :
        (height ≤ last_height) ⊎ (max_considerations_per_count_exceeded_at_height ≤ height)
    height_cases = ground arith

-- A count may hold at least as many considerations as one at a lower height may: across the
-- doublings, between them, and where the growth ends.
pub compute_max_considerations_per_count_mono :
    (low high m n : ℕ)
    → low ≤ high
    → compute_max_considerations_per_count low ≡ ok m
    → compute_max_considerations_per_count high ≡ ok n
    → m ≤ n
compute_max_considerations_per_count_mono low high m n le hm hn = elim height_cases [
  | inl below ↦
      let eq_m = ok_unique (below_lem low (omega (arith, le, below))) hm in
      let eq_n = ok_unique (below_lem high (omega (arith, below))) hn in
      subst (λ k. k ≤ n) eq_m
        (subst (λ k. grown (low / 105000) (low % 105000) ≤ k) eq_n (between le))
  | inr above ↦ subst (λ k. m ≤ k) (ok_unique (above_lem high above) hn) (at_most above)
]
  where
    height_cases : (high ≤ last_height) ⊎ (max_considerations_per_count_exceeded_at_height ≤ high)
    height_cases = ground arith

    between :
        low ≤ high → grown (low / 105000) (low % 105000) ≤ grown (high / 105000) (high % 105000)
    between h =
        grown_mono (low / 105000) (low % 105000) (high / 105000) (high % 105000) (omega (arith))
          (omega (arith)) (omega (arith))

    at_most :
        max_considerations_per_count_exceeded_at_height ≤ high → m ≤ max_considerations_per_count
    at_most h =
        let (k, eq, _, bound) = compute_max_considerations_per_count_bounds low in
        subst (λ j. j ≤ max_considerations_per_count) (ok_unique eq hm) bound
