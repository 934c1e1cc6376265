-- ===== src/Processor/Retarget.antt =====
-- How far one retargeting of processor.go can move the target.
use focal_point.Prelude.{
  ℕ, zero, suc, ◌+◌, ◌-◌, ◌*◌, ◌/◌, ◌%◌, ◌^◌, ◌≤◌, ◌<◌, ◌≡◌, refl, ap, sym, ◌∙◌, subst, Bool-cases,
  ◌⊎◌, inl, inr, not, ℤ, pos, pos_part, neg_part, sub_ℕ, sub64, add64, arith, Result, ok, ◌>>=◌,
  >>=-eq-ok, ◌==◌, if◌then◌else◌,
}
use focal_point.Constants.{initial_target, retarget_interval, retarget_sma_window}
use focal_point.Count.{CountId, CountHeader, set_big_int, compute_count_work}
use focal_point.Processor.Target.{
  History, clamp, capped, scale_target, target_of_work, average_target, walk_back,
  compute_target_bitcoin, div_down, scale_work,
}

clamp_bounds :
    (low high : ℕ) (span : ℤ)
    → low ≤ high
    → (low ≤ clamp low high span) × (clamp low high span ≤ high)
unfolding clamp
clamp_bounds low high span h = ground arith

ok_unique : {r : Result CountId} {a b : CountId} → r ≡ ok a → r ≡ ok b → a ≡ b
ok_unique h k = cc

capped_low : (t : ℕ) → t ≤ initial_target → capped t ≡ ok t
unfolding capped set_big_int
capped_low t h = ground arith

capped_high : (t : ℕ) → initial_target < t → capped t ≡ ok initial_target
unfolding capped set_big_int
capped_high t h = ground arith

-- The target that results lies within a factor of four of the old one, or is the cap.
abbrev pub Near : CountId → CountId → Type 0
Near old new = (old / 4 ≤ new) × (new ≤ 4 * old) × (new ≤ initial_target)

scaled_bounds :
    (t span : ℕ)
    → 302400 ≤ span
    → span ≤ 4838400
    → (t / 4 ≤ t * span / 1209600) × (t * span / 1209600 ≤ 4 * t)
scaled_bounds t span low high = (grind arith, grind arith)

capped-Near :
    (old t : ℕ)
    → old ≤ initial_target
    → (old / 4 ≤ t) × (t ≤ 4 * old)
    → (new : CountId) × (capped t ≡ ok new) × Near old new
capped-Near old t h (low, high) = elim t_cases [
  | inl small ↦ (t, capped_low t small, (low, high, small))
  | inr large ↦ (
    initial_target,
    capped_high t large,
    (omega (arith, h), omega (arith, large, high), omega (arith)),
  )
]
  where
    t_cases : (t ≤ initial_target) ⊎ (initial_target < t)
    t_cases = ground arith

scale_target-Near :
    (prev first : CountHeader)
    → prev.target ≤ initial_target
    → (t : CountId) × (scale_target prev first ≡ ok t) × Near prev.target t
unfolding scale_target
scale_target-Near prev first h =
    let span = clamp 302400 4838400 (sub64 prev.time first.time) in
    let (low, high) = clamp_bounds 302400 4838400 (sub64 prev.time first.time) (omega (arith)) in
    capped-Near prev.target (prev.target * span / 1209600) h
      (scaled_bounds prev.target span low high)

-- Whenever `computeTargetBitcoin` returns, and whatever the timestamps say, the target after one
-- within INITIAL_TARGET is at least a quarter of it, at most four times it, and within
-- INITIAL_TARGET.
pub compute_target_bitcoin-Near :
    (history : History) (prev : CountHeader) (t : CountId)
    → prev.target ≤ initial_target
    → compute_target_bitcoin history prev ≡ ok t
    → Near prev.target t
unfolding compute_target_bitcoin
compute_target_bitcoin-Near history prev t h ran = elim height_cases [
  | inl between ↦
      subst (λ k. Near prev.target k) (ok_unique between ran) (omega (arith), omega (arith), h)
  | inr (n, retarget) ↦
      let (first, _, scaled) =
        >>=-eq-ok (walk_back history n prev) (scale_target prev) (sym retarget ∙ ran) in
      let (new, eq, near) = scale_target-Near prev first h in
      subst (λ k. Near prev.target k) (ok_unique eq scaled) near
]
  where
    height : ℤ
    height = add64 prev.height (pos 1)

    steps : ℕ
    steps =
        if not (pos_part height == retarget_interval)
        then retarget_interval
        else retarget_interval - 1

    height_cases :
        (compute_target_bitcoin history prev ≡ ok prev.target)
        ⊎ ((n : ℕ) × (compute_target_bitcoin history prev
              ≡ (walk_back history n prev >>= scale_target prev)))
    height_cases =
        elim (Bool-cases (not ((pos_part height + neg_part height) % retarget_interval == 0))) [
          | inl tested ↦ inl (
              ap
                (λ b.
                  if b
                  then ok prev.target
                  else (walk_back history steps prev >>= scale_target prev))
                tested)
          | inr untested ↦ inr (
            steps,
            ap
                (λ b.
                  if b
                  then ok prev.target
                  else (walk_back history steps prev >>= scale_target prev))
                untested,
          )
        ]

quotient_swap : (n w k : ℕ) → 0 < w → 0 < k → k ≤ n / w → w ≤ n / k
quotient_swap n w k hw hk h = grind arith

half_quotient : (w : ℕ) → 0 < w → w ≤ 2 ^ 255 → 2 ≤ 2 ^ 256 / w
half_quotient w p h = quotient_swap (2 ^ 256) 2 w (omega (arith)) p (omega (arith, h))

-- A target that is low enough stands for the work.
enough_work : (w t : ℕ) → 0 < w → 0 < t → t + 1 ≤ 2 ^ 256 / w → w ≤ compute_count_work t
unfolding compute_count_work
enough_work w t hw ht h = ground (arith, quotient_swap (2 ^ 256) w (t + 1) hw (omega (arith)) h)

uncapped :
    (w : ℕ) → 2 ≤ 2 ^ 256 / suc w → target_of_work (pos (suc w)) ≡ capped (2 ^ 256 / suc w - 1)
unfolding target_of_work
uncapped w h = ground (arith, h)

target_of_work_lem :
    (w : ℕ)
    → 0 < w
    → w ≤ 2 ^ 255
    → (t : CountId) × (target_of_work (pos w) ≡ ok t)
      × (t ≤ initial_target)
      × (w ≤ compute_count_work t)
target_of_work_lem zero p h = absurd (omega (arith, p))
target_of_work_lem (suc w) p h = elim t_cases [
  | inl small ↦ (
    2 ^ 256 / suc w - 1,
    uncapped w two ∙ capped_low _ small,
    small,
    enough_work (suc w) _ p (omega (arith, two)) (omega (arith, two)),
  )
  | inr large ↦ (
    initial_target,
    uncapped w two ∙ capped_high _ large,
    omega (arith),
    enough_work (suc w) _ p (omega (arith)) (omega (arith, large)),
  )
]
  where
    two : 2 ≤ 2 ^ 256 / suc w
    two = half_quotient (suc w) p h

    t_cases : (2 ^ 256 / suc w - 1 ≤ initial_target) ⊎ (initial_target < 2 ^ 256 / suc w - 1)
    t_cases = ground arith

-- The work of one count of the window, over the clamped time span.
share_low : (d span : ℕ) → 0 < span → span ≤ 172800 → d / 288 ≤ d * 600 / span
share_low d span p high = grind arith

share_high : (d span : ℕ) → 43200 ≤ span → d < 2 ^ 256 → d * 600 / span ≤ 2 ^ 255
share_high d span low bound = grind arith

share_pos : (d span : ℕ) → 288 ≤ d → 0 < span → span ≤ 172800 → 0 < d * 600 / span
share_pos d span h p high = grind arith

sub_ℕ_below : (a b : ℕ) → b ≤ a → sub_ℕ a b ≡ pos (a - b)
sub_ℕ_below a b h = ground arith

clamped_run :
    (prev first : CountHeader) (w : ℕ)
    → first.point_work ≤ prev.point_work
    → (prev.point_work - first.point_work) * 600 / clamp 43200 172800 (sub64 prev.time first.time)
      ≡ w
    → average_target prev first ≡ target_of_work (pos w)
unfolding average_target
clamped_run prev first w le h =
    ap
      (λ z.
        target_of_work
          (div_down (scale_work z 600) (clamp 43200 172800 (sub64 prev.time first.time))))
      (sub_ℕ_below prev.point_work first.point_work le)
    ∙ ap (λ k. target_of_work (pos k)) h

-- `computeTargetBitcoinCash`, from the headers at both ends of its window of 144 counts: where the
-- window's work is at least 288 and the point's work a 256-bit number, it gives a target, whatever
-- the timestamps say. The target is within INITIAL_TARGET, and a count that meets it stands for at
-- least the 288th part of the window's work, so one retargeting at most halves the mean.
pub average_target_work :
    (prev first : CountHeader)
    → first.point_work + 2 * retarget_sma_window ≤ prev.point_work
    → prev.point_work < 2 ^ 256
    → (t : CountId) × (average_target prev first ≡ ok t)
      × (t ≤ initial_target)
      × ((prev.point_work - first.point_work) / (2 * retarget_sma_window) ≤ compute_count_work t)
average_target_work prev first h bound =
    let span = clamp 43200 172800 (sub64 prev.time first.time) in
    let (low, high) = clamp_bounds 43200 172800 (sub64 prev.time first.time) (omega (arith)) in
    let d = prev.point_work - first.point_work in
    let (t, eq, capped_t, work) =
      target_of_work_lem (d * 600 / span)
        (share_pos d span (omega (arith, h)) (omega (arith, low)) high)
        (share_high d span low (omega (arith, bound))) in
    (
      t,
      clamped_run prev first (d * 600 / span) (omega (arith, h)) refl ∙ eq,
      capped_t,
      omega (arith, work, share_low d span (omega (arith, low)) high),
    )
