-- ===== src/Processor/Median/Middle.antt =====
-- The median that processor.go computes has at most half of the timestamps on either side.
use focal_point.Prelude.{
  ℕ, zero, suc, ◌+◌, ◌*◌, ◌/◌, ◌≤◌, ◌<◌, ◌≡◌, refl, ap, ◌∙◌, some, Option-cases, inl, inr, List, [],
  ◌∷◌, All, ℤ, pos, ◌≤ℤ◌, ltb_ℤ, ok, >>=-eq-ok, length, get_elem?, if◌then◌else◌, arith,
}
use focal_point.Constants.{num_counts_for_median_timestamp}
use focal_point.Count.{CountHeader}
use focal_point.Processor.Target.{History}
use focal_point.Processor.Median.{insert_time, sort_times, timestamps, compute_median_timestamp}

-- How many times are below and above one.
abbrev pub below : ℤ → List ℤ → ℕ
below v [] = 0
below v (t ∷ times) = (if ltb_ℤ t v then 1 else 0) + below v times

abbrev pub above : ℤ → List ℤ → ℕ
above v [] = 0
above v (t ∷ times) = (if ltb_ℤ v t then 1 else 0) + above v times

abbrev IsSorted : List ℤ → Type 0
IsSorted [] = Unit
IsSorted (t ∷ times) = All (λ u. t ≤ℤ u) times × IsSorted times

All-insert_time :
    (low t : ℤ) (times : List ℤ)
    → low ≤ℤ t
    → All (λ u. low ≤ℤ u) times
    → All (λ u. low ≤ℤ u) (insert_time t times)
unfolding insert_time
All-insert_time low t [] h all = (h, tt)
All-insert_time low t (u ∷ times) h (first, all) =
    ground (arith, All-insert_time low t times h all, first, h)

All-weaken :
    (low high : ℤ) (times : List ℤ)
    → low ≤ℤ high
    → All (λ u. high ≤ℤ u) times
    → All (λ u. low ≤ℤ u) times
All-weaken low high [] h all = tt
All-weaken low high (u ∷ times) h (first, all) =
    (omega (arith, h, first), All-weaken low high times h all)

insert_time-IsSorted : (t : ℤ) (times : List ℤ) → IsSorted times → IsSorted (insert_time t times)
unfolding insert_time
insert_time-IsSorted t [] s = (tt, tt)
insert_time-IsSorted t (u ∷ times) (first, s) = ground (
  arith,
  first,
  s,
  insert_time-IsSorted t times s,
  All-insert_time u t times,
  All-weaken t u times,
)

sort_times-IsSorted : (times : List ℤ) → IsSorted (sort_times times)
unfolding sort_times
sort_times-IsSorted [] = tt
sort_times-IsSorted (t ∷ times) =
    insert_time-IsSorted t (sort_times times) (sort_times-IsSorted times)

counts-insert_time :
    (v t : ℤ) (times : List ℤ)
    → (below v (insert_time t times) ≡ below v (t ∷ times))
      × (above v (insert_time t times) ≡ above v (t ∷ times))
      × (length (insert_time t times) ≡ suc (length times))
unfolding insert_time
counts-insert_time v t [] = (refl, refl, refl)
counts-insert_time v t (u ∷ times) = ground (arith, counts-insert_time v t times)

counts-sort_times :
    (v : ℤ) (times : List ℤ)
    → (below v (sort_times times) ≡ below v times)
      × (above v (sort_times times) ≡ above v times)
      × (length (sort_times times) ≡ length times)
unfolding sort_times
counts-sort_times v [] = (refl, refl, refl)
counts-sort_times v (t ∷ times) =
    ground (arith, counts-insert_time v t (sort_times times), counts-sort_times v times)

below_none : (v : ℤ) (times : List ℤ) → All (λ u. v ≤ℤ u) times → below v times ≡ 0
below_none v [] all = refl
below_none v (u ∷ times) (first, all) = ground (arith, first, below_none v times all)

above_all : (v : ℤ) (times : List ℤ) → above v times ≤ length times
above_all v [] = omega arith
above_all v (u ∷ times) = ground (arith, above_all v times)

element_le :
    (low v : ℤ) (i : ℕ) (times : List ℤ)
    → All (λ u. low ≤ℤ u) times
    → get_elem? times i ≡ some v
    → low ≤ℤ v
element_le low v i [] all e = absurd (ground arith)
element_le low v zero (u ∷ times) (first, all) e = ground (arith, first, e)
element_le low v (suc i) (u ∷ times) (first, all) e = element_le low v i times all e

ranked :
    (v : ℤ) (i : ℕ) (times : List ℤ)
    → IsSorted times
    → get_elem? times i ≡ some v
    → (below v times ≤ i) × (above v times + suc i ≤ length times)
ranked v i [] s e = absurd (ground arith)
ranked v zero (t ∷ times) (first, s) e =
    let same : t ≡ v = ground arith in
    let none_below = below_none t times first in ground (arith, same, none_below, above_all v times)
ranked v (suc i) (t ∷ times) (first, s) e =
    ground (arith, ranked v i times s e, element_le t v i times first e)

element_there : (i : ℕ) (times : List ℤ) → i < length times → (v : ℤ) × (get_elem? times i ≡ some v)
element_there i [] h = absurd (omega (arith, h))
element_there zero (t ∷ times) h = (t, refl)
element_there (suc i) (t ∷ times) h = element_there i times (omega (arith, h))

timestamps_some :
    (history : History) (n : ℕ) (header : CountHeader) (times : List ℤ)
    → timestamps history (suc n) header ≡ ok times
    → 0 < length times
unfolding timestamps
timestamps_some history n header times h =
    let (found, e, k) = >>=-eq-ok (history.get_count_header header.previous) _ h in
    elim (Option-cases found) [
      | inl missing ↦ ground (arith, e ∙ ap ok missing, h)
      | inr ((previous, when), there) ↦
          let (rest, _, last) =
            >>=-eq-ok (timestamps history n previous) (λ times. ok (header.time ∷ times))
              {b = times} (ground (arith, e ∙ ap ok there, h)) in
          ground (arith, last)
    ]

median_run :
    (history : History) (header : CountHeader) (times : List ℤ) (v : ℤ)
    → timestamps history num_counts_for_median_timestamp header ≡ ok times
    → get_elem? (sort_times times) (length times / 2) ≡ some v
    → compute_median_timestamp history header ≡ ok v
unfolding compute_median_timestamp
median_run history header times v h at = ground (arith, h, at)

-- Whenever the headers can be read, `computeMedianTimestamp` returns a time with at most half of the
-- timestamps that it has collected below it and at most half above it.
pub compute_median_timestamp_lem :
    (history : History) (header : CountHeader) (times : List ℤ)
    → timestamps history num_counts_for_median_timestamp header ≡ ok times
    → (v : ℤ) × (compute_median_timestamp history header ≡ ok v)
      × (2 * below v times ≤ length times)
      × (2 * above v times ≤ length times)
compute_median_timestamp_lem history header times h =
    let some_time = timestamps_some history 10 header times h in
    let (_, _, same) = counts-sort_times (pos 0) times in
    let (v, at) =
      element_there (length times / 2) (sort_times times) (omega (arith, some_time, same)) in
    let (same_below, same_above, _) = counts-sort_times v times in
    let (low, high) =
      ranked v (length times / 2) (sort_times times) (sort_times-IsSorted times) at in
    (
      v,
      median_run history header times v h at,
      omega (arith, low, same_below),
      omega (arith, high, same_above, same, some_time),
    )
