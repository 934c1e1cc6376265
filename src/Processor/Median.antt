-- ===== src/Processor/Median.antt =====
-- computeMedianTimestamp of processor.go.
pub mod Middle
use focal_point.Prelude.{
  ℕ, zero, suc, ◌/◌, none, some, List, [], ◌∷◌, ℤ, ltb_ℤ, Result, ok, panic, ◌>>=◌, length,
  get_elem?, if◌then◌else◌,
}
use focal_point.Constants.{num_counts_for_median_timestamp}
use focal_point.Count.{CountHeader}
use focal_point.Processor.Target.{History}

unfoldable pub insert_time : ℤ → List ℤ → List ℤ
insert_time t [] = t ∷ []
insert_time t (u ∷ times) = if ltb_ℤ u t then u ∷ insert_time t times else t ∷ u ∷ times

-- `sort.Slice`
unfoldable pub sort_times : List ℤ → List ℤ
unfolding insert_time
sort_times [] = []
sort_times (t ∷ times) = insert_time t (sort_times times)

-- The loop over the headers, which ends early below the genesis header.
unfoldable pub timestamps : History → ℕ → CountHeader → Result (List ℤ)
timestamps history zero header = ok []
timestamps history (suc n) header = do
  found ← history.get_count_header header.previous
  elim found [
    | none ↦ ok (header.time ∷ [])
    | some (previous, _) ↦ do times ← timestamps history n previous; ok (header.time ∷ times)
  ]

unfoldable pub compute_median_timestamp : History → CountHeader → Result ℤ
unfolding timestamps sort_times
compute_median_timestamp history header = do
  times ← timestamps history num_counts_for_median_timestamp header
  elim (get_elem? (sort_times times) (length times / 2)) [ none ↦ panic | some t ↦ ok t ]
