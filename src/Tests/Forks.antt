-- ===== src/Tests/Forks.antt =====
-- The walk to the common ancestor and the median at two points of concrete headers.
use focal_point.Prelude.{
  [], ◌∷◌, ◌*◌, ◌≤◌, ℤ, ◌≡◌, refl, some, none, List, pos, ok, ◌==◌, if◌then◌else◌,
}
use mathlib.Core.List.{reverse}
use focal_point.Processor.Median.{timestamps, compute_median_timestamp}
use focal_point.Processor.Median.Middle.{below, above, compute_median_timestamp_lem}
use focal_point.Count.{CountId, CountHeader}
use focal_point.Processor.Target.{History}
use focal_point.Processor.Fork.{Fork, find_fork}
use focal_point.Processor.Fork.Ancestor.{find_fork-Descent}
use focal_point.Processor.Fork.Descent.{Descent}
use focal_point.Tests.Data.{header}

abbrev genesis : CountHeader
genesis = record header { height = pos 0 }

abbrev side : CountHeader
side = record header { previous = 30; nonce = pos 2 }

abbrev side_tip : CountHeader
side_tip = record header { previous = 31; nonce = pos 3; height = pos 2 }

-- The genesis count has the identifier 30, and the side count 31.
abbrev two_points : History
two_points = record {
  get_count_header = λ id.
      if id == 30
      then ok (some (genesis, pos 0))
      else if id == 31
      then ok (some (side, pos 7))
      else ok none;
  get_count_id_for_height = λ height. ok none;
}

-- The tip of the main point lies one above the genesis count, the other point two.
find_fork-Descent_example :
    (f : Fork) × (find_fork two_points 40 (record header { previous = 30 }) 32 side_tip
      ≡ some (ok f))
    × (f.new.header ≡ f.tip.header)
    × Descent two_points 40 (record header { previous = 30 }) f.tip.counts f.tip.id f.tip.header
    × ((ids : List CountId) × Descent two_points 32 side_tip ids f.new.id f.new.header
        × (f.new.counts ≡ reverse ids))
find_fork-Descent_example =
    find_fork-Descent two_points genesis 1 2 40 (record header { previous = 30 }) 32 side_tip
      (refl, genesis, pos 0, refl, (refl, refl))
      (refl, side, pos 7, refl, (refl, genesis, pos 0, refl, (refl, refl)))

three_times : timestamps two_points 11 side_tip ≡ ok (pos 1000 ∷ pos 1000 ∷ pos 1000 ∷ [])
unfolding timestamps
three_times = refl

compute_median_timestamp_lem_example :
    (v : ℤ) × (compute_median_timestamp two_points side_tip ≡ ok v)
    × (2 * below v (pos 1000 ∷ pos 1000 ∷ pos 1000 ∷ []) ≤ 3)
    × (2 * above v (pos 1000 ∷ pos 1000 ∷ pos 1000 ∷ []) ≤ 3)
compute_median_timestamp_lem_example =
    compute_median_timestamp_lem two_points side_tip (pos 1000 ∷ pos 1000 ∷ pos 1000 ∷ [])
      three_times
