-- ===== src/Tests/Targets.antt =====
-- The theorems on the targets at concrete headers.
use focal_point.Prelude.{
  ◌-◌, ◌/◌, ◌*◌, ◌^◌, ◌≤◌, ◌≡◌, refl, some, pos, ok, arith, add64, wrap64, sub64, ◌+ℤ◌, ◌-ℤ◌,
}
use focal_point.Constants.{initial_target, retarget_sma_window}
use focal_point.Count.{CountId, CountHeader, compute_count_work}
use focal_point.Processor.Target.{History, average_target, compute_target_bitcoin}
use focal_point.Processor.Retarget.{Near, compute_target_bitcoin-Near, average_target_work}
use focal_point.Tests.Data.{header}

-- The last header of the first interval, after six days.
abbrev last : CountHeader
last = record header { height = pos 2015; time = pos 600000; target = 2 ^ 220 }

-- Every header before it is like the first.
abbrev flat_history : History
flat_history = record {
  get_count_header = λ id. ok (some (header, pos 0));
  get_count_id_for_height = λ height. ok (some 0);
}

retargeted : compute_target_bitcoin flat_history last ≡ ok (2 ^ 220 * 599000 / 1209600)
unfolding compute_target_bitcoin add64 sub64 wrap64 ◌+ℤ◌ ◌-ℤ◌
retargeted = refl

compute_target_bitcoin-Near_example : Near (2 ^ 220) (2 ^ 220 * 599000 / 1209600)
compute_target_bitcoin-Near_example =
    compute_target_bitcoin-Near flat_history last (2 ^ 220 * 599000 / 1209600) (omega (arith))
      retargeted

-- The end of a window whose counts had the lowest work.
abbrev window_end : CountHeader
window_end = record header { point_work = 2 ^ 32 * 150; time = pos 90000; height = pos 145 }

average_target_work_example :
    (t : CountId) × (average_target window_end header ≡ ok t)
    × (t ≤ initial_target)
    × ((window_end.point_work - header.point_work) / (2 * retarget_sma_window)
        ≤ compute_count_work t)
average_target_work_example = average_target_work window_end header (omega (arith)) (omega (arith))
