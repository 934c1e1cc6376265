-- ===== src/Tests/Counts.antt =====
-- The theorems on counts and their checks at concrete counts.
use focal_point.Prelude.{
  ℕ, ◌≤◌, ◌≡◌, refl, ◌⊎◌, ◌↔◌, true, false, [], ◌∷◌, ◌++◌, pos, ok, arith, add64, wrap64, ◌+ℤ◌,
  lookup, insert,
}
use focal_point.Constants.{
  initial_target, initial_max_considerations_per_count, max_considerations_per_count,
}
use focal_point.Consideration.{consideration_id, is_counter_point}
use focal_point.Count.{
  Count, compute_count_work, compute_point_work, check_pow, compare_headers, add_consideration,
  compute_hash_list_root, ids_of, add_countpoint_to_hash_list_root, set_big_int, compare_ids,
}
use focal_point.Count.Better.{compare_headers_decides, compare_headers_trans}
use focal_point.Count.Root.{IsRooted, add_consideration-IsRooted}
use focal_point.Processor.Checks.{
  check_count, check_header, check_shape, check_contents, check_all, check_kinds, any_countpoint,
  check_consideration, check_kind, check_recipient, check_memo, check_heights, valid_string, lead,
  out_of_range, checkpoint_check, compute_max_considerations_per_count,
}
use focal_point.Processor.Sane.{IsSane, check_consideration_iff}
use focal_point.Processor.Sound.{IsSound, check_count-IsSound}
use focal_point.Processor.Capacity.{
  compute_max_considerations_per_count_bounds, compute_max_considerations_per_count_mono,
}
use focal_point.Tests.Data.{
  cn_ab, cn_ab_again, count, toy_hashing, header, later_header, last_header,
}

count_passes : check_count toy_hashing 5 count (pos 2000) ≡ ok tt
unfolding check_count check_header check_shape check_contents check_all check_kinds any_countpoint
    check_consideration check_kind check_recipient check_memo check_heights valid_string lead
    out_of_range checkpoint_check compute_max_considerations_per_count check_pow
    compute_hash_list_root ids_of add_countpoint_to_hash_list_root is_counter_point consideration_id
    add64 wrap64 ◌+ℤ◌ lookup insert
count_passes = refl

check_count-IsSound_example : IsSound toy_hashing 5 count (pos 2000)
check_count-IsSound_example = check_count-IsSound toy_hashing 5 count (pos 2000) count_passes

check_consideration_iff_example : (check_consideration cn_ab ≡ ok tt) ↔ IsSane cn_ab
check_consideration_iff_example = check_consideration_iff cn_ab

count-IsRooted : IsRooted toy_hashing count
unfolding compute_hash_list_root ids_of add_countpoint_to_hash_list_root consideration_id
count-IsRooted = record { rooted = refl; counted = refl }

again-Named : consideration_id toy_hashing.crypto cn_ab_again ≡ ok 9
unfolding consideration_id
again-Named = refl

add_consideration-IsRooted_example :
    (count' : Count) × (add_consideration toy_hashing 9 cn_ab_again count ≡ (ok tt, count'))
    × (count'.considerations ≡ count.considerations ++ cn_ab_again ∷ [])
    × IsRooted toy_hashing count'
add_consideration-IsRooted_example =
    add_consideration-IsRooted toy_hashing 9 cn_ab_again count again-Named (omega (arith))
      count-IsRooted

compare_headers_decides_example :
    ((compare_headers toy_hashing header later_header (pos 5) (pos 5) ≡ ok true)
      × (compare_headers toy_hashing later_header header (pos 5) (pos 5) ≡ ok false))
    ⊎ ((compare_headers toy_hashing header later_header (pos 5) (pos 5) ≡ ok false)
        × (compare_headers toy_hashing later_header header (pos 5) (pos 5) ≡ ok true))
compare_headers_decides_example =
    compare_headers_decides toy_hashing header later_header 21 22 (pos 5) (pos 5) refl refl
      (ground arith)

first_better : compare_headers toy_hashing header later_header (pos 4) (pos 5) ≡ ok true
unfolding compare_headers
first_better = refl

second_better : compare_headers toy_hashing later_header last_header (pos 5) (pos 5) ≡ ok true
unfolding compare_headers compare_ids
second_better = refl

compare_headers_trans_example :
    compare_headers toy_hashing header last_header (pos 4) (pos 5) ≡ ok true
compare_headers_trans_example =
    compare_headers_trans toy_hashing header later_header last_header (pos 4) (pos 5) (pos 5)
      first_better second_better

work_of_first : compute_point_work initial_target 7 ≡ ok 4295032840
unfolding compute_point_work compute_count_work set_big_int
work_of_first = refl

compute_max_considerations_per_count_bounds_example :
    (m : ℕ) × (compute_max_considerations_per_count 1852031 ≡ ok m)
    × (initial_max_considerations_per_count ≤ m)
    × (m ≤ max_considerations_per_count)
compute_max_considerations_per_count_bounds_example =
    compute_max_considerations_per_count_bounds 1852031

half_grown : compute_max_considerations_per_count 52500 ≡ ok 15000
unfolding compute_max_considerations_per_count
half_grown = refl

doubled : compute_max_considerations_per_count 105000 ≡ ok 20000
unfolding compute_max_considerations_per_count
doubled = refl

compute_max_considerations_per_count_mono_example : 15000 ≤ 20000
compute_max_considerations_per_count_mono_example =
    compute_max_considerations_per_count_mono 52500 105000 15000 20000 (omega (arith)) half_grown
      doubled
