-- ===== src/Processor/Context.antt =====
-- The checks of acceptCount and processConsideration in processor.go that read the state.
pub mod Passes
use focal_point.Prelude.{
  ℕ, ◌+◌, ◌≡◌, Bool, true, false, not, ◌&&◌, Option, none, some, List, [], ◌∷◌, ◌++◌, Bytes, ℤ, pos,
  pos_part, add64, leb_ℤ, eqb_ℤ, leb, ◌==◌, if◌then◌else◌, Result, ok, err, panic, ◌>>=◌, ◌>>◌,
  Action, ◌>>>◌, fail_if, loose_countpoint, queue_full, already_confirmed, no_tip,
  series_not_current, immature, expired, signature_failed, orphan_count, height_mismatch,
  target_mismatch, work_mismatch, time_early, not_found,
}
use focal_point.Constants.{max_consideration_queue_length}
use focal_point.Consideration.{
  Consideration, ConsiderationId, Crypto, consideration_id, is_counter_point, is_mature, is_expired,
  verify, check_consideration_series,
}
use focal_point.Count.{Count, CountId, CountHeader, compute_point_work, compare_headers}
use focal_point.ConsiderationQueue.{Queue, exists_signed, add, add_batch, remove_batch, len}
use focal_point.Processor.Checks.{check_consideration, check_count}
use focal_point.Processor.Target.{History, compute_target}
use focal_point.Processor.Median.{compute_median_timestamp}
use focal_point.Processor.Fork.{Fork, find_fork}
use focal_point.Processor.Node.{
  Processor, World, NewTx, TipChange, BranchType, main, side, orphan, unknown, history, reading,
  on_backend, on_queue,
}

abbrev pub is_unknown : BranchType → Bool
is_unknown unknown = true
is_unknown _ = false

abbrev pub is_placed : BranchType → Bool
is_placed main = true
is_placed side = true
is_placed _ = false

-- What the height of a count and the signature ask of one of its considerations.
unfoldable pub check_in_count : Crypto → Queue → ℤ → Consideration → Result (Unit {0})
check_in_count crypto queue height cn = do
  id ← consideration_id crypto cn
  fail_if (not (check_consideration_series cn height)) series_not_current
  if is_counter_point cn then ok tt else do
    fail_if (not (is_mature cn height)) immature
    fail_if (is_expired cn height) expired
    if exists_signed id cn.signature queue
        then ok tt
        else do valid ← verify crypto cn; fail_if (not valid) signature_failed

unfoldable pub check_all_in_count : Crypto → Queue → ℤ → List Consideration → Result (Unit {0})
unfolding check_in_count
check_all_in_count crypto queue height [] = ok tt
check_all_in_count crypto queue height (cn ∷ cns) = do
  check_in_count crypto queue height cn
  check_all_in_count crypto queue height cns

-- The checks of `acceptCount` from the target on.
unfoldable pub check_extends : Crypto → History → Queue → Count → CountHeader → Result (Unit {0})
unfolding check_all_in_count
check_extends crypto history queue count prev = do
  target ← compute_target history prev
  fail_if (not (count.header.target == target)) target_mismatch
  work ← compute_point_work count.header.target prev.point_work
  fail_if (not (count.header.point_work == work)) work_mismatch
  median ← compute_median_timestamp history prev
  fail_if (leb_ℤ count.header.time median) time_early
  check_all_in_count crypto queue count.header.height count.considerations

-- A nil identifier says that the consideration is in no confirmed count.
unfoldable pub check_unconfirmed : Option (CountId × ℤ) → Result (Unit {0})
check_unconfirmed none = ok tt
check_unconfirmed (some index) = err already_confirmed

-- The tests at the height after the tip's.
unfoldable pub check_next : Consideration → Option (CountId × ℤ) → Result (Unit {0})
check_next cn none = err no_tip
check_next cn (some (tip_id, tip_height)) = do
  fail_if (not (check_consideration_series cn (add64 tip_height (pos 1)))) series_not_current
  fail_if (not (is_mature cn (add64 tip_height (pos 1)))) immature
  fail_if (is_expired cn (add64 tip_height (pos 1))) expired
