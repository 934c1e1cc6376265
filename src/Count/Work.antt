-- ===== src/Count/Work.antt =====
-- The work of counts: a lower target stands for more of it, and it adds up along the point.
use focal_point.Prelude.{ℕ, ◌+◌, ◌/◌, ◌^◌, ◌≤◌, ◌<◌, ◌≡◌, ok, arith}
use focal_point.Count.{CountId, compute_count_work, compute_point_work}

quotient_mono : (m a b : ℕ) → 0 < a → a ≤ b → m / b ≤ m / a
quotient_mono m a b pos le = grind arith

quotient_pos : (m a : ℕ) → 0 < a → a ≤ m → 0 < m / a
quotient_pos m a pos le = grind arith

-- Of two targets above zero the lower one stands for at least as much work as the higher.
pub compute_count_work_anti :
    (low high : CountId) → 0 < low → low ≤ high → compute_count_work high ≤ compute_count_work low
unfolding compute_count_work
compute_count_work_anti low high pos le =
    ground (arith, quotient_mono (2 ^ 256) (low + 1) (high + 1))

-- The work of a point grows strictly with each count that is added to it, for every target that is
-- neither zero nor above 256 bits, whenever `computePointWork` returns.
pub compute_point_work_grows :
    (target before after : CountId)
    → 0 < target
    → target < 2 ^ 256
    → compute_point_work target before ≡ ok after
    → before < after
unfolding compute_point_work
compute_point_work_grows target before after pos bound h =
    ground (arith, quotient_pos (2 ^ 256) (target + 1))
