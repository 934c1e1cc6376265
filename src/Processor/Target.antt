-- ===== src/Processor/Target.antt =====
-- The target that a count must declare: computeTarget and its two rules in processor.go.
use focal_point.Prelude.{
  ℕ, zero, suc, ◌+◌, ◌-◌, ◌*◌, ◌/◌, ◌%◌, ◌^◌, not, Option, none, some, ℤ, pos, negsuc, pos_part,
  neg_part, sub_ℕ, sub64, add64, ltb_ℤ, leb_ℤ, Result, ok, panic, ◌>>=◌, ltb, ◌==◌, if◌then◌else◌,
}
use focal_point.Constants.{
  initial_target, retarget_interval, retarget_time, target_spacing, retarget_sma_window,
  bitcoin_cash_retarget_algorithm_height,
}
use focal_point.Count.{CountId, CountHeader, set_big_int}

-- What the retargeting asks of the count storage and the ledger; nil is none.
pub record History : Type 0 where
  pub get_count_header : CountId → Result (Option (CountHeader × ℤ))
  pub get_count_id_for_height : ℤ → Result (Option CountId)

-- A time span kept between two bounds.
unfoldable pub clamp : ℕ → ℕ → ℤ → ℕ
clamp low high span =
    if ltb_ℤ span (pos low) then low else if ltb_ℤ (pos high) span then high else pos_part span

-- The target as 32 bytes, the initial target at most.
unfoldable pub capped : ℕ → Result CountId
unfolding set_big_int
capped target = if ltb initial_target target then set_big_int initial_target else set_big_int target

-- `computeTargetBitcoin` from the first header of the interval on.
unfoldable pub scale_target : CountHeader → CountHeader → Result CountId
unfolding clamp capped
scale_target prev first =
    let span = clamp (retarget_time / 4) (retarget_time * 4) (sub64 prev.time first.time) in
    capped (prev.target * span / retarget_time)

-- big.Int's Div by a positive number: it rounds down.
abbrev pub div_down : ℤ → ℕ → ℤ
div_down (pos n) d = pos (n / d)
div_down (negsuc n) d = negsuc (n / d)

-- `2^256 / W - 1`, of which `SetBigInt` keeps the absolute value; a zero divisor is a panic.
unfoldable pub target_of_work : ℤ → Result CountId
unfolding capped set_big_int
target_of_work (pos zero) = panic
target_of_work (pos (suc w)) =
    let quotient = 2 ^ 256 / suc w in if quotient == 0 then set_big_int 1 else capped (quotient - 1)
target_of_work (negsuc w) = set_big_int (2 ^ 256 / suc w + 1)

abbrev pub scale_work : ℤ → ℕ → ℤ
scale_work (pos n) k = pos (n * k)
scale_work (negsuc n) k = sub_ℕ 0 (suc n * k)

-- `computeTargetBitcoinCash` from the header before the window on.
unfoldable pub average_target : CountHeader → CountHeader → Result CountId
unfolding clamp target_of_work
average_target prev first =
    let work = scale_work (sub_ℕ prev.point_work first.point_work) target_spacing in
    let span =
      clamp (retarget_sma_window / 2 * target_spacing) (2 * retarget_sma_window * target_spacing)
        (sub64 prev.time first.time) in
    target_of_work (div_down work span)

module _ (history : History) where
  open history use {get_count_header, get_count_id_for_height}

  -- The loop back through `Previous`; a header that is not there is dereferenced.
  unfoldable pub walk_back : ℕ → CountHeader → Result CountHeader
  walk_back zero header = ok header
  walk_back (suc n) header = do
    found ← get_count_header header.previous
    elim found [ none ↦ panic | some (previous, _) ↦ walk_back n previous ]

  unfoldable pub compute_target_bitcoin : CountHeader → Result CountId
  unfolding walk_back scale_target
  compute_target_bitcoin prev =
      let height = add64 prev.height (pos 1) in
      if not ((pos_part height + neg_part height) % retarget_interval == 0)
      then ok prev.target
      else let counts_to_go_back =
          if not (pos_part height == retarget_interval)
          then retarget_interval
          else retarget_interval - 1 in
        walk_back counts_to_go_back prev >>= λ first. scale_target prev first

  unfoldable pub compute_target_bitcoin_cash : CountHeader → Result CountId
  unfolding average_target
  compute_target_bitcoin_cash prev = do
    first_id ← get_count_id_for_height (sub64 prev.height (pos retarget_sma_window))
    elim first_id [
      | none ↦ panic
      | some id ↦ do
        found ← get_count_header id
        elim found [ none ↦ panic | some (first, _) ↦ average_target prev first ]
    ]

  unfoldable pub compute_target : CountHeader → Result CountId
  unfolding compute_target_bitcoin compute_target_bitcoin_cash
  compute_target prev =
      if leb_ℤ (pos bitcoin_cash_retarget_algorithm_height) prev.height
      then compute_target_bitcoin_cash prev
      else compute_target_bitcoin prev
