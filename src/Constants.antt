-- ===== src/Constants.antt =====
-- constants.go: the values that the modelled code reads.
use focal_point.Prelude.{ℕ, ◌-◌, ◌*◌, ◌^◌}

abbrev pub counterpoint_maturity : ℕ
counterpoint_maturity = 100

-- "00000000ffff0000…", 64 hexadecimal digits.
abbrev pub initial_target : ℕ
initial_target = 0xffff * 2 ^ 208

abbrev pub max_future_seconds : ℕ
max_future_seconds = 2 * 60 * 60

abbrev pub retarget_interval : ℕ
retarget_interval = 2016

abbrev pub retarget_time : ℕ
retarget_time = 1209600

abbrev pub target_spacing : ℕ
target_spacing = 600

abbrev pub num_counts_for_median_timestamp : ℕ
num_counts_for_median_timestamp = 11

abbrev pub retarget_sma_window : ℕ
retarget_sma_window = 144

abbrev pub initial_max_considerations_per_count : ℕ
initial_max_considerations_per_count = 10000

abbrev pub counts_until_considerations_per_count_doubling : ℕ
counts_until_considerations_per_count_doubling = 105000

abbrev pub max_considerations_per_count : ℕ
max_considerations_per_count = 2 ^ 31 - 1

abbrev pub max_considerations_per_count_exceeded_at_height : ℕ
max_considerations_per_count_exceeded_at_height = 1852032

abbrev pub counts_until_new_series : ℕ
counts_until_new_series = 1008

abbrev pub max_memo_length : ℕ
max_memo_length = 150

abbrev pub max_number : ℕ
max_number = 2 ^ 53 - 1

abbrev pub bitcoin_cash_retarget_algorithm_height : ℕ
bitcoin_cash_retarget_algorithm_height = 28861

abbrev pub max_considerations_to_include_per_count : ℕ
max_considerations_to_include_per_count = initial_max_considerations_per_count

abbrev pub max_consideration_queue_length : ℕ
max_consideration_queue_length = max_considerations_to_include_per_count * 10
