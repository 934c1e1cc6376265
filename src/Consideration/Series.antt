-- ===== src/Consideration/Series.antt =====
-- The series numbers of translation.go and processor.go as windows of heights.
use focal_point.Prelude.{
  ℕ, ◌+◌, ◌*◌, ◌^◌, ◌≤◌, ◌<◌, ◌-◌, ◌≡◌, ◌↔◌, true, false, some, Bytes, arith, ℤ, pos, add64, sub64,
  wrap64, ◌+ℤ◌, ◌-ℤ◌,
}
use focal_point.Consideration.{
  Consideration, PublicKey, is_counter_point, check_consideration_series, new_consideration,
}

module _ (cn : Consideration) (s g : ℕ) (numbered : cn.series ≡ pos s) (bound : g < 2 ^ 63) where
  -- A user's consideration in series s passes the series test at a height g below 2^63 exactly when
  -- s is positive and g is one of the 2016 heights from 1008 * (s - 1) up to 1008 * (s + 1) - 1: the
  -- 1008 heights of its own series and the 1008 after them.
  pub user_series_window :
      is_counter_point cn ≡ false
      → (check_consideration_series cn (pos g) ≡ true)
        ↔ ((1 ≤ s) × (1008 * (s - 1) ≤ g) × (g < 1008 * (s + 1)))
  unfolding check_consideration_series add64 sub64 wrap64 ◌+ℤ◌ ◌-ℤ◌
  user_series_window user = ground arith

  -- A countpoint in series s passes the series test at a height g below 2^63 exactly when s is
  -- positive and g is one of the 1008 heights from 1008 * (s - 1) up to 1008 * s - 1.
  pub countpoint_series_window :
      is_counter_point cn ≡ true
      → (check_consideration_series cn (pos g) ≡ true)
        ↔ ((1 ≤ s) × (1008 * (s - 1) ≤ g) × (g < 1008 * s))
  unfolding check_consideration_series add64 wrap64 ◌+ℤ◌
  countpoint_series_window countpoint = ground arith

-- A user's consideration made by `NewConsideration` for the height h passes the series test at h and
-- at each of the 908 heights after it, if they are below 2^63.
pub new_consideration-series_current :
    (now nonce matures expires : ℤ) (key : Bytes) (for : PublicKey) (memo : Bytes) (h g : ℕ)
    → h ≤ g
    → g ≤ h + 908
    → g < 2 ^ 63
    → check_consideration_series
        (new_consideration now nonce (some key) for matures expires (pos h) memo)
        (pos g)
      ≡ true
unfolding check_consideration_series new_consideration add64 sub64 wrap64 ◌+ℤ◌ ◌-ℤ◌
new_consideration-series_current now nonce matures expires key for memo h g le late bound =
    ground arith
