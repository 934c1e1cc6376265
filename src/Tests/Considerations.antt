-- ===== src/Tests/Considerations.antt =====
-- The theorems on considerations and their texts at concrete ones.
use focal_point.Prelude.{
  ◌≤◌, ◌<◌, ◌+◌, ◌-◌, ◌*◌, ◌≡◌, refl, ◌⊎◌, panic, length, ◌↔◌, true, false, some, [], ◌∷◌, Bytes,
  pos, ok, arith, replicate, bytes_equal_iff,
}
use focal_point.Consideration.{
  Consideration, is_counter_point, check_consideration_series, new_consideration, consideration_id,
  sign, verify,
}
use focal_point.Consideration.Series.{user_series_window, new_consideration-series_current}
use focal_point.Consideration.Timing.{verify-sign}
use focal_point.Utils.{pad44, contains_byte}
use focal_point.Utils.Pad.{pad44_total}
use focal_point.Tests.Data.{hi, key_a, key_b, cn_ab, countpoint, toy_crypto}

by_a_user : is_counter_point cn_ab ≡ false
unfolding is_counter_point
by_a_user = refl

by_no_user : is_counter_point countpoint ≡ true
unfolding is_counter_point
by_no_user = refl

user_series_window_example :
    (check_consideration_series cn_ab (pos 1500) ≡ true)
    ↔ ((1 ≤ 1) × (1008 * (1 - 1) ≤ 1500) × (1500 < 1008 * (1 + 1)))
user_series_window_example = user_series_window cn_ab 1 1500 refl (omega (arith)) by_a_user

new_consideration-series_current_example :
    check_consideration_series
      (new_consideration (pos 5) (pos 6) (some key_a) (some key_b) (pos 0) (pos 0) (pos 1107) hi)
      (pos 2015)
    ≡ true
new_consideration-series_current_example =
    new_consideration-series_current (pos 5) (pos 6) (pos 0) (pos 0) key_a (some key_b) hi 1107 2015
      (omega (arith)) (omega (arith)) (omega (arith))

abbrev timed : Consideration
timed = record cn_ab { matures = pos 20; expires = pos 30 }

signed : sign toy_crypto key_b cn_ab ≡ ok (record cn_ab { signature = 7 ∷ [] })
unfolding sign consideration_id
signed = refl

verify-sign_example :
    (consideration_id toy_crypto (record cn_ab { signature = 7 ∷ [] })
      ≡ consideration_id toy_crypto cn_ab)
    × (verify toy_crypto (record cn_ab { signature = 7 ∷ [] }) ≡ ok true)
verify-sign_example =
    verify-sign toy_crypto key_b cn_ab (record cn_ab { signature = 7 ∷ [] })
      (λ id. (bytes_equal_iff (id ∷ []) (id ∷ [])).1 refl) refl signed

abbrev unslashed : Bytes
unslashed = replicate 43 b'0'

pad44_total_example :
    ((pad44 unslashed ≡ panic) ↔ ((length unslashed ≡ 43) × (contains_byte b'/' unslashed ≡ false)))
    × ((output : Bytes)
        → pad44 unslashed ≡ ok output
        → ((44 ≤ length unslashed) × (output ≡ unslashed))
          ⊎ ((length unslashed < 44) × (length output ≡ 44)))
pad44_total_example = pad44_total unslashed
