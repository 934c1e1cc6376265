-- ===== src/Tests/Headers.antt =====
-- The header hasher of stage_header_hasher.go over three attempts.
use focal_point.Prelude.{ℕ, ◌+◌, ◌^◌, ◌≡◌, [], ◌∷◌, Bytes, List, pos, ok, map, arith, ◌<◌}
use focal_point.HeaderHasher.{new_count_header_hasher}
use focal_point.HeaderHasher.Update.{Attempt, attempted, header_text}
use focal_point.HeaderHasher.Attempts.{IsInRange, update_all, update_all-marshalled}
use focal_point.Tests.Data.{header}

abbrev first : Attempt
first = record { hash_list_root = 7; time = pos 999; nonce = pos 10; consideration_count = pos 1 }

-- The time has one digit more and the nonce one less.
abbrev second : Attempt
second = record { hash_list_root = 7; time = pos 1000; nonce = pos 9; consideration_count = pos 1 }

abbrev third : Attempt
third = record { hash_list_root = 8; time = pos 1000; nonce = pos 10; consideration_count = pos 12 }

abbrev attempts : List Attempt
attempts = first ∷ second ∷ third ∷ []

abbrev sum : Bytes → ℕ
sum [] = 0
sum (b ∷ bytes) = b + sum bytes

in_range :
    (root time nonce count : ℕ)
    → time < 2 ^ 63
    → nonce < 2 ^ 63
    → count < 2 ^ 31
    → IsInRange (
        attempted header (record {
          hash_list_root = root;
          time = pos time;
          nonce = pos nonce;
          consideration_count = pos count;
        }))
in_range root time nonce count t n c = record {
  time = (omega arith, omega arith);
  nonce = (omega arith, omega arith);
  height = (omega arith, omega arith);
  count = (omega arith, omega arith);
}

update_all-marshalled_example :
    update_all sum header attempts new_count_header_hasher
    ≡ ok (map (λ a. sum (header_text (attempted header a))) attempts)
update_all-marshalled_example = update_all-marshalled sum header attempts (
  in_range 7 999 10 1 (omega arith) (omega arith) (omega arith),
  (
    in_range 7 1000 9 1 (omega arith) (omega arith) (omega arith),
    (in_range 8 1000 10 12 (omega arith) (omega arith) (omega arith), tt),
  ),
)
