-- ===== src/Processor/Checks.antt =====
-- The context-free checks of processor.go, and CheckpointCheck of checkpoints.go.
use focal_point.Prelude.{
  ℕ, zero, suc, ◌+◌, ◌*◌, ◌/◌, ◌%◌, ◌^◌, Bool, true, false, not, ◌&&◌, ◌||◌, none, some, List, [],
  ◌∷◌, Bytes, ℤ, pos, pos_part, add64, ltb_ℤ, leb_ℤ, eqb_ℤ, Result, ok, err, panic, ◌>>=◌, ◌>>◌,
  fail_if, ltb, leb, ◌==◌, if◌then◌else◌, length, bytes_equal, Map, lookup, insert, nat_eq,
  invalid_time, negative_nonce, countpoint_matures, countpoint_expires, countpoint_signed,
  invalid_sender, invalid_signature, missing_recipient, invalid_recipient, to_self, memo_utf8,
  memo_length, invalid_maturity, invalid_expiration, invalid_series, time_invalid, time_future,
  no_work, nonce_invalid, height_invalid, checkpoint, negative_count, count_mismatch,
  no_considerations, no_countpoint, too_many, many_countpoints, duplicate, root_mismatch,
}
use focal_point.Constants.{
  max_number, max_memo_length, max_future_seconds, initial_max_considerations_per_count,
  counts_until_considerations_per_count_doubling, max_considerations_per_count,
  max_considerations_per_count_exceeded_at_height,
}
use focal_point.Consideration.{
  Consideration, ConsiderationId, is_counter_point, raw, public_key_size, signature_size,
  consideration_id,
}
use focal_point.Count.{Count, CountId, Hashing, check_pow, compute_hash_list_root}

-- The continuation bytes that a leading byte asks for, and the range of the first of them.
pub record Lead : Type 0 where
  pub valid : Bool
  pub needed : ℕ
  pub lowest : ℕ
  pub highest : ℕ

unfoldable pub lead : ℕ → Lead
lead b =
    if ltb b 0x80
    then record { valid = true; needed = 0; lowest = 0; highest = 0 }
    else if ltb b 0xc2
    then record { valid = false; needed = 0; lowest = 0; highest = 0 }
    else if ltb b 0xe0
    then record { valid = true; needed = 1; lowest = 0x80; highest = 0xbf }
    else if b == 0xe0
    then record { valid = true; needed = 2; lowest = 0xa0; highest = 0xbf }
    else if b == 0xed
    then record { valid = true; needed = 2; lowest = 0x80; highest = 0x9f }
    else if ltb b 0xf0
    then record { valid = true; needed = 2; lowest = 0x80; highest = 0xbf }
    else if b == 0xf0
    then record { valid = true; needed = 3; lowest = 0x90; highest = 0xbf }
    else if ltb b 0xf4
    then record { valid = true; needed = 3; lowest = 0x80; highest = 0xbf }
    else if b == 0xf4
    then record { valid = true; needed = 3; lowest = 0x80; highest = 0x8f }
    else record { valid = false; needed = 0; lowest = 0; highest = 0 }

utf8_from : ℕ → ℕ → ℕ → Bytes → Bool
utf8_from needed lowest highest [] = needed == 0
utf8_from zero lowest highest (b ∷ bytes) =
    (lead b).valid && utf8_from (lead b).needed (lead b).lowest (lead b).highest bytes
utf8_from (suc needed) lowest highest (b ∷ bytes) =
    leb lowest b && leb b highest && utf8_from needed 0x80 0xbf bytes

-- `utf8.ValidString`
unfoldable pub valid_string : Bytes → Bool
unfolding utf8_from lead
valid_string bytes = utf8_from 0 0 0 bytes

-- A number outside 0 … MAX_NUMBER.
unfoldable pub out_of_range : ℤ → Bool
out_of_range n = ltb_ℤ n (pos 0) || ltb_ℤ (pos max_number) n

-- What only countpoints, and only the others, must satisfy.
unfoldable pub check_kind : Consideration → Result (Unit {0})
check_kind cn =
    if is_counter_point cn
    then (do
      fail_if (ltb_ℤ (pos 0) cn.matures) countpoint_matures
      fail_if (ltb_ℤ (pos 0) cn.expires) countpoint_expires
      fail_if (not (length cn.signature == 0)) countpoint_signed)
    else (do
      fail_if (not (length (raw cn.by) == public_key_size)) invalid_sender
      fail_if (not (length cn.signature == signature_size)) invalid_signature)

unfoldable pub check_recipient : Consideration → Result (Unit {0})
check_recipient cn = elim cn.for [
  | none ↦ err missing_recipient
  | some for ↦ fail_if (not (length for == public_key_size)) invalid_recipient
]

unfoldable pub check_memo : Consideration → Result (Unit {0})
check_memo cn = do
  fail_if (not (valid_string cn.memo)) memo_utf8
  fail_if (ltb max_memo_length (length cn.memo)) memo_length

unfoldable pub check_heights : Consideration → Result (Unit {0})
check_heights cn = do
  fail_if (out_of_range cn.matures) invalid_maturity
  fail_if (out_of_range cn.expires) invalid_expiration
  fail_if (leb_ℤ cn.series (pos 0) || ltb_ℤ (pos max_number) cn.series) invalid_series

-- `checkConsideration`
unfoldable pub check_consideration : Consideration → Result (Unit {0})
check_consideration cn = do
  fail_if (out_of_range cn.time) invalid_time
  fail_if (ltb_ℤ cn.nonce (pos 0)) negative_nonce
  check_kind cn
  check_recipient cn
  fail_if (bytes_equal (raw cn.by) (raw cn.for)) to_self
  check_memo cn
  check_heights cn

-- `CheckpointsEnabled` and `Checkpoints`, whose texts stand for the identifiers that they spell.
abbrev pub checkpoints_enabled : Bool
checkpoints_enabled = false

abbrev pub checkpoints : Map ℕ CountId
checkpoints = []

-- `CheckpointCheck`
unfoldable pub checkpoint_check : CountId → ℕ → Result (Unit {0})
checkpoint_check id height =
    if not checkpoints_enabled then ok tt else elim (lookup height checkpoints) [
      | none ↦ ok tt
      | some checkpoint_id ↦ fail_if (not (id == checkpoint_id)) checkpoint
    ]

-- `computeMaxConsiderationsPerCount`, at the heights from 0 on that `checkCount` lets through. No
-- product reaches 2 ^ 63 below the height where the growth ends.
unfoldable pub compute_max_considerations_per_count : ℕ → Result ℕ
compute_max_considerations_per_count height =
    if leb max_considerations_per_count_exceeded_at_height height
    then ok max_considerations_per_count
    else let doublings = height / counts_until_considerations_per_count_doubling in
      let remainder = height % counts_until_considerations_per_count_doubling in
      let full = initial_max_considerations_per_count * 2 ^ doublings in
      if leb 64 doublings
      then panic
      else ok (full + full * remainder / counts_until_considerations_per_count_doubling)

unfoldable pub any_countpoint : List Consideration → Bool
any_countpoint [] = false
any_countpoint (cn ∷ cns) = is_counter_point cn || any_countpoint cns

module _ (hashing : Hashing) where
  open hashing use {crypto}

  -- The loop over the considerations: each is checked, and its identifier marked.
  unfoldable pub check_all :
      List Consideration → Map ConsiderationId Bool → Result (Map ConsiderationId Bool)
  check_all [] cn_ids = ok cn_ids
  check_all (cn ∷ cns) cn_ids = do
    id ← consideration_id crypto cn
    check_consideration cn
    check_all cns (insert id true cn_ids)

  unfoldable pub check_header : CountId → Count → ℤ → Result (Unit {0})
  check_header id count now = do
    fail_if (out_of_range count.header.time) time_invalid
    fail_if (ltb_ℤ (add64 now (pos max_future_seconds)) count.header.time) time_future
    fail_if (not (check_pow count id)) no_work
    fail_if (out_of_range count.header.nonce) nonce_invalid
    fail_if (out_of_range count.header.height) height_invalid
    checkpoint_check id (pos_part count.header.height)

  -- A countpoint comes first, and no other does; the height bounds their number.
  unfoldable pub check_kinds : ℤ → List Consideration → Result (Unit {0})
  check_kinds height [] = err no_considerations
  check_kinds height (countpoint ∷ rest) = do
    fail_if (not (is_counter_point countpoint)) no_countpoint
    max ← compute_max_considerations_per_count (pos_part height)
    fail_if (ltb max (length (countpoint ∷ rest))) too_many
    fail_if (any_countpoint rest) many_countpoints

  unfoldable pub check_shape : Count → Result (Unit {0})
  check_shape count = do
    fail_if (ltb_ℤ count.header.consideration_count (pos 0)) negative_count
    fail_if (not (eqb_ℤ count.header.consideration_count (pos (length count.considerations))))
        count_mismatch
    check_kinds count.header.height count.considerations

  unfoldable pub check_contents : Count → Result (Unit {0})
  check_contents count = do
    cn_ids ← check_all count.considerations []
    fail_if (not (length cn_ids == length count.considerations)) duplicate
    (root, _) ← compute_hash_list_root hashing [] count.considerations
    fail_if (not (root == count.header.hash_list_root)) root_mismatch

  -- `checkCount`
  unfoldable pub check_count : CountId → Count → ℤ → Result (Unit {0})
  check_count id count now = do check_header id count now; check_shape count; check_contents count
