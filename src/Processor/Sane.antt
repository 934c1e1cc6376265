-- ===== src/Processor/Sane.antt =====
-- What the context-free checks of processor.go let through.
use focal_point.Prelude.{
  ◌≤◌, ◌≡◌, ◌≢◌, ◌↔◌, true, false, ℤ, pos, ◌≤ℤ◌, arith, ok, length, bytes_equal, bytes_equal_iff,
  nat_eq,
}
use focal_point.Constants.{max_number, max_memo_length}
use focal_point.Consideration.{
  Consideration, is_counter_point, raw, public_key_size, signature_size,
}
use focal_point.Processor.Checks.{
  valid_string, out_of_range, check_kind, check_recipient, check_memo, check_heights,
  check_consideration,
}

abbrev pub InRange : ℤ → Type 0
InRange n = (pos 0 ≤ℤ n) × (n ≤ℤ pos max_number)

pub out_of_range_iff : (n : ℤ) → (out_of_range n ≡ false) ↔ InRange n
unfolding out_of_range
out_of_range_iff n = ground arith

-- A consideration that is sound by itself, said without the order of the checks.
pub record IsSane (cn : Consideration) : Type 0 where
  pub time : InRange cn.time
  pub nonce : pos 0 ≤ℤ cn.nonce
  pub countpoint :
      is_counter_point cn ≡ true
      → (cn.matures ≡ pos 0) × (cn.expires ≡ pos 0) × (length cn.signature ≡ 0)
  pub user :
      is_counter_point cn ≡ false
      → (length (raw cn.by) ≡ public_key_size) × (length cn.signature ≡ signature_size)
  pub recipient : length (raw cn.for) ≡ public_key_size
  pub other : raw cn.by ≢ raw cn.for
  pub memo : (valid_string cn.memo ≡ true) × (length cn.memo ≤ max_memo_length)
  pub matures : InRange cn.matures
  pub expires : InRange cn.expires
  pub series : (pos 1 ≤ℤ cn.series) × (cn.series ≤ℤ pos max_number)

check_parts :
    (cn : Consideration)
    → (check_consideration cn ≡ ok tt) ↔ (
        (out_of_range cn.time ≡ false)
        × (pos 0 ≤ℤ cn.nonce)
        × (check_kind cn ≡ ok tt)
        × (check_recipient cn ≡ ok tt)
        × (bytes_equal (raw cn.by) (raw cn.for) ≡ false)
        × (check_memo cn ≡ ok tt)
        × (check_heights cn ≡ ok tt))
unfolding check_consideration
check_parts cn = ground arith

check_kind_iff :
    (cn : Consideration)
    → (check_kind cn ≡ ok tt) ↔ (
        (is_counter_point cn ≡ true
          → (cn.matures ≤ℤ pos 0) × (cn.expires ≤ℤ pos 0) × (length cn.signature ≡ 0))
        × (is_counter_point cn ≡ false
            → (length (raw cn.by) ≡ public_key_size) × (length cn.signature ≡ signature_size)))
unfolding check_kind
check_kind_iff cn = ground arith

check_recipient_iff :
    (cn : Consideration) → (check_recipient cn ≡ ok tt) ↔ (length (raw cn.for) ≡ public_key_size)
unfolding check_recipient
check_recipient_iff cn = ground arith

check_memo_iff :
    (cn : Consideration)
    → (check_memo cn ≡ ok tt) ↔ ((valid_string cn.memo ≡ true) × (length cn.memo ≤ max_memo_length))
unfolding check_memo
check_memo_iff cn = ground arith

check_heights_iff :
    (cn : Consideration)
    → (check_heights cn ≡ ok tt) ↔ (
        InRange cn.matures
        × InRange cn.expires
        × ((pos 1 ≤ℤ cn.series) × (cn.series ≤ℤ pos max_number)))
unfolding check_heights
check_heights_iff cn = ground (arith, out_of_range_iff cn.matures, out_of_range_iff cn.expires)

-- `checkConsideration` returns no error exactly for the considerations that are sane: time, maturity
-- and expiration in range, the nonce not negative and the series positive, a countpoint without
-- maturity, expiration and signature, any other with a 32-byte sender and a 64-byte signature, a
-- 32-byte recipient other than the sender, and a memo in UTF-8 of at most MAX_MEMO_LENGTH bytes.
pub check_consideration_iff : (cn : Consideration) → (check_consideration cn ≡ ok tt) ↔ IsSane cn
check_consideration_iff cn = (sound, complete)
  where
    sound : check_consideration cn ≡ ok tt → IsSane cn
    sound h =
        let (time, nonce, kind, recipient, other, memo, heights) = (check_parts cn).0 h in
        let (countpoint, user) = (check_kind_iff cn).0 kind in
        let (matures, expires, series) = (check_heights_iff cn).0 heights in
        let (matures_low, _) = matures in
        let (expires_low, _) = expires in
        record {
          time = (out_of_range_iff cn.time).0 time;
          nonce = nonce;
          countpoint = λ e.
              let (m, x, s) = countpoint e in
              (ground (arith, matures_low, m), ground (arith, expires_low, x), s);
          user = user;
          recipient = (check_recipient_iff cn).0 recipient;
          other = λ e. ground (arith, (bytes_equal_iff (raw cn.by) (raw cn.for)).1 e);
          memo = (check_memo_iff cn).0 memo;
          matures = matures;
          expires = expires;
          series = series;
        }

    complete : IsSane cn → check_consideration cn ≡ ok tt
    complete s = (check_parts cn).1 (
      (out_of_range_iff cn.time).1 s.time,
      s.nonce,
      (check_kind_iff cn).1
          (λ e. let (m, x, g) = s.countpoint e in (ground arith, ground arith, g), s.user),
      (check_recipient_iff cn).1 s.recipient,
      ground (arith, (bytes_equal_iff (raw cn.by) (raw cn.for)).0, s.other),
      (check_memo_iff cn).1 s.memo,
      (check_heights_iff cn).1 (s.matures, s.expires, s.series),
    )
