-- ===== src/Ledger/Keys/Decoded.antt =====
-- The decoders of ledger_disk.go read back what its encoders wrote.
use mathlib.Core.List.{append-nil}
use focal_point.Prelude.{
  ◌≡◌, refl, sym, ap, ◌∙◌, some, [], ◌∷◌, ◌++◌, Bytes, ℤ, arith, ◌<◌, ◌^◌, ok, replicate, length,
}
use focal_point.Binary.{be_bytes, be_int64, be_int32, read_int64, from_be}
use focal_point.Binary.RoundTrip.{
  Fits64, Fits32, wrap64-Fits64, wrap32-Fits32, from_be-be_bytes, length-be_bytes,
  read_int64-be_int64, read_int32-be_int32, read_bytes-append, take-append,
}
use focal_point.Consideration.{public_key_size}
use focal_point.Count.{CountId}
use focal_point.Ledger.Keys.{
  id_bytes, copy_id, encode_point_tip, decode_point_tip, encode_number, decode_number,
  encode_consideration_index, decode_consideration_index, compute_pub_key_consideration_index_key,
  decode_pub_key_consideration_index_key,
}

pub decode_point_tip-encode_point_tip :
    (id : CountId) (height : ℤ)
    → id < 2 ^ 256
    → Fits64 height
    → decode_point_tip (encode_point_tip id height) ≡ ok (id, height)
unfolding decode_point_tip encode_point_tip id_bytes
decode_point_tip-encode_point_tip id height h fits =
    rw (read_bytes-append 32 (be_bytes 32 id) (be_int64 height) (length-be_bytes 32 id)) (
      rw (sym (append-nil (be_int64 height))) (
        rw (read_int64-be_int64 height [])
          (rw (from_be-be_bytes 32 id h) (rw (wrap64-Fits64 height fits) refl))))

pub copy_id-id_bytes : (id : CountId) → id < 2 ^ 256 → copy_id (id_bytes id) ≡ id
unfolding copy_id id_bytes
copy_id-id_bytes id h =
    ap from_be (take-append 32 (be_bytes 32 id) (replicate 32 0) (length-be_bytes 32 id))
    ∙ from_be-be_bytes 32 id h

pub decode_number-encode_number : (n : ℤ) → Fits64 n → decode_number (encode_number n) ≡ n
unfolding decode_number encode_number
decode_number-encode_number n fits = ground (
  arith,
  append-nil (be_int64 n),
  ap read_int64 (append-nil (be_int64 n)),
  read_int64-be_int64 n [],
  wrap64-Fits64 n fits,
)

pub decode_consideration_index-encode_consideration_index :
    (height index : ℤ)
    → Fits64 height
    → Fits32 index
    → decode_consideration_index (encode_consideration_index height index) ≡ ok (height, index)
unfolding decode_consideration_index encode_consideration_index
decode_consideration_index-encode_consideration_index height index fits small =
    rw (sym (append-nil (be_int32 index))) (
      rw (read_int64-be_int64 height (be_int32 index ++ [])) (
        rw (read_int32-be_int32 index [])
          (rw (wrap64-Fits64 height fits) (rw (wrap32-Fits32 index small) refl))))

-- The key under which a party finds a consideration is decoded to that party, height and index, if
-- the party has 32 bytes, the height is an int64 and the index an int32.
pub decode_pub_key_consideration_index_key-compute :
    (key : Bytes) (height index : ℤ)
    → length key ≡ public_key_size
    → Fits64 height
    → Fits32 index
    → decode_pub_key_consideration_index_key
        (compute_pub_key_consideration_index_key (some key) (some height) (some index))
      ≡ ok (key, height, index)
unfolding decode_pub_key_consideration_index_key compute_pub_key_consideration_index_key
decode_pub_key_consideration_index_key-compute key height index size fits small =
    rw (read_bytes-append 1 (b'k' ∷ []) (key ++ (be_int64 height ++ be_int32 index)) refl) (
      rw (read_bytes-append 32 key (be_int64 height ++ be_int32 index) size) (
        rw (read_int64-be_int64 height (be_int32 index)) (
          rw (sym (append-nil (be_int32 index))) (
            rw (read_int32-be_int32 index [])
              (rw (wrap64-Fits64 height fits) (rw (wrap32-Fits32 index small) refl))))))
