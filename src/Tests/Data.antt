-- ===== src/Tests/Data.antt =====
-- Test data: keys, considerations and counts, with hashes that are easy to compute.
use focal_point.Prelude.{
  ℕ, ◌+◌, ◌^◌, none, some, List, [], ◌∷◌, Bytes, ℤ, pos, pos_part, Result, ok, replicate,
  bytes_equal,
}
use focal_point.Consideration.{Consideration, Crypto, PublicKey}
use focal_point.Count.{Count, CountHeader, Hashing}
use focal_point.Constants.{initial_target}

abbrev pub key_a : Bytes
key_a = replicate 32 1

abbrev pub key_b : Bytes
key_b = replicate 32 2

abbrev pub hi : Bytes
hi = b'h' ∷ b'i' ∷ []

-- A consideration from `key_a` to `key_b`.
abbrev pub cn_ab : Consideration
cn_ab = record {
  time = pos 1000;
  nonce = pos 7;
  by = some key_a;
  for = some key_b;
  memo = hi;
  matures = pos 0;
  expires = pos 0;
  series = pos 1;
  signature = replicate 64 5;
}

abbrev pub cn_ab_again : Consideration
cn_ab_again = record cn_ab { nonce = pos 9 }

abbrev pub countpoint : Consideration
countpoint = record {
  time = pos 1000;
  nonce = pos 3;
  by = none;
  for = some key_b;
  memo = [];
  matures = pos 0;
  expires = pos 0;
  series = pos 1;
  signature = [];
}

-- The nonce is the identifier, and an identifier its own signature.
abbrev pub toy_crypto : Crypto
toy_crypto = record {
  digest = λ cn. ok (pos_part cn.nonce);
  verify = λ key id signature. bytes_equal signature (id ∷ []);
  sign = λ key id. id ∷ [];
}

abbrev sum : List ℕ → ℕ
sum [] = 0
sum (n ∷ ns) = n + sum ns

abbrev pub toy_hashing : Hashing
toy_hashing = record {
  crypto = toy_crypto;
  header_digest = λ header. ok (pos_part header.nonce);
  hash_ids = sum;
}

abbrev pub header : CountHeader
header = record {
  previous = 0;
  hash_list_root = 10;
  time = pos 1000;
  target = initial_target;
  point_work = 2 ^ 32 + 65537;
  nonce = pos 21;
  height = pos 1;
  consideration_count = pos 2;
}

abbrev pub later_header : CountHeader
later_header = record header { nonce = pos 22 }

abbrev pub last_header : CountHeader
last_header = record header { nonce = pos 23 }

abbrev pub count : Count
count = record { header = header; considerations = countpoint ∷ cn_ab ∷ []; hasher = 7 ∷ [] }

-- A ledger in which every key has five.
abbrev pub even_ledger : PublicKey → Result ℤ
even_ledger key = ok (pos 5)

abbrev pub peer_a : Bytes
peer_a = b'a' ∷ []
