-- ===== src/Consideration.antt =====
-- translation.go: considerations, their identifiers and the heights at which they may be rendered;
-- with `checkConsiderationSeries` of processor.go, which the queue uses too.
pub mod Series
pub mod Timing
use focal_point.Prelude.{
  ℕ, ◌≡◌, Bool, true, false, ◌&&◌, ◌||◌, not, Option, none, some, List, [], ◌∷◌, Bytes, ℤ, pos,
  leb_ℤ, ltb_ℤ, eqb_ℤ, add64, sub64, div_ℤ, Result, ok, panic, ◌>>=◌, bytes_equal, if◌then◌else◌,
  length, ◌==◌,
}
use focal_point.Constants.{counts_until_new_series}

-- A public key is a byte slice that may be nil.
abbrev pub PublicKey : Type 0
PublicKey = Option Bytes

-- A 32-byte SHA3-256 hash, as the number that its bytes spell.
abbrev pub ConsiderationId : Type 0
ConsiderationId = ℕ

-- Times and heights are int64, `nonce` is an int32; a nil signature is the empty one.
pub record Consideration : Type 0 where
  pub time : ℤ
  pub nonce : ℤ
  pub by : PublicKey
  pub for : PublicKey
  pub memo : Bytes
  pub matures : ℤ
  pub expires : ℤ
  pub series : ℤ
  pub signature : Bytes

abbrev pub public_key_size : ℕ
public_key_size = 32

abbrev pub signature_size : ℕ
signature_size = 64

-- golang.org/x/crypto and the JSON text that is hashed: `digest` is SHA3-256 of the marshalled
-- consideration, `verify` and `sign` are those of ed25519.
pub record Crypto : Type 0 where
  pub digest : Consideration → Result ConsiderationId
  pub verify : Bytes → ConsiderationId → Bytes → Bool
  pub sign : Bytes → ConsiderationId → Bytes

-- The bytes of a slice: none for nil.
abbrev pub raw : PublicKey → Bytes
raw none = []
raw (some bytes) = bytes

unfoldable pub is_counter_point : Consideration → Bool
is_counter_point cn = elim cn.by [ none ↦ true | some key ↦ false ]

-- `Consideration.ID`: the signature is never hashed.
unfoldable pub consideration_id : Crypto → Consideration → Result ConsiderationId
consideration_id crypto cn = crypto.digest (record cn { signature = [] })

-- `Consideration.Sign`
unfoldable pub sign : Crypto → Bytes → Consideration → Result Consideration
unfolding consideration_id
sign crypto priv_key cn = do
  id ← consideration_id crypto cn
  ok (record cn { signature = crypto.sign priv_key id })

-- `Consideration.Verify`. `ed25519.Verify` panics on a key of another length.
unfoldable pub verify : Crypto → Consideration → Result Bool
unfolding consideration_id
verify crypto cn = do
  id ← consideration_id crypto cn
  if length (raw cn.by) == public_key_size
      then ok (crypto.verify (raw cn.by) id cn.signature)
      else panic

-- `Consideration.Contains`
unfoldable pub contains : Consideration → PublicKey → Bool
unfolding is_counter_point
contains cn pub_key =
    if not (is_counter_point cn) && bytes_equal (raw pub_key) (raw cn.by)
    then true
    else bytes_equal (raw pub_key) (raw cn.for)

unfoldable pub is_mature : Consideration → ℤ → Bool
is_mature cn height = if eqb_ℤ cn.matures (pos 0) then true else leb_ℤ height cn.matures

unfoldable pub is_expired : Consideration → ℤ → Bool
is_expired cn height = if eqb_ℤ cn.expires (pos 0) then false else ltb_ℤ cn.expires height

unfoldable pub compute_consideration_series : Bool → ℤ → ℤ
compute_consideration_series is_countpoint height =
    if is_countpoint
    then add64 (div_ℤ height counts_until_new_series) (pos 1)
    else add64 (div_ℤ (sub64 height (pos 100)) counts_until_new_series) (pos 1)

-- The clock and the random nonce are arguments.
unfoldable pub new_consideration :
    (now nonce : ℤ) (by for : PublicKey) (matures expires height : ℤ) → Bytes → Consideration
unfolding compute_consideration_series
new_consideration now nonce by for matures expires height memo = record {
  time = now;
  nonce = nonce;
  by = by;
  for = for;
  memo = memo;
  matures = matures;
  expires = expires;
  series = compute_consideration_series (elim by [ none ↦ true | some key ↦ false ]) height;
  signature = [];
}

-- The lowest series that a user's consideration may have: one before the current, but at least 1.
unfoldable pub lowest_series : ℤ → ℤ
lowest_series high = let low = sub64 high (pos 1) in if eqb_ℤ low (pos 0) then pos 1 else low

unfoldable pub check_consideration_series : Consideration → ℤ → Bool
unfolding is_counter_point lowest_series
check_consideration_series cn height =
    let high = add64 (div_ℤ height counts_until_new_series) (pos 1) in
    if is_counter_point cn
    then eqb_ℤ cn.series high
    else leb_ℤ (lowest_series high) cn.series && leb_ℤ cn.series high
