-- ===== src/Consideration/Timing.antt =====
-- The maturity and expiration tests of translation.go, and its signing.
use focal_point.Prelude.{◌≡◌, ◌↔◌, ◌⊎◌, true, false, arith, ℤ, pos, ◌≤ℤ◌, Bytes, ok, length}
use focal_point.Consideration.{
  Consideration, ConsiderationId, Crypto, is_mature, is_expired, sign, verify, consideration_id,
  raw, public_key_size,
}

-- A consideration passes both tests at a height exactly when that height is at most `matures` (if
-- that is set, i.e. not 0) and at most `expires` (if that is set). So a maturity, too, is an upper
-- bound on the height.
pub renderable_window :
    (cn : Consideration) (height : ℤ)
    → ((is_mature cn height ≡ true) × (is_expired cn height ≡ false)) ↔ (
        ((cn.matures ≡ pos 0) ⊎ (height ≤ℤ cn.matures))
        × ((cn.expires ≡ pos 0) ⊎ (height ≤ℤ cn.expires)))
unfolding is_mature is_expired
renderable_window cn height = ground arith

-- Signing keeps the identifier, and what was signed with the key that belongs to a 32-byte sender
-- verifies, if `verify` accepts what `sign` makes with that key.
pub verify-sign :
    (crypto : Crypto) (priv_key : Bytes) (cn signed : Consideration)
    → ((id : ConsiderationId) → crypto.verify (raw cn.by) id (crypto.sign priv_key id) ≡ true)
    → length (raw cn.by) ≡ public_key_size
    → sign crypto priv_key cn ≡ ok signed
    → (consideration_id crypto signed ≡ consideration_id crypto cn)
      × (verify crypto signed ≡ ok true)
unfolding sign verify consideration_id
verify-sign crypto priv_key cn signed law size h = grind arith
