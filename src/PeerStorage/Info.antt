-- ===== src/PeerStorage/Info.antt =====
-- What peer_storage_disk.go stores of a peer, the keys under which it does, and when a peer is tried
-- again or deleted.
use focal_point.Prelude.{
  ℕ, zero, suc, ◌*◌, ◌^◌, Bool, true, false, ◌&&◌, ◌||◌, ◌∷◌, ◌++◌, Bytes, ℤ, pos, pos_part, sub64,
  div_ℤ, ltb_ℤ, leb_ℤ, eqb_ℤ, leb, ltb, ◌-ℤ◌, Result, ◌>>=◌, if◌then◌else◌,
}
use focal_point.Binary.{be_int64, read_bytes, read_int64}

pub record PeerInfo : Type 0 where
  pub first_seen : ℤ
  pub last_attempt : ℤ
  pub last_success : ℤ

-- encoding/gob, on values of this type.
pub record Gob : Type 0 where
  pub encode : PeerInfo → Result Bytes
  pub decode : Bytes → Result PeerInfo

-- `time.Now()`: the seconds of its Unix time and the nanoseconds after them.
pub record Instant : Type 0 where
  pub seconds : ℤ
  pub nanoseconds : ℕ

abbrev pub peer_prefix : ℕ
peer_prefix = b'p'

abbrev pub peer_last_attempt_time_prefix : ℕ
peer_last_attempt_time_prefix = b'a'

abbrev pub peer_last_success_time_prefix : ℕ
peer_last_success_time_prefix = b's'

unfoldable pub compute_peer_key : Bytes → Bytes
compute_peer_key addr = peer_prefix ∷ addr

unfoldable pub compute_last_attempt_time_key : ℤ → Bytes → Bytes
compute_last_attempt_time_key time addr = peer_last_attempt_time_prefix ∷ (be_int64 time ++ addr)

unfoldable pub compute_last_success_time_key : ℤ → Bytes → Bytes
compute_last_success_time_key time addr = peer_last_success_time_prefix ∷ (be_int64 time ++ addr)

-- `decodeLastAttemptTimeKey` and `decodeLastSuccessTimeKey`, whose bodies are the same.
unfoldable pub decode_time_key : Bytes → Result (ℤ × Bytes)
decode_time_key key = do (prefix, key) ← read_bytes 1 key; read_int64 key

-- The least r from here on with n ≤ r * r; fuel n is enough from 0.
unfoldable pub root_from : ℕ → ℕ → ℕ → ℕ
root_from zero n r = r
root_from (suc fuel) n r = elim (leb n (r * r)) [ true ↦ r | false ↦ root_from fuel n (suc r) ]

-- `int64(math.Ceil(math.Sqrt(float64(n))))`, exact for n below 2 ^ 53, as hours are.
unfoldable pub ceil_sqrt : ℕ → ℕ
ceil_sqrt n = root_from n n 0

unfoldable pub last_seen : PeerInfo → ℤ
last_seen p = if eqb_ℤ p.last_success (pos 0) then p.first_seen else p.last_success

unfoldable pub should_retry : ℤ → PeerInfo → Bool
should_retry now p =
    let hours_since_last_seen = div_ℤ (sub64 now (last_seen p)) (60 * 60) in
    let minutes_since_last_attempt = div_ℤ (sub64 now p.last_attempt) 60 in
    let hours_since_last_attempt = div_ℤ minutes_since_last_attempt 60 in
    if ltb_ℤ p.last_attempt (pos (2 ^ 30))
    then true
    else if leb_ℤ hours_since_last_seen (pos 0)
    then ltb_ℤ (pos 10) minutes_since_last_attempt
    else ltb_ℤ (pos (ceil_sqrt (pos_part hours_since_last_seen))) hours_since_last_attempt

abbrev pub week : ℤ
week = pos (24 * 7 * 60 * 60)

-- `time.Since` does not wrap around, and it counts nanoseconds.
unfoldable pub should_delete : Instant → PeerInfo → Bool
should_delete now p =
    if eqb_ℤ p.last_success (pos 0)
    then true
    else let since = now.seconds -ℤ p.last_success in
      ltb_ℤ week since || (eqb_ℤ week since && ltb 0 now.nanoseconds)
