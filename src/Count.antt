-- ===== src/Count.antt =====
-- stage.go: counts, their headers and the work that they stand for.
pub mod Work
pub mod Better
pub mod Root
use focal_point.Prelude.{
  ℕ, zero, suc, ◌+◌, ◌-◌, ◌/◌, ◌^◌, ◌≡◌, Bool, true, false, Option, none, some, List, [], ◌∷◌, ◌++◌,
  ℤ, pos, wrap32, ◌+ℤ◌, ltb_ℤ, Result, ok, err, panic, ◌>>=◌, Action, ◌>>>◌, ltb, leb,
  if◌then◌else◌, length, Error, too_many,
}
use focal_point.Constants.{max_considerations_per_count}
use focal_point.Consideration.{Consideration, ConsiderationId, Crypto, consideration_id}

-- A 32-byte SHA3-256 hash, target or amount of work, as the number that `GetBigInt` reads from it.
abbrev pub CountId : Type 0
CountId = ℕ

pub record CountHeader : Type 0 where
  pub previous : CountId
  pub hash_list_root : ConsiderationId
  pub time : ℤ
  pub target : CountId
  pub point_work : CountId
  pub nonce : ℤ
  pub height : ℤ
  pub consideration_count : ℤ

-- `hasher` holds what was written to the running SHA3-256 state, in order.
pub record Count : Type 0 where
  pub header : CountHeader
  pub considerations : List Consideration
  pub hasher : List ConsiderationId

-- The hashes of the program: `header_digest` is SHA3-256 of a marshalled header, `hash_ids` that of
-- 32-byte values one after the other.
pub record Hashing : Type 0 where
  pub crypto : Crypto
  pub header_digest : CountHeader → Result CountId
  pub hash_ids : List ℕ → ℕ

-- `SetBigInt`: more than 32 bytes are a panic.
unfoldable pub set_big_int : ℕ → Result CountId
set_big_int i = if ltb i (2 ^ 256) then ok i else panic

-- `CheckPOW`
unfoldable pub check_pow : Count → CountId → Bool
check_pow count id = leb id count.header.target

-- `computeCountWork`, on a target that is never negative.
unfoldable pub compute_count_work : CountId → ℕ
compute_count_work target = if leb target 0 then 0 else 2 ^ 256 / (target + 1)

unfoldable pub compute_point_work : CountId → CountId → Result CountId
unfolding compute_count_work set_big_int
compute_point_work target point_work = set_big_int (point_work + compute_count_work target)

module _ (hashing : Hashing) where
  open hashing use {crypto, header_digest, hash_ids}

  -- The identifiers that `computeHashListRoot` writes.
  unfoldable pub ids_of : List Consideration → Result (List ConsiderationId)
  ids_of [] = ok []
  ids_of (cn ∷ cns) = do id ← consideration_id crypto cn; ids ← ids_of cns; ok (id ∷ ids)

  unfoldable pub add_countpoint_to_hash_list_root :
      List ConsiderationId → Consideration → Result ConsiderationId
  add_countpoint_to_hash_list_root hasher countpoint = do
    id ← consideration_id crypto countpoint
    ok (hash_ids (id ∷ hash_ids hasher ∷ []))

  -- The root and the state of the hasher after it; `considerations[1:]` of none is a panic.
  unfoldable pub compute_hash_list_root :
      List ConsiderationId → List Consideration → Result (ConsiderationId × List ConsiderationId)
  unfolding ids_of add_countpoint_to_hash_list_root
  compute_hash_list_root hasher [] = panic
  compute_hash_list_root hasher (countpoint ∷ cns) = do
    ids ← ids_of cns
    root ← add_countpoint_to_hash_list_root (hasher ++ ids) countpoint
    ok (root, hasher ++ ids)

  -- The clock and the random nonce are arguments; `count32` is the int32 of a length.
  unfoldable pub new_count :
      (now nonce : ℤ) → CountId → ℤ → CountId → CountId → List Consideration → Result Count
  unfolding compute_hash_list_root compute_point_work
  new_count now nonce previous height target point_work considerations =
      if ltb max_considerations_per_count (length considerations) then err too_many else do
        (root, hasher) ← compute_hash_list_root [] considerations
        work ← compute_point_work target point_work
        ok (record {
          header = record {
            previous = previous;
            hash_list_root = root;
            time = now;
            target = target;
            point_work = work;
            nonce = nonce;
            height = height;
            consideration_count = pos (length considerations);
          };
          considerations = considerations;
          hasher = hasher;
        })

  -- `considerations[0]` of none is a panic.
  unfoldable pub root_with : List ConsiderationId → List Consideration → Result ConsiderationId
  unfolding add_countpoint_to_hash_list_root
  root_with hasher [] = panic
  root_with hasher (countpoint ∷ cns) = add_countpoint_to_hash_list_root hasher countpoint

  -- `AddConsideration`: an error leaves a zero root and the identifier written.
  unfoldable pub add_consideration : ConsiderationId → Consideration → Action Count (Unit {0})
  unfolding root_with
  add_consideration id cn count =
      let hasher = count.hasher ++ id ∷ [] in
      elim (root_with hasher count.considerations) [
        | panic ↦ (panic, record count { hasher = hasher })
        | err e ↦ (
          err e,
          record count { header = record (count.header) { hash_list_root = 0 }; hasher = hasher },
        )
        | ok root ↦ (
          ok tt,
          record count {
            header = record (count.header) {
              hash_list_root = root;
              consideration_count = wrap32 (count.header.consideration_count +ℤ pos 1);
            };
            considerations = count.considerations ++ cn ∷ [];
            hasher = hasher;
          },
        )
      ]

  -- `CountHeader.Compare`: more work wins, then the earlier stored, then the lesser identifier.
  unfoldable pub compare_ids : CountHeader → CountHeader → Result Bool
  compare_ids this their = elim (header_digest this) [
    | ok this_id ↦ elim (header_digest their) [
      | ok their_id ↦ ok (ltb this_id their_id)
      | err e ↦ panic
      | panic ↦ panic
    ]
    | err e ↦ panic
    | panic ↦ panic
  ]

  unfoldable pub compare_headers : CountHeader → CountHeader → ℤ → ℤ → Result Bool
  compare_headers this their this_when their_when =
      if ltb their.point_work this.point_work
      then ok true
      else if ltb this.point_work their.point_work
      then ok false
      else if ltb_ℤ this_when their_when
      then ok true
      else if ltb_ℤ their_when this_when
      then ok false
      else compare_ids this their
