-- ===== src/Processor/Sound.antt =====
-- What checkCount of processor.go lets through.
use focal_point.Prelude.{
  ℕ, suc, ◌+◌, ◌≤◌, ◌≡◌, ◌≢◌, refl, Bool, true, false, not, none, List, [], ◌∷◌, All, ℤ, pos, ◌≤ℤ◌,
  eqb_ℤ_iff, arith, ok, ◌>>◌, >>=-eq-ok, fail_if, length, ◌==◌, Map, insert, lookup, nat_eq,
  lookup-insert, length-insert, add64, pos_part,
}
use focal_point.Constants.{max_future_seconds}
use focal_point.Consideration.{Consideration, ConsiderationId, is_counter_point, consideration_id}
use focal_point.Count.{Count, CountId, Hashing, check_pow, ids_of, compute_hash_list_root}
use focal_point.Processor.Checks.{
  check_consideration, any_countpoint, check_all, check_header, check_kinds, check_shape,
  check_contents, check_count, compute_max_considerations_per_count, checkpoint_check,
}
use focal_point.Processor.Sane.{InRange, IsSane, out_of_range_iff, check_consideration_iff}

abbrev pub IsDistinct : List ConsiderationId → Type 0
IsDistinct [] = Unit
IsDistinct (id ∷ ids) = All (λ j. j ≢ id) ids × IsDistinct ids

abbrev Unseen : Map ConsiderationId Bool → List ConsiderationId → Type 0
Unseen seen ids = All (λ i. lookup i seen ≡ none) ids

Unseen-insert :
    (id : ConsiderationId) (seen : Map ConsiderationId Bool) (ids : List ConsiderationId)
    → Unseen (insert id true seen) ids
    → All (λ j. j ≢ id) ids × Unseen seen ids
Unseen-insert id seen [] h = (tt, tt)
Unseen-insert id seen (i ∷ ids) (new, h) =
    let (others, rest) = Unseen-insert id seen ids h in
    ground (arith, lookup-insert id i true seen, new, others, rest)

length-insert_bound :
    (id : ConsiderationId) (seen : Map ConsiderationId Bool)
    → (length (insert id true seen) ≤ suc (length seen))
      × (suc (length seen) ≤ length (insert id true seen) → lookup id seen ≡ none)
length-insert_bound id seen = ground (arith, length-insert id true seen)

module _ (hashing : Hashing) where
  open hashing use {crypto}

  check_all_lem :
      (cns : List Consideration) (seen after : Map ConsiderationId Bool)
      → check_all hashing cns seen ≡ ok after
      → All IsSane cns
        × (length after ≤ length seen + length cns)
        × (ids : List ConsiderationId) × (ids_of hashing cns ≡ ok ids)
        × (length after ≡ length seen + length cns → IsDistinct ids × Unseen seen ids)
  unfolding check_all ids_of
  check_all_lem [] seen after h = (tt, ground arith, [], refl, λ _. (tt, tt))
  check_all_lem (cn ∷ cns) seen after h =
      let (id, got, checked) =
        >>=-eq-ok (consideration_id crypto cn)
          (λ id. check_consideration cn >> check_all hashing cns (insert id true seen)) h in
      let (_, sane, rest) =
        >>=-eq-ok (check_consideration cn) (λ _. check_all hashing cns (insert id true seen))
          checked in
      let (sanes, bound, ids, listed, distinct) =
        check_all_lem cns (insert id true seen) after rest in
      let (grows, fresh) = length-insert_bound id seen in
      (
        ((check_consideration_iff cn).0 sane, sanes),
        omega (arith, bound, grows),
        id ∷ ids,
        ground (arith, got, listed),
        λ full.
            let (apart, unseen) = distinct (omega (arith, full, bound, grows)) in
            let (others, old) = Unseen-insert id seen ids unseen in
            ((others, apart), (fresh (omega (arith, full, bound)), old)),
      )

header_parts :
    (id : CountId) (count : Count) (now : ℤ) (hashing : Hashing)
    → check_header hashing id count now ≡ ok tt
    → InRange count.header.time
      × (count.header.time ≤ℤ add64 now (pos max_future_seconds))
      × (check_pow count id ≡ true)
      × InRange count.header.nonce
      × InRange count.header.height
      × (checkpoint_check id (pos_part count.header.height) ≡ ok tt)
unfolding check_header
header_parts id count now hashing h = ground (
  arith,
  out_of_range_iff count.header.time,
  out_of_range_iff count.header.nonce,
  out_of_range_iff count.header.height,
)

-- One countpoint, in the first place, and no more considerations than the height allows.
abbrev pub IsShaped : ℤ → List Consideration → Type 0
IsShaped height [] = ⊥
IsShaped height (countpoint ∷ rest) =
    (is_counter_point countpoint ≡ true)
    × (any_countpoint rest ≡ false)
    × (max : ℕ) × (compute_max_considerations_per_count (pos_part height) ≡ ok max)
    × (length (countpoint ∷ rest) ≤ max)

kinds_lem :
    (hashing : Hashing) (height : ℤ) (cns : List Consideration)
    → check_kinds hashing height cns ≡ ok tt
    → IsShaped height cns
unfolding check_kinds
kinds_lem hashing height [] h = absurd (ground arith)
kinds_lem hashing height (countpoint ∷ rest) h =
    let (_, first, then_max) = >>=-eq-ok (fail_if (not (is_counter_point countpoint)) _) _ h in
    let (max, allowed, rest_ok) =
      >>=-eq-ok (compute_max_considerations_per_count (pos_part height)) _ then_max in
    (ground (arith, first), ground (arith, rest_ok), max, allowed, ground (arith, rest_ok))

shape_parts :
    (count : Count) (hashing : Hashing)
    → check_shape hashing count ≡ ok tt
    → (count.header.consideration_count ≡ pos (length count.considerations))
      × IsShaped count.header.height count.considerations
unfolding check_shape
shape_parts count hashing h = ground (
  arith,
  eqb_ℤ_iff count.header.consideration_count (pos (length count.considerations)),
  kinds_lem hashing count.header.height count.considerations,
)

-- A count that is sound by itself, said without the order of the checks.
pub record IsSound (hashing : Hashing) (id : CountId) (count : Count) (now : ℤ) : Type 0 where
  pub time : InRange count.header.time
  pub recent : count.header.time ≤ℤ add64 now (pos max_future_seconds)
  pub work : check_pow count id ≡ true
  pub nonce : InRange count.header.nonce
  pub height : InRange count.header.height
  pub known : checkpoint_check id (pos_part count.header.height) ≡ ok tt
  pub counted : count.header.consideration_count ≡ pos (length count.considerations)
  pub shaped : IsShaped count.header.height count.considerations
  pub sane : All IsSane count.considerations
  pub distinct :
      (ids : List ConsiderationId) × (ids_of hashing count.considerations ≡ ok ids) × IsDistinct ids
  pub rooted :
      (hasher : List ConsiderationId) × (compute_hash_list_root hashing [] count.considerations
        ≡ ok (count.header.hash_list_root, hasher))

contents_parts :
    (hashing : Hashing) (count : Count)
    → check_contents hashing count ≡ ok tt
    → All IsSane count.considerations
      × ((ids : List ConsiderationId) × (ids_of hashing count.considerations ≡ ok ids)
          × IsDistinct ids)
      × ((hasher : List ConsiderationId) × (compute_hash_list_root hashing [] count.considerations
            ≡ ok (count.header.hash_list_root, hasher)))
unfolding check_contents
contents_parts hashing count h =
    let (seen, marked, k) = >>=-eq-ok (check_all hashing count.considerations []) _ h in
    let (_, full, l) =
      >>=-eq-ok (fail_if (not (length seen == length count.considerations)) _) _ k in
    let ((root, hasher), computed, m) =
      >>=-eq-ok (compute_hash_list_root hashing [] count.considerations) _ l in
    let (sanes, _, ids, listed, distinct) =
      check_all_lem hashing count.considerations [] seen marked in
    (
      sanes,
      (ids, listed, (distinct (ground (arith, full))).0),
      (hasher, ground (arith, computed, m)),
    )

-- `checkCount`: a count that passes at the time `now` is sound by itself. Its time, nonce and height
-- are in range, its time is at most MAX_FUTURE_SECONDS ahead, its identifier meets the declared
-- target, and no checkpoint is against it. The number in the header is that of the considerations,
-- of which the first and no other is a countpoint and which are no more than the height allows. Each
-- consideration is sane, no two have the same identifier, and the header's hash list root is the
-- one computed from them.
pub check_count-IsSound :
    (hashing : Hashing) (id : CountId) (count : Count) (now : ℤ)
    → check_count hashing id count now ≡ ok tt
    → IsSound hashing id count now
unfolding check_count
check_count-IsSound hashing id count now h =
    let (_, header, k) = >>=-eq-ok (check_header hashing id count now) _ h in
    let (_, shape, contents) = >>=-eq-ok (check_shape hashing count) _ k in
    let (time, recent, work, nonce, height, known) = header_parts id count now hashing header in
    let (counted, shaped) = shape_parts count hashing shape in
    let (sane, distinct, rooted) = contents_parts hashing count contents in
    record {
      time = time;
      recent = recent;
      work = work;
      nonce = nonce;
      height = height;
      known = known;
      counted = counted;
      shaped = shaped;
      sane = sane;
      distinct = distinct;
      rooted = rooted;
    }
