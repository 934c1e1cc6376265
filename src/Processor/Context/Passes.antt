-- ===== src/Processor/Context/Passes.antt =====
-- What the checks of a count against its parent's point, and of a loose consideration, let through.
use focal_point.Prelude.{
  ◌≡◌, refl, ◌⊎◌, inl, inr, Bool, true, false, not, Option, none, some, List, [], ◌∷◌, All, ℤ, pos,
  ◌<ℤ◌, add64, leb_ℤ, ◌==◌, if◌then◌else◌, arith, Result, ok, err, panic, ◌>>=◌, >>=-eq-ok, fail_if,
  signature_failed,
}
use focal_point.Consideration.{
  Consideration, ConsiderationId, Crypto, consideration_id, is_counter_point, is_mature, is_expired,
  verify, check_consideration_series,
}
use focal_point.Count.{Count, CountId, CountHeader, compute_point_work}
use focal_point.ConsiderationQueue.{Queue, exists_signed}
use focal_point.Processor.Target.{History, compute_target}
use focal_point.Processor.Median.{compute_median_timestamp}
use focal_point.Processor.Context.{
  check_in_count, check_all_in_count, check_extends, check_unconfirmed, check_next,
}

-- A consideration fits a count of its height: its series is current, and a user's passes the
-- maturity and expiration tests and carries a signature that verifies or that the queue has seen.
abbrev pub Fits : Crypto → Queue → ℤ → Consideration → Type 0
Fits crypto queue height cn =
    (id : ConsiderationId) × (consideration_id crypto cn ≡ ok id)
    × (check_consideration_series cn height ≡ true)
    × (is_counter_point cn ≡ false
        → (is_mature cn height ≡ true)
          × (is_expired cn height ≡ false)
          × ((exists_signed id cn.signature queue ≡ true) ⊎ (verify crypto cn ≡ ok true)))

signed_cases :
    (seen : Bool) (verified : Result Bool)
    → (if seen then ok tt else (verified >>= λ valid. fail_if (not valid) signature_failed)) ≡ ok tt
    → (seen ≡ true) ⊎ (verified ≡ ok true)
signed_cases true verified h = inl refl
signed_cases false (ok true) h = inr refl
signed_cases false (ok false) h = absurd (ground arith)
signed_cases false (err e) h = absurd (ground arith)
signed_cases false panic h = absurd (ground arith)

fits_lem :
    (crypto : Crypto) (queue : Queue) (height : ℤ) (cn : Consideration)
    → check_in_count crypto queue height cn ≡ ok tt
    → Fits crypto queue height cn
unfolding check_in_count
fits_lem crypto queue height cn h =
    let (id, named, k) = >>=-eq-ok (consideration_id crypto cn) _ h in
    (
      id,
      named,
      ground arith,
      λ user.
          ground
            (arith, user, k, signed_cases (exists_signed id cn.signature queue) (verify crypto cn)),
    )

check_all_in_count-Fits :
    (crypto : Crypto) (queue : Queue) (height : ℤ) (cns : List Consideration)
    → check_all_in_count crypto queue height cns ≡ ok tt
    → All (Fits crypto queue height) cns
unfolding check_all_in_count
check_all_in_count-Fits crypto queue height [] h = tt
check_all_in_count-Fits crypto queue height (cn ∷ cns) h =
    let (_, first, rest) = >>=-eq-ok (check_in_count crypto queue height cn) _ h in
    (fits_lem crypto queue height cn first, check_all_in_count-Fits crypto queue height cns rest)

-- A count extends the point of its parent: the declared target and work are those that are computed
-- from the parent, its time is past the median, and all its considerations fit.
pub record Extends (crypto : Crypto) (past : History) (queue : Queue) (count : Count)
    (prev : CountHeader) : Type 0 where
  pub target : compute_target past prev ≡ ok count.header.target
  pub work : compute_point_work count.header.target prev.point_work ≡ ok count.header.point_work
  pub late :
      (median : ℤ) × (compute_median_timestamp past prev ≡ ok median)
      × (median <ℤ count.header.time)
  pub fit : All (Fits crypto queue count.header.height) count.considerations

pub extends_lem :
    (crypto : Crypto) (past : History) (queue : Queue) (count : Count) (prev : CountHeader)
    → check_extends crypto past queue count prev ≡ ok tt
    → Extends crypto past queue count prev
unfolding check_extends
extends_lem crypto past queue count prev h =
    let (target, computed, h1) = >>=-eq-ok (compute_target past prev) _ h in
    let (_, same_target, h2) = >>=-eq-ok (fail_if (not (count.header.target == target)) _) _ h1 in
    let (work, worked, h3) =
      >>=-eq-ok (compute_point_work count.header.target prev.point_work) _ h2 in
    let (_, same_work, h4) = >>=-eq-ok (fail_if (not (count.header.point_work == work)) _) _ h3 in
    let (median, middle, h5) = >>=-eq-ok (compute_median_timestamp past prev) _ h4 in
    let (_, after, h6) = >>=-eq-ok (fail_if (leb_ℤ count.header.time median) _) _ h5 in
    record {
      target = ground (arith, computed, same_target);
      work = ground (arith, worked, same_work);
      late = (median, middle, ground (arith, after));
      fit = check_all_in_count-Fits crypto queue count.header.height count.considerations h6;
    }

pub unconfirmed_none :
    (confirmed : Option (CountId × ℤ)) → check_unconfirmed confirmed ≡ ok tt → confirmed ≡ none
unfolding check_unconfirmed
unconfirmed_none none h = refl
unconfirmed_none (some index) h = absurd (ground arith)

pub next_lem :
    (cn : Consideration) (tip : Option (CountId × ℤ))
    → check_next cn tip ≡ ok tt
    → (tip_id : CountId) × (tip_height : ℤ) × (tip ≡ some (tip_id, tip_height))
      × (check_consideration_series cn (add64 tip_height (pos 1)) ≡ true)
      × (is_mature cn (add64 tip_height (pos 1)) ≡ true)
      × (is_expired cn (add64 tip_height (pos 1)) ≡ false)
unfolding check_next
next_lem cn none h = absurd (ground arith)
next_lem cn (some (tip_id, tip_height)) h =
    (tip_id, tip_height, refl, ground arith, ground arith, ground arith)
