-- ===== src/Processor/Accept/Vetted.antt =====
-- Nothing that fails the checks of processor.go reaches the ledger, the storage or the queue.
use focal_point.Prelude.{
  ◌≡◌, ap, ◌∙◌, ◌⊎◌, inl, inr, true, false, none, some, Bytes, ℤ, pos, add64, eqb_ℤ, eqb_ℤ_iff,
  ◌==◌, leb, ◌<◌, arith, ok, >>=-eq-ok, fail_if, Result-cases, Bool-cases, Option-cases,
}
use focal_point.Constants.{max_consideration_queue_length}
use focal_point.Consideration.{
  Consideration, ConsiderationId, is_counter_point, is_mature, is_expired, verify,
  check_consideration_series,
}
use focal_point.Count.{Count, CountId, CountHeader}
use focal_point.ConsiderationQueue.{len}
use focal_point.Processor.Sane.{IsSane, check_consideration_iff}
use focal_point.Processor.Sound.{IsSound, check_count-IsSound}
use focal_point.Processor.Checks.{check_consideration, check_count}
use focal_point.Processor.Node.{Processor, World, BranchType, history, reading}
use focal_point.Processor.Context.{
  is_unknown, is_placed, check_extends, check_unconfirmed, check_next,
}
use focal_point.Processor.Accept.{accept_count, process_count, check_loose, process_consideration}
use focal_point.Processor.Context.Passes.{Extends, extends_lem, unconfirmed_none, next_lem}

module _ {S : Type 0} (p : Processor S) where
  open p use {hashing, backend}

  -- The parent is stored, the height is the next one, and the count extends the parent's point.
  abbrev pub IsVetted : CountId → Count → World S → Type 0
  IsVetted id count w =
      (prev : CountHeader) × (when : ℤ) × (backend.get_count_header count.header.previous w.backend
        ≡ ok (some (prev, when)))
      × (count.header.height ≡ add64 prev.height (pos 1))
      × ((branch : BranchType) × (backend.get_branch_type id w.backend ≡ ok branch)
          × (is_unknown branch ≡ true))
      × Extends hashing.crypto (history p w.backend) w.queue count prev

  -- What `acceptCount` does once the parent's header is there.
  parent_found :
      (id : CountId) (count : Count) (now : ℤ) (source : Bytes) (w : World S) (prev : CountHeader)
      (when : ℤ)
      → backend.get_count_header count.header.previous w.backend ≡ ok (some (prev, when))
      → ((accept_count p id count now source w).1 ≡ w) ⊎ IsVetted id count w
  unfolding accept_count reading
  parent_found id count now source w prev when e =
      elim (Bool-cases (eqb_ℤ count.header.height (add64 prev.height (pos 1)))) [
        | inr wrong ↦ inl (ground (arith, e, wrong))
        | inl next ↦ elim (Result-cases (backend.get_branch_type id w.backend)) [
          | inr failed ↦ inl (ground (arith, e, next, failed))
          | inl (branch, b) ↦ elim (Bool-cases (is_unknown branch)) [
            | inr known ↦ inl (ground (arith, e, next, b, known))
            | inl fresh ↦
                elim (Result-cases
                  (check_extends hashing.crypto (history p w.backend) w.queue count prev)) [
                    | inr refused ↦ inl (ground (arith, e, next, b, fresh, refused))
                    | inl (_, passed) ↦ inr (
                      prev,
                      when,
                      e,
                      (eqb_ℤ_iff count.header.height (add64 prev.height (pos 1))).0 next,
                      (branch, b, fresh),
                      extends_lem hashing.crypto (history p w.backend) w.queue count prev passed,
                    )
                  ]
          ]
        ]
      ]

  -- `acceptCount` leaves the ledger, the storage, the queue and the channels as they are, or the
  -- count is vetted: its parent's header is stored, its height is the parent's and one, it was not
  -- known, its target and its point's work are those that are computed from the parent, its time is
  -- past the median, and each of its considerations has a current series and, if it is a user's,
  -- passes the maturity and expiration tests and has a signature that verifies or that the queue holds.
  pub accept_count-IsVetted :
      (id : CountId) (count : Count) (now : ℤ) (source : Bytes) (w : World S)
      → ((accept_count p id count now source w).1 ≡ w) ⊎ IsVetted id count w
  unfolding accept_count reading
  accept_count-IsVetted id count now source w =
      elim (Result-cases (backend.get_count_header count.header.previous w.backend)) [
        | inr failed ↦ inl (ground (arith, failed))
        | inl (found, e) ↦ elim (Option-cases found) [
          | inl missing ↦ inl (ground (arith, e, missing))
          | inr ((prev, when), there) ↦
              parent_found id count now source w prev when (e ∙ ap ok there)
        ]
      ]

  -- `processCount` leaves the ledger, the storage, the queue and the channels as they are, or the
  -- count is sound by itself, and it is vetted against its parent or has the genesis identifier.
  pub process_count-IsSound :
      (id : CountId) (count : Count) (now : ℤ) (source : Bytes) (w : World S)
      → ((process_count p id count now source w).1 ≡ w)
        ⊎ (IsSound hashing id count now × (IsVetted id count w ⊎ (id ≡ p.genesis_id)))
  unfolding process_count reading
  process_count-IsSound id count now source w =
      elim (Result-cases (backend.get_branch_type id w.backend)) [
        | inr failed ↦ inl (ground (arith, failed))
        | inl (branch, b) ↦ elim (Bool-cases (is_unknown branch)) [
          | inr known ↦ inl (ground (arith, b, known))
          | inl fresh ↦ elim (Result-cases (check_count hashing id count now)) [
            | inr refused ↦ inl (ground (arith, b, fresh, refused))
            | inl (_, passed) ↦
                elim (Result-cases (backend.get_branch_type count.header.previous w.backend)) [
                  | inr failed ↦ inl (ground (arith, b, fresh, passed, failed))
                  | inl (parent, e) ↦ elim (Bool-cases (is_placed parent)) [
                    | inl placed ↦ elim (accept_count-IsVetted id count now source w) [
                      | inl same ↦ inl (ground (arith, b, fresh, passed, e, placed, same))
                      | inr vetted ↦
                          inr (check_count-IsSound hashing id count now passed, inl vetted)
                    ]
                    | inr loose ↦ elim (Bool-cases (id == p.genesis_id)) [
                      | inr other ↦ inl (ground (arith, b, fresh, passed, e, loose, other))
                      | inl first ↦ inr (
                        check_count-IsSound hashing id count now passed,
                        inr (ground (arith, first)),
                      )
                    ]
                  ]
                ]
          ]
        ]
      ]

  -- The consideration could be taken by the next count.
  pub record IsTimely (id : ConsiderationId) (cn : Consideration) (w : World S) : Type 0 where
    pub sane : IsSane cn
    pub user : is_counter_point cn ≡ false
    pub room : len w.queue < max_consideration_queue_length
    pub new : backend.get_consideration_index id w.backend ≡ ok none
    pub next :
        (tip_id : CountId) × (tip_height : ℤ) × (backend.get_point_tip w.backend
          ≡ ok (some (tip_id, tip_height)))
        × (check_consideration_series cn (add64 tip_height (pos 1)) ≡ true)
        × (is_mature cn (add64 tip_height (pos 1)) ≡ true)
        × (is_expired cn (add64 tip_height (pos 1)) ≡ false)
    pub verified : verify hashing.crypto cn ≡ ok true

  check_loose_lem :
      (id : ConsiderationId) (cn : Consideration) (w : World S)
      → check_loose p id cn w ≡ ok tt
      → IsTimely id cn w
  unfolding check_loose
  check_loose_lem id cn w h =
      let (_, checked, h1) = >>=-eq-ok (check_consideration cn) _ h in
      let (_, user, h2) = >>=-eq-ok (fail_if (is_counter_point cn) _) _ h1 in
      let (_, room, h3) =
        >>=-eq-ok (fail_if (leb max_consideration_queue_length (len w.queue)) _) _ h2 in
      let (confirmed, indexed, h4) =
        >>=-eq-ok (backend.get_consideration_index id w.backend) _ h3 in
      let (_, unconfirmed, h5) = >>=-eq-ok (check_unconfirmed confirmed) _ h4 in
      let (tip, tipped, h6) = >>=-eq-ok (backend.get_point_tip w.backend) _ h5 in
      let (_, timed, h7) = >>=-eq-ok (check_next cn tip) _ h6 in
      let (valid, v, h8) = >>=-eq-ok (verify hashing.crypto cn) _ h7 in
      record {
        sane = (check_consideration_iff cn).0 checked;
        user = ground (arith, user);
        room = ground (arith, room);
        new = indexed ∙ ap ok (unconfirmed_none confirmed unconfirmed);
        next =
            let (tip_id, tip_height, there, series, mature, live) = next_lem cn tip timed in
            (tip_id, tip_height, tipped ∙ ap ok there, series, mature, live);
        verified = ground (arith, v, h8);
      }

  -- `processConsideration` leaves the ledger, the storage, the queue and the channels as they are, or
  -- the consideration is timely: sane, a user's, in no confirmed count, with room in the queue, its
  -- series, maturity and expiration pass at the height after the tip's, and its signature verifies.
  pub process_consideration-IsTimely :
      (id : ConsiderationId) (cn : Consideration) (source : Bytes) (w : World S)
      → ((process_consideration p id cn source w).1 ≡ w) ⊎ IsTimely id cn w
  unfolding process_consideration
  process_consideration-IsTimely id cn source w = elim (Result-cases (check_loose p id cn w)) [
    | inr refused ↦ inl (ground (arith, refused))
    | inl (_, passed) ↦ inr (check_loose_lem id cn w passed)
  ]
