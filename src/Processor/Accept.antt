-- ===== src/Processor/Accept.antt =====
-- How processor.go takes in considerations and counts, and moves the tip of the main point.
pub mod Vetted
use focal_point.Prelude.{
  ℕ, ◌+◌, ◌≡◌, Bool, true, false, not, ◌&&◌, Option, none, some, List, [], ◌∷◌, ◌++◌, Bytes, ℤ, pos,
  pos_part, add64, leb_ℤ, eqb_ℤ, leb, ◌==◌, if◌then◌else◌, Result, ok, err, panic, ◌>>=◌, ◌>>◌,
  Action, ◌>>>◌, fail_if, loose_countpoint, queue_full, already_confirmed, no_tip,
  series_not_current, immature, expired, signature_failed, orphan_count, height_mismatch,
  target_mismatch, work_mismatch, time_early, not_found,
}
use focal_point.Constants.{max_consideration_queue_length}
use focal_point.Consideration.{
  Consideration, ConsiderationId, Crypto, consideration_id, is_counter_point, is_mature, is_expired,
  verify, check_consideration_series,
}
use focal_point.Count.{Count, CountId, CountHeader, compute_point_work, compare_headers}
use focal_point.ConsiderationQueue.{Queue, exists_signed, add, add_batch, remove_batch, len}
use focal_point.Processor.Checks.{check_consideration, check_count}
use focal_point.Processor.Target.{History, compute_target}
use focal_point.Processor.Median.{compute_median_timestamp}
use focal_point.Processor.Fork.{Fork, find_fork}
use focal_point.Processor.Node.{
  Processor, World, NewTx, TipChange, BranchType, main, side, orphan, unknown, history, reading,
  on_backend, on_queue,
}
use focal_point.Processor.Context.{
  is_unknown, is_placed, check_in_count, check_all_in_count, check_extends, check_unconfirmed,
  check_next,
}

module _ {S : Type 0} (p : Processor S) where
  open p use {genesis_id, hashing, backend}

  -- `cnIDs[1:]` of none is a panic.
  unfoldable pub connect_count : CountId → Count → Bytes → Bool → Action (World S) (Unit {0})
  connect_count id count source more w =
      on_backend p (backend.connect_count id count) w >>> λ cn_ids w. elim cn_ids [
        | [] ↦ (panic, w)
        | _ ∷ rest ↦ on_queue p (λ env. remove_batch env rest count.header.height more) w >>> λ _ w.
            (
              ok tt,
              record w {
                tip_changes =
                    w.tip_changes
                    ++ record {
                      count_id = id;
                      count = count;
                      source = source;
                      connect = true;
                      more = more;
                    }
                      ∷ [];
              },
            )
      ]

  unfoldable pub disconnect_count : CountId → Count → Bytes → Action (World S) (Unit {0})
  disconnect_count id count source w =
      on_backend p (backend.disconnect_count id count) w >>> λ cn_ids w. elim cn_ids [
        | [] ↦ (panic, w)
        | _ ∷ rest ↦ elim count.considerations [
          | [] ↦ (panic, w)
          | _ ∷ cns ↦ on_queue p (λ env. add_batch env rest cns) w >>> λ _ w. (
            ok tt,
            record w {
              tip_changes =
                  w.tip_changes
                  ++ record {
                    count_id = id;
                    count = count;
                    source = source;
                    connect = false;
                    more = false;
                  }
                    ∷ [];
            },
          )
        ]
      ]

  -- The loops over countsToDisconnect and countsToConnect.
  unfoldable pub disconnect_all : List CountId → Bytes → Action (World S) (Unit {0})
  unfolding disconnect_count
  disconnect_all [] source w = (ok tt, w)
  disconnect_all (id ∷ ids) source w = reading p (backend.get_count id) w >>> λ found w.
      elim found [
        | none ↦ (panic, w)
        | some count ↦ disconnect_count id count source w >>> λ _ w. disconnect_all ids source w
      ]

  unfoldable pub connect_all : List CountId → Bytes → Action (World S) (Unit {0})
  unfolding connect_count
  connect_all [] source w = (ok tt, w)
  connect_all (id ∷ ids) source w = reading p (backend.get_count id) w >>> λ found w. elim found [
    | none ↦ (panic, w)
    | some count ↦ connect_count id count source true w >>> λ _ w. connect_all ids source w
  ]

  -- `getPointTipHeader`
  unfoldable pub get_point_tip_header : S → Result (Option (CountId × Option (CountHeader × ℤ)))
  get_point_tip_header s = do
    tip ← backend.get_point_tip s
    elim tip [
      | none ↦ ok none
      | some (tip_id, _) ↦ do found ← backend.get_count_header tip_id s; ok (some (tip_id, found))
    ]

  -- A better count: the tip moves to it by way of the common ancestor. A walk that the heights do not
  -- bound would not end, and stands here as a panic.
  unfoldable pub move_tip :
      CountId → Count → CountHeader → CountId → CountHeader → Bytes → Action (World S) (Unit {0})
  unfolding disconnect_all connect_all
  move_tip id count prev tip_id tip source w =
      elim (find_fork (history p w.backend) tip_id tip count.header.previous prev) [
        | none ↦ (panic, w)
        | some panic ↦ (panic, w)
        | some (err e) ↦ (err e, w)
        | some (ok fork) ↦ disconnect_all fork.tip.counts source w >>> λ _ w.
            connect_all fork.new.counts source w >>> λ _ w. connect_count id count source false w
      ]

  unfoldable pub accept_count_continue :
      CountId → Count → ℤ → Option CountHeader → Bytes → Action (World S) (Unit {0})
  unfolding get_point_tip_header move_tip
  accept_count_continue id count count_when prev source w =
      reading p get_point_tip_header w >>> λ tip w. elim tip [
        | none ↦ (panic, w)
        | some (tip_id, found) ↦ if id == tip_id then (ok tt, w) else elim found [
          | none ↦ (panic, w)
          | some (tip_header, tip_when) ↦
              (compare_headers hashing count.header tip_header count_when tip_when, w)
              >>> λ better w.
                  if not better
                  then on_backend p (backend.set_branch_type id side) w
                  else elim prev [
                    | none ↦ (panic, w)
                    | some header ↦ move_tip id count header tip_id tip_header source w
                  ]
        ]
      ]

  abbrev pub stored_when : Option (CountHeader × ℤ) → ℤ
  stored_when none = pos 0
  stored_when (some (header, when)) = when

  abbrev pub stored_header : Option (CountHeader × ℤ) → Option CountHeader
  stored_header none = none
  stored_header (some (header, when)) = some header

  unfoldable pub reconnect_tip : CountId → Bytes → Action (World S) (Unit {0})
  unfolding accept_count_continue
  reconnect_tip id source w = reading p (backend.get_count id) w >>> λ found w. elim found [
    | none ↦ (err not_found, w)
    | some count ↦ reading p (backend.get_count_header id) w >>> λ header w.
        reading p (backend.get_count_header count.header.previous) w >>> λ prev w.
        accept_count_continue id count (stored_when header) (stored_header prev) source w
  ]

  -- An error of `acceptCountContinue` is returned after the old tip is connected again, whatever
  -- comes of that.
  unfoldable pub finish_accepting :
      CountId → Count → ℤ → CountHeader → Bytes → Action (World S) (Unit {0})
  finish_accepting id count now prev source w = reading p backend.get_point_tip w >>> λ tip w.
      let (r, w') = accept_count_continue id count now (some prev) source w in
      elim r [
        | ok done ↦ (ok tt, w')
        | panic ↦ (panic, w')
        | err e ↦ elim tip [
          | none ↦ (panic, w')
          | some (tip_id, _) ↦
              let (again, w'') = reconnect_tip tip_id source w' in
              elim again [ panic ↦ (panic, w'') | ok done ↦ (err e, w'') | err _ ↦ (err e, w'') ]
        ]
      ]

  unfoldable pub accept_count : CountId → Count → ℤ → Bytes → Action (World S) (Unit {0})
  accept_count id count now source w =
      reading p (backend.get_count_header count.header.previous) w >>> λ found w. elim found [
        | none ↦ (panic, w)
        | some (prev, _) ↦
            if not (eqb_ℤ count.header.height (add64 prev.height (pos 1)))
            then (err height_mismatch, w)
            else reading p (backend.get_branch_type id) w >>> λ branch w.
                if not (is_unknown branch)
                then (ok tt, w)
                else ((check_extends hashing.crypto (history p w.backend) w.queue count prev, w)
                    >>> λ _ w. on_backend p (backend.store id count now) w >>> λ _ w.
                        finish_accepting id count now prev source w)
      ]

  unfoldable pub process_count : CountId → Count → ℤ → Bytes → Action (World S) (Unit {0})
  process_count id count now source w = reading p (backend.get_branch_type id) w >>> λ branch w.
      if not (is_unknown branch)
      then (ok tt, w)
      else ((check_count hashing id count now, w) >>> λ _ w.
          reading p (backend.get_branch_type count.header.previous) w >>> λ parent w.
          if is_placed parent
          then accept_count id count now source w
          else if not (id == genesis_id)
          then (err orphan_count, w)
          else (on_backend p (backend.store id count now) w >>> λ _ w.
              connect_count id count source false w))

  -- The checks of `processConsideration` that need the ledger and the queue.
  unfoldable pub check_loose : ConsiderationId → Consideration → World S → Result (Unit {0})
  check_loose id cn w = do
    check_consideration cn
    fail_if (is_counter_point cn) loose_countpoint
    fail_if (leb max_consideration_queue_length (len w.queue)) queue_full
    confirmed ← backend.get_consideration_index id w.backend
    check_unconfirmed confirmed
    tip ← backend.get_point_tip w.backend
    check_next cn tip
    valid ← verify hashing.crypto cn
    fail_if (not valid) signature_failed

  unfoldable pub process_consideration :
      ConsiderationId → Consideration → Bytes → Action (World S) (Unit {0})
  process_consideration id cn source w = (check_loose id cn w, w) >>> λ _ w.
      on_queue p (λ env. add env id cn) w >>> λ added w. if not added then (ok tt, w) else (
        ok tt,
        record w {
          new_txs =
              w.new_txs
              ++ record { consideration_id = id; consideration = cn; source = source } ∷ [];
        },
      )
