-- ===== src/Processor/Fork.antt =====
-- acceptCountContinue of processor.go: the walk from the tip and from a new count back to the
-- header that both points share, and the counts to disconnect and to connect on the way.
pub mod Descent
pub mod Ancestor
use focal_point.Prelude.{
  ℕ, zero, suc, ◌+◌, ◌≡◌, Bool, true, false, ◌&&◌, Option, none, some, List, [], ◌∷◌, ◌++◌, ℤ,
  pos_part, ltb_ℤ, eqb_ℤ, Result, ok, err, panic, ◌==◌, if◌then◌else◌,
}
use focal_point.Count.{CountId, CountHeader}
use focal_point.Processor.Target.{History}

-- `*newAncestor == *tipAncestor`: headers that were read from the storage have no hasher.
unfoldable pub header_equal : CountHeader → CountHeader → Bool
header_equal a b =
    (a.previous == b.previous)
    && (a.hash_list_root == b.hash_list_root)
    && eqb_ℤ a.time b.time
    && (a.target == b.target)
    && (a.point_work == b.point_work)
    && eqb_ℤ a.nonce b.nonce
    && eqb_ℤ a.height b.height
    && eqb_ℤ a.consideration_count b.consideration_count

-- An ancestor that a walk has reached, and the counts that it left behind.
pub record Walked : Type 0 where
  pub id : CountId
  pub header : CountHeader
  pub counts : List CountId

pub record Fork : Type 0 where
  pub tip : Walked
  pub new : Walked

-- countsToDisconnect grows at its end, countsToConnect at its front.
abbrev pub append : List CountId → CountId → List CountId
append counts id = counts ++ id ∷ []

abbrev pub prepend : List CountId → CountId → List CountId
prepend counts id = id ∷ counts

module _ (history : History) where
  open history use {get_count_header}

  -- One of the loops down to a height; `none` means that the fuel ran out. A header that is not
  -- there is dereferenced next.
  unfoldable pub walk_down :
      (List CountId → CountId → List CountId) → ℕ → ℤ → Walked → Option (Result Walked)
  walk_down push zero low w = none
  walk_down push (suc fuel) low w = elim (ltb_ℤ low w.header.height) [
    | false ↦ some (ok w)
    | true ↦ elim (get_count_header w.header.previous) [
      | panic ↦ some panic
      | err e ↦ some (err e)
      | ok none ↦ some panic
      | ok (some (previous, when)) ↦
          walk_down push fuel low
            (record { id = w.header.previous; header = previous; counts = push w.counts w.id })
    ]
  ]

  -- The loop over both points down to equal headers.
  unfoldable pub walk_both : ℕ → Fork → Option (Result Fork)
  unfolding header_equal
  walk_both zero f = none
  walk_both (suc fuel) f = elim (header_equal f.new.header f.tip.header) [
    | true ↦ some (ok f)
    | false ↦ elim (get_count_header f.tip.header.previous) [
      | panic ↦ some panic
      | err e ↦ some (err e)
      | ok tip_found ↦ elim (get_count_header f.new.header.previous) [
        | panic ↦ some panic
        | err e ↦ some (err e)
        | ok none ↦ some panic
        | ok (some (new_previous, _)) ↦ elim tip_found [
          | none ↦ some panic
          | some (tip_previous, _) ↦ walk_both fuel (record {
            tip = record {
              id = f.tip.header.previous;
              header = tip_previous;
              counts = append f.tip.counts f.tip.id;
            };
            new = record {
              id = f.new.header.previous;
              header = new_previous;
              counts = prepend f.new.counts f.new.id;
            };
          })
        ]
      ]
    ]
  ]

  -- Both points down to their common lowest height, then on to the common ancestor. The heights
  -- bound the steps.
  unfoldable pub find_fork : CountId → CountHeader → CountId → CountHeader → Option (Result Fork)
  unfolding walk_down walk_both
  find_fork tip_id tip new_id new =
      let low = if ltb_ℤ new.height tip.height then new.height else tip.height in
      let fuel = pos_part tip.height + pos_part new.height + 1 in
      elim (walk_down append fuel low (record { id = tip_id; header = tip; counts = [] })) [
        | none ↦ none
        | some panic ↦ some panic
        | some (err e) ↦ some (err e)
        | some (ok tip_low) ↦
            elim (walk_down prepend fuel low (record { id = new_id; header = new; counts = [] })) [
              | none ↦ none
              | some panic ↦ some panic
              | some (err e) ↦ some (err e)
              | some (ok new_low) ↦ walk_both fuel (record { tip = tip_low; new = new_low })
            ]
      ]
