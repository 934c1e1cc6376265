-- ===== src/Processor/Fork/Ancestor.antt =====
-- Two points that grow from one genesis meet at a common ancestor.
use focal_point.Prelude.{
  ℕ, zero, suc, ◌+◌, ◌≤◌, ◌<◌, ◌≡◌, refl, sym, ap, ◌∙◌, subst, ◌⊎◌, inl, inr, some, List, [], ◌∷◌,
  ◌++◌, pos, pos_part, ltb_ℤ, arith, ok, if◌then◌else◌, Bool-cases,
}
use mathlib.Core.List.{reverse}
use focal_point.Count.{CountId, CountHeader}
use focal_point.Processor.Target.{History}
use focal_point.Processor.Fork.{
  Walked, Fork, append, prepend, header_equal, walk_down, walk_both, find_fork,
}
use focal_point.Processor.Fork.Descent.{
  header_equal_iff, Rooted, Descent, there, back, pushed_all, pushed_all-append, pushed_all-prepend,
  pushed_all-pushed_all, Descent-append,
}

module _ (history : History) (genesis : CountHeader) where
  height-Rooted :
      (n : ℕ) (header : CountHeader) → Rooted history genesis n header → header.height ≡ pos n
  height-Rooted zero header r = r.1
  height-Rooted (suc n) header r = r.0

  -- What a walk reaches.
  abbrev Reaches : (List CountId → CountId → List CountId) → ℕ → Walked → Walked → Type 0
  Reaches push m w w' =
      Rooted history genesis m w'.header
      × (ids : List CountId) × Descent history w.id w.header ids w'.id w'.header
      × (w'.counts ≡ pushed_all push w.counts ids)

  ≤_cases : (m n : ℕ) → m ≤ n → (m ≡ n) ⊎ (m < n)
  ≤_cases m n h = ground arith

  walk_down_lem :
      (push : List CountId → CountId → List CountId) (fuel n m : ℕ) (w : Walked)
      → Rooted history genesis n w.header
      → m ≤ n
      → n < fuel + m
      → (w' : Walked) × (walk_down history push fuel (pos m) w ≡ some (ok w')) × Reaches push m w w'
  unfolding walk_down
  walk_down_lem push zero n m w r le enough = absurd (omega (arith, le, enough))
  walk_down_lem push (suc fuel) zero m w r le enough =
      let at : 0 ≡ m = omega (arith, le) in
      (
        w,
        ground (arith, r.1),
        (subst (λ k. Rooted history genesis k w.header) at r, [], there, refl),
      )
  walk_down_lem push (suc fuel) (suc k) m w (high, previous, when, found, r) le enough =
      elim (≤_cases m (suc k) le) [
        | inl at ↦ (
          w,
          ground (arith, at, high),
          (
            subst (λ k. Rooted history genesis k w.header) (sym at)
                (high, previous, when, found, r),
            [],
            there,
            refl,
          ),
        )
        | inr above ↦
            let next : Walked = record {
              id = w.header.previous;
              header = previous;
              counts = push w.counts w.id;
            } in
            let (w', e, (rooted, ids, d, pushed)) =
              walk_down_lem push fuel k m next r (omega (arith, above)) (omega (arith, enough)) in
            (
              w',
              ground (arith, high, above, found, e),
              (rooted, w.id ∷ ids, back when found d, pushed),
            )
      ]

  -- How far both walks have come together.
  abbrev Meets : Fork → Fork → Type 0
  Meets f f' =
      (f'.new.header ≡ f'.tip.header)
      × ((ids : List CountId) × Descent history f.tip.id f.tip.header ids f'.tip.id f'.tip.header
          × (f'.tip.counts ≡ pushed_all append f.tip.counts ids))
      × ((ids : List CountId) × Descent history f.new.id f.new.header ids f'.new.id f'.new.header
          × (f'.new.counts ≡ pushed_all prepend f.new.counts ids))

  walk_both_lem :
      (fuel n : ℕ) (f : Fork)
      → Rooted history genesis n f.tip.header
      → Rooted history genesis n f.new.header
      → n < fuel
      → (f' : Fork) × (walk_both history fuel f ≡ some (ok f')) × Meets f f'
  unfolding walk_both
  walk_both_lem zero n f rt rn enough = absurd (omega (arith, enough))
  walk_both_lem (suc fuel) zero f rt rn enough =
      let same : f.new.header ≡ f.tip.header = rn.0 ∙ sym rt.0 in
      (
        f,
        ground (arith, (header_equal_iff f.new.header f.tip.header).1 same),
        (same, ([], there, refl), ([], there, refl)),
      )
  walk_both_lem (suc fuel) (suc k) f (_, tip, tip_when, tip_found, rt)
        (_, new, new_when, new_found, rn) enough =
      elim (Bool-cases (header_equal f.new.header f.tip.header)) [
        | inl equal ↦ (
          f,
          ground (arith, equal),
          (
            (header_equal_iff f.new.header f.tip.header).0 equal,
            ([], there, refl),
            ([], there, refl),
          ),
        )
        | inr apart ↦
            let next : Fork = record {
              tip = record {
                id = f.tip.header.previous;
                header = tip;
                counts = append f.tip.counts f.tip.id;
              };
              new = record {
                id = f.new.header.previous;
                header = new;
                counts = prepend f.new.counts f.new.id;
              };
            } in
            let (f', e, (same, (tip_ids, tip_way, tip_counts), (new_ids, new_way, new_counts))) =
              walk_both_lem fuel k next rt rn (omega (arith, enough)) in
            (
              f',
              ground (arith, apart, tip_found, new_found, e),
              (
                same,
                (f.tip.id ∷ tip_ids, back tip_when tip_found tip_way, tip_counts),
                (f.new.id ∷ new_ids, back new_when new_found new_way, new_counts),
              ),
            )
      ]

  low_height :
      (m n : ℕ) (tip new : CountHeader)
      → tip.height ≡ pos m
      → new.height ≡ pos n
      → (low : ℕ) × ((if ltb_ℤ new.height tip.height then new.height else tip.height) ≡ pos low)
        × (low ≤ m)
        × (low ≤ n)
  low_height m n tip new et en = elim (Bool-cases (ltb_ℤ new.height tip.height)) [
    | inl lower ↦ (n, ground (arith, lower), ground (arith, lower), omega (arith))
    | inr higher ↦ (m, ground (arith, higher), omega (arith), ground (arith, higher))
  ]

  -- The steps of both walks are bounded by the fuel.
  enough_fuel :
      (m n : ℕ) (tip new : CountHeader)
      → tip.height ≡ pos m
      → new.height ≡ pos n
      → (m < pos_part tip.height + pos_part new.height + 1)
        × (n < pos_part tip.height + pos_part new.height + 1)
  enough_fuel m n tip new et en =
      let em : pos_part tip.height ≡ m = ap pos_part et in
      let en' : pos_part new.height ≡ n = ap pos_part en in (omega (arith, em), omega (arith, en'))

  find_fork-run :
      (tip_id : CountId) (tip : CountHeader) (new_id : CountId) (new : CountHeader) (low : ℕ)
      (t s : Walked) (f : Fork)
      → (if ltb_ℤ new.height tip.height then new.height else tip.height) ≡ pos low
      → walk_down history append
          (pos_part tip.height + pos_part new.height + 1)
          (pos low)
          (record { id = tip_id; header = tip; counts = [] })
        ≡ some (ok t)
      → walk_down history prepend
          (pos_part tip.height + pos_part new.height + 1)
          (pos low)
          (record { id = new_id; header = new; counts = [] })
        ≡ some (ok s)
      → walk_both history
          (pos_part tip.height + pos_part new.height + 1)
          (record { tip = t; new = s })
        ≡ some (ok f)
      → find_fork history tip_id tip new_id new ≡ some (ok f)
  unfolding find_fork
  find_fork-run tip_id tip new_id new low t s f el et es e = rw (find_fork, el, et, el, es, e)

  -- Where the storage holds the points of the tip and of a new count's parent down to one genesis
  -- header at height 0, with heights that rise by one, the walk back ends within its fuel, returns no
  -- error and meets no header that is missing. It stops on both points at equal headers.
  -- countsToDisconnect are the counts from the tip down to that ancestor, without it, in this order,
  -- and countsToConnect those from the parent down to it, without it, in the opposite order.
  pub find_fork-Descent :
      (m n : ℕ) (tip_id : CountId) (tip : CountHeader) (new_id : CountId) (new : CountHeader)
      → Rooted history genesis m tip
      → Rooted history genesis n new
      → (f : Fork) × (find_fork history tip_id tip new_id new ≡ some (ok f))
        × (f.new.header ≡ f.tip.header)
        × Descent history tip_id tip f.tip.counts f.tip.id f.tip.header
        × ((ids : List CountId) × Descent history new_id new ids f.new.id f.new.header
            × (f.new.counts ≡ reverse ids))
  find_fork-Descent m n tip_id tip new_id new rt rn =
      let et = height-Rooted m tip rt in
      let en = height-Rooted n new rn in
      let (fuel_m, fuel_n) = enough_fuel m n tip new et en in
      let (low, lowest, low_m, low_n) = low_height m n tip new et en in
      let fuel = pos_part tip.height + pos_part new.height + 1 in
      let from_tip : Walked = record { id = tip_id; header = tip; counts = [] } in
      let from_new : Walked = record { id = new_id; header = new; counts = [] } in
      let (t, et', (rt', tip_ids, tip_way, tip_counts)) =
        walk_down_lem append fuel m low from_tip rt low_m (omega (arith, fuel_m)) in
      let (s, es', (rs', new_ids, new_way, new_counts)) =
        walk_down_lem prepend fuel n low from_new rn low_n (omega (arith, fuel_n)) in
      let (f, e, (same, (more_tip, tip_on, tip_all), (more_new, new_on, new_all))) =
        walk_both_lem fuel low (record { tip = t; new = s }) rt' rs'
          (omega (arith, fuel_m, low_m)) in
      (
        f,
        find_fork-run tip_id tip new_id new low t s f lowest et' es' e,
        same,
        subst (λ ids. Descent history tip_id tip ids f.tip.id f.tip.header)
            (sym (pushed_all-append history [] (tip_ids ++ more_tip))
              ∙ sym (pushed_all-pushed_all history append [] tip_ids more_tip)
              ∙ ap (λ c. pushed_all append c more_tip) (sym tip_counts)
              ∙ sym tip_all)
            (Descent-append history tip_way tip_on),
        (
          new_ids ++ more_new,
          Descent-append history new_way new_on,
          new_all
              ∙ ap (λ c. pushed_all prepend c more_new) new_counts
              ∙ pushed_all-pushed_all history prepend [] new_ids more_new
              ∙ pushed_all-prepend history [] (new_ids ++ more_new),
        ),
      )
