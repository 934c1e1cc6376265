-- ===== src/ConsiderationQueue.antt =====
-- translation_queue_memory.go: the considerations that wait for a count, first come first served.
-- The lock makes each method one step. The ledger's imbalances and the graph, which other parts
-- change, are read as they are at the call.
pub mod Agreement
pub mod Add
pub mod Reprocess
use focal_point.Prelude.{
  ℕ, zero, suc, ◌≡◌, Bool, true, false, not, ◌&&◌, ◌||◌, Option, none, some, List, [], ◌∷◌, Bytes,
  ℤ, pos, add64, ltb_ℤ, eqb_ℤ, Map, lookup, insert, delete, if◌then◌else◌, nat_eq, bytes_equal,
  length, take, Result, ok, err, panic, ◌>>=◌, Action, ◌>>>◌, no_imbalance, descendant, pos_part,
}
use focal_point.Consideration.{
  Consideration, ConsiderationId, Crypto, consideration_id, is_mature, is_expired,
  check_consideration_series,
}
use focal_point.ImbalanceCache.{Balances, Cache, apply, reset}
use focal_point.Graph.{Graph, sender_descends}
use focal_point.Linked.{Linked, empty, push_back, push_front, remove, value_at, values}

-- What the queue asks of the rest of the program.
pub record Setting : Type 1 where
  pub Weight : Type 0
  pub crypto : Crypto
  pub ledger : Balances
  pub graph : Graph Weight

pub record Queue : Type 0 where
  pub cn_map : Map ConsiderationId ℕ
  pub cn_queue : Linked Consideration
  pub cache : Cache

unfoldable pub new_queue : Queue
new_queue = record { cn_map = []; cn_queue = empty; cache = reset }

unfoldable pub exists : ConsiderationId → Queue → Bool
exists id q = elim (lookup id q.cn_map) [ none ↦ false | some e ↦ true ]

-- `cnQueue.Remove(e)` and `delete(cnMap, id)` for `e` that the map has; a nil element is a panic.
unfoldable pub unlink : ConsiderationId → Action Queue (Unit {0})
unlink id q = elim (lookup id q.cn_map) [
  | none ↦ (panic, q)
  | some e ↦ (ok tt, record q { cn_map = delete id q.cn_map; cn_queue = remove e q.cn_queue })
]

module _ (env : Setting) where
  open env use {crypto, ledger, graph}

  -- The effect of a consideration on the cache, as a step of the queue.
  unfoldable pub apply_cached : Consideration → Action Queue Bool
  apply_cached cn q = let (r, cache) = apply ledger cn q.cache in (r, record q { cache = cache })

  -- `Add`: true if the consideration was added by this call.
  unfoldable pub add : ConsiderationId → Consideration → Action Queue Bool
  unfolding exists apply_cached
  add id cn q =
      if exists id q
      then (ok false, q)
      else apply_cached cn q >>> λ covered q.
          if not covered
          then (err no_imbalance, q)
          else ((sender_descends graph cn, q) >>> λ descends q.
              if descends then (err descendant, q) else (
                ok true,
                record q {
                  cn_map = insert id q.cn_queue.next q.cn_map;
                  cn_queue = push_back cn q.cn_queue;
                },
              ))

  -- One round of `AddBatch`: to the front, from wherever it was.
  unfoldable pub add_front : ConsiderationId → Consideration → Queue → Queue
  add_front id cn q =
      let others : Linked Consideration = elim (lookup id q.cn_map) [
        | none ↦ q.cn_queue
        | some e ↦ remove e q.cn_queue
      ] in
      record q { cn_map = insert id others.next q.cn_map; cn_queue = push_front cn others }

  -- `AddBatch` runs from the last to the first; with too few identifiers it panics at once.
  unfoldable pub add_batch : List ConsiderationId → List Consideration → Action Queue (Unit {0})
  unfolding add_front
  add_batch ids [] q = (ok tt, q)
  add_batch [] (cn ∷ cns) q = (panic, q)
  add_batch (id ∷ ids) (cn ∷ cns) q = add_batch ids cns q >>> λ _ q. (ok tt, add_front id cn q)

  -- The loop of `RemoveBatch`.
  unfoldable pub remove_ids : List ConsiderationId → Queue → Queue
  remove_ids [] q = q
  remove_ids (id ∷ ids) q = remove_ids ids (elim (lookup id q.cn_map) [
    | none ↦ q
    | some e ↦ record q { cn_map = delete id q.cn_map; cn_queue = remove e q.cn_queue }
  ])

  -- A consideration is out of date for the next count.
  unfoldable pub is_stale : ℤ → Consideration → Bool
  is_stale height cn =
      not (check_consideration_series cn (add64 height (pos 1)))
      || not (is_mature cn (add64 height (pos 1)))
      || is_expired cn (add64 height (pos 1))

  -- The consideration's element goes, under the identifier that is computed anew.
  unfoldable pub evict : Consideration → Action Queue (Unit {0})
  unfolding unlink
  evict cn q = (consideration_id crypto cn, q) >>> λ id q. unlink id q

  -- One round of `reprocessQueue`.
  unfoldable pub review : ℤ → Consideration → Action Queue (Unit {0})
  unfolding is_stale evict apply_cached
  review height cn q =
      if is_stale height cn
      then evict cn q
      else (apply_cached cn q >>> λ covered q.
          if not covered
          then evict cn q
          else ((sender_descends graph cn, q) >>> λ descends q.
              if descends then evict cn q else (ok tt, q)))

  -- Its loop, over a copy of the queue.
  unfoldable pub review_all : ℤ → List Consideration → Action Queue (Unit {0})
  unfolding review
  review_all height [] q = (ok tt, q)
  review_all height (cn ∷ cns) q = review height cn q >>> λ _ q. review_all height cns q

  unfoldable pub reprocess_queue : ℤ → Action Queue (Unit {0})
  unfolding review_all
  reprocess_queue height q =
      review_all height (values q.cn_queue.items) (record q { cache = reset })

  -- `RemoveBatch`: with more counts to come nothing is invalidated yet.
  unfoldable pub remove_batch : List ConsiderationId → ℤ → Bool → Action Queue (Unit {0})
  unfolding remove_ids reprocess_queue
  remove_batch ids height more q =
      if more then (ok tt, remove_ids ids q) else reprocess_queue height (remove_ids ids q)

-- `Get`: the first ones, all of them at limit 0; a negative limit is a panic of `make`.
unfoldable pub get : ℤ → Queue → Result (List Consideration)
get limit q =
    let all = values q.cn_queue.items in
    if eqb_ℤ limit (pos 0) || ltb_ℤ (pos (length all)) limit
    then ok all
    else if ltb_ℤ limit (pos 0)
    then panic
    else ok (take (pos_part limit) all)

-- `ExistsSigned`
unfoldable pub exists_signed : ConsiderationId → Bytes → Queue → Bool
exists_signed id signature q = elim (lookup id q.cn_map) [
  | none ↦ false
  | some e ↦ elim (value_at e q.cn_queue.items) [
    | none ↦ false
    | some cn ↦ bytes_equal cn.signature signature
  ]
]

unfoldable pub len : Queue → ℕ
len q = length q.cn_queue.items
