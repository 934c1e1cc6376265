-- ===== src/Processor/Node.antt =====
-- The state that the processor works on: the ledger and the storage behind their interfaces of
-- ledger.go and stage_storage.go, the consideration queue, and what was sent to the channels.
use focal_point.Prelude.{ℕ, Bool, Option, List, Bytes, ℤ, Result, Action}
use focal_point.Consideration.{Consideration, ConsiderationId}
use focal_point.Count.{Count, CountId, CountHeader, Hashing}
use focal_point.Graph.{Graph}
use focal_point.ImbalanceCache.{Balances}
use focal_point.ConsiderationQueue.{Setting, Queue}
use focal_point.Processor.Target.{History}

-- `unnamed` is an int that is none of the four.
pub data BranchType : Type 0 where
  main side orphan unknown : BranchType
  unnamed : ℕ → BranchType

-- The calls of `Ledger` and `CountStorage` that the processor makes, over the state of both. A nil
-- pointer is none; a method that reads leaves the state as it is.
pub record Backend (S : Type 0) : Type 0 where
  pub get_count : CountId → S → Result (Option Count)
  pub get_count_header : CountId → S → Result (Option (CountHeader × ℤ))
  pub store : CountId → Count → ℤ → Action S (Unit {0})
  pub get_point_tip : S → Result (Option (CountId × ℤ))
  pub get_count_id_for_height : ℤ → S → Result (Option CountId)
  pub get_branch_type : CountId → S → Result BranchType
  pub set_branch_type : CountId → BranchType → Action S (Unit {0})
  pub connect_count : CountId → Count → Action S (List ConsiderationId)
  pub disconnect_count : CountId → Count → Action S (List ConsiderationId)
  pub get_consideration_index : ConsiderationId → S → Result (Option (CountId × ℤ))
  pub get_public_key_imbalance : S → Balances

pub record TipChange : Type 0 where
  pub count_id : CountId
  pub count : Count
  pub source : Bytes
  pub connect : Bool
  pub more : Bool

pub record NewTx : Type 0 where
  pub consideration_id : ConsiderationId
  pub consideration : Consideration
  pub source : Bytes

-- Every registered channel gets the same messages, in this order.
pub record World (S : Type 0) : Type 0 where
  pub backend : S
  pub queue : Queue
  pub tip_changes : List TipChange
  pub new_txs : List NewTx

-- What does not change while the processor runs, with the graph, which only the indexer changes.
pub record Processor (S : Type 0) : Type 1 where
  pub Weight : Type 0
  pub genesis_id : CountId
  pub hashing : Hashing
  pub backend : Backend S
  pub graph : Graph Weight

module _ {S : Type 0} (p : Processor S) where
  abbrev pub history : S → History
  history s = record {
    get_count_header = λ id. p.backend.get_count_header id s;
    get_count_id_for_height = λ height. p.backend.get_count_id_for_height height s;
  }

  abbrev pub setting : S → Setting
  setting s = record {
    Weight = p.Weight;
    crypto = p.hashing.crypto;
    ledger = p.backend.get_public_key_imbalance s;
    graph = p.graph;
  }

  -- A call that only reads the ledger and the storage.
  unfoldable pub reading : {A : Type 0} → (S → Result A) → Action (World S) A
  reading read w = (read w.backend, w)

  -- A call that may change the ledger or the storage.
  unfoldable pub on_backend : {A : Type 0} → Action S A → Action (World S) A
  on_backend call w = let (r, s) = call w.backend in (r, record w { backend = s })

  unfoldable pub on_queue : {A : Type 0} → (Setting → Action Queue A) → Action (World S) A
  on_queue call w =
      let (r, queue) = call (setting w.backend) w.queue in (r, record w { queue = queue })
