-- ===== src/Tests/Acceptance.antt =====
-- The theorems on the processor at a node that holds one genesis header.
use focal_point.Prelude.{ℕ, ◌≡◌, ◌⊎◌, none, some, [], ◌∷◌, pos, ok, ◌==◌, if◌then◌else◌}
use focal_point.Count.{CountHeader}
use focal_point.ConsiderationQueue.{new_queue}
use focal_point.Graph.{new_graph}
use focal_point.Processor.Sound.{IsSound}
use focal_point.Processor.Node.{Backend, Processor, World, unknown, main}
use focal_point.Processor.Accept.{accept_count, process_count, process_consideration}
use focal_point.Processor.Accept.Vetted.{
  IsVetted, IsTimely, accept_count-IsVetted, process_count-IsSound, process_consideration-IsTimely,
}
use focal_point.Tests.Data.{header, count, cn_ab, toy_hashing, even_ledger, peer_a}

-- The parent of `count`.
abbrev genesis : CountHeader
genesis = record header { previous = 99; height = pos 0; point_work = 0; time = pos 500 }

-- The state counts the writes.
abbrev toy_backend : Backend ℕ
toy_backend = record {
  get_count = λ id s. ok none;
  get_count_header = λ id s. if id == 0 then ok (some (genesis, pos 0)) else ok none;
  store = λ id count now s. (ok tt, 1);
  get_point_tip = λ s. ok (some (0, pos 0));
  get_count_id_for_height = λ height s. ok none;
  get_branch_type = λ id s. if id == 0 then ok main else ok unknown;
  set_branch_type = λ id branch s. (ok tt, 1);
  connect_count = λ id count s. (ok (3 ∷ 7 ∷ []), 1);
  disconnect_count = λ id count s. (ok (3 ∷ 7 ∷ []), 1);
  get_consideration_index = λ id s. ok none;
  get_public_key_imbalance = λ s. even_ledger;
}

abbrev toy_processor : Processor ℕ
toy_processor = record {
  Weight = ℕ;
  genesis_id = 0;
  hashing = toy_hashing;
  backend = toy_backend;
  graph = new_graph;
}

abbrev start : World ℕ
start = record { backend = 0; queue = new_queue; tip_changes = []; new_txs = [] }

accept_count-IsVetted_example :
    ((accept_count toy_processor 5 count (pos 2000) peer_a start).1 ≡ start)
    ⊎ IsVetted toy_processor 5 count start
accept_count-IsVetted_example = accept_count-IsVetted toy_processor 5 count (pos 2000) peer_a start

process_count-IsSound_example :
    ((process_count toy_processor 5 count (pos 2000) peer_a start).1 ≡ start)
    ⊎ (IsSound toy_hashing 5 count (pos 2000)
        × (IsVetted toy_processor 5 count start ⊎ (5 ≡ toy_processor.genesis_id)))
process_count-IsSound_example = process_count-IsSound toy_processor 5 count (pos 2000) peer_a start

process_consideration-IsTimely_example :
    ((process_consideration toy_processor 7 cn_ab peer_a start).1 ≡ start)
    ⊎ IsTimely toy_processor 7 cn_ab start
process_consideration-IsTimely_example =
    process_consideration-IsTimely toy_processor 7 cn_ab peer_a start
