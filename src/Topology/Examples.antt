-- ===== src/Topology/Examples.antt =====
-- Runs of topology.py on a graph of two workers, and each of its theorems at it.
use coldsnap.Base.{
  true, false, none, some, [], ◌∷◌, ◌≡◌, ◌≢◌, ◌↔◌, refl, ok, raised, pos, Json, int, str, obj,
  Fields, field, end, JsonLibrary, string_eq, ◌==◌, if◌then◌else◌,
}
use coldsnap.Topology.Graph.{Environment, ExecutionGraph, rank_disagrees, execution_graph, is_id}
use coldsnap.Topology.Workers.{worker_id}
use coldsnap.Topology.Ranks.{global_rank, graph_or_environment}
use coldsnap.Topology.Worlds.{world_group}
use coldsnap.Topology.Identity.{IsExecutionGraph, execution_graph-IsExecutionGraph, worker_id-IsId}
use coldsnap.Topology.Placement.{IsPlaced, global_rank_iff, global_rank-required}
use coldsnap.Topology.Uniqueness.{IsOnlyGroup, world_group_iff}

abbrev ranks_json : Fields
ranks_json = field "3" (str "w0") (field "12" (str "w1") end)

abbrev world_json : Json
world_json = obj (
    field "kind" (str "vllm:world")
      (field "size" (int (pos 2)) (field "ranks" (obj ranks_json) end)))

abbrev slots_json : Fields
slots_json = field "0" (str "w0") (field "1" (str "w1") end)

abbrev graph_json : Json
graph_json = obj (
    field "unit" (str "unit-a") (
      field "by_process_slot" (obj slots_json)
        (field "groups" (obj (field "all" world_json end)) end)))

-- A stand-in for the library that reads any text as the graph.
abbrev reader : JsonLibrary
reader = record { dumps = λ v. none; loads = λ s. some graph_json; sha256 = λ s. s }

abbrev on_slot_one : Environment
on_slot_one name =
    if name == "LOCAL_RANK"
    then some "1"
    else if name == "COLDSNAP_EXECUTION_GRAPH"
    then some "graph"
    else none

abbrev on_rank_twelve : Environment
on_rank_twelve name = if name == "RANK" then some "12" else none

abbrev on_wrong_rank : Environment
on_wrong_rank name =
    if name == "LOCAL_RANK" then some "1" else if name == "COLDSNAP_RANK" then some "3" else none

abbrev two_workers : ExecutionGraph
two_workers = record {
  unit = "unit-a";
  by_process_slot = ("0", "w0") ∷ ("1", "w1") ∷ [];
  groups = ("all", world_json) ∷ [];
}

reads_graph : execution_graph reader on_slot_one true ≡ ok (some two_workers)
unfolding execution_graph
reads_graph = refl

reads_optional : graph_or_environment reader none on_slot_one ≡ ok (some two_workers)
unfolding graph_or_environment
reads_optional = refl

finds_by_rank : worker_id two_workers on_rank_twelve ≡ ok "w1"
unfolding worker_id
finds_by_rank = refl

finds_rank : global_rank reader none on_slot_one true ≡ ok (some (pos 12))
unfolding global_rank
finds_rank = refl

refuses_other_rank :
    global_rank reader (some two_workers) on_wrong_rank false ≡ raised rank_disagrees
unfolding global_rank
refuses_other_rank = refl

finds_group : world_group (pos 12) two_workers ≡ ok ("all", world_json)
unfolding world_group
finds_group = refl

execution_graph-IsExecutionGraph_example : IsExecutionGraph two_workers
execution_graph-IsExecutionGraph_example =
    execution_graph-IsExecutionGraph reader on_slot_one true two_workers reads_graph

worker_id-IsId_example : is_id "w1" ≡ true
worker_id-IsId_example =
    worker_id-IsId two_workers on_rank_twelve "w1"
      (execution_graph-IsExecutionGraph reader on_slot_one true two_workers reads_graph)
      finds_by_rank

global_rank_iff_example :
    (global_rank reader none on_slot_one true ≡ ok (some (pos 12)))
    ↔ IsPlaced two_workers on_slot_one (pos 12)
global_rank_iff_example =
    global_rank_iff reader none two_workers on_slot_one true (pos 12) reads_optional

global_rank-required_example : global_rank reader none on_slot_one true ≢ ok none
global_rank-required_example = global_rank-required reader none on_slot_one

world_group_iff_example :
    (world_group (pos 12) two_workers ≡ ok ("all", world_json))
    ↔ IsOnlyGroup (pos 12) ("all", world_json) two_workers.groups
world_group_iff_example = world_group_iff (pos 12) two_workers ("all", world_json)
