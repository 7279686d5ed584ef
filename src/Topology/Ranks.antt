-- ===== src/Topology/Ranks.antt =====
-- topology.py: `global_rank`.
use coldsnap.Base.{
  String, Bool, false, not, Option, none, some, List, [], ◌∷◌, ◌++◌, Result, ok, raised, ◌>>=◌,
  ◌>>◌, raise_if, ◌==◌, string_eq, int_eq, to_set, if◌then◌else◌, ℤ, pos, ltb_ℤ, eqb_ℤ, read_int,
  show_ℤ, Json, str, JsonLibrary,
}
use coldsnap.Topology.Graph.{
  TopologyError, invalid_rank, invalid_world_rank, conflicting_ranks, rank_disagrees,
  rank_unresolved, Environment, ExecutionGraph, is_world_group, ranks_of, items, execution_graph,
}
use coldsnap.Topology.Workers.{worker_id}

abbrev pub rank_names : List String
rank_names = "RANK" ∷ "COLDSNAP_RANK" ∷ "COLDSNAP_EXPECTED_RANK" ∷ []

unfoldable pub nonnegative : TopologyError → Option ℤ → Result TopologyError ℤ
nonnegative e (some rank) = if ltb_ℤ rank (pos 0) then raised e else ok rank
nonnegative e _ = raised e

-- The first of the variables that is set has to hold a rank.
unfoldable pub explicit_rank : Environment → List String → Result TopologyError (Option ℤ)
unfolding nonnegative read_int
explicit_rank values [] = ok none
explicit_rank values (name ∷ names) =
    let later = explicit_rank values names in
    elim (values name) [
      | none ↦ later
      | some raw ↦ nonnegative (invalid_rank name) (read_int raw) >>= λ rank. ok (some rank)
    ]

abbrev pub is_worker : String → Json → Bool
is_worker worker (str member) = member == worker
is_worker worker _ = false

-- A rank's text: a decimal number, not negative, written as Python writes it.
unfoldable pub world_rank : String → Result TopologyError ℤ
unfolding nonnegative read_int show_ℤ
world_rank rank_text = do
  rank ← nonnegative invalid_world_rank (read_int rank_text)
  raise_if (not (show_ℤ rank == rank_text)) invalid_world_rank
  ok rank

-- The worker's ranks in one group, and in all world groups.
unfoldable pub ranks_in : String → List (String × Json) → Result TopologyError (List ℤ)
unfolding world_rank
ranks_in worker [] = ok []
ranks_in worker ((rank_text, member) ∷ rest) =
    let later = ranks_in worker rest in
    if is_worker worker member
    then (world_rank rank_text >>= λ rank. later >>= λ ranks. ok (rank ∷ ranks))
    else later

unfoldable pub world_ranks : String → List (String × Json) → Result TopologyError (List ℤ)
unfolding ranks_in is_world_group ranks_of
world_ranks worker [] = ok []
world_ranks worker ((id, group) ∷ rest) =
    let later = world_ranks worker rest in
    if is_world_group group
    then (ranks_in worker (items (ranks_of group)) >>= λ here.
        later >>= λ ranks. ok (here ++ ranks))
    else later

unfoldable pub at_most_one : List ℤ → Result TopologyError (Option ℤ)
at_most_one [] = ok none
at_most_one (rank ∷ []) = ok (some rank)
at_most_one _ = raised conflicting_ranks

unfoldable pub topology_rank : Option ExecutionGraph → Environment → Result TopologyError (Option ℤ)
unfolding worker_id world_ranks at_most_one to_set
topology_rank none values = ok none
topology_rank (some graph) values = do
  worker ← worker_id graph values
  ranks ← world_ranks worker graph.groups
  at_most_one (to_set ranks)

unfoldable pub settle : Option ℤ → Option ℤ → Bool → Result TopologyError (Option ℤ)
settle (some explicit) (some placed) required =
    if eqb_ℤ explicit placed then ok (some placed) else raised rank_disagrees
settle none (some placed) required = ok (some placed)
settle (some explicit) none required = ok (some explicit)
settle none none required = if required then raised rank_unresolved else ok none

unfoldable pub graph_or_environment :
    JsonLibrary → Option ExecutionGraph → Environment → Result TopologyError (Option ExecutionGraph)
unfolding execution_graph
graph_or_environment l (some graph) values = ok (some graph)
graph_or_environment l _ values = execution_graph l values false

unfoldable pub global_rank :
    JsonLibrary → Option ExecutionGraph → Environment → Bool → Result TopologyError (Option ℤ)
unfolding explicit_rank topology_rank settle graph_or_environment
global_rank l graph values required = do
  explicit ← explicit_rank values rank_names
  found ← graph_or_environment l graph values
  placed ← topology_rank found values
  settle explicit placed required
