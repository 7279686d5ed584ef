-- ===== src/Topology/Graph.antt =====
-- topology.py: `execution_graph` and `_is_world_group`. A graph is read from JSON; JSON objects have one
-- member for a key.
use Prim.Native.Char.{code}
use coldsnap.Base.{
  ℕ, String, Bool, true, false, ◌&&◌, ◌||◌, Option, none, some, List, [], ◌∷◌, Result, ok, raised,
  ◌>>=◌, ◌==◌, string_eq, is_empty, text_length, leb, eqb, if◌then◌else◌, Json, Fields, str, obj,
  field, end, JsonLibrary,
}

-- A `RuntimeError` for each place that raises one, and the `TypeError` of an unhashable set member.
pub data TopologyError : Type 0 where
  graph_required : TopologyError
  graph_invalid_json : TopologyError
  graph_invalid_structure : TopologyError
  graph_invalid_worker : TopologyError
  worker_unresolved : TopologyError
  unhashable_member : TopologyError
  invalid_rank : String → TopologyError
  invalid_world_rank : TopologyError
  conflicting_ranks : TopologyError
  rank_disagrees : TopologyError
  rank_unresolved : TopologyError
  no_single_world_group : TopologyError

abbrev pub Environment : Type 0
Environment = String → Option String

pub is_alphanumeric : ℕ → Bool
is_alphanumeric c = (leb 65 c && leb c 90) || (leb 97 c && leb c 122) || (leb 48 c && leb c 57)

pub id_tail : String → Bool
id_tail String.[] = true
id_tail (String.◌∷◌ c s) =
    (is_alphanumeric (code c) || eqb (code c) 46 || eqb (code c) 95 || eqb (code c) 45) && id_tail s

-- `_ID.fullmatch(text) is not None`
unfoldable pub is_id : String → Bool
unfolding is_alphanumeric id_tail
is_id String.[] = false
is_id (String.◌∷◌ c s) = is_alphanumeric (code c) && id_tail s && leb (text_length s) 127

-- `fields.get(key)`
unfoldable pub member_of : String → Fields → Option Json
member_of key end = none
member_of key (field k v rest) = if k == key then some v else member_of key rest

unfoldable pub ends_with : String → String → Bool
ends_with suffix String.[] = is_empty suffix
ends_with suffix (String.◌∷◌ c s) = String.◌∷◌ c s == suffix || ends_with suffix s

abbrev pub names_world : Option Json → Bool
names_world (some (str kind)) = ends_with ":world" kind
names_world _ = false

abbrev pub is_object : Option Json → Bool
is_object (some (obj fs)) = true
is_object _ = false

unfoldable pub is_world_group : Json → Bool
unfolding member_of ends_with
is_world_group (obj group) =
    names_world (member_of "kind" group) && is_object (member_of "ranks" group)
is_world_group _ = false

abbrev pub fields_or_empty : Option Json → Fields
fields_or_empty (some (obj fs)) = fs
fields_or_empty _ = end

-- `group["ranks"]` of a world group
unfoldable pub ranks_of : Json → Fields
unfolding member_of
ranks_of (obj group) = fields_or_empty (member_of "ranks" group)
ranks_of _ = end

-- What the code reads of a graph.
pub record ExecutionGraph : Type 0 where
  pub unit : String
  pub by_process_slot : List (String × String)
  pub groups : List (String × Json)

abbrev pub items : Fields → List (String × Json)
items end = []
items (field k v rest) = (k, v) ∷ items rest

unfoldable pub as_worker : Json → Result TopologyError String
unfolding is_id
as_worker (str worker) = if is_id worker then ok worker else raised graph_invalid_worker
as_worker _ = raised graph_invalid_worker

unfoldable pub as_workers : List (String × Json) → Result TopologyError (List (String × String))
unfolding as_worker
as_workers [] = ok []
as_workers ((slot, value) ∷ rest) = do
  worker ← as_worker value
  workers ← as_workers rest
  ok ((slot, worker) ∷ workers)

unfoldable pub as_graph :
    Option Json → Option Json → Option Json → Result TopologyError ExecutionGraph
unfolding is_id as_workers
as_graph (some (str unit)) (some (obj (field k v rest))) (some (obj groups)) =
    if is_id unit
    then (do
      workers ← as_workers (items (field k v rest))
      ok (record { unit = unit; by_process_slot = workers; groups = items groups }))
    else raised graph_invalid_structure
as_graph _ _ _ = raised graph_invalid_structure

unfoldable pub check_graph : Json → Result TopologyError ExecutionGraph
unfolding as_graph member_of
check_graph (obj graph) =
    as_graph (member_of "unit" graph) (member_of "by_process_slot" graph) (member_of "groups" graph)
check_graph _ = raised graph_invalid_structure

unfoldable pub parse_graph : Option Json → Result TopologyError (Option ExecutionGraph)
unfolding check_graph
parse_graph (some value) = do graph ← check_graph value; ok (some graph)
parse_graph _ = raised graph_invalid_json

unfoldable pub without_graph : Bool → Result TopologyError (Option ExecutionGraph)
without_graph true = raised graph_required
without_graph false = ok none

unfoldable pub execution_graph :
    JsonLibrary → Environment → Bool → Result TopologyError (Option ExecutionGraph)
unfolding parse_graph without_graph
execution_graph l values required = elim (values "COLDSNAP_EXECUTION_GRAPH") [
  | none ↦ without_graph required
  | some raw ↦ if is_empty raw then without_graph required else parse_graph (l.loads raw)
]
