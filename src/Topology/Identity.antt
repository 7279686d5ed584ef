-- ===== src/Topology/Identity.antt =====
-- What the checks of topology.py establish: the shape of an accepted graph, and the identity of the
-- worker found in it.
use coldsnap.Base.{
  String, Bool, true, false, Option, none, some, List, [], ◌∷◌, ◌≡◌, refl, ◌≢◌, ◌∙◌, subst, inl,
  inr, arith, Result, ok, raised, ◌>>=◌, >>=-eq-ok, Bool-cases, Option-cases, ◌==◌, string_eq, All,
  to_set, is_empty, Json, str, obj, field, JsonLibrary, if◌then◌else◌,
}
use coldsnap.Topology.Graph.{
  TopologyError, graph_invalid_structure, worker_unresolved, Environment, ExecutionGraph, is_id,
  as_worker, as_workers, as_graph, check_graph, parse_graph, without_graph, execution_graph,
  member_of, items,
}
use coldsnap.Topology.Workers.{
  lookup, single_worker, group_worker, by_size, local_slot, worker_id, world_members, texts,
  any_unhashable,
}

-- The unit and each slot's worker are identifiers, and there is a slot.
pub IsExecutionGraph : ExecutionGraph → Type 0
IsExecutionGraph g =
    (is_id g.unit ≡ true)
    × (g.by_process_slot ≢ [])
    × All (λ (p : String × String). is_id p.1 ≡ true) g.by_process_slot

as_worker-eq-ok : (v : Json) (w : String) → as_worker v ≡ ok w → is_id w ≡ true
unfolding as_worker
as_worker-eq-ok (str s) w h = elim (Bool-cases (is_id s)) [
  | inl good ↦ ground arith
  | inr bad ↦ ground arith
]
as_worker-eq-ok _ w h = cc

as_workers-eq-ok :
    (entries : List (String × Json)) (slots : List (String × String))
    → as_workers entries ≡ ok slots
    → All (λ (p : String × String). is_id p.1 ≡ true) slots
unfolding as_workers
as_workers-eq-ok [] slots h = ground arith
as_workers-eq-ok ((slot, value) ∷ rest) slots h =
    let (worker, p, h1) = >>=-eq-ok (as_worker value) _ h in
    let (workers, q, h2) = >>=-eq-ok (as_workers rest) _ h1 in
    ground (arith, as_worker-eq-ok value worker p, as_workers-eq-ok rest workers q, h2)

as_workers_nonempty :
    (entry : String × Json) (entries : List (String × Json)) (slots : List (String × String))
    → as_workers (entry ∷ entries) ≡ ok slots
    → slots ≢ []
unfolding as_workers
as_workers_nonempty (slot, value) rest slots h none_left =
    let (worker, p, h1) = >>=-eq-ok (as_worker value) _ h in
    let (workers, q, h2) = >>=-eq-ok (as_workers rest) _ h1 in ground arith

-- `if not test: raise e`
if_raised-eq-ok {ℓ} :
    {A : Type ℓ} (b : Bool) (m : Result TopologyError A) (e : TopologyError) {a : A}
    → (if b then m else raised e) ≡ ok a
    → (b ≡ true) × (m ≡ ok a)
if_raised-eq-ok true m e h = (refl, h)
if_raised-eq-ok false m e h = cc

as_graph-IsExecutionGraph :
    (unit slots groups : Option Json) (g : ExecutionGraph)
    → as_graph unit slots groups ≡ ok g
    → IsExecutionGraph g
unfolding as_graph IsExecutionGraph
as_graph-IsExecutionGraph (some (str unit)) (some (obj (field k v rest))) (some (obj groups)) g h =
    let (good, accepted) = if_raised-eq-ok (is_id unit) _ graph_invalid_structure h in
    let (workers, p, q) = >>=-eq-ok (as_workers (items (field k v rest))) _ accepted in
    let built : record { unit = unit; by_process_slot = workers; groups = items groups } ≡ g = cc in
    subst IsExecutionGraph built (
      good,
      as_workers_nonempty (k, v) (items rest) workers p,
      as_workers-eq-ok (items (field k v rest)) workers p,
    )
as_graph-IsExecutionGraph _ _ _ g h = cc

check_graph-IsExecutionGraph :
    (v : Json) (g : ExecutionGraph) → check_graph v ≡ ok g → IsExecutionGraph g
unfolding check_graph
check_graph-IsExecutionGraph (obj fs) g h =
    as_graph-IsExecutionGraph (member_of "unit" fs) (member_of "by_process_slot" fs)
      (member_of "groups" fs) g h
check_graph-IsExecutionGraph _ g h = cc

parse_graph-IsExecutionGraph :
    (v : Option Json) (g : ExecutionGraph) → parse_graph v ≡ ok (some g) → IsExecutionGraph g
unfolding parse_graph
parse_graph-IsExecutionGraph (some v) g h =
    let (found, p, q) = >>=-eq-ok (check_graph v) _ h in
    check_graph-IsExecutionGraph v g (p ∙ ground arith)
parse_graph-IsExecutionGraph none g h = cc

without_graph_none : (required : Bool) (g : ExecutionGraph) → without_graph required ≢ ok (some g)
unfolding without_graph
without_graph_none true g h = cc
without_graph_none false g h = cc

-- A graph that `execution_graph` returns has an identifier as its unit, at least one slot, and an
-- identifier as the worker of each slot, whatever the JSON library made of the text.
pub execution_graph-IsExecutionGraph :
    (l : JsonLibrary) (values : Environment) (required : Bool) (g : ExecutionGraph)
    → execution_graph l values required ≡ ok (some g)
    → IsExecutionGraph g
unfolding execution_graph
execution_graph-IsExecutionGraph l values required g h =
    elim (Option-cases (values "COLDSNAP_EXECUTION_GRAPH")) [
      | inl unset ↦ absurd (without_graph_none required g (ground arith))
      | inr (raw, read) ↦ elim (Bool-cases (is_empty raw)) [
        | inl empty ↦ absurd (without_graph_none required g (ground arith))
        | inr full ↦ parse_graph-IsExecutionGraph (l.loads raw) g (ground arith)
      ]
    ]

lookup_id :
    (slot : String) (slots : List (String × String)) (w : String)
    → All (λ (p : String × String). is_id p.1 ≡ true) slots
    → lookup slot slots ≡ some w
    → is_id w ≡ true
unfolding lookup
lookup_id slot [] w h e = cc
lookup_id slot ((s, worker) ∷ rest) w h e = elim (Bool-cases (s == slot)) [
  | inl hit ↦ ground arith
  | inr miss ↦ lookup_id slot rest w h.1 (ground arith)
]

single_worker_id : (names : List String) (w : String) → single_worker names ≡ ok w → is_id w ≡ true
unfolding single_worker
single_worker_id (worker ∷ []) w h =
    let (good, e) = if_raised-eq-ok (is_id worker) _ worker_unresolved h in ground arith
single_worker_id [] w h = cc
single_worker_id (a ∷ b ∷ rest) w h = cc

group_worker_id :
    (g : ExecutionGraph) (rank : Option String) (w : String)
    → group_worker g rank ≡ ok w
    → is_id w ≡ true
unfolding group_worker
group_worker_id g none w h = cc
group_worker_id g (some rank) w h =
    elim (Bool-cases (any_unhashable (world_members rank g.groups))) [
      | inl bad ↦ ground arith
      | inr good ↦
          let chain : (texts (world_members rank g.groups) >>= λ names.
          single_worker (to_set names))
              ≡ ok w =
            ground arith in
          let (names, p, q) = >>=-eq-ok (texts (world_members rank g.groups)) _ chain in
          single_worker_id (to_set names) w q
    ]

by_size_id :
    (g : ExecutionGraph) (values : Environment) (slots : List (String × String)) (w : String)
    → All (λ (p : String × String). is_id p.1 ≡ true) slots
    → by_size g values slots ≡ ok w
    → is_id w ≡ true
unfolding by_size
by_size_id g values ((slot, worker) ∷ []) w h e = ground arith
by_size_id g values [] w h e = group_worker_id g _ w e
by_size_id g values (a ∷ b ∷ rest) w h e = group_worker_id g _ w e

local_slot_id :
    (g : ExecutionGraph) (rank : Option String) (w : String)
    → IsExecutionGraph g
    → local_slot g rank ≡ some w
    → is_id w ≡ true
unfolding local_slot IsExecutionGraph
local_slot_id g none w h e = cc
local_slot_id g (some rank) w h e = lookup_id rank g.by_process_slot w h.2 e

-- On a graph of that shape each way in which `worker_id` finds a worker, by the local slot, as the only
-- slot, or by the rank in the world groups, gives an identifier.
pub worker_id-IsId :
    (g : ExecutionGraph) (values : Environment) (w : String)
    → IsExecutionGraph g
    → worker_id g values ≡ ok w
    → is_id w ≡ true
unfolding worker_id IsExecutionGraph
worker_id-IsId g values w h e = elim (Option-cases (local_slot g (values "LOCAL_RANK"))) [
  | inl miss ↦ by_size_id g values g.by_process_slot w h.2 (ground arith)
  | inr (worker, hit) ↦ local_slot_id g (values "LOCAL_RANK") w h (hit ∙ ground arith)
]
