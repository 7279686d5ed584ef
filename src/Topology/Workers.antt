-- ===== src/Topology/Workers.antt =====
-- topology.py: `worker_id`.
use coldsnap.Base.{
  String, Bool, true, false, Option, none, some, List, [], ◌∷◌, Result, ok, raised, ◌>>=◌, ◌==◌,
  string_eq, to_set, if◌then◌else◌, Json, null, str, arr, obj,
}
use coldsnap.Topology.Graph.{
  TopologyError, worker_unresolved, unhashable_member, Environment, ExecutionGraph, is_id,
  is_world_group, ranks_of, member_of,
}

unfoldable pub lookup : String → List (String × String) → Option String
lookup slot [] = none
lookup slot ((s, worker) ∷ rest) = if s == slot then some worker else lookup slot rest

-- The members that the world groups have at a rank, null ones left out.
abbrev pub cons_member : Option Json → List Json → List Json
cons_member none rest = rest
cons_member (some null) rest = rest
cons_member (some v) rest = v ∷ rest

unfoldable pub world_members : String → List (String × Json) → List Json
unfolding member_of ranks_of is_world_group
world_members rank [] = []
world_members rank ((id, group) ∷ rest) =
    let members = world_members rank rest in
    if is_world_group group then cons_member (member_of rank (ranks_of group)) members else members

-- Whether a member is a text, can be put into a set though it is no text, or cannot.
pub data MemberKind : Type 0 where
  text : String → MemberKind
  hashable unhashable : MemberKind

abbrev pub kind_of : Json → MemberKind
kind_of (str s) = text s
kind_of (arr xs) = unhashable
kind_of (obj fs) = unhashable
kind_of _ = hashable

-- The texts among the members. An unhashable one raises when the set is built. With one that is no
-- text the set either has two members or is not a worker; either way a `RuntimeError` is raised, and
-- its two messages are one reason here.
unfoldable pub texts : List Json → Result TopologyError (List String)
texts [] = ok []
texts (v ∷ vs) =
    let rest = texts vs in
    elim (kind_of v) [
      | text s ↦ rest >>= λ names. ok (s ∷ names)
      | unhashable ↦ raised unhashable_member
      | hashable ↦ rest >>= λ names. raised worker_unresolved
    ]

-- An unhashable member is found before any other test on the members.
unfoldable pub any_unhashable : List Json → Bool
any_unhashable [] = false
any_unhashable (v ∷ vs) = elim (kind_of v) [ unhashable ↦ true | _ ↦ any_unhashable vs ]

unfoldable pub single_worker : List String → Result TopologyError String
unfolding is_id
single_worker (worker ∷ []) = if is_id worker then ok worker else raised worker_unresolved
single_worker _ = raised worker_unresolved

unfoldable pub group_worker : ExecutionGraph → Option String → Result TopologyError String
unfolding world_members texts any_unhashable single_worker to_set
group_worker graph none = raised worker_unresolved
group_worker graph (some rank) =
    let members = world_members rank graph.groups in
    if any_unhashable members
    then raised unhashable_member
    else (do names ← texts members; single_worker (to_set names))

unfoldable pub by_size :
    ExecutionGraph → Environment → List (String × String) → Result TopologyError String
unfolding group_worker
by_size graph values ((slot, worker) ∷ []) = ok worker
by_size graph values _ = group_worker graph (values "RANK")

unfoldable pub local_slot : ExecutionGraph → Option String → Option String
unfolding lookup
local_slot graph none = none
local_slot graph (some rank) = lookup rank graph.by_process_slot

unfoldable pub worker_id : ExecutionGraph → Environment → Result TopologyError String
unfolding local_slot by_size
worker_id graph values = elim (local_slot graph (values "LOCAL_RANK")) [
  | some worker ↦ ok worker
  | none ↦ by_size graph values graph.by_process_slot
]
