-- ===== src/Topology/Worlds.antt =====
-- topology.py: `world_group`.
use coldsnap.Base.{
  String, Bool, true, false, ◌&&◌, Option, none, some, List, [], ◌∷◌, Result, ok, raised, string_eq,
  if◌then◌else◌, ℤ, show_ℤ, Json, bool, int, obj,
}
use coldsnap.Topology.Graph.{
  TopologyError, no_single_world_group, ExecutionGraph, is_world_group, ranks_of, member_of,
}

-- `isinstance(value, int)`, which a Boolean is too
abbrev pub is_int : Option Json → Bool
is_int (some (int n)) = true
is_int (some (bool b)) = true
is_int _ = false

abbrev pub is_present : Option Json → Bool
is_present (some v) = true
is_present _ = false

unfoldable pub size_of : Json → Option Json
unfolding member_of
size_of (obj group) = member_of "size" group
size_of _ = none

unfoldable pub matches_rank : ℤ → Json → Bool
unfolding is_world_group size_of ranks_of member_of show_ℤ
matches_rank rank group =
    is_world_group group
    && is_int (size_of group)
    && is_present (member_of (show_ℤ rank) (ranks_of group))

unfoldable pub matching : ℤ → List (String × Json) → List (String × Json)
unfolding matches_rank
matching rank [] = []
matching rank ((id, group) ∷ rest) =
    let later = matching rank rest in if matches_rank rank group then (id, group) ∷ later else later

unfoldable pub exactly_one : List (String × Json) → Result TopologyError (String × Json)
exactly_one (entry ∷ []) = ok entry
exactly_one _ = raised no_single_world_group

unfoldable pub world_group : ℤ → ExecutionGraph → Result TopologyError (String × Json)
unfolding matching exactly_one
world_group rank graph = exactly_one (matching rank graph.groups)
