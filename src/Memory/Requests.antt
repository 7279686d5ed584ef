-- ===== src/Memory/Requests.antt =====
-- memory.py: `require_checkpoint_plan`, which prepares a plan and admits it only if the provider can
-- carry it out. The provider's own operation is a parameter.
pub mod Admission
pub mod Correctness
use coldsnap.Base.{
  ℕ, String, Bool, true, false, ◌&&◌, ◌||◌, not, Option, none, some, List, [], ◌∷◌, map, Result, ok,
  raised, ◌>>=◌, ◌>>◌, raise_if, for_each, ◌==◌, string_eq, any, same_set, same_dict, length, ltb,
  ℤ, eqb_ℤ, JsonLibrary, keys_of,
}
use coldsnap.Memory.Failures.{
  Failure, memory_capability_error, no_prepare_operation, not_a_plan, plan_identity_differs,
  plan_generation_differs, plan_regions_differ, plan_policies_differ,
}
use coldsnap.Memory.Regions.{MemoryRegion, PreservationPolicy, RegionRef, resolve_regions}
use coldsnap.Memory.Capabilities.{ProviderCapabilities, require}
use coldsnap.Memory.Actions.{
  MemoryCheckpointAction, MemoryTransportAction, release_backing, unmap_pages, remap_pages,
  replay_mapping, action_eq, transport_eq, policy_eq,
}
use coldsnap.Memory.Plans.{MemoryCheckpointPlan, validate}

-- A provider: its capabilities, and `prepare_checkpoint` if it has one that can be called. That
-- returns a plan or something else, or raises.
pub record Provider : Type 0 where
  pub capabilities : ProviderCapabilities
  pub prepare_checkpoint :
      Option (List MemoryRegion → String → Result Failure (Option MemoryCheckpointPlan))

unfoldable pub action_requirements : MemoryCheckpointAction → List String
action_requirements release_backing = "release_backing_retain_va" ∷ []
action_requirements unmap_pages = "page_granular_mapping" ∷ []
action_requirements remap_pages = "page_granular_mapping" ∷ "exact_address_reservation" ∷ []
action_requirements replay_mapping = "mapping_recipe_replay" ∷ "exact_address_reservation" ∷ []
action_requirements _ = []

abbrev pub moves : MemoryCheckpointAction → Bool
moves a = not (a == MemoryCheckpointAction.retain)

abbrev pub detaches : MemoryTransportAction → Bool
detaches a = not (a == MemoryTransportAction.retain)

or_missing :
    Option (List MemoryRegion → String → Result Failure (Option MemoryCheckpointPlan))
    → Result Failure (List MemoryRegion → String → Result Failure (Option MemoryCheckpointPlan))
or_missing (some operation) = ok operation
or_missing _ = raised (memory_capability_error no_prepare_operation)

or_invalid : Option MemoryCheckpointPlan → Result Failure MemoryCheckpointPlan
or_invalid (some plan) = ok plan
or_invalid _ = raised (memory_capability_error not_a_plan)

-- `if test: capabilities.require(capability, ...)`
require_if : Bool → ProviderCapabilities → String → Result Failure (Unit {0})
require_if true capabilities capability = require capabilities capability
require_if false capabilities capability = ok tt

unfoldable pub region_names : List MemoryRegion → List String
region_names = map (λ r. r.name)

unfoldable pub region_policies : List MemoryRegion → List (String × PreservationPolicy)
region_policies = map (λ r. (r.name, r.policy))

-- The tests on the plan that the provider has returned.
unfoldable pub identify :
    ProviderCapabilities → String → MemoryCheckpointPlan → Result Failure (Unit {0})
identify capabilities generation plan = do
  raise_if
      (not (plan.provider == capabilities.provider)
        || not (eqb_ℤ plan.provider_abi capabilities.provider_abi))
      (memory_capability_error plan_identity_differs)
  raise_if (not (plan.generation == generation)) (memory_capability_error plan_generation_differs)

unfoldable pub cover : List MemoryRegion → MemoryCheckpointPlan → Result Failure (Unit {0})
unfolding region_names region_policies
cover regions plan = do
  raise_if (not (same_set (keys_of plan.layout_digests) (region_names regions)))
      (memory_capability_error plan_regions_differ)
  raise_if (not (same_dict plan.policies (region_policies regions)))
      (memory_capability_error plan_policies_differ)

unfoldable pub support : ProviderCapabilities → MemoryCheckpointPlan → Result Failure (Unit {0})
unfolding action_requirements require_if
support capabilities plan = do
  for_each (λ action. for_each (require capabilities) (action_requirements action)) plan.actions
  require_if (any detaches plan.transport_actions) capabilities "transport_registration_ownership"
  require_if (ltb 1 (length plan.participants) && any moves plan.actions) capabilities
      "distributed_atomic_mapping"

-- The first half: the plan that the provider returns.
unfoldable pub prepare :
    Provider → Option (List RegionRef) → String → Result Failure MemoryCheckpointPlan
unfolding or_missing or_invalid
prepare provider regions generation = do
  require provider.capabilities "checkpoint_quiescence"
  operation ← or_missing provider.prepare_checkpoint
  requested ← resolve_regions regions
  returned ← operation requested generation
  or_invalid returned

-- The second half: the tests on it.
unfoldable pub admit :
    JsonLibrary
    → ProviderCapabilities
    → Option (List RegionRef)
    → String
    → MemoryCheckpointPlan
    → Result Failure MemoryCheckpointPlan
unfolding identify cover support
admit l capabilities regions generation plan = do
  validate l plan
  identify capabilities generation plan
  resolved_regions ← resolve_regions regions
  cover resolved_regions plan
  support capabilities plan
  ok plan

unfoldable pub require_checkpoint_plan :
    JsonLibrary → Provider → Option (List RegionRef) → String → Result Failure MemoryCheckpointPlan
unfolding prepare admit
require_checkpoint_plan l provider regions generation = do
  plan ← prepare provider regions generation
  admit l provider.capabilities regions generation plan
