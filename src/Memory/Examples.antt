-- ===== src/Memory/Examples.antt =====
-- Runs of memory.py on small inputs, and each of its theorems at one.
use coldsnap.Base
use coldsnap.Base.{
  String, Bool, true, false, Option, none, some, List, [], ◌∷◌, Perm, ◌≡◌, ◌↔◌, refl, Result, ok,
  raised, ℤ, pos, Json, Fields, obj, end, is_dict, JsonLibrary, JsonLaws, string_eq, negsuc,
}
use coldsnap.Memory.Failures.{value_error, duplicate_region}
use coldsnap.Memory.Regions
use coldsnap.Memory.Regions.{
  MemoryRegion, RegionRef, by_name, region, weights, kv_cache, post_init, resolve_regions,
  resolve_one,
}
use coldsnap.Memory.Regions.Resolution.{IsRegion, AreResolved, post_init_iff, resolve_regions_iff}
use coldsnap.Memory.Layouts
use coldsnap.Memory.Layouts.{LayoutTerms, MemoryLayoutDescriptor, contiguous}
use coldsnap.Memory.Layouts.Creation.{
  DescriptorIsValid, IsCreated, layout_validate_iff, layout_create_iff,
}
use mathlib.Core.List.Perm
use coldsnap.Memory.Regions.{preserve}
use coldsnap.Memory.Failures.{statistics_invalid}
use coldsnap.Memory.Capabilities
use coldsnap.Memory.Capabilities.{ProviderCapabilities}
use coldsnap.Memory.Statistics
use coldsnap.Memory.Statistics.{MemoryResidencyStats, StatisticsAreValid, statistics_validate_iff}
use coldsnap.Memory.Actions.{release_backing}
use coldsnap.Memory.Plans
use coldsnap.Memory.Plans.{PlanTerms, MemoryCheckpointPlan}
use coldsnap.Memory.Plans.Validity.{PlanIsValid, plan_validate_iff}
use coldsnap.Memory.Plans.Creation.{IsPlanned, plan_create_iff}
use coldsnap.Memory.Agreement
use coldsnap.Memory.Agreement.{agree_checkpoint_plans}
use coldsnap.Memory.Agreement.Ranks.{IsAgreed, agree_iff}
use coldsnap.Memory.Agreement.Symmetry.{agree-perm}
use coldsnap.Memory.Requests
use coldsnap.Memory.Requests.{Provider}
use coldsnap.Memory.Requests.Admission.{IsAdmitted}
use coldsnap.Memory.Requests.Correctness.{require_checkpoint_plan_iff}

-- A stand-in for the library: each object has the text `{}`.
abbrev braces : Json → Option String
braces (obj fs) = some "{}"
braces _ = none

abbrev read_braces : String → Option Json
read_braces s = some (obj end)

abbrev toy : JsonLibrary
toy = record { dumps = braces; loads = read_braces; sha256 = λ s. s }

toy_reads_back :
    (v : Json) (s : String)
    → braces v ≡ some s
    → (w : Json) × (read_braces s ≡ some w) × (braces w ≡ some s) × (is_dict w ≡ is_dict v)
toy_reads_back (obj fs) s h = (obj end, refl, h, refl)
toy_reads_back _ s h = cc

toy_laws : JsonLaws toy
toy_laws = record { reads_back = toy_reads_back; last_by_text = λ fs k v w h. refl }

weights-IsRegion : IsRegion weights
unfolding post_init Base.strip Base.any_space
weights-IsRegion = (post_init_iff weights).0 refl

abbrev asked : List RegionRef
asked = by_name "kv_cache" ∷ region weights ∷ []

asked_resolved : resolve_regions (some asked) ≡ ok (kv_cache ∷ weights ∷ [])
unfolding resolve_regions Regions.resolve_loop resolve_one
asked_resolved = refl

weights_constructed : post_init weights ≡ ok tt
unfolding post_init Base.strip Base.any_space
weights_constructed = refl

resolve_regions_iff_example : AreResolved (some asked) (kv_cache ∷ weights ∷ [])
resolve_regions_iff_example =
    (resolve_regions_iff (some asked) (kv_cache ∷ weights ∷ []) (tt, (weights_constructed, tt))).0
      asked_resolved

duplicate_refused :
    resolve_regions (some (by_name "weights" ∷ region weights ∷ []))
    ≡ raised (value_error (duplicate_region "weights"))
unfolding resolve_regions Regions.resolve_loop resolve_one
duplicate_refused = refl

abbrev weight_terms : LayoutTerms
weight_terms = record {
  provider = "cumem";
  provider_abi = pos 1;
  region = weights;
  device = "cuda:0";
  base_address = some (pos 4096);
  logical_bytes = pos 8192;
  allocation_granularity = pos 4096;
  mapping_granularity = pos 4096;
  layout_kind = contiguous;
  groups = "a" ∷ "b" ∷ [];
  extent_count = pos 2;
  transport_registration_mode = "none";
}

abbrev weight_layout : MemoryLayoutDescriptor
weight_layout = record {
  format = pos 1;
  terms = weight_terms;
  extension_json = "{}";
  layout_digest = "sha256:{}";
}

layout_create_iff_example : IsCreated toy weight_terms none weight_layout
unfolding Layouts.create Layouts.validate Layouts.canonical_digest Layouts.layout_json
    Base.is_distinct Base.to_set
layout_create_iff_example = (layout_create_iff toy toy_laws weight_terms none weight_layout).0 refl

toy-DescriptorIsValid : DescriptorIsValid toy weight_layout
unfolding Layouts.validate Layouts.canonical_digest Layouts.layout_json Base.is_distinct Base.to_set
toy-DescriptorIsValid = (layout_validate_iff toy weight_layout).0 refl

abbrev resident : MemoryResidencyStats
resident = record {
  format = pos 1;
  provider = "cumem";
  region = "weights";
  logical_bytes = pos 100;
  mapped_physical_bytes = pos 100;
  reserved_physical_bytes = pos 0;
  preserved_bytes = pos 60;
  discardable_bytes = pos 30;
  externally_hydrated_bytes = pos 10;
  allocation_count = pos 3;
  page_count = pos 1;
  released_mapping_count = pos 1;
  lifecycle_revision = pos 7;
  lifecycle_epoch = "e1";
}

resident-StatisticsAreValid : StatisticsAreValid resident
unfolding Statistics.validate Base.◌+ℤ◌
resident-StatisticsAreValid = (statistics_validate_iff resident).0 refl

overfull_refused :
    Statistics.validate (record resident { mapped_physical_bytes = pos 99 })
    ≡ raised (value_error statistics_invalid)
unfolding Statistics.validate Base.◌+ℤ◌
overfull_refused = refl

-- One rank's terms in a group of two.
abbrev rank_terms : String → PlanTerms
rank_terms owner = record {
  generation = "g1";
  owner = owner;
  provider = "cumem";
  provider_abi = pos 1;
  layouts = weight_layout ∷ [];
  actions = release_backing ∷ [];
  mapped_bytes_before = pos 8192;
  mapped_bytes_after = pos 0;
  reserved_bytes_before = pos 8192;
  reserved_bytes_after = pos 8192;
  transport_actions = [];
  participants = "rank1" ∷ "rank0" ∷ [];
  quiescence_evidence = "idle";
  terminal_on_failure = true;
  abort_safe = true;
}

abbrev rank_plan : String → MemoryCheckpointPlan
rank_plan owner = record {
  body = record {
    format = pos 1;
    generation = "g1";
    owner = owner;
    provider = "cumem";
    provider_abi = pos 1;
    layout_digests = ("weights", "sha256:{}") ∷ [];
    policies = ("weights", preserve) ∷ [];
    actions = release_backing ∷ [];
    mapped_bytes_before = pos 8192;
    mapped_bytes_after = pos 0;
    reserved_bytes_before = pos 8192;
    reserved_bytes_after = pos 8192;
    transport_actions = [];
    participants = "rank0" ∷ "rank1" ∷ [];
    quiescence_evidence = "idle";
    terminal_on_failure = true;
    abort_safe = true;
  };
  plan_digest = "sha256:{}";
}

plan_create_iff_example : IsPlanned toy (rank_terms "rank0") (rank_plan "rank0")
unfolding Plans.create Plans.validate Layouts.validate Layouts.canonical_digest Layouts.layout_json
    Plans.plan_json Base.is_distinct Base.is_canonical Base.to_set Base.sorted Base.insert
plan_create_iff_example = (plan_create_iff toy (rank_terms "rank0") (rank_plan "rank0")).0 refl

plan_validate_iff_example : PlanIsValid toy (rank_plan "rank0")
unfolding Plans.validate Layouts.canonical_digest Plans.plan_json Base.is_distinct Base.is_canonical
    Base.to_set Base.sorted Base.insert
plan_validate_iff_example = (plan_validate_iff toy (rank_plan "rank0")).0 refl

two_agree : agree_checkpoint_plans toy (rank_plan "rank0" ∷ rank_plan "rank1" ∷ []) ≡ ok "sha256:{}"
unfolding agree_checkpoint_plans Agreement.disagree Agreement.agreement_json Plans.validate
    Layouts.canonical_digest Plans.plan_json Base.is_distinct Base.is_canonical Base.to_set
    Base.sorted Base.insert
two_agree = refl

agree_iff_example : IsAgreed toy (rank_plan "rank0") (rank_plan "rank1" ∷ []) "sha256:{}"
agree_iff_example =
    (agree_iff toy (rank_plan "rank0") (rank_plan "rank1" ∷ []) "sha256:{}").0 two_agree

agree-perm_example :
    agree_checkpoint_plans toy (rank_plan "rank1" ∷ rank_plan "rank0" ∷ []) ≡ ok "sha256:{}"
agree-perm_example =
    agree-perm toy (rank_plan "rank0" ∷ rank_plan "rank1" ∷ [])
      (rank_plan "rank1" ∷ rank_plan "rank0" ∷ []) "sha256:{}"
      (Perm.swap (rank_plan "rank1") (rank_plan "rank0") []) two_agree

abbrev able : ProviderCapabilities
able = record {
  provider = "cumem";
  tagged_regions = true;
  stable_virtual_addresses = true;
  scoped_interception = true;
  allocation_enumeration = true;
  external_snapshot_store = true;
  graph_regions = false;
  per_device_synchronization = true;
  provider_abi = pos 1;
  native_backing_stores = [];
  exact_address_reservation = false;
  page_granular_mapping = false;
  batched_mapping = false;
  release_backing_retain_va = true;
  sentinel_backing = false;
  distributed_atomic_mapping = true;
  revisioned_limits = false;
  mapping_recipe_replay = false;
  transport_registration_ownership = false;
  background_reserve = false;
  checkpoint_quiescence = true;
}

abbrev offer : MemoryCheckpointPlan → Provider
offer plan = record {
  capabilities = able;
  prepare_checkpoint = some (λ rs generation. ok (some plan));
}

require_checkpoint_plan_iff_example :
    IsAdmitted toy
      (offer (rank_plan "rank0"))
      (some (by_name "weights" ∷ []))
      "g1"
      (rank_plan "rank0")
unfolding Requests.require_checkpoint_plan Regions.resolve_regions Capabilities.require
    Plans.validate Layouts.canonical_digest Plans.plan_json Base.is_distinct Base.is_canonical
    Base.to_set Base.sorted Base.insert Base.same_dict Regions.resolve_loop Regions.resolve_one
require_checkpoint_plan_iff_example =
    (require_checkpoint_plan_iff toy (offer (rank_plan "rank0")) (some (by_name "weights" ∷ []))
        "g1" (rank_plan "rank0")).0
      refl
