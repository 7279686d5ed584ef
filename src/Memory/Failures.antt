-- ===== src/Memory/Failures.antt =====
-- The exceptions of memory.py: the class that is raised, and a reason for each place that raises.
use coldsnap.Base.{String}

pub data Reason : Type 0 where
  invalid_region_name : String → Reason
  external_stable_address : Reason
  unknown_region : String → Reason
  duplicate_region : String → Reason
  capability_unavailable : String → Reason
  number_out_of_range : Reason
  extension_too_large : Reason
  extension_invalid_json : Reason
  extension_not_object : Reason
  layout_invalid : Reason
  layout_digest_mismatch : Reason
  statistics_invalid : Reason
  layout_provider_differs : Reason
  plan_invalid : Reason
  plan_digest_mismatch : Reason
  no_prepare_operation : Reason
  not_a_plan : Reason
  plan_identity_differs : Reason
  plan_generation_differs : Reason
  plan_regions_differ : Reason
  plan_policies_differ : Reason
  no_participant_plans : Reason
  plans_disagree : Reason

-- `other` is an exception that a provider's own code raises.
pub data Failure : Type 0 where
  value_error : Reason → Failure
  memory_capability_error : Reason → Failure
  other : String → Failure
