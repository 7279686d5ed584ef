-- ===== src/Memory/Plans.antt =====
-- memory.py: `MemoryCheckpointPlan`, its `create` and `validate`.
pub mod Validity
pub mod Creation
use coldsnap.Base.{
  ℕ, String, Bool, true, false, ◌||◌, ◌&&◌, not, List, [], ◌∷◌, map, ◌≡◌, Result, ok, raised, ◌>>=◌,
  ◌>>◌, raise_if, for_each, ◌==◌, string_eq, string_ord, pair_eq, pair_ord, is_empty, any, member,
  to_set, same_set, is_distinct, is_canonical, sorted, length, eqb, ℤ, pos, ltb_ℤ, leb_ℤ, eqb_ℤ,
  Json, str, int, bool, obj, arr, field, end, cons, nil, array, keys_of, JsonLibrary,
}
use coldsnap.Memory.Failures.{
  Failure, value_error, layout_provider_differs, plan_invalid, plan_digest_mismatch,
}
use coldsnap.Memory.Regions.{MemoryRegion, PreservationPolicy, policy_value}
use coldsnap.Memory.Actions.{
  MemoryCheckpointAction, MemoryTransportAction, action_value, transport_value, action_eq,
  transport_eq, policy_eq, policy_ord,
}
use coldsnap.Memory.Layouts
use coldsnap.Memory.Layouts.{MemoryLayoutDescriptor, any_of, canonical_digest}

-- The fields that the digest covers.
pub record PlanBody : Type 0 where
  pub format : ℤ
  pub generation : String
  pub owner : String
  pub provider : String
  pub provider_abi : ℤ
  pub layout_digests : List (String × String)
  pub policies : List (String × PreservationPolicy)
  pub actions : List MemoryCheckpointAction
  pub mapped_bytes_before : ℤ
  pub mapped_bytes_after : ℤ
  pub reserved_bytes_before : ℤ
  pub reserved_bytes_after : ℤ
  pub transport_actions : List MemoryTransportAction
  pub participants : List String
  pub quiescence_evidence : String
  pub terminal_on_failure : Bool
  pub abort_safe : Bool

pub record MemoryCheckpointPlan : Type 0 where
  pub body : PlanBody
  pub open body use *
  pub plan_digest : String

-- A pair of texts as a JSON array
abbrev pub pair_json : String → String → Json
pair_json a b = arr (cons (str a) (cons (str b) nil))

abbrev pub digest_json : String × String → Json
digest_json (name, digest) = pair_json name digest

abbrev pub policy_json : String × PreservationPolicy → Json
policy_json (name, policy) = pair_json name (policy_value policy)

unfoldable pub plan_json : PlanBody → Json
plan_json b = obj (
    field "format" (int b.format) (
      field "generation" (str b.generation) (
        field "owner" (str b.owner) (
          field "provider" (str b.provider) (
            field "provider_abi" (int b.provider_abi) (
              field "layout_digests" (arr (array digest_json b.layout_digests)) (
                field "policies" (arr (array policy_json b.policies)) (
                  field "actions" (arr (array (λ a. str (action_value a)) b.actions)) (
                    field "mapped_bytes_before" (int b.mapped_bytes_before) (
                      field "mapped_bytes_after" (int b.mapped_bytes_after) (
                        field "reserved_bytes_before" (int b.reserved_bytes_before) (
                          field "reserved_bytes_after" (int b.reserved_bytes_after) (
                            field "transport_actions"
                              (arr (array (λ a. str (transport_value a)) b.transport_actions))
                              (field "participants" (arr (array str b.participants)) (
                                field "quiescence_evidence" (str b.quiescence_evidence) (
                                  field "terminal_on_failure" (bool b.terminal_on_failure)
                                    (field "abort_safe" (bool b.abort_safe) end)))))))))))))))))

abbrev pub is_nil {ℓ} : {A : Type ℓ} → List A → Bool
is_nil [] = true
is_nil (x ∷ xs) = false

abbrev pub sizes : PlanBody → List ℤ
sizes b =
    b.mapped_bytes_before ∷ b.mapped_bytes_after ∷ b.reserved_bytes_before ∷ b.reserved_bytes_after
    ∷ []

-- The tests of `validate`, in the source's order. Its `isinstance` tests are the types.
unfoldable pub body_refused : PlanBody → List Bool
body_refused b =
    not (eqb_ℤ b.format (pos 1))
    ∷ is_empty b.generation
    ∷ is_empty b.owner
    ∷ is_empty b.provider
    ∷ leb_ℤ b.provider_abi (pos 0)
    ∷ is_nil b.layout_digests
    ∷ is_nil b.participants
    ∷ not (is_canonical b.participants)
    ∷ not (member b.owner b.participants)
    ∷ is_empty b.quiescence_evidence
    ∷ is_nil b.actions
    ∷ not (is_canonical b.layout_digests)
    ∷ not (is_canonical b.policies)
    ∷ not (eqb (length (to_set (keys_of b.layout_digests))) (length b.layout_digests))
    ∷ not (eqb (length (to_set (keys_of b.policies))) (length b.policies))
    ∷ not (same_set (keys_of b.layout_digests) (keys_of b.policies))
    ∷ not (is_distinct b.actions)
    ∷ not (is_distinct b.transport_actions)
    ∷ any (λ value. ltb_ℤ value (pos 0)) (sizes b)
    ∷ []

-- The arguments of `create`.
pub record PlanTerms : Type 0 where
  pub generation : String
  pub owner : String
  pub provider : String
  pub provider_abi : ℤ
  pub layouts : List MemoryLayoutDescriptor
  pub actions : List MemoryCheckpointAction
  pub mapped_bytes_before : ℤ
  pub mapped_bytes_after : ℤ
  pub reserved_bytes_before : ℤ
  pub reserved_bytes_after : ℤ
  pub transport_actions : List MemoryTransportAction
  pub participants : List String
  pub quiescence_evidence : String
  pub terminal_on_failure : Bool
  pub abort_safe : Bool

abbrev pub layout_entry : MemoryLayoutDescriptor → String × String
layout_entry d = (d.region.name, d.layout_digest)

abbrev pub policy_entry : MemoryLayoutDescriptor → String × PreservationPolicy
policy_entry d = (d.region.name, d.region.policy)

unfoldable pub planned : PlanTerms → PlanBody
planned t = record {
  format = pos 1;
  generation = t.generation;
  owner = t.owner;
  provider = t.provider;
  provider_abi = t.provider_abi;
  layout_digests = sorted (map layout_entry t.layouts);
  policies = sorted (map policy_entry t.layouts);
  actions = t.actions;
  mapped_bytes_before = t.mapped_bytes_before;
  mapped_bytes_after = t.mapped_bytes_after;
  reserved_bytes_before = t.reserved_bytes_before;
  reserved_bytes_after = t.reserved_bytes_after;
  transport_actions = t.transport_actions;
  participants = sorted t.participants;
  quiescence_evidence = t.quiescence_evidence;
  terminal_on_failure = t.terminal_on_failure;
  abort_safe = t.abort_safe;
}

module _ (l : JsonLibrary) where
  unfoldable pub validate : MemoryCheckpointPlan → Result Failure (Unit {0})
  unfolding body_refused
  validate self = do
    raise_if (any_of (body_refused self.body)) (value_error plan_invalid)
    digest ← canonical_digest l (plan_json self.body)
    raise_if (not (self.plan_digest == digest)) (value_error plan_digest_mismatch)

  -- One round of the loop over `layouts`.
  unfoldable pub accept_layout : String → ℤ → MemoryLayoutDescriptor → Result Failure (Unit {0})
  accept_layout provider provider_abi layout = do
    Layouts.validate l layout
    raise_if (not (layout.provider == provider) || not (eqb_ℤ layout.provider_abi provider_abi))
        (value_error layout_provider_differs)

  unfoldable pub create : PlanTerms → Result Failure MemoryCheckpointPlan
  unfolding accept_layout planned
  create t = do
    for_each (accept_layout t.provider t.provider_abi) t.layouts
    digest ← canonical_digest l (plan_json (planned t))
    let plan : MemoryCheckpointPlan = record { body = planned t; plan_digest = digest }
    validate plan
    ok plan
