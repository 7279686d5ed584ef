-- ===== src/Memory/Agreement.antt =====
-- memory.py: `agree_checkpoint_plans`, by which all ranks accept one plan before memory is released.
pub mod Ranks
pub mod Symmetry
use coldsnap.Base.{
  ℕ, String, Bool, true, false, ◌&&◌, ◌||◌, not, List, [], ◌∷◌, map, ◌≡◌, ◌↔◌, Result, ok, raised,
  ◌>>=◌, ◌>>◌, raise_if, for_each, Eq, ◌==◌, string_eq, list_eq, pair_eq, bool_eq, string_ord,
  pair_ord, to_set, sorted, same_set, length, eqb, ℤ, pos, int_eq, Json, str, int, obj, arr, field,
  end, array, JsonLibrary, arith, eq_iff,
}
use coldsnap.Memory.Failures.{
  Failure, memory_capability_error, no_participant_plans, plans_disagree,
}
use coldsnap.Memory.Regions.{PreservationPolicy}
use coldsnap.Memory.Layouts.{canonical_digest}
use coldsnap.Memory.Actions.{
  MemoryCheckpointAction, MemoryTransportAction, action_eq, transport_eq, policy_eq,
}
use coldsnap.Memory.Plans.{MemoryCheckpointPlan, digest_json}
use coldsnap.Memory.Plans

-- The tuple on which all plans of a group have to agree.
pub record Common : Type 0 where
  pub generation : String
  pub provider : String
  pub provider_abi : ℤ
  pub policies : List (String × PreservationPolicy)
  pub actions : List MemoryCheckpointAction
  pub transport_actions : List MemoryTransportAction
  pub participants : List String
  pub terminal_on_failure : Bool
  pub abort_safe : Bool

abbrev pub common_beq : Common → Common → Bool
common_beq a b =
    a.generation == b.generation
    && a.provider == b.provider
    && a.provider_abi == b.provider_abi
    && a.policies == b.policies
    && a.actions == b.actions
    && a.transport_actions == b.transport_actions
    && a.participants == b.participants
    && a.terminal_on_failure == b.terminal_on_failure
    && a.abort_safe == b.abort_safe

pub common_beq_iff : (a b : Common) → (common_beq a b ≡ true) ↔ (a ≡ b)
common_beq_iff a b = ground (
  arith,
  string_eq.beq_iff a.generation b.generation,
  string_eq.beq_iff a.provider b.provider,
  int_eq.beq_iff a.provider_abi b.provider_abi,
  policies_eq.beq_iff a.policies b.policies,
  actions_eq.beq_iff a.actions b.actions,
  transports_eq.beq_iff a.transport_actions b.transport_actions,
  texts_eq.beq_iff a.participants b.participants,
  bool_eq.beq_iff a.terminal_on_failure b.terminal_on_failure,
  bool_eq.beq_iff a.abort_safe b.abort_safe,
)
  where
    policies_eq : Eq (List (String × PreservationPolicy))
    policies_eq = list_eq

    actions_eq : Eq (List MemoryCheckpointAction)
    actions_eq = list_eq

    transports_eq : Eq (List MemoryTransportAction)
    transports_eq = list_eq

    texts_eq : Eq (List String)
    texts_eq = list_eq

instance abbrev pub common_eq : Eq Common
common_eq = record { beq = common_beq; beq_iff = common_beq_iff }

abbrev pub common_of : MemoryCheckpointPlan → Common
common_of p = record {
  generation = p.generation;
  provider = p.provider;
  provider_abi = p.provider_abi;
  policies = p.policies;
  actions = p.actions;
  transport_actions = p.transport_actions;
  participants = p.participants;
  terminal_on_failure = p.terminal_on_failure;
  abort_safe = p.abort_safe;
}

abbrev pub owner_of : MemoryCheckpointPlan → String
owner_of p = p.owner

abbrev pub receipt : MemoryCheckpointPlan → String × String
receipt p = (p.owner, p.plan_digest)

-- The group's receipt, with each rank's digest by its owner.
unfoldable pub agreement_json : List MemoryCheckpointPlan → Json
agreement_json plans = obj (
    field "format" (int (pos 1)) (
      field "kind" (str "coldsnap-memory-checkpoint-plan-agreement")
        (field "plans" (arr (array digest_json (sorted (map receipt plans)))) end)))

-- The test that refuses a group.
unfoldable pub disagree : MemoryCheckpointPlan → List MemoryCheckpointPlan → Bool
disagree first plans =
    not (eqb (length (to_set (map common_of plans))) 1)
    || not (eqb (length plans) (length first.participants))
    || not (same_set (map owner_of plans) first.participants)

unfoldable pub agree_checkpoint_plans :
    JsonLibrary → List MemoryCheckpointPlan → Result Failure String
agree_checkpoint_plans l [] = raised (memory_capability_error no_participant_plans)
agree_checkpoint_plans l (first ∷ rest) = do
  for_each (Plans.validate l) (first ∷ rest)
  raise_if (disagree first (first ∷ rest)) (memory_capability_error plans_disagree)
  canonical_digest l (agreement_json (first ∷ rest))
