-- ===== src/Memory/Requests/Admission.antt =====
-- memory.py: a plan that `require_checkpoint_plan` hands out can be carried out by the provider and is
-- about the regions that were asked for.

use coldsnap.Base.{
  String, Bool, true, false, ◌&&◌, not, Option, none, some, List, [], ◌∷◌, Perm, ◌≡◌, ◌↔◌, refl,
  sym, ap, subst, Result, ok, for_each, >>=-eq-ok, raise_if-eq-ok, raise_if-ok, string_eq, any, All,
  Distinct, same_set, same_set-Perm, Perm-same_set, same_dict, same_dict_iff, keys_of, length, ltb,
  JsonLibrary, arith, ◌<◌,
}
use coldsnap.Memory.Failures.{Failure}
use coldsnap.Memory.Regions.{MemoryRegion, RegionRef, resolve_regions, standard_regions}
use coldsnap.Memory.Regions.Resolution.{names, resolve_regions-Distinct}
use coldsnap.Memory.Capabilities.{ProviderCapabilities, require, truthy, attributes}
use coldsnap.Memory.Actions.{MemoryCheckpointAction, action_eq, transport_eq, policy_eq}
use coldsnap.Memory.Layouts.Validity.{not-false_iff}
use coldsnap.Memory.Plans.{MemoryCheckpointPlan}
use coldsnap.Memory.Plans.Validity.{PlanIsValid}
use coldsnap.Memory.Requests.{
  Provider, action_requirements, moves, detaches, require_if, region_names, region_policies, cover,
  support,
}

-- The capability is there.
abbrev pub Can : ProviderCapabilities → String → Type 0
Can c attribute = truthy attribute (attributes c) ≡ true

pub require_iff :
    (c : ProviderCapabilities) (attribute : String)
    → (require c attribute ≡ ok tt) ↔ Can c attribute
unfolding require
require_iff c attribute = ground arith

All-required :
    (c : ProviderCapabilities) (xs : List String)
    → (for_each (require c) xs ≡ ok tt) ↔ All (Can c) xs
All-required c [] = (λ _. tt, λ _. refl)
All-required c (x ∷ xs) = (
  λ h.
      let (u, p, q) = >>=-eq-ok (require c x) _ h in
      ((require_iff c x).0 p, (All-required c xs).0 q),
  λ h. rw ((require_iff c x).1 h.0) ((All-required c xs).1 h.1),
)

-- What a plan asks of its provider.
pub record IsSupported (c : ProviderCapabilities) (plan : MemoryCheckpointPlan) : Type 0 where
  pub actions : All (λ action. All (Can c) (action_requirements action)) plan.actions
  pub transport :
      any detaches plan.transport_actions ≡ true → Can c "transport_registration_ownership"
  pub distributed :
      1 < length plan.participants
      → any moves plan.actions ≡ true
      → Can c "distributed_atomic_mapping"

require_if_iff :
    (b : Bool) (c : ProviderCapabilities) (attribute : String)
    → (require_if b c attribute ≡ ok tt) ↔ (b ≡ true → Can c attribute)
unfolding require_if
require_if_iff true c attribute =
    (λ h _. (require_iff c attribute).0 h, λ h. (require_iff c attribute).1 (h refl))
require_if_iff false c attribute = (λ _ h. cc, λ _. refl)

actions_required :
    (c : ProviderCapabilities) (acts : List MemoryCheckpointAction)
    → (for_each (λ a. for_each (require c) (action_requirements a)) acts ≡ ok tt)
      ↔ All (λ a. All (Can c) (action_requirements a)) acts
actions_required c [] = (λ _. tt, λ _. refl)
actions_required c (a ∷ acts) = (
  λ h.
      let (u, p, q) = >>=-eq-ok (for_each (require c) (action_requirements a)) _ h in
      ((All-required c (action_requirements a)).0 p, (actions_required c acts).0 q),
  λ h. rw ((All-required c (action_requirements a)).1 h.0) ((actions_required c acts).1 h.1),
)

pub support_sound :
    (c : ProviderCapabilities) (p : MemoryCheckpointPlan) → support c p ≡ ok tt → IsSupported c p
unfolding support
support_sound c p h =
    let (u, a, h1) =
      >>=-eq-ok (for_each (λ x. for_each (require c) (action_requirements x)) p.actions) _ h in
    let (v, t, d) =
      >>=-eq-ok (require_if (any detaches p.transport_actions) c "transport_registration_ownership")
        _ h1 in
    record {
      actions = (actions_required c p.actions).0 a;
      transport = (require_if_iff (any detaches p.transport_actions) c _).0 t;
      distributed = λ many moving.
          (require_if_iff (ltb 1 (length p.participants) && any moves p.actions) c _).0 d
            (ground arith);
    }

pub support_complete :
    (c : ProviderCapabilities) (p : MemoryCheckpointPlan) → IsSupported c p → support c p ≡ ok tt
unfolding support
support_complete c p s =
    rw
      (
        (actions_required c p.actions).1 s.actions,
        (require_if_iff (any detaches p.transport_actions) c "transport_registration_ownership").1
            s.transport,
      )
      ((require_if_iff (ltb 1 (length p.participants) && any moves p.actions) c _).1
        (λ b. s.distributed (ground arith) (ground arith)))

pub resolved-Distinct :
    (regions : Option (List RegionRef)) (rs : List MemoryRegion)
    → resolve_regions regions ≡ ok rs
    → Distinct (names rs)
unfolding resolve_regions
resolved-Distinct none rs h =
    let e : standard_regions ≡ rs = cc in
    subst (λ r. Distinct (names r)) e (refl, (refl, (refl, (refl, (refl, tt)))))
resolved-Distinct (some vs) rs h = resolve_regions-Distinct vs rs h

keys-region_policies : (rs : List MemoryRegion) → keys_of (region_policies rs) ≡ names rs
unfolding region_policies
keys-region_policies [] = refl
keys-region_policies (r ∷ rs) = ap (◌∷◌ r.name) (keys-region_policies rs)

-- The plan is about these regions under these policies, each once, and about no others.
pub record Covers (rs : List MemoryRegion) (plan : MemoryCheckpointPlan) : Type 0 where
  pub inventory : Perm (keys_of plan.layout_digests) (names rs)
  pub policies : Perm plan.policies (region_policies rs)

module _ (l : JsonLibrary) (rs : List MemoryRegion) (p : MemoryCheckpointPlan)
    (valid : PlanIsValid l p) (distinct : Distinct (names rs)) where
  policies_iff :
      (same_dict p.policies (region_policies rs) ≡ true) ↔ Perm p.policies (region_policies rs)
  policies_iff =
      same_dict_iff p.policies (region_policies rs) valid.valid.policy_names
        (subst Distinct (sym (keys-region_policies rs)) distinct)

  pub cover_sound : cover rs p ≡ ok tt → Covers rs p
  unfolding cover
  cover_sound h =
      let (a, k) =
        raise_if-eq-ok (not (same_set (keys_of p.layout_digests) (region_names rs))) _ _ h in
      record {
        inventory =
            unfold region_names in
            same_set-Perm (keys_of p.layout_digests) (names rs) valid.valid.layout_names distinct
              ((not-false_iff _).0 a);
        policies = policies_iff.0 ((not-false_iff _).0 (raise_if-ok _ _ k));
      }

  pub cover_complete : Covers rs p → cover rs p ≡ ok tt
  unfolding cover
  cover_complete c = rw (
    Perm-same_set {xs = keys_of p.layout_digests} {ys = names rs} c.inventory,
    policies_iff.1 c.policies,
  )

-- What a plan that is handed out is.
pub record IsAdmitted (l : JsonLibrary) (provider : Provider) (regions : Option (List RegionRef))
    (generation : String) (plan : MemoryCheckpointPlan) : Type 0 where
  pub quiescence : Can provider.capabilities "checkpoint_quiescence"
  pub operation : List MemoryRegion → String → Result Failure (Option MemoryCheckpointPlan)
  pub offered : provider.prepare_checkpoint ≡ some operation
  pub requested : List MemoryRegion
  pub resolved : resolve_regions regions ≡ ok requested
  pub returned : operation requested generation ≡ ok (some plan)
  pub valid : PlanIsValid l plan
  pub same_provider : plan.provider ≡ provider.capabilities.provider
  pub same_abi : plan.provider_abi ≡ provider.capabilities.provider_abi
  pub same_generation : plan.generation ≡ generation
  pub covered : Covers requested plan
  pub supported : IsSupported provider.capabilities plan
