-- ===== src/Memory/Requests/Correctness.antt =====
-- memory.py: `require_checkpoint_plan` as a whole, in both directions.
use coldsnap.Base.{
  String, Option, none, some, List, ◌≡◌, ◌↔◌, ap, subst, ◌∙◌, Result, ok, >>=-eq-ok, string_eq,
  eqb_ℤ_iff, JsonLibrary, arith, eq_iff,
}
use coldsnap.Memory.Failures.{Failure}
use coldsnap.Memory.Regions.{MemoryRegion, RegionRef, resolve_regions}
use coldsnap.Memory.Capabilities.{ProviderCapabilities, require}
use coldsnap.Memory.Plans.{MemoryCheckpointPlan, validate}
use coldsnap.Memory.Plans.Validity.{PlanIsValid, plan_validate_iff}
use coldsnap.Memory.Requests.{
  Provider, or_missing, or_invalid, identify, cover, support, prepare, admit,
  require_checkpoint_plan,
}
use coldsnap.Memory.Requests.Admission.{
  IsAdmitted, IsSupported, Covers, Can, require_iff, support_sound, support_complete,
  resolved-Distinct, cover_sound, cover_complete,
}

module _ (c : ProviderCapabilities) (generation : String) (p : MemoryCheckpointPlan) where
  identify_sound :
      identify c generation p ≡ ok tt
      → (p.provider ≡ c.provider) × (p.provider_abi ≡ c.provider_abi) × (p.generation ≡ generation)
  unfolding identify
  identify_sound h = (
    (eq_iff p.provider c.provider).0 (ground arith),
    (eqb_ℤ_iff p.provider_abi c.provider_abi).0 (ground arith),
    (eq_iff p.generation generation).0 (ground arith),
  )

  identify_complete :
      p.provider ≡ c.provider
      → p.provider_abi ≡ c.provider_abi
      → p.generation ≡ generation
      → identify c generation p ≡ ok tt
  unfolding identify
  identify_complete a b g = rw ((eq_iff _ _).1 a, (eqb_ℤ_iff _ _).1 b, (eq_iff _ _).1 g)

or_missing-eq-ok :
    (o : Option (List MemoryRegion → String → Result Failure (Option MemoryCheckpointPlan)))
    (f : List MemoryRegion → String → Result Failure (Option MemoryCheckpointPlan))
    → or_missing o ≡ ok f
    → o ≡ some f
unfolding or_missing
or_missing-eq-ok none f h = cc
or_missing-eq-ok (some g) f h = cc

or_invalid-eq-ok :
    (o : Option MemoryCheckpointPlan) (p : MemoryCheckpointPlan) → or_invalid o ≡ ok p → o ≡ some p
unfolding or_invalid
or_invalid-eq-ok none p h = cc
or_invalid-eq-ok (some q) p h = cc

module _ (provider : Provider) (regions : Option (List RegionRef)) (generation : String) where
  -- How the provider came to return the plan.
  record IsPrepared (p : MemoryCheckpointPlan) : Type 0 where
    quiescence : Can provider.capabilities "checkpoint_quiescence"
    operation : List MemoryRegion → String → Result Failure (Option MemoryCheckpointPlan)
    offered : provider.prepare_checkpoint ≡ some operation
    requested : List MemoryRegion
    resolved : resolve_regions regions ≡ ok requested
    returned : operation requested generation ≡ ok (some p)

  prepare_sound :
      (p : MemoryCheckpointPlan) → prepare provider regions generation ≡ ok p → IsPrepared p
  unfolding prepare
  prepare_sound p h =
      let (u, quiescence, h1) =
        >>=-eq-ok (require provider.capabilities "checkpoint_quiescence") _ h in
      let (operation, offered, h2) = >>=-eq-ok (or_missing provider.prepare_checkpoint) _ h1 in
      let (rs, resolved, h3) = >>=-eq-ok (resolve_regions regions) _ h2 in
      let (returned, called, h4) = >>=-eq-ok (operation rs generation) _ h3 in
      record {
        quiescence = (require_iff provider.capabilities "checkpoint_quiescence").0 quiescence;
        operation = operation;
        offered = or_missing-eq-ok provider.prepare_checkpoint operation offered;
        requested = rs;
        resolved = resolved;
        returned = called ∙ ap ok (or_invalid-eq-ok returned p h4);
      }

  prepare_complete :
      (p : MemoryCheckpointPlan) → IsPrepared p → prepare provider regions generation ≡ ok p
  unfolding prepare or_missing or_invalid
  prepare_complete p a = rw (
    (require_iff provider.capabilities "checkpoint_quiescence").1 a.quiescence,
    a.offered,
    a.resolved,
    a.returned,
  )

module _ (l : JsonLibrary) (c : ProviderCapabilities) (regions : Option (List RegionRef))
    (generation : String) where
  -- The tests that a plan has passed.
  record Passes (p q : MemoryCheckpointPlan) : Type 0 where
    same : p ≡ q
    valid : PlanIsValid l p
    identified :
        (p.provider ≡ c.provider) × (p.provider_abi ≡ c.provider_abi) × (p.generation ≡ generation)
    requested : List MemoryRegion
    resolved : resolve_regions regions ≡ ok requested
    covered : Covers requested p
    supported : IsSupported c p

  admit_sound : (p q : MemoryCheckpointPlan) → admit l c regions generation p ≡ ok q → Passes p q
  unfolding admit
  admit_sound p q h =
      let (u, v, h1) = >>=-eq-ok (validate l p) _ h in
      let (w, i, h2) = >>=-eq-ok (identify c generation p) _ h1 in
      let (rs, r, h3) = >>=-eq-ok (resolve_regions regions) _ h2 in
      let (x, k, h4) = >>=-eq-ok (cover rs p) _ h3 in
      let (y, s, h5) = >>=-eq-ok (support c p) _ h4 in
      let valid = (plan_validate_iff l p).0 v in
      record {
        same = cc;
        valid = valid;
        identified = identify_sound c generation p i;
        requested = rs;
        resolved = r;
        covered = cover_sound l rs p valid (resolved-Distinct regions rs r) k;
        supported = support_sound c p s;
      }

  admit_complete :
      (p : MemoryCheckpointPlan) (rs : List MemoryRegion)
      → PlanIsValid l p
      → identify c generation p ≡ ok tt
      → resolve_regions regions ≡ ok rs
      → Covers rs p
      → IsSupported c p
      → admit l c regions generation p ≡ ok p
  unfolding admit
  admit_complete p rs v i r k s = rw (
    (plan_validate_iff l p).1 v,
    i,
    r,
    cover_complete l rs p v (resolved-Distinct regions rs r) k,
    support_complete c p s,
  )

module _ (l : JsonLibrary) (provider : Provider) (regions : Option (List RegionRef))
    (generation : String) where
  require_sound :
      (p : MemoryCheckpointPlan)
      → require_checkpoint_plan l provider regions generation ≡ ok p
      → IsAdmitted l provider regions generation p
  unfolding require_checkpoint_plan
  require_sound p h =
      let (plan, a, k) = >>=-eq-ok (prepare provider regions generation) _ h in
      let t = admit_sound l provider.capabilities regions generation plan p k in
      of_parts p
        (subst (λ q. IsPrepared provider regions generation q) t.same
          (prepare_sound provider regions generation plan a))
        (subst (λ q. Passes l provider.capabilities regions generation q p) t.same t)
    where
      of_parts :
          (p : MemoryCheckpointPlan)
          → IsPrepared provider regions generation p
          → Passes l provider.capabilities regions generation p p
          → IsAdmitted l provider regions generation p
      of_parts p a t = record {
        quiescence = a.quiescence;
        operation = a.operation;
        offered = a.offered;
        requested = a.requested;
        resolved = a.resolved;
        returned = a.returned;
        valid = t.valid;
        same_provider = t.identified.0;
        same_abi = t.identified.1;
        same_generation = t.identified.2;
        covered =
            let e : t.requested ≡ a.requested = cc (t.resolved, a.resolved) in
            subst (λ rs. Covers rs p) e t.covered;
        supported = t.supported;
      }

  require_complete :
      (p : MemoryCheckpointPlan)
      → IsAdmitted l provider regions generation p
      → require_checkpoint_plan l provider regions generation ≡ ok p
  unfolding require_checkpoint_plan
  require_complete p a =
      let prepared : IsPrepared provider regions generation p = record {
        quiescence = a.quiescence;
        operation = a.operation;
        offered = a.offered;
        requested = a.requested;
        resolved = a.resolved;
        returned = a.returned;
      } in
      rw (prepare_complete provider regions generation p prepared) (
        admit_complete l provider.capabilities regions generation p a.requested a.valid
          (identify_complete provider.capabilities generation p a.same_provider a.same_abi
            a.same_generation)
          a.resolved a.covered a.supported)

  -- A plan is handed out exactly when the provider can quiesce and has returned it for the requested
  -- regions, it is valid, of this provider and generation, covers each requested region once under its
  -- policy and no other, and every action, transport change and distribution in it is a capability
  -- that the provider has.
  pub require_checkpoint_plan_iff :
      (p : MemoryCheckpointPlan)
      → (require_checkpoint_plan l provider regions generation ≡ ok p)
        ↔ IsAdmitted l provider regions generation p
  require_checkpoint_plan_iff p = (require_sound p, require_complete p)
