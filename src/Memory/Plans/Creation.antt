-- ===== src/Memory/Plans/Creation.antt =====
-- memory.py: `MemoryCheckpointPlan.create` yields a plan exactly for the terms that make a valid one.
use coldsnap.Base.{
  String, List, [], ◌∷◌, ◌≡◌, ◌↔◌, refl, sym, ap, ◌∙◌, ok, for_each, >>=-eq-ok, raise_if-ok,
  string_eq, All, ℤ, pos, eqb_ℤ_iff, JsonLibrary, arith, eq_iff, some, map, Perm, Ord, sorted,
  sorted-perm, IsSorted, sorted-IsSorted, sorted_of_IsSorted, sorted-eq_of_perm, string_ord,
  pair_ord, subst,
}
use coldsnap.Memory.Actions.{policy_ord}
use coldsnap.Memory.Layouts
use coldsnap.Memory.Layouts.{MemoryLayoutDescriptor, canonical_digest}
use coldsnap.Memory.Layouts.Creation
use coldsnap.Memory.Layouts.Creation.{
  DescriptorIsValid, digest_of, canonical_digest-eq-ok, canonical_digest_of_text,
}
use coldsnap.Memory.Plans.{
  PlanTerms, PlanBody, MemoryCheckpointPlan, planned, plan_json, validate, create, accept_layout,
}
use coldsnap.Memory.Plans.Validity
use coldsnap.Memory.Plans.Validity.{BodyIsValid, PlanIsValid}

-- A list holds the elements, in order.
abbrev pub Lists : {A : Type 0} → ⦃o : Ord A⦄ → List A → List A → Type 0
Lists elements xs = Perm xs elements × IsSorted xs

Lists-sorted : {A : Type 0} ⦃o : Ord A⦄ (elements : List A) → Lists elements (sorted elements)
Lists-sorted elements = (sorted-perm elements, sorted-IsSorted elements)

Lists-eq :
    {A : Type 0} ⦃o : Ord A⦄ (elements xs : List A) → Lists elements xs → xs ≡ sorted elements
Lists-eq elements xs h = sym (sorted_of_IsSorted xs h.1) ∙ sorted-eq_of_perm h.0

-- The body that belongs to the terms, field by field
pub record IsBodyOf (t : PlanTerms) (b : PlanBody) : Type 0 where
  pub format : b.format ≡ pos 1
  pub layout_digests :
      Lists
        (map (λ (d : MemoryLayoutDescriptor). (d.region.name, d.layout_digest)) t.layouts)
        b.layout_digests
  pub policies :
      Lists
        (map (λ (d : MemoryLayoutDescriptor). (d.region.name, d.region.policy)) t.layouts)
        b.policies
  pub participants : Lists t.participants b.participants
  pub generation : b.generation ≡ t.generation
  pub owner : b.owner ≡ t.owner
  pub provider : b.provider ≡ t.provider
  pub provider_abi : b.provider_abi ≡ t.provider_abi
  pub actions : b.actions ≡ t.actions
  pub mapped_bytes_before : b.mapped_bytes_before ≡ t.mapped_bytes_before
  pub mapped_bytes_after : b.mapped_bytes_after ≡ t.mapped_bytes_after
  pub reserved_bytes_before : b.reserved_bytes_before ≡ t.reserved_bytes_before
  pub reserved_bytes_after : b.reserved_bytes_after ≡ t.reserved_bytes_after
  pub transport_actions : b.transport_actions ≡ t.transport_actions
  pub quiescence_evidence : b.quiescence_evidence ≡ t.quiescence_evidence
  pub terminal_on_failure : b.terminal_on_failure ≡ t.terminal_on_failure
  pub abort_safe : b.abort_safe ≡ t.abort_safe

planned-IsBodyOf : (t : PlanTerms) → IsBodyOf t (planned t)
unfolding planned
planned-IsBodyOf t = record {
  format = refl;
  layout_digests = Lists-sorted _;
  policies = Lists-sorted _;
  participants = Lists-sorted t.participants;
  generation = refl;
  owner = refl;
  provider = refl;
  provider_abi = refl;
  actions = refl;
  mapped_bytes_before = refl;
  mapped_bytes_after = refl;
  reserved_bytes_before = refl;
  reserved_bytes_after = refl;
  transport_actions = refl;
  quiescence_evidence = refl;
  terminal_on_failure = refl;
  abort_safe = refl;
}

IsBodyOf-eq : (t : PlanTerms) (b : PlanBody) → IsBodyOf t b → b ≡ planned t
unfolding planned
IsBodyOf-eq t b h i = record {
  format = h.format i;
  layout_digests = Lists-eq _ b.layout_digests h.layout_digests i;
  policies = Lists-eq _ b.policies h.policies i;
  participants = Lists-eq t.participants b.participants h.participants i;
  generation = h.generation i;
  owner = h.owner i;
  provider = h.provider i;
  provider_abi = h.provider_abi i;
  actions = h.actions i;
  mapped_bytes_before = h.mapped_bytes_before i;
  mapped_bytes_after = h.mapped_bytes_after i;
  reserved_bytes_before = h.reserved_bytes_before i;
  reserved_bytes_after = h.reserved_bytes_after i;
  transport_actions = h.transport_actions i;
  quiescence_evidence = h.quiescence_evidence i;
  terminal_on_failure = h.terminal_on_failure i;
  abort_safe = h.abort_safe i;
}

module _ (l : JsonLibrary) where
  -- A layout that a plan of this provider may have.
  pub record LayoutFits (provider : String) (abi : ℤ) (d : MemoryLayoutDescriptor) : Type 0 where
    pub valid : DescriptorIsValid l d
    pub same_provider : d.provider ≡ provider
    pub same_abi : d.provider_abi ≡ abi

  accept_layout_sound :
      (provider : String) (abi : ℤ) (d : MemoryLayoutDescriptor)
      → accept_layout l provider abi d ≡ ok tt
      → LayoutFits provider abi d
  unfolding accept_layout
  accept_layout_sound provider abi d h =
      let (u, v, h1) = >>=-eq-ok (Layouts.validate l d) _ h in
      let t = raise_if-ok _ _ h1 in
      record {
        valid = (Creation.layout_validate_iff l d).0 v;
        same_provider = (eq_iff d.provider provider).0 (ground arith);
        same_abi = (eqb_ℤ_iff d.provider_abi abi).0 (ground arith);
      }

  accept_layout_complete :
      (provider : String) (abi : ℤ) (d : MemoryLayoutDescriptor)
      → LayoutFits provider abi d
      → accept_layout l provider abi d ≡ ok tt
  unfolding accept_layout
  accept_layout_complete provider abi d f = rw (
    (Creation.layout_validate_iff l d).1 f.valid,
    (eq_iff d.provider provider).1 f.same_provider,
    (eqb_ℤ_iff d.provider_abi abi).1 f.same_abi,
  )

  layouts_sound :
      (provider : String) (abi : ℤ) (ds : List MemoryLayoutDescriptor)
      → for_each (accept_layout l provider abi) ds ≡ ok tt
      → All (LayoutFits provider abi) ds
  layouts_sound provider abi [] h = tt
  layouts_sound provider abi (d ∷ ds) h =
      let (u, p, q) = >>=-eq-ok (accept_layout l provider abi d) _ h in
      (accept_layout_sound provider abi d p, layouts_sound provider abi ds q)

  layouts_complete :
      (provider : String) (abi : ℤ) (ds : List MemoryLayoutDescriptor)
      → All (LayoutFits provider abi) ds
      → for_each (accept_layout l provider abi) ds ≡ ok tt
  layouts_complete provider abi [] h = refl
  layouts_complete provider abi (d ∷ ds) h =
      rw (accept_layout_complete provider abi d h.0) (layouts_complete provider abi ds h.1)

  -- What `create` returns for given terms.
  pub record IsPlanned (t : PlanTerms) (p : MemoryCheckpointPlan) : Type 0 where
    pub fitting : All (LayoutFits t.provider t.provider_abi) t.layouts
    pub body : IsBodyOf t p.body
    pub valid : BodyIsValid p.body
    pub payload : String
    pub encoded : l.dumps (plan_json p.body) ≡ some payload
    pub sealed : p.plan_digest ≡ digest_of l payload

  abbrev plan_of : PlanTerms → String → MemoryCheckpointPlan
  plan_of t digest = record { body = planned t; plan_digest = digest }

  create_sound : (t : PlanTerms) (p : MemoryCheckpointPlan) → create l t ≡ ok p → IsPlanned t p
  unfolding create
  create_sound t p h =
      let (u, f, h1) =
        >>=-eq-ok (for_each (accept_layout l t.provider t.provider_abi) t.layouts) _ h in
      let (digest, g, h2) = >>=-eq-ok (canonical_digest l (plan_json (planned t))) _ h1 in
      let (payload, e, s) = canonical_digest-eq-ok l (plan_json (planned t)) digest g in
      let (w, v, h3) = >>=-eq-ok (validate l (plan_of t digest)) _ h2 in
      let same : plan_of t digest ≡ p = cc in
      subst (IsPlanned t) same (record {
        fitting = layouts_sound t.provider t.provider_abi t.layouts f;
        body = planned-IsBodyOf t;
        valid = ((Validity.plan_validate_iff l (plan_of t digest)).0 v).valid;
        payload = payload;
        encoded = e;
        sealed = s;
      })

  create_complete : (t : PlanTerms) (p : MemoryCheckpointPlan) → IsPlanned t p → create l t ≡ ok p
  unfolding create
  create_complete t p c =
      let same : p.body ≡ planned t = IsBodyOf-eq t p.body c.body in
      let encoded : l.dumps (plan_json (planned t)) ≡ some c.payload =
        subst (λ b. l.dumps (plan_json b) ≡ some c.payload) same c.encoded in
      let good : PlanIsValid l (plan_of t (digest_of l c.payload)) = record {
        valid = subst BodyIsValid same c.valid;
        payload = c.payload;
        encoded = encoded;
        sealed = refl;
      } in
      let made : plan_of t (digest_of l c.payload) ≡ p =
        λ i. record { body = sym same i; plan_digest = sym c.sealed i } in
      rw
        (
          layouts_complete t.provider t.provider_abi t.layouts c.fitting,
          canonical_digest_of_text l (plan_json (planned t)) c.payload encoded,
          (Validity.plan_validate_iff l (plan_of t (digest_of l c.payload))).1 good,
        )
        (ap ok made)

  -- `create` succeeds exactly when every layout is valid and of the plan's provider and ABI, and the body has
  -- format 1, the layouts' names with their digests and with their policies in order, the participants in order
  -- and every other field as it was given, and is a valid one; it returns that body under its digest.
  pub plan_create_iff :
      (t : PlanTerms) (p : MemoryCheckpointPlan) → (create l t ≡ ok p) ↔ IsPlanned t p
  plan_create_iff t p = (create_sound t p, create_complete t p)
