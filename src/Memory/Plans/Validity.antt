-- ===== src/Memory/Plans/Validity.antt =====
-- memory.py: what a checkpoint plan that passes `validate` is.
use coldsnap.Base.{
  String, Bool, true, false, not, List, [], ◌∷◌, ◌≡◌, ◌≢◌, ◌↔◌, refl, sym, ap, ◌∙◌, ok, >>=-eq-ok,
  raise_if-eq-ok, raise_if-ok, ◌==◌, string_eq, string_ord, pair_eq, pair_ord, is_empty, any-false,
  All, member, to_set, same_set, is_distinct_iff, Distinct, is_canonical_iff, IsAscending, length,
  eqb, eqb_iff, ℤ, pos, suc, some, Distinct-of_length, to_set_of_Distinct, ◌≤ℤ◌, ◌<ℤ◌, ltb_ℤ, leb_ℤ,
  eqb_ℤ_iff, JsonLibrary, arith, ==_eq, eq_iff, keys_of,
}
use coldsnap.Memory.Actions.{action_eq, transport_eq, policy_eq, policy_ord}
use coldsnap.Memory.Layouts.{any_of, canonical_digest}
use coldsnap.Memory.Layouts.Validity.{not-false_iff}
use coldsnap.Memory.Layouts.Creation.{digest_of, canonical_digest-eq-ok, canonical_digest_of_text}
use coldsnap.Memory.Plans.{
  PlanBody, MemoryCheckpointPlan, body_refused, is_nil, plan_json, sizes, validate,
}

-- The body of a plan: everything named, participants and inventories in strictly ascending order with
-- one entry a region, the same regions in both inventories, no action twice, no negative size.
pub record BodyIsValid (b : PlanBody) : Type 0 where
  pub format : b.format ≡ pos 1
  pub generation : is_empty b.generation ≡ false
  pub owner : is_empty b.owner ≡ false
  pub provider : is_empty b.provider ≡ false
  pub provider_abi : pos 0 <ℤ b.provider_abi
  pub layouts : b.layout_digests ≢ []
  pub peopled : b.participants ≢ []
  pub participants : IsAscending b.participants
  pub owned : member b.owner b.participants ≡ true
  pub evidence : is_empty b.quiescence_evidence ≡ false
  pub acts : b.actions ≢ []
  pub layout_order : IsAscending b.layout_digests
  pub policy_order : IsAscending b.policies
  pub layout_names : Distinct (keys_of b.layout_digests)
  pub policy_names : Distinct (keys_of b.policies)
  pub inventory : same_set (keys_of b.layout_digests) (keys_of b.policies) ≡ true
  pub actions : Distinct b.actions
  pub transport_actions : Distinct b.transport_actions
  pub mapped_before : pos 0 ≤ℤ b.mapped_bytes_before
  pub mapped_after : pos 0 ≤ℤ b.mapped_bytes_after
  pub reserved_before : pos 0 ≤ℤ b.reserved_bytes_before
  pub reserved_after : pos 0 ≤ℤ b.reserved_bytes_after

is_nil_iff {ℓ} : {A : Type ℓ} (xs : List A) → (is_nil xs ≡ false) ↔ (xs ≢ [])
is_nil_iff [] = (λ h. cc, λ h. absurd (h refl))
is_nil_iff (x ∷ xs) = (λ h p. cc, λ _. refl)

length-keys_of {ℓ} : {A : Type ℓ} (xs : List (String × A)) → length (keys_of xs) ≡ length xs
length-keys_of [] = refl
length-keys_of ((k, v) ∷ xs) = ap suc (length-keys_of xs)

keys_iff {ℓ} :
    {A : Type ℓ} (xs : List (String × A))
    → (not (eqb (length (to_set (keys_of xs))) (length xs)) ≡ false) ↔ Distinct (keys_of xs)
keys_iff xs = (
  λ h.
      Distinct-of_length (keys_of xs)
        ((eqb_iff _ _).0 ((not-false_iff _).0 h) ∙ sym (length-keys_of xs)),
  λ d.
      (not-false_iff _).1
        ((eqb_iff _ _).1 (ap length (to_set_of_Distinct (keys_of xs) d) ∙ length-keys_of xs)),
)

positive_iff : (n : ℤ) → (leb_ℤ n (pos 0) ≡ false) ↔ (pos 0 <ℤ n)
positive_iff n = ground arith

nonnegative_iff : (n : ℤ) → (ltb_ℤ n (pos 0) ≡ false) ↔ (pos 0 ≤ℤ n)
nonnegative_iff n = ground arith

abbrev drop_six : List Bool → List Bool
drop_six (a ∷ b ∷ c ∷ d ∷ e ∷ f ∷ rest) = rest
drop_six _ = []

abbrev Passed : List Bool → Type 0
Passed = All (λ t. t ≡ false)

body_accepted : (b : PlanBody) → any_of (body_refused b) ≡ false → BodyIsValid b
unfolding body_refused
body_accepted b h = record {
  format = (eqb_ℤ_iff b.format (pos 1)).0 ((not-false_iff _).0 p.0);
  generation = p.1.0;
  owner = p.1.1.0;
  provider = p.1.1.1.0;
  provider_abi = (positive_iff b.provider_abi).0 p.1.1.1.1.0;
  layouts = (is_nil_iff b.layout_digests).0 p.1.1.1.1.1.0;
  peopled = (is_nil_iff b.participants).0 q.0;
  participants = (is_canonical_iff b.participants).0 ((not-false_iff _).0 q.1.0);
  owned = (not-false_iff _).0 q.1.1.0;
  evidence = q.1.1.1.0;
  acts = (is_nil_iff b.actions).0 q.1.1.1.1.0;
  layout_order = (is_canonical_iff b.layout_digests).0 ((not-false_iff _).0 q.1.1.1.1.1.0);
  policy_order = (is_canonical_iff b.policies).0 ((not-false_iff _).0 r.0);
  layout_names = (keys_iff b.layout_digests).0 r.1.0;
  policy_names = (keys_iff b.policies).0 r.1.1.0;
  inventory = (not-false_iff _).0 r.1.1.1.0;
  actions = (is_distinct_iff b.actions).0 ((not-false_iff _).0 r.1.1.1.1.0);
  transport_actions = (is_distinct_iff b.transport_actions).0 ((not-false_iff _).0 r.1.1.1.1.1.0);
  mapped_before = (nonnegative_iff b.mapped_bytes_before).0 s.0;
  mapped_after = (nonnegative_iff b.mapped_bytes_after).0 s.1.0;
  reserved_before = (nonnegative_iff b.reserved_bytes_before).0 s.1.1.0;
  reserved_after = (nonnegative_iff b.reserved_bytes_after).0 s.1.1.1.0;
}
  where
    p : Passed (body_refused b)
    p = (any-false (λ t. t) (body_refused b)).0 h

    q : Passed (drop_six (body_refused b))
    q = p.1.1.1.1.1.1

    r : Passed (drop_six (drop_six (body_refused b)))
    r = q.1.1.1.1.1.1

    s : All (λ n. ltb_ℤ n (pos 0) ≡ false) (sizes b)
    s = (any-false (λ n. ltb_ℤ n (pos 0)) (sizes b)).0 r.1.1.1.1.1.1.0

not-true : (t : Bool) → t ≡ true → not t ≡ false
not-true t h = (not-false_iff t).1 h

body_valid : (b : PlanBody) → BodyIsValid b → any_of (body_refused b) ≡ false
unfolding body_refused
body_valid b v = (any-false (λ t. t) (body_refused b)).1 (
  not-true _ ((eqb_ℤ_iff b.format (pos 1)).1 v.format),
  (
    v.generation,
    (
      v.owner,
      (
        v.provider,
        (
          (positive_iff b.provider_abi).1 v.provider_abi,
          (
            (is_nil_iff b.layout_digests).1 v.layouts,
            (
              (is_nil_iff b.participants).1 v.peopled,
              (
                not-true _ ((is_canonical_iff b.participants).1 v.participants),
                (
                  not-true _ v.owned,
                  (
                    v.evidence,
                    (
                      (is_nil_iff b.actions).1 v.acts,
                      (
                        not-true _ ((is_canonical_iff b.layout_digests).1 v.layout_order),
                        (
                          not-true _ ((is_canonical_iff b.policies).1 v.policy_order),
                          (
                            (keys_iff b.layout_digests).1 v.layout_names,
                            (
                              (keys_iff b.policies).1 v.policy_names,
                              (
                                not-true _ v.inventory,
                                (
                                  not-true _ ((is_distinct_iff b.actions).1 v.actions),
                                  (
                                    not-true _ (
                                        (is_distinct_iff b.transport_actions).1
                                          v.transport_actions),
                                    (
                                      (any-false (λ n. ltb_ℤ n (pos 0)) (sizes b)).1 (
                                        (nonnegative_iff b.mapped_bytes_before).1 v.mapped_before,
                                        (
                                          (nonnegative_iff b.mapped_bytes_after).1 v.mapped_after,
                                          (
                                            (nonnegative_iff b.reserved_bytes_before).1
                                                v.reserved_before,
                                            (
                                              (nonnegative_iff b.reserved_bytes_after).1
                                                  v.reserved_after,
                                              tt,
                                            ),
                                          ),
                                        ),
                                      ),
                                      tt,
                                    ),
                                  ),
                                ),
                              ),
                            ),
                          ),
                        ),
                      ),
                    ),
                  ),
                ),
              ),
            ),
          ),
        ),
      ),
    ),
  ),
)

-- The tests let pass exactly the valid bodies.
pub body_refused_iff : (b : PlanBody) → (any_of (body_refused b) ≡ false) ↔ BodyIsValid b
body_refused_iff b = (body_accepted b, body_valid b)

module _ (l : JsonLibrary) where
  pub record PlanIsValid (p : MemoryCheckpointPlan) : Type 0 where
    pub valid : BodyIsValid p.body
    pub payload : String
    pub encoded : l.dumps (plan_json p.body) ≡ some payload
    pub sealed : p.plan_digest ≡ digest_of l payload

  validate_sound : (p : MemoryCheckpointPlan) → validate l p ≡ ok tt → PlanIsValid p
  unfolding validate
  validate_sound p h =
      let (t, h1) = raise_if-eq-ok (any_of (body_refused p.body)) _ _ h in
      let (digest, g, h2) = >>=-eq-ok (canonical_digest l (plan_json p.body)) _ h1 in
      let (payload, e, s) = canonical_digest-eq-ok l (plan_json p.body) digest g in
      record {
        valid = body_accepted p.body t;
        payload = payload;
        encoded = e;
        sealed = ==_eq _ _ ((not-false_iff _).0 (raise_if-ok _ _ h2)) ∙ s;
      }

  validate_complete : (p : MemoryCheckpointPlan) → PlanIsValid p → validate l p ≡ ok tt
  unfolding validate
  validate_complete p v =
      let own : (p.plan_digest == digest_of l v.payload) ≡ true = (eq_iff _ _).1 v.sealed in
      rw (
        body_valid p.body v.valid,
        canonical_digest_of_text l (plan_json p.body) v.payload v.encoded,
        own,
      )

  -- `validate` accepts a plan exactly when its body is valid and its digest is that of its body.
  pub plan_validate_iff : (p : MemoryCheckpointPlan) → (validate l p ≡ ok tt) ↔ PlanIsValid p
  plan_validate_iff p = (validate_sound p, validate_complete p)
