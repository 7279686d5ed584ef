-- ===== src/Memory/Agreement/Ranks.antt =====
-- memory.py: an agreement of checkpoint plans has one plan from each participant.

use coldsnap.Base.{
  String, true, false, List, [], ◌∷◌, map, Perm, some, ◌≡◌, ◌↔◌, refl, sym, ap, ◌∙◌, ok, for_each,
  >>=-eq-ok, raise_if-eq-ok, All, same_set, length, to_set, eqb_iff, string_eq, string_ord,
  one_element_iff, Perm_of_subset, Perm-same_set, Perm-length, length-map, IsAscending-Distinct,
  JsonLibrary, arith,
}
use coldsnap.Memory.Layouts.Creation.{digest_of, canonical_digest-eq-ok, canonical_digest_of_text}
use coldsnap.Memory.Plans.{MemoryCheckpointPlan}
use coldsnap.Memory.Plans
use coldsnap.Memory.Plans.Validity.{PlanIsValid}
use coldsnap.Memory.Plans.Validity
use coldsnap.Memory.Agreement.{
  Common, common_eq, common_of, owner_of, agreement_json, disagree, agree_checkpoint_plans,
}

module _ (l : JsonLibrary) where
  -- A group that may release its memory, and its receipt.
  pub record IsAgreed (first : MemoryCheckpointPlan) (rest : List MemoryCheckpointPlan)
      (receipt : String) : Type 0 where
    pub valid : All (PlanIsValid l) (first ∷ rest)
    pub same : All (λ p. common_of p ≡ common_of first) rest
    pub owners : Perm (map owner_of (first ∷ rest)) first.participants
    pub payload : String
    pub encoded : l.dumps (agreement_json (first ∷ rest)) ≡ some payload
    pub sealed : receipt ≡ digest_of l payload

  plans_sound :
      (ps : List MemoryCheckpointPlan)
      → for_each (Plans.validate l) ps ≡ ok tt
      → All (PlanIsValid l) ps
  plans_sound [] h = tt
  plans_sound (p ∷ ps) h =
      let (u, v, k) = >>=-eq-ok (Plans.validate l p) _ h in
      ((Validity.plan_validate_iff l p).0 v, plans_sound ps k)

  plans_complete :
      (ps : List MemoryCheckpointPlan)
      → All (PlanIsValid l) ps
      → for_each (Plans.validate l) ps ≡ ok tt
  plans_complete [] h = refl
  plans_complete (p ∷ ps) h = rw ((Validity.plan_validate_iff l p).1 h.0) (plans_complete ps h.1)

All-common :
    (c : Common) (ps : List MemoryCheckpointPlan)
    → All (λ a. a ≡ c) (map common_of ps) ↔ All (λ p. common_of p ≡ c) ps
All-common c [] = (λ _. tt, λ _. tt)
All-common c (p ∷ ps) = (λ h. (h.0, (All-common c ps).0 h.1), λ h. (h.0, (All-common c ps).1 h.1))

-- A group passes the test exactly when all plans have the first one's terms and the owners are its
-- participants, each once. The first plan's own participants are distinct.
disagree_sound :
    (first : MemoryCheckpointPlan) (rest : List MemoryCheckpointPlan)
    → disagree first (first ∷ rest) ≡ false
    → (length (to_set (map common_of (first ∷ rest))) ≡ 1)
      × (length (first ∷ rest) ≡ length first.participants)
      × (same_set (map owner_of (first ∷ rest)) first.participants ≡ true)
unfolding disagree
disagree_sound first rest h =
    ((eqb_iff _ _).0 (ground arith), (eqb_iff _ _).0 (ground arith), ground arith)

disagree_complete :
    (first : MemoryCheckpointPlan) (rest : List MemoryCheckpointPlan)
    → length (to_set (map common_of (first ∷ rest))) ≡ 1
    → length (first ∷ rest) ≡ length first.participants
    → same_set (map owner_of (first ∷ rest)) first.participants ≡ true
    → disagree first (first ∷ rest) ≡ false
unfolding disagree
disagree_complete first rest a b c = rw ((eqb_iff _ _).1 a, (eqb_iff _ _).1 b, c)

module _ (l : JsonLibrary) where
  agree_sound :
      (first : MemoryCheckpointPlan) (rest : List MemoryCheckpointPlan) (receipt : String)
      → agree_checkpoint_plans l (first ∷ rest) ≡ ok receipt
      → IsAgreed l first rest receipt
  unfolding agree_checkpoint_plans
  agree_sound first rest receipt h =
      let (u, v, h1) = >>=-eq-ok (for_each (Plans.validate l) (first ∷ rest)) _ h in
      let (t, g) = raise_if-eq-ok (disagree first (first ∷ rest)) _ _ h1 in
      let (payload, e, s) = canonical_digest-eq-ok l (agreement_json (first ∷ rest)) receipt g in
      let valid : All (PlanIsValid l) (first ∷ rest) = plans_sound l (first ∷ rest) v in
      let (one, count, owners) = disagree_sound first rest t in
      record {
        valid = valid;
        same =
            (All-common (common_of first) rest).0
              ((one_element_iff (common_of first) (map common_of rest)).0 one);
        owners =
            Perm_of_subset first.participants (map owner_of (first ∷ rest))
              (IsAscending-Distinct first.participants valid.0.valid.participants) (ground arith)
              (ground (arith, length-map owner_of (first ∷ rest)));
        payload = payload;
        encoded = e;
        sealed = s;
      }

  agree_complete :
      (first : MemoryCheckpointPlan) (rest : List MemoryCheckpointPlan) (receipt : String)
      → IsAgreed l first rest receipt
      → agree_checkpoint_plans l (first ∷ rest) ≡ ok receipt
  unfolding agree_checkpoint_plans
  agree_complete first rest receipt a =
      let one =
        (one_element_iff (common_of first) (map common_of rest)).1
          ((All-common (common_of first) rest).1 a.same) in
      let count = sym (length-map owner_of (first ∷ rest)) ∙ Perm-length a.owners in
      rw
        (
          plans_complete l (first ∷ rest) a.valid,
          disagree_complete first rest one count (Perm-same_set a.owners),
          canonical_digest_of_text l (agreement_json (first ∷ rest)) a.payload a.encoded,
        )
        (ap ok (sym a.sealed))

  -- Plans are agreed exactly when each is valid, all share the first one's terms, and their owners are
  -- the participants, each exactly once; the receipt is the digest of the owners' plan digests.
  pub agree_iff :
      (first : MemoryCheckpointPlan) (rest : List MemoryCheckpointPlan) (receipt : String)
      → (agree_checkpoint_plans l (first ∷ rest) ≡ ok receipt) ↔ IsAgreed l first rest receipt
  agree_iff first rest receipt = (agree_sound first rest receipt, agree_complete first rest receipt)
