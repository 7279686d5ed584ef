-- ===== src/Memory/Agreement/Symmetry.antt =====
-- memory.py: the order in which the ranks' plans arrive does not change an agreement.
use mathlib.Core.Logic.{∥∥₁_elim}
use mathlib.Core.HLevel.{hedberg}
use mathlib.Core.List.{Permᴰ}
use mathlib.Core.List.Perm
use coldsnap.Base.{
  String, List, [], ◌∷◌, map, Perm, some, ◌≡◌, refl, sym, ap, ◌∙◌, subst, Result, ok, All, All-map,
  All-Permᴰ, sorted-eq_of_perm, string_ord, pair_ord, key_discrete, JsonLibrary,
}
use coldsnap.Memory.Failures.{Failure}
use coldsnap.Memory.Plans.{MemoryCheckpointPlan}
use coldsnap.Memory.Plans.Validity.{PlanIsValid}
use coldsnap.Memory.Agreement.{
  Common, common_of, owner_of, receipt, agreement_json, agree_checkpoint_plans,
}
use coldsnap.Memory.Agreement.Ranks.{IsAgreed, agree_iff}

agreement_json-perm :
    {ps qs : List MemoryCheckpointPlan} → Perm ps qs → agreement_json ps ≡ agreement_json qs
unfolding agreement_json
agreement_json-perm p = rw (sorted-eq_of_perm (Perm.map receipt p))

module _ (l : JsonLibrary) where
  IsAgreed-perm :
      (p q : MemoryCheckpointPlan) (ps qs : List MemoryCheckpointPlan) (s : String)
      → Permᴰ (p ∷ ps) (q ∷ qs)
      → IsAgreed l p ps s
      → IsAgreed l q qs s
  IsAgreed-perm p q ps qs s h a =
      let all : All (λ r. common_of r ≡ common_of p) (q ∷ qs) =
        All-Permᴰ (λ r. common_of r ≡ common_of p) h (refl, a.same) in
      record {
        valid = All-Permᴰ (PlanIsValid l) h a.valid;
        same = All-map (λ r e. e ∙ sym all.0) qs all.1;
        owners =
            subst (λ c. Perm (map owner_of (q ∷ qs)) c)
              (sym (ap (λ (c : Common). c.participants) all.0))
              (Perm.trans (Perm.symm (Perm.map owner_of ∣ h ∣₁)) a.owners);
        payload = a.payload;
        encoded = subst (λ j. l.dumps j ≡ some a.payload) (agreement_json-perm ∣ h ∣₁) a.encoded;
        sealed = a.sealed;
      }

  agree-Permᴰ :
      (ps qs : List MemoryCheckpointPlan) (s : String)
      → Permᴰ ps qs
      → agree_checkpoint_plans l ps ≡ ok s
      → agree_checkpoint_plans l qs ≡ ok s
  unfolding agree_checkpoint_plans
  agree-Permᴰ [] qs s h e = cc
  agree-Permᴰ (p ∷ ps) [] s h e = cc (Perm.eq-nil ∣ h ∣₁)
  agree-Permᴰ (p ∷ ps) (q ∷ qs) s h e =
      (agree_iff l q qs s).1 (IsAgreed-perm p q ps qs s h ((agree_iff l p ps s).0 e))

  text_set : IsSet String
  text_set = hedberg key_discrete

  outcome_set : IsSet (Result Failure String)
  outcome_set = hlevel text_set

  -- Any rearrangement of agreed plans is agreed, with the same receipt.
  pub agree-perm :
      (ps qs : List MemoryCheckpointPlan) (s : String)
      → Perm ps qs
      → agree_checkpoint_plans l ps ≡ ok s
      → agree_checkpoint_plans l qs ≡ ok s
  agree-perm ps qs s p e = ∥∥₁_elim p (outcome_set _ _) (λ h. agree-Permᴰ ps qs s h e)
