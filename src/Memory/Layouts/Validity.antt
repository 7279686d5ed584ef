-- ===== src/Memory/Layouts/Validity.antt =====
-- memory.py: what a layout descriptor that passes `validate` is.
use coldsnap.Base.{
  Bool, true, false, not, Option, none, some, List, [], ◌∷◌, ◌≡◌, ◌≢◌, ◌↔◌, refl, sym, subst,
  string_eq, is_empty, is_distinct_iff, Distinct, All, any-false, ℤ, pos, ◌≤ℤ◌, ◌<ℤ◌, ltb_ℤ, leb_ℤ,
  eqb_ℤ, arith, bool_beq, eqb_ℤ_iff, Bool-cases, inl, inr, ◌&&◌,
}
use coldsnap.Memory.Layouts.{LayoutTerms, terms_refused, any_of, below_zero, absent}

-- The terms on their own: identities named, sizes and address in range, a base address wherever a
-- stable one is promised for bytes, extents exactly where there are bytes, groups named and distinct.
pub record TermsAreValid (t : LayoutTerms) : Type 0 where
  pub provider : is_empty t.provider ≡ false
  pub provider_abi : pos 0 <ℤ t.provider_abi
  pub device : is_empty t.device ≡ false
  pub address : (a : ℤ) → t.base_address ≡ some a → pos 0 ≤ℤ a
  pub stable : t.region.stable_address ≡ true → pos 0 <ℤ t.logical_bytes → t.base_address ≢ none
  pub logical_bytes : pos 0 ≤ℤ t.logical_bytes
  pub allocation_granularity : pos 0 <ℤ t.allocation_granularity
  pub mapping_granularity : pos 0 <ℤ t.mapping_granularity
  pub extent_count : pos 0 ≤ℤ t.extent_count
  pub extents : (t.logical_bytes ≡ pos 0) ↔ (t.extent_count ≡ pos 0)
  pub mode : is_empty t.transport_registration_mode ≡ false
  pub groups : Distinct t.groups
  pub group_names : All (λ g. is_empty g ≡ false) t.groups

-- Each refused test and the part that it stands for.
positive_iff : (n : ℤ) → (leb_ℤ n (pos 0) ≡ false) ↔ (pos 0 <ℤ n)
positive_iff n = ground arith

nonnegative_iff : (n : ℤ) → (ltb_ℤ n (pos 0) ≡ false) ↔ (pos 0 ≤ℤ n)
nonnegative_iff n = ground arith

address_iff : (o : Option ℤ) → (below_zero o ≡ false) ↔ ((a : ℤ) → o ≡ some a → pos 0 ≤ℤ a)
address_iff none = (λ _ a p. cc, λ _. refl)
address_iff (some b) = (
  λ h a p. let e : b ≡ a = cc in subst (λ x. pos 0 ≤ℤ x) e ((nonnegative_iff b).0 h),
  λ h. (nonnegative_iff b).1 (h b refl),
)

absent_iff : (o : Option ℤ) → (absent o ≡ false) ↔ (o ≢ none)
absent_iff none = (λ h. cc, λ h. absurd (h refl))
absent_iff (some b) = (λ h p. cc, λ _. refl)

stable_iff :
    (b : Bool) (n : ℤ) (o : Option ℤ)
    → ((b && ltb_ℤ (pos 0) n && absent o) ≡ false) ↔ (b ≡ true → pos 0 <ℤ n → o ≢ none)
stable_iff b n o = (
  λ h p q. (absent_iff o).0 (ground arith),
  λ h. elim (Bool-cases (absent o)) [
    | inr there ↦ ground arith
    | inl missing ↦ elim (Bool-cases (b && ltb_ℤ (pos 0) n)) [
      | inr no_promise ↦ ground arith
      | inl promise ↦ absurd (ground (arith, (absent_iff o).1 (h (ground arith) (ground arith))))
    ]
  ],
)

same_truth :
    (a b : Bool) → (a ≡ true → b ≡ true) → (b ≡ true → a ≡ true) → not (bool_beq a b) ≡ false
same_truth true b p q = ground (arith, p refl)
same_truth false true p q = ground (arith, q refl)
same_truth false false p q = refl

same_bool_iff :
    (m n : ℤ)
    → (not (bool_beq (eqb_ℤ m (pos 0)) (eqb_ℤ n (pos 0))) ≡ false) ↔ ((m ≡ pos 0) ↔ (n ≡ pos 0))
same_bool_iff m n = (
  λ h. (
    λ p. (eqb_ℤ_iff n (pos 0)).0 (ground (arith, (eqb_ℤ_iff m (pos 0)).1 p)),
    λ p. (eqb_ℤ_iff m (pos 0)).0 (ground (arith, (eqb_ℤ_iff n (pos 0)).1 p)),
  ),
  λ h.
      same_truth (eqb_ℤ m (pos 0)) (eqb_ℤ n (pos 0))
        (λ p. (eqb_ℤ_iff n (pos 0)).1 (h.0 ((eqb_ℤ_iff m (pos 0)).0 p)))
        (λ p. (eqb_ℤ_iff m (pos 0)).1 (h.1 ((eqb_ℤ_iff n (pos 0)).0 p))),
)

pub not-false_iff : (b : Bool) → (not b ≡ false) ↔ (b ≡ true)
not-false_iff b = ground arith

abbrev drop_four : List Bool → List Bool
drop_four (x ∷ y ∷ z ∷ w ∷ rest) = rest
drop_four _ = []

terms_accepted : (t : LayoutTerms) → any_of (terms_refused (pos 1) t) ≡ false → TermsAreValid t
unfolding terms_refused
terms_accepted t h = record {
  provider = a.1.0;
  provider_abi = (positive_iff t.provider_abi).0 a.1.1.0;
  device = a.1.1.1.0;
  address = (address_iff t.base_address).0 b.0;
  stable = (stable_iff t.region.stable_address t.logical_bytes t.base_address).0 b.1.0;
  logical_bytes = (nonnegative_iff t.logical_bytes).0 b.1.1.0;
  allocation_granularity = (positive_iff t.allocation_granularity).0 b.1.1.1.0;
  mapping_granularity = (positive_iff t.mapping_granularity).0 c.0;
  extent_count = (nonnegative_iff t.extent_count).0 c.1.0;
  extents = (same_bool_iff t.logical_bytes t.extent_count).0 c.1.1.0;
  mode = c.1.1.1.0;
  groups = (is_distinct_iff t.groups).0 ((not-false_iff _).0 c.1.1.1.1.0);
  group_names = (any-false is_empty t.groups).0 c.1.1.1.1.1.0;
}
  where
    a : All (λ b. b ≡ false) (terms_refused (pos 1) t)
    a = (any-false (λ b. b) (terms_refused (pos 1) t)).0 h

    b : All (λ b. b ≡ false) (drop_four (terms_refused (pos 1) t))
    b = a.1.1.1.1

    c : All (λ b. b ≡ false) (drop_four (drop_four (terms_refused (pos 1) t)))
    c = b.1.1.1.1

format_one : (f : ℤ) (t : LayoutTerms) → any_of (terms_refused f t) ≡ false → f ≡ pos 1
unfolding terms_refused
format_one f t h =
    (eqb_ℤ_iff f (pos 1)).0 ((not-false_iff _).0 ((any-false (λ b. b) (terms_refused f t)).0 h).0)

terms_valid : (t : LayoutTerms) → TermsAreValid t → any_of (terms_refused (pos 1) t) ≡ false
unfolding terms_refused
terms_valid t v = (any-false (λ b. b) (terms_refused (pos 1) t)).1 (
  refl,
  (
    v.provider,
    (
      (positive_iff t.provider_abi).1 v.provider_abi,
      (
        v.device,
        (
          (address_iff t.base_address).1 v.address,
          (
            (stable_iff t.region.stable_address t.logical_bytes t.base_address).1 v.stable,
            (
              (nonnegative_iff t.logical_bytes).1 v.logical_bytes,
              (
                (positive_iff t.allocation_granularity).1 v.allocation_granularity,
                (
                  (positive_iff t.mapping_granularity).1 v.mapping_granularity,
                  (
                    (nonnegative_iff t.extent_count).1 v.extent_count,
                    (
                      (same_bool_iff t.logical_bytes t.extent_count).1 v.extents,
                      (
                        v.mode,
                        (
                          (not-false_iff _).1 ((is_distinct_iff t.groups).1 v.groups),
                          ((any-false is_empty t.groups).1 v.group_names, tt),
                        ),
                      ),
                    ),
                  ),
                ),
              ),
            ),
          ),
        ),
      ),
    ),
  ),
)

-- The tests let pass exactly the valid terms under format 1.
pub terms_refused_iff :
    (f : ℤ) (t : LayoutTerms)
    → (any_of (terms_refused f t) ≡ false) ↔ ((f ≡ pos 1) × TermsAreValid t)
terms_refused_iff f t = (
  λ h.
      let e = format_one f t h in
      (e, terms_accepted t (subst (λ g. any_of (terms_refused g t) ≡ false) e h)),
  λ v. subst (λ g. any_of (terms_refused g t) ≡ false) (sym v.0) (terms_valid t v.1),
)
