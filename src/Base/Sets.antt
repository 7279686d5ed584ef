-- ===== src/Base/Sets.antt =====
-- `set(xs)`, `sorted(xs)`, `x in xs` and the comparisons of sets that the program makes, over lists
-- of keys, with the relations that they decide.
use Prim.Native.Nat.{ℕ, suc, ◌≤◌}
use mathlib.Core.Path.{◌≡◌, refl, ap, sym}
use mathlib.Core.Logic.{◌↔◌, inl, inr}
use mathlib.Core.Bool.{Bool, true, false, ◌&&◌, ◌||◌}
use mathlib.Core.List.{List, [], ◌∷◌, ◌++◌, Perm}
use mathlib.Core.List.Perm
use native.Mathlib.Omega.{arith}
use coldsnap.Base.Tests.{eqb, eqb_iff, if◌then◌else◌, Bool-cases}
use coldsnap.Base.Keys.{Eq, ◌==◌, ==_eq}

module _ {ℓ} {A : Type ℓ} where
  abbrev pub length : List A → ℕ
  length [] = 0
  length (x ∷ xs) = suc (length xs)

  abbrev pub All {κ} : (A → Type κ) → List A → Type κ
  All P [] = Unit
  All P (x ∷ xs) = P x × All P xs

  pub All-map {κ μ} :
      {P : A → Type κ} {Q : A → Type μ}
      → ((a : A) → P a → Q a)
      → (xs : List A) → All P xs
      → All Q xs
  All-map f [] h = tt
  All-map f (x ∷ xs) h = (f x h.0, All-map f xs h.1)

  -- `any(test(x) for x in xs)` and `all(...)`
  abbrev pub any : (A → Bool) → List A → Bool
  any p [] = false
  any p (x ∷ xs) = p x || any p xs

  abbrev pub all : (A → Bool) → List A → Bool
  all p [] = true
  all p (x ∷ xs) = p x && all p xs

  pub any-false : (p : A → Bool) (xs : List A) → any p xs ≡ false ↔ All (λ x. p x ≡ false) xs
  any-false p [] = (λ _. tt, λ _. refl)
  any-false p (x ∷ xs) = ground (arith, any-false p xs)

  pub all-true : (p : A → Bool) (xs : List A) → all p xs ≡ true ↔ All (λ x. p x ≡ true) xs
  all-true p [] = (λ _. tt, λ _. refl)
  all-true p (x ∷ xs) = ground (arith, all-true p xs)

  -- `reversed(xs)`
  unfoldable pub reverse : List A → List A
  reverse [] = []
  reverse (x ∷ xs) = reverse xs ++ x ∷ []

module _ {ℓ} {A : Type ℓ} ⦃e : Eq A⦄ where
  -- `a in xs`
  abbrev pub member : A → List A → Bool
  member a [] = false
  member a (x ∷ xs) = a == x || member a xs

  -- `set(xs)`, the later of two equal elements kept
  unfoldable pub to_set : List A → List A
  to_set [] = []
  to_set (x ∷ xs) = let rest = to_set xs in if member x xs then rest else x ∷ rest

  -- `set(xs) <= set(ys)` and `set(xs) == set(ys)`
  abbrev pub subset : List A → List A → Bool
  subset xs ys = all (λ x. member x ys) xs

  abbrev pub same_set : List A → List A → Bool
  same_set xs ys = subset xs ys && subset ys xs

  -- `len(set(xs)) == len(xs)`
  unfoldable pub is_distinct : List A → Bool
  is_distinct xs = eqb (length (to_set xs)) (length xs)

  -- No element occurs twice.
  abbrev pub Distinct : List A → Type 0
  Distinct [] = Unit
  Distinct (x ∷ xs) = (member x xs ≡ false) × Distinct xs

  pub length-to_set-le : (xs : List A) → length (to_set xs) ≤ length xs
  unfolding to_set
  length-to_set-le [] = omega arith
  length-to_set-le (x ∷ xs) = ground (arith, length-to_set-le xs)

  pub to_set_of_Distinct : (xs : List A) → Distinct xs → to_set xs ≡ xs
  unfolding to_set
  to_set_of_Distinct [] d = refl
  to_set_of_Distinct (x ∷ xs) d = rw d.0 (ap (◌∷◌ x) (to_set_of_Distinct xs d.1))

  pub Distinct-of_length : (xs : List A) → length (to_set xs) ≡ length xs → Distinct xs
  unfolding to_set
  Distinct-of_length [] h = tt
  Distinct-of_length (x ∷ xs) h = elim (Bool-cases (member x xs)) [
    | inl old ↦ absurd (ground (arith, length-to_set-le xs))
    | inr new ↦ (new, Distinct-of_length xs (ground arith))
  ]

  pub is_distinct_iff : (xs : List A) → (is_distinct xs ≡ true) ↔ Distinct xs
  unfolding is_distinct
  is_distinct_iff xs = (
    λ h. Distinct-of_length xs ((eqb_iff _ _).0 h),
    λ d. (eqb_iff _ _).1 (ap length (to_set_of_Distinct xs d)),
  )

  pub member-to_set : (a : A) (xs : List A) → member a (to_set xs) ≡ member a xs
  unfolding to_set
  member-to_set a [] = refl
  member-to_set a (x ∷ xs) = ground (arith, member-to_set a xs, e.beq_iff a x)

  pub to_set-Distinct : (xs : List A) → Distinct (to_set xs)
  unfolding to_set
  to_set-Distinct [] = tt
  to_set-Distinct (x ∷ xs) = ground (arith, to_set-Distinct xs, member-to_set x xs)

  -- `xs` with one occurrence of `a` taken out
  unfoldable pub without : A → List A → List A
  without a [] = []
  without a (x ∷ xs) = if a == x then xs else x ∷ without a xs

  without-perm : (a : A) (xs : List A) → member a xs ≡ true → Perm xs (a ∷ without a xs)
  unfolding without
  without-perm a [] h = cc
  without-perm a (x ∷ xs) h = elim (Bool-cases (a == x)) [
    | inl hit ↦ rw hit (Perm.cons' (sym (==_eq a x hit)) Perm.rfl)
    | inr miss ↦
        rw miss (
          Perm.trans (Perm.cons x (without-perm a xs (ground arith)))
            (Perm.swap a x (without a xs)))
  ]

  pub length-without :
      (a : A) (xs : List A) → member a xs ≡ true → suc (length (without a xs)) ≡ length xs
  unfolding without
  length-without a [] h = cc
  length-without a (x ∷ xs) h = ground (arith, length-without a xs)

  member-without :
      (a b : A) (xs : List A)
      → member b xs ≡ true
      → (b == a) ≡ false
      → member b (without a xs) ≡ true
  unfolding without
  member-without a b [] h n = cc
  member-without a b (x ∷ xs) h n =
      ground (arith, member-without a b xs, e.beq_iff a x, e.beq_iff b x, e.beq_iff b a)

  pub without-subset :
      (a : A) (ps xs : List A)
      → member a ps ≡ false
      → subset ps xs ≡ true
      → subset ps (without a xs) ≡ true
  without-subset a [] xs n h = refl
  without-subset a (p ∷ ps) xs n h =
      ground (arith, without-subset a ps xs, member-without a p xs, e.beq_iff a p, e.beq_iff p a)

  -- Pigeonholes: distinct keys that all occur in a list no longer than theirs are that list, reordered.
  pub Perm_of_subset :
      (ps xs : List A) → Distinct ps → subset ps xs ≡ true → length xs ≤ length ps → Perm xs ps
  Perm_of_subset [] [] d h n = Perm.nil
  Perm_of_subset [] (x ∷ xs) d h n = absurd (omega arith)
  Perm_of_subset (p ∷ ps) xs d h n =
      let found : member p xs ≡ true = ground arith in
      let rest : subset ps (without p xs) ≡ true = without-subset p ps xs d.0 (ground arith) in
      Perm.trans (without-perm p xs found) (
        Perm.cons p
          (Perm_of_subset ps (without p xs) d.1 rest (omega (arith, length-without p xs found))))
