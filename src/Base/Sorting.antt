-- ===== src/Base/Sorting.antt =====
-- `sorted(xs)` over keys with a strict total order, and what `sorted(set(xs)) == xs` decides.
use mathlib.Core.Path.{◌≡◌, refl, ap, sym, ◌∙◌, subst}
use mathlib.Core.Logic.{◌↔◌, inl, inr, ∥∥₁_elim}
use mathlib.Core.Bool.{Bool, true, false}
use mathlib.Core.List.{List, [], ◌∷◌, Perm, Permᴰ}
use mathlib.Core.List.Perm
use mathlib.Core.HLevel.{hedberg}
use native.Mathlib.Omega.{arith}
use coldsnap.Base.Tests.{if◌then◌else◌, Bool-cases}
use coldsnap.Base.Keys.{Ord, list_beq, list_beq_iff}
use Prim.Native.Nat.{suc}
use coldsnap.Base.Sets.{
  length, All, All-map, member, to_set, Distinct, Distinct-of_length, to_set_of_Distinct,
}

module _ {ℓ} {A : Type ℓ} ⦃o : Ord A⦄ where
  unfoldable pub insert : A → List A → List A
  insert a [] = a ∷ []
  insert a (x ∷ xs) = if o.lt x a then x ∷ insert a xs else a ∷ x ∷ xs

  unfoldable pub sorted : List A → List A
  sorted [] = []
  sorted (x ∷ xs) = insert x (sorted xs)

  abbrev pub NotAbove : A → List A → Type 0
  NotAbove a = All (λ x. o.lt x a ≡ false)

  -- Each element is at most every later one; below every later one.
  abbrev pub IsSorted : List A → Type 0
  IsSorted [] = Unit
  IsSorted (x ∷ xs) = NotAbove x xs × IsSorted xs

  abbrev pub IsAscending : List A → Type 0
  IsAscending [] = Unit
  IsAscending (x ∷ xs) = All (λ y. o.lt x y ≡ true) xs × IsAscending xs

  insert-perm : (a : A) (xs : List A) → Perm (insert a xs) (a ∷ xs)
  unfolding insert
  insert-perm a [] = Perm.rfl
  insert-perm a (x ∷ xs) = elim (Bool-cases (o.lt x a)) [
    | inl below ↦ rw below (Perm.trans (Perm.cons x (insert-perm a xs)) (Perm.swap a x xs))
    | inr above ↦ rw above Perm.rfl
  ]

  pub sorted-perm : (xs : List A) → Perm (sorted xs) xs
  unfolding sorted
  sorted-perm [] = Perm.nil
  sorted-perm (x ∷ xs) = Perm.trans (insert-perm x (sorted xs)) (Perm.cons x (sorted-perm xs))

  lt_asymm : (a b : A) → o.lt a b ≡ true → o.lt b a ≡ false
  lt_asymm a b h = elim (Bool-cases (o.lt b a)) [
    | inl back ↦ absurd (ground (arith, o.lt_trans a b a h back, o.lt_irrefl a))
    | inr fine ↦ fine
  ]

  NotAbove-insert :
      (b a : A) (xs : List A) → o.lt a b ≡ false → NotAbove b xs → NotAbove b (insert a xs)
  unfolding insert
  NotAbove-insert b a [] h k = (h, tt)
  NotAbove-insert b a (x ∷ xs) h k = ground (arith, NotAbove-insert b a xs h k.1)

  not_lt_trans : (a b c : A) → o.lt b a ≡ false → o.lt c b ≡ false → o.lt c a ≡ false
  not_lt_trans a b c h k = elim (Bool-cases (o.lt c a)) [
    | inr fine ↦ fine
    | inl bad ↦ elim (Bool-cases (o.lt a b)) [
      | inl below ↦ absurd (ground (arith, o.lt_trans c a b bad below))
      | inr above ↦ absurd (ground (arith, o.lt_connex a b above h))
    ]
  ]

  insert-IsSorted : (a : A) (xs : List A) → IsSorted xs → IsSorted (insert a xs)
  unfolding insert
  insert-IsSorted a [] s = (tt, tt)
  insert-IsSorted a (x ∷ xs) s = elim (Bool-cases (o.lt x a)) [
    | inl below ↦
        rw below (NotAbove-insert x a xs (lt_asymm x a below) s.0, insert-IsSorted a xs s.1)
    | inr above ↦ rw above ((above, All-map (λ y h. not_lt_trans a x y above h) xs s.0), s)
  ]

  pub sorted-IsSorted : (xs : List A) → IsSorted (sorted xs)
  unfolding sorted
  sorted-IsSorted [] = tt
  sorted-IsSorted (x ∷ xs) = insert-IsSorted x (sorted xs) (sorted-IsSorted xs)

  insert_of_lowest : (a : A) (xs : List A) → NotAbove a xs → insert a xs ≡ a ∷ xs
  unfolding insert
  insert_of_lowest a [] h = refl
  insert_of_lowest a (x ∷ xs) h = rw h.0

  pub sorted_of_IsSorted : (xs : List A) → IsSorted xs → sorted xs ≡ xs
  unfolding sorted
  sorted_of_IsSorted [] s = refl
  sorted_of_IsSorted (x ∷ xs) s =
      ap (insert x) (sorted_of_IsSorted xs s.1) ∙ insert_of_lowest x xs s.0

  pub IsAscending-IsSorted : (xs : List A) → IsAscending xs → IsSorted xs
  IsAscending-IsSorted [] s = tt
  IsAscending-IsSorted (x ∷ xs) s =
      (All-map (λ y h. lt_asymm x y h) xs s.0, IsAscending-IsSorted xs s.1)

  insert_comm : (a b : A) (xs : List A) → insert a (insert b xs) ≡ insert b (insert a xs)
  unfolding insert
  insert_comm a b [] = ground (arith, o.lt_connex a b, lt_asymm a b)
  insert_comm a b (x ∷ xs) = ground (
    arith,
    insert_comm a b xs,
    o.lt_connex a b,
    lt_asymm a b,
    o.lt_trans x b a,
    o.lt_trans x a b,
    o.lt_connex x a,
    o.lt_connex x b,
    not_lt_trans a b x,
    not_lt_trans b a x,
  )

module _ {ℓ} {A : Type ℓ} ⦃o : Ord A⦄ where
  pub key_discrete : Discrete A
  key_discrete a b = elim (Bool-cases (o.eq.beq a b)) [
    | inl h ↦ yes ((o.eq.beq_iff a b).0 h)
    | inr h ↦ no (λ p. ground (arith, (o.eq.beq_iff a b).1 p))
  ]

  Permᴰ-sorted : {xs ys : List A} → Permᴰ xs ys → sorted xs ≡ sorted ys
  unfolding sorted
  Permᴰ-sorted Permᴰ.nil = refl
  Permᴰ-sorted (Permᴰ.cons p h) = λ i. insert (p i) (Permᴰ-sorted h i)
  Permᴰ-sorted (Permᴰ.swap {a = a} {b = b} {l = l} p q) =
      insert_comm a b (sorted l) ∙ (λ i. insert (q i) (insert (p i) (sorted l)))
  Permᴰ-sorted (Permᴰ.trans h k) = Permᴰ-sorted h ∙ Permᴰ-sorted k

  -- The order of the input does not matter.
  pub sorted-eq_of_perm : {xs ys : List A} → Perm xs ys → sorted xs ≡ sorted ys
  sorted-eq_of_perm p = ∥∥₁_elim p (hedberg (hlevel key_discrete) _ _) (λ h. Permᴰ-sorted h)

module _ {ℓ} {A : Type ℓ} ⦃o : Ord A⦄ where
  length-insert : (a : A) (xs : List A) → length (insert a xs) ≡ suc (length xs)
  unfolding insert
  length-insert a [] = refl
  length-insert a (x ∷ xs) = ground (arith, length-insert a xs)

  length-sorted : (xs : List A) → length (sorted xs) ≡ length xs
  unfolding sorted
  length-sorted [] = refl
  length-sorted (x ∷ xs) = length-insert x (sorted xs) ∙ ap suc (length-sorted xs)

  above-All :
      (x : A) (xs : List A)
      → NotAbove x xs
      → member ⦃e = o.eq⦄ x xs ≡ false
      → All (λ y. o.lt x y ≡ true) xs
  above-All x [] h n = tt
  above-All x (y ∷ ys) h n = ground (arith, above-All x ys h.1, o.lt_connex x y, o.eq.beq_iff x y)

  IsAscending-of_IsSorted : (xs : List A) → IsSorted xs → Distinct ⦃e = o.eq⦄ xs → IsAscending xs
  IsAscending-of_IsSorted [] s d = tt
  IsAscending-of_IsSorted (x ∷ xs) s d =
      (above-All x xs s.0 d.0, IsAscending-of_IsSorted xs s.1 d.1)

  not_member_of_above :
      (x : A) (xs : List A) → All (λ y. o.lt x y ≡ true) xs → member ⦃e = o.eq⦄ x xs ≡ false
  not_member_of_above x [] h = refl
  not_member_of_above x (y ∷ ys) h =
      ground (arith, not_member_of_above x ys h.1, o.eq.beq_iff x y, o.lt_irrefl x)

  pub IsAscending-Distinct : (xs : List A) → IsAscending xs → Distinct ⦃e = o.eq⦄ xs
  IsAscending-Distinct [] s = tt
  IsAscending-Distinct (x ∷ xs) s = (not_member_of_above x xs s.0, IsAscending-Distinct xs s.1)

  -- `tuple(sorted(set(xs))) == xs`
  unfoldable pub is_canonical : List A → Bool
  is_canonical xs = list_beq ⦃e = o.eq⦄ (sorted (to_set ⦃e = o.eq⦄ xs)) xs

  IsAscending-of_fixed : (xs : List A) → sorted (to_set ⦃e = o.eq⦄ xs) ≡ xs → IsAscending xs
  IsAscending-of_fixed xs p =
      IsAscending-of_IsSorted xs (subst IsSorted p (sorted-IsSorted (to_set ⦃e = o.eq⦄ xs))) (
        Distinct-of_length ⦃e = o.eq⦄ xs (sym (length-sorted (to_set ⦃e = o.eq⦄ xs)) ∙ ap length p))

  fixed_of_IsAscending : (xs : List A) → IsAscending xs → sorted (to_set ⦃e = o.eq⦄ xs) ≡ xs
  fixed_of_IsAscending xs s =
      ap sorted (to_set_of_Distinct ⦃e = o.eq⦄ xs (IsAscending-Distinct xs s))
      ∙ sorted_of_IsSorted xs (IsAscending-IsSorted xs s)

  -- The test is passed exactly by the strictly ascending lists.
  pub is_canonical_iff : (xs : List A) → (is_canonical xs ≡ true) ↔ IsAscending xs
  unfolding is_canonical
  is_canonical_iff xs = (
    λ h. IsAscending-of_fixed xs ((list_beq_iff ⦃e = o.eq⦄ _ _).0 h),
    λ s. (list_beq_iff ⦃e = o.eq⦄ _ _).1 (fixed_of_IsAscending xs s),
  )
