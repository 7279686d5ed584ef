-- ===== src/Base/Groups.antt =====
-- Lists of one repeated key, and what a rearrangement keeps.
use mathlib.Core.List.{List, [], ◌∷◌, map, Perm, Permᴰ}
use mathlib.Core.Path.{◌≡◌, refl, sym, ap, ◌∙◌, subst}
use mathlib.Core.Logic.{◌↔◌, inl, inr, ∥∥₁_elim}
use mathlib.Core.Bool.{true}
use native.Mathlib.Omega.{arith}
use native.Mathlib.Nat.{ℕ_set}
use Prim.Native.Nat.{suc, ◌<◌}
use coldsnap.Base.Tests.{Bool-cases}
use coldsnap.Base.Keys.{Eq, ==_refl}
use coldsnap.Base.Sets.{length, All, member, to_set, subset, same_set}

module _ {ℓ} {A : Type ℓ} ⦃e : Eq A⦄ where
  pub to_set_pos : (x : A) (xs : List A) → 0 < length (to_set (x ∷ xs))
  unfolding to_set
  to_set_pos x [] = omega arith
  to_set_pos x (y ∷ ys) = ground (arith, to_set_pos y ys)

  pub member_of_All : (x z : A) (zs : List A) → All (λ a. a ≡ z) zs → member x zs ≡ true → x ≡ z
  member_of_All x z [] h m = cc
  member_of_All x z (y ∷ ys) h m = ground (arith, member_of_All x z ys h.1, e.beq_iff x y, h.0)

  All-swap : (x z : A) (zs : List A) → x ≡ z → All (λ a. a ≡ z) zs → All (λ a. a ≡ x) zs
  All-swap x z zs p h = subst (λ w. All (λ a. a ≡ w) zs) (sym p) h

  one_of_length : (x : A) (xs : List A) → length (to_set (x ∷ xs)) ≡ 1 → All (λ a. a ≡ x) xs
  unfolding to_set
  one_of_length x [] h = tt
  one_of_length x (z ∷ zs) h = elim (Bool-cases (member x (z ∷ zs))) [
    | inl old ↦
        let rest : All (λ a. a ≡ z) zs = one_of_length z zs (ground arith) in
        let p : x ≡ z = member_of_All x z (z ∷ zs) (refl, rest) old in
        (sym p, All-swap x z zs p rest)
    | inr new ↦ absurd (ground (arith, to_set_pos z zs))
  ]

  length_of_one : (x : A) (xs : List A) → All (λ a. a ≡ x) xs → length (to_set (x ∷ xs)) ≡ 1
  unfolding to_set
  length_of_one x [] h = refl
  length_of_one x (z ∷ zs) h =
      ground (arith, length_of_one z zs (All-swap z x zs h.0 h.1), e.beq_iff x z, h.0)

  -- `len(set(xs)) == 1` for a nonempty list: all elements are the first.
  pub one_element_iff : (x : A) (xs : List A) → (length (to_set (x ∷ xs)) ≡ 1) ↔ All (λ a. a ≡ x) xs
  one_element_iff x xs = (one_of_length x xs, length_of_one x xs)

  Permᴰ-member : (a : A) {xs ys : List A} → Permᴰ xs ys → member a xs ≡ member a ys
  Permᴰ-member a Permᴰ.nil = refl
  Permᴰ-member a (Permᴰ.cons {a = x} {b = y} {l₁ = xs} {l₂ = ys} p h) =
      ground (arith, Permᴰ-member a h, p)
  Permᴰ-member a (Permᴰ.swap {a = x} {b = y} {a' = x'} {b' = y'} {l = l} p q) = ground (arith, p, q)
  Permᴰ-member a (Permᴰ.trans h k) = Permᴰ-member a h ∙ Permᴰ-member a k

  pub Perm-member : (a : A) {xs ys : List A} → Perm xs ys → member a xs ≡ member a ys
  Perm-member a p = ∥∥₁_elim p (hlevel) (λ h. Permᴰ-member a h)

  subset_of_members :
      (xs ys : List A) → ((a : A) → member a xs ≡ true → member a ys ≡ true) → subset xs ys ≡ true
  subset_of_members [] ys h = refl
  subset_of_members (x ∷ xs) ys h =
      let here : member x ys ≡ true = h x (ground (arith, ==_refl x)) in
      ground (arith, subset_of_members xs ys (λ a m. h a (ground arith)))

  pub Perm-same_set : {xs ys : List A} → Perm xs ys → same_set xs ys ≡ true
  Perm-same_set {xs} {ys} p =
      let there : subset xs ys ≡ true =
        subset_of_members xs ys (λ a m. sym (Perm-member a p) ∙ m) in
      let back : subset ys xs ≡ true = subset_of_members ys xs (λ a m. Perm-member a p ∙ m) in
      ground arith

module _ {ℓ} {A : Type ℓ} where
  Permᴰ-length : {xs ys : List A} → Permᴰ xs ys → length xs ≡ length ys
  Permᴰ-length Permᴰ.nil = refl
  Permᴰ-length (Permᴰ.cons p h) = ap suc (Permᴰ-length h)
  Permᴰ-length (Permᴰ.swap p q) = refl
  Permᴰ-length (Permᴰ.trans h k) = Permᴰ-length h ∙ Permᴰ-length k

  pub Perm-length : {xs ys : List A} → Perm xs ys → length xs ≡ length ys
  Perm-length {xs} {ys} p = ∥∥₁_elim p (ℕ_set (length xs) (length ys)) (λ h. Permᴰ-length h)

  pub All-Permᴰ {κ} : (P : A → Type κ) {xs ys : List A} → Permᴰ xs ys → All P xs → All P ys
  All-Permᴰ P Permᴰ.nil h = h
  All-Permᴰ P (Permᴰ.cons p q) h = (subst P p h.0, All-Permᴰ P q h.1)
  All-Permᴰ P (Permᴰ.swap p q) h = (subst P q h.1.0, (subst P p h.0, h.1.1))
  All-Permᴰ P (Permᴰ.trans q r) h = All-Permᴰ P r (All-Permᴰ P q h)

  pub length-map {κ} : {B : Type κ} (f : A → B) (xs : List A) → length (map f xs) ≡ length xs
  length-map f [] = refl
  length-map f (x ∷ xs) = ap suc (length-map f xs)
