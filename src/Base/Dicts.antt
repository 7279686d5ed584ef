-- ===== src/Base/Dicts.antt =====
-- `dict(pairs)` for a list of pairs, the comparison of dicts, and sets of distinct keys.
use mathlib.Core.List.{List, [], ◌∷◌, Perm}
use mathlib.Core.Path.{◌≡◌, refl, ap}
use mathlib.Core.Logic.{◌↔◌}
use mathlib.Core.Bool.{Bool, true, false}
use native.Mathlib.Omega.{arith}
use Prim.Native.Nat.{◌≤◌}
use coldsnap.Base.Tests.{if◌then◌else◌}
use coldsnap.Base.Keys.{Eq, pair_eq}
use coldsnap.Base.Sets.{
  length, member, subset, same_set, Distinct, without, without-subset, length-without,
  Perm_of_subset,
}
use coldsnap.Base.Groups.{Perm-same_set}

module _ {ℓ} {A : Type ℓ} ⦃e : Eq A⦄ where
  -- Distinct keys that all occur in a list are no more than it has.
  pub length-le_of_subset :
      (ps xs : List A) → Distinct ps → subset ps xs ≡ true → length ps ≤ length xs
  length-le_of_subset [] xs d h = omega arith
  length-le_of_subset (p ∷ ps) xs d h =
      let found : member p xs ≡ true = ground arith in
      omega (
        arith,
        length-without p xs found,
        length-le_of_subset ps (without p xs) d.1 (without-subset p ps xs d.0 (ground arith)),
      )

  -- Equal sets of distinct keys are one list, reordered.
  pub same_set-Perm :
      (xs ys : List A) → Distinct xs → Distinct ys → same_set xs ys ≡ true → Perm xs ys
  same_set-Perm xs ys dx dy h =
      Perm_of_subset ys xs dy (ground arith) (length-le_of_subset xs ys dx (ground arith))

module _ {ℓ κ} {K : Type ℓ} {V : Type κ} ⦃e : Eq K⦄ where
  abbrev pub keys_of : List (K × V) → List K
  keys_of [] = []
  keys_of ((k, v) ∷ rest) = k ∷ keys_of rest

  -- Of the pairs with one key the last one counts.
  unfoldable pub dict_of : List (K × V) → List (K × V)
  dict_of [] = []
  dict_of ((k, v) ∷ rest) =
      let tail = dict_of rest in if member k (keys_of rest) then tail else (k, v) ∷ tail

  pub dict_of-Distinct : (xs : List (K × V)) → Distinct (keys_of xs) → dict_of xs ≡ xs
  unfolding dict_of
  dict_of-Distinct [] d = refl
  dict_of-Distinct ((k, v) ∷ xs) d = rw d.0 (ap (◌∷◌ (k, v)) (dict_of-Distinct xs d.1))

module _ {ℓ κ} {K : Type ℓ} {V : Type κ} ⦃e : Eq K⦄ ⦃f : Eq V⦄ where
  -- `dict(xs) == dict(ys)`
  unfoldable pub same_dict : List (K × V) → List (K × V) → Bool
  unfolding dict_of
  same_dict xs ys = same_set (dict_of xs) (dict_of ys)

  not_member_pair :
      (k : K) (v : V) (xs : List (K × V)) → member k (keys_of xs) ≡ false → member (k, v) xs ≡ false
  not_member_pair k v [] h = refl
  not_member_pair k v ((j, w) ∷ xs) h = ground (arith, not_member_pair k v xs)

  Distinct-of_keys : (xs : List (K × V)) → Distinct (keys_of xs) → Distinct xs
  Distinct-of_keys [] d = tt
  Distinct-of_keys ((k, v) ∷ xs) d = (not_member_pair k v xs d.0, Distinct-of_keys xs d.1)

  -- Pairs with distinct keys make equal dicts exactly when they are the same pairs, in any order.
  pub same_dict_iff :
      (xs ys : List (K × V))
      → Distinct (keys_of xs)
      → Distinct (keys_of ys)
      → (same_dict xs ys ≡ true) ↔ Perm xs ys
  unfolding same_dict
  same_dict_iff xs ys dx dy =
      rw (dict_of-Distinct xs dx, dict_of-Distinct ys dy)
        (same_set-Perm xs ys (Distinct-of_keys xs dx) (Distinct-of_keys ys dy), Perm-same_set)
