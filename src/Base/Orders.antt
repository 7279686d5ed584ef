-- ===== src/Base/Orders.antt =====
-- Python's order on integers and on lists, by the first difference.
use mathlib.Core.Path.{◌≡◌, refl}
use mathlib.Core.Bool.{Bool, true, false}
use mathlib.Core.List.{List, [], ◌∷◌}
use native.Mathlib.Omega.{arith}
use coldsnap.Base.Tests.{if◌then◌else◌}
use coldsnap.Base.Keys.{Ord, list_eq}
use coldsnap.Base.Ints.{ℤ, ltb_ℤ, int_eq}

pub int_lt_irrefl : (a : ℤ) → ltb_ℤ a a ≡ false
int_lt_irrefl a = ground arith

pub int_lt_trans : (a b c : ℤ) → ltb_ℤ a b ≡ true → ltb_ℤ b c ≡ true → ltb_ℤ a c ≡ true
int_lt_trans a b c h k = ground (arith, h, k)

pub int_lt_connex : (a b : ℤ) → ltb_ℤ a b ≡ false → ltb_ℤ b a ≡ false → a ≡ b
int_lt_connex a b h k = ground (arith, h, k)

instance abbrev pub int_ord : Ord ℤ
int_ord = record {
  eq = int_eq;
  lt = ltb_ℤ;
  lt_irrefl = int_lt_irrefl;
  lt_trans = int_lt_trans;
  lt_connex = int_lt_connex;
}

module _ {ℓ} {A : Type ℓ} ⦃o : Ord A⦄ where
  abbrev pub list_lt : List A → List A → Bool
  list_lt [] [] = false
  list_lt [] (y ∷ ys) = true
  list_lt (x ∷ xs) [] = false
  list_lt (x ∷ xs) (y ∷ ys) = let rest = list_lt xs ys in if o.eq.beq x y then rest else o.lt x y

  pub list_lt_irrefl : (xs : List A) → list_lt xs xs ≡ false
  list_lt_irrefl [] = refl
  list_lt_irrefl (x ∷ xs) = ground (arith, list_lt_irrefl xs, o.lt_irrefl x)

  pub list_lt_trans :
      (xs ys zs : List A) → list_lt xs ys ≡ true → list_lt ys zs ≡ true → list_lt xs zs ≡ true
  list_lt_trans [] [] zs h k = cc
  list_lt_trans [] (y ∷ ys) [] h k = cc
  list_lt_trans [] (y ∷ ys) (z ∷ zs) h k = refl
  list_lt_trans (x ∷ xs) [] zs h k = cc
  list_lt_trans (x ∷ xs) (y ∷ ys) [] h k = cc
  list_lt_trans (x ∷ xs) (y ∷ ys) (z ∷ zs) h k = ground (
    arith,
    o.lt_trans x y z,
    list_lt_trans xs ys zs,
    o.eq.beq_iff x y,
    o.eq.beq_iff y z,
    o.eq.beq_iff x z,
    o.lt_irrefl x,
    o.lt_trans x y x,
  )

  pub list_lt_connex : (xs ys : List A) → list_lt xs ys ≡ false → list_lt ys xs ≡ false → xs ≡ ys
  list_lt_connex [] [] h k = refl
  list_lt_connex [] (y ∷ ys) h k = cc
  list_lt_connex (x ∷ xs) [] h k = cc
  list_lt_connex (x ∷ xs) (y ∷ ys) h k =
      ground (arith, o.lt_connex x y, list_lt_connex xs ys, o.eq.beq_iff x y, o.eq.beq_iff y x)

  instance abbrev pub list_ord : Ord (List A)
  list_ord = record {
    eq = list_eq ⦃e = o.eq⦄;
    lt = list_lt;
    lt_irrefl = list_lt_irrefl;
    lt_trans = list_lt_trans;
    lt_connex = list_lt_connex;
  }
