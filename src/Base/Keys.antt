-- ===== src/Base/Keys.antt =====
-- Python's `==` and `<` as interfaces, with the instances that the program compares.
use Prim.Native.Char.{Char, code}
use Prim.Native.String.{String}
use Prim.Native.Nat.{ℕ}
use mathlib.Core.Path.{◌≡◌, refl}
use mathlib.Core.Logic.{◌↔◌}
use mathlib.Core.Bool.{Bool, true, false, ◌&&◌, not}
use mathlib.Core.List.{List, [], ◌∷◌}
use native.Mathlib.Omega.{arith}
use text.Mathlib.Text.{◌==◌ as str_eq}
use text.Mathlib.TextEquality.{eq_iff, Char-path}
use coldsnap.Base.Tests.{ltb, eqb, eqb_iff, if◌then◌else◌}

-- Keys with a Boolean test that decides their equality.
pub record Eq {κ} (Key : Type κ) : Type κ where
  pub beq : Key → Key → Bool
  pub beq_iff : (x y : Key) → (beq x y ≡ true) ↔ (x ≡ y)

module _ {κ} {Key : Type κ} ⦃keys : Eq Key⦄ where
  infix 50 ◌==◌
  abbrev pub ◌==◌ : Key → Key → Bool
  ◌==◌ = keys.beq

  pub ==_refl : (x : Key) → (x == x) ≡ true
  ==_refl x = (keys.beq_iff x x).1 refl

  pub ==_eq : (x y : Key) → (x == y) ≡ true → x ≡ y
  ==_eq x y = (keys.beq_iff x y).0

-- A strict total order on keys.
pub record Ord {ℓ} (A : Type ℓ) : Type ℓ where
  pub eq : Eq A
  pub lt : A → A → Bool
  pub lt_irrefl : (a : A) → lt a a ≡ false
  pub lt_trans : (a b c : A) → lt a b ≡ true → lt b c ≡ true → lt a c ≡ true
  pub lt_connex : (a b : A) → lt a b ≡ false → lt b a ≡ false → a ≡ b

instance abbrev pub nat_eq : Eq ℕ
nat_eq = record { beq = eqb; beq_iff = eqb_iff }

abbrev pub bool_beq : Bool → Bool → Bool
bool_beq true b = b
bool_beq false b = not b

pub bool_beq_iff : (a b : Bool) → (bool_beq a b ≡ true) ↔ (a ≡ b)
bool_beq_iff a b = ground arith

instance abbrev pub bool_eq : Eq Bool
bool_eq = record { beq = bool_beq; beq_iff = bool_beq_iff }

instance abbrev pub string_eq : Eq String
string_eq = record { beq = str_eq; beq_iff = eq_iff }

-- Texts by code points, as Python orders them.
abbrev pub string_lt : String → String → Bool
string_lt String.[] String.[] = false
string_lt String.[] (String.◌∷◌ d t) = true
string_lt (String.◌∷◌ c s) String.[] = false
string_lt (String.◌∷◌ c s) (String.◌∷◌ d t) =
    let rest = string_lt s t in if eqb (code c) (code d) then rest else ltb (code c) (code d)

pub string_lt_irrefl : (s : String) → string_lt s s ≡ false
string_lt_irrefl String.[] = refl
string_lt_irrefl (String.◌∷◌ c s) = ground (arith, string_lt_irrefl s)

pub string_lt_trans :
    (s t u : String) → string_lt s t ≡ true → string_lt t u ≡ true → string_lt s u ≡ true
string_lt_trans String.[] String.[] u p q = cc
string_lt_trans String.[] (String.◌∷◌ d t) String.[] p q = cc
string_lt_trans String.[] (String.◌∷◌ d t) (String.◌∷◌ e u) p q = refl
string_lt_trans (String.◌∷◌ c s) String.[] u p q = cc
string_lt_trans (String.◌∷◌ c s) (String.◌∷◌ d t) String.[] p q = cc
string_lt_trans (String.◌∷◌ c s) (String.◌∷◌ d t) (String.◌∷◌ e u) p q =
    ground (arith, string_lt_trans s t u)

pub cons_eq :
    (c d : Char) (s t : String)
    → code c ≡ code d
    → s ≡ t
    → Path String (String.◌∷◌ c s) (String.◌∷◌ d t)
cons_eq c d s t p q = λ i. String.◌∷◌ (Char-path c d p i) (q i)

pub string_lt_connex : (s t : String) → string_lt s t ≡ false → string_lt t s ≡ false → s ≡ t
string_lt_connex String.[] String.[] p q = refl
string_lt_connex String.[] (String.◌∷◌ d t) p q = cc
string_lt_connex (String.◌∷◌ c s) String.[] p q = cc
string_lt_connex (String.◌∷◌ c s) (String.◌∷◌ d t) p q =
    cons_eq c d s t (ground arith) (string_lt_connex s t (ground arith) (ground arith))

instance abbrev pub string_ord : Ord String
string_ord = record {
  eq = string_eq;
  lt = string_lt;
  lt_irrefl = string_lt_irrefl;
  lt_trans = string_lt_trans;
  lt_connex = string_lt_connex;
}

module _ {ℓ κ} {A : Type ℓ} {B : Type κ} ⦃e : Eq A⦄ ⦃f : Eq B⦄ where
  abbrev pub pair_beq : A × B → A × B → Bool
  pair_beq (a, b) (c, d) = a == c && b == d

  pub pair_beq_iff : (p q : A × B) → (pair_beq p q ≡ true) ↔ (p ≡ q)
  pair_beq_iff (a, b) (c, d) = ground (arith, e.beq_iff a c, f.beq_iff b d)

  instance abbrev pub pair_eq : Eq (A × B)
  pair_eq = record { beq = pair_beq; beq_iff = pair_beq_iff }

module _ {ℓ} {A : Type ℓ} ⦃e : Eq A⦄ where
  abbrev pub list_beq : List A → List A → Bool
  list_beq [] [] = true
  list_beq [] (y ∷ ys) = false
  list_beq (x ∷ xs) [] = false
  list_beq (x ∷ xs) (y ∷ ys) = x == y && list_beq xs ys

  pub list_beq_iff : (xs ys : List A) → (list_beq xs ys ≡ true) ↔ (xs ≡ ys)
  list_beq_iff [] [] = ground arith
  list_beq_iff [] (y ∷ ys) = ground arith
  list_beq_iff (x ∷ xs) [] = ground arith
  list_beq_iff (x ∷ xs) (y ∷ ys) = ground (arith, e.beq_iff x y, list_beq_iff xs ys)

  instance abbrev pub list_eq : Eq (List A)
  list_eq = record { beq = list_beq; beq_iff = list_beq_iff }

-- Pairs by their first difference, as Python orders tuples.
module _ {ℓ κ} {A : Type ℓ} {B : Type κ} ⦃o : Ord A⦄ ⦃r : Ord B⦄ where
  abbrev pub pair_lt : A × B → A × B → Bool
  pair_lt (a, b) (c, d) = if o.eq.beq a c then r.lt b d else o.lt a c

  pub pair_lt_irrefl : (p : A × B) → pair_lt p p ≡ false
  pair_lt_irrefl (a, b) = ground (arith, o.lt_irrefl a, r.lt_irrefl b)

  pub pair_lt_trans : (p q s : A × B) → pair_lt p q ≡ true → pair_lt q s ≡ true → pair_lt p s ≡ true
  pair_lt_trans (a, b) (c, d) (e, f) h k = ground (
    arith,
    o.lt_trans a c e,
    r.lt_trans b d f,
    o.eq.beq_iff a c,
    o.eq.beq_iff c e,
    o.eq.beq_iff a e,
    o.lt_irrefl a,
    o.lt_trans a c a,
  )

  pub pair_lt_connex : (p q : A × B) → pair_lt p q ≡ false → pair_lt q p ≡ false → p ≡ q
  pair_lt_connex (a, b) (c, d) h k =
      ground (arith, o.lt_connex a c, r.lt_connex b d, o.eq.beq_iff a c, o.eq.beq_iff c a)

  instance abbrev pub pair_ord : Ord (A × B)
  pair_ord = record {
    eq = pair_eq ⦃e = o.eq⦄ ⦃f = r.eq⦄;
    lt = pair_lt;
    lt_irrefl = pair_lt_irrefl;
    lt_trans = pair_lt_trans;
    lt_connex = pair_lt_connex;
  }
