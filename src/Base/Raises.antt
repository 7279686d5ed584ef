-- ===== src/Base/Raises.antt =====
-- Python code that may raise: a value or the exception, and the chains and guards over it.
use mathlib.Core.Path.{◌≡◌, refl}
use mathlib.Core.Bool.{Bool, true, false}
use mathlib.Core.List.{List, [], ◌∷◌}
use mathlib.Core.Logic.{◌⊎◌, inl, inr}

pub data Result {ℓ κ} (E : Type ℓ) (A : Type κ) : Type (ℓ ⊔ κ) where
  ok : A → Result E A
  raised : E → Result E A

module _ {ℓ} {E : Type ℓ} where
  infixl 5 ◌>>=◌
  abbrev pub ◌>>=◌ {κ μ} : {X : Type κ} {Y : Type μ} → Result E X → (X → Result E Y) → Result E Y
  raised reason >>= next = raised reason
  ok value >>= next = next value

  infixl 5 ◌>>◌
  abbrev pub ◌>>◌ {κ} : {Y : Type κ} → Result E (Unit {0}) → Result E Y → Result E Y
  first >> second = first >>= λ done. second

  -- `if test: raise e`
  abbrev pub raise_if : Bool → E → Result E (Unit {0})
  raise_if true e = raised e
  raise_if false e = ok tt

  -- A chain that returns has a first value, and goes on from it.
  pub >>=-eq-ok {κ μ} :
      {X : Type κ} {Y : Type μ} (first : Result E X) (next : X → Result E Y) {y : Y}
      → (first >>= next) ≡ ok y
      → (x : X) × (first ≡ ok x) × (next x ≡ ok y)
  >>=-eq-ok (raised reason) next h = cc
  >>=-eq-ok (ok x) next returned = (x, refl, returned)

  pub raise_if-eq-ok {κ} :
      {B : Type κ} (t : Bool) (e : E) (k : Result E B) {b : B}
      → (raise_if t e >> k) ≡ ok b
      → (t ≡ false) × (k ≡ ok b)
  raise_if-eq-ok true e k h = cc
  raise_if-eq-ok false e k h = (refl, h)

  -- A chain that raises does so in its first part, or goes on from it and raises then.
  pub >>=-eq-raised {κ μ} :
      {X : Type κ} {Y : Type μ} (first : Result E X) (next : X → Result E Y) {e : E}
      → (first >>= next) ≡ raised e
      → (first ≡ raised e) ⊎ ((x : X) × (first ≡ ok x) × (next x ≡ raised e))
  >>=-eq-raised (raised d) next h = inl cc
  >>=-eq-raised (ok x) next h = inr (x, refl, h)

  pub raise_if-eq-raised :
      (t : Bool) (e : E) {d : E} → raise_if t e ≡ raised d → (t ≡ true) × (e ≡ d)
  raise_if-eq-raised true e h = (refl, cc)
  raise_if-eq-raised false e h = cc

  pub ok_injective {κ} : {A : Type κ} {x y : A} → Path (Result E A) (ok x) (ok y) → x ≡ y
  ok_injective h = cc

  pub raise_if-ok : (t : Bool) (e : E) {u : Unit {0}} → raise_if t e ≡ ok u → t ≡ false
  raise_if-ok true e h = cc
  raise_if-ok false e h = refl

  pub Result-cases {κ} :
      {A : Type κ} (r : Result E A) → ((a : A) × (r ≡ ok a)) ⊎ ((e : E) × (r ≡ raised e))
  Result-cases (ok a) = inl (a, refl)
  Result-cases (raised e) = inr (e, refl)

  -- `for x in xs: action(x)`, where the loop is left by the first exception.
  abbrev pub for_each {κ} : {A : Type κ} → (A → Result E (Unit {0})) → List A → Result E (Unit {0})
  for_each f [] = ok tt
  for_each f (x ∷ xs) = f x >> for_each f xs
