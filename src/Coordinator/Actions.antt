-- ===== src/Coordinator/Actions.antt =====
-- Code that acts on a world and may raise, and the chains of it.
use coldsnap.Base.{Result, ok, raised, ◌≡◌, ◌⊎◌, inl, inr, refl, ap}

abbrev pub Action {ℓ} : Type ℓ → Type ℓ → Type ℓ → Type ℓ
Action W E A = W → Result E A × W

module _ {ℓ} {W E : Type ℓ} where
  abbrev pub resume : {X Y : Type ℓ} → Result E X × W → (X → Action W E Y) → Result E Y × W
  resume (ok x, w) next = next x w
  resume (raised e, w) next = (raised e, w)

  infixl 5 ◌>>=◌
  abbrev pub ◌>>=◌ : {X Y : Type ℓ} → Action W E X → (X → Action W E Y) → Action W E Y
  (first >>= next) w = resume (first w) next

  infixl 5 ◌>>◌
  abbrev pub ◌>>◌ : {X Y : Type ℓ} → Action W E X → Action W E Y → Action W E Y
  (first >> next) w = resume (first w) (λ done. next)

  -- A computation that leaves the world as it is
  abbrev pub lift : {X : Type ℓ} → Result E X → Action W E X
  lift r w = (r, w)

  -- A chain that returns has a first value, and goes on from it, in the world that it left.
  pub resume-eq-ok :
      {X Y : Type ℓ} (o : Result E X × W) (next : X → Action W E Y) {y : Y}
      → (resume o next).0 ≡ ok y
      → (x : X) × (o.0 ≡ ok x) × ((next x o.1).0 ≡ ok y) × ((resume o next).1 ≡ (next x o.1).1)
  resume-eq-ok (ok x, w) next h = (x, refl, h, refl)
  resume-eq-ok (raised e, w) next h = cc

  -- A chain goes on from a first value.
  pub resume-ok :
      {X Y : Type ℓ} (o : Result E X × W) (next : X → Action W E Y) (x : X)
      → o.0 ≡ ok x
      → resume o next ≡ next x o.1
  resume-ok (ok x, w) next y h = let p : x ≡ y = cc in ap (λ z. next z w) p
  resume-ok (raised e, w) next y h = cc

  pub resume-eq-raised :
      {X Y : Type ℓ} (o : Result E X × W) (next : X → Action W E Y) {e : E}
      → (resume o next).0 ≡ raised e
      → (o.0 ≡ raised e) ⊎ ((x : X) × (o.0 ≡ ok x) × ((next x o.1).0 ≡ raised e))
  resume-eq-raised (ok x, w) next h = inr (x, refl, h)
  resume-eq-raised (raised d, w) next h = inl cc
