-- ===== src/Checkpoint/Naming.antt =====
-- The names under which resources are registered.
use Prim.Native.Char.{code}
use coldsnap.Base.{
  append, ℕ, ◌/◌, ◌%◌, ◌≤◌, ◌<◌, zero, suc, String, Bool, true, false, ◌||◌, not, some, List, [],
  ◌∷◌, ◌++◌, All-map, ◌≡◌, inl, inr, refl, arith, Result, ok, raise_if-eq-ok, if◌then◌else◌,
  Bool-cases, ◌==◌, ==_eq, string_eq, eqb, ltb, digit, code-digit, show_digits, show_ℕ, show_ℤ,
  read_int, read_int-show_ℤ, pos, sym, ap, ◌∙◌, subst, is_empty, All,
}
use coldsnap.Checkpoint.Registry.{
  Registry, Resources, resource_name, register, assign, new, Phase, RegistryError, is_phase, active,
  preparing, prepared, restoring, failed, cannot_register, invalid_contract,
}

unfoldable has_dash : String → Bool
has_dash String.[] = false
has_dash (String.◌∷◌ c s) = eqb (code c) 45 || has_dash s

-- What stands after the last dash
unfoldable after_dash : String → String
after_dash String.[] = String.[]
after_dash (String.◌∷◌ c s) =
    let rest = after_dash s in
    if has_dash s then rest else if eqb (code c) 45 then s else String.◌∷◌ c s

has_dash-digit :
    (n : ℕ) (rest : String) → n < 10 → has_dash (String.◌∷◌ (digit n) rest) ≡ has_dash rest
unfolding has_dash
has_dash-digit n rest h = ground (arith, code-digit n h)

has_dash-show_digits :
    (rounds n : ℕ) (rest : String) → has_dash (show_digits rounds n rest) ≡ has_dash rest
unfolding show_digits
has_dash-show_digits zero n rest = has_dash-digit (n % 10) rest (omega arith)
has_dash-show_digits (suc rounds) n rest = elim (Bool-cases (ltb n 10)) [
  | inl small ↦ rw small (has_dash-digit n rest (ground arith))
  | inr large ↦ rw large (
      has_dash-show_digits rounds (n / 10) (String.◌∷◌ (digit (n % 10)) rest)
      ∙ has_dash-digit (n % 10) rest (omega arith))
]

has_dash-show_ℕ : (n : ℕ) → has_dash (show_ℕ n) ≡ false
unfolding show_ℕ
has_dash-show_ℕ n = has_dash-show_digits n n String.[] ∙ (unfold has_dash in refl)

has_dash-append : (kind rest : String) → has_dash (append kind (String.◌∷◌ "-" rest)) ≡ true
unfolding has_dash append
has_dash-append String.[] rest = refl
has_dash-append (String.◌∷◌ c kind) rest = ground (arith, has_dash-append kind rest)

after_dash-append :
    (kind rest : String)
    → has_dash rest ≡ false
    → after_dash (append kind (String.◌∷◌ "-" rest)) ≡ rest
unfolding after_dash append
after_dash-append String.[] rest h = rw h refl
after_dash-append (String.◌∷◌ c kind) rest h =
    rw (has_dash-append kind rest) (after_dash-append kind rest h)

after_dash-resource_name : (kind : String) (n : ℕ) → after_dash (resource_name kind n) ≡ show_ℕ n
unfolding resource_name
after_dash-resource_name kind n = after_dash-append kind (show_ℕ n) (has_dash-show_ℕ n)

show_ℕ_injective : (m n : ℕ) → show_ℕ m ≡ show_ℕ n → m ≡ n
unfolding show_ℤ
show_ℕ_injective m n h =
    let e : some (pos m) ≡ some (pos n) =
      sym (read_int-show_ℤ (pos m)) ∙ ap read_int h ∙ read_int-show_ℤ (pos n) in
    let p : pos m ≡ pos n = cc in cc

-- A resource's name, whatever its kind, determines its number.
resource_name_injective :
    (kind other : String) (m n : ℕ) → resource_name kind m ≡ resource_name other n → m ≡ n
resource_name_injective kind other m n h =
    show_ℕ_injective m n
      (sym (after_dash-resource_name kind m) ∙ ap after_dash h ∙ after_dash-resource_name other n)

-- The names that a registry has given: for kinds, and numbers no larger than its sequence.
abbrev pub IsNamed : ℕ → String → Type 0
IsNamed bound name = (kind : String) × (n : ℕ) × (n ≤ bound) × (name ≡ resource_name kind n)

pub IsNumbered : {R : Type 0} → Registry R → Type 0
IsNumbered {R} g = All (λ (p : String × R). IsNamed g.sequence p.0) g.resources

module _ {R : Type 0} where
  assign_new :
      (kind : String) (bound : ℕ) (r : R) (rs : List (String × R))
      → All (λ (p : String × R). IsNamed bound p.0) rs
      → assign (resource_name kind (suc bound)) r rs
        ≡ rs ++ (resource_name kind (suc bound), r) ∷ []
  unfolding assign
  assign_new kind bound r [] h = refl
  assign_new kind bound r ((name, s) ∷ rs) h =
      let (other, n, small, named) = h.0 in
      let different : (name == resource_name kind (suc bound)) ≡ false =
        other_name other kind name n bound small named in
      rw different (ap (◌∷◌ (name, s)) (assign_new kind bound r rs h.1))
    where
      other_name :
          (other kind name : String) (n bound : ℕ)
          → n ≤ bound
          → name ≡ resource_name other n
          → (name == resource_name kind (suc bound)) ≡ false
      other_name other kind name n bound small named =
          elim (Bool-cases (name == resource_name kind (suc bound))) [
            | inr different ↦ different
            | inl same ↦
                let p : n ≡ suc bound =
                  resource_name_injective other kind n (suc bound)
                    (sym named ∙ ==_eq name (resource_name kind (suc bound)) same) in
                absurd (omega (arith, p, small))
          ]

  IsNamed-later :
      (bound : ℕ) (rs : List (String × R))
      → All (λ (p : String × R). IsNamed bound p.0) rs
      → All (λ (p : String × R). IsNamed (suc bound) p.0) rs
  IsNamed-later bound rs h = All-map (λ p x. (x.0, x.1, omega (arith, x.2), x.3)) rs h

  All-snoc :
      (P : String × R → Type 0) (rs : List (String × R)) (x : String × R)
      → All P rs
      → P x
      → All P (rs ++ x ∷ [])
  All-snoc P [] x h p = (p, tt)
  All-snoc P (r ∷ rs) x h p = (h.0, All-snoc P rs x h.1 p)

  -- What `register` makes of a numbered registry.
  IsNumbered-next :
      (kind name : String) (r : R) (g g' : Registry R)
      → All (λ (p : String × R). IsNamed g.sequence p.0) g.resources
      → is_phase g.phase active ≡ true
      → Path
          (Result RegistryError (String × Registry R))
          (ok (
            resource_name kind (suc g.sequence),
            record g {
              sequence = suc g.sequence;
              resources = assign (resource_name kind (suc g.sequence)) r g.resources;
            },
          ))
          (ok (name, g'))
      → (g'.resources ≡ g.resources ++ (name, r) ∷ []) × IsNumbered g' × (g'.phase ≡ active)
  unfolding IsNumbered
  IsNumbered-next kind name r g g' i idle h =
      let given = resource_name kind (suc g.sequence) in
      let made : Registry R = record g {
        sequence = suc g.sequence;
        resources = assign given r g.resources;
      } in
      let same : Path (String × Registry R) (given, made) (name, g') = cc in
      let placed : made.resources ≡ g.resources ++ (given, r) ∷ [] =
        assign_new kind g.sequence r g.resources i in
      let there =
        All-snoc (λ (p : String × R). IsNamed (suc g.sequence) p.0) g.resources (given, r)
          (IsNamed-later g.sequence g.resources i) (kind, suc g.sequence, omega arith, refl) in
      let numbered : All (λ (p : String × R). IsNamed (suc g.sequence) p.0) made.resources =
        subst (All (λ (p : String × R). IsNamed (suc g.sequence) p.0)) (sym placed) there in
      let phase : made.phase ≡ active = phase_of g.phase idle in
      subst
        (λ (x : String × Registry R).
          (x.1.resources ≡ g.resources ++ (x.0, r) ∷ []) × IsNumbered x.1 × (x.1.phase ≡ active))
        same (placed, numbered, phase)
    where
      phase_of : (p : Phase) → is_phase p active ≡ true → p ≡ active
      phase_of active h = refl
      phase_of preparing h = cc
      phase_of prepared h = cc
      phase_of restoring h = cc
      phase_of failed h = cc

pub new-IsNumbered : (R : Type 0) → IsNumbered {R = R} new
unfolding IsNumbered new
new-IsNumbered R = tt

-- A registration that returns adds the resource under a name of its own: every earlier entry stays as it
-- was, since a name, whatever kinds are chosen, determines its number; and the numbering goes on.
pub register-IsNumbered :
    {R W : Type 0} (s : Resources R W) (r : R) (kind name : String) (g g' : Registry R)
    → IsNumbered g
    → register s r kind g ≡ ok (name, g')
    → (g'.resources ≡ g.resources ++ (name, r) ∷ []) × IsNumbered g' × (g'.phase ≡ active)
unfolding register IsNumbered
register-IsNumbered {R} s r kind name g g' i h =
    let (a, h1) = raise_if-eq-ok (not (is_phase g.phase active)) (cannot_register g.phase) _ h in
    let (b, h2) = raise_if-eq-ok (is_empty kind || not (s.has_contract r)) invalid_contract _ h1 in
    IsNumbered-next kind name r g g' i (ground (arith, a)) h2
