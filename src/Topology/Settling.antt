-- ===== src/Topology/Settling.antt =====
-- topology.py: how `global_rank` puts the ranks that it has collected, and the environment's, together.
use coldsnap.Base.{
  String, Bool, true, false, Option, none, some, List, [], ◌∷◌, ◌≡◌, refl, ◌≢◌, ◌⊎◌, inl, inr,
  arith, ok, Bool-cases, string_eq, int_eq, All, to_set, ℤ, pos, ◌≤ℤ◌, show_ℤ, member_of_All,
  member, to_set_pos, length, eqb_ℤ_iff, sym, ap, subst, ◌∙◌,
}
use coldsnap.Topology.Spelling.{Spells}
use coldsnap.Topology.Ranks.{at_most_one, settle}

pub to_set_nil : (xs : List ℤ) → to_set xs ≡ [] → xs ≡ []
to_set_nil [] h = refl
to_set_nil (x ∷ xs) h = absurd (omega (arith, to_set_pos x xs, ap length h))

pub at_most_one-one : (ys : List ℤ) (r : ℤ) → at_most_one ys ≡ ok (some r) → ys ≡ r ∷ []
unfolding at_most_one
at_most_one-one [] r h = cc
at_most_one-one (y ∷ []) r h = let e : y ≡ r = cc in ap (λ z. z ∷ []) e
at_most_one-one (y ∷ z ∷ ys) r h = cc

pub at_most_one-none : (ys : List ℤ) → at_most_one ys ≡ ok none → ys ≡ []
unfolding at_most_one
at_most_one-none [] h = refl
at_most_one-none (y ∷ []) h = cc
at_most_one-none (y ∷ z ∷ ys) h = cc

pub singleton-to_set : (r : ℤ) (xs : List ℤ) → to_set xs ≡ r ∷ [] → (xs ≢ []) × All (λ x. x ≡ r) xs
unfolding to_set
singleton-to_set r [] h = cc
singleton-to_set r (x ∷ xs) h = elim (Bool-cases (member x xs)) [
  | inl old ↦
      let (n, rest) = singleton-to_set r xs (ground arith) in
      (λ e. cc, (member_of_All x r xs rest old, rest))
  | inr new ↦
      let one : x ∷ to_set xs ≡ r ∷ [] = ground arith in
      let first : x ≡ r = cc in
      let others : to_set xs ≡ [] = cc in
      (λ e. cc, (first, subst (All (λ y. y ≡ r)) (sym (to_set_nil xs others)) tt))
]

pub at_most_one_of_All :
    (r x : ℤ) (xs : List ℤ)
    → All (λ y. y ≡ r) (x ∷ xs)
    → at_most_one (to_set (x ∷ xs)) ≡ ok (some r)
unfolding to_set at_most_one
at_most_one_of_All r x [] h = ap (λ y. ok (some y)) h.0
at_most_one_of_All r x (y ∷ ys) h =
    ground (arith, at_most_one_of_All r y ys h.1, int_eq.beq_iff x y, h)

-- The ranks that are spelled determine the keys, and whether there are any.
pub Spells-All :
    (keys : List String) (ranks : List ℤ) (r : ℤ)
    → Spells keys ranks
    → All (λ x. x ≡ r) ranks
    → All (λ k. k ≡ show_ℤ r) keys
Spells-All [] [] r s h = tt
Spells-All (k ∷ ks) (x ∷ xs) r s h = (s.0 ∙ ap show_ℤ h.0, Spells-All ks xs r s.2 h.1)
Spells-All [] (x ∷ xs) r s h = absurd s
Spells-All (k ∷ ks) [] r s h = absurd s

pub Spells-bound :
    (keys : List String) (ranks : List ℤ) (r : ℤ)
    → Spells keys ranks
    → ranks ≢ []
    → All (λ x. x ≡ r) ranks
    → (keys ≢ []) × (pos 0 ≤ℤ r)
Spells-bound [] [] r s n h = absurd (n refl)
Spells-bound (k ∷ ks) (x ∷ xs) r s n h = (λ e. cc, subst (λ m. pos 0 ≤ℤ m) h.0 s.1)
Spells-bound [] (x ∷ xs) r s n h = absurd s
Spells-bound (k ∷ ks) [] r s n h = absurd s

pub Spells-empty :
    (keys : List String) (ranks : List ℤ) → Spells keys ranks → ranks ≡ [] → keys ≡ []
Spells-empty [] ranks s e = refl
Spells-empty (k ∷ ks) [] s e = absurd s
Spells-empty (k ∷ ks) (x ∷ xs) s e = cc

-- The environment's rank and the one in the groups, put together.
abbrev pub IsSettled : Option ℤ → Option ℤ → ℤ → Type 0
IsSettled explicit placed r =
    ((explicit ≡ some r) × (placed ≡ none))
    ⊎ (((explicit ≡ none) ⊎ (explicit ≡ some r)) × (placed ≡ some r))

pub settle-eq-some :
    (explicit placed : Option ℤ) (required : Bool) (r : ℤ)
    → settle explicit placed required ≡ ok (some r)
    → IsSettled explicit placed r
unfolding settle
settle-eq-some (some e) (some p) required r h = ground (arith, eqb_ℤ_iff e p)
settle-eq-some none (some p) required r h = inr (inl refl, ground arith)
settle-eq-some (some e) none required r h = inl (ground arith, refl)
settle-eq-some none none true r h = cc
settle-eq-some none none false r h = cc

pub settle_of_IsSettled :
    (explicit placed : Option ℤ) (required : Bool) (r : ℤ)
    → IsSettled explicit placed r
    → settle explicit placed required ≡ ok (some r)
unfolding settle
settle_of_IsSettled explicit placed required r h = ground (arith, eqb_ℤ_iff r r, h)
