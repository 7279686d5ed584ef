-- ===== src/Layout/Targets.antt =====
-- The mapping from saved allocations to fresh ones, looked up: one source for each target.
use coldsnap.Base.{
  ℕ, true, false, none, some, List, [], ◌∷◌, member, Distinct, keys_of, ◌≡◌, ◌⊎◌, inl, inr, refl,
  arith, Bool-cases, Option-cases, eqb, ◌==◌, ==_eq, ==_refl, nat_eq, list_eq, pair_eq, string_eq,
  int_eq, sym, ◌∙◌, subst,
}
use coldsnap.Layout.Allocations.{Ref, Key, get_elem?}
use coldsnap.Layout.Replay.{Saved, Groups, mapped, targets, refs_of}
use coldsnap.Layout.Placement.{IsLinked, AreLinked, one_fingerprint}

mapped-cons :
    (i c s d : ℕ) (m : List (ℕ × ℕ))
    → mapped i ((s, d) ∷ m) ≡ some c
    → (mapped i m ≡ some c) ⊎ ((i ≡ s) × (c ≡ d))
unfolding mapped
mapped-cons i c s d m h = elim (Option-cases (mapped i m)) [
  | inl nothing ↦ elim (Bool-cases (eqb i s)) [
    | inl same ↦
        let e : some d ≡ some c = sym (first_of nothing same) ∙ h in inr (==_eq i s same, cc)
    | inr other ↦ let e : none ≡ some c = sym (nowhere nothing other) ∙ h in cc
  ]
  | inr (x, later) ↦
      let q : mapped i ((s, d) ∷ m) ≡ some x = rw later refl in inl (later ∙ sym q ∙ h)
]
  where
    first_of : mapped i m ≡ none → eqb i s ≡ true → mapped i ((s, d) ∷ m) ≡ some d
    first_of nothing same = rw (nothing, same) refl

    nowhere : mapped i m ≡ none → eqb i s ≡ false → mapped i ((s, d) ∷ m) ≡ none
    nowhere nothing other = rw (nothing, other) refl

module _ (saved : List Saved) (current : List (ℕ × ℕ)) (fresh : List (List Ref)) where
  -- What an index is mapped to has its fingerprint and size, under a fingerprint of the groups.
  pub mapped-IsLinked :
      (groups : Groups) (m : List (ℕ × ℕ)) (i c : ℕ)
      → AreLinked saved current fresh groups m
      → mapped i m ≡ some c
      → (k : List Key) × IsLinked saved current fresh k i c × (member k (keys_of groups) ≡ true)
  unfolding mapped
  mapped-IsLinked [] [] i c l h = cc
  mapped-IsLinked [] (p ∷ m) i c l h = absurd l
  mapped-IsLinked ((k, is) ∷ groups) [] i c l h = absurd l
  mapped-IsLinked ((k, is) ∷ groups) ((s, d) ∷ m) i c l h = elim (mapped-cons i c s d m h) [
    | inl later ↦
        let (j, linked, known) = mapped-IsLinked groups m i c l.1 later in
        (j, linked, ground (arith, known))
    | inr (p, q) ↦ (
      k,
      subst (λ x. IsLinked saved current fresh k x c) (sym p)
          (subst (IsLinked saved current fresh k s) (sym q) l.0),
      ground (arith, ==_refl k),
    )
  ]

  -- Each target is the one of some source.
  pub targets-mapped :
      (groups : Groups) (m : List (ℕ × ℕ)) (c : ℕ)
      → AreLinked saved current fresh groups m
      → Distinct (keys_of groups)
      → member c (targets m) ≡ true
      → (s : ℕ) × (mapped s m ≡ some c) × (entry : Saved) × (get_elem? saved s ≡ some entry)
  unfolding mapped
  targets-mapped [] [] c l d h = cc
  targets-mapped [] (p ∷ m) c l d h = absurd l
  targets-mapped ((k, is) ∷ groups) [] c l d h = absurd l
  targets-mapped ((k, is) ∷ groups) ((s, t) ∷ m) c l d h = elim (Bool-cases (c == t)) [
    | inl same ↦ elim (Option-cases (mapped s m)) [
      | inl nothing ↦
          let here : mapped s ((s, t) ∷ m) ≡ some c = first_of nothing (==_eq c t same) in
          let (entry, found, size) = l.0.sized in (s, here, entry, found)
      | inr (x, again) ↦
          let (j, linked, known) = mapped-IsLinked groups m s x l.1 again in
          let e : j ≡ k =
            one_fingerprint saved current fresh (refs_of saved) j k s linked.source l.0.source in
          let seen : member k (keys_of groups) ≡ true =
            subst (λ x. member x (keys_of groups) ≡ true) e known in
          absurd (ground (arith, seen, d.0))
    ]
    | inr other ↦
        let (i, later, entry, known) = targets-mapped groups m c l.1 d.1 (ground arith) in
        let q : mapped i ((s, t) ∷ m) ≡ some c = rw later refl in (i, q, entry, known)
  ]
    where
      first_of : mapped s m ≡ none → c ≡ t → mapped s ((s, t) ∷ m) ≡ some c
      first_of nothing e = rw (nothing, ==_refl s, e) refl

pub mapped-member : (i c : ℕ) (m : List (ℕ × ℕ)) → mapped i m ≡ some c → member c (targets m) ≡ true
unfolding mapped
mapped-member i c [] h = cc
mapped-member i c ((s, d) ∷ m) h = elim (mapped-cons i c s d m h) [
  | inl later ↦ let r = mapped-member i c m later in ground arith
  | inr (p, q) ↦
      let e : (c == d) ≡ true = subst (λ x. (c == x) ≡ true) q (==_refl c) in ground arith
]

-- No two sources have one target.
pub mapped-injective :
    (m : List (ℕ × ℕ)) (i j c : ℕ)
    → Distinct (targets m)
    → mapped i m ≡ some c
    → mapped j m ≡ some c
    → i ≡ j
unfolding mapped
mapped-injective [] i j c d h k = cc
mapped-injective ((s, t) ∷ m) i j c d h k = elim (mapped-cons i c s t m h) [
  | inl later ↦ elim (mapped-cons j c s t m k) [
    | inl again ↦ mapped-injective m i j c d.1 later again
    | inr (p, q) ↦ absurd (twice q (mapped-member i c m later))
  ]
  | inr (p, q) ↦ elim (mapped-cons j c s t m k) [
    | inl again ↦ absurd (twice q (mapped-member j c m again))
    | inr (p', q') ↦ p ∙ sym p'
  ]
]
  where
    twice : c ≡ t → member c (targets m) ≡ true → ⊥
    twice q seen =
        let e : member t (targets m) ≡ true = subst (λ x. member x (targets m) ≡ true) q seen in cc
