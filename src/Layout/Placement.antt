-- ===== src/Layout/Placement.antt =====
-- The placement of the groups: each pair has one fingerprint and size, and no target comes twice.
use coldsnap.Base.{
  ℕ, Bool, true, false, not, Option, none, some, List, [], ◌∷◌, member, All, Distinct, keys_of, ◌≡◌,
  inl, inr, refl, arith, ok, >>=-eq-ok, raise_if-eq-ok, ok_injective, Bool-cases, pos, eqb_ℤ,
  eqb_ℤ_iff, ◌==◌, ==_eq, ==_refl, nat_eq, list_eq, pair_eq, string_eq, int_eq, sym, ap, ◌∙◌, subst,
}
use coldsnap.Layout.Allocations.{Ref, Key, get_elem?, size_at, reference_fingerprint}
use coldsnap.Layout.Replay.{
  Saved, Groups, ReplayError, size_mismatch, index_error, indices_of, element, place_one, place_all,
  targets, refs_of,
}
use coldsnap.Layout.Groups.{AreSound, indices_of-All}

pub element-ok :
    {A : Type 0} (e : ReplayError) (o : Option A) {x : A} → element e o ≡ ok x → o ≡ some x
element-ok e (some y) h = ap some (ok_injective h)
element-ok e none h = cc

-- The list at an index has the fingerprint.
abbrev pub HasFingerprint : List (List Ref) → List Key → ℕ → Type 0
HasFingerprint lists k i =
    (refs : List Ref) × (get_elem? lists i ≡ some refs) × (reference_fingerprint refs ≡ k)

module _ (saved : List Saved) (current : List (ℕ × ℕ)) (fresh : List (List Ref)) where
  -- A source and a target of one fingerprint and size
  pub record IsLinked (k : List Key) (s c : ℕ) : Type 0 where
    pub source : HasFingerprint (refs_of saved) k s
    pub target : HasFingerprint fresh k c
    pub sized :
        (entry : Saved) × (get_elem? saved s ≡ some entry) × (entry.size ≡ pos (size_at c current))

  abbrev pub AreLinked : Groups → List (ℕ × ℕ) → Type 0
  AreLinked [] [] = Unit
  AreLinked [] (p ∷ m) = ⊥
  AreLinked ((k, is) ∷ groups) [] = ⊥
  AreLinked ((k, is) ∷ groups) ((s, c) ∷ m) = IsLinked k s c × AreLinked groups m

  place_one-IsLinked :
      (k : List Key) (sources found : List ℕ) (p : ℕ × ℕ)
      → All (HasFingerprint (refs_of saved) k) sources
      → All (HasFingerprint fresh k) found
      → place_one saved current sources found ≡ ok p
      → IsLinked k p.0 p.1
  unfolding place_one
  place_one-IsLinked k [] found p a b h = cc
  place_one-IsLinked k (s ∷ ss) [] p a b h = cc
  place_one-IsLinked k (s ∷ ss) (c ∷ d ∷ cs) p a b h = cc
  place_one-IsLinked k (s ∷ ss) (c ∷ []) p a b h =
      let (entry, q, h1) = >>=-eq-ok (element index_error (get_elem? saved s)) _ h in
      let (equal, h2) =
        raise_if-eq-ok (not (eqb_ℤ entry.size (pos (size_at c current)))) (size_mismatch s) _ h1 in
      let same : eqb_ℤ entry.size (pos (size_at c current)) ≡ true = unnegated _ equal in
      subst (λ (x : ℕ × ℕ). IsLinked k x.0 x.1) (ok_injective h2)
        (record {
          source = a.0;
          target = b.0;
          sized = (
            entry,
            element-ok index_error (get_elem? saved s) q,
            (eqb_ℤ_iff entry.size (pos (size_at c current))).0 same,
          );
        })
    where
      unnegated : (b : Bool) → not b ≡ false → b ≡ true
      unnegated true h = refl
      unnegated false h = cc

  pub place_all-AreLinked :
      (fresh_groups groups : Groups) (m : List (ℕ × ℕ))
      → AreSound (HasFingerprint fresh) fresh_groups
      → AreSound (HasFingerprint (refs_of saved)) groups
      → place_all saved current fresh_groups groups ≡ ok m
      → AreLinked groups m
  unfolding place_all
  place_all-AreLinked fresh_groups [] m f g h =
      let e : [] ≡ m = ok_injective h in subst (AreLinked []) e tt
  place_all-AreLinked fresh_groups ((k, sources) ∷ groups) m f g h =
      let found = indices_of k fresh_groups in
      let (p, q, h1) = >>=-eq-ok (place_one saved current sources found) _ h in
      let (rest, r, h2) = >>=-eq-ok (place_all saved current fresh_groups groups) _ h1 in
      let e : p ∷ rest ≡ m = ok_injective h2 in
      subst (AreLinked ((k, sources) ∷ groups)) e (
        place_one-IsLinked k sources found p g.0
            (indices_of-All (HasFingerprint fresh) k fresh_groups f) q,
        place_all-AreLinked fresh_groups groups rest f g.1 r,
      )

  pub one_fingerprint :
      (lists : List (List Ref)) (j k : List Key) (c : ℕ)
      → HasFingerprint lists j c
      → HasFingerprint lists k c
      → j ≡ k
  one_fingerprint lists j k c (xs, p, q) (ys, p', q') =
      let e : some xs ≡ some ys = sym p ∙ p' in
      let same : xs ≡ ys = cc in sym q ∙ ap reference_fingerprint same ∙ q'

  target-fingerprint :
      (groups : Groups) (m : List (ℕ × ℕ)) (k : List Key) (c : ℕ)
      → AreLinked groups m
      → HasFingerprint fresh k c
      → member c (targets m) ≡ true
      → member k (keys_of groups) ≡ true
  target-fingerprint [] [] k c l f h = cc
  target-fingerprint [] (p ∷ m) k c l f h = absurd l
  target-fingerprint ((j, is) ∷ groups) [] k c l f h = absurd l
  target-fingerprint ((j, is) ∷ groups) ((s, d) ∷ m) k c l f h = elim (Bool-cases (c == d)) [
    | inl same ↦
        let here : HasFingerprint fresh k d = subst (HasFingerprint fresh k) (==_eq c d same) f in
        let e : k ≡ j = one_fingerprint fresh k j d here l.0.target in
        let q : (k == j) ≡ true = subst (λ x. (k == x) ≡ true) e (==_refl k) in ground (arith, q)
    | inr other ↦ ground (arith, other, h, target-fingerprint groups m k c l.1 f)
  ]

  pub targets-Distinct :
      (groups : Groups) (m : List (ℕ × ℕ))
      → AreLinked groups m
      → Distinct (keys_of groups)
      → Distinct (targets m)
  targets-Distinct [] [] l d = tt
  targets-Distinct [] (p ∷ m) l d = absurd l
  targets-Distinct ((k, is) ∷ groups) [] l d = absurd l
  targets-Distinct ((k, is) ∷ groups) ((s, c) ∷ m) l d =
      (fresh_target, targets-Distinct groups m l.1 d.1)
    where
      fresh_target : member c (targets m) ≡ false
      fresh_target = elim (Bool-cases (member c (targets m))) [
        | inl again ↦
            let e = target-fingerprint groups m k c l.1 l.0.target again in
            absurd (ground (arith, e, d.0))
        | inr new ↦ new
      ]
