-- ===== src/Layout/Replayed.antt =====
-- The list that `semantic_replay_map` replays: what stands in it, and where.
use coldsnap.Base.{
  ℕ, zero, suc, ◌+◌, true, false, Option, some, List, [], ◌∷◌, Perm, member, All, Distinct, keys_of,
  ◌≡◌, inl, inr, refl, arith, ok, >>=-eq-ok, ok_injective, Bool-cases, pos, ◌==◌, ==_eq, ==_refl,
  nat_eq, list_eq, pair_eq, string_eq, int_eq, string_ord, int_ord, list_ord, pair_ord, sym, ap,
  ◌∙◌, subst,
}
use coldsnap.Layout.Allocations.{Ref, Key, get_elem?, size_at}
use coldsnap.Layout.Replay.{
  Saved, Groups, Placed, key_error, index_error, element, mapped, targets, refs_of, replay_from,
}
use coldsnap.Layout.Fingerprints.{fingerprint-perm}
use coldsnap.Layout.Placement.{IsLinked, AreLinked, element-ok}
use coldsnap.Layout.Targets.{mapped-IsLinked, mapped-injective, mapped-member, targets-mapped}

abbrev pub targets_of : List Placed → List ℕ
targets_of [] = []
targets_of (p ∷ ps) = p.target ∷ targets_of ps

abbrev pub entries_of : List Placed → List Saved
entries_of [] = []
entries_of (p ∷ ps) = p.entry ∷ entries_of ps

-- An entry at an allocation of its size, to which the same references are made
pub record IsPlaced (current : List (ℕ × ℕ)) (fresh : List (List Ref)) (p : Placed) : Type 0 where
  pub located :
      (size : ℕ) × (get_elem? current p.target ≡ some (p.base, size)) × (p.entry.size ≡ pos size)
  pub matched : (refs : List Ref) × (get_elem? fresh p.target ≡ some refs) × Perm p.entry.refs refs

module _ (current : List (ℕ × ℕ)) (m : List (ℕ × ℕ)) where
  pub record IsFrom (i : ℕ) (entry : Saved) (p : Placed) : Type 0 where
    pub same : p.entry ≡ entry
    pub goes : mapped i m ≡ some p.target
    pub stands : (size : ℕ) × (get_elem? current p.target ≡ some (p.base, size))

  abbrev pub AreFrom : ℕ → List Saved → List Placed → Type 0
  AreFrom i [] [] = Unit
  AreFrom i [] (p ∷ ps) = ⊥
  AreFrom i (entry ∷ saved) [] = ⊥
  AreFrom i (entry ∷ saved) (p ∷ ps) = IsFrom i entry p × AreFrom (suc i) saved ps

  pub replay_from-AreFrom :
      (i : ℕ) (saved : List Saved) (ps : List Placed)
      → replay_from i saved current m ≡ ok ps
      → AreFrom i saved ps
  unfolding replay_from
  replay_from-AreFrom i [] ps h = subst (AreFrom i []) (ok_injective h) tt
  replay_from-AreFrom i (entry ∷ saved) ps h =
      let (c, p, h1) = >>=-eq-ok (element (key_error i) (mapped i m)) _ h in
      let (a, q, h2) = >>=-eq-ok (element index_error (get_elem? current c)) _ h1 in
      let (rest, r, h3) = >>=-eq-ok (replay_from (suc i) saved current m) _ h2 in
      subst (AreFrom i (entry ∷ saved)) (ok_injective h3) (
        record {
          same = refl;
          goes = element-ok (key_error i) (mapped i m) p;
          stands = (a.1, element-ok index_error (get_elem? current c) q);
        },
        replay_from-AreFrom (suc i) saved rest r,
      )

  pub AreFrom-entries :
      (i : ℕ) (saved : List Saved) (ps : List Placed) → AreFrom i saved ps → entries_of ps ≡ saved
  AreFrom-entries i [] [] f = refl
  AreFrom-entries i [] (p ∷ ps) f = absurd f
  AreFrom-entries i (entry ∷ saved) [] f = absurd f
  AreFrom-entries i (entry ∷ saved) (p ∷ ps) f =
      let e = f.0.same in let r = AreFrom-entries (suc i) saved ps f.1 in rw (e, r) refl

  -- A target of the list is the one of some later index.
  AreFrom-mapped :
      (i c : ℕ) (saved : List Saved) (ps : List Placed)
      → AreFrom i saved ps
      → member c (targets_of ps) ≡ true
      → (n : ℕ) × (mapped (n + i) m ≡ some c)
  AreFrom-mapped i c [] [] f h = cc
  AreFrom-mapped i c [] (p ∷ ps) f h = absurd f
  AreFrom-mapped i c (entry ∷ saved) [] f h = absurd f
  AreFrom-mapped i c (entry ∷ saved) (p ∷ ps) f h = elim (Bool-cases (c == p.target)) [
    | inl same ↦ (
      0,
      subst (λ k. mapped k m ≡ some c) (omega arith)
          (f.0.goes ∙ ap some (sym (==_eq c p.target same))),
    )
    | inr other ↦
        let (n, e) = AreFrom-mapped (suc i) c saved ps f.1 (ground arith) in
        (suc n, subst (λ k. mapped k m ≡ some c) (omega arith) e)
  ]

  pub AreFrom-Distinct :
      (i : ℕ) (saved : List Saved) (ps : List Placed)
      → Distinct (targets m)
      → AreFrom i saved ps
      → Distinct (targets_of ps)
  AreFrom-Distinct i [] [] d f = tt
  AreFrom-Distinct i [] (p ∷ ps) d f = absurd f
  AreFrom-Distinct i (entry ∷ saved) [] d f = absurd f
  AreFrom-Distinct i (entry ∷ saved) (p ∷ ps) d f = (new, AreFrom-Distinct (suc i) saved ps d f.1)
    where
      new : member p.target (targets_of ps) ≡ false
      new = elim (Bool-cases (member p.target (targets_of ps))) [
        | inl again ↦
            let (n, e) = AreFrom-mapped (suc i) p.target saved ps f.1 again in
            let same = mapped-injective m i (n + suc i) p.target d f.0.goes e in
            absurd (omega arith)
        | inr fine ↦ fine
      ]

  AreFrom-member :
      (i n c : ℕ) (saved : List Saved) (ps : List Placed) (entry : Saved)
      → AreFrom i saved ps
      → get_elem? saved n ≡ some entry
      → mapped (n + i) m ≡ some c
      → member c (targets_of ps) ≡ true
  AreFrom-member i n c [] [] entry f h g = cc
  AreFrom-member i n c [] (p ∷ ps) entry f h g = absurd f
  AreFrom-member i n c (e ∷ saved) [] entry f h g = absurd f
  AreFrom-member i zero c (e ∷ saved) (p ∷ ps) entry f h g =
      let q : some p.target ≡ some c =
        sym f.0.goes ∙ subst (λ k. mapped k m ≡ some c) (omega arith) g in
      let same : p.target ≡ c = cc in
      let r : (c == p.target) ≡ true = subst (λ x. (c == x) ≡ true) (sym same) (==_refl c) in
      ground arith
  AreFrom-member i (suc n) c (e ∷ saved) (p ∷ ps) entry f h g =
      let r =
        AreFrom-member (suc i) n c saved ps entry f.1 h
          (subst (λ k. mapped k m ≡ some c) (omega arith) g) in
      ground (arith, r)

  -- The targets of the list are those of the mapping.
  pub AreFrom-targets :
      (saved : List Saved) (ps : List Placed) (fresh : List (List Ref)) (groups : Groups) (c : ℕ)
      → AreLinked saved current fresh groups m
      → Distinct (keys_of groups)
      → AreFrom 0 saved ps
      → member c (targets_of ps) ≡ member c (targets m)
  AreFrom-targets saved ps fresh groups c l d f = elim (Bool-cases (member c (targets m))) [
    | inl seen ↦
        let (s, goes, entry, found) = targets-mapped saved current fresh groups m c l d seen in
        AreFrom-member 0 s c saved ps entry f found
          (subst (λ k. mapped k m ≡ some c) (omega arith) goes)
        ∙ sym seen
    | inr unseen ↦ elim (Bool-cases (member c (targets_of ps))) [
      | inl seen ↦
          let (n, e) = AreFrom-mapped 0 c saved ps f seen in
          let r = mapped-member (n + 0) c m e in absurd (ground (arith, r, unseen))
      | inr fine ↦ fine ∙ sym unseen
    ]
  ]

some_injective : {A : Type 0} {x y : A} → Path (Option A) (some x) (some y) → x ≡ y
some_injective h = cc

size_at-get :
    (c b s : ℕ) (current : List (ℕ × ℕ)) → get_elem? current c ≡ some (b, s) → size_at c current ≡ s
size_at-get c b s [] h = cc
size_at-get zero b s ((x, y) ∷ rest) h =
    let e : (x, y) ≡ (b, s) = some_injective h in ap (λ (p : ℕ × ℕ). p.1) e
size_at-get (suc c) b s (a ∷ rest) h = size_at-get c b s rest h

refs_of-get :
    (n : ℕ) (saved : List Saved) (entry : Saved)
    → get_elem? saved n ≡ some entry
    → get_elem? (refs_of saved) n ≡ some entry.refs
refs_of-get n [] entry h = cc
refs_of-get zero (e ∷ saved) entry h = ap (λ (x : Saved). some x.refs) (some_injective h)
refs_of-get (suc n) (e ∷ saved) entry h = refs_of-get n saved entry h

module _ (whole : List Saved) (current : List (ℕ × ℕ)) (fresh : List (List Ref))
    (m : List (ℕ × ℕ)) where
  placed_of :
      (i : ℕ) (k : List Key) (e : Saved) (p : Placed)
      → get_elem? whole i ≡ some e
      → IsLinked whole current fresh k i p.target
      → IsFrom current m i e p
      → IsPlaced current fresh p
  placed_of i k e p start linked r =
      let (size, found) = r.stands in
      let (x, at, equal) = linked.sized in
      let (xs, from, prints) = linked.source in
      let (ys, to, match) = linked.target in
      let same : x ≡ e = some_injective (sym at ∙ start) in
      let refs : xs ≡ e.refs = some_injective (sym from ∙ refs_of-get i whole e start) in
      record {
        located = (
          size,
          found,
          ap (λ (y : Saved). y.size) r.same
              ∙ ap (λ (y : Saved). y.size) (sym same)
              ∙ equal
              ∙ ap pos (size_at-get p.target p.base size current found),
        );
        matched = (
          ys,
          to,
          subst (λ zs. Perm zs ys) (refs ∙ sym (ap (λ (y : Saved). y.refs) r.same))
              (fingerprint-perm xs ys (prints ∙ sym match)),
        );
      }

  pub AreFrom-IsPlaced :
      (groups : Groups) (i : ℕ) (saved : List Saved) (ps : List Placed)
      → AreLinked whole current fresh groups m
      → ((n : ℕ) (e : Saved) → get_elem? saved n ≡ some e → get_elem? whole (n + i) ≡ some e)
      → AreFrom current m i saved ps
      → All (IsPlaced current fresh) ps
  AreFrom-IsPlaced groups i [] [] l w f = tt
  AreFrom-IsPlaced groups i [] (p ∷ ps) l w f = absurd f
  AreFrom-IsPlaced groups i (e ∷ saved) [] l w f = absurd f
  AreFrom-IsPlaced groups i (e ∷ saved) (p ∷ ps) l w f = (
    here,
    AreFrom-IsPlaced groups (suc i) saved ps l
        (λ n x h. subst (λ k. get_elem? whole k ≡ some x) (omega arith) (w (suc n) x h)) f.1,
  )
    where
      here : IsPlaced current fresh p
      here =
          let start : get_elem? whole i ≡ some e =
            subst (λ k. get_elem? whole k ≡ some e) (omega arith) (w 0 e refl) in
          let (k, linked, known) =
            mapped-IsLinked whole current fresh groups m i p.target l f.0.goes in
          placed_of i k e p start linked f.0
