-- ===== src/Layout/References.antt =====
-- The references of the fresh process, allocation by allocation, and what the checks on them decide.
use coldsnap.Base.{
  ℕ, zero, suc, ◌+◌, Bool, true, false, ◌&&◌, ◌||◌, not, Option, none, some, List, [], ◌∷◌, ◌++◌,
  length, member, ◌≡◌, inl, inr, refl, arith, if◌then◌else◌, Bool-cases, ltb, leb, eqb, nat_eq, sym,
  ap, ◌∙◌,
}
use mathlib.Core.List.{append-nil, append_assoc}
use coldsnap.Layout.Allocations.{
  Tensor, Ref, get_elem?, base_at, ref_of, allocation_of, append_at, add_ref, collect, empty_lists,
  current_refs,
}
use coldsnap.Layout.Replay.{is_nil, unmatched, extras_from}

abbrev is_at : ℕ → Option ℕ → Bool
is_at n (some i) = eqb i n
is_at n _ = false

abbrev is_skipped : Tensor → Bool
is_skipped t = not t.is_cuda || eqb t.numel 0

-- The tensor refers to the allocation at the index.
unfoldable pub refers : List (ℕ × ℕ) → ℕ → Tensor → Bool
refers current n t = not (is_skipped t) && is_at n (allocation_of current t)

-- The references to the allocation at an index, in the order of the tensors
unfoldable pub references : List (ℕ × ℕ) → ℕ → List Tensor → List Ref
unfolding refers
references current n [] = []
references current n (t ∷ ts) =
    let rest = references current n ts in
    if refers current n t then ref_of (base_at n current) t ∷ rest else rest

some_injective : {A : Type 0} {x y : A} → Path (Option A) (some x) (some y) → x ≡ y
some_injective h = cc

empty_lists-get :
    (n : ℕ) (current : List (ℕ × ℕ))
    → ltb n (length current) ≡ true
    → get_elem? (empty_lists current) n ≡ some []
empty_lists-get n [] h = absurd (ground (arith, h))
empty_lists-get zero (a ∷ rest) h = refl
empty_lists-get (suc n) (a ∷ rest) h = empty_lists-get n rest (ground (arith, h))

append_at-get :
    (i n : ℕ) (x : Ref) (lists : List (List Ref)) (refs : List Ref)
    → get_elem? lists n ≡ some refs
    → get_elem? (append_at i x lists) n ≡ some (if eqb i n then refs ++ x ∷ [] else refs)
unfolding append_at
append_at-get i n x [] refs h = cc
append_at-get zero zero x (l ∷ lists) refs h =
    let e : l ≡ refs = cc in ap (λ y. some (y ++ x ∷ [])) e
append_at-get zero (suc n) x (l ∷ lists) refs h = h ∙ ground arith
append_at-get (suc i) zero x (l ∷ lists) refs h = h ∙ ground arith
append_at-get (suc i) (suc n) x (l ∷ lists) refs h = append_at-get i n x lists refs h ∙ ground arith

module _ (current : List (ℕ × ℕ)) where
  one_more : ℕ → Tensor → List Ref → List Ref
  one_more n t refs = if refers current n t then refs ++ ref_of (base_at n current) t ∷ [] else refs

  add_ref-get :
      (n : ℕ) (t : Tensor) (lists : List (List Ref)) (refs : List Ref)
      → get_elem? lists n ≡ some refs
      → get_elem?
          (if not t.is_cuda || eqb t.numel 0
            then lists
            else add_ref current t (allocation_of current t) lists)
          n
        ≡ some (one_more n t refs)
  unfolding one_more refers
  add_ref-get n t lists refs h = elim (Bool-cases (is_skipped t)) [
    | inl skipped ↦ rw (skipped) h
    | inr kept ↦ rw (kept) (at_place (allocation_of current t))
  ]
    where
      at_place :
          (o : Option ℕ)
          → get_elem? (add_ref current t o lists) n
            ≡ some (if is_at n o then refs ++ ref_of (base_at n current) t ∷ [] else refs)
      at_place none = h
      at_place (some i) = elim (Bool-cases (eqb i n)) [
        | inl same ↦
            let e : i ≡ n = ground (arith, same) in
            append_at-get i n (ref_of (base_at i current) t) lists refs h
            ∙ ap (λ k. some (if eqb i n then refs ++ ref_of (base_at k current) t ∷ [] else refs)) e
        | inr other ↦
            append_at-get i n (ref_of (base_at i current) t) lists refs h ∙ (rw other refl)
      ]

  one_more-references :
      (n : ℕ) (t : Tensor) (ts : List Tensor) (refs : List Ref)
      → one_more n t refs ++ references current n ts ≡ refs ++ references current n (t ∷ ts)
  unfolding one_more references
  one_more-references n t ts refs = elim (Bool-cases (refers current n t)) [
    | inl added ↦ rw added (append_assoc refs _ (references current n ts))
    | inr other ↦ rw other refl
  ]

  collect-get :
      (n : ℕ) (ts : List Tensor) (lists : List (List Ref)) (refs : List Ref)
      → get_elem? lists n ≡ some refs
      → get_elem? (collect current ts lists) n ≡ some (refs ++ references current n ts)
  unfolding collect references
  collect-get n [] lists refs h = h ∙ ap some (sym (append-nil refs))
  collect-get n (t ∷ ts) lists refs h =
      collect-get n ts _ (one_more n t refs) (add_ref-get n t lists refs h)
      ∙ ap some (one_more-references n t ts refs)

  pub current_refs-get :
      (n : ℕ) (tensors : List Tensor)
      → ltb n (length current) ≡ true
      → get_elem? (current_refs current tensors) n ≡ some (references current n tensors)
  unfolding current_refs
  current_refs-get n tensors h =
      collect-get n tensors (empty_lists current) [] (empty_lists-get n current h)

-- No list of references is left over, unless its index is used.
pub unmatched-nil :
    (i : ℕ) (fresh : List (List Ref)) (used : List ℕ) (n : ℕ) (refs : List Ref)
    → is_nil (unmatched i fresh used) ≡ true
    → get_elem? fresh n ≡ some refs
    → (is_nil refs || member (n + i) used) ≡ true
unfolding unmatched
unmatched-nil i [] used n refs h g = cc
unmatched-nil i (x ∷ fresh) used zero refs h g =
    let e : is_nil x ≡ is_nil refs = ap is_nil (some_injective g) in
    let k : member (0 + i) used ≡ member i used = ap (λ j. member j used) (omega arith) in
    ground arith
unmatched-nil i (x ∷ fresh) used (suc n) refs h g =
    let k : member (n + suc i) used ≡ member (suc n + i) used =
      ap (λ j. member j used) (omega arith) in
    let r = unmatched-nil (suc i) fresh used n refs (ground arith) g in ground (arith, r, k)

pub member-extras_from :
    (i c : ℕ) (current : List (ℕ × ℕ)) (used : List ℕ)
    → member c (extras_from i current used)
      ≡ (leb i c && ltb c (i + length current) && not (member c used))
unfolding extras_from
member-extras_from i c [] used = ground arith
member-extras_from i c (a ∷ current) used = elim (Bool-cases (eqb c i)) [
  | inl same ↦
      let e : c ≡ i = ground (arith, same) in
      let k : member c used ≡ member i used = ap (λ j. member j used) e in
      ground (arith, member-extras_from (suc i) c current used, k)
  | inr other ↦ ground (arith, member-extras_from (suc i) c current used)
]
