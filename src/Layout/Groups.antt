-- ===== src/Layout/Groups.antt =====
-- The groups of indices: under a fingerprint stand only indices that have it, and each fingerprint once.
use coldsnap.Base.{
  ℕ, suc, ◌+◌, Bool, true, false, ◌||◌, some, List, [], ◌∷◌, ◌++◌, member, All, Distinct, keys_of,
  ◌≡◌, inl, inr, refl, arith, if◌then◌else◌, Bool-cases, ◌==◌, ==_eq, ==_refl, list_eq, pair_eq,
  string_eq, int_eq, sym, ap, ◌∙◌, subst,
}
use coldsnap.Layout.Allocations.{Ref, Key, get_elem?, reference_fingerprint}
use coldsnap.Layout.Replay.{Groups, is_nil, record_index, by_fingerprint, indices_of}

pub All-++ : {A : Type 0} (P : A → Type 0) (xs ys : List A) → All P xs → All P ys → All P (xs ++ ys)
All-++ P [] ys h k = k
All-++ P (x ∷ xs) ys h k = (h.0, All-++ P xs ys h.1 k)

-- Every index in the groups has its fingerprint, in the sense of `P`.
abbrev pub AreSound : (List Key → ℕ → Type 0) → Groups → Type 0
AreSound P groups = All (λ (g : List Key × List ℕ). All (P g.0) g.1) groups

module _ (P : List Key → ℕ → Type 0) where
  record_index-AreSound :
      (k : List Key) (i : ℕ) (groups : Groups)
      → P k i
      → AreSound P groups
      → AreSound P (record_index k i groups)
  unfolding record_index
  record_index-AreSound k i [] p h = ((p, tt), tt)
  record_index-AreSound k i ((j, is) ∷ groups) p h = elim (Bool-cases (k == j)) [
    | inl same ↦
        let here : P j i = subst (λ x. P x i) (==_eq k j same) p in
        rw same (All-++ (P j) is (i ∷ []) h.0 (here, tt), h.1)
    | inr other ↦ rw other (h.0, record_index-AreSound k i groups p h.1)
  ]

  pub by_fingerprint-AreSound :
      (i : ℕ) (lists : List (List Ref)) (groups : Groups)
      → ((n : ℕ) (refs : List Ref)
          → get_elem? lists n ≡ some refs
          → P (reference_fingerprint refs) (n + i))
      → AreSound P groups
      → AreSound P (by_fingerprint i lists groups)
  unfolding by_fingerprint
  by_fingerprint-AreSound i [] groups h k = k
  by_fingerprint-AreSound i (refs ∷ lists) groups h k =
      by_fingerprint-AreSound (suc i) lists _
        (λ n rs e. subst (P (reference_fingerprint rs)) (omega arith) (h (suc n) rs e))
        (chosen (is_nil (reference_fingerprint refs)))
    where
      chosen :
          (b : Bool)
          → AreSound P (if b then groups else record_index (reference_fingerprint refs) i groups)
      chosen true = k
      chosen false =
          record_index-AreSound (reference_fingerprint refs) i groups
            (subst (P (reference_fingerprint refs)) (omega arith) (h 0 refs refl)) k

  pub indices_of-All :
      (k : List Key) (groups : Groups) → AreSound P groups → All (P k) (indices_of k groups)
  unfolding indices_of
  indices_of-All k [] h = tt
  indices_of-All k ((j, is) ∷ groups) h = elim (Bool-cases (k == j)) [
    | inl same ↦ rw same (subst (λ x. All (P x) is) (sym (==_eq k j same)) h.0)
    | inr other ↦ rw other (indices_of-All k groups h.1)
  ]

member-record_index :
    (a k : List Key) (i : ℕ) (groups : Groups)
    → member a (keys_of (record_index k i groups)) ≡ (member a (keys_of groups) || a == k)
unfolding record_index
member-record_index a k i [] = ground arith
member-record_index a k i ((j, is) ∷ groups) = elim (Bool-cases (k == j)) [
  | inl same ↦ let p : j ≡ k = sym (==_eq k j same) in rw same (ground (arith, ap (λ x. a == x) p))
  | inr other ↦ rw other (ground (arith, member-record_index a k i groups))
]

record_index-Distinct :
    (k : List Key) (i : ℕ) (groups : Groups)
    → Distinct (keys_of groups)
    → Distinct (keys_of (record_index k i groups))
unfolding record_index
record_index-Distinct k i [] h = (refl, tt)
record_index-Distinct k i ((j, is) ∷ groups) h = elim (Bool-cases (k == j)) [
  | inl same ↦ rw same h
  | inr other ↦
      let apart : (j == k) ≡ false = swapped j k other in
      rw other (
        member-record_index j k i groups ∙ ground (arith, h.0, apart),
        record_index-Distinct k i groups h.1,
      )
]
  where
    swapped : (j k : List Key) → (k == j) ≡ false → (j == k) ≡ false
    swapped j k other = elim (Bool-cases (j == k)) [
      | inl same ↦
          let e : (k == j) ≡ true = subst (λ x. (x == j) ≡ true) (==_eq j k same) (==_refl j) in
          absurd (ground (arith, e, other))
      | inr fine ↦ fine
    ]

pub by_fingerprint-Distinct :
    (i : ℕ) (lists : List (List Ref)) (groups : Groups)
    → Distinct (keys_of groups)
    → Distinct (keys_of (by_fingerprint i lists groups))
unfolding by_fingerprint
by_fingerprint-Distinct i [] groups h = h
by_fingerprint-Distinct i (refs ∷ lists) groups h =
    by_fingerprint-Distinct (suc i) lists _ (chosen (is_nil (reference_fingerprint refs)))
  where
    chosen :
        (b : Bool)
        → Distinct
            (keys_of (if b then groups else record_index (reference_fingerprint refs) i groups))
    chosen true = h
    chosen false = record_index-Distinct (reference_fingerprint refs) i groups h
