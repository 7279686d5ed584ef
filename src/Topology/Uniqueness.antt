-- ===== src/Topology/Uniqueness.antt =====
-- What `world_group` promises: the one world group of a rank.
use coldsnap.Base.{
  String, true, false, List, [], ◌∷◌, ◌++◌, ◌≡◌, refl, ◌↔◌, inl, inr, arith, ok, Bool-cases, All, ℤ,
  ap, subst, ◌∙◌, Json, string_eq, All-map,
}
use coldsnap.Topology.Graph.{ExecutionGraph}
use coldsnap.Topology.Holding.{HoldsRank, matches_rank-HoldsRank, HoldsRank-matches}
use coldsnap.Topology.Worlds.{matches_rank, matching, exactly_one, world_group}

-- The entry passes the code's test and no entry before or after it does.
record IsOnlyMatch (rank : ℤ) (entry : String × Json) (groups : List (String × Json)) : Type 0 where
  before : List (String × Json)
  after : List (String × Json)
  splits : groups ≡ before ++ entry ∷ after
  holds : matches_rank rank entry.1 ≡ true
  none_before : All (λ (p : String × Json). matches_rank rank p.1 ≡ false) before
  none_after : All (λ (p : String × Json). matches_rank rank p.1 ≡ false) after

module _ (rank : ℤ) where
  matching-eq-nil :
      (groups : List (String × Json))
      → matching rank groups ≡ []
      → All (λ (p : String × Json). matches_rank rank p.1 ≡ false) groups
  unfolding matching
  matching-eq-nil [] h = tt
  matching-eq-nil ((id, group) ∷ rest) h = elim (Bool-cases (matches_rank rank group)) [
    | inl hit ↦ ground arith
    | inr miss ↦ (miss, matching-eq-nil rest (ground arith))
  ]

  matching_of_none :
      (groups : List (String × Json))
      → All (λ (p : String × Json). matches_rank rank p.1 ≡ false) groups
      → matching rank groups ≡ []
  unfolding matching
  matching_of_none [] h = refl
  matching_of_none ((id, group) ∷ rest) h = rw h.0 (matching_of_none rest h.1)

  matching-eq-one :
      (entry : String × Json) (groups : List (String × Json))
      → matching rank groups ≡ entry ∷ []
      → IsOnlyMatch rank entry groups
  unfolding matching
  matching-eq-one entry [] h = cc
  matching-eq-one entry ((id, group) ∷ rest) h = elim (Bool-cases (matches_rank rank group)) [
    | inl hit ↦
        let one : (id, group) ∷ matching rank rest ≡ entry ∷ [] = ground arith in
        let first : (id, group) ≡ entry = cc in
        let others : matching rank rest ≡ [] = cc in
        record {
          before = [];
          after = rest;
          splits = ap (λ e. e ∷ rest) first;
          holds = subst (λ (e : String × Json). matches_rank rank e.1 ≡ true) first hit;
          none_before = tt;
          none_after = matching-eq-nil rest others;
        }
    | inr miss ↦
        let later = matching-eq-one entry rest (ground arith) in
        record {
          before = (id, group) ∷ later.before;
          after = later.after;
          splits = ap (◌∷◌ (id, group)) later.splits;
          holds = later.holds;
          none_before = (miss, later.none_before);
          none_after = later.none_after;
        }
  ]

  matching_of_split :
      (entry : String × Json) (before after : List (String × Json))
      → matches_rank rank entry.1 ≡ true
      → All (λ (p : String × Json). matches_rank rank p.1 ≡ false) before
      → All (λ (p : String × Json). matches_rank rank p.1 ≡ false) after
      → matching rank (before ++ entry ∷ after) ≡ entry ∷ []
  unfolding matching
  matching_of_split (id, group) [] after h b a =
      rw h (ap (◌∷◌ (id, group)) (matching_of_none after a))
  matching_of_split entry ((id, group) ∷ before) after h b a =
      rw b.0 (matching_of_split entry before after h b.1 a)

  exactly_one-eq-ok :
      (entry : String × Json) (entries : List (String × Json))
      → exactly_one entries ≡ ok entry
      → entries ≡ entry ∷ []
  unfolding exactly_one
  exactly_one-eq-ok entry [] h = cc
  exactly_one-eq-ok entry (e ∷ []) h = let same : e ≡ entry = cc in ap (λ x. x ∷ []) same
  exactly_one-eq-ok entry (e ∷ f ∷ es) h = cc

-- The entry's group holds the rank and no group before or after it does.
pub record IsOnlyGroup (rank : ℤ) (entry : String × Json) (groups : List (String × Json))
    : Type 0 where
  pub before : List (String × Json)
  pub after : List (String × Json)
  pub splits : groups ≡ before ++ entry ∷ after
  pub holds : HoldsRank rank entry.1
  pub none_before : All (λ (p : String × Json). HoldsRank rank p.1 → ⊥) before
  pub none_after : All (λ (p : String × Json). HoldsRank rank p.1 → ⊥) after

not_holding : (rank : ℤ) (group : Json) → matches_rank rank group ≡ false → HoldsRank rank group → ⊥
not_holding rank group h k = let e = HoldsRank-matches rank group k in absurd (ground (arith, h, e))

not_held : (rank : ℤ) (group : Json) → (HoldsRank rank group → ⊥) → matches_rank rank group ≡ false
not_held rank group h = elim (Bool-cases (matches_rank rank group)) [
  | inl hit ↦ absurd (h (matches_rank-HoldsRank rank group hit))
  | inr miss ↦ miss
]

-- `world_group` returns an entry exactly when its group is the only one of the graph's groups that is of a kind
-- ending in `:world`, has an integer size, and has the rank's decimal text among its ranks.
pub world_group_iff :
    (rank : ℤ) (g : ExecutionGraph) (entry : String × Json)
    → (world_group rank g ≡ ok entry) ↔ IsOnlyGroup rank entry g.groups
unfolding world_group
world_group_iff rank g entry = (
  λ h.
      let u =
        matching-eq-one rank entry g.groups
          (exactly_one-eq-ok rank entry (matching rank g.groups) h) in
      record {
        before = u.before;
        after = u.after;
        splits = u.splits;
        holds = matches_rank-HoldsRank rank entry.1 u.holds;
        none_before = All-map (λ (p : String × Json). not_holding rank p.1) u.before u.none_before;
        none_after = All-map (λ (p : String × Json). not_holding rank p.1) u.after u.none_after;
      },
  λ u.
      let one : matching rank g.groups ≡ entry ∷ [] =
        ap (matching rank) u.splits
        ∙ matching_of_split rank entry u.before u.after (HoldsRank-matches rank entry.1 u.holds)
            (All-map (λ (p : String × Json). not_held rank p.1) u.before u.none_before)
            (All-map (λ (p : String × Json). not_held rank p.1) u.after u.none_after) in
      ap exactly_one one ∙ (unfold exactly_one in refl),
)
