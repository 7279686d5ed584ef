-- ===== src/Topology/Placement.antt =====
-- What `global_rank` promises: the rank that the world groups give the process's worker, agreed with the
-- environment's.
use coldsnap.Base.{
  String, Bool, true, Option, none, some, List, [], ◌∷◌, ◌≡◌, refl, ◌≢◌, ◌⊎◌, ◌↔◌, inl, inr, arith,
  ok, ◌>>=◌, Option-cases, string_eq, int_eq, All, to_set, ℤ, pos, ◌≤ℤ◌, show_ℤ, read_int,
  JsonLibrary, map, >>=-eq-ok, sym, ap, subst, ◌∙◌,
}
use coldsnap.Topology.Graph.{invalid_rank, Environment, ExecutionGraph}
use coldsnap.Topology.Spelling.{
  world_keys, world_ranks-Spells, world_ranks_complete, nonnegative-eq-ok,
}
use coldsnap.Topology.Workers.{worker_id}
use coldsnap.Topology.Ranks.{
  nonnegative, world_ranks, at_most_one, topology_rank, settle, explicit_rank, rank_names,
  graph_or_environment, global_rank,
}
use coldsnap.Topology.Settling.{
  to_set_nil, at_most_one-one, at_most_one-none, singleton-to_set, at_most_one_of_All, Spells-All,
  Spells-bound, Spells-empty, IsSettled, settle-eq-some, settle_of_IsSettled,
}

explicit_rank-bound :
    (values : Environment) (names : List String) (r : ℤ)
    → explicit_rank values names ≡ ok (some r)
    → pos 0 ≤ℤ r
unfolding explicit_rank
explicit_rank-bound values [] r h = cc
explicit_rank-bound values (name ∷ names) r h = elim (Option-cases (values name)) [
  | inl unset ↦ explicit_rank-bound values names r (ground arith)
  | inr (raw, set) ↦
      let chain : (nonnegative (invalid_rank name) (read_int raw) >>= λ rank. ok (some rank))
          ≡ ok (some r) =
        ground arith in
      let (rank, p, q) = >>=-eq-ok (nonnegative (invalid_rank name) (read_int raw)) _ chain in
      let (read, bound) = nonnegative-eq-ok (invalid_rank name) (read_int raw) rank p in
      let same : rank ≡ r = cc in subst (λ m. pos 0 ≤ℤ m) same bound
]

-- The rank that the process has: every key of its worker in the world groups spells it, and the first
-- variable that is set, if one is, holds it; one of the two is there.
pub record IsPlaced (g : ExecutionGraph) (values : Environment) (r : ℤ) : Type 0 where
  worker : String
  found : worker_id g values ≡ ok worker
  explicit : Option ℤ
  read : explicit_rank values rank_names ≡ ok explicit
  bound : pos 0 ≤ℤ r
  spelled : All (λ key. key ≡ show_ℤ r) (world_keys worker g.groups)
  settled : (explicit ≡ some r) ⊎ ((explicit ≡ none) × (world_keys worker g.groups ≢ []))

module _ (g : ExecutionGraph) (values : Environment) (r : ℤ) where
  collected_sound :
      (worker : String) (ranks : List ℤ) (explicit placed : Option ℤ)
      → worker_id g values ≡ ok worker
      → world_ranks worker g.groups ≡ ok ranks
      → at_most_one (to_set ranks) ≡ ok placed
      → explicit_rank values rank_names ≡ ok explicit
      → IsSettled explicit placed r
      → IsPlaced g values r
  collected_sound worker ranks explicit placed f w o e (inl (same, absent)) =
      let empty : ranks ≡ [] =
        to_set_nil ranks (at_most_one-none (to_set ranks) (o ∙ ap ok absent)) in
      let no_keys : world_keys worker g.groups ≡ [] =
        Spells-empty (world_keys worker g.groups) ranks (world_ranks-Spells worker g.groups ranks w)
          empty in
      record {
        worker = worker;
        found = f;
        explicit = explicit;
        read = e;
        bound = explicit_rank-bound values rank_names r (e ∙ ap ok same);
        spelled = subst (All (λ key. key ≡ show_ℤ r)) (sym no_keys) tt;
        settled = inl same;
      }
  collected_sound worker ranks explicit placed f w o e (inr (either, there)) =
      let one : to_set ranks ≡ r ∷ [] = at_most_one-one (to_set ranks) r (o ∙ ap ok there) in
      let (n, all_r) = singleton-to_set r ranks one in
      let s = world_ranks-Spells worker g.groups ranks w in
      let (keys_there, b) = Spells-bound (world_keys worker g.groups) ranks r s n all_r in
      record {
        worker = worker;
        found = f;
        explicit = explicit;
        read = e;
        bound = b;
        spelled = Spells-All (world_keys worker g.groups) ranks r s all_r;
        settled = elim either [ inl missing ↦ inr (missing, keys_there) | inr same ↦ inl same ];
      }

  collected_complete :
      (keys : List String) (explicit : Option ℤ)
      → (explicit ≡ some r) ⊎ ((explicit ≡ none) × (keys ≢ []))
      → (placed : Option ℤ) × (at_most_one (to_set (map (λ _. r) keys)) ≡ ok placed)
        × IsSettled explicit placed r
  collected_complete [] explicit (inl same) =
      (none, unfold to_set at_most_one in refl, inl (same, refl))
  collected_complete [] explicit (inr (missing, n)) = absurd (n refl)
  collected_complete (k ∷ ks) explicit h = (
    some r,
    at_most_one_of_All r r (map (λ _. r) ks) (refl, copies ks),
    inr (elim h [ inl same ↦ inr same | inr (missing, n) ↦ inl missing ], refl),
  )
    where
      copies : (ks : List String) → All (λ y. y ≡ r) (map (λ _. r) ks)
      copies [] = tt
      copies (k ∷ ks) = (refl, copies ks)

  -- The two ends of `global_rank` once the graph is there.
  IsPlaced-sound :
      (explicit placed : Option ℤ) (required : Bool)
      → explicit_rank values rank_names ≡ ok explicit
      → topology_rank (some g) values ≡ ok placed
      → settle explicit placed required ≡ ok (some r)
      → IsPlaced g values r
  unfolding topology_rank
  IsPlaced-sound explicit placed required e t s =
      let (worker, f, t1) = >>=-eq-ok (worker_id g values) _ t in
      let (ranks, w, o) = >>=-eq-ok (world_ranks worker g.groups) _ t1 in
      collected_sound worker ranks explicit placed f w o e
        (settle-eq-some explicit placed required r s)

  placed_complete :
      (required : Bool) (p : IsPlaced g values r)
      → (topology_rank (some g) values >>= λ placed. settle p.explicit placed required)
        ≡ ok (some r)
  unfolding topology_rank
  placed_complete required p =
      let w = world_ranks_complete r p.bound p.worker g.groups p.spelled in
      let (placed, o, s) = collected_complete (world_keys p.worker g.groups) p.explicit p.settled in
      let t : topology_rank (some g) values ≡ ok placed =
        ap (λ x. x >>= λ worker. world_ranks worker g.groups >>= λ rs. at_most_one (to_set rs))
          p.found
        ∙ ap (λ x. x >>= λ rs. at_most_one (to_set rs)) w
        ∙ o in
      ap (λ x. x >>= λ there. settle p.explicit there required) t
      ∙ settle_of_IsSettled p.explicit placed required r s

-- On an execution graph, given or read from the environment, `global_rank` returns a rank exactly when the
-- process has it: the worker is identified, every key of the worker in the world groups is the decimal
-- text of that one nonnegative rank, and the environment's rank is it or, if there is a key, unset.
pub global_rank_iff :
    (l : JsonLibrary) (graph : Option ExecutionGraph) (g : ExecutionGraph) (values : Environment)
    (required : Bool) (r : ℤ)
    → graph_or_environment l graph values ≡ ok (some g)
    → (global_rank l graph values required ≡ ok (some r)) ↔ IsPlaced g values r
unfolding global_rank
global_rank_iff l graph g values required r given = (
  λ h.
      let (explicit, e, h1) = >>=-eq-ok (explicit_rank values rank_names) _ h in
      let (found, f, h2) = >>=-eq-ok (graph_or_environment l graph values) _ h1 in
      let same : found ≡ some g = cc in
      let h3 : (topology_rank (some g) values >>= λ placed. settle explicit placed required)
          ≡ ok (some r) =
        subst
          (λ x.
            (topology_rank x values >>= λ placed. settle explicit placed required) ≡ ok (some r))
          same h2 in
      let (placed, t, s) = >>=-eq-ok (topology_rank (some g) values) _ h3 in
      IsPlaced-sound g values r explicit placed required e t s,
  λ p.
      ap
        (λ x. x >>= λ explicit. graph_or_environment l graph values >>= λ found.
          topology_rank found values >>= λ placed. settle explicit placed required)
        p.read
      ∙ ap
          (λ x. x >>= λ found.
            topology_rank found values >>= λ placed. settle p.explicit placed required)
          given
      ∙ placed_complete g values r required p,
)

settle-required : (explicit placed : Option ℤ) → settle explicit placed true ≢ ok none
unfolding settle
settle-required (some e) (some p) h = ground arith
settle-required none (some p) h = cc
settle-required (some e) none h = cc
settle-required none none h = cc

-- When a rank is required, `global_rank` returns one or raises.
pub global_rank-required :
    (l : JsonLibrary) (graph : Option ExecutionGraph) (values : Environment)
    → global_rank l graph values true ≢ ok none
unfolding global_rank
global_rank-required l graph values h =
    let (explicit, e, h1) = >>=-eq-ok (explicit_rank values rank_names) _ h in
    let (found, f, h2) = >>=-eq-ok (graph_or_environment l graph values) _ h1 in
    let (placed, t, s) = >>=-eq-ok (topology_rank found values) _ h2 in
    settle-required explicit placed s
