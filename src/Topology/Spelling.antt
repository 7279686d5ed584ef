-- ===== src/Topology/Spelling.antt =====
-- topology.py: what the loop of `global_rank` over the world groups collects.
use coldsnap.Base.{
  String, Bool, true, false, Option, none, some, List, [], ◌∷◌, ◌++◌, ◌≡◌, refl, inl, inr, arith,
  Result, ok, ◌>>=◌, raise_if-eq-ok, Bool-cases, ◌==◌, string_eq, int_eq, All, ℤ, pos, ◌≤ℤ◌, show_ℤ,
  read_int, read_int-show_ℤ, Json, member, map, >>=-eq-ok, if◌then◌else◌, ltb_ℤ, not, sym, ap,
  subst, ◌∙◌, eq_iff,
}
use coldsnap.Topology.Graph.{TopologyError, invalid_world_rank, is_world_group, ranks_of, items}
use coldsnap.Topology.Ranks.{is_worker, nonnegative, world_rank, ranks_in, world_ranks}

-- The keys under which the world groups hold the worker.
unfoldable keys_in : String → List (String × Json) → List String
keys_in worker [] = []
keys_in worker ((key, member) ∷ rest) =
    let later = keys_in worker rest in if is_worker worker member then key ∷ later else later

unfoldable pub world_keys : String → List (String × Json) → List String
unfolding keys_in
world_keys worker [] = []
world_keys worker ((id, group) ∷ rest) =
    let later = world_keys worker rest in
    if is_world_group group then keys_in worker (items (ranks_of group)) ++ later else later

-- `keys` are the decimal texts of `ranks`, and those are not negative.
abbrev pub Spells : List String → List ℤ → Type 0
Spells [] [] = Unit
Spells (key ∷ keys) (rank ∷ ranks) = (key ≡ show_ℤ rank) × (pos 0 ≤ℤ rank) × Spells keys ranks
Spells _ _ = ⊥

pub nonnegative-eq-ok :
    (e : TopologyError) (o : Option ℤ) (rank : ℤ)
    → nonnegative e o ≡ ok rank
    → (o ≡ some rank) × (pos 0 ≤ℤ rank)
unfolding nonnegative
nonnegative-eq-ok e none rank h = cc
nonnegative-eq-ok e (some n) rank h = elim (Bool-cases (ltb_ℤ n (pos 0))) [
  | inl bad ↦ ground arith
  | inr good ↦
      let same : n ≡ rank = ground arith in
      (ap some same, subst (λ m. pos 0 ≤ℤ m) same (ground arith))
]

world_rank-eq-ok :
    (key : String) (rank : ℤ) → world_rank key ≡ ok rank → (key ≡ show_ℤ rank) × (pos 0 ≤ℤ rank)
unfolding world_rank
world_rank-eq-ok key rank h =
    let (r, p, h1) = >>=-eq-ok (nonnegative invalid_world_rank (read_int key)) _ h in
    let (t, q) = raise_if-eq-ok (not (show_ℤ r == key)) invalid_world_rank _ h1 in
    let same : r ≡ rank = cc in
    let spelled : show_ℤ r ≡ key = (eq_iff (show_ℤ r) key).0 (ground arith) in
    let (read, bound) = nonnegative-eq-ok invalid_world_rank (read_int key) r p in
    (sym spelled ∙ ap show_ℤ same, subst (λ m. pos 0 ≤ℤ m) same bound)

-- The text of a natural number is read as that number.
world_rank-show_ℤ : (r : ℤ) → pos 0 ≤ℤ r → world_rank (show_ℤ r) ≡ ok r
unfolding world_rank nonnegative
world_rank-show_ℤ r h = rw (read_int-show_ℤ r) (ground (arith, eq_iff (show_ℤ r) (show_ℤ r)))

Spells-++ :
    (ks ls : List String) (ms ns : List ℤ)
    → Spells ks ms
    → Spells ls ns
    → Spells (ks ++ ls) (ms ++ ns)
Spells-++ [] ls [] ns h k = k
Spells-++ [] ls (m ∷ ms) ns h k = absurd h
Spells-++ (key ∷ ks) ls [] ns h k = absurd h
Spells-++ (key ∷ ks) ls (m ∷ ms) ns h k = (h.0, h.1, Spells-++ ks ls ms ns h.2 k)

Spells-cons :
    (taken : Bool) (key : String) (keys : List String) (m : Result TopologyError ℤ)
    (later : Result TopologyError (List ℤ)) (ranks : List ℤ)
    → ((rank : ℤ) → m ≡ ok rank → (key ≡ show_ℤ rank) × (pos 0 ≤ℤ rank))
    → ((rs : List ℤ) → later ≡ ok rs → Spells keys rs)
    → (if taken then (m >>= λ rank. later >>= λ rs. ok (rank ∷ rs)) else later) ≡ ok ranks
    → Spells (if taken then key ∷ keys else keys) ranks
Spells-cons true key keys m later ranks head tail h =
    let (rank, p, h1) = >>=-eq-ok m _ h in
    let (rs, q, h2) = >>=-eq-ok later _ h1 in
    let built : rank ∷ rs ≡ ranks = cc in
    let (spelled, bound) = head rank p in
    subst (Spells (key ∷ keys)) built (spelled, bound, tail rs q)
Spells-cons false key keys m later ranks head tail h = tail ranks h

Spells-append :
    (taken : Bool) (here keys : List String) (m later : Result TopologyError (List ℤ))
    (ranks : List ℤ)
    → ((rs : List ℤ) → m ≡ ok rs → Spells here rs)
    → ((rs : List ℤ) → later ≡ ok rs → Spells keys rs)
    → (if taken then (m >>= λ found. later >>= λ rs. ok (found ++ rs)) else later) ≡ ok ranks
    → Spells (if taken then here ++ keys else keys) ranks
Spells-append true here keys m later ranks head tail h =
    let (found, p, h1) = >>=-eq-ok m _ h in
    let (rs, q, h2) = >>=-eq-ok later _ h1 in
    let built : found ++ rs ≡ ranks = cc in
    subst (Spells (here ++ keys)) built (Spells-++ here keys found rs (head found p) (tail rs q))
Spells-append false here keys m later ranks head tail h = tail ranks h

Spells-nil : (ranks : List ℤ) → [] ≡ ranks → Spells [] ranks
Spells-nil ranks e = subst (Spells []) e tt

ranks_in-Spells :
    (worker : String) (entries : List (String × Json)) (ranks : List ℤ)
    → ranks_in worker entries ≡ ok ranks
    → Spells (keys_in worker entries) ranks
unfolding ranks_in keys_in
ranks_in-Spells worker [] ranks h = Spells-nil ranks cc
ranks_in-Spells worker ((key, member) ∷ rest) ranks h =
    Spells-cons (is_worker worker member) key (keys_in worker rest) (world_rank key)
      (ranks_in worker rest) ranks (λ rank p. world_rank-eq-ok key rank p)
      (λ rs p. ranks_in-Spells worker rest rs p) h

-- The ranks collected are the ones that the world groups' keys spell.
pub world_ranks-Spells :
    (worker : String) (groups : List (String × Json)) (ranks : List ℤ)
    → world_ranks worker groups ≡ ok ranks
    → Spells (world_keys worker groups) ranks
unfolding world_ranks world_keys
world_ranks-Spells worker [] ranks h = Spells-nil ranks cc
world_ranks-Spells worker ((id, group) ∷ rest) ranks h =
    Spells-append (is_world_group group) (keys_in worker (items (ranks_of group)))
      (world_keys worker rest) (ranks_in worker (items (ranks_of group))) (world_ranks worker rest)
      ranks (λ rs p. ranks_in-Spells worker (items (ranks_of group)) rs p)
      (λ rs p. world_ranks-Spells worker rest rs p) h

-- Conversely keys that all spell one rank are read as copies of it.
module _ (rank : ℤ) (bound : pos 0 ≤ℤ rank) where
  All-left :
      (ks ls : List String) → All (λ k. k ≡ show_ℤ rank) (ks ++ ls) → All (λ k. k ≡ show_ℤ rank) ks
  All-left [] ls h = tt
  All-left (k ∷ ks) ls h = (h.0, All-left ks ls h.1)

  All-right :
      (ks ls : List String) → All (λ k. k ≡ show_ℤ rank) (ks ++ ls) → All (λ k. k ≡ show_ℤ rank) ls
  All-right [] ls h = h
  All-right (k ∷ ks) ls h = All-right ks ls h.1

  map-++_const :
      (ks ls : List String) → map (λ _. rank) ks ++ map (λ _. rank) ls ≡ map (λ _. rank) (ks ++ ls)
  map-++_const [] ls = refl
  map-++_const (k ∷ ks) ls = ap (◌∷◌ rank) (map-++_const ks ls)

  cons_complete :
      (taken : Bool) (key : String) (keys : List String) (m : Result TopologyError ℤ)
      (later : Result TopologyError (List ℤ))
      → (key ≡ show_ℤ rank → m ≡ ok rank)
      → (All (λ k. k ≡ show_ℤ rank) keys → later ≡ ok (map (λ _. rank) keys))
      → All (λ k. k ≡ show_ℤ rank) (if taken then key ∷ keys else keys)
      → (if taken then (m >>= λ r. later >>= λ rs. ok (r ∷ rs)) else later)
        ≡ ok (map (λ _. rank) (if taken then key ∷ keys else keys))
  cons_complete true key keys m later head tail h =
      let e = head h.0 in
      let t = tail h.1 in
      ap (λ x. x >>= λ r. later >>= λ rs. ok (r ∷ rs)) e ∙ ap (λ x. x >>= λ rs. ok (rank ∷ rs)) t
  cons_complete false key keys m later head tail h = tail h

  append_complete :
      (taken : Bool) (here keys : List String) (m later : Result TopologyError (List ℤ))
      → (All (λ k. k ≡ show_ℤ rank) here → m ≡ ok (map (λ _. rank) here))
      → (All (λ k. k ≡ show_ℤ rank) keys → later ≡ ok (map (λ _. rank) keys))
      → All (λ k. k ≡ show_ℤ rank) (if taken then here ++ keys else keys)
      → (if taken then (m >>= λ found. later >>= λ rs. ok (found ++ rs)) else later)
        ≡ ok (map (λ _. rank) (if taken then here ++ keys else keys))
  append_complete true here keys m later head tail h =
      ap (λ x. x >>= λ found. later >>= λ rs. ok (found ++ rs)) (head (All-left here keys h))
      ∙ ap (λ x. x >>= λ rs. ok (map (λ _. rank) here ++ rs)) (tail (All-right here keys h))
      ∙ ap ok (map-++_const here keys)
  append_complete false here keys m later head tail h = tail h

  ranks_in_complete :
      (worker : String) (entries : List (String × Json))
      → All (λ k. k ≡ show_ℤ rank) (keys_in worker entries)
      → ranks_in worker entries ≡ ok (map (λ _. rank) (keys_in worker entries))
  unfolding ranks_in keys_in
  ranks_in_complete worker [] h = refl
  ranks_in_complete worker ((key, member) ∷ rest) h =
      cons_complete (is_worker worker member) key (keys_in worker rest) (world_rank key)
        (ranks_in worker rest) (λ p. ap world_rank p ∙ world_rank-show_ℤ rank bound)
        (ranks_in_complete worker rest) h

  pub world_ranks_complete :
      (worker : String) (groups : List (String × Json))
      → All (λ k. k ≡ show_ℤ rank) (world_keys worker groups)
      → world_ranks worker groups ≡ ok (map (λ _. rank) (world_keys worker groups))
  unfolding world_ranks world_keys
  world_ranks_complete worker [] h = refl
  world_ranks_complete worker ((id, group) ∷ rest) h =
      append_complete (is_world_group group) (keys_in worker (items (ranks_of group)))
        (world_keys worker rest) (ranks_in worker (items (ranks_of group)))
        (world_ranks worker rest) (ranks_in_complete worker (items (ranks_of group)))
        (world_ranks_complete worker rest) h
