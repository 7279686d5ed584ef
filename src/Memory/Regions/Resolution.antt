-- ===== src/Memory/Regions/Resolution.antt =====
-- memory.py: what `MemoryRegion` accepts as a name, and what `resolve_regions` returns.
use coldsnap.Base.{
  String, true, false, Option, none, some, inl, inr, Bool-cases, List, [], ◌∷◌, ◌++◌, map, ◌≡◌, ◌↔◌,
  refl, sym, ap, subst, ◌∙◌, ok, ok_injective, ◌==◌, string_eq, member, Distinct, All, is_empty,
  any_space, strip, strip_of_no_space, arith, eq_iff, >>=-eq-ok, raise_if-eq-ok,
}
use mathlib.Core.List.{append-nil, append_assoc}
use coldsnap.Memory.Regions.{
  MemoryRegion, preserve, discard, recreate, external, RegionRef, region, by_name, standard_regions,
  find_region, or_unknown, post_init, resolve_one, resolve_loop, resolve_regions,
}

pub record IsRegion (r : MemoryRegion) : Type 0 where
  pub named : is_empty r.name ≡ false
  pub no_space : any_space r.name ≡ false
  pub owned : r.policy ≡ external → r.stable_address ≡ false

-- A region is accepted exactly when its name is nonempty and free of white space (so that the test
-- on `strip` adds nothing), and external memory promises no stable address.
pub post_init_iff : (r : MemoryRegion) → (post_init r ≡ ok tt) ↔ IsRegion r
unfolding post_init
post_init_iff r =
    (λ h. ground (arith, strip_of_no_space r.name), λ h. accepts h.named h.no_space h.owned)
  where
    accepts :
        is_empty r.name ≡ false
        → any_space r.name ≡ false
        → (r.policy ≡ external → r.stable_address ≡ false)
        → post_init r ≡ ok tt
    accepts n s o = ground (arith, o, strip_of_no_space r.name s, eq_iff (strip r.name) r.name)

abbrev pub names : List MemoryRegion → List String
names = map (λ r. r.name)

-- The standard regions
pub data IsStandard : MemoryRegion → Type 0 where
  the_weights : IsStandard (record { name = "weights"; policy = preserve; stable_address = true })
  the_kv_cache : IsStandard (record { name = "kv_cache"; policy = discard; stable_address = true })
  the_cuda_graph :
      IsStandard (record { name = "cuda_graph"; policy = recreate; stable_address = true })
  the_workspace :
      IsStandard (record { name = "workspace"; policy = recreate; stable_address = true })
  the_external :
      IsStandard (record { name = "external"; policy = external; stable_address = false })

-- A region that is given stands for itself, a name for the standard region of the name.
abbrev pub StandsFor : RegionRef → MemoryRegion → Type 0
StandsFor (region given) r = r ≡ given
StandsFor (by_name name) r = IsStandard r × (r.name ≡ name)

-- The region that each argument stands for, with no test for duplicates.
pub data Resolves : List RegionRef → List MemoryRegion → Type 0 where
  done : Resolves [] []
  next :
      {v : RegionRef} {r : MemoryRegion} {vs : List RegionRef} {rs : List MemoryRegion}
      → StandsFor v r
      → Resolves vs rs
      → Resolves (v ∷ vs) (r ∷ rs)

-- A region can be given only if its construction returned.
abbrev pub IsConstructed : RegionRef → Type 0
IsConstructed (region r) = post_init r ≡ ok tt
IsConstructed (by_name name) = Unit

abbrev pub AreConstructed : Option (List RegionRef) → Type 0
AreConstructed (some vs) = All IsConstructed vs
AreConstructed none = Unit

-- The five standard regions for no argument; for some, what they stand for, of different names; all valid
abbrev pub AreResolved : Option (List RegionRef) → List MemoryRegion → Type 0
AreResolved none rs =
    rs
    ≡ record { name = "weights"; policy = preserve; stable_address = true }
      ∷ record { name = "kv_cache"; policy = discard; stable_address = true }
      ∷ record { name = "cuda_graph"; policy = recreate; stable_address = true }
      ∷ record { name = "workspace"; policy = recreate; stable_address = true }
      ∷ record { name = "external"; policy = external; stable_address = false }
      ∷ []
AreResolved (some vs) rs = Resolves vs rs × Distinct (names rs) × All IsRegion rs

IsStandard-constructed : {r : MemoryRegion} → IsStandard r → post_init r ≡ ok tt
unfolding post_init strip any_space
IsStandard-constructed the_weights = refl
IsStandard-constructed the_kv_cache = refl
IsStandard-constructed the_cuda_graph = refl
IsStandard-constructed the_workspace = refl
IsStandard-constructed the_external = refl

find_region-All :
    (P : MemoryRegion → Type 0) (name : String) (rs : List MemoryRegion) (r : MemoryRegion)
    → All P rs
    → find_region name rs ≡ some r
    → P r × (r.name ≡ name)
unfolding find_region
find_region-All P name [] r a h = cc
find_region-All P name (x ∷ rs) r a h = elim (Bool-cases (x.name == name)) [
  | inl same ↦
      let e : some x ≡ some r = (rw same at h) in
      let is : x ≡ r = cc in
      (subst P is a.0, ap (λ (y : MemoryRegion). y.name) (sym is) ∙ (eq_iff x.name name).0 same)
  | inr other ↦
      let e : find_region name rs ≡ some r = (rw other at h) in find_region-All P name rs r a.1 e
]

standard_found : {r : MemoryRegion} → IsStandard r → find_region r.name standard_regions ≡ some r
unfolding find_region
standard_found the_weights = refl
standard_found the_kv_cache = refl
standard_found the_cuda_graph = refl
standard_found the_workspace = refl
standard_found the_external = refl

resolve_one_iff : (v : RegionRef) (r : MemoryRegion) → (resolve_one v ≡ ok r) ↔ StandsFor v r
unfolding resolve_one
resolve_one_iff (region given) r = (λ h. sym (ok_injective h), λ h. ap ok (sym h))
resolve_one_iff (by_name name) r = (
  λ h.
      find_region-All IsStandard name standard_regions r
        (the_weights, (the_kv_cache, (the_cuda_graph, (the_workspace, (the_external, tt)))))
        (found (find_region name standard_regions) h),
  λ h. rw (subst (λ n. find_region n standard_regions ≡ some r) h.1 (standard_found h.0)) (known r),
)
  where
    found : (o : Option MemoryRegion) → or_unknown name o ≡ ok r → o ≡ some r
    found (some x) h = ap some (ok_injective h)
    found none h = cc

    known : (x : MemoryRegion) → or_unknown name (some x) ≡ ok x
    known x = refl

Resolves-IsRegion :
    {vs : List RegionRef} {rs : List MemoryRegion}
    → All IsConstructed vs
    → Resolves vs rs
    → All IsRegion rs
Resolves-IsRegion c done = tt
Resolves-IsRegion c (next {v = v} {r = r} p q) = (one v c.0 p, Resolves-IsRegion c.1 q)
  where
    one : (v : RegionRef) → IsConstructed v → StandsFor v r → IsRegion r
    one (region given) k p = subst IsRegion (sym p) ((post_init_iff given).0 k)
    one (by_name name) k p = (post_init_iff r).0 (IsStandard-constructed p.0)

fresh_names :
    (a : String) (seen ns : List String)
    → All (λ n. member n (a ∷ seen) ≡ false) ns
    → (member a ns ≡ false) × All (λ n. member n seen ≡ false) ns
fresh_names a seen [] h = (refl, tt)
fresh_names a seen (n ∷ ns) h = ground (arith, fresh_names a seen ns h.1, eq_iff a n, eq_iff n a)

stale_names :
    (a : String) (seen ns : List String)
    → member a ns ≡ false
    → All (λ n. member n seen ≡ false) ns
    → All (λ n. member n (a ∷ seen) ≡ false) ns
stale_names a seen [] h k = tt
stale_names a seen (n ∷ ns) h k = ground (arith, stale_names a seen ns, eq_iff a n, eq_iff n a)

-- What a run of the loop from `acc` and `seen` has returned.
record Resolved (vs : List RegionRef) (seen : List String) (acc out : List MemoryRegion)
    : Type 0 where
  found : List MemoryRegion
  resolves : Resolves vs found
  appended : out ≡ acc ++ found
  distinct : Distinct (names found)
  unseen : All (λ n. member n seen ≡ false) (names found)

Resolved-cons :
    (v : RegionRef) (r : MemoryRegion) (vs : List RegionRef) (seen : List String)
    (acc out : List MemoryRegion)
    → resolve_one v ≡ ok r
    → member r.name seen ≡ false
    → Resolved vs (r.name ∷ seen) (acc ++ r ∷ []) out
    → Resolved (v ∷ vs) seen acc out
Resolved-cons v r vs seen acc out p n rest =
    let (fresh, unseen) = fresh_names r.name seen (names rest.found) rest.unseen in
    record {
      found = r ∷ rest.found;
      resolves = next ((resolve_one_iff v r).0 p) rest.resolves;
      appended = rest.appended ∙ append_assoc acc (r ∷ []) rest.found;
      distinct = (fresh, rest.distinct);
      unseen = (n, unseen);
    }

resolve_loop-Resolved :
    (vs : List RegionRef) (seen : List String) (acc out : List MemoryRegion)
    → resolve_loop vs seen acc ≡ ok out
    → Resolved vs seen acc out
unfolding resolve_loop
resolve_loop-Resolved [] seen acc out h = record {
  found = [];
  resolves = done;
  appended = ground (arith, append-nil acc);
  distinct = tt;
  unseen = tt;
}
resolve_loop-Resolved (v ∷ vs) seen acc out h =
    let (r, p, k) = >>=-eq-ok (resolve_one v) _ h in
    let (n, m) = raise_if-eq-ok (member r.name seen) _ _ k in
    Resolved-cons v r vs seen acc out p n
      (resolve_loop-Resolved vs (r.name ∷ seen) (acc ++ r ∷ []) out m)

resolve_loop_of_Resolves :
    {vs : List RegionRef} {rs : List MemoryRegion} (seen : List String) (acc : List MemoryRegion)
    → Resolves vs rs
    → Distinct (names rs)
    → All (λ n. member n seen ≡ false) (names rs)
    → resolve_loop vs seen acc ≡ ok (acc ++ rs)
unfolding resolve_loop
resolve_loop_of_Resolves seen acc done d u = ap ok (sym (append-nil acc))
resolve_loop_of_Resolves seen acc (next {v = v} {r = r} {vs = vs} {rs = rs} p q) d u =
    rw ((resolve_one_iff v r).1 p, u.0)
      (resolve_loop_of_Resolves (r.name ∷ seen) (acc ++ r ∷ []) q d.1
          (stale_names r.name seen (names rs) d.0 u.1)
        ∙ ap ok (append_assoc acc (r ∷ []) rs))

All-unseen : (ns : List String) → All (λ n. member n [] ≡ false) ns
All-unseen [] = tt
All-unseen (n ∷ ns) = (refl, All-unseen ns)

-- The regions returned have different names, whatever was given.
pub resolve_regions-Distinct :
    (vs : List RegionRef) (rs : List MemoryRegion)
    → resolve_regions (some vs) ≡ ok rs
    → Distinct (names rs)
unfolding resolve_regions
resolve_regions-Distinct vs rs h =
    let r = resolve_loop-Resolved vs [] [] rs h in
    subst (λ out. Distinct (names out)) (sym r.appended) r.distinct

-- When the regions that are given are ones whose construction returned, the call returns a list exactly when
-- it is, for no argument, the five standard regions in their order, and for some the regions that they stand
-- for, in the caller's order and no two of one name: a given region itself, and for a name the standard
-- region of that name; each of them is then a valid region.
pub resolve_regions_iff :
    (values : Option (List RegionRef)) (rs : List MemoryRegion)
    → AreConstructed values
    → (resolve_regions values ≡ ok rs) ↔ AreResolved values rs
unfolding resolve_regions
resolve_regions_iff none rs c = (λ h. sym (ok_injective h), λ h. ap ok (sym h))
resolve_regions_iff (some vs) rs c = (
  λ h.
      let r = resolve_loop-Resolved vs [] [] rs h in
      subst (λ out. Resolves vs out × Distinct (names out) × All IsRegion out) (sym r.appended)
        (r.resolves, r.distinct, Resolves-IsRegion c r.resolves),
  λ h. resolve_loop_of_Resolves [] [] h.0 h.1 (All-unseen (names rs)),
)
