-- ===== src/Layout/Correctness.antt =====
-- What `semantic_replay_map` returns.
use coldsnap.Base.{
  ℕ, zero, suc, ◌+◌, ◌≤◌, Bool, true, false, ◌&&◌, ◌||◌, not, some, List, [], ◌∷◌, length, Perm,
  member, All, All-map, Distinct, keys_of, ◌≡◌, inl, inr, refl, arith, ok, >>=-eq-ok,
  raise_if-eq-ok, ok_injective, Bool-cases, ltb, pos, nat_eq, list_eq, pair_eq, string_eq, int_eq,
  sym, ap, ◌∙◌, subst,
}
use coldsnap.Layout.Allocations.{Tensor, Ref, get_elem?, current_refs}
use coldsnap.Layout.Replay.{
  Saved, Groups, Placed, ReplayMap, ambiguous_fingerprints, is_nil, by_fingerprint, place_all,
  targets, unmatched, replay_from, extras_from, total_bytes, exceeds, refs_of, replay_map,
  semantic_replay_map,
}
use coldsnap.Layout.Groups.{AreSound, by_fingerprint-AreSound, by_fingerprint-Distinct}
use coldsnap.Layout.Placement.{HasFingerprint, AreLinked, place_all-AreLinked, targets-Distinct}
use coldsnap.Layout.Replayed.{
  IsPlaced, AreFrom, targets_of, entries_of, replay_from-AreFrom, AreFrom-entries, AreFrom-Distinct,
  AreFrom-targets, AreFrom-IsPlaced,
}
use coldsnap.Layout.References.{references, current_refs-get, unmatched-nil, member-extras_from}

-- An entry at an allocation of its size, to which the fresh tensors make the references that were saved
pub record IsRestored (current : List (ℕ × ℕ)) (tensors : List Tensor) (p : Placed) : Type 0 where
  pub located :
      (size : ℕ) × (get_elem? current p.target ≡ some (p.base, size)) × (p.entry.size ≡ pos size)
  pub matched : Perm p.entry.refs (references current p.target tensors)

pub record IsReplay (saved : List Saved) (current : List (ℕ × ℕ)) (tensors : List Tensor)
    (r : ReplayMap) : Type 0 where
  pub entries : entries_of r.replay ≡ saved
  pub restored : All (IsRestored current tensors) r.replay
  pub distinct : Distinct (targets_of r.replay)
  pub covered :
      (n : ℕ)
      → (not (ltb n (length current))
          || is_nil (references current n tensors)
          || member n (targets_of r.replay))
        ≡ true
  pub others :
      (n : ℕ) → member n r.extras ≡ (ltb n (length current) && not (member n (targets_of r.replay)))
  pub few : length r.extras ≤ 16
  pub small : total_bytes current r.extras ≤ 1073741824

groups-AreSound :
    (lists : List (List Ref)) → AreSound (HasFingerprint lists) (by_fingerprint 0 lists [])
groups-AreSound lists =
    by_fingerprint-AreSound (HasFingerprint lists) 0 lists []
      (λ n refs h. (refs, subst (λ k. get_elem? lists k ≡ some refs) (omega arith) h, refl)) tt

-- What the steps of a call that returns have found
record HasRun (saved : List Saved) (current : List (ℕ × ℕ)) (fresh : List (List Ref))
    (r : ReplayMap) : Type 0 where
  mapping : List (ℕ × ℕ)
  linked : AreLinked saved current fresh (by_fingerprint 0 (refs_of saved) []) mapping
  matched : is_nil (unmatched 0 fresh (targets mapping)) ≡ true
  listed : AreFrom current mapping 0 saved r.replay
  rest : r.extras ≡ extras_from 0 current (targets mapping)
  bounded : exceeds current r.extras ≡ false

unnegated : (b : Bool) → not b ≡ false → b ≡ true
unnegated true h = refl
unnegated false h = cc

replay_map-HasRun :
    (saved : List Saved) (current : List (ℕ × ℕ)) (fresh : List (List Ref)) (r : ReplayMap)
    → replay_map saved current fresh ≡ ok r
    → HasRun saved current fresh r
unfolding replay_map
replay_map-HasRun saved current fresh r h =
    let (clear, h1) = raise_if-eq-ok _ ambiguous_fingerprints _ h in
    let (m, placed, h2) =
      >>=-eq-ok
        (place_all saved current (by_fingerprint 0 fresh []) (by_fingerprint 0 (refs_of saved) []))
        _ h1 in
    let (none_left, h3) = raise_if-eq-ok (not (is_nil (unmatched 0 fresh (targets m)))) _ _ h2 in
    let (ps, listed, h4) = >>=-eq-ok (replay_from 0 saved current m) _ h3 in
    let (bounded, h5) =
      raise_if-eq-ok (exceeds current (extras_from 0 current (targets m))) _ _ h4 in
    subst (HasRun saved current fresh) (ok_injective h5) (record {
      mapping = m;
      linked =
          place_all-AreLinked saved current fresh (by_fingerprint 0 fresh [])
            (by_fingerprint 0 (refs_of saved) []) m (groups-AreSound fresh)
            (groups-AreSound (refs_of saved)) placed;
      matched = unnegated _ none_left;
      listed = replay_from-AreFrom current m 0 saved ps listed;
      rest = refl;
      bounded = bounded;
    })

get_elem?-ltb :
    {A : Type 0} (xs : List A) (n : ℕ) {x : A} → get_elem? xs n ≡ some x → ltb n (length xs) ≡ true
get_elem?-ltb [] n h = cc
get_elem?-ltb (y ∷ xs) zero h = ground arith
get_elem?-ltb (y ∷ xs) (suc n) h = let r = get_elem?-ltb xs n h in ground (arith, r)

module _ (saved : List Saved) (current : List (ℕ × ℕ)) (tensors : List Tensor) (r : ReplayMap) where
  IsPlaced-IsRestored :
      (p : Placed)
      → IsPlaced current (current_refs current tensors) p
      → IsRestored current tensors p
  IsPlaced-IsRestored p h =
      let (size, found, equal) = h.located in
      let (refs, at, same) = h.matched in
      let q : some refs ≡ some (references current p.target tensors) =
        sym at ∙ current_refs-get current p.target tensors (get_elem?-ltb current p.target found) in
      let e : refs ≡ references current p.target tensors = cc in
      record { located = h.located; matched = subst (Perm p.entry.refs) e same }

  HasRun-IsReplay :
      HasRun saved current (current_refs current tensors) r → IsReplay saved current tensors r
  HasRun-IsReplay run = record {
    entries = AreFrom-entries current run.mapping 0 saved r.replay run.listed;
    restored = All-map IsPlaced-IsRestored r.replay (
        AreFrom-IsPlaced saved current fresh run.mapping groups 0 saved r.replay run.linked
          (λ n e h. subst (λ k. get_elem? saved k ≡ some e) (omega arith) h) run.listed);
    distinct =
        AreFrom-Distinct current run.mapping 0 saved r.replay
          (targets-Distinct saved current fresh groups run.mapping run.linked known) run.listed;
    covered = covers;
    others = extras;
    few = ground (arith, run.bounded);
    small = ground (arith, run.bounded);
  }
    where
      fresh : List (List Ref)
      fresh = current_refs current tensors

      groups : Groups
      groups = by_fingerprint 0 (refs_of saved) []

      known : Distinct (keys_of groups)
      known = by_fingerprint-Distinct 0 (refs_of saved) [] tt

      goes : (n : ℕ) → member n (targets_of r.replay) ≡ member n (targets run.mapping)
      goes n =
          AreFrom-targets current run.mapping saved r.replay fresh groups n run.linked known
            run.listed

      extras :
          (n : ℕ)
          → member n r.extras ≡ (ltb n (length current) && not (member n (targets_of r.replay)))
      extras n =
          ap (member n) run.rest
          ∙ member-extras_from 0 n current (targets run.mapping)
          ∙ ground (arith, goes n)

      covers :
          (n : ℕ)
          → (not (ltb n (length current))
              || is_nil (references current n tensors)
              || member n (targets_of r.replay))
            ≡ true
      covers n = elim (Bool-cases (ltb n (length current))) [
        | inl inside ↦
            let e =
              unmatched-nil 0 fresh (targets run.mapping) n _ run.matched
                (current_refs-get current n tensors inside) in
            let k : member (n + 0) (targets run.mapping) ≡ member n (targets run.mapping) =
              ap (λ j. member j (targets run.mapping)) (omega arith) in
            ground (arith, e, k, goes n)
        | inr outside ↦ ground (arith, outside)
      ]

-- A replay map that is returned lists all saved entries in their order, each at a fresh allocation of its size
-- to which the fresh tensors make the same references up to order; no allocation is the target of two entries;
-- every fresh allocation that is referred to is a target; the extras are the fresh allocations that are no
-- target, at most 16 and of at most 1 GiB in all.
pub semantic_replay_map-IsReplay :
    (saved : List Saved) (current : List (ℕ × ℕ)) (tensors : List Tensor) (r : ReplayMap)
    → semantic_replay_map saved current tensors ≡ ok r
    → IsReplay saved current tensors r
unfolding semantic_replay_map
semantic_replay_map-IsReplay saved current tensors r h =
    HasRun-IsReplay saved current tensors r
      (replay_map-HasRun saved current (current_refs current tensors) r h)
