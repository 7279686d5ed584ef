-- ===== src/Layout/Replay.antt =====
-- coldsnap_layout.py: `semantic_replay_map`. A saved entry is one whose references and size have their types.
use coldsnap.Base.{
  ℕ, suc, ◌+◌, Bool, true, false, ◌&&◌, ◌||◌, not, Option, none, some, List, [], ◌∷◌, ◌++◌, length,
  any, member, Result, ok, raised, ◌>>=◌, ◌>>◌, raise_if, if◌then◌else◌, ltb, eqb, ℤ, pos, eqb_ℤ,
  Fields, ◌==◌, nat_eq, list_eq, pair_eq, string_eq, int_eq,
}
use coldsnap.Layout.Allocations.{
  Tensor, Ref, Key, get_elem?, size_at, current_refs, reference_fingerprint,
}

pub record Saved : Type 0 where
  pub refs : List Ref
  pub size : ℤ
  pub others : Fields

pub data ReplayError : Type 0 where
  ambiguous_fingerprints index_error : ReplayError
  cannot_place size_mismatch key_error : ℕ → ReplayError
  unmatched_references : List ℕ → ReplayError
  extras_exceed_bound : ℕ → ℕ → ReplayError

abbrev pub is_nil {ℓ} : {A : Type ℓ} → List A → Bool
is_nil [] = true
is_nil (x ∷ xs) = false

-- Indices by fingerprint, in the order in which the fingerprints come.
abbrev pub Groups : Type 0
Groups = List (List Key × List ℕ)

-- `setdefault(fingerprint, []).append(index)`
unfoldable pub record_index : List Key → ℕ → Groups → Groups
record_index k i [] = (k, i ∷ []) ∷ []
record_index k i ((j, indices) ∷ groups) =
    if k == j then (j, indices ++ i ∷ []) ∷ groups else (j, indices) ∷ record_index k i groups

unfoldable pub by_fingerprint : ℕ → List (List Ref) → Groups → Groups
unfolding reference_fingerprint record_index
by_fingerprint i [] groups = groups
by_fingerprint i (refs ∷ rest) groups = by_fingerprint (suc i) rest (
    if is_nil (reference_fingerprint refs)
    then groups
    else record_index (reference_fingerprint refs) i groups)

-- `groups.get(fingerprint, [])`
unfoldable pub indices_of : List Key → Groups → List ℕ
indices_of k [] = []
indices_of k ((j, indices) ∷ groups) =
    let rest = indices_of k groups in if k == j then indices else rest

abbrev pub is_ambiguous : Groups → Bool
is_ambiguous groups = any (λ (p : List Key × List ℕ). not (eqb (length p.1) 1)) groups

abbrev pub element {ℓ} : {A : Type ℓ} → ReplayError → Option A → Result ReplayError A
element e (some x) = ok x
element e _ = raised e

module _ (saved : List Saved) (current : List (ℕ × ℕ)) where
  -- One round of the placement, from the indices of the source and those of the fresh model
  unfoldable pub place_one : List ℕ → List ℕ → Result ReplayError (ℕ × ℕ)
  place_one (s ∷ ss) (c ∷ []) = do
    entry ← element index_error (get_elem? saved s)
    raise_if (not (eqb_ℤ entry.size (pos (size_at c current)))) (size_mismatch s)
    ok (s, c)
  place_one (s ∷ ss) _ = raised (cannot_place s)
  place_one _ _ = raised index_error

  unfoldable pub place_all : Groups → Groups → Result ReplayError (List (ℕ × ℕ))
  unfolding place_one indices_of
  place_all fresh [] = ok []
  place_all fresh ((fingerprint, sources) ∷ groups) = do
    pair ← place_one sources (indices_of fingerprint fresh)
    rest ← place_all fresh groups
    ok (pair ∷ rest)

abbrev pub later_or : Option ℕ → Option ℕ → Option ℕ
later_or (some c) here = some c
later_or none here = here

-- `mapping[index]`, where a later assignment counts
unfoldable pub mapped : ℕ → List (ℕ × ℕ) → Option ℕ
mapped i [] = none
mapped i ((s, c) ∷ mapping) = later_or (mapped i mapping) (if eqb i s then some c else none)

abbrev pub targets : List (ℕ × ℕ) → List ℕ
targets [] = []
targets ((s, c) ∷ mapping) = c ∷ targets mapping

unfoldable pub unmatched : ℕ → List (List Ref) → List ℕ → List ℕ
unmatched i [] used = []
unmatched i (refs ∷ rest) used =
    let later = unmatched (suc i) rest used in
    if not (is_nil refs) && not (member i used) then i ∷ later else later

pub record Placed : Type 0 where
  pub target : ℕ
  pub base : ℕ
  pub entry : Saved

unfoldable pub replay_from :
    ℕ → List Saved → List (ℕ × ℕ) → List (ℕ × ℕ) → Result ReplayError (List Placed)
unfolding mapped
replay_from i [] current mapping = ok []
replay_from i (entry ∷ saved) current mapping = do
  target ← element (key_error i) (mapped i mapping)
  allocation ← element index_error (get_elem? current target)
  rest ← replay_from (suc i) saved current mapping
  ok (record { target = target; base = allocation.0; entry = entry } ∷ rest)

unfoldable pub extras_from : ℕ → List (ℕ × ℕ) → List ℕ → List ℕ
extras_from i [] used = []
extras_from i (a ∷ current) used =
    let rest = extras_from (suc i) current used in if member i used then rest else i ∷ rest

unfoldable pub total_bytes : List (ℕ × ℕ) → List ℕ → ℕ
total_bytes current [] = 0
total_bytes current (i ∷ is) = size_at i current + total_bytes current is

abbrev pub exceeds : List (ℕ × ℕ) → List ℕ → Bool
exceeds current extras = ltb 16 (length extras) || ltb 1073741824 (total_bytes current extras)

pub record ReplayMap : Type 0 where
  pub replay : List Placed
  pub extras : List ℕ
  pub semantic_matches : ℕ

abbrev pub refs_of : List Saved → List (List Ref)
refs_of [] = []
refs_of (entry ∷ saved) = entry.refs ∷ refs_of saved

-- From the references to the fresh allocations on
unfoldable pub replay_map :
    List Saved → List (ℕ × ℕ) → List (List Ref) → Result ReplayError ReplayMap
unfolding by_fingerprint place_all unmatched replay_from extras_from total_bytes
replay_map saved current fresh =
    let source_groups = by_fingerprint 0 (refs_of saved) [] in
    let fresh_groups = by_fingerprint 0 fresh [] in
    do
      raise_if (is_ambiguous source_groups || is_ambiguous fresh_groups) ambiguous_fingerprints
      mapping ← place_all saved current fresh_groups source_groups
      raise_if (not (is_nil (unmatched 0 fresh (targets mapping))))
          (unmatched_references (unmatched 0 fresh (targets mapping)))
      replay ← replay_from 0 saved current mapping
      raise_if (exceeds current (extras_from 0 current (targets mapping))) (
          extras_exceed_bound (length (extras_from 0 current (targets mapping)))
            (total_bytes current (extras_from 0 current (targets mapping))))
      ok (record {
        replay = replay;
        extras = extras_from 0 current (targets mapping);
        semantic_matches = length mapping;
      })

unfoldable pub semantic_replay_map :
    List Saved → List (ℕ × ℕ) → List Tensor → Result ReplayError ReplayMap
unfolding replay_map current_refs
semantic_replay_map saved current tensors = replay_map saved current (current_refs current tensors)
