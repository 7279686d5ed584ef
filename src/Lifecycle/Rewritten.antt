-- ===== src/Lifecycle/Rewritten.antt =====
-- What `synchronize_evidence` has written when it returns.
use coldsnap.Base.{
  String, Bool, true, false, ◌&&◌, ◌||◌, not, List, [], ◌∷◌, ◌++◌, map, Perm, member, same_set-Perm,
  All, Distinct, ◌≡◌, refl, arith, ok, raise_if, raise_if-ok, ok_injective, ◌==◌, ==_eq, string_eq,
  string_ord, sorted, Json, Fields, null, bool, int, float, str, arr, obj, sym, ap, ◌∙◌, subst,
}
use mathlib.Core.List.{append-nil, perm_middle}
use mathlib.Core.List.Perm
use coldsnap.Coordinator.Actions.{lift}
use coldsnap.Coordinator.Wire.{Bytes}
use coldsnap.Lifecycle.Machine.{
  worker_set_mismatch, worker_identity_mismatch, invalid_capture_identity, Machine, get_field,
}
use coldsnap.Lifecycle.Sightings.{Returns, resume-Returns}
use coldsnap.Lifecycle.Inventory.{expected_workers_iff}
use coldsnap.Lifecycle.Readings.{IsEvidence, read_evidence-IsEvidence}
use coldsnap.Lifecycle.Updating.{IsUpdated}
use coldsnap.Lifecycle.Publishing.{IsLine, IsPublished, line_of-IsLine, publish-IsPublished}
use coldsnap.Lifecycle.Evidence.{is_known, read_evidence, expected_workers}
use coldsnap.Lifecycle.Synchronize.{
  publish, is_free, is_optional_text, fields_of, line_of, synchronize_one, synchronize_from,
  synchronize_evidence,
}

fields_of-eq : (v : Json) (fs : Fields) → fields_of v ≡ ok fs → v ≡ obj fs
fields_of-eq v fs h = ground (arith, h)

is_free-eq :
    (seen : List String) (stem : String) (v : Json)
    → is_free seen stem v ≡ ok true
    → (v ≡ str stem) × (member stem seen ≡ false)
is_free-eq seen stem (str s) h =
    let e : (not (member s seen) && stem == s) ≡ true = ok_injective h in
    let same : stem ≡ s = ==_eq stem s (ground arith) in
    (ap str (sym same), ap (λ x. member x seen) same ∙ ground arith)
is_free-eq seen stem (obj fs) h = cc
is_free-eq seen stem (arr vs) h = cc
is_free-eq seen stem (bool b) h = cc
is_free-eq seen stem (int n) h = cc
is_free-eq seen stem (float x) h = cc
is_free-eq seen stem null h = cc

module _ {W D : Type 0} (sys : Machine W D) (expected : List String) (state capture : String) where
  -- The file was seen to be evidence with fields, and was replaced by the line of them with the state, the capture,
  -- the time and the operation set.
  pub record IsRewritten (path : String) : Type 0 where
    pub before : W
    pub after : W
    pub earlier : Fields
    pub fields : Fields
    pub line : Bytes
    pub read : IsEvidence sys path (obj earlier)
    pub updated : IsUpdated state capture (sys.time before) earlier fields
    pub printed : IsLine sys fields line
    pub published : IsPublished sys (sys.temporary path) path line before after

  synchronize_one-IsRewritten :
      (seen : List String) (path : String) (w : W) (worker : String) (v : W)
      → Returns (synchronize_one sys expected state capture seen path w) worker v
      → (worker ≡ sys.stem path) × (member (sys.stem path) seen ≡ false) × IsRewritten path
  unfolding synchronize_one
  synchronize_one-IsRewritten seen path w worker v h =
      let (value, p, h1) = resume-Returns (read_evidence sys path w) _ worker v h in
      let (found, q, h2) = resume-Returns (lift (get_field "worker_id" value) _) _ worker v h1 in
      let (known, r, h3) = resume-Returns (lift (is_known expected found) _) _ worker v h2 in
      let (free, s, h4) =
        resume-Returns (lift (is_free seen (sys.stem path) found) _) _ worker v h3 in
      let (t0, t, h5) =
        resume-Returns (lift (raise_if (not known || not free) worker_identity_mismatch) _) _ worker
          v h4 in
      let (previous, k, h6) =
        resume-Returns (lift (get_field "capture_id" value) _) _ worker v h5 in
      let (l0, l, h7) =
        resume-Returns
          (lift (raise_if (not (is_optional_text previous)) invalid_capture_identity) _) _ worker v
          h6 in
      let (fields, m, h8) = resume-Returns (lift (fields_of value) _) _ worker v h7 in
      let (line, n, h9) =
        resume-Returns (lift (line_of sys state capture _ fields) _) _ worker v h8 in
      let (o0, o, h10) =
        resume-Returns (publish sys (sys.temporary path) path line _) _ worker v h9 in
      let both = both_of known free (raise_if-ok _ worker_identity_mismatch t.0) in
      let (is, new) = is_free-eq seen (sys.stem path) found (s.0 ∙ ap ok both) in
      let e : value ≡ obj fields = fields_of-eq value fields m.0 in
      let (later, is_updated, is_line) = line_of-IsLine sys state capture _ fields line n.0 in
      (
        sym (ok_injective h10.0),
        new,
        record {
          before = _;
          after = _;
          earlier = fields;
          fields = later;
          line = line;
          read = subst (IsEvidence sys path) e (read_evidence-IsEvidence sys path w value _ p);
          updated = is_updated;
          printed = is_line;
          published = publish-IsPublished sys (sys.temporary path) path line _ _ o;
        },
      )
    where
      both_of : (a b : Bool) → (not a || not b) ≡ false → b ≡ true
      both_of true true h = refl
      both_of true false h = cc
      both_of false b h = cc

  synchronize_from-AreRewritten :
      (seen paths : List String) (w : W) (out : List String) (v : W)
      → Distinct seen
      → Returns (synchronize_from sys expected state capture seen paths w) out v
      → All IsRewritten paths × Distinct out × Perm out (map sys.stem paths ++ seen)
  unfolding synchronize_from
  synchronize_from-AreRewritten seen [] w out v d h =
      let e : seen ≡ out = ok_injective h.0 in
      (tt, subst Distinct e d, subst (λ xs. Perm xs seen) e Perm.rfl)
  synchronize_from-AreRewritten seen (path ∷ paths) w out v d h =
      let (worker, p, h1) =
        resume-Returns (synchronize_one sys expected state capture seen path w) _ out v h in
      let (is, new, rewritten) = synchronize_one-IsRewritten seen path w worker _ p in
      let (others, distinct, perm) =
        synchronize_from-AreRewritten (worker ∷ seen) paths _ out v
          (subst (λ x. Distinct (x ∷ seen)) (sym is) (new, d)) h1 in
      (
        (rewritten, others),
        distinct,
        Perm.trans perm (
            subst
              (λ x.
                Perm (map sys.stem paths ++ x ∷ seen)
                  (sys.stem path ∷ (map sys.stem paths ++ seen)))
              (sym is) (perm_middle (map sys.stem paths) seen)),
      )

module _ {W D : Type 0} (sys : Machine W D) (state capture workers : String) (w : W) where
  -- The names of the files are the workers of the inventory, and all of the files were rewritten.
  pub record IsSynchronized : Type 0 where
    pub expected : List String
    pub inventory : expected_workers sys.loads workers ≡ ok expected
    pub named : Perm (map sys.stem (sorted (sys.glob "hibernate-states" "*.json" w))) expected
    pub rewritten :
        All
          (IsRewritten sys expected state capture)
          (sorted (sys.glob "hibernate-states" "*.json" w))

  -- A synchronization that returns has replaced each file of evidence, by moving a temporary file that was written
  -- and forced to the disk to its place, by what it held with the state, the capture, the time and the operation
  -- set, and the files are one for each worker of the inventory, with its name.
  pub synchronize_evidence-IsSynchronized :
      (v : W) → Returns (synchronize_evidence sys state capture workers w) tt v → IsSynchronized
  unfolding synchronize_evidence
  synchronize_evidence-IsSynchronized v h =
      let (expected, p, h1) =
        resume-Returns (lift (expected_workers sys.loads workers) w) _ tt v h in
      let (out, q, h2) =
        resume-Returns (synchronize_from sys expected state capture [] _ w) _ tt v h1 in
      let (all_rewritten, distinct, perm) =
        synchronize_from-AreRewritten sys expected state capture [] _ w out _ tt q in
      let known = ((expected_workers_iff sys.loads workers expected).0 p.0).3 in
      record {
        expected = expected;
        inventory = p.0;
        named =
            Perm.trans
              (Perm.symm (
                subst (Perm out)
                  (append-nil (map sys.stem (sorted (sys.glob "hibernate-states" "*.json" w))))
                  perm))
              (same_set-Perm out expected distinct known
                (unnegated _ (raise_if-ok _ worker_set_mismatch h2.0)));
        rewritten = all_rewritten;
      }
    where
      unnegated : (b : Bool) → not b ≡ false → b ≡ true
      unnegated true h = refl
      unnegated false h = cc
