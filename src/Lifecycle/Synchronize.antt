-- ===== src/Lifecycle/Synchronize.antt =====
-- coldsnap_lifecycle.py: `synchronize_evidence` and `write_marker`.
use coldsnap.Base.{
  String, Bool, true, false, ◌&&◌, ◌||◌, not, List, [], ◌∷◌, length, member, same_set, Result, ok,
  raised, raise_if, if◌then◌else◌, ltb, eqb, ◌==◌, string_eq, string_ord, sorted, append, Json,
  Fields, Float, null, float, str, obj, end, field, is_dict,
}
use coldsnap.Coordinator.Actions.{Action, ◌>>=◌, ◌>>◌, lift}
use coldsnap.Coordinator.Wire.{Bytes}
use coldsnap.Lifecycle.Machine.{
  LifecycleError, worker_set_mismatch, worker_identity_mismatch, invalid_capture_identity,
  invalid_marker, marker_not_object, json_error, type_error, attribute_error, Machine, demand,
  and_then, get_field,
}
use coldsnap.Lifecycle.Evidence.{expected_workers, is_known, read_evidence}

abbrev pub is_free : List String → String → Json → Result LifecycleError Bool
is_free seen stem (str s) = ok (not (member s seen) && stem == s)
is_free seen stem _ = ok false

abbrev pub is_optional_text : Json → Bool
is_optional_text null = true
is_optional_text (str s) = true
is_optional_text _ = false

abbrev pub fields_of : Json → Result LifecycleError Fields
fields_of (obj fs) = ok fs
fields_of _ = raised attribute_error

abbrev pub without_key : String → Fields → Fields
without_key k end = end
without_key k (field j w rest) =
    let later = without_key k rest in if k == j then later else field j w later

-- A key keeps its place; of a repeated key one is left.
unfoldable pub set_field : String → Json → Fields → Fields
set_field k v end = field k v end
set_field k v (field j w rest) =
    let later = set_field k v rest in
    if k == j then field k v (without_key k rest) else field j w later

-- `value.update(...)`
unfoldable pub updated : String → String → Float → Fields → Fields
unfolding set_field
updated state capture now fs = set_field "operation" (str "restore") (
    set_field "updated_unix" (float now)
      (set_field "capture_id" (str capture) (set_field "state" (str state) fs)))

module _ {W D : Type 0} (sys : Machine W D) where
  -- `with os.fdopen(descriptor, "wb") as stream` around the writing, and the removal of the temporary file at
  -- the end
  abbrev pub closed :
      D → Result LifecycleError (Unit {0}) × W → Result LifecycleError (Unit {0}) × W
  closed d (result, w) = (result, sys.close d w)

  abbrev pub write_closed : D → Bytes → Action W LifecycleError (Unit {0})
  write_closed d bytes w = closed d ((sys.write d bytes >> sys.fsync d) w)

  abbrev pub cleaned :
      String → Result LifecycleError (Unit {0}) × W → Result LifecycleError (Unit {0}) × W
  cleaned temporary (result, w) = (result, sys.unlink temporary w)

  unfoldable pub publish : String → String → Bytes → Action W LifecycleError (Unit {0})
  publish temporary path bytes w = cleaned temporary (
      (do
        descriptor ← sys.create temporary
        write_closed descriptor bytes
        sys.replace temporary path)
        w)

  unfoldable pub line_of : String → String → Float → Fields → Result LifecycleError Bytes
  unfolding updated append
  line_of state capture now fs =
      and_then (demand type_error (sys.dumps_sorted (obj (updated state capture now fs))))
        λ text. ok (sys.encode (append text "\n"))

  module _ (expected : List String) (state capture : String) where
    -- One file rewritten; with the worker that it is of, which is also the stem of its name
    unfoldable pub synchronize_one : List String → String → Action W LifecycleError String
    unfolding read_evidence get_field publish line_of
    synchronize_one seen path = do
      value ← read_evidence sys path
      worker ← lift (get_field "worker_id" value)
      known ← lift (is_known expected worker)
      free ← lift (is_free seen (sys.stem path) worker)
      lift (raise_if (not known || not free) worker_identity_mismatch)
      previous ← lift (get_field "capture_id" value)
      lift (raise_if (not (is_optional_text previous)) invalid_capture_identity)
      fields ← lift (fields_of value)
      line ← λ w. lift (line_of state capture (sys.time w) fields) w
      publish (sys.temporary path) path line
      lift (ok (sys.stem path))

    unfoldable pub synchronize_from :
        List String → List String → Action W LifecycleError (List String)
    unfolding synchronize_one
    synchronize_from seen [] = lift (ok seen)
    synchronize_from seen (path ∷ paths) = do
      worker ← synchronize_one seen path
      synchronize_from (worker ∷ seen) paths

  unfoldable pub synchronize_evidence :
      String → String → String → Action W LifecycleError (Unit {0})
  unfolding expected_workers synchronize_from sorted
  synchronize_evidence state capture workers = do
    expected ← lift (expected_workers sys.loads workers)
    seen ← λ w.
        synchronize_from expected state capture [] (sorted (sys.glob "hibernate-states" "*.json" w))
          w
    lift (raise_if (not (same_set seen expected)) worker_set_mismatch)

  abbrev pub marker_of : Bytes → Result LifecycleError Json
  marker_of bytes =
      and_then (demand json_error (sys.loads_bytes bytes))
        λ value. if is_dict value then ok value else raised marker_not_object

  unfoldable pub write_marker : Action W LifecycleError (Unit {0})
  unfolding publish
  write_marker = do
    bytes ← sys.read_stdin 1048577
    lift (raise_if (eqb (length bytes) 0 || ltb 1048576 (length bytes)) invalid_marker)
    value ← lift (marker_of bytes)
    sys.make_runtime_root
    publish sys.marker_temporary "lifecycle.json" bytes
