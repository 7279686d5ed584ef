-- ===== src/Validation/Admissions.antt =====
-- validation.py: `_normalize_external_admission`. Python's conversions of JSON values are parameters.
use coldsnap.Base.{
  String, Bool, not, Option, some, Result, ok, raised, raise_if, ◌>>=◌, ◌>>◌, eqb_ℤ, ℤ, pos, Float,
  Json, Fields, obj,
}
use coldsnap.Validation.Stats.{
  ValidationError, invalid_external_admission, ContentIdentity, DiagnosticIdentity,
}
use coldsnap.Validation.Records.{last_of, equals_int, equals_str}
use coldsnap.Validation.Payloads.{Admission}

-- `==` of a float and an integer, `int(value)`, `float(value)` and `str(value)`; an error is a `TypeError` or
-- a `ValueError`, which the code turns into its own, or an `OverflowError`, which it does not.
pub record Conversions : Type 0 where
  pub float_is : Float → ℤ → Bool
  pub to_int : Json → Result ValidationError ℤ
  pub to_float : Json → Result ValidationError Float
  pub to_str : Json → String

abbrev pub as_dict : Json → Result ValidationError Fields
as_dict (obj fs) = ok fs
as_dict _ = raised invalid_external_admission

abbrev pub required : Option Json → Result ValidationError Json
required (some v) = ok v
required _ = raised invalid_external_admission

-- `value[key]`
unfoldable pub item : String → Json → Result ValidationError Json
unfolding last_of
item key value = do fs ← as_dict value; required (last_of key fs)

module _ (c : Conversions) where
  unfoldable pub int_item : String → Json → Result ValidationError ℤ
  unfolding item
  int_item key value = do v ← item key value; c.to_int v

  -- `if value[key] != expected: raise`
  unfoldable pub require_str : String → String → Json → Result ValidationError (Unit {0})
  unfolding item
  require_str key expected value = do
    v ← item key value
    raise_if (not (equals_str expected v)) invalid_external_admission

  unfoldable pub require_int : String → ℤ → Json → Result ValidationError (Unit {0})
  unfolding item
  require_int key expected value = do
    v ← item key value
    raise_if (not (equals_int c.float_is expected v)) invalid_external_admission

  -- The admission names this request.
  unfoldable pub require_identity :
      String → String → String → ℤ → Json → Json → Result ValidationError (Unit {0})
  unfolding require_str require_int
  require_identity blob marker expected bytes admission validation = do
    require_int "format" (pos 1) admission
    require_str "kind" "coldsnap-payload-validation-result" admission
    require_str "decision" "accept" admission
    require_str "path" blob admission
    require_int "bytes" bytes admission
    require_str "sha256" expected admission
    require_str "record" marker validation
    require_str "provider" "sha256-cache-v1" validation

  unfoldable pub content_of : Json → Result ValidationError ContentIdentity
  unfolding int_item
  content_of validation = do
    device ← int_item "device" validation
    inode ← int_item "inode" validation
    size ← int_item "size" validation
    mtime_ns ← int_item "mtime_ns" validation
    ok (record { device = device; inode = inode; size = size; mtime_ns = mtime_ns })

  unfoldable pub diagnostics_of : Json → Result ValidationError DiagnosticIdentity
  unfolding int_item
  diagnostics_of validation = do
    ctime_ns ← int_item "ctime_ns" validation
    uid ← int_item "uid" validation
    gid ← int_item "gid" validation
    mode ← int_item "mode" validation
    ok (record { ctime_ns = ctime_ns; uid = uid; gid = gid; mode = mode })

  -- The result, from the entries that are not compared
  unfoldable pub details_of :
      String → Json → ContentIdentity → DiagnosticIdentity → Result ValidationError Admission
  unfolding int_item
  details_of marker validation content diagnostics = do
    reason ← item "reason" validation
    evidence ← item "content_evidence" validation
    hashed ← int_item "bytes_hashed" validation
    taken ← item "seconds" validation
    seconds ← c.to_float taken
    ok (record {
      reason = c.to_str reason;
      content_evidence = c.to_str evidence;
      bytes_hashed = hashed;
      seconds = seconds;
      marker = marker;
      content = content;
      diagnostics = diagnostics;
    })

  unfoldable pub normalize_external_admission :
      String → String → String → ℤ → Json → Result ValidationError Admission
  unfolding require_identity content_of diagnostics_of details_of
  normalize_external_admission blob marker expected bytes admission = do
    validation ← item "validation" admission
    require_identity blob marker expected bytes admission validation
    content ← content_of validation
    diagnostics ← diagnostics_of validation
    raise_if (not (eqb_ℤ content.size bytes)) invalid_external_admission
    details_of marker validation content diagnostics
