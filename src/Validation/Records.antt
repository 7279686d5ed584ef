-- ===== src/Validation/Records.antt =====
-- validation.py: the record beside a payload, how it is compared, and `publish_validation_record`.
use coldsnap.Base.{
  String, Bool, true, false, ◌&&◌, ◌||◌, not, Option, none, some, List, [], ◌∷◌, Result, ok, raised,
  raise_if, if◌then◌else◌, eqb_ℤ, ◌==◌, string_eq, append, ℤ, pos, Float, Json, Fields, obj, int,
  float, bool, str, end, field,
}
use coldsnap.Coordinator.Actions.{Action, ◌>>=◌, ◌>>◌, lift}
use coldsnap.Validation.Stats.{
  ValidationError, size_mismatch, Stat, ContentIdentity, DiagnosticIdentity, content_identity,
  diagnostic_identity, System, closing, open_regular_file, normalize_sha256,
}

-- `fields.get(key)`; of a repeated key the last value counts
unfoldable pub last_of : String → Fields → Option Json
last_of key end = none
last_of key (field k v rest) = or_later (last_of key rest) (if k == key then some v else none)
  where
    or_later : Option Json → Option Json → Option Json
    or_later (some v) here = some v
    or_later none here = here

-- `value == n`: a Boolean is an integer too, and a float may equal one.
abbrev pub equals_int : (Float → ℤ → Bool) → ℤ → Json → Bool
equals_int float_is n (int m) = eqb_ℤ m n
equals_int float_is n (bool true) = eqb_ℤ (pos 1) n
equals_int float_is n (bool false) = eqb_ℤ (pos 0) n
equals_int float_is n (float x) = float_is x n
equals_int float_is n _ = false

abbrev pub equals_str : String → Json → Bool
equals_str s (str t) = t == s
equals_str s _ = false

abbrev pub holds : (Json → Bool) → Option Json → Bool
holds test (some v) = test v
holds test _ = false

unfoldable pub only_keys : List String → Fields → Bool
only_keys keys end = true
only_keys keys (field k v rest) = known keys k && only_keys keys rest
  where
    known : List String → String → Bool
    known [] k = false
    known (key ∷ keys) k = k == key || known keys k

-- `value == {key: ..., ...}` for a dictionary whose values pass the tests
unfoldable pub is_dict_of : List String → (Fields → Bool) → Json → Bool
unfolding only_keys
is_dict_of keys test (obj fs) = only_keys keys fs && test fs
is_dict_of keys test _ = false

unfoldable pub expected_test : (Float → ℤ → Bool) → String → ℤ → Fields → Bool
unfolding last_of
expected_test float_is digest bytes fs =
    holds (equals_int float_is bytes) (last_of "bytes" fs)
    && holds (equals_str digest) (last_of "sha256" fs)

unfoldable pub identity_test : (Float → ℤ → Bool) → ContentIdentity → Fields → Bool
unfolding last_of
identity_test float_is id fs =
    holds (equals_int float_is id.device) (last_of "device" fs)
    && holds (equals_int float_is id.inode) (last_of "inode" fs)
    && holds (equals_int float_is id.size) (last_of "size" fs)
    && holds (equals_int float_is id.mtime_ns) (last_of "mtime_ns" fs)

-- `_record_matches`, for the name of the payload
unfoldable pub record_matches :
    (Float → ℤ → Bool) → String → String → ℤ → ContentIdentity → Option Json → Bool
unfolding last_of is_dict_of expected_test identity_test
record_matches float_is name digest bytes id (some (obj fs)) =
    holds (equals_int float_is (pos 1)) (last_of "format" fs)
    && holds (equals_str "coldsnap-payload-validation") (last_of "kind" fs)
    && holds (equals_str "sha256-cache-v1") (last_of "provider" fs)
    && holds (equals_str name) (last_of "blob" fs)
    && holds (is_dict_of ("bytes" ∷ "sha256" ∷ []) (expected_test float_is digest bytes))
        (last_of "expected" fs)
    && holds
        (is_dict_of ("device" ∷ "inode" ∷ "size" ∷ "mtime_ns" ∷ []) (identity_test float_is id))
        (last_of "content_identity" fs)
record_matches float_is name digest bytes id _ = false

abbrev pub identity_json : ContentIdentity → Json
identity_json id = obj (
    field "device" (int id.device) (
      field "inode" (int id.inode)
        (field "size" (int id.size) (field "mtime_ns" (int id.mtime_ns) end))))

abbrev pub diagnostic_json : DiagnosticIdentity → Json
diagnostic_json id = obj (
    field "ctime_ns" (int id.ctime_ns)
      (field "uid" (int id.uid) (field "gid" (int id.gid) (field "mode" (int id.mode) end))))

abbrev pub expected_json : ℤ → String → Json
expected_json bytes digest = obj (field "bytes" (int bytes) (field "sha256" (str digest) end))

unfoldable pub record_of : String → String → ℤ → Stat → String → ℤ → Json
record_of name digest bytes st evidence now = obj (
    field "format" (int (pos 1)) (
      field "kind" (str "coldsnap-payload-validation") (
        field "provider" (str "sha256-cache-v1") (
          field "blob" (str name) (
            field "expected" (expected_json bytes digest) (
              field "content_identity" (identity_json (content_identity st)) (
                field "diagnostic_identity" (diagnostic_json (diagnostic_identity st)) (
                  field "content_evidence" (str evidence)
                    (field "validated_unix_ns" (int now) end)))))))))

module _ {W D : Type 0} (sys : System W D) where
  abbrev pub unlink_unless :
      String → Result ValidationError (Unit {0}) × W → Result ValidationError (Unit {0}) × W
  unlink_unless path (ok u, w) = (ok u, w)
  unlink_unless path (raised e, w) = (raised e, sys.unlink path w)

  abbrev pub written : D → String → Action W ValidationError (Unit {0})
  written d text w = closing sys d ((sys.write d text >> sys.fsync d) w)

  abbrev pub synced : D → Action W ValidationError (Unit {0})
  synced d w = closing sys d (sys.fsync d w)

  -- `_write_json_atomic`: a temporary file beside `path` replaces it once it is on disk.
  unfoldable pub write_json_atomic : String → Json → Action W ValidationError (Unit {0})
  unfolding append
  write_json_atomic path value = do
    sys.make_parent path
    d ← sys.create (sys.temporary path)
    λ w. unlink_unless (sys.temporary path) (
        (written d (append (sys.dump value) "\n")
            >> (sys.replace (sys.temporary path) path >> (sys.open_directory path >>= synced)))
          w)

  unfoldable pub publish_validation_record :
      String → String → ℤ → String → String → Action W ValidationError Json
  unfolding normalize_sha256 open_regular_file record_of write_json_atomic
  publish_validation_record blob expected bytes marker evidence = do
    digest ← lift (normalize_sha256 expected)
    d ← open_regular_file sys blob
    st ← λ w. closing sys d (sys.fstat d w)
    lift (raise_if (not (eqb_ℤ st.st_size bytes)) (size_mismatch bytes st.st_size))
    made ← λ w. (ok (record_of (sys.name blob) digest bytes st evidence (sys.time_ns w)), w)
    write_json_atomic marker made
    lift (ok made)
