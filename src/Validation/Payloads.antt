-- ===== src/Validation/Payloads.antt =====
-- validation.py: `_validate_payload_python`, the choice of a transport and `validate_payload`. The external
-- transports are parameters of the choice.
use coldsnap.Base.{
  pos, ℕ, String, Bool, false, ◌&&◌, not, Option, none, some, Result, ok, raised, raise_if,
  if◌then◌else◌, eqb_ℤ, ◌==◌, string_eq, is_empty, strip, ℤ, Float, Json,
}
use coldsnap.Coordinator.Actions.{Action, ◌>>=◌, ◌>>◌, lift}
use coldsnap.Validation.Stats.{
  ValidationError, size_mismatch, digest_mismatch, invalid_external_configuration, Stat,
  ContentIdentity, DiagnosticIdentity, content_identity, diagnostic_identity, is_regular,
  is_private, System, closing, open_regular_file, normalize_sha256,
}
use coldsnap.Validation.Hashing.{Hashed, hash_descriptor}
use coldsnap.Validation.Records.{record_matches, publish_validation_record}

-- The result, whose other entries are constants
pub record Admission : Type 0 where
  pub reason : String
  pub content_evidence : String
  pub bytes_hashed : ℤ
  pub seconds : Float
  pub marker : String
  pub content : ContentIdentity
  pub diagnostics : DiagnosticIdentity

-- What the inspection of the open payload comes to: the record serves, or the content was hashed.
pub data Inspection : Type 0 where
  cached : Stat → Inspection
  rehashed : Hashed → Inspection

module _ {W D : Type 0} (sys : System W D) where
  abbrev pub after_text : Bool → Result ValidationError String × W → (Bool × Option Json) × W
  after_text mode_ok (ok text, w) = ((mode_ok, sys.loads text), w)
  after_text mode_ok (raised e, w) = ((mode_ok, none), w)

  abbrev pub after_stat : String → Result ValidationError Stat × W → (Bool × Option Json) × W
  after_stat path (ok st, w) = after_text (is_regular st && is_private st) (sys.read_text path w)
  after_stat path (raised e, w) = ((false, none), w)

  -- Whether the marker is regular and private, and its record, if both can be found out
  unfoldable pub read_marker : String → W → (Bool × Option Json) × W
  read_marker path w = after_stat path (sys.lstat path w)

  unfoldable pub inspect_marked :
      ℕ
      → D
      → ℕ
      → Stat
      → String
      → String
      → ℤ
      → (Bool × Option Json) × W
      → Result ValidationError Inspection × W
  unfolding record_matches hash_descriptor
  inspect_marked rounds d chunk_bytes st blob digest bytes ((mode_ok, found), w) =
      if mode_ok
        && record_matches sys.float_is (sys.name blob) digest bytes (content_identity st) found
      then (ok (cached st), w)
      else (hash_descriptor sys rounds d chunk_bytes >>= λ h. lift (ok (rehashed h))) w

  unfoldable pub inspect :
      ℕ → D → ℕ → String → String → ℤ → String → Action W ValidationError Inspection
  unfolding read_marker inspect_marked
  inspect rounds d chunk_bytes blob digest bytes marker = do
    st ← sys.fstat d
    lift (raise_if (not (eqb_ℤ st.st_size bytes)) (size_mismatch bytes st.st_size))
    λ w. inspect_marked rounds d chunk_bytes st blob digest bytes (read_marker marker w)

  abbrev pub admitted :
      W
      → String
      → String
      → String
      → ℕ
      → ContentIdentity
      → DiagnosticIdentity
      → Action W ValidationError Admission
  admitted started marker reason evidence hashed content diagnostics w = (
    ok (record {
      reason = reason;
      content_evidence = evidence;
      bytes_hashed = pos hashed;
      seconds = sys.elapsed started w;
      marker = marker;
      content = content;
      diagnostics = diagnostics;
    }),
    w,
  )

  unfoldable pub conclude :
      W → String → String → ℤ → String → Inspection → Action W ValidationError Admission
  unfolding publish_validation_record
  conclude started blob digest bytes marker (cached st) =
      admitted started marker "cached_validation" "cached-full-sha256" 0 (content_identity st)
        (diagnostic_identity st)
  conclude started blob digest bytes marker (rehashed h) = do
    lift (raise_if (not (h.digest == digest)) (digest_mismatch digest h.digest))
    publish_validation_record sys blob digest bytes marker "full-sha256-this-operation"
    admitted started marker "revalidated_existing" "full-sha256-this-operation" h.hashed h.content
        h.diagnostics

  -- `_validate_payload_python`
  unfoldable pub validate_payload_python :
      ℕ → ℕ → String → String → ℤ → String → Action W ValidationError Admission
  unfolding normalize_sha256 open_regular_file inspect conclude
  validate_payload_python rounds chunk_bytes blob expected bytes marker started =
      (lift (normalize_sha256 expected) >>= λ digest. open_regular_file sys blob >>= λ d.
      (λ w. closing sys d (inspect rounds d chunk_bytes blob digest bytes marker w))
      >>= conclude started blob digest bytes marker)
        started

pub data Transport : Type 0 where
  python cli rpc : Transport

abbrev pub is_set : Option String → Bool
is_set (some s) = not (is_empty s)
is_set _ = false

-- The transport that the environment's three variables choose; `lower` is `str.lower`.
unfoldable pub validation_transport :
    (String → String)
    → Option String
    → Option String
    → Option String
    → Result ValidationError Transport
unfolding strip
validation_transport lower configured socket command = chosen (lower (strip (or_auto configured)))
  where
    or_auto : Option String → String
    or_auto (some s) = s
    or_auto none = "auto"

    chosen : String → Result ValidationError Transport
    chosen word =
        if word == "python"
        then ok python
        else if word == "cli"
        then ok cli
        else if word == "rpc"
        then ok rpc
        else if not (word == "auto")
        then raised invalid_external_configuration
        else if is_set socket
        then ok rpc
        else if is_set command
        then ok cli
        else ok python
