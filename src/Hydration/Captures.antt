-- ===== src/Hydration/Captures.antt =====
-- hydration.py: `capture`.
use coldsnap.Base.{
  ℕ, ◌*◌, ◌/◌, ◌+◌, ◌-◌, suc, String, Bool, ◌&&◌, not, Option, none, some, List, [], ◌∷◌, Result,
  ok, raised, ◌>>=◌, ◌>>◌, raise_if, if◌then◌else◌, eqb, ltb, ◌==◌, string_eq, Float,
}
use coldsnap.Hydration.Digests.{
  HydrationFailure, no_extents, invalid_chunk, invalid_depth, overlapping_extents, unaligned_offset,
  no_capture_abi, checksum_key, native_error, incompatible_abi, hex8, to_hex,
}
use coldsnap.Hydration.Extents.{CaptureExtent, u64}
use coldsnap.Hydration.Backends.{
  NativeLibrary, NativeOptions, NativeCaptureExtent, NativeCaptureDigest, NativeCaptureResult,
  CaptureOutcome, resolve_capture_backend, capture_id, is_aligned, known,
}
use coldsnap.Hydration.Transfers.{
  TransferTerms, is_nil, refuses_chunk, refuses_depth, options_of, is_zero,
}

pub record CaptureDigest : Type 0 where
  pub crc32 : Option String
  pub sha256 : Option String

pub record CaptureMetrics : Type 0 where
  pub backend : String
  pub bytes : ℕ
  pub file_bytes : ℕ
  pub chunks : ℕ
  pub checksummed_extents : ℕ
  pub initialization_s : Float
  pub io_service_s : Float
  pub io_wait_s : Float
  pub checksum_s : Float
  pub cuda_enqueue_s : Float
  pub cuda_synchronize_s : Float
  pub durability_s : Float
  pub verification_s : Float
  pub total_s : Float

pub record CaptureResult : Type 0 where
  pub metrics : CaptureMetrics
  pub digests : List CaptureDigest
  pub file_sha256 : Option String

-- The flags of a capture
pub record CaptureFlags : Type 0 where
  pub file_sha256 : Bool
  pub verify_readback : Bool
  pub pad_extents : Bool

unfoldable pub round_up : ℕ → ℕ
round_up n = (n + 4096 - 1) / 4096 * 4096

-- Where the next extent may start
unfoldable pub end_of : Bool → CaptureExtent → ℕ
unfolding round_up
end_of pad extent =
    if pad
    then round_up (extent.file_offset + extent.length)
    else extent.file_offset + extent.length

unfoldable pub check_order : Bool → ℕ → List CaptureExtent → Result HydrationFailure (Unit {0})
unfolding end_of is_aligned
check_order pad previous_end [] = ok tt
check_order pad previous_end (extent ∷ extents) = do
  raise_if (ltb extent.file_offset previous_end) overlapping_extents
  raise_if (pad && not (is_aligned extent.file_offset)) unaligned_offset
  check_order pad (end_of pad extent) extents

unfoldable pub checksum_id : String → Result HydrationFailure ℕ
checksum_id name =
    if name == "none"
    then ok 0
    else if name == "crc32"
    then ok 1
    else if name == "crc32+sha256"
    then ok 2
    else raised checksum_key

unfoldable pub native_capture_extents :
    List CaptureExtent → Result HydrationFailure (List NativeCaptureExtent)
unfolding checksum_id
native_capture_extents [] = ok []
native_capture_extents (extent ∷ extents) = do
  checksum ← checksum_id extent.checksum
  rest ← native_capture_extents extents
  ok (
      record {
        source = u64 extent.source;
        file_offset = u64 extent.file_offset;
        length = u64 extent.length;
        checksum = checksum;
        reserved = 0;
      }
      ∷ rest)

abbrev pub flags_of : CaptureFlags → ℕ
flags_of f =
    (if f.file_sha256 then 1 else 0)
    + (if f.verify_readback then 2 else 0)
    + (if f.pad_extents then 4 else 0)

-- `0` tells the library that direct I/O may fall back.
unfoldable pub request_id : String → String → Result HydrationFailure ℕ
unfolding capture_id
request_id requested backend =
    if requested == "auto" && backend == "direct" then ok 0 else known (capture_id backend)

abbrev pub capture_name : ℕ → Option String
capture_name id = if eqb id 1 then some "buffered" else if eqb id 2 then some "direct" else none

unfoldable pub digest_of : CaptureExtent → NativeCaptureDigest → CaptureDigest
unfolding hex8 to_hex
digest_of extent digest = record {
  crc32 = if not (extent.checksum == "none") then some (hex8 digest.crc32) else none;
  sha256 = if extent.checksum == "crc32+sha256" then some (to_hex digest.sha256) else none;
}

unfoldable pub digests_of : ℕ → List CaptureExtent → (ℕ → NativeCaptureDigest) → List CaptureDigest
unfolding digest_of
digests_of i [] digest_at = []
digests_of i (extent ∷ extents) digest_at =
    digest_of extent (digest_at i) ∷ digests_of (suc i) extents digest_at

module _ (l : NativeLibrary) where
  abbrev pub capture_metrics : String → NativeCaptureResult → CaptureMetrics
  capture_metrics backend result = record {
    backend = backend;
    bytes = result.bytes;
    file_bytes = result.file_bytes;
    chunks = result.chunks;
    checksummed_extents = result.checksummed_extents;
    initialization_s = l.seconds result.initialization_ns;
    io_service_s = l.seconds result.io_service_ns;
    io_wait_s = l.seconds result.io_wait_ns;
    checksum_s = l.seconds result.checksum_ns;
    cuda_enqueue_s = l.seconds result.cuda_enqueue_ns;
    cuda_synchronize_s = l.seconds result.cuda_synchronize_ns;
    durability_s = l.seconds result.durability_ns;
    verification_s = l.seconds result.verification_ns;
    total_s = l.seconds result.total_ns;
  }

  unfoldable pub capture_result :
      List CaptureExtent → CaptureFlags → CaptureOutcome → String → CaptureResult
  unfolding digests_of to_hex
  capture_result extents flags outcome backend = record {
    metrics = capture_metrics backend outcome.result;
    digests = digests_of 0 extents outcome.digest_at;
    file_sha256 = if flags.file_sha256 then some (to_hex outcome.result.file_sha256) else none;
  }

  unfoldable pub named_result :
      ℕ
      → List CaptureExtent
      → CaptureFlags
      → CaptureOutcome
      → Option String
      → Result HydrationFailure CaptureResult
  unfolding capture_result
  named_result id extents flags outcome none = raised incompatible_abi
  named_result id extents flags outcome (some name) =
      raise_if (not (eqb id 0) && not (eqb outcome.result.backend id)) incompatible_abi
      >> ok (capture_result extents flags outcome name)

  unfoldable pub accept_capture :
      ℕ → List CaptureExtent → CaptureFlags → CaptureOutcome → Result HydrationFailure CaptureResult
  unfolding named_result
  accept_capture id extents flags outcome = do
    raise_if (not (is_zero l outcome.status)) (native_error l.last_error)
    raise_if (not (eqb outcome.result.abi_version 1)) incompatible_abi
    named_result id extents flags outcome (capture_name outcome.result.backend)

  unfoldable pub run_capture :
      String
      → String
      → List CaptureExtent
      → TransferTerms
      → CaptureFlags
      → Option (String → List NativeCaptureExtent → NativeOptions → CaptureOutcome)
      → Result HydrationFailure CaptureResult
  unfolding request_id native_capture_extents options_of accept_capture
  run_capture path backend extents terms flags none = raised no_capture_abi
  run_capture path backend extents terms flags (some operation) = do
    id ← request_id terms.backend backend
    natives ← native_capture_extents extents
    accept_capture id extents flags (operation path natives (options_of id (flags_of flags) terms))

  unfoldable pub capture :
      String
      → List CaptureExtent
      → TransferTerms
      → CaptureFlags
      → Result HydrationFailure CaptureResult
  unfolding refuses_chunk refuses_depth check_order resolve_capture_backend run_capture
  capture path extents terms flags = do
    raise_if (is_nil extents) no_extents
    raise_if (refuses_chunk terms.chunk_bytes) invalid_chunk
    raise_if (refuses_depth terms.queue_depth) invalid_depth
    check_order flags.pad_extents 0 extents
    backend ← resolve_capture_backend l terms.backend extents flags.pad_extents
    run_capture path backend extents terms flags l.capture_file
