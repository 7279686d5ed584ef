-- ===== src/Hydration/Backends.antt =====
-- hydration.py: the backends of the native library and the policies that choose one.
use coldsnap.Base.{
  ℕ, ◌%◌, String, Bool, false, ◌&&◌, ◌||◌, not, Option, none, some, List, Result, ok, raised, ◌>>=◌,
  ◌>>◌, raise_if, if◌then◌else◌, eqb, all, ◌==◌, string_eq, ℤ, Float,
}
use coldsnap.Hydration.Digests.{HydrationFailure, unknown_backend, backend_unavailable, no_backend}
use coldsnap.Hydration.Extents.{HydrationExtent, CaptureExtent, NativeExtent, fails}

pub record NativeOptions : Type 0 where
  pub abi_version : ℕ
  pub backend : ℕ
  pub queue_depth : ℕ
  pub flags : ℕ
  pub chunk_bytes : ℕ
  pub cuda_device : ℤ
  pub reserved : ℕ

pub record NativeResult : Type 0 where
  pub abi_version : ℕ
  pub backend : ℕ
  pub bytes : ℕ
  pub chunks : ℕ
  pub verified_extents : ℕ
  pub initialization_ns : ℕ
  pub io_service_ns : ℕ
  pub io_wait_ns : ℕ
  pub checksum_ns : ℕ
  pub cuda_enqueue_ns : ℕ
  pub cuda_synchronize_ns : ℕ
  pub total_ns : ℕ

pub record NativeCaptureExtent : Type 0 where
  pub source : ℕ
  pub file_offset : ℕ
  pub length : ℕ
  pub checksum : ℕ
  pub reserved : ℕ

pub record NativeCaptureDigest : Type 0 where
  pub crc32 : ℕ
  pub sha256 : List ℕ

pub record NativeCaptureResult : Type 0 where
  pub abi_version : ℕ
  pub backend : ℕ
  pub bytes : ℕ
  pub file_bytes : ℕ
  pub chunks : ℕ
  pub checksummed_extents : ℕ
  pub initialization_ns : ℕ
  pub io_service_ns : ℕ
  pub io_wait_ns : ℕ
  pub checksum_ns : ℕ
  pub cuda_enqueue_ns : ℕ
  pub cuda_synchronize_ns : ℕ
  pub durability_ns : ℕ
  pub verification_ns : ℕ
  pub total_ns : ℕ
  pub file_sha256 : List ℕ

-- What a capture leaves behind: its status, the cells of the digest array, and its result.
pub record CaptureOutcome : Type 0 where
  pub status : ℤ
  pub digest_at : ℕ → NativeCaptureDigest
  pub result : NativeCaptureResult

-- The native library, which is not Python: its calls, and the product of nanoseconds and 1e-9.
pub record NativeLibrary : Type 0 where
  pub backend_available : ℕ → Bool
  pub hydrate_file : String → List NativeExtent → NativeOptions → ℤ × NativeResult
  pub capture_backend_available : Option (ℕ → Bool)
  pub capture_file : Option (String → List NativeCaptureExtent → NativeOptions → CaptureOutcome)
  pub last_error : Option String
  pub seconds : ℕ → Float

unfoldable pub hydration_id : String → Option ℕ
hydration_id name =
    if name == "buffered"
    then some 1
    else if name == "direct"
    then some 2
    else if name == "gds"
    then some 3
    else none

unfoldable pub capture_id : String → Option ℕ
capture_id name = if name == "buffered" then some 1 else if name == "direct" then some 2 else none

unfoldable pub is_aligned : ℕ → Bool
is_aligned n = eqb (n % 4096) 0

abbrev pub known : Option ℕ → Result HydrationFailure ℕ
known none = raised unknown_backend
known (some id) = ok id

unfoldable pub backend_id : String → Result HydrationFailure ℕ
unfolding hydration_id
backend_id name = known (hydration_id name)

module _ (l : NativeLibrary) where
  unfoldable pub available : String → Result HydrationFailure Bool
  unfolding backend_id
  available name = do id ← backend_id name; ok (l.backend_available id)

  abbrev pub capture_answer : ℕ → Bool
  capture_answer id = elim l.capture_file [
    | none ↦ false
    | some operation ↦ elim l.capture_backend_available [ none ↦ false | some query ↦ query id ]
  ]

  unfoldable pub capture_available : String → Result HydrationFailure Bool
  unfolding capture_id
  capture_available name = do id ← known (capture_id name); ok (capture_answer id)

  unfoldable pub resolve_capture_backend :
      String → List CaptureExtent → Bool → Result HydrationFailure String
  unfolding capture_available is_aligned capture_id
  resolve_capture_backend backend extents pad_extents =
      if not (backend == "auto")
      then (do
        raise_if (fails (capture_id backend)) unknown_backend
        usable ← capture_available backend
        if usable then ok backend else raised backend_unavailable)
      else if all
            (λ (e : CaptureExtent).
              is_aligned e.file_offset && (pad_extents || is_aligned e.length))
            extents
          && capture_answer 2
      then ok "direct"
      else if capture_answer 1
      then ok "buffered"
      else raised no_backend

  unfoldable pub resolve_backend : String → List HydrationExtent → Result HydrationFailure String
  unfolding backend_id is_aligned
  resolve_backend backend extents =
      if not (backend == "auto")
      then (do id ← backend_id backend; ok backend)
      else if all (λ (e : HydrationExtent). is_aligned e.file_offset && is_aligned e.length) extents
          && l.backend_available 2
      then ok "direct"
      else if l.backend_available 1
      then ok "buffered"
      else raised no_backend
