-- ===== src/Hydration/Examples.antt =====
-- Runs of hydration.py against a small native library, and each of its theorems at them.
use coldsnap.Base.{
  ℕ, zero, suc, finite, All, ◌<◌, Bool, true, false, none, some, List, [], ◌∷◌, ◌≡◌, ◌↔◌, refl, ok,
  raised, pos, arith,
}
use coldsnap.Hydration.Digests.{crc32_value, overlapping_extents, backend_unavailable}
use coldsnap.Hydration.Extents.{HydrationExtent, CaptureExtent, hydration_extent, native_extent}
use coldsnap.Hydration.Backends.{
  NativeLibrary, NativeResult, NativeCaptureDigest, NativeCaptureResult, CaptureOutcome,
  resolve_capture_backend,
}
use coldsnap.Hydration.Captures.{
  CaptureFlags, capture, capture_result, check_order, digest_of, checksum_id,
}
use coldsnap.Hydration.Selection.{IsUsable, resolve_capture_backend-IsUsable}
use coldsnap.Hydration.Ordering.{IsOrdered, Overlaps, check_order_iff}
use coldsnap.Hydration.Texts.{IsFilled}
use coldsnap.Hydration.Evidence.{replayed, native_replay, digest_of-hydration_extent}
use coldsnap.Hydration.Delivery.{IsHydrated, hydrate-IsHydrated}
use coldsnap.Hydration.Transfers.{TransferTerms, hydrate, metrics_of}
use coldsnap.Hydration.Conduct.{IsCaptured, capture-IsCaptured}

abbrev zero_bytes : ℕ → List ℕ
zero_bytes zero = []
zero_bytes (suc n) = 0 ∷ zero_bytes n

abbrev filled : NativeCaptureDigest
filled = record { crc32 = 305419896; sha256 = zero_bytes 32 }

abbrev captured_numbers : NativeCaptureResult
captured_numbers = record {
  abi_version = 1;
  backend = 1;
  bytes = 6000;
  file_bytes = 12288;
  chunks = 2;
  checksummed_extents = 2;
  initialization_ns = 0;
  io_service_ns = 0;
  io_wait_ns = 0;
  checksum_ns = 0;
  cuda_enqueue_ns = 0;
  cuda_synchronize_ns = 0;
  durability_ns = 0;
  verification_ns = 0;
  total_ns = 0;
  file_sha256 = zero_bytes 32;
}

abbrev hydrated_numbers : NativeResult
hydrated_numbers = record {
  abi_version = 1;
  backend = 1;
  bytes = 6000;
  chunks = 2;
  verified_extents = 2;
  initialization_ns = 0;
  io_service_ns = 0;
  io_wait_ns = 0;
  checksum_ns = 0;
  cuda_enqueue_ns = 0;
  cuda_synchronize_ns = 0;
  total_ns = 0;
}

-- It has the buffered backend only.
abbrev is_one : ℕ → Bool
is_one (suc zero) = true
is_one _ = false

abbrev buffered_outcome : CaptureOutcome
buffered_outcome = record { status = pos 0; digest_at = λ i. filled; result = captured_numbers }

abbrev buffered_only : NativeLibrary
buffered_only = record {
  backend_available = is_one;
  hydrate_file = λ path extents options. (pos 0, hydrated_numbers);
  capture_backend_available = some is_one;
  capture_file = some (λ path extents options. buffered_outcome);
  last_error = none;
  seconds = λ n. finite (pos n) (pos 0);
}

abbrev first_extent : CaptureExtent
first_extent = record { file_offset = 0; source = 4096; length = 5000; checksum = "crc32+sha256" }

abbrev second_extent : CaptureExtent
second_extent = record { file_offset = 8192; source = 65536; length = 1000; checksum = "crc32" }

abbrev two_extents : List CaptureExtent
two_extents = first_extent ∷ second_extent ∷ []

abbrev terms : TransferTerms
terms = record {
  backend = "auto";
  chunk_bytes = pos 4096;
  queue_depth = pos 4;
  cuda_device = pos 0;
}

abbrev padded : CaptureFlags
padded = record { file_sha256 = false; verify_readback = true; pad_extents = true }

captures :
    capture buffered_only "weights.bin" two_extents terms padded
    ≡ ok (capture_result buffered_only two_extents padded buffered_outcome "buffered")
unfolding capture
captures = refl

refuses_overlap :
    check_order true 0 (second_extent ∷ first_extent ∷ []) ≡ raised overlapping_extents
unfolding check_order
refuses_overlap = refl

falls_back : resolve_capture_backend buffered_only "auto" two_extents true ≡ ok "buffered"
unfolding resolve_capture_backend
falls_back = refl

refuses_direct :
    resolve_capture_backend buffered_only "direct" two_extents true ≡ raised backend_unavailable
unfolding resolve_capture_backend
refuses_direct = refl

-- Eight characters with spaces pass for a CRC32, and fail as a number when the extent is used.
abbrev spaced : HydrationExtent
spaced = record {
  file_offset = 0;
  destination = 4096;
  length = 10;
  crc32 = some "ab cd ef";
  sha256 = none;
}

accepts_spaced_crc32 :
    hydration_extent (pos 0) (pos 4096) (pos 10) (some "ab cd ef") none ≡ ok spaced
unfolding hydration_extent
accepts_spaced_crc32 = refl

fails_on_spaced_crc32 : native_extent false spaced ≡ raised crc32_value
unfolding native_extent
fails_on_spaced_crc32 = refl

knows_kind : checksum_id first_extent.checksum ≡ ok 2
unfolding checksum_id
knows_kind = refl

filled-IsFilled : IsFilled filled
filled-IsFilled = record { word = omega arith; bytes = small 32; size = refl }
  where
    small : (n : ℕ) → All (λ b. b < 256) (zero_bytes n)
    small zero = tt
    small (suc n) = (omega arith, small n)

capture-IsCaptured_example :
    IsCaptured buffered_only "weights.bin" two_extents terms padded
      (capture_result buffered_only two_extents padded buffered_outcome "buffered")
capture-IsCaptured_example =
    capture-IsCaptured buffered_only "weights.bin" two_extents terms padded
      (capture_result buffered_only two_extents padded buffered_outcome "buffered") captures

check_order_iff_example :
    ((check_order true 0 two_extents ≡ ok tt) ↔ IsOrdered true two_extents)
    × ((check_order true 0 two_extents ≡ raised overlapping_extents) ↔ Overlaps true two_extents)
check_order_iff_example = check_order_iff true two_extents

resolve_capture_backend-IsUsable_example : IsUsable buffered_only "auto" two_extents true "buffered"
resolve_capture_backend-IsUsable_example =
    resolve_capture_backend-IsUsable buffered_only two_extents true "auto" "buffered" falls_back

digest_of-hydration_extent_example :
    (hydration_extent
        (pos 0)
        (pos 8192)
        (pos 5000)
        (digest_of first_extent filled).crc32
        (digest_of first_extent filled).sha256
      ≡ ok (replayed first_extent 8192 (digest_of first_extent filled)))
    × (native_extent false (replayed first_extent 8192 (digest_of first_extent filled))
        ≡ ok (native_replay first_extent 8192 2 filled))
digest_of-hydration_extent_example =
    digest_of-hydration_extent first_extent 8192 2 filled filled-IsFilled (omega arith)
      (omega arith) knows_kind

abbrev checked_extent : HydrationExtent
checked_extent = record {
  file_offset = 0;
  destination = 4096;
  length = 10;
  crc32 = some "0badcafe";
  sha256 = none;
}

hydrates :
    hydrate buffered_only "weights.bin" (checked_extent ∷ []) terms false false
    ≡ ok (metrics_of buffered_only "buffered" hydrated_numbers)
unfolding hydrate
hydrates = refl

hydrate-IsHydrated_example :
    IsHydrated buffered_only "weights.bin"
      (checked_extent ∷ [])
      terms
      false
      false
      (metrics_of buffered_only "buffered" hydrated_numbers)
hydrate-IsHydrated_example =
    hydrate-IsHydrated buffered_only "weights.bin" (checked_extent ∷ []) terms false false
      (metrics_of buffered_only "buffered" hydrated_numbers) hydrates
