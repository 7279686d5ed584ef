-- ===== src/Hydration/Transfers.antt =====
-- hydration.py: `hydrate`.
use coldsnap.Base.{
  ℕ, ◌%◌, ◌^◌, ◌-◌, String, Bool, true, false, ◌&&◌, ◌||◌, not, List, [], ◌∷◌, Result, ok, ◌>>=◌,
  ◌>>◌, raise_if, if◌then◌else◌, eqb, leb, ltb, ◌==◌, string_eq, ℤ, Float, pos, negsuc, pos_part,
  leb_ℤ, sub_ℕ,
}
use coldsnap.Hydration.Digests.{
  HydrationFailure, no_extents, invalid_chunk, invalid_depth, gds_unverified, native_error,
  incompatible_abi,
}
use coldsnap.Hydration.Extents.{HydrationExtent, NativeExtent, native_extent, u32, u64}
use coldsnap.Hydration.Backends.{
  NativeLibrary, NativeOptions, NativeResult, resolve_backend, backend_id, is_aligned,
}

pub record HydrationMetrics : Type 0 where
  pub backend : String
  pub bytes : ℕ
  pub chunks : ℕ
  pub verified_extents : ℕ
  pub initialization_s : Float
  pub io_service_s : Float
  pub io_wait_s : Float
  pub checksum_s : Float
  pub cuda_enqueue_s : Float
  pub cuda_synchronize_s : Float
  pub total_s : Float

-- What a call is given besides its extents, for both directions.
pub record TransferTerms : Type 0 where
  pub backend : String
  pub chunk_bytes : ℤ
  pub queue_depth : ℤ
  pub cuda_device : ℤ

abbrev pub is_nil {ℓ} : {A : Type ℓ} → List A → Bool
is_nil [] = true
is_nil _ = false

-- `chunk_bytes <= 0 or chunk_bytes % 4096`
unfoldable pub refuses_chunk : ℤ → Bool
unfolding is_aligned
refuses_chunk (pos n) = leb n 0 || not (is_aligned n)
refuses_chunk (negsuc n) = true

unfoldable pub refuses_depth : ℤ → Bool
refuses_depth n = not (leb_ℤ (pos 1) n && leb_ℤ n (pos 64))

-- A number kept in 32 bits with a sign.
unfoldable pub signed_32 : ℕ → ℤ
signed_32 n = if ltb n (2 ^ 31) then pos n else sub_ℕ n (2 ^ 32)

unfoldable pub i32 : ℤ → ℤ
unfolding signed_32
i32 (pos n) = signed_32 (n % 2 ^ 32)
i32 (negsuc n) = signed_32 (2 ^ 32 - 1 - n % 2 ^ 32)

unfoldable pub options_of : ℕ → ℕ → TransferTerms → NativeOptions
unfolding i32
options_of backend flags terms = record {
  abi_version = 1;
  backend = u32 backend;
  queue_depth = u32 (pos_part terms.queue_depth);
  flags = flags;
  chunk_bytes = u64 (pos_part terms.chunk_bytes);
  cuda_device = i32 terms.cuda_device;
  reserved = 0;
}

unfoldable pub native_extents :
    Bool → List HydrationExtent → Result HydrationFailure (List NativeExtent)
unfolding native_extent
native_extents preverified [] = ok []
native_extents preverified (extent ∷ extents) = do
  first ← native_extent preverified extent
  rest ← native_extents preverified extents
  ok (first ∷ rest)

module _ (l : NativeLibrary) where
  abbrev pub metrics_of : String → NativeResult → HydrationMetrics
  metrics_of backend result = record {
    backend = backend;
    bytes = result.bytes;
    chunks = result.chunks;
    verified_extents = result.verified_extents;
    initialization_s = l.seconds result.initialization_ns;
    io_service_s = l.seconds result.io_service_ns;
    io_wait_s = l.seconds result.io_wait_ns;
    checksum_s = l.seconds result.checksum_ns;
    cuda_enqueue_s = l.seconds result.cuda_enqueue_ns;
    cuda_synchronize_s = l.seconds result.cuda_synchronize_ns;
    total_s = l.seconds result.total_ns;
  }

  abbrev pub is_zero : ℤ → Bool
  is_zero (pos n) = eqb n 0
  is_zero _ = false

  unfoldable pub accept_result :
      String → ℕ → ℤ × NativeResult → Result HydrationFailure HydrationMetrics
  accept_result backend id (status, result) = do
    raise_if (not (is_zero status)) (native_error l.last_error)
    raise_if (not (eqb result.abi_version 1) || not (eqb result.backend id)) incompatible_abi
    ok (metrics_of backend result)

  unfoldable pub hydrate :
      String
      → List HydrationExtent
      → TransferTerms
      → Bool
      → Bool
      → Result HydrationFailure HydrationMetrics
  unfolding refuses_chunk refuses_depth resolve_backend backend_id native_extents options_of
      accept_result
  hydrate path extents terms preverified register_device_buffers = do
    raise_if (is_nil extents) no_extents
    raise_if (refuses_chunk terms.chunk_bytes) invalid_chunk
    raise_if (refuses_depth terms.queue_depth) invalid_depth
    backend ← resolve_backend l terms.backend extents
    raise_if (backend == "gds" && not preverified) gds_unverified
    id ← backend_id backend
    natives ← native_extents preverified extents
    accept_result backend id (
        l.hydrate_file path natives
          (options_of id (if register_device_buffers then 1 else 0) terms))
