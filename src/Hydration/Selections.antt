-- ===== src/Hydration/Selections.antt =====
-- A selection of the native library, and the theorem at it.
use coldsnap.Base.{
  String, true, false, ◌&&◌, not, Option, none, some, ◌≡◌, ◌≢◌, ◌⊎◌, refl, ok, raised, is_empty,
  if◌then◌else◌, ◌==◌, string_eq, pos, finite,
}
use coldsnap.Hydration.Digests.{is_lower, from_hex}
use coldsnap.Hydration.Extents.{refuses_hex, fails}
use coldsnap.Hydration.Backends.{NativeLibrary, NativeResult, hydration_id}
use coldsnap.Hydration.Environment.{
  digest_differs, Loader, NativeHydrator, text_or_empty, configured, native_hydrator, check_library,
  native_transport, selected, hydrator_from_env,
}
use coldsnap.Hydration.Provenance.{hydrator_from_env-selects}

abbrev no_numbers : NativeResult
no_numbers = record {
  abi_version = 1;
  backend = 1;
  bytes = 0;
  chunks = 0;
  verified_extents = 0;
  initialization_ns = 0;
  io_service_ns = 0;
  io_wait_ns = 0;
  checksum_ns = 0;
  cuda_enqueue_ns = 0;
  cuda_synchronize_ns = 0;
  total_ns = 0;
}

abbrev old_library : NativeLibrary
old_library = record {
  backend_available = λ n. true;
  hydrate_file = λ path extents options. (pos 0, no_numbers);
  capture_backend_available = none;
  capture_file = none;
  last_error = none;
  seconds = λ n. finite (pos n) (pos 0);
}

abbrev zeros : String
zeros = "0000000000000000000000000000000000000000000000000000000000000000"

abbrev files : String → Loader
files digest = record {
  resolve = λ path. path;
  is_file = λ path. true;
  load = λ path. ok old_library;
  sha256 = λ path. ok digest;
}

abbrev environ : String → Option String
environ name =
    if name == "COLDSNAP_HYDRATION_NATIVE_LIBRARY"
    then some "/lib/native.so"
    else if name == "COLDSNAP_HYDRATION_NATIVE_SHA256"
    then some zeros
    else if name == "COLDSNAP_HYDRATION_BACKEND"
    then some "auto"
    else none

abbrev native : NativeHydrator
native = record { library_path = "/lib/native.so"; library = old_library }

selects : hydrator_from_env (files zeros) environ ≡ ok (some (native, "auto"))
unfolding hydrator_from_env selected native_transport native_hydrator check_library hydration_id
    refuses_hex is_lower from_hex
selects = refl

refuses_other_file : hydrator_from_env (files "1") environ ≡ raised (digest_differs zeros "1")
unfolding hydrator_from_env selected native_transport native_hydrator check_library hydration_id
    refuses_hex is_lower from_hex
refuses_other_file = refl

abbrev automatic : String
automatic = "auto"

hydrator_from_env-selects_example :
    (automatic ≡ configured (environ "COLDSNAP_HYDRATION_BACKEND"))
    × (automatic ≢ "python")
    × ((not (automatic == "auto") && fails (hydration_id automatic)) ≡ false)
    × ((is_empty (text_or_empty (environ "COLDSNAP_HYDRATION_NATIVE_SHA256")) ≡ true)
        ⊎ ((files zeros).sha256 native.library_path
            ≡ ok (text_or_empty (environ "COLDSNAP_HYDRATION_NATIVE_SHA256"))))
hydrator_from_env-selects_example =
    hydrator_from_env-selects (files zeros) environ native automatic selects
