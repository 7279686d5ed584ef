-- ===== src/Hydration/Environment.antt =====
-- hydration.py: the native library that the environment names, `hydrator_from_env` and `capture_from_env`.
-- Files and the loading of a library are parameters.
use coldsnap.Base.{
  String, Bool, true, false, ◌&&◌, ◌||◌, not, Option, none, some, Result, ok, ◌>>=◌, ◌>>◌, raise_if,
  if◌then◌else◌, is_empty, ◌==◌, string_eq,
}
use coldsnap.Hydration.Digests.{HydrationFailure}
use coldsnap.Hydration.Extents.{refuses_hex, fails}
use coldsnap.Hydration.Backends.{NativeLibrary, hydration_id, capture_id, capture_available}

pub data SelectionFailure : Type 0 where
  library_missing library_required invalid_library_sha256 unknown_selection no_capture :
      SelectionFailure
  digest_differs : String → String → SelectionFailure
  system_failure : String → SelectionFailure

-- `Path.resolve`, `is_file`, `ctypes.CDLL` with the functions that it must have, and the SHA-256 of a file
pub record Loader : Type 0 where
  pub resolve : String → String
  pub is_file : String → Bool
  pub load : String → Result SelectionFailure NativeLibrary
  pub sha256 : String → Result SelectionFailure String

pub record NativeHydrator : Type 0 where
  pub library_path : String
  pub library : NativeLibrary

abbrev pub text_or_empty : Option String → String
text_or_empty (some s) = s
text_or_empty _ = ""

abbrev pub configured : Option String → String
configured (some s) = s
configured _ = "python"

abbrev pub is_available : Result HydrationFailure Bool → Bool
is_available (ok b) = b
is_available _ = false

module _ (loader : Loader) (environ : String → Option String) where
  -- `NativeHydrator.__init__`
  unfoldable pub native_hydrator : String → Result SelectionFailure NativeHydrator
  native_hydrator path = do
    raise_if (not (loader.is_file (loader.resolve path))) library_missing
    library ← loader.load (loader.resolve path)
    ok (record { library_path = loader.resolve path; library = library })

  -- An expected digest that is given is well formed and the library's.
  unfoldable pub check_library : String → NativeHydrator → Result SelectionFailure (Unit {0})
  unfolding refuses_hex
  check_library expected hydrator = if is_empty expected then ok tt else do
    raise_if (refuses_hex 64 expected) invalid_library_sha256
    actual ← loader.sha256 hydrator.library_path
    raise_if (not (actual == expected)) (digest_differs expected actual)

  unfoldable pub native_transport : Result SelectionFailure NativeHydrator
  unfolding native_hydrator check_library
  native_transport = do
    raise_if (is_empty (text_or_empty (environ "COLDSNAP_HYDRATION_NATIVE_LIBRARY")))
        library_required
    hydrator ← native_hydrator (text_or_empty (environ "COLDSNAP_HYDRATION_NATIVE_LIBRARY"))
    check_library (text_or_empty (environ "COLDSNAP_HYDRATION_NATIVE_SHA256")) hydrator
    ok hydrator

  unfoldable pub selected :
      Bool → String → Result SelectionFailure (Option (NativeHydrator × String))
  unfolding native_transport
  selected unknown backend = if backend == "python" then ok none else do
    raise_if unknown unknown_selection
    hydrator ← native_transport
    ok (some (hydrator, backend))

  unfoldable pub hydrator_from_env : Result SelectionFailure (Option (NativeHydrator × String))
  unfolding selected hydration_id
  hydrator_from_env =
      let backend = configured (environ "COLDSNAP_HYDRATION_BACKEND") in
      selected (not (backend == "auto") && fails (hydration_id backend)) backend

  abbrev pub captures : Option (NativeHydrator × String) → Bool
  captures (some (hydrator, backend)) =
      is_available (capture_available hydrator.library "buffered")
      || is_available (capture_available hydrator.library "direct")
  captures _ = true

  unfoldable pub capture_from_env : Result SelectionFailure (Option (NativeHydrator × String))
  unfolding selected capture_id capture_available
  capture_from_env =
      let backend = configured (environ "COLDSNAP_CAPTURE_BACKEND") in
      do
        transport ← selected (not (backend == "auto") && fails (capture_id backend)) backend
        raise_if (not (captures transport)) no_capture
        ok transport
