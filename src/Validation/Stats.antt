-- ===== src/Validation/Stats.antt =====
-- validation.py: digests, identities of a file's content and the calls of the operating system, which are a
-- parameter.
use Prim.Native.Char.{code}
use coldsnap.Base.{
  pos, ℕ, ◌/◌, ◌%◌, String, Bool, Option, none, some, Result, ok, raised, raise_if, ◌>>◌,
  if◌then◌else◌, eqb, append, ℤ, Json, Float,
}
use coldsnap.Hydration.Extents.{refuses_hex}
use coldsnap.Coordinator.Wire.{Bytes}
use coldsnap.Coordinator.Actions.{Action}

-- The errors of `PayloadValidationError` by their reasons, a `ValueError`, and what the system raises: an
-- `OSError`, or a `ValueError` for a text that cannot be decoded.
pub data ValidationError : Type 0 where
  invalid_expected_digest changed_during_validation invalid_external_configuration
        invalid_external_admission external_validation_failed record_unreadable not_a_dict
        chunk_not_positive :
      ValidationError
  unusable_path : String → ValidationError
  size_mismatch : ℤ → ℤ → ValidationError
  digest_mismatch : String → String → ValidationError
  system_error : String → ValidationError
  hash_unfinished : ValidationError

unfoldable pub without_prefix : String → String → Option String
without_prefix String.[] text = some text
without_prefix (String.◌∷◌ c prefix) String.[] = none
without_prefix (String.◌∷◌ c prefix) (String.◌∷◌ d text) =
    let rest = without_prefix prefix text in if eqb (code c) (code d) then rest else none

abbrev pub or_text : String → Option String → String
or_text text (some rest) = rest
or_text text _ = text

-- `text.removeprefix(prefix)`
unfoldable pub removeprefix : String → String → String
unfolding without_prefix
removeprefix prefix text = or_text text (without_prefix prefix text)

unfoldable pub normalize_sha256 : String → Result ValidationError String
unfolding removeprefix refuses_hex append
normalize_sha256 value =
    raise_if (refuses_hex 64 (removeprefix "sha256:" value)) invalid_expected_digest
    >> ok (append "sha256:" (removeprefix "sha256:" value))

-- The fields of `os.stat_result` that the code reads
pub record Stat : Type 0 where
  pub st_dev : ℤ
  pub st_ino : ℤ
  pub st_size : ℤ
  pub st_mtime_ns : ℤ
  pub st_ctime_ns : ℤ
  pub st_uid : ℤ
  pub st_gid : ℤ
  pub st_mode : ℕ

-- `stat.S_ISREG` and `mode & 0o077 == 0`
abbrev pub is_regular : Stat → Bool
is_regular st = eqb (st.st_mode / 4096 % 16) 8

abbrev pub is_private : Stat → Bool
is_private st = eqb (st.st_mode % 64) 0

pub record ContentIdentity : Type 0 where
  pub device : ℤ
  pub inode : ℤ
  pub size : ℤ
  pub mtime_ns : ℤ

pub record DiagnosticIdentity : Type 0 where
  pub ctime_ns : ℤ
  pub uid : ℤ
  pub gid : ℤ
  pub mode : ℤ

abbrev pub content_identity : Stat → ContentIdentity
content_identity st = record {
  device = st.st_dev;
  inode = st.st_ino;
  size = st.st_size;
  mtime_ns = st.st_mtime_ns;
}

abbrev pub diagnostic_identity : Stat → DiagnosticIdentity
diagnostic_identity st = record {
  ctime_ns = st.st_ctime_ns;
  uid = st.st_uid;
  gid = st.st_gid;
  mode = pos (st.st_mode % 4096);
}

-- What the code calls, in a world `W` with descriptors `D`. `sha256` is the digest in hexadecimal, `float_is`
-- tells whether a float equals an integer, and `elapsed` the seconds between two worlds. `make_parent`,
-- `open_directory`, `temporary` and `name` take the path whose directory, temporary path or name is meant.
pub record System (W D : Type 0) : Type 0 where
  pub open_file : String → Action W ValidationError D
  pub fstat : D → Action W ValidationError Stat
  pub lstat : String → Action W ValidationError Stat
  pub read : D → ℕ → Action W ValidationError Bytes
  pub read_text : String → Action W ValidationError String
  pub close : D → W → W
  pub make_parent : String → Action W ValidationError (Unit {0})
  pub create : String → Action W ValidationError D
  pub write : D → String → Action W ValidationError (Unit {0})
  pub fsync : D → Action W ValidationError (Unit {0})
  pub replace : String → String → Action W ValidationError (Unit {0})
  pub open_directory : String → Action W ValidationError D
  pub unlink : String → W → W
  pub temporary : String → String
  pub name : String → String
  pub sha256 : Bytes → String
  pub dump : Json → String
  pub loads : String → Option Json
  pub float_is : Float → ℤ → Bool
  pub time_ns : W → ℤ
  pub elapsed : W → W → Float

module _ {W D : Type 0} (sys : System W D) where
  -- `finally: os.close(descriptor)`
  abbrev pub closing :
      {A : Type 0} → D → Result ValidationError A × W → Result ValidationError A × W
  closing d (result, w) = (result, sys.close d w)

  abbrev pub regular_or_close :
      String → D → Result ValidationError Stat × W → Result ValidationError D × W
  regular_or_close path d (ok st, w) =
      if is_regular st then (ok d, w) else (raised (unusable_path path), sys.close d w)
  regular_or_close path d (raised e, w) = (raised e, w)

  abbrev pub opened : String → Result ValidationError D × W → Result ValidationError D × W
  opened path (ok d, w) = regular_or_close path d (sys.fstat d w)
  opened path (raised e, w) = (raised e, w)

  -- `_open_regular_file`
  unfoldable pub open_regular_file : String → Action W ValidationError D
  open_regular_file path w = opened path (sys.open_file path w)
