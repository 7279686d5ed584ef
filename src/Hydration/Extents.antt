-- ===== src/Hydration/Extents.antt =====
-- hydration.py: `HydrationExtent`, `CaptureExtent` and what the native library is given of them. The
-- numbers of an extent that its checks accept are not negative.
use coldsnap.Base.{
  ℕ, zero, suc, ◌%◌, ◌^◌, String, Bool, true, false, ◌||◌, not, Option, none, some, List, [], ◌∷◌,
  Result, ok, raised, ◌>>=◌, ◌>>◌, raise_if, if◌then◌else◌, eqb, leb, ℤ, pos, pos_part, leb_ℤ,
  ltb_ℤ, text_length, ◌==◌, string_eq, length,
}
use coldsnap.Hydration.Digests.{
  HydrationFailure, invalid_extent, invalid_crc32, invalid_sha256, sha256_without_crc32,
  invalid_capture_extent, invalid_checksum, crc32_value, sha256_size, is_lower, from_hex, int_16,
}

pub record HydrationExtent : Type 0 where
  pub file_offset : ℕ
  pub destination : ℕ
  pub length : ℕ
  pub crc32 : Option String
  pub sha256 : Option String

abbrev pub fails {ℓ} : {A : Type ℓ} → Option A → Bool
fails none = true
fails _ = false

-- A digest of `size` lowercase digits
unfoldable pub refuses_hex : ℕ → String → Bool
unfolding is_lower from_hex
refuses_hex size text =
    not (eqb (text_length text) size) || not (is_lower text) || fails (from_hex text)

unfoldable pub refuses_crc32 : Option String → Bool
unfolding refuses_hex
refuses_crc32 none = false
refuses_crc32 (some text) = refuses_hex 8 text

unfoldable pub check_sha256 : Option String → Option String → Result HydrationFailure (Unit {0})
unfolding refuses_hex
check_sha256 crc none = ok tt
check_sha256 none (some text) = raised sha256_without_crc32
check_sha256 (some crc) (some text) = raise_if (refuses_hex 64 text) invalid_sha256

unfoldable pub hydration_extent :
    ℤ → ℤ → ℤ → Option String → Option String → Result HydrationFailure HydrationExtent
unfolding check_sha256 refuses_crc32
hydration_extent file_offset destination size crc sha = do
  raise_if (ltb_ℤ file_offset (pos 0) || leb_ℤ destination (pos 0) || leb_ℤ size (pos 0))
      invalid_extent
  raise_if (refuses_crc32 crc) invalid_crc32
  check_sha256 crc sha
  ok (record {
    file_offset = pos_part file_offset;
    destination = pos_part destination;
    length = pos_part size;
    crc32 = crc;
    sha256 = sha;
  })

pub record CaptureExtent : Type 0 where
  pub file_offset : ℕ
  pub source : ℕ
  pub length : ℕ
  pub checksum : String

unfoldable pub capture_extent : ℤ → ℤ → ℤ → String → Result HydrationFailure CaptureExtent
capture_extent file_offset source size checksum = do
  raise_if (ltb_ℤ file_offset (pos 0) || leb_ℤ source (pos 0) || leb_ℤ size (pos 0))
      invalid_capture_extent
  raise_if (not (checksum == "none" || checksum == "crc32" || checksum == "crc32+sha256"))
      invalid_checksum
  ok (record {
    file_offset = pos_part file_offset;
    source = pos_part source;
    length = pos_part size;
    checksum = checksum;
  })

-- The fields of a native structure keep as many bits as they have.
abbrev pub u32 : ℕ → ℕ
u32 n = n % 2 ^ 32

abbrev pub u64 : ℕ → ℕ
u64 n = n % 2 ^ 64

pub record NativeExtent : Type 0 where
  pub file_offset : ℕ
  pub destination : ℕ
  pub length : ℕ
  pub verification : ℕ
  pub expected_crc32 : ℕ
  pub expected_sha256 : List ℕ

abbrev pub verification_of : Bool → HydrationExtent → ℕ
verification_of true extent = 0
verification_of false extent = elim extent.crc32 [
  | none ↦ 0
  | some crc ↦ elim extent.sha256 [ none ↦ 1 | some sha ↦ 2 ]
]

abbrev pub zeros : ℕ → List ℕ
zeros zero = []
zeros (suc n) = 0 ∷ zeros n

-- `bytes.fromhex(extent.sha256) if extent.sha256 else bytes(32)`, put into 32 bytes
unfoldable pub digest_bytes : Option String → Result HydrationFailure (List ℕ)
unfolding from_hex
digest_bytes none = ok (zeros 32)
digest_bytes (some text) = elim (from_hex text) [
  | none ↦ raised invalid_sha256
  | some bytes ↦ if leb 32 (length bytes) then ok bytes else raised sha256_size
]

unfoldable pub crc32_number : Option String → Result HydrationFailure ℕ
unfolding int_16
crc32_number none = ok 0
crc32_number (some text) = elim (int_16 text) [ none ↦ raised crc32_value | some n ↦ ok n ]

unfoldable pub native_extent : Bool → HydrationExtent → Result HydrationFailure NativeExtent
unfolding digest_bytes crc32_number
native_extent preverified extent = do
  crc ← crc32_number extent.crc32
  bytes ← digest_bytes extent.sha256
  ok (record {
    file_offset = u64 extent.file_offset;
    destination = u64 extent.destination;
    length = u64 extent.length;
    verification = verification_of preverified extent;
    expected_crc32 = u32 crc;
    expected_sha256 = bytes;
  })
