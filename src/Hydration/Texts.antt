-- ===== src/Hydration/Texts.antt =====
-- hydration.py: the texts of a capture's digests, as `HydrationExtent` and the native library take them.
use coldsnap.Base.{
  ℕ, zero, suc, ◌^◌, ◌<◌, String, false, none, some, List, ◌≡◌, refl, arith, ok, All, length,
  string_eq, ◌⊎◌, inl, inr, eq_iff,
}
use coldsnap.Hydration.Digests.{hex8, to_hex, from_hex, int_16}
use coldsnap.Hydration.Extents.{
  CaptureExtent, refuses_hex, refuses_crc32, check_sha256, digest_bytes, crc32_number, zeros,
}
use coldsnap.Hydration.Backends.{NativeCaptureDigest}
use coldsnap.Hydration.Captures.{CaptureDigest, digest_of, checksum_id}
use coldsnap.Hydration.Hexadecimal.{
  text_length-hex8, is_lower-hex8, from_hex-hex8, int_16-hex8, from_hex-to_hex, is_lower-to_hex,
  text_length-to_hex,
}

-- What the native library fills a digest with.
pub record IsFilled (d : NativeCaptureDigest) : Type 0 where
  pub word : d.crc32 < 2 ^ 32
  pub bytes : All (λ b. b < 256) d.sha256
  pub size : length d.sha256 ≡ 32

refuses_hex-hex8 : (n : ℕ) → refuses_hex 8 (hex8 n) ≡ false
unfolding refuses_hex
refuses_hex-hex8 n = rw (text_length-hex8 n, is_lower-hex8 n, from_hex-hex8 n) refl

refuses_hex-to_hex :
    (bs : List ℕ) → All (λ b. b < 256) bs → length bs ≡ 32 → refuses_hex 64 (to_hex bs) ≡ false
unfolding refuses_hex
refuses_hex-to_hex bs h k =
    rw (text_length-to_hex bs, k, is_lower-to_hex bs h, from_hex-to_hex bs h) refl

check_sha256_both :
    (t u : String) → refuses_hex 64 u ≡ false → check_sha256 (some t) (some u) ≡ ok tt
unfolding check_sha256
check_sha256_both t u h = rw h refl

crc32_number-some : (t : String) (n : ℕ) → int_16 t ≡ some n → crc32_number (some t) ≡ ok n
unfolding crc32_number
crc32_number-some t n h = rw (h, crc32_number) refl

digest_bytes-some :
    (t : String) (bs : List ℕ)
    → from_hex t ≡ some bs
    → length bs ≡ 32
    → digest_bytes (some t) ≡ ok bs
unfolding digest_bytes
digest_bytes-some t bs h k = rw (h, digest_bytes) (rw k refl)

-- The texts that a capture with checksum `kind` returns, and what the library is given back for them.
abbrev pub texts_for : ℕ → NativeCaptureDigest → CaptureDigest
texts_for zero d = record { crc32 = none; sha256 = none }
texts_for (suc zero) d = record { crc32 = some (hex8 d.crc32); sha256 = none }
texts_for (suc (suc n)) d = record { crc32 = some (hex8 d.crc32); sha256 = some (to_hex d.sha256) }

abbrev pub expected_crc32_of : ℕ → NativeCaptureDigest → ℕ
expected_crc32_of zero d = 0
expected_crc32_of (suc n) d = d.crc32

abbrev pub expected_sha256_of : ℕ → NativeCaptureDigest → List ℕ
expected_sha256_of (suc (suc n)) d = d.sha256
expected_sha256_of _ d = zeros 32

pub checksum_id-cases :
    (name : String) (kind : ℕ)
    → checksum_id name ≡ ok kind
    → ((name ≡ "none") × (kind ≡ 0))
      ⊎ (((name ≡ "crc32") × (kind ≡ 1)) ⊎ ((name ≡ "crc32+sha256") × (kind ≡ 2)))
unfolding checksum_id
checksum_id-cases name kind h =
    ground (arith, eq_iff name "none", eq_iff name "crc32", eq_iff name "crc32+sha256")

pub digest_of-texts_for :
    (e : CaptureExtent) (d : NativeCaptureDigest) (kind : ℕ)
    → checksum_id e.checksum ≡ ok kind
    → digest_of e d ≡ texts_for kind d
unfolding digest_of
digest_of-texts_for e d kind h = elim (checksum_id-cases e.checksum kind h) [
  | inl (p, q) ↦ rw (p, q) refl
  | inr (inl (p, q)) ↦ rw (p, q) refl
  | inr (inr (p, q)) ↦ rw (p, q) refl
]

module _ (d : NativeCaptureDigest) (h : IsFilled d) where
  pub texts_for_accepted :
      (kind : ℕ)
      → (refuses_crc32 (texts_for kind d).crc32 ≡ false)
        × (check_sha256 (texts_for kind d).crc32 (texts_for kind d).sha256 ≡ ok tt)
  texts_for_accepted zero = (unfold refuses_crc32 in refl, unfold check_sha256 in refl)
  texts_for_accepted (suc zero) =
      (unfold refuses_crc32 in refuses_hex-hex8 d.crc32, unfold check_sha256 in refl)
  texts_for_accepted (suc (suc n)) = (
    unfold refuses_crc32 in refuses_hex-hex8 d.crc32,
    check_sha256_both (hex8 d.crc32) (to_hex d.sha256) (refuses_hex-to_hex d.sha256 h.bytes h.size),
  )

  pub texts_for_read :
      (kind : ℕ)
      → (crc32_number (texts_for kind d).crc32 ≡ ok (expected_crc32_of kind d))
        × (digest_bytes (texts_for kind d).sha256 ≡ ok (expected_sha256_of kind d))
  texts_for_read zero = (unfold crc32_number in refl, unfold digest_bytes in refl)
  texts_for_read (suc zero) = (
    crc32_number-some (hex8 d.crc32) d.crc32 (int_16-hex8 d.crc32 h.word),
    unfold digest_bytes in refl,
  )
  texts_for_read (suc (suc n)) = (
    crc32_number-some (hex8 d.crc32) d.crc32 (int_16-hex8 d.crc32 h.word),
    digest_bytes-some (to_hex d.sha256) d.sha256 (from_hex-to_hex d.sha256 h.bytes) h.size,
  )
