-- ===== src/Hydration/Evidence.antt =====
-- The digests of a capture as the evidence of a later hydration.
use coldsnap.Base.{
  ℕ, zero, suc, ◌^◌, ◌<◌, false, ◌||◌, List, ◌≡◌, refl, arith, ok, pos, ltb_ℤ, leb_ℤ, string_eq, ap,
  ◌∙◌, sym, subst, inl, inr,
}
use coldsnap.Hydration.Extents.{
  HydrationExtent, NativeExtent, CaptureExtent, hydration_extent, native_extent, refuses_crc32,
  check_sha256, verification_of, digest_bytes, crc32_number, u32, u64,
}
use coldsnap.Hydration.Backends.{NativeCaptureDigest}
use coldsnap.Hydration.Captures.{CaptureDigest, digest_of, checksum_id}
use coldsnap.Hydration.Texts.{
  IsFilled, expected_crc32_of, expected_sha256_of, texts_for, checksum_id-cases,
  digest_of-texts_for, texts_for_accepted, texts_for_read,
}

-- The extent that a digest makes with a destination
abbrev pub replayed : CaptureExtent → ℕ → CaptureDigest → HydrationExtent
replayed e destination digest = record {
  file_offset = e.file_offset;
  destination = destination;
  length = e.length;
  crc32 = digest.crc32;
  sha256 = digest.sha256;
}

hydration_extent_ok :
    (e : CaptureExtent) (destination : ℕ) (t : CaptureDigest)
    → 0 < destination
    → 0 < e.length
    → refuses_crc32 t.crc32 ≡ false
    → check_sha256 t.crc32 t.sha256 ≡ ok tt
    → hydration_extent (pos e.file_offset) (pos destination) (pos e.length) t.crc32 t.sha256
      ≡ ok (replayed e destination t)
unfolding hydration_extent
hydration_extent_ok e destination t p q a b =
    let c : (ltb_ℤ (pos e.file_offset) (pos 0)
          || leb_ℤ (pos destination) (pos 0)
          || leb_ℤ (pos e.length) (pos 0))
        ≡ false =
      ground arith in
    rw (c, a, b) refl

native_extent_ok :
    (x : HydrationExtent) (crc : ℕ) (bytes : List ℕ)
    → crc32_number x.crc32 ≡ ok crc
    → digest_bytes x.sha256 ≡ ok bytes
    → native_extent false x
      ≡ ok (record {
        file_offset = u64 x.file_offset;
        destination = u64 x.destination;
        length = u64 x.length;
        verification = verification_of false x;
        expected_crc32 = u32 crc;
        expected_sha256 = bytes;
      })
unfolding native_extent
native_extent_ok x crc bytes p q = rw (p, q) refl

abbrev pub native_replay : CaptureExtent → ℕ → ℕ → NativeCaptureDigest → NativeExtent
native_replay e destination kind d = record {
  file_offset = u64 e.file_offset;
  destination = u64 destination;
  length = u64 e.length;
  verification = kind;
  expected_crc32 = expected_crc32_of kind d;
  expected_sha256 = expected_sha256_of kind d;
}

abbrev Replays : CaptureExtent → ℕ → ℕ → NativeCaptureDigest → CaptureDigest → Type 0
Replays e destination kind d t =
    (hydration_extent (pos e.file_offset) (pos destination) (pos e.length) t.crc32 t.sha256
      ≡ ok (replayed e destination t))
    × (native_extent false (replayed e destination t) ≡ ok (native_replay e destination kind d))

u32_of_word : (n : ℕ) → n < 2 ^ 32 → u32 n ≡ n
u32_of_word n h = omega arith

kept_word :
    (kind : ℕ) (d : NativeCaptureDigest)
    → d.crc32 < 2 ^ 32
    → u32 (expected_crc32_of kind d) ≡ expected_crc32_of kind d
kept_word zero d h = refl
kept_word (suc n) d h = u32_of_word d.crc32 h

texts_for-Replays :
    (e : CaptureExtent) (destination kind : ℕ) (d : NativeCaptureDigest)
    → IsFilled d
    → 0 < destination
    → 0 < e.length
    → verification_of false (replayed e destination (texts_for kind d)) ≡ kind
    → Replays e destination kind d (texts_for kind d)
texts_for-Replays e destination kind d h p q v =
    let (a, b) = texts_for_accepted d h kind in
    let (x, y) = texts_for_read d h kind in
    (
      hydration_extent_ok e destination (texts_for kind d) p q a b,
      native_extent_ok (replayed e destination (texts_for kind d)) (expected_crc32_of kind d)
            (expected_sha256_of kind d) x y
          ∙ ap
              (λ n. ok (record {
                file_offset = u64 e.file_offset;
                destination = u64 destination;
                length = u64 e.length;
                verification = n;
                expected_crc32 = u32 (expected_crc32_of kind d);
                expected_sha256 = expected_sha256_of kind d;
              }))
              v
          ∙ ap
              (λ n. ok (record {
                file_offset = u64 e.file_offset;
                destination = u64 destination;
                length = u64 e.length;
                verification = kind;
                expected_crc32 = n;
                expected_sha256 = expected_sha256_of kind d;
              }))
              (kept_word kind d h.word),
    )

verification_of_kind :
    (e : CaptureExtent) (destination kind : ℕ) (d : NativeCaptureDigest)
    → checksum_id e.checksum ≡ ok kind
    → verification_of false (replayed e destination (texts_for kind d)) ≡ kind
verification_of_kind e destination kind d h = elim (checksum_id-cases e.checksum kind h) [
  | inl (p, q) ↦ rw q refl
  | inr (inl (p, q)) ↦ rw q refl
  | inr (inr (p, q)) ↦ rw q refl
]

-- The digest that `capture` makes of an extent with a known checksum, from a 32-bit word and 32 bytes, is
-- accepted by `HydrationExtent` for any destination, and `_native_extent` then gives the native library
-- the same checksum kind, word and bytes back.
pub digest_of-hydration_extent :
    (e : CaptureExtent) (destination kind : ℕ) (d : NativeCaptureDigest)
    → IsFilled d
    → 0 < destination
    → 0 < e.length
    → checksum_id e.checksum ≡ ok kind
    → (hydration_extent
          (pos e.file_offset)
          (pos destination)
          (pos e.length)
          (digest_of e d).crc32
          (digest_of e d).sha256
        ≡ ok (replayed e destination (digest_of e d)))
      × (native_extent false (replayed e destination (digest_of e d))
          ≡ ok (native_replay e destination kind d))
digest_of-hydration_extent e destination kind d h p q k =
    subst (Replays e destination kind d) (sym (digest_of-texts_for e d kind k))
      (texts_for-Replays e destination kind d h p q (verification_of_kind e destination kind d k))
