-- ===== src/Validation/Matching.antt =====
-- Which payloads a record is for, and digests in their normal form.
use coldsnap.Base.{
  String, Bool, true, false, ◌&&◌, some, ◌≡◌, ◌↔◌, refl, ok, eqb_ℤ, eqb_ℤ_iff, ◌==◌, ==_eq, ==_refl,
  string_eq, append, and-true, ℤ, Float, raise_if-eq-ok, ok_injective, sym, ◌∙◌, subst,
}
use coldsnap.Hydration.Extents.{refuses_hex}
use coldsnap.Validation.Stats.{
  invalid_expected_digest, Stat, ContentIdentity, content_identity, without_prefix, removeprefix,
  normalize_sha256,
}
use coldsnap.Validation.Hashing.{same_content}
use coldsnap.Validation.Records.{
  last_of, only_keys, is_dict_of, expected_test, identity_test, record_matches, record_of,
}

-- A digest that is in normal form is its own normal form, so that normalising twice changes nothing.
pub normalize_sha256_idempotent :
    (value digest : String)
    → normalize_sha256 value ≡ ok digest
    → normalize_sha256 digest ≡ ok digest
unfolding normalize_sha256 removeprefix without_prefix append
normalize_sha256_idempotent value digest h =
    let bare = removeprefix "sha256:" value in
    let (fine, made) =
      raise_if-eq-ok (refuses_hex 64 bare) invalid_expected_digest (ok (append "sha256:" bare)) h in
    let same : append "sha256:" bare ≡ digest = ok_injective made in
    subst (λ d. normalize_sha256 d ≡ ok d) same (normal bare fine)
  where
    normal :
        (bare : String)
        → refuses_hex 64 bare ≡ false
        → normalize_sha256 (append "sha256:" bare) ≡ ok (append "sha256:" bare)
    normal bare fine = rw fine refl

same_content_iff : (a b : ContentIdentity) → (same_content a b ≡ true) ↔ (a ≡ b)
same_content_iff a b = (equal a b, λ p. subst (λ c. same_content a c ≡ true) p (refl_content a))
  where
    refl_content : (a : ContentIdentity) → same_content a a ≡ true
    refl_content a =
        rw
          (
            (eqb_ℤ_iff a.device a.device).1 refl,
            (eqb_ℤ_iff a.inode a.inode).1 refl,
            (eqb_ℤ_iff a.size a.size).1 refl,
            (eqb_ℤ_iff a.mtime_ns a.mtime_ns).1 refl,
          )
          refl

    equal : (a b : ContentIdentity) → same_content a b ≡ true → a ≡ b
    equal a b h =
        let (h1, s) = and-true _ (eqb_ℤ a.mtime_ns b.mtime_ns) h in
        let (h2, r) = and-true _ (eqb_ℤ a.size b.size) h1 in
        let (p, q) = and-true (eqb_ℤ a.device b.device) (eqb_ℤ a.inode b.inode) h2 in
        let e1 = (eqb_ℤ_iff a.device b.device).0 p in
        let e2 = (eqb_ℤ_iff a.inode b.inode).0 q in
        let e3 = (eqb_ℤ_iff a.size b.size).0 r in
        let e4 = (eqb_ℤ_iff a.mtime_ns b.mtime_ns).0 s in cc

module _ (float_is : Float → ℤ → Bool) where
  record_matches-form :
      (name name' digest digest' evidence : String) (bytes bytes' now : ℤ) (st : Stat)
      (id : ContentIdentity)
      → record_matches float_is name digest bytes id
          (some (record_of name' digest' bytes' st evidence now))
        ≡ (name' == name
            && (eqb_ℤ bytes' bytes && digest' == digest)
            && same_content (content_identity st) id)
  unfolding record_matches last_of is_dict_of only_keys expected_test identity_test record_of
  record_matches-form name name' digest digest' evidence bytes bytes' now st id = refl

  -- A record that is made for a payload matches exactly a payload of the same name, expected digest, expected
  -- size and content identity.
  pub record_matches-record_of :
      (name name' digest digest' evidence : String) (bytes bytes' now : ℤ) (st : Stat)
      (id : ContentIdentity)
      → (record_matches float_is name digest bytes id
            (some (record_of name' digest' bytes' st evidence now))
          ≡ true)
        ↔ ((name' ≡ name) × (digest' ≡ digest) × (bytes' ≡ bytes) × (content_identity st ≡ id))
  record_matches-record_of name name' digest digest' evidence bytes bytes' now st id = (
    λ h.
        let h1 =
          sym (record_matches-form name name' digest digest' evidence bytes bytes' now st id) ∙ h in
        let (h2, r) = and-true _ (same_content (content_identity st) id) h1 in
        let (p, q) = and-true (name' == name) (eqb_ℤ bytes' bytes && digest' == digest) h2 in
        let (s, t) = and-true (eqb_ℤ bytes' bytes) (digest' == digest) q in
        (
          ==_eq name' name p,
          ==_eq digest' digest t,
          (eqb_ℤ_iff bytes' bytes).0 s,
          (same_content_iff (content_identity st) id).0 r,
        ),
    λ h.
        let p : (name' == name) ≡ true = subst (λ n. (name' == n) ≡ true) h.0 (==_refl name') in
        let q : (digest' == digest) ≡ true =
          subst (λ n. (digest' == n) ≡ true) h.1 (==_refl digest') in
        let r = (eqb_ℤ_iff bytes' bytes).1 h.2 in
        let s = (same_content_iff (content_identity st) id).1 h.3 in
        record_matches-form name name' digest digest' evidence bytes bytes' now st id
        ∙ rw (p, q, r, s) refl,
  )
