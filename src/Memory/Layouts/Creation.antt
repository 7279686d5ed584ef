-- ===== src/Memory/Layouts/Creation.antt =====
-- memory.py: `validate` accepts exactly the descriptors that are well formed and carry the digest of
-- their own canonical text, and `create` yields one for every valid choice of terms.
use Prim.Native.String.{◌++◌ as append}
use coldsnap.Base.{
  String, true, false, not, Option, none, some, ◌≡◌, ◌↔◌, refl, sym, ap, ◌∙◌, subst, Result, ok,
  ◌==◌, string_eq, eq_iff, text_length, pos, ◌≤◌, ltb, Json, Fields, is_dict, JsonLibrary, JsonLaws,
  arith, >>=-eq-ok, raise_if-eq-ok, raise_if-ok, ==_refl, ==_eq, Option-cases, inl, inr,
}
use coldsnap.Memory.Failures.{Failure}
use coldsnap.Memory.Layouts.{
  LayoutTerms, MemoryLayoutDescriptor, terms_refused, any_of, validate, create, canonical_json,
  canonical_digest, layout_json, layout_fields, read_extension, max_extension, extension_value,
}
use coldsnap.Memory.Layouts.Validity.{TermsAreValid, terms_refused_iff, not-false_iff}

module _ (l : JsonLibrary) where
  -- The digest of a text.
  abbrev pub digest_of : String → String
  digest_of payload = append "sha256:" (l.sha256 payload)

  pub record DescriptorIsValid (d : MemoryLayoutDescriptor) : Type 0 where
    pub format : d.format ≡ pos 1
    pub terms : TermsAreValid d.terms
    pub extension : Json
    pub parsed : l.loads d.extension_json ≡ some extension
    pub object : is_dict extension ≡ true
    pub canonical : l.dumps extension ≡ some d.extension_json
    pub bounded : text_length d.extension_json ≤ max_extension
    pub payload : String
    pub encoded : l.dumps (layout_json (pos 1) d.terms extension) ≡ some payload
    pub sealed : d.layout_digest ≡ digest_of payload

  pub canonical_json-eq-ok :
      (v : Json) (s : String) → (canonical_json l v ≡ ok s) ↔ (l.dumps v ≡ some s)
  unfolding canonical_json
  canonical_json-eq-ok v s = elim (Option-cases (l.dumps v)) [
    | inl e ↦ (λ h. ground arith, λ h. ground arith)
    | inr (a, e) ↦ (λ h. ground arith, λ h. ground arith)
  ]

  read_extension-eq-ok :
      (t : String) (v : Json) → (read_extension l t ≡ ok v) ↔ (l.loads t ≡ some v)
  unfolding read_extension
  read_extension-eq-ok t v = elim (Option-cases (l.loads t)) [
    | inl e ↦ (λ h. ground arith, λ h. ground arith)
    | inr (a, e) ↦ (λ h. ground arith, λ h. ground arith)
  ]

  pub canonical_digest-eq-ok :
      (v : Json) (s : String)
      → canonical_digest l v ≡ ok s
      → (payload : String) × (l.dumps v ≡ some payload) × (s ≡ digest_of payload)
  unfolding canonical_digest
  canonical_digest-eq-ok v s h =
      let (payload, p, q) = >>=-eq-ok (canonical_json l v) _ h in
      (payload, (canonical_json-eq-ok v payload).0 p, ground arith)

  pub canonical_digest_of_text :
      (v : Json) (s : String) → l.dumps v ≡ some s → canonical_digest l v ≡ ok (digest_of s)
  unfolding canonical_digest
  canonical_digest_of_text v s h = rw ((canonical_json-eq-ok v s).1 h)

  validate_sound : (d : MemoryLayoutDescriptor) → validate l d ≡ ok tt → DescriptorIsValid d
  unfolding validate
  validate_sound d h =
      let (v, p, h1) = >>=-eq-ok (read_extension l d.extension_json) _ h in
      let (t, h2) = raise_if-eq-ok (any_of (terms_refused d.format d.terms)) _ _ h1 in
      let (o, h3) = raise_if-eq-ok (not (is_dict v)) _ _ h2 in
      let (text, c, h4) = >>=-eq-ok (canonical_json l v) _ h3 in
      let (same, h5) = raise_if-eq-ok (not (d.extension_json == text)) _ _ h4 in
      let (short, h6) = raise_if-eq-ok (ltb max_extension (text_length d.extension_json)) _ _ h5 in
      let (digest, g, h7) = >>=-eq-ok (canonical_digest l (layout_json d.format d.terms v)) _ h6 in
      let (payload, e, s) = canonical_digest-eq-ok (layout_json d.format d.terms v) digest g in
      let written : d.extension_json ≡ text = ==_eq _ _ ((not-false_iff _).0 same) in
      let sealed : d.layout_digest ≡ digest =
        ==_eq _ _ ((not-false_iff _).0 (raise_if-ok _ _ h7)) in
      let (f, valid) = (terms_refused_iff d.format d.terms).0 t in
      record {
        format = f;
        terms = valid;
        extension = v;
        parsed = (read_extension-eq-ok d.extension_json v).0 p;
        object = (not-false_iff _).0 o;
        canonical = (canonical_json-eq-ok v text).0 c ∙ ap some (sym written);
        bounded = ground arith;
        payload = payload;
        encoded = subst (λ g. l.dumps (layout_json g d.terms v) ≡ some payload) f e;
        sealed = sealed ∙ s;
      }

  validate_complete : (d : MemoryLayoutDescriptor) → DescriptorIsValid d → validate l d ≡ ok tt
  unfolding validate
  validate_complete d v =
      let short : ltb max_extension (text_length d.extension_json) ≡ false = ground arith in
      let encoded : l.dumps (layout_json d.format d.terms v.extension) ≡ some v.payload =
        subst (λ g. l.dumps (layout_json g d.terms v.extension) ≡ some v.payload) (sym v.format)
          v.encoded in
      let own : (d.layout_digest == digest_of v.payload) ≡ true = (eq_iff _ _).1 v.sealed in
      rw (
        (read_extension-eq-ok d.extension_json v.extension).1 v.parsed,
        (terms_refused_iff d.format d.terms).1 (v.format, v.terms),
        v.object,
        (canonical_json-eq-ok v.extension d.extension_json).1 v.canonical,
        ==_refl d.extension_json,
        short,
        canonical_digest_of_text (layout_json d.format d.terms v.extension) v.payload encoded,
        own,
      )

  -- `validate` accepts a descriptor exactly when its terms are valid under format 1, its extension is
  -- the canonical text of an object of at most 1 MiB, and its digest is that of its own fields.
  pub layout_validate_iff :
      (d : MemoryLayoutDescriptor) → (validate l d ≡ ok tt) ↔ DescriptorIsValid d
  layout_validate_iff d = (validate_sound d, validate_complete d)

  abbrev descriptor : LayoutTerms → String → String → MemoryLayoutDescriptor
  descriptor t text digest = record {
    format = pos 1;
    terms = t;
    extension_json = text;
    layout_digest = digest;
  }

  made_of :
      (t : LayoutTerms) (text : String) (d : MemoryLayoutDescriptor) (digest payload : String)
      → Path (Result Failure MemoryLayoutDescriptor) (ok (descriptor t text digest)) (ok d)
      → digest ≡ digest_of payload
      → d ≡ descriptor t text (digest_of payload)
  made_of t text d digest payload h s =
      let e : descriptor t text digest ≡ d = cc in sym e ∙ ap (descriptor t text) s

  extension_is_dict : (x : Option Fields) → is_dict (extension_value l x) ≡ true
  extension_is_dict none = refl
  extension_is_dict (some fs) = refl

  within_limit :
      (text : String)
      → text_length text ≤ max_extension
      → ltb max_extension (text_length text) ≡ false
  within_limit text h = ground arith

  -- What `create` returns for given terms and extension.
  pub record IsCreated (t : LayoutTerms) (x : Option Fields) (d : MemoryLayoutDescriptor)
      : Type 0 where
    pub valid : TermsAreValid t
    pub text : String
    pub canonical : l.dumps (extension_value l x) ≡ some text
    pub bounded : text_length text ≤ max_extension
    pub payload : String
    pub encoded : l.dumps (layout_json (pos 1) t (extension_value l x)) ≡ some payload
    pub made : d ≡ record {
      format = pos 1;
      terms = t;
      extension_json = text;
      layout_digest = digest_of payload;
    }

  made-IsCreated :
      (t : LayoutTerms) (x : Option Fields) (d : MemoryLayoutDescriptor)
      → create l t x ≡ ok d
      → IsCreated t x d
  unfolding create
  made-IsCreated t x d h =
      let (text, c, h1) = >>=-eq-ok (canonical_json l (extension_value l x)) _ h in
      let (short, h2) = raise_if-eq-ok (ltb max_extension (text_length text)) _ _ h1 in
      let (digest, g, h3) =
        >>=-eq-ok (canonical_digest l (layout_json (pos 1) t (extension_value l x))) _ h2 in
      let (payload, e, s) =
        canonical_digest-eq-ok (layout_json (pos 1) t (extension_value l x)) digest g in
      let (u, v, h4) = >>=-eq-ok (validate l (descriptor t text digest)) _ h3 in
      record {
        valid = (validate_sound (descriptor t text digest) v).terms;
        text = text;
        canonical = (canonical_json-eq-ok (extension_value l x) text).0 c;
        bounded = ground arith;
        payload = payload;
        encoded = e;
        made = made_of t text d digest payload h4 s;
      }

  module _ (laws : JsonLaws l) where
    created_DescriptorIsValid :
        (t : LayoutTerms) (x : Option Fields) (d : MemoryLayoutDescriptor)
        → (c : IsCreated t x d) → DescriptorIsValid (descriptor t c.text (digest_of c.payload))
    unfolding layout_json
    created_DescriptorIsValid t x d c =
        let (w, parsed, again, kind) = laws.reads_back (extension_value l x) c.text c.canonical in
        record {
          format = refl;
          terms = c.valid;
          extension = w;
          parsed = parsed;
          object = kind ∙ extension_is_dict x;
          canonical = again;
          bounded = c.bounded;
          payload = c.payload;
          encoded =
              laws.last_by_text (layout_fields (pos 1) t) "extension" w (extension_value l x)
                (again ∙ sym c.canonical)
              ∙ c.encoded;
          sealed = refl;
        }

    IsCreated-create :
        (t : LayoutTerms) (x : Option Fields) (d : MemoryLayoutDescriptor)
        → IsCreated t x d
        → create l t x ≡ ok d
    unfolding create
    IsCreated-create t x d c =
        let short : ltb max_extension (text_length c.text) ≡ false =
          within_limit c.text c.bounded in
        rw
          (
            (canonical_json-eq-ok (extension_value l x) c.text).1 c.canonical,
            short,
            canonical_digest_of_text (layout_json (pos 1) t (extension_value l x)) c.payload
                c.encoded,
            validate_complete (descriptor t c.text (digest_of c.payload))
                (created_DescriptorIsValid t x d c),
          )
          (ap ok (sym c.made))

    -- `create` succeeds exactly for valid terms whose extension has a canonical text of at most 1 MiB,
    -- and then returns these terms under format 1 with that text and the digest of all fields; so the
    -- check of its own result never refuses what it has made.
    pub layout_create_iff :
        (t : LayoutTerms) (x : Option Fields) (d : MemoryLayoutDescriptor)
        → (create l t x ≡ ok d) ↔ IsCreated t x d
    layout_create_iff t x d = (made-IsCreated t x d, IsCreated-create t x d)
