-- ===== src/Validation/Admitted.antt =====
-- What an external admission says when it is taken.
use coldsnap.Base.{
  String, Bool, true, false, not, ◌≡◌, refl, ok, raise_if-ok, ok_injective, >>=-eq-ok,
  raise_if-eq-ok, eqb_ℤ, eqb_ℤ_iff, ==_eq, string_eq, ℤ, pos, Json, null, bool, int, float, arr,
  obj, str, sym, ap, ◌∙◌,
}
use coldsnap.Validation.Stats.{invalid_external_admission, ContentIdentity, DiagnosticIdentity}
use coldsnap.Validation.Records.{equals_str}
use coldsnap.Validation.Payloads.{Admission}
use coldsnap.Validation.Admissions.{
  Conversions, item, int_item, require_str, require_int, require_identity, content_of,
  diagnostics_of, details_of, normalize_external_admission,
}

unnegated : (b : Bool) → not b ≡ false → b ≡ true
unnegated true h = refl
unnegated false h = cc

equals_str-eq : (s : String) (v : Json) → equals_str s v ≡ true → v ≡ str s
equals_str-eq s (str t) h = ap str (==_eq t s h)
equals_str-eq s null h = cc
equals_str-eq s (bool b) h = cc
equals_str-eq s (int n) h = cc
equals_str-eq s (float x) h = cc
equals_str-eq s (arr xs) h = cc
equals_str-eq s (obj fs) h = cc

module _ (c : Conversions) where
  require_str-ok :
      (key expected : String) (value : Json) {u : Unit {0}}
      → require_str c key expected value ≡ ok u
      → item key value ≡ ok (str expected)
  unfolding require_str
  require_str-ok key expected value h =
      let (v, p, q) = >>=-eq-ok (item key value) _ h in
      let equal : equals_str expected v ≡ true =
        unnegated (equals_str expected v)
          (raise_if-ok (not (equals_str expected v)) invalid_external_admission q) in
      p ∙ ap ok (equals_str-eq expected v equal)

  -- What the identity says: the payload is accepted, and it is this one, with this digest and this record.
  require_identity-ok :
      (blob marker expected : String) (bytes : ℤ) (admission validation : Json) {u : Unit {0}}
      → require_identity c blob marker expected bytes admission validation ≡ ok u
      → (item "decision" admission ≡ ok (str "accept"))
        × (item "path" admission ≡ ok (str blob))
        × (item "sha256" admission ≡ ok (str expected))
        × (item "record" validation ≡ ok (str marker))
  unfolding require_identity
  require_identity-ok blob marker expected bytes admission validation h =
      let (u1, p1, h1) = >>=-eq-ok (require_int c "format" (pos 1) admission) _ h in
      let (u2, p2, h2) =
        >>=-eq-ok (require_str c "kind" "coldsnap-payload-validation-result" admission) _ h1 in
      let (u3, p3, h3) = >>=-eq-ok (require_str c "decision" "accept" admission) _ h2 in
      let (u4, p4, h4) = >>=-eq-ok (require_str c "path" blob admission) _ h3 in
      let (u5, p5, h5) = >>=-eq-ok (require_int c "bytes" bytes admission) _ h4 in
      let (u6, p6, h6) = >>=-eq-ok (require_str c "sha256" expected admission) _ h5 in
      let (u7, p7, h7) = >>=-eq-ok (require_str c "record" marker validation) _ h6 in
      (
        require_str-ok "decision" "accept" admission p3,
        require_str-ok "path" blob admission p4,
        require_str-ok "sha256" expected admission p6,
        require_str-ok "record" marker validation p7,
      )

  details_of-ok :
      (marker : String) (validation : Json) (content : ContentIdentity)
      (diagnostics : DiagnosticIdentity) (a : Admission)
      → details_of c marker validation content diagnostics ≡ ok a
      → (a.content ≡ content) × (a.marker ≡ marker)
  unfolding details_of
  details_of-ok marker validation content diagnostics a h =
      let (reason, p6, h6) = >>=-eq-ok (item "reason" validation) _ h in
      let (evidence, p7, h7) = >>=-eq-ok (item "content_evidence" validation) _ h6 in
      let (hashed, p8, h8) = >>=-eq-ok (int_item c "bytes_hashed" validation) _ h7 in
      let (taken, p9, h9) = >>=-eq-ok (item "seconds" validation) _ h8 in
      let (seconds, p10, h10) = >>=-eq-ok (c.to_float taken) _ h9 in
      let made = ok_injective h10 in (sym (ap (λ x. x.content) made), sym (ap (λ x. x.marker) made))

  -- An external admission is taken only if it says that the payload at this path is accepted, with this digest
  -- and this record, and the identity that is taken from it has the expected size.
  pub normalize_external_admission-says :
      (blob marker expected : String) (bytes : ℤ) (admission : Json) (a : Admission)
      → normalize_external_admission c blob marker expected bytes admission ≡ ok a
      → (validation : Json) × (item "validation" admission ≡ ok validation)
        × (item "decision" admission ≡ ok (str "accept"))
        × (item "path" admission ≡ ok (str blob))
        × (item "sha256" admission ≡ ok (str expected))
        × (item "record" validation ≡ ok (str marker))
        × (content_of c validation ≡ ok a.content)
        × (a.content.size ≡ bytes)
        × (a.marker ≡ marker)
  unfolding normalize_external_admission
  normalize_external_admission-says blob marker expected bytes admission a h =
      let (validation, p1, h1) = >>=-eq-ok (item "validation" admission) _ h in
      let (u, p2, h2) =
        >>=-eq-ok (require_identity c blob marker expected bytes admission validation) _ h1 in
      let (content, p3, h3) = >>=-eq-ok (content_of c validation) _ h2 in
      let (diagnostics, p4, h4) = >>=-eq-ok (diagnostics_of c validation) _ h3 in
      let (sized, h5) =
        raise_if-eq-ok (not (eqb_ℤ content.size bytes)) invalid_external_admission _ h4 in
      let (kept, marker_kept) = details_of-ok marker validation content diagnostics a h5 in
      let (accepted, path, digest, marked) =
        require_identity-ok blob marker expected bytes admission validation p2 in
      let equal : eqb_ℤ content.size bytes ≡ true = unnegated (eqb_ℤ content.size bytes) sized in
      let size : content.size ≡ bytes = (eqb_ℤ_iff content.size bytes).0 equal in
      (
        validation,
        p1,
        accepted,
        path,
        digest,
        marked,
        p3 ∙ ap ok (sym kept),
        ap (λ (x : ContentIdentity). x.size) kept ∙ size,
        marker_kept,
      )
