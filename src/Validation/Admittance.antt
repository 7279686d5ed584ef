-- ===== src/Validation/Admittance.antt =====
-- An external admission that is taken, and the theorem at it.
use coldsnap.Base.{
  false, String, ◌≡◌, refl, Result, ok, raised, ℤ, pos, Float, finite, Json, end, field, str, int,
  float, obj, string_eq,
}
use coldsnap.Validation.Stats.{ValidationError, invalid_external_admission}
use coldsnap.Validation.Records.{last_of}
use coldsnap.Validation.Payloads.{Admission}
use coldsnap.Validation.Admissions.{
  Conversions, item, int_item, require_str, require_int, require_identity, content_of,
  diagnostics_of, details_of, normalize_external_admission,
}
use coldsnap.Validation.Admitted.{normalize_external_admission-says}

abbrev int_of : Json → Result ValidationError ℤ
int_of (int n) = ok n
int_of _ = raised invalid_external_admission

abbrev float_of : Json → Result ValidationError Float
float_of (float x) = ok x
float_of _ = raised invalid_external_admission

abbrev text_of : Json → String
text_of (str s) = s
text_of _ = ""

abbrev conversions : Conversions
conversions = record {
  float_is = λ x n. false;
  to_int = int_of;
  to_float = float_of;
  to_str = text_of;
}

abbrev validation : Json
validation = obj (
    field "record" (str "weights.json") (
      field "provider" (str "sha256-cache-v1") (
        field "device" (int (pos 1)) (
          field "inode" (int (pos 2)) (
            field "size" (int (pos 2)) (
              field "mtime_ns" (int (pos 3)) (
                field "ctime_ns" (int (pos 4)) (
                  field "uid" (int (pos 0)) (
                    field "gid" (int (pos 0)) (
                      field "mode" (int (pos 384)) (
                        field "reason" (str "cached_validation") (
                          field "content_evidence" (str "cached-full-sha256") (
                            field "bytes_hashed" (int (pos 0))
                              (field "seconds" (float (finite (pos 1) (pos 0))) end))))))))))))))

abbrev answer : Json
answer = obj (
    field "format" (int (pos 1)) (
      field "kind" (str "coldsnap-payload-validation-result") (
        field "decision" (str "accept") (
          field "path" (str "weights") (
            field "bytes" (int (pos 2))
              (field "sha256" (str "sha256:00") (field "validation" validation end)))))))

abbrev admitted : Admission
admitted = record {
  reason = "cached_validation";
  content_evidence = "cached-full-sha256";
  bytes_hashed = pos 0;
  seconds = finite (pos 1) (pos 0);
  marker = "weights.json";
  content = record { device = pos 1; inode = pos 2; size = pos 2; mtime_ns = pos 3 };
  diagnostics = record { ctime_ns = pos 4; uid = pos 0; gid = pos 0; mode = pos 384 };
}

takes :
    normalize_external_admission conversions "weights" "weights.json" "sha256:00" (pos 2) answer
    ≡ ok admitted
unfolding normalize_external_admission item int_item require_identity require_str require_int
    content_of diagnostics_of details_of last_of
takes = refl

refuses_other_path :
    normalize_external_admission conversions "other" "weights.json" "sha256:00" (pos 2) answer
    ≡ raised invalid_external_admission
unfolding normalize_external_admission item require_identity require_str require_int last_of
refuses_other_path = refl

normalize_external_admission-says_example :
    (v : Json) × (item "validation" answer ≡ ok v)
    × (item "decision" answer ≡ ok (str "accept"))
    × (item "path" answer ≡ ok (str "weights"))
    × (item "sha256" answer ≡ ok (str "sha256:00"))
    × (item "record" v ≡ ok (str "weights.json"))
    × (content_of conversions v ≡ ok admitted.content)
    × (admitted.content.size ≡ pos 2)
    × (admitted.marker ≡ "weights.json")
normalize_external_admission-says_example =
    normalize_external_admission-says conversions "weights" "weights.json" "sha256:00" (pos 2)
      answer admitted takes
