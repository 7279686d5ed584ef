-- ===== src/Memory/Layouts.antt =====
-- memory.py: `MemoryLayoutDescriptor`, its canonical JSON, its digest, `create` and `validate`.
pub mod Validity
pub mod Creation
use Prim.Native.String.{◌++◌ as append}
use coldsnap.Base.{
  ℕ, ◌*◌, String, Bool, true, false, ◌&&◌, ◌||◌, not, Option, none, some, List, [], ◌∷◌, Result, ok,
  raised, ◌>>=◌, ◌>>◌, raise_if, ◌==◌, string_eq, bool_eq, is_empty, text_length, is_distinct, any,
  ℤ, pos, ltb, ltb_ℤ, leb_ℤ, eqb_ℤ, Json, Fields, str, int, bool, obj, arr, field, end, array,
  option_json, with_last, is_dict, JsonLibrary, bool_beq,
}
use coldsnap.Memory.Failures.{
  Failure, value_error, number_out_of_range, extension_too_large, extension_invalid_json,
  extension_not_object, layout_invalid, layout_digest_mismatch,
}
use coldsnap.Memory.Regions.{MemoryRegion, policy_value}

pub data MemoryLayoutKind : Type 0 where
  contiguous per_layer unified opaque : MemoryLayoutKind

abbrev pub kind_value : MemoryLayoutKind → String
kind_value contiguous = "contiguous"
kind_value per_layer = "per-layer"
kind_value unified = "unified"
kind_value opaque = "opaque"

-- What `create` is given, but for the extension.
pub record LayoutTerms : Type 0 where
  pub provider : String
  pub provider_abi : ℤ
  pub region : MemoryRegion
  pub device : String
  pub base_address : Option ℤ
  pub logical_bytes : ℤ
  pub allocation_granularity : ℤ
  pub mapping_granularity : ℤ
  pub layout_kind : MemoryLayoutKind
  pub groups : List String
  pub extent_count : ℤ
  pub transport_registration_mode : String

pub record MemoryLayoutDescriptor : Type 0 where
  pub format : ℤ
  pub terms : LayoutTerms
  pub open terms use *
  pub extension_json : String
  pub layout_digest : String

abbrev pub max_extension : ℕ
max_extension = 1024 * 1024

module _ (l : JsonLibrary) where
  or_value_error : Option String → Result Failure String
  or_value_error (some s) = ok s
  or_value_error _ = raised (value_error number_out_of_range)

  unfoldable pub canonical_json : Json → Result Failure String
  unfolding or_value_error
  canonical_json value = or_value_error (l.dumps value)

  unfoldable pub canonical_digest : Json → Result Failure String
  unfolding canonical_json
  canonical_digest value = do
    payload ← canonical_json value
    ok (append "sha256:" (l.sha256 payload))

unfoldable pub region_json : MemoryRegion → Json
region_json r = obj (
    field "name" (str r.name) (
      field "policy" (str (policy_value r.policy))
        (field "stable_address" (bool r.stable_address) end)))

-- The dict literal `fields` up to its last entry, which is the extension.
unfoldable pub layout_fields : ℤ → LayoutTerms → Fields
layout_fields format t = field "format" (int format) (
    field "provider" (str t.provider) (
      field "provider_abi" (int t.provider_abi) (
        field "region" (region_json t.region) (
          field "device" (str t.device) (
            field "base_address" (option_json int t.base_address) (
              field "logical_bytes" (int t.logical_bytes) (
                field "allocation_granularity" (int t.allocation_granularity) (
                  field "mapping_granularity" (int t.mapping_granularity) (
                    field "layout_kind" (str (kind_value t.layout_kind)) (
                      field "groups" (arr (array str t.groups)) (
                        field "extent_count" (int t.extent_count) (
                          field "transport_registration_mode" (str t.transport_registration_mode)
                            end))))))))))))

unfoldable pub layout_json : ℤ → LayoutTerms → Json → Json
layout_json format t extension = obj (with_last (layout_fields format t) "extension" extension)

abbrev pub below_zero : Option ℤ → Bool
below_zero (some a) = ltb_ℤ a (pos 0)
below_zero _ = false

abbrev pub absent {ℓ} : {A : Type ℓ} → Option A → Bool
absent (some a) = false
absent _ = true

-- The tests of `validate` before the extension's, in the source's order.
unfoldable pub terms_refused : ℤ → LayoutTerms → List Bool
terms_refused format t =
    not (eqb_ℤ format (pos 1))
    ∷ is_empty t.provider
    ∷ leb_ℤ t.provider_abi (pos 0)
    ∷ is_empty t.device
    ∷ below_zero t.base_address
    ∷ (t.region.stable_address && ltb_ℤ (pos 0) t.logical_bytes && absent t.base_address)
    ∷ ltb_ℤ t.logical_bytes (pos 0)
    ∷ leb_ℤ t.allocation_granularity (pos 0)
    ∷ leb_ℤ t.mapping_granularity (pos 0)
    ∷ ltb_ℤ t.extent_count (pos 0)
    ∷ not (bool_beq (eqb_ℤ t.logical_bytes (pos 0)) (eqb_ℤ t.extent_count (pos 0)))
    ∷ is_empty t.transport_registration_mode
    ∷ not (is_distinct t.groups)
    ∷ any is_empty t.groups
    ∷ []

-- `a or b or ...`
abbrev pub any_of : List Bool → Bool
any_of = any (λ b. b)

module _ (l : JsonLibrary) where
  or_invalid_json : Option Json → Result Failure Json
  or_invalid_json (some v) = ok v
  or_invalid_json _ = raised (value_error extension_invalid_json)

  -- `json.loads(self.extension_json)` with its handler
  unfoldable pub read_extension : String → Result Failure Json
  unfolding or_invalid_json
  read_extension text = or_invalid_json (l.loads text)

  unfoldable pub validate : MemoryLayoutDescriptor → Result Failure (Unit {0})
  unfolding read_extension terms_refused
  validate self = do
    extension ← read_extension self.extension_json
    raise_if (any_of (terms_refused self.format self.terms)) (value_error layout_invalid)
    raise_if (not (is_dict extension)) (value_error layout_invalid)
    text ← canonical_json l extension
    raise_if (not (self.extension_json == text)) (value_error layout_invalid)
    raise_if (ltb max_extension (text_length self.extension_json)) (value_error layout_invalid)
    digest ← canonical_digest l (layout_json self.format self.terms extension)
    raise_if (not (self.layout_digest == digest)) (value_error layout_digest_mismatch)

  -- `dict(extension or {})`
  abbrev pub extension_value : Option Fields → Json
  extension_value (some fs) = obj fs
  extension_value _ = obj end

  unfoldable pub create : LayoutTerms → Option Fields → Result Failure MemoryLayoutDescriptor
  create t extension = do
    let extension_value = extension_value extension
    extension_json ← canonical_json l extension_value
    raise_if (ltb max_extension (text_length extension_json)) (value_error extension_too_large)
    digest ← canonical_digest l (layout_json (pos 1) t extension_value)
    let result : MemoryLayoutDescriptor = record {
      format = pos 1;
      terms = t;
      extension_json = extension_json;
      layout_digest = digest;
    }
    validate result
    ok result

  or_not_object : Json → Result Failure Json
  or_not_object value = do
    raise_if (not (is_dict value)) (value_error extension_not_object)
    ok value

  -- The property `extension`; here the handler of `validate` is absent, but a text that is not JSON
  -- raises a `ValueError` too.
  unfoldable pub extension : MemoryLayoutDescriptor → Result Failure Json
  unfolding read_extension or_not_object
  extension self = do value ← read_extension self.extension_json; or_not_object value
