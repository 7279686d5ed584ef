-- ===== src/Base/Codec.antt =====
-- JSON values, and the library functions by which the program turns them into canonical text and
-- digests: `json.dumps` with sorted keys, `json.loads`, and SHA-256. Those functions are parameters.
use Prim.Native.String.{String}
use mathlib.Core.Path.{◌≡◌}
use mathlib.Core.Bool.{Bool, true, false}
use mathlib.Core.List.{List, [], ◌∷◌}
use mathlib.Core.Option.{Option, some}
use coldsnap.Base.Ints.{ℤ}

-- A finite float is mantissa and exponent; the others have no JSON text.
pub data Float : Type 0 where
  finite : ℤ → ℤ → Float
  non_finite : Float

mutual
  pub data Json : Type 0 where
    null : Json
    bool : Bool → Json
    int : ℤ → Json
    float : Float → Json
    str : String → Json
    arr : Items → Json
    obj : Fields → Json

  pub data Items : Type 0 where
    nil : Items
    cons : Json → Items → Items

  pub data Fields : Type 0 where
    end : Fields
    field : String → Json → Fields → Fields

abbrev pub is_dict : Json → Bool
is_dict (obj fs) = true
is_dict _ = false

abbrev pub array {ℓ} : {A : Type ℓ} → (A → Json) → List A → Items
array f [] = nil
array f (x ∷ xs) = cons (f x) (array f xs)

abbrev pub option_json {ℓ} : {A : Type ℓ} → (A → Json) → Option A → Json
option_json f (some a) = f a
option_json f _ = null

-- A dict literal's last entry.
abbrev pub with_last : Fields → String → Json → Fields
with_last end k v = field k v end
with_last (field j w fs) k v = field j w (with_last fs k v)

-- `dumps` has none for a float that is not finite, `loads` for a text that is not JSON.
pub record JsonLibrary : Type 0 where
  pub dumps : Json → Option String
  pub loads : String → Option Json
  pub sha256 : String → String

-- What is documented of them and used: canonical text is read back as a value of the same kind with
-- the same canonical text, and a member of an object counts only by its canonical text.
pub record JsonLaws (l : JsonLibrary) : Type 0 where
  pub reads_back :
      (v : Json) (s : String)
      → l.dumps v ≡ some s
      → (w : Json) × (l.loads s ≡ some w) × (l.dumps w ≡ some s) × (is_dict w ≡ is_dict v)
  pub last_by_text :
      (fs : Fields) (k : String) (v w : Json)
      → l.dumps v ≡ l.dumps w
      → l.dumps (obj (with_last fs k v)) ≡ l.dumps (obj (with_last fs k w))
