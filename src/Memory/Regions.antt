-- ===== src/Memory/Regions.antt =====
-- memory.py: preservation policies, semantic regions, and `resolve_regions`.
pub mod Resolution
use coldsnap.Base.{
  String, Bool, true, false, ◌||◌, ◌&&◌, not, Option, none, some, List, [], ◌∷◌, ◌++◌, map, ◌≡◌,
  ◌↔◌, Result, ok, raised, ◌>>=◌, ◌>>◌, raise_if, Eq, ◌==◌, string_eq, member, is_empty, any_space,
  strip, if◌then◌else◌, arith, eq_iff,
}
use coldsnap.Memory.Failures.{
  Failure, value_error, memory_capability_error, invalid_region_name, external_stable_address,
  unknown_region, duplicate_region,
}

pub data PreservationPolicy : Type 0 where
  preserve discard recreate external : PreservationPolicy

-- `policy.value`, by which the members of a `str` enumeration are compared too.
abbrev pub policy_value : PreservationPolicy → String
policy_value preserve = "preserve"
policy_value discard = "discard"
policy_value recreate = "recreate"
policy_value external = "external"

pub record MemoryRegion : Type 0 where
  pub name : String
  pub policy : PreservationPolicy
  pub stable_address : Bool

abbrev pub is_external : PreservationPolicy → Bool
is_external external = true
is_external _ = false

-- `MemoryRegion.__post_init__`
unfoldable pub post_init : MemoryRegion → Result Failure (Unit {0})
post_init self = do
  raise_if (is_empty self.name || not (strip self.name == self.name) || any_space self.name)
      (value_error (invalid_region_name self.name))
  raise_if (is_external self.policy && self.stable_address) (value_error external_stable_address)

abbrev pub weights : MemoryRegion
weights = record { name = "weights"; policy = preserve; stable_address = true }

abbrev pub kv_cache : MemoryRegion
kv_cache = record { name = "kv_cache"; policy = discard; stable_address = true }

abbrev pub cuda_graph : MemoryRegion
cuda_graph = record { name = "cuda_graph"; policy = recreate; stable_address = true }

abbrev pub workspace : MemoryRegion
workspace = record { name = "workspace"; policy = recreate; stable_address = true }

abbrev pub external_region : MemoryRegion
external_region = record { name = "external"; policy = external; stable_address = false }

-- The values of `STANDARD_REGIONS`, in its order; each is filed under its name.
abbrev pub standard_regions : List MemoryRegion
standard_regions = weights ∷ kv_cache ∷ cuda_graph ∷ workspace ∷ external_region ∷ []

-- A lookup by name, the first entry taken.
unfoldable pub find_region : String → List MemoryRegion → Option MemoryRegion
find_region name [] = none
find_region name (r ∷ rs) = if r.name == name then some r else find_region name rs

-- An argument `str | MemoryRegion`.
pub data RegionRef : Type 0 where
  by_name : String → RegionRef
  region : MemoryRegion → RegionRef

unfoldable pub or_unknown : String → Option MemoryRegion → Result Failure MemoryRegion
or_unknown name (some r) = ok r
or_unknown name _ = raised (memory_capability_error (unknown_region name))

-- The body of the loop up to the test for duplicates.
unfoldable pub resolve_one : RegionRef → Result Failure MemoryRegion
unfolding find_region or_unknown
resolve_one (region r) = ok r
resolve_one (by_name name) = or_unknown name (find_region name standard_regions)

unfoldable pub resolve_loop :
    List RegionRef → List String → List MemoryRegion → Result Failure (List MemoryRegion)
resolve_loop [] seen result = ok result
resolve_loop (value ∷ values) seen result = do
  found ← resolve_one value
  raise_if (member found.name seen) (value_error (duplicate_region found.name))
  resolve_loop values (found.name ∷ seen) (result ++ found ∷ [])

unfoldable pub resolve_regions : Option (List RegionRef) → Result Failure (List MemoryRegion)
resolve_regions (some values) = resolve_loop values [] []
resolve_regions _ = ok standard_regions
