-- ===== src/Memory/Capabilities.antt =====
-- memory.py: what an allocation provider says that it can guarantee, and `require`.
use coldsnap.Base.{
  String, Bool, true, false, not, List, [], ◌∷◌, Result, ◌==◌, string_eq, is_empty, raise_if, ℤ,
  pos, eqb_ℤ, if◌then◌else◌,
}
use coldsnap.Memory.Failures.{Failure, memory_capability_error, capability_unavailable}

pub record ProviderCapabilities : Type 0 where
  pub provider : String
  pub tagged_regions : Bool
  pub stable_virtual_addresses : Bool
  pub scoped_interception : Bool
  pub allocation_enumeration : Bool
  pub external_snapshot_store : Bool
  pub graph_regions : Bool
  pub per_device_synchronization : Bool
  pub provider_abi : ℤ
  pub native_backing_stores : List String
  pub exact_address_reservation : Bool
  pub page_granular_mapping : Bool
  pub batched_mapping : Bool
  pub release_backing_retain_va : Bool
  pub sentinel_backing : Bool
  pub distributed_atomic_mapping : Bool
  pub revisioned_limits : Bool
  pub mapping_recipe_replay : Bool
  pub transport_registration_ownership : Bool
  pub background_reserve : Bool
  pub checkpoint_quiescence : Bool

abbrev is_none {ℓ} : {A : Type ℓ} → List A → Bool
is_none [] = true
is_none (x ∷ xs) = false

-- `bool(value)` of each field, by the field's name.
unfoldable pub attributes : ProviderCapabilities → List (String × Bool)
attributes c =
    ("provider", not (is_empty c.provider))
    ∷ ("tagged_regions", c.tagged_regions)
    ∷ ("stable_virtual_addresses", c.stable_virtual_addresses)
    ∷ ("scoped_interception", c.scoped_interception)
    ∷ ("allocation_enumeration", c.allocation_enumeration)
    ∷ ("external_snapshot_store", c.external_snapshot_store)
    ∷ ("graph_regions", c.graph_regions)
    ∷ ("per_device_synchronization", c.per_device_synchronization)
    ∷ ("provider_abi", not (eqb_ℤ c.provider_abi (pos 0)))
    ∷ ("native_backing_stores", not (is_none c.native_backing_stores))
    ∷ ("exact_address_reservation", c.exact_address_reservation)
    ∷ ("page_granular_mapping", c.page_granular_mapping)
    ∷ ("batched_mapping", c.batched_mapping)
    ∷ ("release_backing_retain_va", c.release_backing_retain_va)
    ∷ ("sentinel_backing", c.sentinel_backing)
    ∷ ("distributed_atomic_mapping", c.distributed_atomic_mapping)
    ∷ ("revisioned_limits", c.revisioned_limits)
    ∷ ("mapping_recipe_replay", c.mapping_recipe_replay)
    ∷ ("transport_registration_ownership", c.transport_registration_ownership)
    ∷ ("background_reserve", c.background_reserve)
    ∷ ("checkpoint_quiescence", c.checkpoint_quiescence)
    ∷ []

-- `bool(getattr(self, attribute, False))`
unfoldable pub truthy : String → List (String × Bool) → Bool
truthy attribute [] = false
truthy attribute ((name, value) ∷ rest) = if name == attribute then value else truthy attribute rest

-- The text of the operation only goes into the message.
unfoldable pub require : ProviderCapabilities → String → Result Failure (Unit {0})
unfolding attributes truthy
require self attribute =
    raise_if (not (truthy attribute (attributes self)))
      (memory_capability_error (capability_unavailable attribute))
