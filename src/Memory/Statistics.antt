-- ===== src/Memory/Statistics.antt =====
-- memory.py: `MemoryResidencyStats` and its `validate`.
use coldsnap.Base.{
  String, Bool, false, ◌||◌, not, List, [], ◌∷◌, ◌≡◌, ◌↔◌, Result, ok, raise_if, is_empty, any, All,
  ℤ, pos, ◌+ℤ◌, ◌≤ℤ◌, ltb_ℤ, eqb_ℤ, eqb_ℤ_iff, arith, raise_if-ok, refl, pos_part, ◌+◌, ◌≤◌,
}
use coldsnap.Memory.Layouts.Validity.{not-false_iff}
use coldsnap.Memory.Failures.{Failure, value_error, statistics_invalid}

pub record MemoryResidencyStats : Type 0 where
  pub format : ℤ
  pub provider : String
  pub region : String
  pub logical_bytes : ℤ
  pub mapped_physical_bytes : ℤ
  pub reserved_physical_bytes : ℤ
  pub preserved_bytes : ℤ
  pub discardable_bytes : ℤ
  pub externally_hydrated_bytes : ℤ
  pub allocation_count : ℤ
  pub page_count : ℤ
  pub released_mapping_count : ℤ
  pub lifecycle_revision : ℤ
  pub lifecycle_epoch : String

abbrev pub numeric : MemoryResidencyStats → List ℤ
numeric s =
    s.logical_bytes ∷ s.mapped_physical_bytes ∷ s.reserved_physical_bytes ∷ s.preserved_bytes
    ∷ s.discardable_bytes ∷ s.externally_hydrated_bytes ∷ s.allocation_count ∷ s.page_count
    ∷ s.released_mapping_count ∷ s.lifecycle_revision ∷ []

unfoldable pub validate : MemoryResidencyStats → Result Failure (Unit {0})
validate self =
    raise_if
      (not (eqb_ℤ self.format (pos 1))
        || is_empty self.provider
        || is_empty self.region
        || is_empty self.lifecycle_epoch
        || any (λ value. ltb_ℤ value (pos 0)) (numeric self)
        || ltb_ℤ self.allocation_count self.released_mapping_count
        || ltb_ℤ self.mapped_physical_bytes
            (self.preserved_bytes +ℤ self.discardable_bytes +ℤ self.externally_hydrated_bytes))
      (value_error statistics_invalid)

-- Named, with no negative count, no more mappings released than allocations made, and the three kinds
-- of contents within what is mapped.
pub record StatisticsAreValid (s : MemoryResidencyStats) : Type 0 where
  pub format : s.format ≡ pos 1
  pub provider : is_empty s.provider ≡ false
  pub region : is_empty s.region ≡ false
  pub epoch : is_empty s.lifecycle_epoch ≡ false
  pub counts : All (λ n. pos 0 ≤ℤ n) (numeric s)
  pub released : s.released_mapping_count ≤ℤ s.allocation_count
  pub contents :
      pos_part s.preserved_bytes
        + pos_part s.discardable_bytes
        + pos_part s.externally_hydrated_bytes
      ≤ pos_part s.mapped_physical_bytes

counts_iff :
    (ns : List ℤ) → (any (λ value. ltb_ℤ value (pos 0)) ns ≡ false) ↔ All (λ n. pos 0 ≤ℤ n) ns
counts_iff [] = (λ _. tt, λ _. refl)
counts_iff (n ∷ ns) = ground (arith, counts_iff ns)

contents_iff :
    (a b c m : ℤ)
    → pos 0 ≤ℤ a
    → pos 0 ≤ℤ b
    → pos 0 ≤ℤ c
    → pos 0 ≤ℤ m
    → (ltb_ℤ m (a +ℤ b +ℤ c) ≡ false) ↔ (pos_part a + pos_part b + pos_part c ≤ pos_part m)
unfolding ◌+ℤ◌
contents_iff a b c m p q r s = ground arith

refused_tests :
    (a b c d e f g : Bool)
    → (a || b || c || d || e || f || g) ≡ false
    → All (λ t. t ≡ false) (a ∷ b ∷ c ∷ d ∷ e ∷ f ∷ g ∷ [])
refused_tests a b c d e f g h = ground arith

released_iff :
    (s : MemoryResidencyStats)
    → (ltb_ℤ s.allocation_count s.released_mapping_count ≡ false)
      ↔ (s.released_mapping_count ≤ℤ s.allocation_count)
released_iff s = ground arith

validate_sound : (s : MemoryResidencyStats) → validate s ≡ ok tt → StatisticsAreValid s
unfolding validate
validate_sound s h =
    let t = refused_tests _ _ _ _ _ _ _ (raise_if-ok _ _ h) in
    let counts : All (λ n. pos 0 ≤ℤ n) (numeric s) = (counts_iff (numeric s)).0 t.1.1.1.1.0 in
    record {
      format = (eqb_ℤ_iff s.format (pos 1)).0 ((not-false_iff _).0 t.0);
      provider = t.1.0;
      region = t.1.1.0;
      epoch = t.1.1.1.0;
      counts = counts;
      released = (released_iff s).0 t.1.1.1.1.1.0;
      contents =
          (contents_iff s.preserved_bytes s.discardable_bytes s.externally_hydrated_bytes
              s.mapped_physical_bytes counts.1.1.1.0 counts.1.1.1.1.0 counts.1.1.1.1.1.0
              counts.1.0).0
            t.1.1.1.1.1.1.0;
    }

validate_complete : (s : MemoryResidencyStats) → StatisticsAreValid s → validate s ≡ ok tt
unfolding validate
validate_complete s v = rw (
  (eqb_ℤ_iff s.format (pos 1)).1 v.format,
  v.provider,
  v.region,
  v.epoch,
  (counts_iff (numeric s)).1 v.counts,
  (released_iff s).1 v.released,
  (contents_iff s.preserved_bytes s.discardable_bytes s.externally_hydrated_bytes
        s.mapped_physical_bytes v.counts.1.1.1.0 v.counts.1.1.1.1.0 v.counts.1.1.1.1.1.0
        v.counts.1.0).1
      v.contents,
)

-- Statistics are accepted exactly when they are valid.
pub statistics_validate_iff :
    (s : MemoryResidencyStats) → (validate s ≡ ok tt) ↔ StatisticsAreValid s
statistics_validate_iff s = (validate_sound s, validate_complete s)
